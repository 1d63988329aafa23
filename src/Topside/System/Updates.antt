-- ===== src/Topside/System/Updates.antt =====
-- Updates of the leader reach the phones that watch their session, in the whole of crates/topside.
use aqualung.Common.{
  ℕ, ◌+◌, ◌<◌, ◌^◌, String, ◌≡◌, true, none, some, List, [], ◌∷◌, ◌++◌, nat_eq, string_eq,
  if◌then◌else◌, ok, ◌>>=◌,
}
use aqualung.Common.HashMap.{get}
use aqualung.Common.HashSet.{contains}
use aqualung.Json.{Json}
use aqualung.Pki.{Pki}
use aqualung.Wire.{LeaderServer}
use aqualung.Wire.Rpc.{parse_rpc_text, session_id_in, method_of}
use aqualung.Hub.Link.{for_phone, mux}
use aqualung.Hub.State.{Phone, phone_out, role}
use aqualung.Hub.Watching.{or_default}
use aqualung.Hub.Run.{home_frame, handle}
use aqualung.Hub.Updates.{handle_update}
use aqualung.Topside.Config.{ClientCertVerifier}
use aqualung.Topside.Net.Bearer.{Http}
use aqualung.Topside.Net.Home.{Codec}
use aqualung.Topside.System.{System, Reach}
use aqualung.Topside.System.Reached.{Reach-Sound}
use aqualung.Topside.System.Admitted.{Reach-Tied}

module _ ⦃J : Json⦄ ⦃P : Pki⦄ ⦃H : Http⦄ ⦃S : Codec⦄ where
  open J use {Value, field, as_str, to_string}

  -- While the hub runs, with fewer than 2 ^ 64 - 1 home connections and 2 ^ 64 phones so far, in
  -- whatever order all tasks went on: when the hub takes an update that the leader sent on a session,
  -- on the connection that is served, it sends it once to each connected phone that watches the
  -- session, behind everything that it has sent to the phone before, and sends nothing to any other
  -- phone.
  pub Reach-update :
      (verifier : ClientCertVerifier) (token : List ℕ) (s : System) (now gen p : ℕ) (slot : Phone)
      (payload method session : String) (obj : Value)
      → Reach verifier token s
      → s.running ≡ true
      → s.callers < 2 ^ 64
      → s.homes + 1 < 2 ^ 64
      → get p s.hub.phones ≡ some slot
      → role s.hub gen ≡ mux
      → parse_rpc_text payload ≡ ok obj
      → (do value ← field obj "method"; as_str value) ≡ some method
      → method_of method ≡ "session/update"
      → field obj "id" ≡ none
      → session_id_in obj ≡ some session
      → for_phone
          (phone_out slot)
          (handle now (home_frame gen (LeaderServer.acp payload)) s.hub).sent
        ≡ for_phone (phone_out slot) s.hub.sent
          ++ (if contains p (or_default (get session s.hub.watchers))
              then to_string obj ∷ []
              else [])
  Reach-update verifier token s now gen p slot payload method session obj reached run few many there
        served parsed named update no_id on_session =
      handle_update now gen p slot payload method session obj s.hub
        (Reach-Sound verifier token s reached run few many).counted.tables there
        (Reach-Tied verifier token s reached run few many p slot there).1 served parsed named update
        no_id on_session
