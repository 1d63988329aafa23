-- ===== src/Hub/Updates.antt =====
-- Updates of the leader go to the watchers of their session: crates/topside/src/hub.rs.
use aqualung.Common.{
  ℕ, String, ◌≡◌, ap, ◌∙◌, sym, Bool, Option, none, some, List, [], ◌∷◌, ◌++◌, ◌==◌, nat_eq,
  string_eq, ==_iff, if◌then◌else◌, arith, ok, ◌>>=◌, inl, inr, Bool-cases, Option-cases,
}
use mathlib.Core.List.{append-nil}
use aqualung.Common.HashMap.{HashMap, get}
use aqualung.Common.HashSet.{contains, Distinct}
use aqualung.Json.{Json}
use aqualung.Wire.{LeaderServer}
use aqualung.Wire.Rpc.{parse_rpc_text, session_id_in, method_of}
use aqualung.Hub.Link.{for_phone, mux}
use aqualung.Hub.State.{Hub, Phone, phone_out, role, send_phone}
use aqualung.Hub.Watching.{or_default}
use aqualung.Hub.FromHome.Frames.{
  send_phones, on_home_notification, dispatch_home, on_home_acp, frame_arm, on_home_frame,
}
use aqualung.Hub.Run.{home_frame, handle}
use aqualung.Hub.Untouched.{send_phone-Untouched}
use aqualung.Hub.Invariant.{Inv}
use aqualung.Hub.Invariant.Agreement.{Agree}

-- No other phone has the phone's channel.
abbrev pub Alone : ℕ → Phone → HashMap ℕ Phone → Type 0
Alone p slot phones =
    (q : ℕ) (other : Phone) → get q phones ≡ some other → phone_out other ≡ phone_out slot → q ≡ p

Agree-Distinct :
    (phones : HashMap ℕ Phone) (ws : Option (List ℕ)) (d : Option ℕ)
    → Agree phones ws d
    → Distinct (or_default ws)
unfolding or_default
Agree-Distinct phones none none a = tt
Agree-Distinct phones none (some d) a = elim a [ ]
Agree-Distinct phones (some ps) none a = elim a [ ]
Agree-Distinct phones (some ps) (some d) a = a.2

module _ ⦃J : Json⦄ (p : ℕ) (slot : Phone) (text : String) where
  abbrev getting : Bool → List String
  getting b = if b then text ∷ [] else []

  send_phone-for_phone :
      (q : ℕ) (h : Hub)
      → get p h.phones ≡ some slot
      → Alone p slot h.phones
      → for_phone (phone_out slot) (send_phone q text h).sent
        ≡ for_phone (phone_out slot) h.sent ++ getting (q == p)
  unfolding send_phone
  send_phone-for_phone q h there alone = elim (Option-cases (get q h.phones)) [
    | inl gone ↦
        rw (gone, send_phone)
          (ground (arith, gone, there, ==_iff q p, append-nil (for_phone (phone_out slot) h.sent)))
    | inr (other, e) ↦
        rw (e, send_phone)
          (ground (
            arith,
            e,
            there,
            ==_iff q p,
            ==_iff (phone_out other) (phone_out slot),
            alone q other e,
            append-nil (for_phone (phone_out slot) h.sent),
          ))
  ]

  send_phones-for_phone :
      (ws : List ℕ) (h : Hub)
      → Distinct ws
      → get p h.phones ≡ some slot
      → Alone p slot h.phones
      → for_phone (phone_out slot) (send_phones ws text h).sent
        ≡ for_phone (phone_out slot) h.sent ++ getting (contains p ws)
  unfolding send_phones contains
  send_phones-for_phone [] h d there alone = sym (append-nil (for_phone (phone_out slot) h.sent))
  send_phones-for_phone (q ∷ rest) h d there alone =
      let same = (send_phone-Untouched q text h).phones in
      let ih =
        send_phones-for_phone rest (send_phone q text h) d.1 (ap (get p) same ∙ there)
          (λ r other e. alone r other (sym (ap (get r) same) ∙ e)) in
      let now = send_phone-for_phone q h there alone in
      elim (Bool-cases (q == p)) [
        | inl own ↦ rw own (
            ground (
              arith,
              ih,
              now,
              own,
              ==_iff q p,
              d.0,
              append-nil (for_phone (phone_out slot) (send_phone q text h).sent),
            ))
        | inr other ↦
            rw other
              (ground (arith, ih, now, other, append-nil (for_phone (phone_out slot) h.sent)))
      ]

module _ ⦃J : Json⦄ where
  open J use {Value, field, as_str, to_string}

  -- An update, as `on_home_frame` passes it on.
  update_lem :
      (now gen : ℕ) (payload method session : String) (obj : Value) (h : Hub)
      → role h gen ≡ mux
      → parse_rpc_text payload ≡ ok obj
      → (do value ← field obj "method"; as_str value) ≡ some method
      → method_of method ≡ "session/update"
      → field obj "id" ≡ none
      → session_id_in obj ≡ some session
      → (handle now (home_frame gen (LeaderServer.acp payload)) h).sent
        ≡ (send_phones (or_default (get session h.watchers)) (to_string obj) h).sent
  unfolding handle on_home_frame frame_arm on_home_acp dispatch_home on_home_notification
      send_phones or_default
  update_lem now gen payload method session obj h served parsed named update no_id on_session =
      ground (
        arith,
        served,
        parsed,
        named,
        update,
        no_id,
        on_session,
        ==_iff (method_of method) "session/update",
      )

  -- Where the hub's tables are in order and no other phone has the phone's channel: an update that the
  -- leader sends on a session, on the connection that is served, is sent once to the phone, behind
  -- everything else, if it watches the session, and is not sent to it otherwise.
  pub handle_update :
      (now gen p : ℕ) (slot : Phone) (payload method session : String) (obj : Value) (h : Hub)
      → Inv h
      → get p h.phones ≡ some slot
      → Alone p slot h.phones
      → role h gen ≡ mux
      → parse_rpc_text payload ≡ ok obj
      → (do value ← field obj "method"; as_str value) ≡ some method
      → method_of method ≡ "session/update"
      → field obj "id" ≡ none
      → session_id_in obj ≡ some session
      → for_phone (phone_out slot) (handle now (home_frame gen (LeaderServer.acp payload)) h).sent
        ≡ for_phone (phone_out slot) h.sent
          ++ (if contains p (or_default (get session h.watchers)) then to_string obj ∷ [] else [])
  handle_update now gen p slot payload method session obj h v there alone served parsed named update
        no_id on_session =
      ap (for_phone (phone_out slot)) (
        update_lem now gen payload method session obj h served parsed named update no_id on_session)
      ∙ send_phones-for_phone p slot (to_string obj) (or_default (get session h.watchers)) h
          (Agree-Distinct h.phones (get session h.watchers) (get session h.driver)
            (v.watched session))
          there alone
