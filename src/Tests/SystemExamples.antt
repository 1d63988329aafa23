-- ===== src/Tests/SystemExamples.antt =====
-- The theorems on topside as a whole, at the moments of a run.
use aqualung.Common.{
  ℕ, String, ◌+◌, ◌<◌, ◌≡◌, refl, some, [], ◌∷◌, ◌++◌, List, nat_eq, string_eq, if◌then◌else◌,
  arith, ok,
}
use aqualung.Common.Lists.{total}
use aqualung.Common.HashMap.{get}
use aqualung.Common.HashSet.{contains}
use aqualung.Wire.{LeaderServer}
use aqualung.Wire.Rpc.{parse_rpc_text, session_id_in, method_of}
use aqualung.Hub.Link.{for_phone}
use aqualung.Hub.State.{Phone, phone_out}
use aqualung.Hub.Watching.{or_default}
use aqualung.Hub.Run.{home_frame, handle}
use aqualung.Hub.Quiet.{held, signalled}
use aqualung.Hub.Halting.Runs.{brings}
use aqualung.Hub.Invariant.{Inv}
use aqualung.Hub.Invariant.Runs.{hellos}
use aqualung.Hub.Serving.{view}
use aqualung.Hub.Serving.Generations.{Ordered, homes}
use aqualung.Topside.Config.{pinned}
use aqualung.Topside.Net.Bearer.{header_of}
use aqualung.Topside.Net.Admission.{Bearing}
use aqualung.Topside.System.Sound.{cert_of, request_of}
use aqualung.Topside.System.Admitted.{Tied, Reach-admitted, Reach-Tied, Reach-Counted}
use aqualung.Topside.System.Updates.{Reach-update}
use aqualung.Tests.SamplePki.{pki, http}
use aqualung.Tests.SampleJson.{to_string}
use aqualung.Tests.Samples.{json, update}
use aqualung.Tests.SystemRuns.{leader_codec, any_client, leaf, token, watching, watching_lem}

Reach-admitted_example :
    ((c : ℕ)
      → 0 < held c watching.last.hub.home
      → (cert : List ℕ) × (cert_of (watching.last.home_tasks c) ≡ some (some cert))
        × (cert ≡ leaf)
        × (chain : List (List ℕ)) × (now : ℕ) × (any_client.verify_client_cert cert chain now
            ≡ ok tt))
    × ((p : ℕ) (slot : Phone)
        → get p watching.last.hub.phones ≡ some slot
        → (req : String) × (request_of (watching.last.phone_tasks (phone_out slot)) ≡ some req)
          × Bearing (header_of req) token)
Reach-admitted_example =
    Reach-admitted any_client leaf token watching.last (omega arith, (omega arith, tt)) refl refl
      watching.reach watching_lem.0 watching_lem.1 watching_lem.2

Reach-Tied_example :
    Tied 1 watching.last.queue (watching.last.phone_tasks (phone_out (Phone.ready 0)))
    × ((q : ℕ) (other : Phone)
        → get q watching.last.hub.phones ≡ some other
        → phone_out other ≡ phone_out (Phone.ready 0)
        → q ≡ 1)
Reach-Tied_example =
    Reach-Tied (pinned any_client leaf) token watching.last watching.reach watching_lem.0
      watching_lem.1 watching_lem.2 1 (Phone.ready 0) watching_lem.3

Reach-Counted_example :
    Inv watching.last.hub
    × Ordered watching.last.hub.next_gen (view watching.last.hub.home)
    × (watching.last.hub.next_phone + total hellos watching.last.queue ≡ watching.last.callers)
    × (watching.last.hub.next_gen + total homes watching.last.queue ≡ watching.last.homes)
    × ((c : ℕ)
        → c < watching.last.homes
        → held c watching.last.hub.home
            + signalled c watching.last.hub.sent
            + total (brings c) watching.last.queue
          ≡ 1)
Reach-Counted_example =
    Reach-Counted (pinned any_client leaf) token watching.last watching.reach watching_lem.0
      watching_lem.1 watching_lem.2

Reach-update_example :
    for_phone
      (phone_out (Phone.ready 0))
      (handle 7 (home_frame 1 (LeaderServer.acp "update")) watching.last.hub).sent
    ≡ for_phone (phone_out (Phone.ready 0)) watching.last.hub.sent
      ++ (if contains 1 (or_default (get "s" watching.last.hub.watchers))
          then to_string update ∷ []
          else [])
unfolding parse_rpc_text session_id_in method_of
Reach-update_example =
    Reach-update (pinned any_client leaf) token watching.last 7 1 1 (Phone.ready 0) "update"
      "session/update" "s" update watching.reach watching_lem.0 watching_lem.1 watching_lem.2
      watching_lem.3 watching_lem.4 refl refl refl refl refl
