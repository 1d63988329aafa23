-- ===== src/Snorkel/Totals.antt =====
-- What the report of snorkel's `run` counts: the sessions that ended, and one more that did not.
pub mod Runs
use mathlib.Core.Path.{subst}
use aqualung.Common.{
  ℕ, ◌+◌, ◌%◌, ◌^◌, ◌≤◌, ◌<◌, ◌≡◌, refl, sym, ap, ◌∙◌, Bool, true, false, Option, none, some, List,
  [], ◌∷◌, if◌then◌else◌, arith, Option-cases, inl, inr,
}
use aqualung.Pki.{Pki}
use aqualung.Snorkel.Session.{Outcome}
use aqualung.Snorkel.Copy.{halves, run_session}
use aqualung.Snorkel.Reporting.{Reported, run_session-Reported}
use aqualung.Snorkel.Config.{Names, ClientTls, Config}
use aqualung.Snorkel.Link.{
  Jitter, Link, down, up, stopped, FailureRun, Report, no_report, Answer, shut_down, socket_absent,
  established, refused, ended, failed, after_session, step,
}
use aqualung.Snorkel.Run.{Scene, stops, meets_down, session_of, meet, run_link, run}

-- The counts of a report are 64-bit.
abbrev pub Fits : Report → Type 0
Fits report =
    (report.sessions < 2 ^ 64)
    × (report.bytes_to_server < 2 ^ 64)
    × (report.bytes_to_socket < 2 ^ 64)

-- The sessions that are counted and have not ended.
unfoldable pub open_sessions : Link → ℕ
open_sessions (down not_before fails) = 0
open_sessions up = 1
open_sessions stopped = 0

unfoldable pub count : List Outcome → ℕ
count [] = 0
count (outcome ∷ outcomes) = 1 + count outcomes

unfoldable pub sent_to_server : List Outcome → ℕ
sent_to_server [] = 0
sent_to_server (outcome ∷ outcomes) = outcome.to_remote + sent_to_server outcomes

unfoldable pub sent_to_socket : List Outcome → ℕ
sent_to_socket [] = 0
sent_to_socket (outcome ∷ outcomes) = outcome.to_local + sent_to_socket outcomes

-- A step of a link that is down, whatever it meets.
pub record Opened (before : Report) (after : Link × Report) : Type 0 where
  pub sessions : after.1.sessions ≡ (before.sessions + open_sessions after.0) % 2 ^ 64
  pub to_server : after.1.bytes_to_server ≡ before.bytes_to_server
  pub to_socket : after.1.bytes_to_socket ≡ before.bytes_to_socket

pub step-Opened :
    (jitter : Jitter) (once : Bool) (answer : Answer) (not_before : ℕ) (fails : FailureRun)
    (report : Report)
    → Fits report
    → Opened report (step jitter once answer (down not_before fails, report))
unfolding step failed open_sessions
step-Opened jitter once shut_down not_before fails report (a, b, c) = record {
  sessions = omega (arith, a);
  to_server = refl;
  to_socket = refl;
}
step-Opened jitter true (socket_absent now draw) not_before fails report (a, b, c) = record {
  sessions = omega (arith, a);
  to_server = refl;
  to_socket = refl;
}
step-Opened jitter false (socket_absent now draw) not_before fails report (a, b, c) = record {
  sessions = omega (arith, a);
  to_server = refl;
  to_socket = refl;
}
step-Opened jitter true (refused now draw) not_before fails report (a, b, c) = record {
  sessions = omega (arith, a);
  to_server = refl;
  to_socket = refl;
}
step-Opened jitter false (refused now draw) not_before fails report (a, b, c) = record {
  sessions = omega (arith, a);
  to_server = refl;
  to_socket = refl;
}
step-Opened jitter once established not_before fails report (a, b, c) = record {
  sessions = omega arith;
  to_server = refl;
  to_socket = refl;
}
step-Opened jitter once (ended now draw outcome) not_before fails report (a, b, c) = record {
  sessions = omega (arith, a);
  to_server = refl;
  to_socket = refl;
}

pub after_session-shut :
    (jitter : Jitter) (once : Bool) (now draw : ℕ) (outcome : Outcome)
    → open_sessions (after_session jitter once now draw outcome) ≡ 0
unfolding after_session open_sessions
after_session-shut jitter true now draw outcome = refl
after_session-shut jitter false now draw outcome = refl

module _ ⦃P : Pki⦄ ⦃N : Names⦄ ⦃T : ClientTls⦄ where
  -- The sessions that ended, in their order, each with what its two sides had to give.
  pub data Sessions : List Scene → List Outcome → Type 1 where
    nothing : Sessions [] []
    other :
        {scene : Scene} {scenes : List Scene} {outcomes : List Outcome}
        → Sessions scenes outcomes
        → Sessions (scene ∷ scenes) outcomes
    served :
        {scene : Scene} {scenes : List Scene} {outcome : Outcome} {outcomes : List Outcome}
        → Reported scene.from_local scene.from_remote
            (halves scene.from_local scene.from_remote scene.answers)
            outcome
        → Sessions scenes outcomes
        → Sessions (scene ∷ scenes) (outcome ∷ outcomes)

  nothing-Sessions : (scenes : List Scene) → Sessions scenes []
  nothing-Sessions [] = nothing
  nothing-Sessions (scene ∷ scenes) = other (nothing-Sessions scenes)

  -- What is counted from a link and its report on: `outcomes` are of the sessions that ended, `cut`
  -- is that of the session that did not.
  pub record Tally (scenes : List Scene) (link : Link) (before after : Report) : Type 1 where
    pub outcomes : List Outcome
    pub sessions : Sessions scenes outcomes
    pub opened : ℕ
    pub cut : ℕ
    pub cut_once : cut ≤ 1
    pub matched : open_sessions link + opened ≡ count outcomes + cut
    pub counted : after.sessions ≡ (before.sessions + opened) % 2 ^ 64
    pub to_server :
        after.bytes_to_server ≡ (before.bytes_to_server + sent_to_server outcomes) % 2 ^ 64
    pub to_socket :
        after.bytes_to_socket ≡ (before.bytes_to_socket + sent_to_socket outcomes) % 2 ^ 64

  pub waiting-Tally :
      (scenes : List Scene) (link : Link) (report : Report)
      → Fits report
      → Tally scenes link report report
  unfolding open_sessions count sent_to_server sent_to_socket
  waiting-Tally scenes link report (a, b, c) = record {
    outcomes = [];
    sessions = nothing-Sessions scenes;
    opened = 0;
    cut = open_sessions link;
    cut_once = at_most_one link;
    matched = omega arith;
    counted = omega (arith, a);
    to_server = omega (arith, b);
    to_socket = omega (arith, c);
  }
    where
      at_most_one : (link : Link) → open_sessions link ≤ 1
      at_most_one (down not_before fails) = omega arith
      at_most_one up = omega arith
      at_most_one stopped = omega arith
