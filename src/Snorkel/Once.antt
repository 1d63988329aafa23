-- ===== src/Snorkel/Once.antt =====
-- With `once`, snorkel serves at most one session.
use aqualung.Common.{ℕ, ◌≤◌, ◌≡◌, refl, true, List, [], ◌∷◌, arith}
use aqualung.Snorkel.Link.{
  Jitter, Link, down, up, stopped, FailureRun, Report, no_report, Answer, shut_down, socket_absent,
  established, refused, ended, failed, after_session, step, steps,
}

-- The sessions so far, by the link.
abbrev Served : Link × Report → Type 0
Served (down not_before run, report) = report.sessions ≡ 0
Served (up, report) = report.sessions ≡ 1
Served (stopped, report) = report.sessions ≤ 1

step-Served :
    (jitter : Jitter) (answer : Answer) (state : Link × Report)
    → Served state
    → Served (step jitter true answer state)
unfolding step failed after_session
step-Served jitter shut_down (down not_before run, report) s = omega (arith, s)
step-Served jitter (socket_absent now draw) (down not_before run, report) s = omega (arith, s)
step-Served jitter (refused now draw) (down not_before run, report) s = omega (arith, s)
step-Served jitter established (down not_before run, report) s = omega (arith, s)
step-Served jitter (ended now draw outcome) (down not_before run, report) s = s
step-Served jitter (ended now draw outcome) (up, report) s = omega (arith, s)
step-Served jitter shut_down (up, report) s = omega (arith, s)
step-Served jitter (socket_absent now draw) (up, report) s = s
step-Served jitter (refused now draw) (up, report) s = s
step-Served jitter established (up, report) s = s
step-Served jitter shut_down (stopped, report) s = s
step-Served jitter (socket_absent now draw) (stopped, report) s = s
step-Served jitter (refused now draw) (stopped, report) s = s
step-Served jitter established (stopped, report) s = s
step-Served jitter (ended now draw outcome) (stopped, report) s = s

steps-Served :
    (jitter : Jitter) (answers : List Answer) (state : Link × Report)
    → Served state
    → Served (steps jitter true answers state)
unfolding steps
steps-Served jitter [] state s = s
steps-Served jitter (answer ∷ answers) (stopped, report) s = s
steps-Served jitter (answer ∷ answers) (down not_before run, report) s =
    steps-Served jitter answers (step jitter true answer (down not_before run, report))
      (step-Served jitter answer (down not_before run, report) s)
steps-Served jitter (answer ∷ answers) (up, report) s =
    steps-Served jitter answers (step jitter true answer (up, report))
      (step-Served jitter answer (up, report) s)

at_most_one : (state : Link × Report) → Served state → state.1.sessions ≤ 1
at_most_one (down not_before run, report) s = omega (arith, s)
at_most_one (up, report) s = omega (arith, s)
at_most_one (stopped, report) s = s

-- With `once`, whatever the link meets from its start on, at most one session is counted.
pub steps-once :
    (jitter : Jitter) (now : ℕ) (run : FailureRun) (answers : List Answer)
    → (steps jitter true answers (down now run, no_report)).1.sessions ≤ 1
unfolding no_report
steps-once jitter now run answers =
    at_most_one _ (steps-Served jitter answers (down now run, no_report) refl)
