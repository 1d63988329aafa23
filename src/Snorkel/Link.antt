-- ===== src/Snorkel/Link.antt =====
-- crates/snorkel/src/link.rs: the link to the server, and its steps.
use aqualung.Common.{ℕ, ◌+◌, ◌-◌, ◌*◌, ◌%◌, ◌^◌, Bool, List, [], ◌∷◌, if◌then◌else◌, min}
use aqualung.Snorkel.Session.{Outcome, productive}

-- Milliseconds: `BACKOFF_FIRST` and `BACKOFF_MAX`.
abbrev pub backoff_first : ℕ
backoff_first = 500

abbrev pub backoff_max : ℕ
backoff_max = 30000

pub record FailureRun : Type 0 where
  pub attempts : ℕ

pub data Link : Type 0 where
  down : ℕ → FailureRun → Link
  up : Link
  stopped : Link

pub record Report : Type 0 where
  pub sessions : ℕ
  pub bytes_to_server : ℕ
  pub bytes_to_socket : ℕ

-- `Report::default`
unfoldable pub no_report : Report
no_report = record { sessions = 0; bytes_to_server = 0; bytes_to_socket = 0 }

-- `saturating_add(1)` on a `u32`, and `saturating_sub(1)`, which is the subtraction of ℕ.
unfoldable pub saturating_suc : ℕ → ℕ
saturating_suc n = min (n + 1) (2 ^ 32 - 1)

-- The pause before the jitter.
unfoldable pub base : FailureRun → ℕ
base run = min (backoff_first * 2 ^ min (run.attempts - 1) 16) backoff_max

-- What one step meets. `shut_down`: the shutdown is set, or comes while the step waits. The others
-- carry the time and the number of the jitter that is drawn then.
pub data Answer : Type 0 where
  shut_down : Answer
  socket_absent : ℕ → ℕ → Answer
  established : Answer
  refused : ℕ → ℕ → Answer
  ended : ℕ → ℕ → Outcome → Answer

-- `f64` with the tenths as literals, `random_range` of rand on an inclusive range, for the number
-- drawn, and `Duration::mul_f64` on milliseconds.
pub record Jitter : Type 1 where
  pub F64 : Type 0
  pub tenths : ℕ → F64
  pub random_range : F64 → F64 → ℕ → F64
  pub mul_f64 : ℕ → F64 → ℕ

-- `base.mul_f64(jitter)`, where the jitter is drawn from 0.8..=1.0.
unfoldable pub jittered : Jitter → ℕ → ℕ → ℕ
jittered jitter draw base =
    jitter.mul_f64 base (jitter.random_range (jitter.tenths 8) (jitter.tenths 10) draw)

module _ (jitter : Jitter) (once : Bool) where
  unfoldable pub backoff : ℕ → FailureRun → ℕ
  unfolding base jittered
  backoff draw run = jittered jitter draw (base run)

  unfoldable pub failed : ℕ → ℕ → FailureRun → Link
  unfolding saturating_suc backoff
  failed now draw run =
      if once
      then stopped
      else (let next : FailureRun = record { attempts = saturating_suc run.attempts } in
          down (now + backoff draw next) next)

  unfoldable pub after_session : ℕ → ℕ → Outcome → Link
  unfolding backoff productive
  after_session now draw outcome =
      if once
      then stopped
      else (let next : FailureRun = record { attempts = if productive outcome then 0 else 1 } in
          down (now + backoff draw next) next)

  -- `Link::step`, with the report of the context. A link that is down meets no end of a session, and
  -- one that is up nothing else: such an answer leaves the link waiting.
  unfoldable pub step : Answer → Link × Report → Link × Report
  unfolding failed after_session
  step shut_down (down not_before run, report) = (stopped, report)
  step (socket_absent now draw) (down not_before run, report) = (failed now draw run, report)
  step (refused now draw) (down not_before run, report) = (failed now draw run, report)
  step established (down not_before run, report) =
      (up, record report { sessions = (report.sessions + 1) % 2 ^ 64 })
  step (ended now draw outcome) (down not_before run, report) = (down not_before run, report)
  step (ended now draw outcome) (up, report) = (
    after_session now draw outcome,
    record report {
      bytes_to_server = (report.bytes_to_server + outcome.to_remote) % 2 ^ 64;
      bytes_to_socket = (report.bytes_to_socket + outcome.to_local) % 2 ^ 64;
    },
  )
  step shut_down (up, report) = (stopped, report)
  step (socket_absent now draw) (up, report) = (up, report)
  step (refused now draw) (up, report) = (up, report)
  step established (up, report) = (up, report)
  step answer (stopped, report) = (stopped, report)

  -- The loop of `run`, which ends when the link has stopped.
  unfoldable pub steps : List Answer → Link × Report → Link × Report
  unfolding step
  steps [] state = state
  steps (answer ∷ answers) (stopped, report) = (stopped, report)
  steps (answer ∷ answers) (down not_before run, report) =
      steps answers (step answer (down not_before run, report))
  steps (answer ∷ answers) (up, report) = steps answers (step answer (up, report))
