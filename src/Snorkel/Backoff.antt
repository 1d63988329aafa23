-- ===== src/Snorkel/Backoff.antt =====
-- How long snorkel waits between two dials.
use native.Mathlib.Nat.{one-le-pow}
use aqualung.Common.{
  ℕ, ◌+◌, ◌*◌, ◌/◌, ◌-◌, ◌<◌, ◌≤◌, ◌^◌, ◌≡◌, refl, ap, ◌∙◌, false, List, [], ◌∷◌, arith, min,
}
use aqualung.Snorkel.Session.{Outcome}
use aqualung.Snorkel.Link.{
  Jitter, jittered, Link, down, up, stopped, FailureRun, Report, Answer, refused, saturating_suc,
  base, backoff, failed, after_session, step, steps,
}

-- The pause is between 0.4 and 30 seconds.
abbrev pub Paused : ℕ → Link → Type 0
Paused now (down not_before run) = (now + 400 ≤ not_before) × (not_before ≤ now + 30000)
Paused now up = ⊥
Paused now stopped = ⊥

base-bounds : (run : FailureRun) → (500 ≤ base run) × (base run ≤ 30000)
unfolding base
base-bounds run = ground (arith, one-le-pow (min (run.attempts - 1) 16) 2 (omega arith))

-- A duration that is multiplied with a factor of an inclusive range lies between its products with
-- the two ends, in whole milliseconds.
pub record Within (jitter : Jitter) : Type 0 where
  pub low :
      (a b draw d : ℕ)
      → a ≤ b
      → a * d / 10 ≤ jitter.mul_f64 d (jitter.random_range (jitter.tenths a) (jitter.tenths b) draw)
  pub high :
      (a b draw d : ℕ)
      → a ≤ b
      → jitter.mul_f64 d (jitter.random_range (jitter.tenths a) (jitter.tenths b) draw) ≤ b * d / 10

module _ (jitter : Jitter) (within : Within jitter) where
  paused :
      (now draw : ℕ) (run : FailureRun)
      → Paused now (down (now + backoff jitter false draw run) run)
  unfolding backoff jittered
  paused now draw run = omega (
    arith,
    base-bounds run,
    within.low 8 10 draw (base run) (omega arith),
    within.high 8 10 draw (base run) (omega arith),
  )

  -- Where snorkel goes on, the next dial comes 0.4 to 30 seconds after a dial that failed and after a
  -- session that ended, if random_range draws from its range and mul_f64 multiplies.
  pub failed-Paused :
      (now draw : ℕ) (run : FailureRun) (outcome : Outcome)
      → Paused now (failed jitter false now draw run)
        × Paused now (after_session jitter false now draw outcome)
  unfolding failed after_session
  failed-Paused now draw run outcome = (paused now draw _, paused now draw _)

-- Dials that all fail, each at its time and with its jitter.
abbrev pub refusals : List (ℕ × ℕ) → List Answer
refusals [] = []
refusals ((now, draw) ∷ rest) = refused now draw ∷ refusals rest

abbrev pub length_of : List (ℕ × ℕ) → ℕ
length_of [] = 0
length_of (_ ∷ rest) = 1 + length_of rest

abbrev pub attempts_of : Link → ℕ
attempts_of (down not_before run) = run.attempts
attempts_of up = 0
attempts_of stopped = 0

saturating_suc_lem : (n : ℕ) → n + 1 < 2 ^ 32 → saturating_suc n ≡ n + 1
unfolding saturating_suc
saturating_suc_lem n room = omega arith

base_suc : (n : ℕ) → base (record { attempts = n + 1 }) ≡ min (500 * 2 ^ min n 16) 30000
unfolding base
base_suc n = ap (λ k. min (500 * 2 ^ min k 16) 30000) (omega arith)

-- The link after dials that failed: the last decides the pause, and all of them its base.
abbrev pub last_pause : Jitter → ℕ → ℕ → List (ℕ × ℕ) → Link
last_pause jitter start n [] = down start (record { attempts = n })
last_pause jitter start n ((now, draw) ∷ rest) =
    last_pause jitter (now + jittered jitter draw (min (500 * 2 ^ min n 16) 30000)) (n + 1) rest

refuse_lem :
    (jitter : Jitter) (now draw n : ℕ)
    → n + 1 < 2 ^ 32
    → failed jitter false now draw (record { attempts = n })
      ≡ down
          (now + jittered jitter draw (min (500 * 2 ^ min n 16) 30000))
          (record { attempts = n + 1 })
unfolding failed backoff
refuse_lem jitter now draw n room = cc (saturating_suc_lem n room, base_suc n)

-- After dials that all fail, up to 2 ^ 32 - 1 attempts in all: the link is down and has counted
-- every attempt, each pause is the jitter of half a second doubled once for each attempt before it,
-- of 30 seconds at most, and no session is reported.
pub steps-refusals :
    (jitter : Jitter) (fails : List (ℕ × ℕ)) (start n : ℕ) (report : Report)
    → n + length_of fails < 2 ^ 32
    → steps jitter false (refusals fails) (down start (record { attempts = n }), report)
      ≡ (last_pause jitter start n fails, report)
unfolding steps step
steps-refusals jitter [] start n report room = refl
steps-refusals jitter ((now, draw) ∷ rest) start n report room =
    ap (λ link. steps jitter false (refusals rest) (link, report))
      (refuse_lem jitter now draw n (omega (arith, room)))
    ∙ steps-refusals jitter rest (now + jittered jitter draw (min (500 * 2 ^ min n 16) 30000))
        (n + 1) report (omega (arith, room))
