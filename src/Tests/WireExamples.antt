-- ===== src/Tests/WireExamples.antt =====
-- Frames, tokens and the link of snorkel at concrete inputs.
use aqualung.Common.{
  ℕ, ◌+◌, ◌-◌, min, ◌*◌, ◌/◌, ◌≤◌, ◌≡◌, ◌↔◌, true, false, List, [], ◌∷◌, ◌++◌, none, arith, ok,
}
use aqualung.Wire.Frame.{to_be_bytes, read_frame, write_frame, read_frame-write_frame}
use aqualung.Auth.{token_eq, token_eq_iff}
use aqualung.Snorkel.Session.{Outcome, remote}
use native.Mathlib.Nat.{mul-le-mul_right}
use aqualung.Snorkel.Link.{
  Jitter, down, no_report, socket_absent, established, ended, failed, after_session, steps,
}
use aqualung.Snorkel.Backoff.{Paused, Within, failed-Paused, refusals, last_pause, steps-refusals}
use aqualung.Snorkel.Once.{steps-once}

read_frame-write_frame_example :
    (write_frame (7 ∷ 8 ∷ 9 ∷ []) ≡ ok (to_be_bytes 3 ++ 7 ∷ 8 ∷ 9 ∷ []))
    × (read_frame ((to_be_bytes 3 ++ 7 ∷ 8 ∷ 9 ∷ []) ++ 0 ∷ []) ≡ ok (7 ∷ 8 ∷ 9 ∷ [], 0 ∷ []))
read_frame-write_frame_example = read_frame-write_frame (7 ∷ 8 ∷ 9 ∷ []) (0 ∷ []) (omega arith)

abbrev hi : List ℕ
hi = 104 ∷ 105 ∷ []

abbrev hj : List ℕ
hj = 104 ∷ 106 ∷ []

token_eq_iff_example : (token_eq hi hj ≡ true) ↔ (hi ≡ hj)
token_eq_iff_example =
    token_eq_iff hi hj (omega arith, (omega arith, tt)) (omega arith, (omega arith, tt))

-- A factor in tenths, drawn from its range, and whole milliseconds.
abbrev nine_tenths : Jitter
nine_tenths = record {
  F64 = ℕ;
  tenths = λ n. n;
  random_range = λ low high draw. low + min draw (high - low);
  mul_f64 = λ d factor. factor * d / 10;
}

nine_tenths-Within : Within nine_tenths
nine_tenths-Within = record {
  low = λ a b draw d ordered.
      omega (arith, mul-le-mul_right {m = a} {n = a + min draw (b - a)} d (omega arith));
  high = λ a b draw d ordered.
      omega (arith, mul-le-mul_right {m = a + min draw (b - a)} {n = b} d (omega (arith, ordered)));
}

abbrev short_session : Outcome
short_session = record {
  ended_by = remote;
  error = none;
  to_remote = 0;
  to_local = 0;
  lasted = 100;
}

failed-Paused_example :
    Paused 1000 (failed nine_tenths false 1000 1 (record { attempts = 4 }))
    × Paused 1000 (after_session nine_tenths false 1000 1 short_session)
failed-Paused_example =
    failed-Paused nine_tenths nine_tenths-Within 1000 1 (record { attempts = 4 }) short_session

steps-refusals_example :
    steps nine_tenths false
      (refusals ((5, 0) ∷ (900, 1) ∷ []))
      (down 0 (record { attempts = 0 }), no_report)
    ≡ (last_pause nine_tenths 0 0 ((5, 0) ∷ (900, 1) ∷ []), no_report)
steps-refusals_example =
    steps-refusals nine_tenths ((5, 0) ∷ (900, 1) ∷ []) 0 0 no_report (omega arith)

steps-once_example :
    (steps nine_tenths true
      (established ∷ ended 50 2 short_session ∷ socket_absent 60 3 ∷ [])
      (down 0 (record { attempts = 0 }), no_report)).1.sessions
    ≤ 1
steps-once_example =
    steps-once nine_tenths 0 (record { attempts = 0 })
      (established ∷ ended 50 2 short_session ∷ socket_absent 60 3 ∷ [])
