-- ===== src/Auth.antt =====
-- The phones' token: `token_eq` of crates/topside/src/config.rs.
use aqualung.Common.{
  ℕ, suc, zero, ◌+◌, ◌*◌, ◌/◌, ◌%◌, ◌^◌, ◌<◌, ◌≡◌, refl, ◌↔◌, Bool, true, false, List, [], ◌∷◌,
  ◌==◌, nat_eq, ==_refl, if◌then◌else◌, arith, not,
}

-- `a ^ b` and `a | b` of the lowest `w` bits, bit by bit.
unfoldable pub bit_xor : ℕ → ℕ → ℕ → ℕ
bit_xor zero a b = 0
bit_xor (suc w) a b = (a % 2 + b % 2) % 2 + 2 * bit_xor w (a / 2) (b / 2)

abbrev pub one_or : ℕ → ℕ → ℕ
one_or zero zero = 0
one_or zero (suc b) = 1
one_or (suc a) b = 1

unfoldable pub bit_or : ℕ → ℕ → ℕ → ℕ
bit_or zero a b = 0
bit_or (suc w) a b = one_or (a % 2) (b % 2) + 2 * bit_or w (a / 2) (b / 2)

abbrev pub length : List ℕ → ℕ
length [] = 0
length (_ ∷ xs) = suc (length xs)

-- The loop over the pairs of bytes; `zip` ends with the shorter.
unfoldable pub differ : ℕ → List ℕ → List ℕ → ℕ
unfolding bit_xor bit_or
differ diff [] ys = diff
differ diff (x ∷ xs) [] = diff
differ diff (a ∷ xs) (b ∷ ys) = differ (bit_or 8 diff (bit_xor 8 a b)) xs ys

unfoldable pub token_eq : List ℕ → List ℕ → Bool
unfolding differ
token_eq provided expected =
    if not (length provided == length expected) then false else differ 0 provided expected == 0

abbrev pub AreBytes : List ℕ → Type 0
AreBytes [] = Unit {0}
AreBytes (x ∷ xs) = (x < 256) × AreBytes xs

bit_xor-bound : (w a b : ℕ) → bit_xor w a b < 2 ^ w
unfolding bit_xor
bit_xor-bound zero a b = omega arith
bit_xor-bound (suc w) a b = omega (arith, bit_xor-bound w (a / 2) (b / 2))

one_or-bound : (a b : ℕ) → one_or a b < 2
one_or-bound zero zero = omega arith
one_or-bound zero (suc b) = omega arith
one_or-bound (suc a) b = omega arith

one_or_zero : (a b : ℕ) → one_or a b ≡ 0 → (a ≡ 0) × (b ≡ 0)
one_or_zero zero zero e = (refl, refl)
one_or_zero zero (suc b) e = omega (arith, e)
one_or_zero (suc a) b e = omega (arith, e)

bit_or-bound : (w a b : ℕ) → bit_or w a b < 2 ^ w
unfolding bit_or
bit_or-bound zero a b = omega arith
bit_or-bound (suc w) a b =
    omega (arith, bit_or-bound w (a / 2) (b / 2), one_or-bound (a % 2) (b % 2))

bit_or_zero : (w a b : ℕ) → a < 2 ^ w → b < 2 ^ w → bit_or w a b ≡ 0 → (a ≡ 0) × (b ≡ 0)
unfolding bit_or
bit_or_zero zero a b s t e = omega (arith, s, t)
bit_or_zero (suc w) a b s t e =
    let (low_a, low_b) = one_or_zero (a % 2) (b % 2) (omega (arith, e)) in
    let (high_a, high_b) =
      bit_or_zero w (a / 2) (b / 2) (omega (arith, s)) (omega (arith, t)) (omega (arith, e)) in
    (omega (arith, low_a, high_a), omega (arith, low_b, high_b))

bit_xor_zero : (w a b : ℕ) → a < 2 ^ w → b < 2 ^ w → bit_xor w a b ≡ 0 → a ≡ b
unfolding bit_xor
bit_xor_zero zero a b s t e = omega (arith, s, t)
bit_xor_zero (suc w) a b s t e =
    let high =
      bit_xor_zero w (a / 2) (b / 2) (omega (arith, s)) (omega (arith, t)) (omega (arith, e)) in
    omega (arith, high, e)

bit_xor_self : (w a : ℕ) → bit_xor w a a ≡ 0
unfolding bit_xor
bit_xor_self zero a = refl
bit_xor_self (suc w) a = omega (arith, bit_xor_self w (a / 2))

differ_zero :
    (diff : ℕ) (xs ys : List ℕ)
    → diff < 256
    → AreBytes xs
    → AreBytes ys
    → length xs ≡ length ys
    → differ diff xs ys ≡ 0
    → (diff ≡ 0) × (xs ≡ ys)
unfolding differ
differ_zero diff [] [] small bx by same e = (e, refl)
differ_zero diff [] (y ∷ ys) small bx by same e = cc
differ_zero diff (x ∷ xs) [] small bx by same e = cc
differ_zero diff (a ∷ xs) (b ∷ ys) small bx by same e =
    let (here, rest) =
      differ_zero (bit_or 8 diff (bit_xor 8 a b)) xs ys (bit_or-bound 8 diff (bit_xor 8 a b)) bx.1
        by.1 (omega (arith, same)) e in
    let (none_before, none_here) =
      bit_or_zero 8 diff (bit_xor 8 a b) small (bit_xor-bound 8 a b) here in
    (none_before, cc (bit_xor_zero 8 a b bx.0 by.0 none_here, rest))

differ_self : (xs : List ℕ) → differ 0 xs xs ≡ 0
unfolding differ
differ_self [] = refl
differ_self (x ∷ xs) = rw bit_xor_self (differ_self xs)

token_eq_self : (xs : List ℕ) → token_eq xs xs ≡ true
unfolding token_eq
token_eq_self xs = rw (==_refl (length xs), differ_self xs) refl

-- A token is accepted exactly if it is the one expected, byte for byte.
pub token_eq_iff :
    (provided expected : List ℕ)
    → AreBytes provided
    → AreBytes expected
    → (token_eq provided expected ≡ true) ↔ (provided ≡ expected)
unfolding token_eq
token_eq_iff provided expected bp be = (
  λ e. (differ_zero 0 provided expected (omega arith) bp be (ground arith) (ground arith)).1,
  λ e. cc (token_eq_self expected, e),
)
