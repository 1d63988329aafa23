-- ===== src/Snorkel/Ports.antt =====
-- The number of a port is read as it is printed.
use Prim.Native.Char.{Char, char, code}
use Prim.Native.String.{◌++◌ as str_append}
use text.Mathlib.TextLemmas.{nil-append, cons-append, cons-ne-nil}
use aqualung.Common.{
  ℕ, zero, suc, ◌+◌, ◌-◌, ◌*◌, ◌/◌, ◌%◌, ◌^◌, ◌<◌, ◌≡◌, ◌≢◌, refl, ap, ◌∙◌, sym, String, true, none,
  some, ◌==◌, nat_eq, ==_iff, leb, ltb, ◌&&◌, Bool-cases, inl, inr, arith,
}
use aqualung.Common.Decimal.{decimal, decimal_from, digit}
use aqualung.Snorkel.Config.{parse_digits, in_u16, at_least_one_digit, parse_u16, rsplit_once}

single :
    (c : Char) (behind : String) → str_append (String.◌∷◌ c String.[]) behind ≡ String.◌∷◌ c behind
single c behind = rw (cons-append, nil-append) refl

beyond : (d : ℕ) → suc (suc (suc (suc (suc (suc (suc (suc (suc (suc d))))))))) < 10 → ⊥
beyond d small = omega (arith, small)

-- The character of a digit.
digit_shape : (d : ℕ) → d < 10 → (c : Char) × (digit d ≡ String.◌∷◌ c String.[]) × (code c ≡ 48 + d)
unfolding digit
digit_shape zero small = (char 48 tt, refl, refl)
digit_shape (suc zero) small = (char 49 tt, refl, refl)
digit_shape (suc (suc zero)) small = (char 50 tt, refl, refl)
digit_shape (suc (suc (suc zero))) small = (char 51 tt, refl, refl)
digit_shape (suc (suc (suc (suc zero)))) small = (char 52 tt, refl, refl)
digit_shape (suc (suc (suc (suc (suc zero))))) small = (char 53 tt, refl, refl)
digit_shape (suc (suc (suc (suc (suc (suc zero)))))) small = (char 54 tt, refl, refl)
digit_shape (suc (suc (suc (suc (suc (suc (suc zero))))))) small = (char 55 tt, refl, refl)
digit_shape (suc (suc (suc (suc (suc (suc (suc (suc zero)))))))) small = (char 56 tt, refl, refl)
digit_shape (suc (suc (suc (suc (suc (suc (suc (suc (suc zero))))))))) small =
    (char 57 tt, refl, refl)
digit_shape (suc (suc (suc (suc (suc (suc (suc (suc (suc (suc d)))))))))) small =
    elim (beyond d small) [ ]

parse_digits-cons :
    (m d : ℕ) (c : Char) (s : String)
    → code c ≡ 48 + d
    → d < 10
    → parse_digits m (String.◌∷◌ c s) ≡ parse_digits (m * 10 + d) s
unfolding parse_digits
parse_digits-cons m d c s shape small =
    let is_digit : (leb 48 (code c) && leb (code c) 57) ≡ true = ground (arith, shape) in
    rw is_digit (ap (λ k. parse_digits (m * 10 + k) s) (omega (arith, shape)))

parse_digits-digit :
    (m d : ℕ) (behind : String)
    → d < 10
    → parse_digits m (str_append (digit d) behind) ≡ parse_digits (m * 10 + d) behind
parse_digits-digit m d behind small =
    let (c, e, shape) = digit_shape d small in
    rw (e, single c behind) (parse_digits-cons m d c behind shape small)

parse_digits-decimal_from :
    (fuel n : ℕ) (behind : String)
    → n < 10 ^ fuel
    → parse_digits 0 (decimal_from fuel n behind) ≡ parse_digits n behind
unfolding decimal_from
parse_digits-decimal_from zero n behind small =
    ap (λ k. parse_digits k behind) (omega (arith, small))
parse_digits-decimal_from (suc fuel) n behind small = elim (Bool-cases (ltb n 10)) [
  | inl one ↦ rw one (
      parse_digits-digit 0 n behind (ground (arith, one))
      ∙ ap (λ k. parse_digits k behind) (omega arith))
  | inr more ↦ rw more (
      parse_digits-decimal_from fuel (n / 10) (str_append (digit (n % 10)) behind)
        (omega (arith, small))
      ∙ parse_digits-digit (n / 10) (n % 10) behind (omega arith)
      ∙ ap (λ k. parse_digits k behind) (omega arith))
]

-- A text of digits has no colon.
parse_digits-rsplit_once : (m n : ℕ) (s : String) → parse_digits m s ≡ some n → rsplit_once s ≡ none
unfolding parse_digits rsplit_once
parse_digits-rsplit_once m n String.[] h = refl
parse_digits-rsplit_once m n (String.◌∷◌ c s) h =
    elim (Bool-cases (leb 48 (code c) && leb (code c) 57)) [
      | inl all_digits ↦
          rw (parse_digits-rsplit_once (m * 10 + (code c - 48)) n s (sym (rw all_digits refl) ∙ h))
            (ground (arith, all_digits))
      | inr other ↦ ground (arith, other, h)
    ]

parse_digits-plus :
    (m : ℕ) (c : Char) (s : String) → code c ≡ 43 → parse_digits m (String.◌∷◌ c s) ≡ none
unfolding parse_digits
parse_digits-plus m c s plus = ground (arith, plus)

-- A text of digits that is not empty does not start with a `+`.
parse_u16-digits :
    (n : ℕ) (s : String) → s ≢ String.[] → parse_digits 0 s ≡ some n → parse_u16 s ≡ in_u16 (some n)
unfolding parse_u16 at_least_one_digit
parse_u16-digits n String.[] there h = elim (there refl) [ ]
parse_u16-digits n (String.◌∷◌ c s) there h = elim (Bool-cases (code c == 43)) [
  | inl plus ↦ ground (arith, parse_digits-plus 0 c s ((==_iff (code c) 43).0 plus), h)
  | inr other ↦ rw (other, h) refl
]

digit-there : (d : ℕ) (behind : String) → d < 10 → str_append (digit d) behind ≢ String.[]
digit-there d behind small =
    let (c, e, shape) = digit_shape d small in rw (e, single c behind) (λ h. cons-ne-nil c behind h)

decimal_from-there :
    (fuel n : ℕ) (behind : String) → behind ≢ String.[] → decimal_from fuel n behind ≢ String.[]
unfolding decimal_from
decimal_from-there zero n behind there = there
decimal_from-there (suc fuel) n behind there = elim (Bool-cases (ltb n 10)) [
  | inl one ↦ rw one (digit-there n behind (ground (arith, one)))
  | inr more ↦ rw more (
      decimal_from-there fuel (n / 10) (str_append (digit (n % 10)) behind)
        (digit-there (n % 10) behind (omega arith)))
]

decimal-there : (n : ℕ) → decimal n ≢ String.[]
unfolding decimal decimal_from
decimal-there n = elim (Bool-cases (ltb n 10)) [
  | inl one ↦ rw one (digit-there n "" (ground (arith, one)))
  | inr more ↦ rw more (
      decimal_from-there 19 (n / 10) (str_append (digit (n % 10)) "")
        (digit-there (n % 10) "" (omega arith)))
]

parse_digits-decimal : (n : ℕ) → n < 10 ^ 20 → parse_digits 0 (decimal n) ≡ some n
unfolding decimal parse_digits
parse_digits-decimal n small = parse_digits-decimal_from 20 n "" small

-- A port is read as the number that it is printed from.
pub parse_u16-decimal : (n : ℕ) → n < 2 ^ 16 → parse_u16 (decimal n) ≡ some n
unfolding in_u16
parse_u16-decimal n small =
    parse_u16-digits n (decimal n) (decimal-there n) (parse_digits-decimal n (omega (arith, small)))
    ∙ ground (arith, small)

pub rsplit_once-decimal : (n : ℕ) → n < 2 ^ 16 → rsplit_once (decimal n) ≡ none
rsplit_once-decimal n small =
    parse_digits-rsplit_once 0 n (decimal n) (parse_digits-decimal n (omega (arith, small)))
