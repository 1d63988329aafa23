-- ===== src/Wire/Frame.antt =====
-- The frames of crates/topside/src/wire.rs: a length of four bytes, the highest first, and as many
-- bytes.
use Prim.Native.Nat.{ℕ, suc, zero, ◌+◌, ◌*◌, ◌/◌, ◌%◌, ◌^◌, ◌<◌}
use aqualung.Common.{
  ◌≡◌, refl, ap, ◌∙◌, Option, none, some, List, [], ◌∷◌, ◌++◌, if◌then◌else◌, ltb, Result, ok, err,
  arith, Bool-cases, inl, inr,
}

abbrev pub max_frame : ℕ
max_frame = 64 * 1024 * 1024

-- `io`: what the reader or the writer reports, for a reader the end of its input.
pub data WireError : Type 0 where
  io : WireError
  too_large : ℕ → WireError

abbrev pub length : List ℕ → ℕ
length [] = 0
length (_ ∷ xs) = suc (length xs)

-- `read_exact` of `n` bytes from what is still to come, and what comes behind them.
unfoldable pub read_exact : ℕ → List ℕ → Option (List ℕ × List ℕ)
read_exact zero input = some ([], input)
read_exact (suc n) [] = none
read_exact (suc n) (b ∷ input) = elim (read_exact n input) [
  | none ↦ none
  | some (bytes, rest) ↦ some (b ∷ bytes, rest)
]

-- `u32::to_be_bytes`
unfoldable pub to_be_bytes : ℕ → List ℕ
to_be_bytes n = n / 16777216 % 256 ∷ n / 65536 % 256 ∷ n / 256 % 256 ∷ n % 256 ∷ []

-- `u32::from_be_bytes`
unfoldable pub from_be_bytes : List ℕ → ℕ
from_be_bytes (a ∷ b ∷ c ∷ d ∷ []) = a * 16777216 + b * 65536 + c * 256 + d
from_be_bytes _ = 0

-- The frame, and what comes behind it.
unfoldable pub read_frame : List ℕ → Result (List ℕ × List ℕ) WireError
read_frame input = elim (read_exact 4 input) [
  | none ↦ err io
  | some (len_buf, behind) ↦
      let len = from_be_bytes len_buf in
      if ltb max_frame len
      then err (too_large len)
      else elim (read_exact len behind) [ none ↦ err io | some frame ↦ ok frame ]
]

-- What is written, for a writer that takes every byte.
unfoldable pub write_frame : List ℕ → Result (List ℕ) WireError
write_frame json =
    if ltb max_frame (length json)
    then err (too_large (length json))
    else ok (to_be_bytes (length json % 2 ^ 32) ++ json)

read_exact-append : (xs rest : List ℕ) → read_exact (length xs) (xs ++ rest) ≡ some (xs, rest)
unfolding read_exact
read_exact-append [] rest = refl
read_exact-append (x ∷ xs) rest = rw (read_exact-append xs rest) refl

from_be_bytes-to_be_bytes : (n : ℕ) → n < 2 ^ 32 → from_be_bytes (to_be_bytes n) ≡ n
unfolding from_be_bytes to_be_bytes
from_be_bytes-to_be_bytes n small = omega arith

read_exact_header :
    (n : ℕ) (behind : List ℕ)
    → read_exact 4 (to_be_bytes n ++ behind) ≡ some (to_be_bytes n, behind)
unfolding to_be_bytes
read_exact_header n behind = read_exact-append (to_be_bytes n) behind

read_frame-header :
    (n : ℕ) (behind : List ℕ)
    → n < 2 ^ 32
    → read_frame (to_be_bytes n ++ behind) ≡ (
        if ltb max_frame n
        then err (too_large n)
        else elim (read_exact n behind) [ none ↦ err io | some frame ↦ ok frame ])
unfolding read_frame
read_frame-header n behind small =
    rw (read_exact_header n behind, read_frame, from_be_bytes-to_be_bytes n small) refl

-- A payload of at most 64 MB is written as a frame that is read back, with whatever comes behind it
-- left for the next; a longer one is refused by the writer, and, if its length fits four bytes, a
-- frame of that length by the reader.
pub read_frame-write_frame :
    (json rest : List ℕ)
    → length json < 2 ^ 32
    → if ltb max_frame (length json)
      then (write_frame json ≡ err (too_large (length json)))
        × (read_frame ((to_be_bytes (length json) ++ json) ++ rest) ≡ err (too_large (length json)))
      else (write_frame json ≡ ok (to_be_bytes (length json) ++ json))
        × (read_frame ((to_be_bytes (length json) ++ json) ++ rest) ≡ ok (json, rest))
unfolding write_frame to_be_bytes
read_frame-write_frame json rest small = elim (Bool-cases (ltb max_frame (length json))) [
  | inl long ↦ rw long (refl, read_frame-header (length json) (json ++ rest) small ∙ rw long refl)
  | inr short ↦ rw short (
    ap (λ n. ok (to_be_bytes n ++ json)) (omega (arith, small)),
    read_frame-header (length json) (json ++ rest) small
        ∙ rw (short, read_exact-append json rest) refl,
  )
]
