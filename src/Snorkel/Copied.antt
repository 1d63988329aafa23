-- ===== src/Snorkel/Copied.antt =====
-- What a session has copied: what was written is the beginning of what was given, and was counted.
use mathlib.Core.List.{append_assoc, append-nil}
use aqualung.Common.{
  ℕ, zero, suc, ◌+◌, ◌%◌, ◌^◌, ◌≡◌, refl, ap, ◌∙◌, sym, String, true, Option, none, some, List, [],
  ◌∷◌, ◌++◌, Result, ok, err, min, arith, option_split,
}
use aqualung.Wire.Frame.{length}
use aqualung.Snorkel.Copy.{
  copy_buffer, split, Half, fresh_half, Answer, reads, read_fails, writes, write_fails, on_read,
  on_reading, on_writing, half_step,
}

pub split-append : (n : ℕ) (bytes : List ℕ) → (split n bytes).0 ++ (split n bytes).1 ≡ bytes
unfolding split
split-append zero bytes = refl
split-append (suc n) [] = refl
split-append (suc n) (b ∷ bytes) = ap (λ more. b ∷ more) (split-append n bytes)

pub length-append : (xs ys : List ℕ) → length (xs ++ ys) ≡ length xs + length ys
length-append [] ys = omega arith
length-append (x ∷ xs) ys = omega (arith, length-append xs ys)

abbrev pub in_buffer : Half → List ℕ
in_buffer half = elim half.buffer [ none ↦ [] | some bytes ↦ bytes ]

-- Of the bytes given, the first are written and counted, the next are in the buffer, and the others
-- are still to come.
pub record Copied (given : List ℕ) (half : Half) : Type 0 where
  pub whole : half.written ++ (in_buffer half ++ half.source) ≡ given
  pub counted : half.moved ≡ length half.written % 2 ^ 64

-- Where `copy_half` ended well: all is written, and the writer is shut down.
pub record Finished (given : List ℕ) (half : Half) : Type 0 where
  pub all : half.written ≡ given
  pub shut : half.shut ≡ true

-- A half, with what `copy_half` returns if it returns now.
abbrev pub Account : List ℕ → Half × Option (Result (Unit {0}) String) → Type 0
Account given (half, none) = Copied given half
Account given (half, some (err e)) = Copied given half
Account given (half, some (ok _)) = Copied given half × Finished given half

on_read-Account :
    (given : List ℕ) (n : ℕ) (source : List ℕ) (half : Half)
    → half.source ≡ source
    → half.buffer ≡ none
    → Copied given half
    → Account given (on_read n source half)
unfolding on_read
on_read-Account given n [] half s e c = (
  record { whole = c.whole; counted = c.counted },
  record {
    all =
        sym (append-nil half.written)
        ∙ ap (λ more. half.written ++ more) (rw (e, s) refl)
        ∙ c.whole;
    shut = refl;
  },
)
on_read-Account given n (b ∷ source) half s e c = record {
  whole =
      ap (λ more. half.written ++ more)
        (split-append (min (suc n) copy_buffer) (b ∷ source) ∙ rw (e, s) refl)
      ∙ c.whole;
  counted = c.counted;
}

on_reading-Account :
    (given : List ℕ) (answer : Answer) (half : Half)
    → half.buffer ≡ none
    → Copied given half
    → Account given (on_reading answer half)
unfolding on_reading
on_reading-Account given (reads n) half e c = on_read-Account given n half.source half refl e c
on_reading-Account given (read_fails x) half e c = c
on_reading-Account given writes half e c = c
on_reading-Account given (write_fails x) half e c = c

on_writing-Account :
    (given : List ℕ) (answer : Answer) (bytes : List ℕ) (half : Half)
    → half.buffer ≡ some bytes
    → Copied given half
    → Account given (on_writing answer bytes half)
unfolding on_writing
on_writing-Account given (reads n) bytes half e c = c
on_writing-Account given (read_fails x) bytes half e c = c
on_writing-Account given writes bytes half e c = record {
  whole =
      append_assoc half.written bytes half.source
      ∙ ap
          (λ (b : Option (List ℕ)).
            half.written ++ (elim b [ none ↦ [] | some bytes ↦ bytes ] ++ half.source))
          (sym e)
      ∙ c.whole;
  counted = omega (arith, c.counted, length-append half.written bytes);
}
on_writing-Account given (write_fails x) bytes half e c = c

pub half_step-Account :
    (given : List ℕ) (answer : Answer) (half : Half)
    → Copied given half
    → Account given (half_step answer half)
unfolding half_step
half_step-Account given answer half c =
    option_split (Account given) half.buffer (λ e. on_reading-Account given answer half e c)
      (λ bytes e. on_writing-Account given answer bytes half e c)

pub fresh_half-Copied : (given : List ℕ) → Copied given (fresh_half given)
unfolding fresh_half
fresh_half-Copied given = record { whole = refl; counted = refl }
