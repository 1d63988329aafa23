-- ===== src/Snorkel/Copying.antt =====
-- `copy_half` of crates/snorkel/src/session.rs comes to its end.
use mathlib.Core.List.{append_assoc, append-nil}
use aqualung.Common.{
  ℕ, zero, suc, ◌%◌, ◌^◌, ◌≤◌, ◌<◌, ◌≡◌, ap, ◌∙◌, sym, true, false, none, some, List, [], ◌∷◌, ◌++◌,
  ok, min, arith,
}
use aqualung.Wire.Frame.{length}
use aqualung.Snorkel.Copy.{
  copy_buffer, split, Half, fresh_half, Answer, reads, writes, on_read, on_reading, on_writing,
  half_step, copy_half,
}
use aqualung.Snorkel.Copied.{split-append, length-append}

-- The reader has bytes, or is at its end, and the writer takes what was read, again and again.
abbrev pub rounds : List ℕ → List Answer
rounds [] = []
rounds (n ∷ ns) = reads n ∷ writes ∷ rounds ns

length-split : (k : ℕ) (bytes : List ℕ) → length (split k bytes).1 ≤ length bytes
unfolding split
length-split zero bytes = omega arith
length-split (suc k) [] = omega arith
length-split (suc k) (b ∷ bytes) = omega (arith, length-split k bytes)

min-suc : (n : ℕ) → min (suc n) copy_buffer ≡ suc (min n 65535)
min-suc n = omega arith

-- Where a half reads, with what it has written.
abbrev reading : List ℕ → List ℕ → Half
reading source written = record {
  source = source;
  buffer = none;
  written = written;
  shut = false;
  moved = length written % 2 ^ 64;
}

abbrev pub finished : List ℕ → Half
finished written = record {
  source = [];
  buffer = none;
  written = written;
  shut = true;
  moved = length written % 2 ^ 64;
}

length-shorter :
    (n b : ℕ) (source : List ℕ)
    → length (split (min (suc n) copy_buffer) (b ∷ source)).1 ≤ length source
unfolding split
length-shorter n b source = rw (min-suc n) (length-split (min n 65535) source)

one_round :
    (n b : ℕ) (source written : List ℕ) (answers : List Answer)
    → let parts = split (min (suc n) copy_buffer) (b ∷ source) in
      copy_half (reading (b ∷ source) written, none) (reads n ∷ writes ∷ answers)
      ≡ copy_half (reading parts.1 (written ++ parts.0), none) answers
unfolding copy_half half_step on_reading on_writing on_read
one_round n b source written answers =
    let (first, rest) = split (min (suc n) copy_buffer) (b ∷ source) in
    ap
      (λ (m : ℕ).
        copy_half
          (
            record {
              source = rest;
              buffer = none;
              written = written ++ first;
              shut = false;
              moved = m;
            },
            none,
          )
          answers)
      (omega (arith, length-append written first))

copying_ends :
    (source written ns : List ℕ)
    → length source < length ns
    → copy_half (reading source written, none) (rounds ns)
      ≡ (finished (written ++ source), some (ok tt))
unfolding copy_half half_step on_reading on_read
copying_ends source written [] enough = ground (arith, enough)
copying_ends [] written (n ∷ ns) enough =
    ap (λ w. (finished w, some (ok tt))) (sym (append-nil written))
copying_ends (b ∷ source) written (n ∷ ns) enough =
    let (first, rest) = split (min (suc n) copy_buffer) (b ∷ source) in
    one_round n b source written (rounds ns)
    ∙ copying_ends rest (written ++ first) ns (omega (arith, enough, length-shorter n b source))
    ∙ ap (λ w. (finished w, some (ok tt)))
        (append_assoc written first rest
          ∙ ap (λ more. written ++ more) (split-append (min (suc n) copy_buffer) (b ∷ source)))

-- A reader that gives `source`, in pieces of any sizes, and a writer that takes every piece: after at
-- most one round more than there are bytes, `copy_half` has returned without an error, has written all
-- bytes in their order, has shut the writer down, and has counted the bytes modulo 2 ^ 64.
pub copy_half-ends :
    (source ns : List ℕ)
    → length source < length ns
    → copy_half (fresh_half source, none) (rounds ns) ≡ (finished source, some (ok tt))
unfolding fresh_half
copy_half-ends source ns enough = copying_ends source [] ns enough
