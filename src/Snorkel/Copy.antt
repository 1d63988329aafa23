-- ===== src/Snorkel/Copy.antt =====
-- `copy_half` and `Session::run` of crates/snorkel/src/session.rs: the bytes that a session copies.
use aqualung.Common.{
  ℕ, zero, suc, ◌+◌, ◌*◌, ◌%◌, ◌^◌, String, Bool, true, false, Option, none, some, List, [], ◌∷◌,
  ◌++◌, Result, ok, err, min,
}
use aqualung.Wire.Frame.{length}
use aqualung.Snorkel.Session.{Side, local, remote, Outcome}

-- `COPY_BUFFER`
abbrev pub copy_buffer : ℕ
copy_buffer = 64 * 1024

-- The first bytes, and those behind them.
unfoldable pub split : ℕ → List ℕ → List ℕ × List ℕ
split zero bytes = ([], bytes)
split (suc n) [] = ([], [])
split (suc n) (b ∷ bytes) = let (first, rest) = split n bytes in (b ∷ first, rest)

-- The task of `copy_half`. `source` is what its reader has still to give, `buffer` what it has read
-- and is writing, `written` what the calls of `write_all` that returned well have written.
pub record Half : Type 0 where
  pub source : List ℕ
  pub buffer : Option (List ℕ)
  pub written : List ℕ
  pub shut : Bool
  pub moved : ℕ

unfoldable pub fresh_half : List ℕ → Half
fresh_half source = record { source = source; buffer = none; written = []; shut = false; moved = 0 }

-- What the call that a half waits for returns. A reader gives at least one byte, unless it is at its
-- end; `reads n` is one that has at most n + 1.
pub data Answer : Type 0 where
  reads : ℕ → Answer
  read_fails : String → Answer
  writes : Answer
  write_fails : String → Answer

-- `reader.read(&mut buffer)`, and the end of the input.
unfoldable pub on_read : ℕ → List ℕ → Half → Half × Option (Result (Unit {0}) String)
unfolding split
on_read n [] half = (record half { shut = true }, some (ok tt))
on_read n (b ∷ source) half =
    let (first, rest) = split (min (suc n) copy_buffer) (b ∷ source) in
    (record half { buffer = some first; source = rest }, none)

-- Where `read` is waited for. A half that reads meets no answer of a write, and is left as it is.
unfoldable pub on_reading : Answer → Half → Half × Option (Result (Unit {0}) String)
unfolding on_read
on_reading (reads n) half = on_read n half.source half
on_reading (read_fails e) half = (half, some (err e))
on_reading writes half = (half, none)
on_reading (write_fails e) half = (half, none)

-- Where `write_all` is waited for.
unfoldable pub on_writing : Answer → List ℕ → Half → Half × Option (Result (Unit {0}) String)
on_writing (reads n) bytes half = (half, none)
on_writing (read_fails e) bytes half = (half, none)
on_writing writes bytes half = (
  record half {
    buffer = none;
    written = half.written ++ bytes;
    moved = (half.moved + length bytes) % 2 ^ 64;
  },
  none,
)
on_writing (write_fails e) bytes half = (half, some (err e))

-- A turn of the loop up to the next wait, and the result of `copy_half` where it has one.
unfoldable pub half_step : Answer → Half → Half × Option (Result (Unit {0}) String)
unfolding on_reading on_writing
half_step answer half = elim half.buffer [
  | none ↦ on_reading answer half
  | some bytes ↦ on_writing answer bytes half
]

unfoldable pub copy_half :
    Half × Option (Result (Unit {0}) String)
    → List Answer
    → Half × Option (Result (Unit {0}) String)
unfolding half_step
copy_half (half, some result) answers = (half, some result)
copy_half (half, none) [] = (half, none)
copy_half (half, none) (answer ∷ answers) = copy_half (half_step answer half) answers

-- Both halves, with the side that has ended and how.
pub record Copying : Type 0 where
  pub up : Half
  pub down : Half
  pub ended : Option (Side × Result (Unit {0}) String)

unfoldable pub ending_of :
    Side → Option (Result (Unit {0}) String) → Option (Side × Result (Unit {0}) String)
ending_of side none = none
ending_of side (some result) = some (side, result)

-- `select!` goes on with the half whose call returns; `Local` is the half that reads the local side.
unfoldable pub select : Side → Answer → Copying → Copying
unfolding half_step ending_of
select local answer c =
    let (half, result) = half_step answer c.up in
    record c { up = half; ended = ending_of local result }
select remote answer c =
    let (half, result) = half_step answer c.down in
    record c { down = half; ended = ending_of remote result }

unfoldable pub copying : Copying → List (Side × Answer) → Copying
unfolding select
copying c [] = c
copying c ((side, answer) ∷ more) = elim c.ended [
  | some result ↦ c
  | none ↦ copying (select side answer c) more
]

unfoldable pub error_of : Result (Unit {0}) String → Option String
error_of (ok _) = none
error_of (err e) = some e

-- The halves of a session, from what its two sides have to give.
unfoldable pub halves : List ℕ → List ℕ → List (Side × Answer) → Copying
unfolding copying fresh_half
halves from_local from_remote answers =
    copying (record { up = fresh_half from_local; down = fresh_half from_remote; ended = none })
      answers

unfoldable pub outcome_of : ℕ → Copying → Option Outcome
unfolding error_of
outcome_of lasted c = elim c.ended [
  | none ↦ none
  | some (side, result) ↦ some (record {
    ended_by = side;
    error = error_of result;
    to_remote = c.up.moved;
    to_local = c.down.moved;
    lasted = lasted;
  })
]

-- `Session::run`, which has an outcome when a half has ended.
unfoldable pub run_session : List ℕ → List ℕ → ℕ → List (Side × Answer) → Option Outcome
unfolding halves outcome_of
run_session from_local from_remote lasted answers =
    outcome_of lasted (halves from_local from_remote answers)
