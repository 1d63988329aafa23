-- ===== src/Snorkel/Reporting.antt =====
-- What a session of crates/snorkel/src/session.rs reports.
use aqualung.Common.{
  some_inj, ℕ, ◌%◌, ◌^◌, ◌≡◌, ap, ◌∙◌, sym, String, Option, none, some, List, [], ◌∷◌, Result, ok,
  err, arith, Option-cases, inl, inr, option_cases,
}
use aqualung.Wire.Frame.{length}
use aqualung.Snorkel.Session.{Side, local, remote, Outcome}
use aqualung.Snorkel.Copy.{
  Half, Answer, half_step, Copying, ending_of, select, copying, error_of, halves, outcome_of,
  run_session,
}
pub use aqualung.Snorkel.Copied.{Copied, Finished, Account, half_step-Account, fresh_half-Copied}

-- What a half that ended without an error has done.
abbrev pub Closed : List ℕ → List ℕ → Half → Half → Side × Option String → Type 0
Closed from_local from_remote up down (side, some e) = Unit {0}
Closed from_local from_remote up down (local, none) = Finished from_local up
Closed from_local from_remote up down (remote, none) = Finished from_remote down

abbrev EndedWell : List ℕ → List ℕ → Half → Half → Option (Side × Result (Unit {0}) String) → Type 0
EndedWell from_local from_remote up down none = Unit {0}
EndedWell from_local from_remote up down (some (side, result)) =
    Closed from_local from_remote up down (side, error_of result)

record Accounts (from_local from_remote : List ℕ) (c : Copying) : Type 0 where
  up : Copied from_local c.up
  down : Copied from_remote c.down
  ended : EndedWell from_local from_remote c.up c.down c.ended

Account-Copied :
    (given : List ℕ) (turn : Half × Option (Result (Unit {0}) String))
    → Account given turn
    → Copied given turn.0
Account-Copied given (half, none) a = a
Account-Copied given (half, some (err e)) a = a
Account-Copied given (half, some (ok _)) a = a.0

select-Accounts :
    (from_local from_remote : List ℕ) (side : Side) (answer : Answer) (c : Copying)
    → Accounts from_local from_remote c
    → Accounts from_local from_remote (select side answer c)
unfolding select ending_of error_of
select-Accounts from_local from_remote local answer c a =
    go (half_step answer c.up) (half_step-Account from_local answer c.up a.up)
  where
    go :
        (turn : Half × Option (Result (Unit {0}) String))
        → Account from_local turn
        → Accounts from_local from_remote (record c { up = turn.0; ended = ending_of local turn.1 })
    go (half, none) done = record { up = done; down = a.down; ended = tt }
    go (half, some (err e)) done = record { up = done; down = a.down; ended = tt }
    go (half, some (ok _)) done = record { up = done.0; down = a.down; ended = done.1 }
select-Accounts from_local from_remote remote answer c a =
    go (half_step answer c.down) (half_step-Account from_remote answer c.down a.down)
  where
    go :
        (turn : Half × Option (Result (Unit {0}) String))
        → Account from_remote turn
        → Accounts from_local from_remote
            (record c { down = turn.0; ended = ending_of remote turn.1 })
    go (half, none) done = record { up = a.up; down = done; ended = tt }
    go (half, some (err e)) done = record { up = a.up; down = done; ended = tt }
    go (half, some (ok _)) done = record { up = a.up; down = done.0; ended = done.1 }

copying-Accounts :
    (from_local from_remote : List ℕ) (c : Copying) (answers : List (Side × Answer))
    → Accounts from_local from_remote c
    → Accounts from_local from_remote (copying c answers)
unfolding copying
copying-Accounts from_local from_remote c [] a = a
copying-Accounts from_local from_remote c ((side, answer) ∷ more) a =
    option_cases (Accounts from_local from_remote) c.ended
      (copying-Accounts from_local from_remote (select side answer c) more
        (select-Accounts from_local from_remote side answer c a))
      (λ result. a)

halves-Accounts :
    (from_local from_remote : List ℕ) (answers : List (Side × Answer))
    → Accounts from_local from_remote (halves from_local from_remote answers)
unfolding halves
halves-Accounts from_local from_remote answers =
    copying-Accounts from_local from_remote _ answers (record {
      up = fresh_half-Copied from_local;
      down = fresh_half-Copied from_remote;
      ended = tt;
    })

-- What a session reports: in each direction, the bytes given are those written, then those in the
-- buffer, then those still to come, in their order; the counts are those of the bytes written, modulo
-- 2 ^ 64; and if the session ended without an error, everything that the side that ended it gave was
-- written to the other, which was then shut down.
pub record Reported (from_local from_remote : List ℕ) (c : Copying) (outcome : Outcome)
    : Type 0 where
  pub up : Copied from_local c.up
  pub down : Copied from_remote c.down
  pub to_remote : outcome.to_remote ≡ length c.up.written % 2 ^ 64
  pub to_local : outcome.to_local ≡ length c.down.written % 2 ^ 64
  pub closed : Closed from_local from_remote c.up c.down (outcome.ended_by, outcome.error)

ended_along :
    (from_local from_remote : List ℕ) (up down : Half)
    (o p : Option (Side × Result (Unit {0}) String))
    → o ≡ p
    → EndedWell from_local from_remote up down o
    → EndedWell from_local from_remote up down p
ended_along from_local from_remote up down o p e well = rw (sym e) well

outcome_of-Reported :
    (from_local from_remote : List ℕ) (lasted : ℕ) (c : Copying) (outcome : Outcome)
    → Accounts from_local from_remote c
    → outcome_of lasted c ≡ some outcome
    → Reported from_local from_remote c outcome
unfolding outcome_of
outcome_of-Reported from_local from_remote lasted c outcome a h = elim (Option-cases c.ended) [
  | inl e ↦ ground (arith, e, h)
  | inr ((side, result), e) ↦
      let told : Outcome = record {
        ended_by = side;
        error = error_of result;
        to_remote = c.up.moved;
        to_local = c.down.moved;
        lasted = lasted;
      } in
      let same : told ≡ outcome = some_inj (
        sym (
          ap
            (λ o. elim o [
              | none ↦ none
              | some (side, result) ↦ some (record {
                ended_by = side;
                error = error_of result;
                to_remote = c.up.moved;
                to_local = c.down.moved;
                lasted = lasted;
              })
            ])
            e)
        ∙ h) in
      let well : EndedWell from_local from_remote c.up c.down (some (side, result)) =
        ended_along from_local from_remote c.up c.down c.ended (some (side, result)) e a.ended in
      let report : Reported from_local from_remote c told = record {
        up = a.up;
        down = a.down;
        to_remote = a.up.counted;
        to_local = a.down.counted;
        closed = well;
      } in
      rw (sym same) report
]

-- The outcome of a session, whatever its readers and writers answer and in whatever order: in
-- each direction the bytes that were given are those written, then those in the buffer, then
-- those still to come, in their order; the counts of the outcome are those of the bytes written,
-- modulo 2 ^ 64; and if the session ended without an error, everything that the side that ended
-- it gave was written to the other, which was then shut down.
pub run_session-Reported :
    (from_local from_remote : List ℕ) (lasted : ℕ) (answers : List (Side × Answer))
    (outcome : Outcome)
    → run_session from_local from_remote lasted answers ≡ some outcome
    → Reported from_local from_remote (halves from_local from_remote answers) outcome
unfolding run_session outcome_of
run_session-Reported from_local from_remote lasted answers outcome h =
    outcome_of-Reported from_local from_remote lasted (halves from_local from_remote answers)
      outcome (halves-Accounts from_local from_remote answers) h
