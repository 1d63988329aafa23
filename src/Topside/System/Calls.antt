-- ===== src/Topside/System/Calls.antt =====
-- A phone's connection in the system: what its task, the messages on their way and the hub know of it.
pub mod Handled
use aqualung.Common.{
  ℕ, ◌+◌, ◌<◌, ◌≡◌, ◌≢◌, refl, ◌⊎◌, inl, inr, Bool, true, false, Option, none, some, List, [], ◌∷◌,
  ◌++◌, ◌==◌, nat_eq, ==_iff, if◌then◌else◌, arith, is_some, Bool-cases,
}
use aqualung.Common.Lists.{total, total-append}
use aqualung.Json.{Json}
use aqualung.Hub.Loads.{next_id}
use aqualung.Hub.State.{Hub}
use aqualung.Hub.Run.{
  ToHub, accepted, home_frame, home_eof, phone_hello, phone_text, phone_eof, shutdown_hub, handle,
  wake,
}
use aqualung.Hub.FromPhone.{on_phone_hello}
use aqualung.Hub.Watching.{on_phone_eof}
use aqualung.Hub.Callers.{channel, given, closed_at, Steady}
use aqualung.Hub.Callers.Handling.{
  Plain, handle-Steady, wake-Steady, on_phone_hello-channel, on_phone_eof-channel,
}
use aqualung.Topside.System.{PhoneTask, no_phone, phone_waits, phone_loops, phone_ended}
use aqualung.Topside.System.Turns.{Known, AllKnown, total-Known}

-- How often a message is the connection's first, and how often it is a phone's last.
abbrev pub greets : ℕ → ToHub → ℕ
greets i (accepted _ _ _) = 0
greets i (home_frame _ _) = 0
greets i (home_eof _) = 0
greets i (phone_hello out bind) = if bind == i then 1 else 0
greets i (phone_text _ _) = 0
greets i (phone_eof _) = 0
greets i shutdown_hub = 0

abbrev pub leaves : ℕ → ToHub → ℕ
leaves p (accepted _ _ _) = 0
leaves p (home_frame _ _) = 0
leaves p (home_eof _) = 0
leaves p (phone_hello _ _) = 0
leaves p (phone_text _ _) = 0
leaves p (phone_eof phone) = if phone == p then 1 else 0
leaves p shutdown_hub = 0

-- The two channels of a phone have one number.
abbrev pub Paired : ToHub → Type 0
Paired (phone_hello out bind) = out ≡ bind
Paired _ = Unit {0}

abbrev pub AllPaired : List ToHub → Type 0
AllPaired [] = Unit {0}
AllPaired (msg ∷ more) = Paired msg × AllPaired more

pub AllPaired-append : (xs ys : List ToHub) → AllPaired xs → AllPaired ys → AllPaired (xs ++ ys)
AllPaired-append [] ys a b = b
AllPaired-append (x ∷ xs) ys a b = (a.0, AllPaired-append xs ys a.1 b)

Known-Paired : (msg : ToHub) → Known msg → Paired msg
Known-Paired (accepted _ _ _) k = elim k [ ]
Known-Paired (home_frame _ _) k = tt
Known-Paired (home_eof _) k = tt
Known-Paired (phone_hello _ _) k = elim k [ ]
Known-Paired (phone_text _ _) k = tt
Known-Paired (phone_eof _) k = tt
Known-Paired shutdown_hub k = elim k [ ]

pub AllKnown-AllPaired : (msgs : List ToHub) → AllKnown msgs → AllPaired msgs
AllKnown-AllPaired [] k = tt
AllKnown-AllPaired (msg ∷ more) k = (Known-Paired msg k.0, AllKnown-AllPaired more k.1)

greets-Known : (i : ℕ) (msg : ToHub) → Known msg → greets i msg ≡ 0
greets-Known i (accepted _ _ _) k = elim k [ ]
greets-Known i (home_frame _ _) k = refl
greets-Known i (home_eof _) k = refl
greets-Known i (phone_hello _ _) k = elim k [ ]
greets-Known i (phone_text _ _) k = refl
greets-Known i (phone_eof _) k = refl
greets-Known i shutdown_hub k = elim k [ ]

-- Messages of connections that the hub knows begin no task.
pub total_told :
    (i : ℕ) (more : List ToHub) {a b : ℕ}
    → AllKnown more
    → a ≡ 1
    → b ≡ 1
    → total (greets i) more + a ≡ b
total_told i more known one one' =
    omega (arith, total-Known (greets i) more (greets-Known i) known, one, one')

module _ {Request : Type 0} where
  -- The number that the task has from the hub.
  abbrev pub number_of : PhoneTask Request → Option ℕ
  number_of no_phone = none
  number_of (phone_waits _) = none
  number_of (phone_loops _ phone _ _) = some phone
  number_of (phone_ended _ phone) = some phone

  abbrev pub there : PhoneTask Request → ℕ
  there no_phone = 0
  there (phone_waits _) = 1
  there (phone_loops _ _ _ _) = 1
  there (phone_ended _ _) = 1

  abbrev pub is_ended : PhoneTask Request → Bool
  is_ended no_phone = false
  is_ended (phone_waits _) = false
  is_ended (phone_loops _ _ _ _) = false
  is_ended (phone_ended _ _) = true

  pub ended_number :
      (task : PhoneTask Request) → is_ended task ≡ true → (p : ℕ) × (number_of task ≡ some p)
  ended_number no_phone over = cc
  ended_number (phone_waits req) over = cc
  ended_number (phone_loops req phone taken c) over = cc
  ended_number (phone_ended req phone) over = (phone, refl)

module _ ⦃J : Json⦄ {Request : Type 0} where
  -- A connection's first message is on its way or the hub has given it a number, once. Only the phone
  -- of that number has the connection's channel, which the hub has not closed then; and when the task
  -- has ended, the word of it is on its way.
  pub record Call (i : ℕ) (h : Hub) (queue : List ToHub) (task : PhoneTask Request) : Type 0 where
    pub once : total (greets i) queue + (if is_some (given i h.sent) then 1 else 0) ≡ there task
    pub own : (q : ℕ) → channel q h.phones ≡ some i → given i h.sent ≡ some q
    pub number : (p : ℕ) → number_of task ≡ some p → given i h.sent ≡ some p
    pub still_open : (q : ℕ) → channel q h.phones ≡ some i → closed_at i h.sent ≡ false
    pub unclosed : given i h.sent ≡ none → closed_at i h.sent ≡ false
    pub left :
        is_ended task ≡ true → (q : ℕ) → channel q h.phones ≡ some i → 0 < total (leaves q) queue

  module _ (i : ℕ) (task : PhoneTask Request) where
    -- The hub's tables of the phones stay, and so do the first and last messages on their way.
    pub steady :
        (h h' : Hub) (queue queue' : List ToHub)
        → ((q : ℕ) → Steady i q h h')
        → total (greets i) queue' ≡ total (greets i) queue
        → ((q : ℕ) → total (leaves q) queue' ≡ total (leaves q) queue)
        → Call i h queue task
        → Call i h' queue' task
    steady h h' queue queue' same greeted leaving k =
        let g = (same 0).given in
        let c = (same 0).closed in
        record {
          once = rw (g, greeted) k.once;
          own = λ q e. rw g (k.own q (rw (same q).channel at e));
          number = λ p e. rw g (k.number p e);
          still_open = λ q e. rw c (k.still_open q (rw (same q).channel at e));
          unclosed = λ e. rw c (k.unclosed (rw g at e));
          left = λ over q e. rw (leaving q) (k.left over q (rw (same q).channel at e));
        }

    -- More messages behind, with one more that is the connection's first where its task begins.
    pub Call-behind :
        (task' : PhoneTask Request) (queue more : List ToHub) (h : Hub)
        → total (greets i) more + there task ≡ there task'
        → ((p : ℕ) → number_of task' ≡ some p → given i h.sent ≡ some p)
        → (is_ended task' ≡ true
            → (q : ℕ) → channel q h.phones ≡ some i
            → (is_ended task ≡ true) ⊎ (0 < total (leaves q) more))
        → Call i h queue task
        → Call i h (queue ++ more) task'
    Call-behind task' queue more h begins number over k = record {
      once = omega (arith, begins, k.once, total-append (greets i) queue more);
      own = k.own;
      number = number;
      still_open = k.still_open;
      unclosed = k.unclosed;
      left = λ ended q e. elim (over ended q e) [
        | inl was ↦ omega (arith, k.left was q e, total-append (leaves q) queue more)
        | inr now ↦ omega (arith, now, total-append (leaves q) queue more)
      ];
    }

    pub Call-told :
        (queue more : List ToHub) (h : Hub)
        → AllKnown more
        → Call i h queue task
        → Call i h (queue ++ more) task
    Call-told queue more h known k =
        Call-behind task queue more h
          (omega (arith, total-Known (greets i) more (greets-Known i) known)) k.number
          (λ over q e. inl over) k
