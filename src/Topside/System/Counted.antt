-- ===== src/Topside/System/Counted.antt =====
-- The hub's invariants in the system, and its counters against the messages on their way.
use aqualung.Common.{
  ℕ, ◌+◌, ◌<◌, ◌^◌, ◌≡◌, ◌≢◌, refl, List, [], ◌∷◌, ◌++◌, ltb, if◌then◌else◌, arith, nat_eq,
}
use aqualung.Common.Lists.{total, total-append}
use aqualung.Json.{Json}
use aqualung.Hub.State.{Hub, new_hub}
use aqualung.Hub.Slots.{current_deadline}
use aqualung.Hub.Run.{
  ToHub, accepted, home_frame, home_eof, phone_hello, phone_text, phone_eof, shutdown_hub, handle,
  wake,
}
use aqualung.Hub.Halting.{tally}
use aqualung.Hub.Halting.Runs.{brings, handle-tally, wake-tally}
use aqualung.Hub.Invariant.{Inv}
use aqualung.Hub.Invariant.Runs.{hellos, handle-Inv, wake-Keeps, new_hub-Inv}
use aqualung.Hub.Serving.{view}
use aqualung.Hub.Serving.Generations.{Ordered, homes, handle-next_gen, wake-Ordered, handle-Ordered}
use aqualung.Topside.System.Turns.{Known, AllKnown, total-Known}

hellos-Known : (msg : ToHub) → Known msg → hellos msg ≡ 0
hellos-Known (accepted _ _ _) k = elim k [ ]
hellos-Known (home_frame _ _) k = refl
hellos-Known (home_eof _) k = refl
hellos-Known (phone_hello _ _) k = elim k [ ]
hellos-Known (phone_text _ _) k = refl
hellos-Known (phone_eof _) k = refl
hellos-Known shutdown_hub k = elim k [ ]

homes-Known : (msg : ToHub) → Known msg → homes msg ≡ 0
homes-Known (accepted _ _ _) k = elim k [ ]
homes-Known (home_frame _ _) k = refl
homes-Known (home_eof _) k = refl
homes-Known (phone_hello _ _) k = elim k [ ]
homes-Known (phone_text _ _) k = refl
homes-Known (phone_eof _) k = refl
homes-Known shutdown_hub k = elim k [ ]

brings-Known : (c : ℕ) (msg : ToHub) → Known msg → brings c msg ≡ 0
brings-Known c (accepted _ _ _) k = elim k [ ]
brings-Known c (home_frame _ _) k = refl
brings-Known c (home_eof _) k = refl
brings-Known c (phone_hello _ _) k = elim k [ ]
brings-Known c (phone_text _ _) k = refl
brings-Known c (phone_eof _) k = refl
brings-Known c shutdown_hub k = elim k [ ]

module _ ⦃J : Json⦄ where
  -- With what is on its way, the hub has counted every phone and every home connection, and each home
  -- connection's halt channel is on its way, held by the hub, or signalled.
  pub record Counted (h : Hub) (queue : List ToHub) (arrived called : ℕ) : Type 0 where
    pub tables : Inv h
    pub ordered : Ordered h.next_gen (view h.home)
    pub callers : h.next_phone + total hellos queue ≡ called
    pub gens : h.next_gen + total homes queue ≡ arrived
    pub account : (c : ℕ) → tally c h + total (brings c) queue ≡ (if ltb c arrived then 1 else 0)

  pub Counted-idle : Counted new_hub [] 0 0
  unfolding new_hub
  Counted-idle = record {
    tables = new_hub-Inv;
    ordered = (omega arith, omega arith, refl);
    callers = refl;
    gens = refl;
    account = λ c. ground arith;
  }

  pub Counted-handle :
      (now : ℕ) (m : ToHub) (rest : List ToHub) (arrived called : ℕ) (h : Hub)
      → m ≢ shutdown_hub
      → called < 2 ^ 64
      → arrived + 1 < 2 ^ 64
      → Counted h (m ∷ rest) arrived called
      → Counted (handle now m h) rest arrived called
  Counted-handle now m rest arrived called h going few many k =
      let (tables, phones) = handle-Inv now m h (omega (arith, k.callers)) k.tables going in
      let gens = handle-next_gen now m h (omega (arith, k.gens)) k.tables going in
      record {
        tables = tables;
        ordered = handle-Ordered now m h (omega (arith, k.gens)) gens k.ordered;
        callers = omega (arith, k.callers, phones);
        gens = omega (arith, k.gens, gens);
        account = λ c. omega (arith, k.account c, handle-tally c now m h);
      }

  pub Counted-wake :
      (now : ℕ) (queue : List ToHub) (arrived called : ℕ) (h : Hub)
      → Counted h queue arrived called
      → Counted (wake now (current_deadline h) h) queue arrived called
  Counted-wake now queue arrived called h k =
      let keeps = wake-Keeps now (current_deadline h) h in
      record {
        tables = keeps.inv k.tables;
        ordered =
            rw (keeps.next_gen k.tables)
              (wake-Ordered now (current_deadline h) h.next_gen h k.ordered);
        callers = omega (arith, k.callers, keeps.next_phone k.tables);
        gens = omega (arith, k.gens, keeps.next_gen k.tables);
        account = λ c. omega (arith, k.account c, wake-tally c now (current_deadline h) h);
      }

  pub Counted-told :
      (more queue : List ToHub) (arrived called : ℕ) (h : Hub)
      → AllKnown more
      → Counted h queue arrived called
      → Counted h (queue ++ more) arrived called
  Counted-told more queue arrived called h known k = record {
    tables = k.tables;
    ordered = k.ordered;
    callers = omega (
      arith,
      k.callers,
      total-append hellos queue more,
      total-Known hellos more hellos-Known known,
    );
    gens =
        omega
          (arith, k.gens, total-append homes queue more, total-Known homes more homes-Known known);
    account = λ c. omega (
      arith,
      k.account c,
      total-append (brings c) queue more,
      total-Known (brings c) more (brings-Known c) known,
    );
  }

  pub Counted-stop :
      (queue : List ToHub) (arrived called : ℕ) (h : Hub)
      → Counted h queue arrived called
      → Counted h (queue ++ shutdown_hub ∷ []) arrived called
  Counted-stop queue arrived called h k = record {
    tables = k.tables;
    ordered = k.ordered;
    callers = omega (arith, k.callers, total-append hellos queue (shutdown_hub ∷ []));
    gens = omega (arith, k.gens, total-append homes queue (shutdown_hub ∷ []));
    account = λ c. omega (arith, k.account c, total-append (brings c) queue (shutdown_hub ∷ []));
  }

  pub Counted-home :
      (queue : List ToHub) (arrived called : ℕ) (h : Hub)
      → Counted h queue arrived called
      → Counted h (queue ++ accepted arrived arrived arrived ∷ []) (arrived + 1) called
  Counted-home queue arrived called h k =
      let new = accepted arrived arrived arrived ∷ [] in
      record {
        tables = k.tables;
        ordered = k.ordered;
        callers = omega (arith, k.callers, total-append hellos queue new);
        gens = omega (arith, k.gens, total-append homes queue new);
        account = λ c. ground (arith, k.account c, total-append (brings c) queue new);
      }

  pub Counted-phone :
      (queue : List ToHub) (arrived called : ℕ) (h : Hub)
      → Counted h queue arrived called
      → Counted h (queue ++ phone_hello called called ∷ []) arrived (called + 1)
  Counted-phone queue arrived called h k =
      let new = phone_hello called called ∷ [] in
      record {
        tables = k.tables;
        ordered = k.ordered;
        callers = omega (arith, k.callers, total-append hellos queue new);
        gens = omega (arith, k.gens, total-append homes queue new);
        account = λ c. omega (arith, k.account c, total-append (brings c) queue new);
      }
