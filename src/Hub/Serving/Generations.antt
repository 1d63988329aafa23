-- ===== src/Hub/Serving/Generations.antt =====
-- Which of two home connections is the newer, over a whole run.
use aqualung.Common.{
  String, ℕ, ◌+◌, ◌<◌, ◌≤◌, ◌^◌, ◌≡◌, ◌≢◌, refl, ap, true, false, Option, none, some, List, [], ◌∷◌,
  ltb, is_some, if◌then◌else◌, arith, if_cases, leb,
}
use aqualung.Json.{Json}
use aqualung.Hub.Link.{Link, Home, away, bringing_up, sole, dual, deadline_of}
use aqualung.Hub.State.{Hub, new_hub}
use aqualung.Hub.Slots.{current_deadline, on_deadline, expire_in}
use aqualung.Hub.Watching.{on_phone_eof, drop_phone}
use aqualung.Hub.FromPhone.{on_phone_hello}
use aqualung.Hub.Run.{
  ToHub, accepted, home_frame, home_eof, phone_hello, phone_text, phone_eof, shutdown_hub, Event,
  received, closed, woken, handle, wake, run,
}
use aqualung.Hub.Serving.{View, view, Stage, CandidateMove, kept, advanced, promoted, failed}
use aqualung.Hub.Serving.Moves.{Move, unmoved, arrived, candidate_moved, lost, stopped, handle-Move}
use aqualung.Hub.Halting.Runs.{ends}
use aqualung.Hub.Untouched.{on_home_eof-Untouched}
use aqualung.Hub.Invariant.{Inv}
use aqualung.Hub.Invariant.Keeping.{Keeps, Keeps-Untouched}
use aqualung.Hub.Invariant.Handling.{on_home_frame-Keeps, on_phone_text-Keeps}
use aqualung.Hub.Invariant.Runs.{
  hellos_in, next_id_lem, on_accepted-Inv, handle-Inv, wake-Keeps, going_on, new_hub-Inv,
}

abbrev served_gen : Option Link → ℕ
served_gen none = 0
served_gen (some link) = link.home_gen

abbrev coming_gen : Option (Link × Stage) → ℕ
coming_gen none = 0
coming_gen (some (link, _)) = link.home_gen

-- No generation is above the counter, and the connection that is coming up is newer than the one
-- that is served.
abbrev pub Ordered : ℕ → View → Type 0
Ordered next v =
    (served_gen v.served ≤ next)
    × (coming_gen v.coming ≤ next)
    × ((if is_some v.coming then ltb (served_gen v.served) (coming_gen v.coming) else true) ≡ true)

-- How many home connections a message brings, and the events.
abbrev pub homes : ToHub → ℕ
homes (accepted _ _ _) = 1
homes (home_frame _ _) = 0
homes (home_eof _) = 0
homes (phone_hello _ _) = 0
homes (phone_text _ _) = 0
homes (phone_eof _) = 0
homes shutdown_hub = 0

abbrev pub homes_in : List (ℕ × Event) → ℕ
homes_in [] = 0
homes_in ((_, received msg) ∷ events) = homes msg + homes_in events
homes_in ((_, closed) ∷ events) = homes_in events
homes_in ((_, woken) ∷ events) = homes_in events

CandidateMove-Ordered :
    {watched : List String} {answer : Option ℕ} (from n : ℕ) (v w : View)
    → CandidateMove watched answer from v w
    → Ordered n v
    → Ordered n w
CandidateMove-Ordered from n v w (kept es ec) o =
    ground (arith, ap served_gen es, ap coming_gen ec, ap is_some ec)
CandidateMove-Ordered from n v w (advanced link s t step e ev es ec) o =
    ground
      (arith, ap served_gen es, ap coming_gen ec, ap is_some ec, ap coming_gen ev, ap is_some ev)
CandidateMove-Ordered from n v w (promoted link s can e ev es ec) o =
    ground
      (arith, ap served_gen es, ap coming_gen ec, ap is_some ec, ap coming_gen ev, ap is_some ev)
CandidateMove-Ordered from n v w (failed link s e ev es ec) o =
    ground
      (arith, ap served_gen es, ap coming_gen ec, ap is_some ec, ap coming_gen ev, ap is_some ev)

Move-Ordered :
    {watched : List String} {answer : Option ℕ} (n : ℕ) (m : ToHub) (v w : View)
    → Move watched answer (n + 1) m v w
    → Ordered n v
    → Ordered (n + homes m) w
Move-Ordered n m v w (unmoved es ec) o =
    ground (arith, ap served_gen es, ap coming_gen ec, ap is_some ec)
Move-Ordered n m v w (arrived out halt bind em es ec) o =
    ground (arith, ap homes em, ap served_gen es, ap coming_gen ec, ap is_some ec)
Move-Ordered n m v w (candidate_moved from s c) o =
    ground (arith, CandidateMove-Ordered from n v w c o)
Move-Ordered n m v w (lost link s t ev es ec) o =
    ground (arith, ap served_gen es, ap coming_gen ec, ap is_some ec, ap served_gen ev)
Move-Ordered n m v w (stopped e es ec) o =
    ground (arith, ap served_gen es, ap coming_gen ec, ap is_some ec)

module _ ⦃J : Json⦄ where
  counted : {h h' : Hub} → Keeps h h' → Inv h → h'.next_gen ≡ h.next_gen + 0
  counted k v = omega (arith, k.next_gen v)

  -- The counter of generations counts the home connections.
  pub handle-next_gen :
      (now : ℕ) (m : ToHub) (h : Hub)
      → h.next_gen + homes m < 2 ^ 64
      → Inv h
      → m ≢ shutdown_hub
      → (handle now m h).next_gen ≡ h.next_gen + homes m
  unfolding handle on_phone_hello on_phone_eof drop_phone
  handle-next_gen now (accepted out halt bind) h room v going =
      let k = on_accepted-Inv now out halt bind h v in
      omega (arith, k.2, next_id_lem h.next_gen room)
  handle-next_gen now (home_frame gen msg) h room v going =
      counted (on_home_frame-Keeps now gen msg h) v
  handle-next_gen now (home_eof gen) h room v going =
      counted (Keeps-Untouched (on_home_eof-Untouched gen h)) v
  handle-next_gen now (phone_hello out bind) h room v going = omega arith
  handle-next_gen now (phone_text phone text) h room v going =
      counted (on_phone_text-Keeps phone text h) v
  handle-next_gen now (phone_eof phone) h room v going = omega arith
  handle-next_gen now shutdown_hub h room v going = elim (going refl) [ ]

  expire_in-Ordered :
      (home : Home) (n : ℕ) (h : Hub)
      → Ordered n (view h.home)
      → Ordered n (view home)
      → Ordered n (view (expire_in home h).home)
  unfolding expire_in
  expire_in-Ordered away n h was o = was
  expire_in-Ordered (bringing_up incoming) n h was o =
      if_cases (λ (h' : Hub). Ordered n (view h'.home)) (is_some (deadline_of incoming))
        (omega arith, omega arith, refl) was
  expire_in-Ordered (sole live) n h was o = was
  expire_in-Ordered (dual rep) n h was o =
      if_cases (λ (h' : Hub). Ordered n (view h'.home)) (is_some (deadline_of rep.incoming))
        (o.0, omega arith, refl) was

  pub wake-Ordered :
      (now : ℕ) (deadline : Option ℕ) (n : ℕ) (h : Hub)
      → Ordered n (view h.home)
      → Ordered n (view (wake now deadline h).home)
  unfolding wake on_deadline
  wake-Ordered now none n h o = o
  wake-Ordered now (some deadline) n h o =
      if_cases (λ (h' : Hub). Ordered n (view h'.home)) (leb deadline now)
        (expire_in-Ordered h.home n h o o) o

  pub handle-Ordered :
      (now : ℕ) (m : ToHub) (h : Hub)
      → h.next_gen + 1 < 2 ^ 64
      → (handle now m h).next_gen ≡ h.next_gen + homes m
      → Ordered h.next_gen (view h.home)
      → Ordered (handle now m h).next_gen (view (handle now m h).home)
  handle-Ordered now m h space count o =
      rw count (
        Move-Ordered h.next_gen m _ _ (rw (next_id_lem h.next_gen space) at (handle-Move now m h))
          o)

  run_from-Ordered :
      (events : List (ℕ × Event)) (h : Hub)
      → h.next_phone + hellos_in events < 2 ^ 64
      → h.next_gen + homes_in events + 1 < 2 ^ 64
      → Inv h
      → Ordered h.next_gen (view h.home)
      → ends events ≡ false
      → (let last = run h events in
          Ordered last.next_gen (view last.home) × (last.next_gen ≡ h.next_gen + homes_in events))
  unfolding run
  run_from-Ordered [] h room space v o e = (o, omega arith)
  run_from-Ordered ((now, received shutdown_hub) ∷ events) h room space v o e = cc
  run_from-Ordered ((now, closed) ∷ events) h room space v o e = cc
  run_from-Ordered ((now, woken) ∷ events) h room space v o e =
      let k = wake-Keeps now (current_deadline h) h in
      let o' = wake-Ordered now (current_deadline h) h.next_gen h o in
      let (last, count) =
        run_from-Ordered events (wake now (current_deadline h) h)
          (omega (arith, k.next_phone v, room)) (omega (arith, k.next_gen v, space)) (k.inv v)
          (rw (k.next_gen v) o') e in
      (last, omega (arith, count, k.next_gen v))
  run_from-Ordered ((now, received msg) ∷ events) h room space v o e =
      let going = going_on msg now events e in
      let (v', phones) = handle-Inv now msg h (omega (arith, room)) v going in
      let gens = handle-next_gen now msg h (omega (arith, space)) v going in
      let (last, count) =
        run_from-Ordered events (handle now msg h) (omega (arith, phones, room))
          (omega (arith, gens, space)) v' (handle-Ordered now msg h (omega (arith, space)) gens o)
          e in
      (last, omega (arith, count, gens))

  -- At any moment of a run that has not come to its end, from a hub that has just started and with
  -- fewer than 2 ^ 64 - 1 home connections and 2 ^ 64 phones so far: the counter of generations is
  -- the number of home connections so far, no connection has a generation above it, and the
  -- connection that is coming up has a higher generation than the one that is served.
  pub run-Ordered :
      (events : List (ℕ × Event))
      → hellos_in events < 2 ^ 64
      → homes_in events + 1 < 2 ^ 64
      → ends events ≡ false
      → Ordered (run new_hub events).next_gen (view (run new_hub events).home)
        × ((run new_hub events).next_gen ≡ homes_in events)
  unfolding new_hub
  run-Ordered events room space e =
      let (last, count) =
        run_from-Ordered events new_hub (omega (arith, room)) (omega (arith, space)) new_hub-Inv
          (omega arith, omega arith, refl) e in
      (last, omega (arith, count))
