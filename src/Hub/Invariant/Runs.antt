-- ===== src/Hub/Invariant/Runs.antt =====
-- The invariant under every message, and in every run.
use aqualung.Common.{
  ℕ, ◌+◌, ◌<◌, ◌^◌, ◌≡◌, refl, ◌≢◌, false, Option, none, some, List, [], ◌∷◌, nat_eq, string_eq,
  arith, ==_iff, if_cases, leb,
}
use aqualung.Common.HashMap.{get, keys, insert, get-insert}
use aqualung.Json.{Json}
use aqualung.Hub.Loads.{next_id}
use aqualung.Hub.Link.{Effect}
use aqualung.Hub.State.{Hub, Phone, connected, new_hub}
use aqualung.Hub.Watching.{on_phone_eof, drop_phone}
use aqualung.Hub.Slots.{current_deadline}
use aqualung.Hub.FromPhone.{on_phone_hello}
use aqualung.Hub.Run.{
  ToHub, accepted, home_frame, home_eof, phone_hello, phone_text, phone_eof, shutdown_hub, Event,
  received, closed, woken, handle, wake, run,
}
use aqualung.Hub.Slots.{on_accepted}
use aqualung.Hub.Link.{home_bound}
use aqualung.Hub.State.{emit}
use aqualung.Hub.Untouched.{place_incoming-Untouched, on_deadline-Untouched, on_home_eof-Untouched}
use aqualung.Hub.Halting.Runs.{ends}
use aqualung.Hub.Invariant.{Inv}
use aqualung.Hub.Invariant.Handling.{on_home_frame-Keeps, on_phone_text-Keeps}
use aqualung.Hub.Invariant.Agreement.{Agree-mono}
use aqualung.Hub.Invariant.Leaving.{on_phone_eof-Inv}
use aqualung.Hub.Invariant.Keeping.{Keeps, Keeps-refl, Keeps-Untouched}

-- How many phone ids a message takes.
abbrev pub hellos : ToHub → ℕ
hellos (accepted _ _ _) = 0
hellos (home_frame _ _) = 0
hellos (home_eof _) = 0
hellos (phone_hello _ _) = 1
hellos (phone_text _ _) = 0
hellos (phone_eof _) = 0
hellos shutdown_hub = 0

-- How many phone ids the events take.
abbrev pub hellos_in : List (ℕ × Event) → ℕ
hellos_in [] = 0
hellos_in ((_, received msg) ∷ events) = hellos msg + hellos_in events
hellos_in ((_, closed) ∷ events) = hellos_in events
hellos_in ((_, woken) ∷ events) = hellos_in events

module _ ⦃J : Json⦄ where
  pub next_id_lem : (n : ℕ) → n + 1 < 2 ^ 64 → next_id n ≡ n + 1
  unfolding next_id
  next_id_lem n room = omega arith

  -- A new phone, under an id that no phone has.
  arrived :
      (id : ℕ) (slot : Phone) (h : Hub) (sent : List Effect)
      → id ≡ h.next_phone + 1
      → Inv h
      → Inv (record h { next_phone = id; phones = insert id slot h.phones; sent = sent })
  arrived id slot h sent e v = record {
    watched = λ s.
        Agree-mono h.phones _ (get s h.watchers) (get s h.driver)
          (λ p r. ground (arith, get-insert id p slot h.phones, ==_iff id p, v.fresh p))
          (v.watched s);
    distinct = v.distinct;
    fresh = λ p lt. ground (arith, get-insert id p slot h.phones, ==_iff id p, v.fresh p);
    asked = λ k c a. ground (arith, get-insert id k.0 slot h.phones, v.asked k c a);
  }

  on_phone_hello-Inv :
      (out bind : ℕ) (h : Hub)
      → h.next_phone + 1 < 2 ^ 64
      → Inv h
      → Inv (on_phone_hello out bind h)
        × ((on_phone_hello out bind h).next_phone ≡ h.next_phone + 1)
  unfolding on_phone_hello
  on_phone_hello-Inv out bind h room v = (
    arrived (next_id h.next_phone) (connected out) h _ (next_id_lem h.next_phone room) v,
    next_id_lem h.next_phone room,
  )

  pub on_accepted-Inv :
      (now out halt bind : ℕ) (h : Hub)
      → Inv h
      → Inv (on_accepted now out halt bind h)
        × ((on_accepted now out halt bind h).next_phone ≡ h.next_phone)
        × ((on_accepted now out halt bind h).next_gen ≡ next_id h.next_gen)
  unfolding on_accepted
  on_accepted-Inv now out halt bind h v =
      let told : Hub =
        emit (home_bound bind (next_id h.next_gen)) (record h { next_gen = next_id h.next_gen }) in
      let same : Inv told = record {
        watched = v.watched;
        distinct = v.distinct;
        fresh = v.fresh;
        asked = v.asked;
      } in
      let k = Keeps-Untouched (place_incoming-Untouched h.home _ told) in
      (k.inv same, k.next_phone same, k.next_gen same)

  counted : {h h' : Hub} → Keeps h h' → Inv h → Inv h' × (h'.next_phone ≡ h.next_phone + 0)
  counted k v = (k.inv v, omega (arith, k.next_phone v))

  on_phone_eof-next_phone : (phone : ℕ) (h : Hub) → (on_phone_eof phone h).next_phone ≡ h.next_phone
  unfolding on_phone_eof drop_phone
  on_phone_eof-next_phone phone h = refl

  -- Every message but the shutdown keeps the invariant of the tables, as long as the counter of
  -- phone ids has not reached its end, and the counter counts the phones.
  pub handle-Inv :
      (now : ℕ) (m : ToHub) (h : Hub)
      → h.next_phone + hellos m < 2 ^ 64
      → Inv h
      → m ≢ shutdown_hub
      → Inv (handle now m h) × ((handle now m h).next_phone ≡ h.next_phone + hellos m)
  unfolding handle
  handle-Inv now (accepted out halt bind) h room v going =
      let k = on_accepted-Inv now out halt bind h v in (k.0, omega (arith, k.1))
  handle-Inv now (home_frame gen msg) h room v going = counted (on_home_frame-Keeps now gen msg h) v
  handle-Inv now (home_eof gen) h room v going =
      counted (Keeps-Untouched (on_home_eof-Untouched gen h)) v
  handle-Inv now (phone_hello out bind) h room v going = on_phone_hello-Inv out bind h room v
  handle-Inv now (phone_text phone text) h room v going =
      counted (on_phone_text-Keeps phone text h) v
  handle-Inv now (phone_eof phone) h room v going =
      (on_phone_eof-Inv phone h v, omega (arith, on_phone_eof-next_phone phone h))
  handle-Inv now shutdown_hub h room v going = elim (going refl) [ ]

  pub going_on :
      (msg : ToHub) (now : ℕ) (events : List (ℕ × Event))
      → ends ((now, received msg) ∷ events) ≡ false
      → msg ≢ shutdown_hub
  going_on (accepted out halt bind) now events e = λ q. cc
  going_on (home_frame gen m) now events e = λ q. cc
  going_on (home_eof gen) now events e = λ q. cc
  going_on (phone_hello out bind) now events e = λ q. cc
  going_on (phone_text phone text) now events e = λ q. cc
  going_on (phone_eof phone) now events e = λ q. cc
  going_on shutdown_hub now events e = λ q. cc

  pub wake-Keeps : (now : ℕ) (deadline : Option ℕ) (h : Hub) → Keeps h (wake now deadline h)
  unfolding wake
  wake-Keeps now none h = Keeps-refl h
  wake-Keeps now (some deadline) h =
      if_cases (Keeps h) (leb deadline now) (Keeps-Untouched (on_deadline-Untouched h))
        (Keeps-refl h)

  -- The tables of a hub that has just started.
  pub new_hub-Inv : Inv new_hub
  unfolding new_hub get keys
  new_hub-Inv = record {
    watched = λ s. tt;
    distinct = tt;
    fresh = λ p lt. refl;
    asked = λ k c e. cc;
  }

  run_from :
      (events : List (ℕ × Event)) (h : Hub)
      → h.next_phone + hellos_in events < 2 ^ 64
      → Inv h
      → ends events ≡ false
      → Inv (run h events)
  unfolding run
  run_from [] h room v e = v
  run_from ((now, received shutdown_hub) ∷ events) h room v e = cc
  run_from ((now, closed) ∷ events) h room v e = cc
  run_from ((now, woken) ∷ events) h room v e =
      let k = wake-Keeps now (current_deadline h) h in
      run_from events (wake now (current_deadline h) h) (omega (arith, k.next_phone v)) (k.inv v) e
  run_from ((now, received msg) ∷ events) h room v e =
      let k = handle-Inv now msg h (omega arith) v (going_on msg now events e) in
      run_from events (handle now msg h) (omega (arith, k.1)) k.0 e

  -- At any moment of a run that has not come to its end, from a hub that has just started and with
  -- fewer than 2 ^ 64 phones so far: a session has a driver exactly if it is watched, its driver is
  -- one of its watchers, every watcher is a connected phone that has initialized, and none stands
  -- twice; no phone has an id above the counter; and every question still open at a phone is at a connected phone, with its
  -- claim recorded.
  pub run-Inv :
      (events : List (ℕ × Event))
      → hellos_in events < 2 ^ 64
      → ends events ≡ false
      → Inv (run new_hub events)
  unfolding new_hub
  run-Inv events room e = run_from events new_hub (omega arith) new_hub-Inv e
