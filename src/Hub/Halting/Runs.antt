-- ===== src/Hub/Halting/Runs.antt =====
-- The halt channels over a whole run of the hub.
use aqualung.Common.{
  ℕ, ◌+◌, ◌≡◌, Bool, true, false, Option, List, [], ◌∷◌, ◌==◌, nat_eq, if◌then◌else◌, arith,
}
use aqualung.Json.{Json}
use aqualung.Hub.State.{Hub}
use aqualung.Hub.Slots.{current_deadline}
use aqualung.Hub.Run.{
  ToHub, accepted, home_frame, home_eof, phone_hello, phone_text, phone_eof, shutdown_hub, Event,
  received, closed, woken, handle, wake, run,
}
use aqualung.Hub.Quiet.{signalled, on_phone_hello-Quiet, on_phone_text-Quiet, on_phone_eof-Quiet}
use aqualung.Hub.Halting.{
  tally, on_accepted-tally, on_deadline-tally, on_home_frame-tally, on_home_eof-tally,
}
use aqualung.Hub.Halting.Closing.{shutdown-signalled, shutdown-home}

-- How often the message brings the halt channel `c`.
abbrev pub brings : ℕ → ToHub → ℕ
brings c (accepted out halt bind) = if halt == c then 1 else 0
brings c (home_frame _ _) = 0
brings c (home_eof _) = 0
brings c (phone_hello _ _) = 0
brings c (phone_text _ _) = 0
brings c (phone_eof _) = 0
brings c shutdown_hub = 0

-- How often the events bring it, up to the end of the loop.
abbrev pub brought : ℕ → List (ℕ × Event) → ℕ
brought c [] = 0
brought c ((_, received shutdown_hub) ∷ events) = 0
brought c ((_, closed) ∷ events) = 0
brought c ((_, received msg) ∷ events) = brings c msg + brought c events
brought c ((_, woken) ∷ events) = brought c events

-- The loop comes to its end.
abbrev pub ends : List (ℕ × Event) → Bool
ends [] = false
ends ((_, received shutdown_hub) ∷ events) = true
ends ((_, closed) ∷ events) = true
ends ((_, received msg) ∷ events) = ends events
ends ((_, woken) ∷ events) = ends events

module _ ⦃J : Json⦄ (c : ℕ) where
  -- Each message changes a halt channel's account, the times that it is held by a home connection
  -- plus the times that it was signalled, by exactly the times that the message brings it.
  pub handle-tally :
      (now : ℕ) (msg : ToHub) (h : Hub) → tally c (handle now msg h) ≡ brings c msg + tally c h
  unfolding handle
  handle-tally now (accepted out halt bind) h = on_accepted-tally c now out halt bind h
  handle-tally now (home_frame gen msg) h = omega (arith, on_home_frame-tally c now gen msg h)
  handle-tally now (home_eof gen) h = omega (arith, on_home_eof-tally c gen h)
  handle-tally now (phone_hello out bind) h = grind (arith, on_phone_hello-Quiet c out bind h)
  handle-tally now (phone_text phone text) h = grind (arith, on_phone_text-Quiet c phone text h)
  handle-tally now (phone_eof phone) h = grind (arith, on_phone_eof-Quiet c phone h)
  handle-tally now shutdown_hub h = grind (arith, shutdown-signalled c h, shutdown-home c h)

  pub wake-tally :
      (now : ℕ) (deadline : Option ℕ) (h : Hub) → tally c (wake now deadline h) ≡ tally c h
  unfolding wake
  wake-tally now deadline h = ground (arith, on_deadline-tally c h)

  -- When the loop has come to its end, after any messages in any order, a halt channel has been
  -- signalled exactly as often as new home connections brought it, with what the hub held or had
  -- signalled at the start.
  pub run-signalled :
      (events : List (ℕ × Event)) (h : Hub)
      → ends events ≡ true
      → signalled c (run h events).sent ≡ brought c events + tally c h
  unfolding run
  run-signalled [] h e = cc
  run-signalled ((now, received shutdown_hub) ∷ events) h e = omega (arith, shutdown-signalled c h)
  run-signalled ((now, closed) ∷ events) h e = omega (arith, shutdown-signalled c h)
  run-signalled ((now, woken) ∷ events) h e = omega (
    arith,
    run-signalled events (wake now (current_deadline h) h) e,
    wake-tally now (current_deadline h) h,
  )
  run-signalled ((now, received msg) ∷ events) h e =
      omega (arith, run-signalled events (handle now msg h) e, handle-tally now msg h)
