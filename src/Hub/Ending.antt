-- ===== src/Hub/Ending.antt =====
-- What the end of a home connection does to the others, in crates/topside/src/hub.rs.
use aqualung.Common.{
  refl, false, ℕ, ◌+◌, ◌<◌, ◌^◌, ap, ◌∙◌, List, [], ◌∷◌, ◌++◌, ◌≡◌, ◌==◌, nat_eq, if◌then◌else◌,
  arith,
}
use aqualung.Json.{Json}
use aqualung.Hub.Link.{Home, away, bringing_up, sole, dual, abort, unknown}
use aqualung.Hub.State.{Hub, role, role_in, broadcast_away}
use aqualung.Hub.Slots.{on_home_eof, lose_mux, fail_incoming, fail_in}
use aqualung.Hub.Serving.{view}
use aqualung.Hub.Slots.{current_deadline}
use aqualung.Hub.State.{new_hub}
use aqualung.Hub.Run.{home_eof, shutdown_hub, Event, received, closed, woken, handle, wake, run}
use aqualung.Hub.Halting.Runs.{ends}
use aqualung.Hub.Invariant.Runs.{hellos_in}
use aqualung.Hub.Serving.Generations.{Ordered, homes_in, run-Ordered}

module _ ⦃J : Json⦄ where
  on_home_eof-role_of :
      (home_gen other : ℕ) (home : Home) (h : Hub)
      → Ordered h.next_gen (view home)
      → role (on_home_eof home_gen (record h { home = home })) other
        ≡ (if home_gen == other then unknown else role_in home other)
  unfolding on_home_eof role role_in lose_mux fail_incoming fail_in broadcast_away abort
  on_home_eof-role_of home_gen other away h o = ground arith
  on_home_eof-role_of home_gen other (bringing_up incoming) h o = ground arith
  on_home_eof-role_of home_gen other (sole live) h o = ground arith
  on_home_eof-role_of home_gen other (dual rep) h o = ground (arith, o)

  -- Where the generations are ordered, as they are over every run: the end of a home connection leaves
  -- it without a role, and every other connection with the role that it had.
  on_home_eof-role :
      (home_gen other : ℕ) (h : Hub)
      → Ordered h.next_gen (view h.home)
      → role (on_home_eof home_gen h) other ≡ (if home_gen == other then unknown else role h other)
  unfolding role
  on_home_eof-role home_gen other h o = on_home_eof-role_of home_gen other h.home h o

  pub run-append :
      (events more : List (ℕ × Event)) (h : Hub)
      → ends events ≡ false
      → run h (events ++ more) ≡ run (run h events) more
  unfolding run
  run-append [] more h e = refl
  run-append ((now, received shutdown_hub) ∷ events) more h e = cc
  run-append ((now, closed) ∷ events) more h e = cc
  run-append ((now, woken) ∷ events) more h e =
      run-append events more (wake now (current_deadline h) h) e
  run-append ((now, received msg) ∷ events) more h e = run-append events more (handle now msg h) e

  -- At any moment of a run that has not come to its end, from a hub that has just started and with
  -- fewer than 2 ^ 64 - 1 home connections and 2 ^ 64 phones so far: when the hub is told of the end of a
  -- home connection, that connection has no role any more, and every other has the role that it had.
  pub run-home_eof :
      (events : List (ℕ × Event)) (now home_gen other : ℕ)
      → hellos_in events < 2 ^ 64
      → homes_in events + 1 < 2 ^ 64
      → ends events ≡ false
      → role (run new_hub (events ++ (now, received (home_eof home_gen)) ∷ [])) other
        ≡ (if home_gen == other then unknown else role (run new_hub events) other)
  unfolding run handle
  run-home_eof events now home_gen other phones homes going =
      ap (λ (h : Hub). role h other)
        (run-append events ((now, received (home_eof home_gen)) ∷ []) new_hub going)
      ∙ on_home_eof-role home_gen other (run new_hub events)
          (run-Ordered events phones homes going).0
