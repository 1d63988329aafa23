-- ===== src/Hub/Halting/Closing.antt =====
-- The halt channels at the shutdown of the hub.
use aqualung.Common.{ℕ, ◌+◌, ◌≡◌, refl, ◌∙◌, List, [], ◌∷◌, nat_eq, arith}
use aqualung.Json.{Json}
use aqualung.Common.HashMap.{HashMap}
use aqualung.Hub.Link.{Effect, phone_closed, drop_link, Home, away, bringing_up, sole, dual}
use aqualung.Hub.State.{Hub, Phone}
use aqualung.Hub.Quiet.{held, signalled}
use aqualung.Hub.Run.{shutdown, drop_home, close_phones}
use aqualung.Hub.State.{phone_out}
use aqualung.Hub.Halting.{tally}

module _ ⦃J : Json⦄ (c : ℕ) where
  close_phones-signalled :
      (phones : HashMap ℕ Phone) (sent : List Effect)
      → signalled c (close_phones phones sent) ≡ signalled c sent
  unfolding close_phones
  close_phones-signalled [] sent = refl
  close_phones-signalled ((_, slot) ∷ phones) sent =
      omega (arith, close_phones-signalled phones (phone_closed (phone_out slot) ∷ sent))

  drop_home-signalled :
      (home : Home) (h : Hub)
      → signalled c (drop_home home h).sent ≡ held c home + signalled c h.sent
  unfolding drop_home drop_link
  drop_home-signalled away h = ground arith
  drop_home-signalled (bringing_up incoming) h = ground arith
  drop_home-signalled (sole live) h = ground arith
  drop_home-signalled (dual rep) h = ground arith

  -- After the shutdown no connection is held, and all that were held have been halted.
  pub shutdown-signalled : (h : Hub) → signalled c (shutdown h).sent ≡ tally c h
  unfolding shutdown
  shutdown-signalled h =
      close_phones-signalled (drop_home h.home h).phones (drop_home h.home h).sent
      ∙ drop_home-signalled h.home h

  pub shutdown-home : (h : Hub) → (shutdown h).home ≡ away
  unfolding shutdown
  shutdown-home h = refl
