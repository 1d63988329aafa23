-- ===== src/Hub/Expiry.antt =====
-- What a passed deadline does.
use aqualung.Common.{ℕ, ◌≤◌, ◌≡◌, refl, Option, none, some, nat_eq, arith}
use aqualung.Json.{Json}
use aqualung.Hub.Link.{deadline_of, Home, away, bringing_up, sole, dual}
use aqualung.Hub.State.{Hub}
use aqualung.Hub.Slots.{expire_in, on_deadline, current_deadline}
use aqualung.Hub.Run.{wake}
use aqualung.Hub.Serving.{view}

module _ ⦃J : Json⦄ where
  abbrev deadline_in : Home → Option ℕ
  deadline_in home = elim home [
    | away ↦ none
    | bringing_up incoming ↦ deadline_of incoming
    | sole _ ↦ none
    | dual rep ↦ deadline_of rep.incoming
  ]

  expire_in-view :
      (home : Home) (d : ℕ) (h : Hub)
      → h.home ≡ home
      → deadline_in home ≡ some d
      → (view (expire_in home h).home).served ≡ (view home).served
        × (view (expire_in home h).home).coming ≡ none
        × ((expire_in home h).phones ≡ h.phones)
  unfolding expire_in
  expire_in-view away d h e t = cc
  expire_in-view (bringing_up incoming) d h e t = rw t (refl, refl, refl)
  expire_in-view (sole live) d h e t = cc
  expire_in-view (dual rep) d h e t = rw t (refl, refl, refl)

  deadline_gone :
      (home : Home) (d : ℕ) (h : Hub)
      → deadline_in home ≡ some d
      → current_deadline (expire_in home h) ≡ none
  unfolding expire_in current_deadline
  deadline_gone away d h t = cc
  deadline_gone (bringing_up incoming) d h t = rw t refl
  deadline_gone (sole live) d h t = cc
  deadline_gone (dual rep) d h t = rw t refl

  wake_due : (now d : ℕ) (h : Hub) → d ≤ now → wake now (some d) h ≡ expire_in h.home h
  unfolding wake on_deadline
  wake_due now d h due = ground arith

  -- At the time of its deadline, or later, a connection that is still registering or waiting for
  -- the leader is dropped. The one that is served stays, no deadline is left, and the phones stay.
  pub wake-current_deadline :
      (now d : ℕ) (h : Hub)
      → current_deadline h ≡ some d
      → d ≤ now
      → ((view (wake now (current_deadline h) h).home).served ≡ (view h.home).served)
        × ((view (wake now (current_deadline h) h).home).coming ≡ none)
        × (current_deadline (wake now (current_deadline h) h) ≡ none)
        × ((wake now (current_deadline h) h).phones ≡ h.phones)
  unfolding current_deadline
  wake-current_deadline now d h e due =
      let (served, coming, phones) = expire_in-view h.home d h refl e in
      rw (e, wake_due now d h due) (served, coming, deadline_gone h.home d h e, phones)
