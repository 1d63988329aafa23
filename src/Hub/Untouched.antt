-- ===== src/Hub/Untouched.antt =====
-- The handlers that leave the tables of phones, sessions and claims alone.
pub mod Candidates
use aqualung.Common.{
  ℕ, ◌≡◌, refl, ◌∙◌, Bool, Option, none, some, List, [], ◌∷◌, String, arith, if_cases, ◌==◌, nat_eq,
}
use aqualung.Json.{Json}
use aqualung.Wire.{leader_protocol_version}
use aqualung.Hub.Loads.{PendingLoads, LoadProgress, more, done, ignore}
use aqualung.Hub.Link.{
  Link, Live, Incoming, wait_loads, Home, away, bringing_up, sole, dual, mux, candidate, unknown,
}
use aqualung.Hub.State.{Hub, send_phone, broadcast_away, alloc_req, reverse_key_eq}
use aqualung.Hub.Slots.{
  CandidateSlot, take_candidate, put_candidate, place_incoming, fail_in, fail_incoming, expire_in,
  on_deadline, lose_mux, on_home_eof, finish_successor,
}
use aqualung.Hub.FromHome.{
  send_follower_initialize, register_candidate, on_registered, ready_candidate, on_leader_ready,
  send_loads, load_sessions, initialize_candidate, after_follower_initialize, note_loaded,
  load_candidate, after_load_result,
}
use aqualung.Hub.FromHome.Frames.{send_phones, on_home_notification}
use aqualung.Hub.FromPhone.{forward_request, forward_notification, refuse}
use aqualung.Hub.State.{role}
use aqualung.Hub.FromHome.{is_wait_registered, is_wait_ready, is_wait_initialize}

module _ ⦃J : Json⦄ where
  pub record Untouched (h h' : Hub) : Type 0 where
    pub phones : h'.phones ≡ h.phones
    pub watchers : h'.watchers ≡ h.watchers
    pub driver : h'.driver ≡ h.driver
    pub reverse : h'.reverse ≡ h.reverse
    pub claims : h'.claims ≡ h.claims
    pub next_phone : h'.next_phone ≡ h.next_phone
    pub next_gen : h'.next_gen ≡ h.next_gen

  pub Untouched-refl : (h : Hub) → Untouched h h
  Untouched-refl h = record {
    phones = refl;
    watchers = refl;
    driver = refl;
    reverse = refl;
    claims = refl;
    next_phone = refl;
    next_gen = refl;
  }

  pub Untouched-trans : {h h' h'' : Hub} → Untouched h h' → Untouched h' h'' → Untouched h h''
  Untouched-trans a b = record {
    phones = b.phones ∙ a.phones;
    watchers = b.watchers ∙ a.watchers;
    driver = b.driver ∙ a.driver;
    reverse = b.reverse ∙ a.reverse;
    claims = b.claims ∙ a.claims;
    next_phone = b.next_phone ∙ a.next_phone;
    next_gen = b.next_gen ∙ a.next_gen;
  }

  pub send_phone-Untouched :
      (phone : ℕ) (text : String) (h : Hub) → Untouched h (send_phone phone text h)
  unfolding send_phone
  send_phone-Untouched phone text h = ground arith

  pub broadcast_away-Untouched : (gone : Bool) (h : Hub) → Untouched h (broadcast_away gone h)
  unfolding broadcast_away
  broadcast_away-Untouched gone h = ground arith

  pub send_phones-Untouched :
      (phones : List ℕ) (text : String) (h : Hub) → Untouched h (send_phones phones text h)
  unfolding send_phones
  send_phones-Untouched [] text h = Untouched-refl h
  send_phones-Untouched (phone ∷ rest) text h =
      Untouched-trans (send_phone-Untouched phone text h) (send_phones-Untouched rest text _)

  pub on_home_notification-Untouched :
      (obj : J.Value) (h : Hub) → Untouched h (on_home_notification obj h)
  unfolding on_home_notification
  on_home_notification-Untouched obj h = grind (arith, send_phones-Untouched)

  pub place_incoming-Untouched :
      (home : Home) (incoming : Incoming) (h : Hub) → Untouched h (place_incoming home incoming h)
  unfolding place_incoming
  place_incoming-Untouched away incoming h = ground arith
  place_incoming-Untouched (bringing_up _) incoming h = ground arith
  place_incoming-Untouched (sole _) incoming h = ground arith
  place_incoming-Untouched (dual _) incoming h = ground arith

  fail_in-Untouched : (home : Home) (gen : ℕ) (h : Hub) → Untouched h (fail_in home gen h)
  unfolding fail_in
  fail_in-Untouched away gen h = ground arith
  fail_in-Untouched (bringing_up incoming) gen h = ground arith
  fail_in-Untouched (sole live) gen h = ground arith
  fail_in-Untouched (dual rep) gen h = ground arith

  pub fail_incoming-Untouched : (gen : ℕ) (h : Hub) → Untouched h (fail_incoming gen h)
  unfolding fail_incoming
  fail_incoming-Untouched gen h = fail_in-Untouched h.home gen h

  expire_in-Untouched : (home : Home) (h : Hub) → Untouched h (expire_in home h)
  unfolding expire_in
  expire_in-Untouched away h = ground arith
  expire_in-Untouched (bringing_up incoming) h = ground arith
  expire_in-Untouched (sole live) h = ground arith
  expire_in-Untouched (dual rep) h = ground arith

  pub on_deadline-Untouched : (h : Hub) → Untouched h (on_deadline h)
  unfolding on_deadline
  on_deadline-Untouched h = expire_in-Untouched h.home h

  lose_mux-Untouched : (home : Home) (gen : ℕ) (h : Hub) → Untouched h (lose_mux home gen h)
  unfolding lose_mux broadcast_away
  lose_mux-Untouched away gen h = ground arith
  lose_mux-Untouched (bringing_up incoming) gen h = ground arith
  lose_mux-Untouched (sole live) gen h = ground arith
  lose_mux-Untouched (dual rep) gen h = ground arith

  pub on_home_eof-Untouched : (gen : ℕ) (h : Hub) → Untouched h (on_home_eof gen h)
  unfolding on_home_eof
  on_home_eof-Untouched gen h =
      elim (role h gen)
        as (λ r. Untouched h (elim r [
          | unknown ↦ h
          | mux ↦ lose_mux h.home gen h
          | candidate ↦ fail_incoming gen h
        ])) [
          | unknown ↦ Untouched-refl h
          | mux ↦ lose_mux-Untouched h.home gen h
          | candidate ↦ fail_incoming-Untouched gen h
        ]
