-- ===== src/Hub/Untouched/Candidates.antt =====
-- A connection that comes up, and the requests and notifications that are passed on, leave the tables alone.
use aqualung.Common.{
  ℕ, refl, Bool, Option, none, some, List, [], ◌∷◌, String, arith, if_cases, ◌==◌, nat_eq,
}
use aqualung.Json.{Json}
use aqualung.Wire.{leader_protocol_version}
use aqualung.Hub.Loads.{PendingLoads, LoadProgress, more, done, ignore}
use aqualung.Hub.Link.{Link, Live, Incoming, wait_loads}
use aqualung.Hub.State.{Hub, broadcast_away, alloc_req, reverse_key_eq}
use aqualung.Hub.Slots.{CandidateSlot, take_candidate, put_candidate, finish_successor}
use aqualung.Hub.FromHome.{
  send_follower_initialize, register_candidate, on_registered, ready_candidate, on_leader_ready,
  send_loads, load_sessions, initialize_candidate, after_follower_initialize, note_loaded,
  load_candidate, after_load_result,
}
use aqualung.Hub.FromPhone.{forward_request, forward_notification, refuse}
use aqualung.Hub.FromHome.{is_wait_registered, is_wait_ready, is_wait_initialize}
use aqualung.Hub.Untouched.{
  Untouched, Untouched-refl, Untouched-trans, send_phone-Untouched, fail_incoming-Untouched,
}

module _ ⦃J : Json⦄ where
  put_candidate-Untouched :
      (incoming : Incoming) (slot : CandidateSlot) (h : Hub)
      → Untouched h (put_candidate incoming slot h)
  unfolding put_candidate
  put_candidate-Untouched incoming slot h = ground arith

  finish_successor-Untouched :
      (live : Live) (slot : CandidateSlot) (h : Hub) → Untouched h (finish_successor live slot h)
  unfolding finish_successor broadcast_away
  finish_successor-Untouched live slot h = ground arith

  take_candidate-Untouched : (gen : ℕ) (h : Hub) → Untouched h (take_candidate h gen).1
  unfolding take_candidate
  take_candidate-Untouched gen h = record {
    phones = refl;
    watchers = refl;
    driver = refl;
    reverse = refl;
    claims = refl;
    next_phone = refl;
    next_gen = refl;
  }

  send_follower_initialize-Untouched :
      (link : Link) (h : Hub) → Untouched h (send_follower_initialize link h)
  unfolding send_follower_initialize alloc_req
  send_follower_initialize-Untouched link h = ground arith

  send_loads-Untouched :
      (link : Link) (ids : List (ℕ × String)) (h : Hub) → Untouched h (send_loads link ids h)
  unfolding send_loads
  send_loads-Untouched link [] h = Untouched-refl h
  send_loads-Untouched link ((id, session) ∷ rest) h =
      Untouched-trans (ground arith) (send_loads-Untouched link rest _)

  abbrev Taken : Type 0
  Taken = Option (Incoming × CandidateSlot) × Hub

  register_candidate-Untouched :
      (now : ℕ) (is_up : Bool) (t : Taken) → Untouched t.1 (register_candidate now is_up t)
  unfolding register_candidate
  register_candidate-Untouched now is_up (none, h) = Untouched-refl h
  register_candidate-Untouched now is_up (some (incoming, slot), h) =
      if_cases (Untouched h) (is_wait_registered incoming)
        (if_cases (Untouched h) is_up
          (Untouched-trans (send_follower_initialize-Untouched _ h)
            (put_candidate-Untouched _ slot _))
          (put_candidate-Untouched _ slot h))
        (put_candidate-Untouched incoming slot h)

  ready_candidate-Untouched : (t : Taken) → Untouched t.1 (ready_candidate t)
  unfolding ready_candidate
  ready_candidate-Untouched (none, h) = Untouched-refl h
  ready_candidate-Untouched (some (incoming, slot), h) =
      if_cases (Untouched h) (is_wait_ready incoming)
        (Untouched-trans (send_follower_initialize-Untouched _ h)
          (put_candidate-Untouched _ slot _))
        (put_candidate-Untouched incoming slot h)

  load_sessions-Untouched :
      (link : Link) (slot : CandidateSlot) (loads : Option PendingLoads × ℕ) (h : Hub)
      → Untouched h (load_sessions link slot loads h)
  unfolding load_sessions
  load_sessions-Untouched link slot (none, last) h =
      Untouched-trans (ground arith) (finish_successor-Untouched _ slot _)
  load_sessions-Untouched link slot (some pending, last) h =
      Untouched-trans (ground arith)
        (Untouched-trans (send_loads-Untouched link _ _) (put_candidate-Untouched _ slot _))

  initialize_candidate-Untouched : (t : Taken) → Untouched t.1 (initialize_candidate t)
  unfolding initialize_candidate
  initialize_candidate-Untouched (none, h) = Untouched-refl h
  initialize_candidate-Untouched (some (incoming, slot), h) =
      if_cases (Untouched h) (is_wait_initialize incoming) (load_sessions-Untouched _ slot _ h)
        (put_candidate-Untouched incoming slot h)

  note_loaded-Untouched :
      (link : Link) (slot : CandidateSlot) (progress : LoadProgress) (h : Hub)
      → Untouched h (note_loaded link slot progress h)
  unfolding note_loaded
  note_loaded-Untouched link slot (more pending) h = put_candidate-Untouched _ slot h
  note_loaded-Untouched link slot (ignore pending) h = put_candidate-Untouched _ slot h
  note_loaded-Untouched link slot done h = finish_successor-Untouched _ slot h

  load_candidate-Untouched : (id : ℕ) (t : Taken) → Untouched t.1 (load_candidate id t)
  unfolding load_candidate
  load_candidate-Untouched id (none, h) = Untouched-refl h
  load_candidate-Untouched id (some (wait_loads link pending, slot), h) =
      note_loaded-Untouched link slot _ h
  load_candidate-Untouched id (some (incoming, slot), h) = put_candidate-Untouched incoming slot h

  pub after_follower_initialize-Untouched :
      (gen : ℕ) (h : Hub) → Untouched h (after_follower_initialize gen h)
  unfolding after_follower_initialize
  after_follower_initialize-Untouched gen h =
      Untouched-trans (take_candidate-Untouched gen h)
        (initialize_candidate-Untouched (take_candidate h gen))

  pub after_load_result-Untouched :
      (gen id : ℕ) (h : Hub) → Untouched h (after_load_result gen id h)
  unfolding after_load_result
  after_load_result-Untouched gen id h =
      Untouched-trans (take_candidate-Untouched gen h)
        (load_candidate-Untouched id (take_candidate h gen))

  pub on_registered-Untouched :
      (now gen : ℕ) (is_up : Bool) (version : ℕ) (h : Hub)
      → Untouched h (on_registered now gen is_up version h)
  unfolding on_registered
  on_registered-Untouched now gen is_up version h =
      if_cases (Untouched h) (version == leader_protocol_version)
        (Untouched-trans (ground arith) (
          Untouched-trans (take_candidate-Untouched gen (record h { refused_version = none })) (
            register_candidate-Untouched now is_up
              (take_candidate (record h { refused_version = none }) gen))))
        (Untouched-trans (ground arith)
          (fail_incoming-Untouched gen (record h { refused_version = some version })))

  pub on_leader_ready-Untouched : (gen : ℕ) (h : Hub) → Untouched h (on_leader_ready gen h)
  unfolding on_leader_ready
  on_leader_ready-Untouched gen h =
      Untouched-trans (take_candidate-Untouched gen h)
        (ready_candidate-Untouched (take_candidate h gen))

  pub forward_request-Untouched :
      (phone : ℕ) (origin obj : J.Value) (h : Hub)
      → Untouched h (forward_request phone origin obj h)
  unfolding forward_request alloc_req
  forward_request-Untouched phone origin obj h = grind (arith, send_phone-Untouched)

  pub forward_notification-Untouched :
      (obj : J.Value) (h : Hub) → Untouched h (forward_notification obj h)
  unfolding forward_notification
  forward_notification-Untouched obj h = ground arith

  pub refuse-Untouched : (phone : ℕ) (id : J.Value) (h : Hub) → Untouched h (refuse phone id h)
  unfolding refuse
  refuse-Untouched phone id h = send_phone-Untouched phone _ h
