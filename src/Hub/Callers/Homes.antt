-- ===== src/Hub/Callers/Homes.antt =====
-- The messages of the home connections leave the connections of the phones as they are.
use aqualung.Common.{
  ℕ, ◌≡◌, refl, Bool, Option, none, some, List, [], ◌∷◌, ◌==◌, nat_eq, arith, String, if_cases,
}
use aqualung.Json.{Json}
use aqualung.Wire.{LeaderServer}
use aqualung.Wire.{leader_protocol_version}
use aqualung.Hub.Loads.{PendingLoads, LoadProgress, more, done, ignore}
use aqualung.Hub.Link.{
  Effect, Link, drop_link, Live, Incoming, wait_loads, Home, away, bringing_up, sole, dual,
}
use aqualung.Hub.State.{Hub, Wait, forwarded, hub_initialize, hub_load, alloc_req, alloc_reverse_id}
use aqualung.Hub.Slots.{
  CandidateSlot, take_candidate, put_candidate, place_incoming, fail_incoming, on_deadline,
  on_home_eof, finish_successor,
}
use aqualung.Hub.FromHome.{
  is_wait_registered, is_wait_ready, is_wait_initialize, send_follower_initialize,
  register_candidate, on_registered, ready_candidate, on_leader_ready, send_loads, load_sessions,
  initialize_candidate, after_follower_initialize, note_loaded, load_candidate, after_load_result,
}
use aqualung.Hub.FromHome.Frames.{
  watch_reply, settle, on_home_result, send_phones, on_home_notification, ask_phones, ask,
  on_reverse_request, dispatch_home, on_home_acp, frame_arm, on_home_frame,
}
use aqualung.Hub.Callers.{
  given, closed_at, Steady, Steady-refl, Steady-trans, broadcast_away-Steady, send_phone-Steady,
  watch-Steady,
}

drop_link-given :
    (i : ℕ) (link : Link) (sent : List Effect)
    → (given i (drop_link link sent) ≡ given i sent)
      × (closed_at i (drop_link link sent) ≡ closed_at i sent)
unfolding drop_link
drop_link-given i link sent = ground arith

module _ ⦃J : Json⦄ (i p : ℕ) where
  pub place_incoming-Steady :
      (home : Home) (incoming : Incoming) (h : Hub) → Steady i p h (place_incoming home incoming h)
  unfolding place_incoming drop_link
  place_incoming-Steady away incoming h = ground arith
  place_incoming-Steady (bringing_up _) incoming h = ground arith
  place_incoming-Steady (sole _) incoming h = ground arith
  place_incoming-Steady (dual _) incoming h = ground arith

  fail_incoming-Steady : (gen : ℕ) (h : Hub) → Steady i p h (fail_incoming gen h)
  unfolding fail_incoming drop_link
  fail_incoming-Steady gen h = ground arith

  pub on_deadline-Steady : (h : Hub) → Steady i p h (on_deadline h)
  unfolding on_deadline drop_link
  on_deadline-Steady h = ground arith

  pub on_home_eof-Steady : (gen : ℕ) (h : Hub) → Steady i p h (on_home_eof gen h)
  unfolding on_home_eof drop_link
  on_home_eof-Steady gen h = grind (arith, broadcast_away-Steady i p, fail_incoming-Steady)

  put_candidate-Steady :
      (incoming : Incoming) (slot : CandidateSlot) (h : Hub)
      → Steady i p h (put_candidate incoming slot h)
  unfolding put_candidate
  put_candidate-Steady incoming slot h = ground arith

  finish_successor-Steady :
      (live : Live) (slot : CandidateSlot) (h : Hub) → Steady i p h (finish_successor live slot h)
  unfolding finish_successor drop_link
  finish_successor-Steady live slot h = grind (arith, broadcast_away-Steady i p)

  take_candidate-Steady : (gen : ℕ) (h : Hub) → Steady i p h (take_candidate h gen).1
  unfolding take_candidate
  take_candidate-Steady gen h = record { channel = refl; given = refl; closed = refl }

  send_follower_initialize-Steady :
      (link : Link) (h : Hub) → Steady i p h (send_follower_initialize link h)
  unfolding send_follower_initialize alloc_req
  send_follower_initialize-Steady link h = ground arith

  send_loads-Steady :
      (link : Link) (ids : List (ℕ × String)) (h : Hub) → Steady i p h (send_loads link ids h)
  unfolding send_loads
  send_loads-Steady link [] h = Steady-refl h
  send_loads-Steady link ((id, session) ∷ rest) h =
      Steady-trans (ground arith) (send_loads-Steady link rest _)

  abbrev Taken : Type 0
  Taken = Option (Incoming × CandidateSlot) × Hub

  register_candidate-Steady :
      (now : ℕ) (is_up : Bool) (t : Taken) → Steady i p t.1 (register_candidate now is_up t)
  unfolding register_candidate
  register_candidate-Steady now is_up (none, h) = Steady-refl h
  register_candidate-Steady now is_up (some (incoming, slot), h) =
      if_cases (Steady i p h) (is_wait_registered incoming)
        (if_cases (Steady i p h) is_up
          (Steady-trans (send_follower_initialize-Steady _ h) (put_candidate-Steady _ slot _))
          (put_candidate-Steady _ slot h))
        (put_candidate-Steady incoming slot h)

  ready_candidate-Steady : (t : Taken) → Steady i p t.1 (ready_candidate t)
  unfolding ready_candidate
  ready_candidate-Steady (none, h) = Steady-refl h
  ready_candidate-Steady (some (incoming, slot), h) =
      if_cases (Steady i p h) (is_wait_ready incoming)
        (Steady-trans (send_follower_initialize-Steady _ h) (put_candidate-Steady _ slot _))
        (put_candidate-Steady incoming slot h)

  load_sessions-Steady :
      (link : Link) (slot : CandidateSlot) (loads : Option PendingLoads × ℕ) (h : Hub)
      → Steady i p h (load_sessions link slot loads h)
  unfolding load_sessions
  load_sessions-Steady link slot (none, last) h =
      Steady-trans (ground arith) (finish_successor-Steady _ slot _)
  load_sessions-Steady link slot (some pending, last) h =
      Steady-trans (ground arith)
        (Steady-trans (send_loads-Steady link _ _) (put_candidate-Steady _ slot _))

  initialize_candidate-Steady : (t : Taken) → Steady i p t.1 (initialize_candidate t)
  unfolding initialize_candidate
  initialize_candidate-Steady (none, h) = Steady-refl h
  initialize_candidate-Steady (some (incoming, slot), h) =
      if_cases (Steady i p h) (is_wait_initialize incoming) (load_sessions-Steady _ slot _ h)
        (put_candidate-Steady incoming slot h)

  note_loaded-Steady :
      (link : Link) (slot : CandidateSlot) (progress : LoadProgress) (h : Hub)
      → Steady i p h (note_loaded link slot progress h)
  unfolding note_loaded
  note_loaded-Steady link slot (more pending) h = put_candidate-Steady _ slot h
  note_loaded-Steady link slot (ignore pending) h = put_candidate-Steady _ slot h
  note_loaded-Steady link slot done h = finish_successor-Steady _ slot h

  load_candidate-Steady : (id : ℕ) (t : Taken) → Steady i p t.1 (load_candidate id t)
  unfolding load_candidate
  load_candidate-Steady id (none, h) = Steady-refl h
  load_candidate-Steady id (some (wait_loads link pending, slot), h) =
      note_loaded-Steady link slot _ h
  load_candidate-Steady id (some (incoming, slot), h) = put_candidate-Steady incoming slot h

  after_follower_initialize-Steady :
      (gen : ℕ) (h : Hub) → Steady i p h (after_follower_initialize gen h)
  unfolding after_follower_initialize
  after_follower_initialize-Steady gen h =
      Steady-trans (take_candidate-Steady gen h)
        (initialize_candidate-Steady (take_candidate h gen))

  after_load_result-Steady : (gen id : ℕ) (h : Hub) → Steady i p h (after_load_result gen id h)
  unfolding after_load_result
  after_load_result-Steady gen id h =
      Steady-trans (take_candidate-Steady gen h) (load_candidate-Steady id (take_candidate h gen))

  on_registered-Steady :
      (now gen : ℕ) (is_up : Bool) (version : ℕ) (h : Hub)
      → Steady i p h (on_registered now gen is_up version h)
  unfolding on_registered
  on_registered-Steady now gen is_up version h =
      if_cases (Steady i p h) (version == leader_protocol_version)
        (Steady-trans (ground arith) (
          Steady-trans (take_candidate-Steady gen (record h { refused_version = none })) (
            register_candidate-Steady now is_up
              (take_candidate (record h { refused_version = none }) gen))))
        (Steady-trans (ground arith)
          (fail_incoming-Steady gen (record h { refused_version = some version })))

  on_leader_ready-Steady : (gen : ℕ) (h : Hub) → Steady i p h (on_leader_ready gen h)
  unfolding on_leader_ready
  on_leader_ready-Steady gen h =
      Steady-trans (take_candidate-Steady gen h) (ready_candidate-Steady (take_candidate h gen))

  watch_reply-Steady :
      (phone : ℕ) (obj : J.Value) (h : Hub) → Steady i p h (watch_reply phone obj h)
  unfolding watch_reply
  watch_reply-Steady phone obj h = grind (arith, watch-Steady i p)

  settle-Steady :
      (gen id : ℕ) (obj : J.Value) (wait : Wait) (h : Hub) → Steady i p h (settle gen id obj wait h)
  unfolding settle
  settle-Steady gen id obj (forwarded phone origin) h =
      grind (arith, watch_reply-Steady, send_phone-Steady i p)
  settle-Steady gen id obj hub_initialize h =
      grind (arith, fail_incoming-Steady, after_follower_initialize-Steady)
  settle-Steady gen id obj hub_load h = grind (arith, after_load_result-Steady)

  on_home_result-Steady :
      (gen : ℕ) (obj : J.Value) (h : Hub) → Steady i p h (on_home_result gen obj h)
  unfolding on_home_result
  on_home_result-Steady gen obj h = grind (arith, settle-Steady)

  send_phones-Steady :
      (phones : List ℕ) (text : String) (h : Hub) → Steady i p h (send_phones phones text h)
  unfolding send_phones
  send_phones-Steady [] text h = Steady-refl h
  send_phones-Steady (phone ∷ rest) text h =
      Steady-trans (send_phone-Steady i p phone text h) (send_phones-Steady rest text _)

  on_home_notification-Steady :
      (obj : J.Value) (h : Hub) → Steady i p h (on_home_notification obj h)
  unfolding on_home_notification
  on_home_notification-Steady obj h = grind (arith, send_phones-Steady)

  ask_phones-Steady :
      (phones : List ℕ) (key : ℕ) (obj : J.Value) (h : Hub)
      → Steady i p h (ask_phones phones key obj h)
  unfolding ask_phones alloc_reverse_id
  ask_phones-Steady [] key obj h = Steady-refl h
  ask_phones-Steady (phone ∷ rest) key obj h =
      Steady-trans
        (Steady-trans (record { channel = refl; given = refl; closed = refl })
          (send_phone-Steady i p phone _ _))
        (ask_phones-Steady rest key obj _)

  ask-Steady : (phones : List ℕ) (id obj : J.Value) (h : Hub) → Steady i p h (ask phones id obj h)
  unfolding ask alloc_req
  ask-Steady [] id obj h = Steady-refl h
  ask-Steady (phone ∷ rest) id obj h =
      Steady-trans (record { channel = refl; given = refl; closed = refl })
        (ask_phones-Steady (phone ∷ rest) _ obj _)

  on_reverse_request-Steady : (obj : J.Value) (h : Hub) → Steady i p h (on_reverse_request obj h)
  unfolding on_reverse_request
  on_reverse_request-Steady obj h = grind (arith, ask-Steady)

  on_home_acp-Steady :
      (gen : ℕ) (payload : String) (h : Hub) → Steady i p h (on_home_acp gen payload h)
  unfolding on_home_acp dispatch_home
  on_home_acp-Steady gen payload h =
      grind (arith, on_home_result-Steady, on_home_notification-Steady, on_reverse_request-Steady)

  pub on_home_frame-Steady :
      (now gen : ℕ) (msg : LeaderServer) (h : Hub) → Steady i p h (on_home_frame now gen msg h)
  unfolding on_home_frame frame_arm
  on_home_frame-Steady now gen msg h = grind (
    arith, on_registered-Steady, on_leader_ready-Steady, on_home_acp-Steady, fail_incoming-Steady,
    on_home_eof-Steady,
  )
