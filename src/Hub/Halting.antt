-- ===== src/Hub/Halting.antt =====
-- The halt channels of the home connections: each is held by the hub or has been signalled.
pub mod Closing
pub mod Runs
use aqualung.Common.{
  ℕ, ◌+◌, ◌≡◌, refl, ◌∙◌, Option, none, some, List, [], ◌∷◌, ◌==◌, nat_eq, if◌then◌else◌, arith,
}
use aqualung.Json.{Json}
use aqualung.Common.HashMap.{HashMap}
use aqualung.Hub.FromHome.{
  send_follower_initialize, register_candidate, ready_candidate, load_sessions, send_loads,
  initialize_candidate, note_loaded, load_candidate, on_registered, on_leader_ready,
  after_follower_initialize, after_load_result,
}
use aqualung.Hub.FromHome.Frames.{
  watch_reply, settle, on_home_result, send_phones, on_home_notification, ask_phones, ask,
  on_reverse_request, dispatch_home, on_home_acp, frame_arm, on_home_frame,
}
use aqualung.Wire.Rpc.{host_away_note}
use aqualung.Common.{String, Bool}
use aqualung.Hub.Link.{
  Live, Effect, to_leader, to_phone, halted, leader_closed, phone_closed, home_bound, phone_bound,
  Link, drop_link, Incoming, wait_registered, wait_ready, wait_initialize, wait_loads, ready,
  link_of, Home, away, bringing_up, sole, dual, abort, arm, cutover, into_live, deadline_of, Role,
  mux, candidate, unknown,
}
use aqualung.Hub.State.{
  Hub, Phone, connected, tell_ready, send_phone, broadcast_away, alloc_req, role, role_in,
}
use aqualung.Hub.Slots.{
  on_accepted, fail_incoming, on_deadline, on_home_eof, finish_successor, take_candidate,
  put_candidate, take_candidate_in, CandidateSlot,
}
use aqualung.Hub.Quiet.{
  holds, held, signals, signalled, Quiet, broadcast_away-Quiet, send_phone-Quiet,
  send_follower_initialize-Quiet, send_loads-Quiet, watch_reply-Quiet, on_home_notification-Quiet,
  on_reverse_request-Quiet, on_phone_hello-Quiet, on_phone_text-Quiet, on_phone_eof-Quiet,
}
use aqualung.Hub.Loads.{PendingLoads, LoadProgress, more, done, ignore}
use aqualung.Hub.State.{Wait, forwarded, hub_initialize, hub_load}
use aqualung.Hub.Run.{
  ToHub, accepted, home_frame, home_eof, phone_hello, phone_text, phone_eof, shutdown_hub, handle,
  shutdown, drop_home, close_phones,
}
use aqualung.Wire.{LeaderServer}
use aqualung.Hub.State.{phone_out}

signalled-drop_link :
    (c : ℕ) (link : Link) (sent : List Effect)
    → signalled c (drop_link link sent) ≡ holds c link + signalled c sent
unfolding drop_link
signalled-drop_link c link sent = ground arith

abbrev pub slot_holds : ℕ → CandidateSlot → ℕ
slot_holds c slot = elim slot.incumbent [ none ↦ 0 | some live ↦ holds c live.link ]

abbrev pub taken_holds : ℕ → Option (Incoming × CandidateSlot) → ℕ
taken_holds c none = 0
taken_holds c (some (incoming, slot)) = holds c (link_of incoming) + slot_holds c slot

module _ ⦃J : Json⦄ (c : ℕ) where
  abbrev pub tally : Hub → ℕ
  tally h = held c h.home + signalled c h.sent

  pub on_accepted-tally :
      (now out halt bind : ℕ) (h : Hub)
      → tally (on_accepted now out halt bind h) ≡ (if halt == c then 1 else 0) + tally h
  unfolding on_accepted link_of drop_link
  on_accepted-tally now out halt bind h = ground arith

  fail_incoming-tally : (gen : ℕ) (h : Hub) → tally (fail_incoming gen h) ≡ tally h
  unfolding fail_incoming
  fail_incoming-tally gen h = ground arith

  pub on_deadline-tally : (h : Hub) → tally (on_deadline h) ≡ tally h
  unfolding on_deadline
  on_deadline-tally h = ground arith

  pub on_home_eof-tally : (gen : ℕ) (h : Hub) → tally (on_home_eof gen h) ≡ tally h
  unfolding on_home_eof drop_link
  on_home_eof-tally gen h = grind (arith, broadcast_away-Quiet, fail_incoming-tally)

  pub finish_successor-tally :
      (live : Live) (slot : CandidateSlot) (h : Hub)
      → tally (finish_successor live slot h)
        ≡ holds c live.link + slot_holds c slot + signalled c h.sent
  unfolding finish_successor drop_link
  finish_successor-tally live slot h = grind (arith, broadcast_away-Quiet)

  pub put_candidate-tally :
      (incoming : Incoming) (slot : CandidateSlot) (h : Hub)
      → tally (put_candidate incoming slot h)
        ≡ holds c (link_of incoming) + slot_holds c slot + signalled c h.sent
  unfolding put_candidate
  put_candidate-tally incoming slot h = ground arith

  take_candidate_in-held :
      (home : Home) (gen : ℕ)
      → held c (take_candidate_in home gen).1 + taken_holds c (take_candidate_in home gen).0
        ≡ held c home
  unfolding take_candidate_in
  take_candidate_in-held away gen = refl
  take_candidate_in-held (bringing_up incoming) gen = ground arith
  take_candidate_in-held (sole live) gen = ground arith
  take_candidate_in-held (dual rep) gen = ground arith

  -- What is held in all, with the candidate taken out.
  abbrev pub taken_tally : Option (Incoming × CandidateSlot) × Hub → ℕ
  taken_tally (none, h) = tally h
  taken_tally (some (incoming, slot), h) =
      holds c (link_of incoming) + slot_holds c slot + signalled c h.sent

  take_candidate_in-tally :
      (home : Home) (gen : ℕ) (h : Hub)
      → h.home ≡ home
      → taken_tally
          ((take_candidate_in home gen).0, record h { home = (take_candidate_in home gen).1 })
        ≡ tally h
  unfolding take_candidate_in
  take_candidate_in-tally away gen h e = ground arith
  take_candidate_in-tally (bringing_up incoming) gen h e = ground arith
  take_candidate_in-tally (sole live) gen h e = ground arith
  take_candidate_in-tally (dual rep) gen h e = ground arith

  pub take_candidate-tally : (gen : ℕ) (h : Hub) → taken_tally (take_candidate h gen) ≡ tally h
  unfolding take_candidate
  take_candidate-tally gen h = take_candidate_in-tally h.home gen h refl

  abbrev Taken : Type 0
  Taken = Option (Incoming × CandidateSlot) × Hub

  register_candidate-tally :
      (now : ℕ) (is_up : Bool) (t : Taken) → tally (register_candidate now is_up t) ≡ taken_tally t
  unfolding register_candidate link_of
  register_candidate-tally now is_up (none, h) = refl
  register_candidate-tally now is_up (some (incoming, slot), h) =
      grind (arith, put_candidate-tally, send_follower_initialize-Quiet)

  ready_candidate-tally : (t : Taken) → tally (ready_candidate t) ≡ taken_tally t
  unfolding ready_candidate link_of
  ready_candidate-tally (none, h) = refl
  ready_candidate-tally (some (incoming, slot), h) =
      grind (arith, put_candidate-tally, send_follower_initialize-Quiet)

  load_sessions-tally :
      (link : Link) (slot : CandidateSlot) (loads : Option PendingLoads × ℕ) (h : Hub)
      → tally (load_sessions link slot loads h)
        ≡ holds c link + slot_holds c slot + signalled c h.sent
  unfolding load_sessions link_of
  load_sessions-tally link slot (none, last) h = grind (arith, finish_successor-tally)
  load_sessions-tally link slot (some pending, last) h =
      grind (arith, put_candidate-tally, send_loads-Quiet)

  initialize_candidate-tally : (t : Taken) → tally (initialize_candidate t) ≡ taken_tally t
  unfolding initialize_candidate link_of
  initialize_candidate-tally (none, h) = refl
  initialize_candidate-tally (some (incoming, slot), h) =
      grind (arith, put_candidate-tally, load_sessions-tally)

  note_loaded-tally :
      (link : Link) (slot : CandidateSlot) (progress : LoadProgress) (h : Hub)
      → tally (note_loaded link slot progress h)
        ≡ holds c link + slot_holds c slot + signalled c h.sent
  unfolding note_loaded link_of
  note_loaded-tally link slot progress h =
      grind (arith, finish_successor-tally, put_candidate-tally)

  load_candidate-tally : (id : ℕ) (t : Taken) → tally (load_candidate id t) ≡ taken_tally t
  unfolding load_candidate link_of
  load_candidate-tally id (none, h) = refl
  load_candidate-tally id (some (wait_loads link pending, slot), h) =
      note_loaded-tally link slot _ h
  load_candidate-tally id (some (incoming, slot), h) = put_candidate-tally incoming slot h

  after_follower_initialize-tally :
      (gen : ℕ) (h : Hub) → tally (after_follower_initialize gen h) ≡ tally h
  unfolding after_follower_initialize
  after_follower_initialize-tally gen h =
      initialize_candidate-tally (take_candidate h gen) ∙ take_candidate-tally gen h

  after_load_result-tally : (gen id : ℕ) (h : Hub) → tally (after_load_result gen id h) ≡ tally h
  unfolding after_load_result
  after_load_result-tally gen id h =
      load_candidate-tally id (take_candidate h gen) ∙ take_candidate-tally gen h

  settle-tally :
      (gen id : ℕ) (obj : J.Value) (wait : Wait) (h : Hub)
      → tally (settle gen id obj wait h) ≡ tally h
  unfolding settle
  settle-tally gen id obj (forwarded phone origin) h =
      grind (arith, watch_reply-Quiet, send_phone-Quiet)
  settle-tally gen id obj hub_initialize h =
      grind (arith, fail_incoming-tally, after_follower_initialize-tally)
  settle-tally gen id obj hub_load h = grind (arith, after_load_result-tally)

  on_home_result-tally :
      (gen : ℕ) (obj : J.Value) (h : Hub) → tally (on_home_result gen obj h) ≡ tally h
  unfolding on_home_result
  on_home_result-tally gen obj h = grind (arith, settle-tally)

  on_home_acp-tally :
      (gen : ℕ) (payload : String) (h : Hub) → tally (on_home_acp gen payload h) ≡ tally h
  unfolding on_home_acp dispatch_home
  on_home_acp-tally gen payload h =
      grind (arith, on_home_result-tally, on_home_notification-Quiet, on_reverse_request-Quiet)

  on_registered-tally :
      (now gen : ℕ) (is_up : Bool) (version : ℕ) (h : Hub)
      → tally (on_registered now gen is_up version h) ≡ tally h
  unfolding on_registered
  on_registered-tally now gen is_up version h =
      grind (arith, fail_incoming-tally, register_candidate-tally, take_candidate-tally)

  on_leader_ready-tally : (gen : ℕ) (h : Hub) → tally (on_leader_ready gen h) ≡ tally h
  unfolding on_leader_ready
  on_leader_ready-tally gen h =
      ready_candidate-tally (take_candidate h gen) ∙ take_candidate-tally gen h

  pub on_home_frame-tally :
      (now gen : ℕ) (msg : LeaderServer) (h : Hub) → tally (on_home_frame now gen msg h) ≡ tally h
  unfolding on_home_frame frame_arm
  on_home_frame-tally now gen msg h = grind (
    arith, on_registered-tally, on_leader_ready-tally, on_home_acp-tally, fail_incoming-tally,
    on_home_eof-tally,
  )
