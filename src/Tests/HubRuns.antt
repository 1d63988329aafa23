-- ===== src/Tests/HubRuns.antt =====
-- The hub at work: what it has sent after the morning of the samples.
use aqualung.Common.{ℕ, ◌≡◌, refl, List, [], ◌∷◌}
use aqualung.Common.HashMap.{
  get, contains_key, insert, remove, retain, keys, values, btree_map_insert, btree_map_collect,
}
use aqualung.Common.HashSet.{contains, set_insert, set_remove, btree_insert, place, btree_collect}
use aqualung.Common.Decimal.{decimal}
use aqualung.Wire.Rpc.{
  method_of, is_interaction, parse_rpc_text, host_away_note, initialize_result, follower_initialize,
  session_load, rpc_error, session_id_in,
}
use aqualung.Hub.Loads.{next_id, assign_ids, start, loaded}
use aqualung.Hub.Link.{
  Effect, to_leader, to_phone, halted, leader_closed, phone_closed, home_bound, phone_bound,
  drop_link, link_of, deadline_of, into_live, abort, arm, cutover, is_away,
}
use aqualung.Hub.State.{
  phone_out, is_ready, role_in, mux_link_in, tell_ready, take_claim, new_hub, role, mux_out,
  phone_ready, send_phone, broadcast_away, alloc_req, alloc_reverse_id,
}
use aqualung.Hub.Slots.{
  take_candidate_in, take_candidate, put_candidate, place_incoming, on_accepted, fail_in,
  fail_incoming, expire_in, on_deadline, lose_mux, on_home_eof, finish_successor, current_deadline,
}
use aqualung.Hub.Watching.{
  or_default, first, without, driven_by, pass_on, hand_on, watch, unwatch, drop_phone, on_phone_eof,
}
use aqualung.Hub.FromHome.{
  send_follower_initialize, register_candidate, on_registered, ready_candidate, on_leader_ready,
  send_loads, load_sessions, initialize_candidate, after_follower_initialize, note_loaded,
  load_candidate, after_load_result,
}
use aqualung.Hub.FromHome.Frames.{
  watch_reply, settle, on_home_result, send_phones, on_home_notification, targets, ask_phones, ask,
  on_reverse_request, dispatch_home, on_home_acp, frame_arm, on_home_frame,
}
use aqualung.Hub.FromPhone.{
  on_phone_hello, answer_initialize, forward_request, forward_notification, answer_claim,
  on_phone_reply, watch_named, unwatch_named, refuse, on_phone_request, on_rpc, on_phone_text,
}
use aqualung.Hub.Run.{close_phones, drop_home, shutdown, handle, wake, run}
use aqualung.Tests.Samples.{json, morning, day}

-- The channel that an effect is on.
abbrev channel : Effect → ℕ
channel (to_leader out _) = out
channel (to_phone out _) = out
channel (halted halt) = halt
channel (leader_closed out) = out
channel (phone_closed out) = out
channel (home_bound bind _) = bind
channel (phone_bound bind _) = bind

abbrev channels : List Effect → List ℕ
channels [] = []
channels (effect ∷ sent) = channel effect ∷ channels sent

-- The newest first: the question and the answer to the phone, the phone's request to the leader, the
-- phone's `initialize` answered, the phone's id, the hub's `initialize` to the leader, and the home
-- connection's generation.
morning_sent : channels (run new_hub morning).sent ≡ 21 ∷ 21 ∷ 11 ∷ 21 ∷ 22 ∷ 11 ∷ 13 ∷ []
unfolding get contains_key insert remove retain keys values btree_map_insert btree_map_collect
    contains set_insert set_remove btree_insert place btree_collect decimal method_of is_interaction
    parse_rpc_text host_away_note initialize_result follower_initialize session_load rpc_error
    session_id_in next_id assign_ids start loaded drop_link link_of deadline_of into_live abort arm
    cutover is_away phone_out is_ready role_in mux_link_in tell_ready take_claim new_hub role
    mux_out phone_ready send_phone broadcast_away alloc_req alloc_reverse_id take_candidate_in
    take_candidate put_candidate place_incoming on_accepted fail_in fail_incoming expire_in
    on_deadline lose_mux on_home_eof finish_successor current_deadline or_default first without
    driven_by pass_on hand_on watch unwatch drop_phone on_phone_eof send_follower_initialize
    register_candidate on_registered ready_candidate on_leader_ready send_loads load_sessions
    initialize_candidate after_follower_initialize note_loaded load_candidate after_load_result
    watch_reply settle on_home_result send_phones on_home_notification targets ask_phones ask
    on_reverse_request dispatch_home on_home_acp frame_arm on_home_frame on_phone_hello
    answer_initialize forward_request forward_notification answer_claim on_phone_reply watch_named
    unwatch_named refuse on_phone_request on_rpc on_phone_text close_phones drop_home shutdown
    handle wake run
morning_sent = refl

-- Both home connections are closed and halted by the end of the day.
day_sent : channels (run new_hub day).sent ≡ 31 ∷ 32 ∷ 11 ∷ 12 ∷ 33 ∷ 11 ∷ 13 ∷ []
unfolding get contains_key insert remove retain keys values btree_map_insert btree_map_collect
    contains set_insert set_remove btree_insert place btree_collect decimal method_of is_interaction
    parse_rpc_text host_away_note initialize_result follower_initialize session_load rpc_error
    session_id_in next_id assign_ids start loaded drop_link link_of deadline_of into_live abort arm
    cutover is_away phone_out is_ready role_in mux_link_in tell_ready take_claim new_hub role
    mux_out phone_ready send_phone broadcast_away alloc_req alloc_reverse_id take_candidate_in
    take_candidate put_candidate place_incoming on_accepted fail_in fail_incoming expire_in
    on_deadline lose_mux on_home_eof finish_successor current_deadline or_default first without
    driven_by pass_on hand_on watch unwatch drop_phone on_phone_eof send_follower_initialize
    register_candidate on_registered ready_candidate on_leader_ready send_loads load_sessions
    initialize_candidate after_follower_initialize note_loaded load_candidate after_load_result
    watch_reply settle on_home_result send_phones on_home_notification targets ask_phones ask
    on_reverse_request dispatch_home on_home_acp frame_arm on_home_frame on_phone_hello
    answer_initialize forward_request forward_notification answer_claim on_phone_reply watch_named
    unwatch_named refuse on_phone_request on_rpc on_phone_text close_phones drop_home shutdown
    handle wake run
day_sent = refl
