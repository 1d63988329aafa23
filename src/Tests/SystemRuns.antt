-- ===== src/Tests/SystemRuns.antt =====
-- Topside as a whole, from its start on: a leader and a phone that watches a session.
use aqualung.Hub.Link.{mux}
use aqualung.Hub.State.{Phone as Slot}
use aqualung.Common.{
  String, refl, ◌≡◌, ◌<◌, ◌^◌, ◌+◌, arith, ℕ, true, false, some, none, List, [], ◌∷◌, string_eq,
  nat_eq, ◌==◌, if◌then◌else◌, ok,
}
use aqualung.Wire.LeaderServer.{pong, registered, acp}
use aqualung.Topside.Net.Home as Home
use aqualung.Topside.Net.Home.{
  Codec, arrived, polled, poll_frame, poll_body, on_frame, decode, put_frame, on_message, tell,
}
use aqualung.Wire.Frame.{read_exact, from_be_bytes, write_frame, to_be_bytes}
use aqualung.Topside.Net.Telling as Telling
use aqualung.Topside.Net.Texting as Texting
use aqualung.Topside.Net.Phone.{incoming, text_message, on_incoming}
use aqualung.Topside.Net.Phone as Phone
use aqualung.Topside.Config.{ClientCertVerifier, pinned}
use aqualung.Topside.System.{
  System, Step, idle, update, after_home, after_phone, home_taken, phone_taken, home_arrives,
  phone_arrives, hub_takes, home_binds, home_turns, phone_binds, phone_turns, Reach, at_start,
  later,
}
use aqualung.Common.HashMap.{
  get, contains_key, insert, remove, retain, keys, values, btree_map_insert, btree_map_collect,
}
use aqualung.Common.HashSet.{contains, set_insert, set_remove, btree_insert, place, btree_collect}
use aqualung.Common.Decimal.{decimal}
use aqualung.Wire.Rpc.{
  method_of, is_interaction, parse_rpc_text, host_away_note, initialize_result, follower_initialize,
  session_load, rpc_error, session_id_in,
}
use aqualung.Hub.Loads.{next_id, assign_ids, start, loaded}
use aqualung.Hub.Link.{drop_link, link_of, deadline_of, into_live, abort, arm, cutover, is_away}
use aqualung.Hub.State.{
  phone_out, is_ready, role_in, mux_link_in, tell_ready, take_claim, new_hub, role, mux_out,
  phone_ready, send_phone, broadcast_away, alloc_req, alloc_reverse_id,
}
use aqualung.Hub.Slots.{
  take_candidate_in, take_candidate, put_candidate, place_incoming, on_accepted, fail_in,
  fail_incoming, expire_in, on_deadline, lose_mux, on_home_eof, finish_successor, current_deadline,
}
use aqualung.Hub.Watching.{
  or_default, first, without, driven_by, pass_on, hand_on, watch, unwatch, drop_phone, on_phone_eof,
}
use aqualung.Hub.FromHome.{
  send_follower_initialize, register_candidate, on_registered, ready_candidate, on_leader_ready,
  send_loads, load_sessions, initialize_candidate, after_follower_initialize, note_loaded,
  load_candidate, after_load_result,
}
use aqualung.Hub.FromHome.Frames.{
  watch_reply, settle, on_home_result, send_phones, on_home_notification, targets, ask_phones, ask,
  on_reverse_request, dispatch_home, on_home_acp, frame_arm, on_home_frame,
}
use aqualung.Hub.FromPhone.{
  on_phone_hello, answer_initialize, forward_request, forward_notification, answer_claim,
  on_phone_reply, watch_named, unwatch_named, refuse, on_phone_request, on_rpc, on_phone_text,
}
use aqualung.Hub.Run.{close_phones, drop_home, shutdown, handle, wake, run}
use aqualung.Topside.Config.{bytes_eq}
use aqualung.Topside.Net.Bearer.{
  callback, decide, header_of, unwrap_or_empty, bearer_bytes, split_once, eq_ignore_ascii_case,
  to_ascii_lowercase,
}
use aqualung.Common.Trim.{trim}
use aqualung.Common.Utf8.{as_bytes, encode}
use aqualung.Auth.{token_eq}
use aqualung.Tests.SamplePki.{pki, http}
use aqualung.Tests.Samples.{json}

-- The first byte of a payload says which message it is.
instance abbrev pub leader_codec : Codec
leader_codec = record {
  from_slice = λ bytes. elim bytes [
    | [] ↦ none
    | b ∷ _ ↦
        some (if b == 1 then registered true 1 else if b == 2 then acp "initialized" else pong)
  ];
  to_vec = λ msg. some (7 ∷ []);
}

abbrev pub any_client : ClientCertVerifier
any_client = record {
  root_hint_subjects = [];
  verify_client_cert = λ cert others now. ok tt;
  verify_tls12_signature = λ text cert signed. ok tt;
  verify_tls13_signature = λ text cert signed. ok tt;
  supported_verify_schemes = [];
  offer_client_auth = true;
  client_auth_mandatory = true;
  requires_raw_public_keys = false;
}

abbrev pub leaf : List ℕ
leaf = 1 ∷ 2 ∷ []

abbrev pub token : List ℕ
token = 104 ∷ 105 ∷ []

pub record Moment : Type 0 where
  pub last : System
  pub reach : Reach (pinned any_client leaf) token last

abbrev pub quiet : Home.Conn
quiet = record { held = []; socket = []; peer_closed = false; writable = true; hub_open = true }

abbrev pub phone_conn : Phone.Conn
phone_conn = record { writable = true; hub_open = true }

abbrev pub said : String → Phone.Event
said text = incoming (some (ok (text_message text)))

abbrev pub go : (m : Moment) {t : System} → Step (pinned any_client leaf) token m.last t → Moment
go m {t} step = record { last = t; reach = later m.reach step }

-- A leader and a phone have come, and the hub knows of both.
unfoldable pub connected_both : Moment
unfolding get contains_key insert remove retain keys values btree_map_insert btree_map_collect
    contains set_insert set_remove btree_insert place btree_collect decimal method_of is_interaction
    parse_rpc_text host_away_note initialize_result follower_initialize session_load rpc_error
    session_id_in next_id assign_ids start loaded drop_link link_of deadline_of into_live abort arm
    cutover is_away phone_out is_ready role_in mux_link_in tell_ready take_claim new_hub role
    mux_out phone_ready send_phone broadcast_away alloc_req alloc_reverse_id take_candidate_in
    take_candidate put_candidate place_incoming on_accepted fail_in fail_incoming expire_in
    on_deadline lose_mux on_home_eof finish_successor current_deadline or_default first without
    driven_by pass_on hand_on watch unwatch drop_phone on_phone_eof send_follower_initialize
    register_candidate on_registered ready_candidate on_leader_ready send_loads load_sessions
    initialize_candidate after_follower_initialize note_loaded load_candidate after_load_result
    watch_reply settle on_home_result send_phones on_home_notification targets ask_phones ask
    on_reverse_request dispatch_home on_home_acp frame_arm on_home_frame on_phone_hello
    answer_initialize forward_request forward_notification answer_claim on_phone_reply watch_named
    unwatch_named refuse on_phone_request on_rpc on_phone_text close_phones drop_home shutdown
    handle wake run idle pinned bytes_eq callback update after_home after_phone home_taken
    phone_taken decide header_of unwrap_or_empty bearer_bytes trim split_once eq_ignore_ascii_case
    to_ascii_lowercase as_bytes encode token_eq
connected_both =
    let m : Moment = record { last = idle; reach = at_start } in
    let m = go m (home_arrives (some leaf) [] 0 refl (refl, refl)) in
    let m = go m (phone_arrives "bearer hi" refl refl) in
    let m = go m (hub_takes 1 _ _ refl refl (λ e. cc)) in
    let m = go m (hub_takes 2 _ _ refl refl (λ e. cc)) in
    let m = go m (home_binds 0 1 (some leaf) quiet refl refl) in
    let m = go m (phone_binds 0 1 "bearer hi" phone_conn refl refl) in m

-- The leader has registered and answered the hub, and the phone watches a session.
unfoldable pub watching : Moment
unfolding get contains_key insert remove retain keys values btree_map_insert btree_map_collect
    contains set_insert set_remove btree_insert place btree_collect decimal method_of is_interaction
    parse_rpc_text host_away_note initialize_result follower_initialize session_load rpc_error
    session_id_in next_id assign_ids start loaded drop_link link_of deadline_of into_live abort arm
    cutover is_away phone_out is_ready role_in mux_link_in tell_ready take_claim new_hub role
    mux_out phone_ready send_phone broadcast_away alloc_req alloc_reverse_id take_candidate_in
    take_candidate put_candidate place_incoming on_accepted fail_in fail_incoming expire_in
    on_deadline lose_mux on_home_eof finish_successor current_deadline or_default first without
    driven_by pass_on hand_on watch unwatch drop_phone on_phone_eof send_follower_initialize
    register_candidate on_registered ready_candidate on_leader_ready send_loads load_sessions
    initialize_candidate after_follower_initialize note_loaded load_candidate after_load_result
    watch_reply settle on_home_result send_phones on_home_notification targets ask_phones ask
    on_reverse_request dispatch_home on_home_acp frame_arm on_home_frame on_phone_hello
    answer_initialize forward_request forward_notification answer_claim on_phone_reply watch_named
    unwatch_named refuse on_phone_request on_rpc on_phone_text close_phones drop_home shutdown
    handle wake run idle pinned bytes_eq callback update after_home after_phone home_taken
    phone_taken decide header_of unwrap_or_empty bearer_bytes trim split_once eq_ignore_ascii_case
    to_ascii_lowercase as_bytes encode token_eq connected_both poll_frame poll_body read_exact
    from_be_bytes on_frame Home.step Home.registration put_frame on_message tell write_frame
    to_be_bytes decode Phone.step on_incoming Telling.messages Texting.messages
watching =
    let m = connected_both in
    let m = go m (home_turns 0 1 0 (some leaf) _ (arrived (0 ∷ 0 ∷ 0 ∷ 1 ∷ 1 ∷ [])) refl tt) in
    let m = go m (home_turns 0 1 0 (some leaf) _ polled refl tt) in
    let m = go m (hub_takes 3 _ _ refl refl (λ e. cc)) in
    let m = go m (home_turns 0 1 0 (some leaf) _ (arrived (0 ∷ 0 ∷ 0 ∷ 1 ∷ 2 ∷ [])) refl tt) in
    let m = go m (home_turns 0 1 0 (some leaf) _ polled refl tt) in
    let m = go m (hub_takes 4 _ _ refl refl (λ e. cc)) in
    let m = go m (phone_turns 0 1 0 "bearer hi" _ (said "initialize") refl tt) in
    let m = go m (hub_takes 5 _ _ refl refl (λ e. cc)) in
    let m = go m (phone_turns 0 1 0 "bearer hi" _ (said "load") refl tt) in
    let m = go m (hub_takes 6 _ _ refl refl (λ e. cc)) in m

-- The hub serves the leader, and the phone is one of the session's watchers.
pub watching_lem :
    (watching.last.running ≡ true)
    × (watching.last.callers < 2 ^ 64)
    × (watching.last.homes + 1 < 2 ^ 64)
    × (get 1 watching.last.hub.phones ≡ some (Slot.ready 0))
    × (role watching.last.hub 1 ≡ mux)
    × (or_default (get "s" watching.last.hub.watchers) ≡ 1 ∷ [])
    × (watching.last.queue ≡ [])
unfolding get contains_key insert remove retain keys values btree_map_insert btree_map_collect
    contains set_insert set_remove btree_insert place btree_collect decimal method_of is_interaction
    parse_rpc_text host_away_note initialize_result follower_initialize session_load rpc_error
    session_id_in next_id assign_ids start loaded drop_link link_of deadline_of into_live abort arm
    cutover is_away phone_out is_ready role_in mux_link_in tell_ready take_claim new_hub role
    mux_out phone_ready send_phone broadcast_away alloc_req alloc_reverse_id take_candidate_in
    take_candidate put_candidate place_incoming on_accepted fail_in fail_incoming expire_in
    on_deadline lose_mux on_home_eof finish_successor current_deadline or_default first without
    driven_by pass_on hand_on watch unwatch drop_phone on_phone_eof send_follower_initialize
    register_candidate on_registered ready_candidate on_leader_ready send_loads load_sessions
    initialize_candidate after_follower_initialize note_loaded load_candidate after_load_result
    watch_reply settle on_home_result send_phones on_home_notification targets ask_phones ask
    on_reverse_request dispatch_home on_home_acp frame_arm on_home_frame on_phone_hello
    answer_initialize forward_request forward_notification answer_claim on_phone_reply watch_named
    unwatch_named refuse on_phone_request on_rpc on_phone_text close_phones drop_home shutdown
    handle wake run idle pinned bytes_eq callback update after_home after_phone home_taken
    phone_taken decide header_of unwrap_or_empty bearer_bytes trim split_once eq_ignore_ascii_case
    to_ascii_lowercase as_bytes encode token_eq connected_both poll_frame poll_body read_exact
    from_be_bytes on_frame Home.step Home.registration put_frame on_message tell write_frame
    to_be_bytes decode Phone.step on_incoming Telling.messages Texting.messages watching
watching_lem = (refl, omega arith, omega arith, refl, refl, refl, refl)
