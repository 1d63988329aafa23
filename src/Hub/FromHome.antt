-- ===== src/Hub/FromHome.antt =====
-- The handshake of a home connection, from crates/topside/src/hub.rs: `on_registered`,
-- `on_leader_ready`, `after_follower_initialize` and `after_load_result`.
pub mod Frames
use aqualung.Common.{
  ℕ, ◌+◌, String, Bool, true, false, Option, none, some, List, [], ◌∷◌, ◌==◌, nat_eq, string_eq,
  if◌then◌else◌, ok, err, ◌>>=◌, is_some,
}
use aqualung.Common.HashMap.{get, insert, remove, keys}
use aqualung.Json.{Json}
use aqualung.Wire.{LeaderServer, LeaderClient, leader_protocol_version}
use aqualung.Wire.Rpc.{
  parse_rpc_text, follower_initialize, session_load, session_id_in, is_interaction, method_of,
}
use aqualung.Hub.Loads.{PendingLoads, LoadProgress, more, done, ignore, start, loaded, requests}
use aqualung.Hub.Link.{
  to_leader, Link, Incoming, wait_registered, wait_ready, wait_initialize, wait_loads, link_of,
  Role, mux, candidate, unknown,
}
use aqualung.Hub.State.{
  Hub, Wait, forwarded, hub_initialize, hub_load, open_claim, reverse_key_eq, ready_wait, emit,
  role, send_phone, alloc_req, alloc_reverse_id,
}
use aqualung.Hub.Slots.{
  CandidateSlot, take_candidate, put_candidate, fail_incoming, on_home_eof, finish_successor,
}
use aqualung.Hub.Watching.{watch, or_default}

-- `matches!(incoming, Incoming::WaitRegistered { .. })`, and so on.
abbrev pub is_wait_registered : Incoming → Bool
is_wait_registered (wait_registered _ _) = true
is_wait_registered _ = false

abbrev pub is_wait_ready : Incoming → Bool
is_wait_ready (wait_ready _ _) = true
is_wait_ready _ = false

abbrev pub is_wait_initialize : Incoming → Bool
is_wait_initialize (wait_initialize _) = true
is_wait_initialize _ = false

abbrev pub is_mux : Role → Bool
is_mux mux = true
is_mux candidate = false
is_mux unknown = false

abbrev pub is_candidate : Role → Bool
is_candidate mux = false
is_candidate candidate = true
is_candidate unknown = false

-- `Option::into_iter().collect()`
abbrev pub to_list {ℓ} : {A : Type ℓ} → Option A → List A
to_list none = []
to_list (some a) = a ∷ []

module _ ⦃J : Json⦄ where
  open J use {Value, field, set_field, as_str, as_u64, to_string}

  unfoldable pub send_follower_initialize : Link → Hub → Hub
  send_follower_initialize link h =
      let (id, h') = alloc_req h in
      emit (to_leader link.out (LeaderClient.acp (follower_initialize id)))
        (record h' { outstanding = insert id hub_initialize h'.outstanding })

  unfoldable pub register_candidate : ℕ → Bool → Option (Incoming × CandidateSlot) × Hub → Hub
  register_candidate now is_up (none, h) = h
  register_candidate now is_up (some (incoming, slot), h) =
      if is_wait_registered incoming
      then (if is_up
          then put_candidate (wait_initialize (link_of incoming)) slot
              (send_follower_initialize (link_of incoming) h)
          else put_candidate (wait_ready (link_of incoming) (now + ready_wait)) slot h)
      else put_candidate incoming slot h

  unfoldable pub on_registered : ℕ → ℕ → Bool → ℕ → Hub → Hub
  on_registered now home_gen is_up version h =
      if version == leader_protocol_version
      then register_candidate now is_up
          (take_candidate (record h { refused_version = none }) home_gen)
      else fail_incoming home_gen (record h { refused_version = some version })

  unfoldable pub ready_candidate : Option (Incoming × CandidateSlot) × Hub → Hub
  ready_candidate (none, h) = h
  ready_candidate (some (incoming, slot), h) =
      if is_wait_ready incoming
      then put_candidate (wait_initialize (link_of incoming)) slot
          (send_follower_initialize (link_of incoming) h)
      else put_candidate incoming slot h

  unfoldable pub on_leader_ready : ℕ → Hub → Hub
  on_leader_ready home_gen h = ready_candidate (take_candidate h home_gen)

  -- The loop of `after_follower_initialize` over the sessions to load.
  unfoldable pub send_loads : Link → List (ℕ × String) → Hub → Hub
  send_loads link [] h = h
  send_loads link ((id, session) ∷ rest) h = send_loads link rest (
      emit (to_leader link.out (LeaderClient.acp (session_load id session)))
        (record h { outstanding = insert id hub_load h.outstanding }))

  unfoldable pub load_sessions : Link → CandidateSlot → Option PendingLoads × ℕ → Hub → Hub
  load_sessions link slot (none, last) h =
      finish_successor (record { link = link }) slot (record h { next_req = last })
  load_sessions link slot (some pending, last) h =
      put_candidate (wait_loads link pending) slot
        (send_loads link (requests pending) (record h { next_req = last }))

  unfoldable pub initialize_candidate : Option (Incoming × CandidateSlot) × Hub → Hub
  initialize_candidate (none, h) = h
  initialize_candidate (some (incoming, slot), h) =
      if is_wait_initialize incoming
      then load_sessions (link_of incoming) slot (start (keys h.watchers) h.next_req) h
      else put_candidate incoming slot h

  unfoldable pub after_follower_initialize : ℕ → Hub → Hub
  after_follower_initialize home_gen h = initialize_candidate (take_candidate h home_gen)

  unfoldable pub note_loaded : Link → CandidateSlot → LoadProgress → Hub → Hub
  note_loaded link slot (more pending) h = put_candidate (wait_loads link pending) slot h
  note_loaded link slot (ignore pending) h = put_candidate (wait_loads link pending) slot h
  note_loaded link slot done h = finish_successor (record { link = link }) slot h

  unfoldable pub load_candidate : ℕ → Option (Incoming × CandidateSlot) × Hub → Hub
  load_candidate id (none, h) = h
  load_candidate id (some (wait_loads link pending, slot), h) =
      note_loaded link slot (loaded pending id) h
  load_candidate id (some (incoming, slot), h) = put_candidate incoming slot h

  unfoldable pub after_load_result : ℕ → ℕ → Hub → Hub
  after_load_result home_gen id h = load_candidate id (take_candidate h home_gen)
