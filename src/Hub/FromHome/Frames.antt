-- ===== src/Hub/FromHome/Frames.antt =====
-- Results, notifications and requests of the leader, and `on_home_frame` of crates/topside/src/hub.rs.
use aqualung.Common.{
  ℕ, String, none, some, List, [], ◌∷◌, ◌==◌, nat_eq, string_eq, if◌then◌else◌, ok, err, ◌>>=◌,
  is_some,
}
use aqualung.Common.HashMap.{get, insert, remove}
use aqualung.Json.{Json}
use aqualung.Wire.{LeaderServer}
use aqualung.Wire.Rpc.{parse_rpc_text, session_id_in, is_interaction, method_of}
use aqualung.Hub.Link.{mux, candidate, unknown}
use aqualung.Hub.State.{
  Hub, Wait, forwarded, hub_initialize, hub_load, open_claim, reverse_key_eq, role, send_phone,
  alloc_req, alloc_reverse_id,
}
use aqualung.Hub.Slots.{fail_incoming, on_home_eof}
use aqualung.Hub.Watching.{watch, or_default}
use aqualung.Hub.FromHome.{
  is_mux, is_candidate, to_list, on_registered, on_leader_ready, after_follower_initialize,
  after_load_result,
}

module _ ⦃J : Json⦄ where
  open J use {Value, field, set_field, as_str, as_u64, to_string}

  -- The reply is watched first: a result can name the session that it opened.
  unfoldable pub watch_reply : ℕ → Value → Hub → Hub
  watch_reply phone obj h = elim (session_id_in obj) [
    | none ↦ h
    | some session ↦ (watch phone session h).1
  ]

  -- `on_home_result` for a wait that has been taken out of `outstanding`.
  unfoldable pub settle : ℕ → ℕ → Value → Wait → Hub → Hub
  settle home_gen id obj (forwarded phone origin) h =
      if is_mux (role h home_gen)
      then send_phone phone (to_string (set_field obj "id" origin)) (watch_reply phone obj h)
      else h
  settle home_gen id obj hub_initialize h =
      if is_candidate (role h home_gen)
      then (if is_some (field obj "error")
          then fail_incoming home_gen h
          else after_follower_initialize home_gen h)
      else h
  settle home_gen id obj hub_load h =
      if is_candidate (role h home_gen) then after_load_result home_gen id h else h

  unfoldable pub on_home_result : ℕ → Value → Hub → Hub
  on_home_result home_gen obj h = elim (do value ← field obj "id"; as_u64 value) [
    | none ↦ h
    | some id ↦ elim (get id h.outstanding) [
      | none ↦ h
      | some wait ↦ settle home_gen id obj wait (record h { outstanding = remove id h.outstanding })
    ]
  ]

  -- The loop of `on_home_notification`.
  unfoldable pub send_phones : List ℕ → String → Hub → Hub
  send_phones [] text h = h
  send_phones (phone ∷ rest) text h = send_phones rest text (send_phone phone text h)

  unfoldable pub on_home_notification : Value → Hub → Hub
  on_home_notification obj h = elim (do value ← field obj "method"; as_str value) [
    | none ↦ h
    | some method ↦
        if method_of method == "session/update"
        then elim (session_id_in obj) [
          | none ↦ h
          | some session ↦ elim (get session h.watchers) [
            | none ↦ h
            | some watchers ↦ send_phones watchers (to_string obj) h
          ]
        ]
        else h
  ]

  -- The phones that are asked.
  unfoldable pub targets : String → String → Hub → List ℕ
  targets method session h =
      if is_interaction method
      then or_default (get session h.watchers)
      else to_list (get session h.driver)

  -- The loop of `on_reverse_request`: each phone is asked under an id of its own.
  unfoldable pub ask_phones : List ℕ → ℕ → Value → Hub → Hub
  ask_phones [] claim_key obj h = h
  ask_phones (phone ∷ rest) claim_key obj h =
      let (phone_id, h') = alloc_reverse_id h in
      ask_phones rest claim_key obj (
        send_phone phone (to_string (set_field obj "id" phone_id))
          (record h' { reverse = insert (phone, phone_id) claim_key h'.reverse }))

  unfoldable pub ask : List ℕ → Value → Value → Hub → Hub
  ask [] home_id obj h = h
  ask (phone ∷ rest) home_id obj h =
      let (claim_key, h') = alloc_req h in
      ask_phones (phone ∷ rest) claim_key obj
        (record h' { claims = insert claim_key (open_claim home_id) h'.claims })

  unfoldable pub on_reverse_request : Value → Hub → Hub
  on_reverse_request obj h = elim (do value ← field obj "method"; as_str value) [
    | none ↦ h
    | some method ↦ elim (field obj "id") [
      | none ↦ h
      | some home_id ↦ elim (session_id_in obj) [
        | none ↦ h
        | some session ↦ ask (targets method session h) home_id obj h
      ]
    ]
  ]

  -- What `on_home_acp` does with a parsed object.
  unfoldable pub dispatch_home : ℕ → Value → Hub → Hub
  dispatch_home home_gen obj h =
      let has_method = is_some (do value ← field obj "method"; as_str value) in
      let has_id = is_some (field obj "id") in
      if has_method
      then (if is_mux (role h home_gen)
          then (if has_id then on_reverse_request obj h else on_home_notification obj h)
          else h)
      else if has_id
      then on_home_result home_gen obj h
      else h

  unfoldable pub on_home_acp : ℕ → String → Hub → Hub
  on_home_acp home_gen payload h = elim (parse_rpc_text payload) [
    | err _ ↦ h
    | ok obj ↦ dispatch_home home_gen obj h
  ]

  -- The arms of `on_home_frame`, for a connection that is served or coming up.
  unfoldable pub frame_arm : ℕ → ℕ → LeaderServer → Hub → Hub
  frame_arm now home_gen (LeaderServer.registered is_up version) h =
      if is_candidate (role h home_gen) then on_registered now home_gen is_up version h else h
  frame_arm now home_gen LeaderServer.leader_ready h =
      if is_candidate (role h home_gen) then on_leader_ready home_gen h else h
  frame_arm now home_gen (LeaderServer.acp payload) h = on_home_acp home_gen payload h
  frame_arm now home_gen LeaderServer.pong h = h
  frame_arm now home_gen LeaderServer.unknown h = h
  frame_arm now home_gen (LeaderServer.error message) h =
      if is_candidate (role h home_gen) then fail_incoming home_gen h else on_home_eof home_gen h

  unfoldable pub on_home_frame : ℕ → ℕ → LeaderServer → Hub → Hub
  on_home_frame now home_gen msg h = elim (role h home_gen) [
    | unknown ↦ h
    | mux ↦ frame_arm now home_gen msg h
    | candidate ↦ frame_arm now home_gen msg h
  ]
