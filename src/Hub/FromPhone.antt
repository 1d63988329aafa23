-- ===== src/Hub/FromPhone.antt =====
-- What the phones send: `on_phone_text` of crates/topside/src/hub.rs and the handlers below it.
use text.Mathlib.Text.{starts_with}
use aqualung.Common.{
  ℕ, String, true, none, some, ◌==◌, nat_eq, if_cases, string_eq, if◌then◌else◌, ok, err, ◌>>=◌,
  is_some, ◌||◌, ◌&&◌, not,
}
use aqualung.Common.HashMap.{get, insert, remove, contains_key}
use aqualung.Json.{Json}
use aqualung.Common.Tests.{pos}
use aqualung.Wire.{LeaderClient}
use aqualung.Wire.Rpc.{
  parse_rpc_text, parse_error, invalid_request, method_not_found, initialize_result, host_away_note,
  rpc_error, session_id_in,
}
use aqualung.Hub.Link.{to_leader, to_phone, phone_bound, is_away}
use aqualung.Hub.State.{
  Hub, Phone, connected, forwarded, Claim, take_claim, reverse_key_eq, emit, phone_out, mux_out,
  phone_ready, send_phone, away_error, alloc_req,
}
use aqualung.Hub.Loads.{next_id}
use aqualung.Hub.Watching.{watch, unwatch}

module _ ⦃J : Json⦄ where
  open J use {Value, null, field, set_field, as_str, to_string, number}

  -- `out` and `bind` are the channels of the message.
  unfoldable pub on_phone_hello : ℕ → ℕ → Hub → Hub
  on_phone_hello out bind h =
      let id = next_id h.next_phone in
      emit (phone_bound bind id)
        (record h { next_phone = id; phones = insert id (connected out) h.phones })

  -- A phone's channel is kept, whatever the phone was.
  unfoldable pub answer_initialize : ℕ → Value → Hub → Hub
  answer_initialize phone id h = elim (get phone h.phones) [
    | none ↦ h
    | some slot ↦
        let out = phone_out slot in
        let phones = insert phone (Phone.ready out) (remove phone h.phones) in
        let answered = emit (to_phone out (initialize_result id)) (record h { phones = phones }) in
        if is_away h.home then emit (to_phone out (host_away_note true)) answered else answered
  ]

  unfoldable pub forward_request : ℕ → Value → Value → Hub → Hub
  forward_request phone origin obj h = elim (mux_out h) [
    | none ↦ send_phone phone (away_error h origin) h
    | some out ↦
        let (home_id, h') = alloc_req h in
        emit
          (to_leader out (LeaderClient.acp (to_string (set_field obj "id" (number (pos home_id))))))
          (record h' { outstanding = insert home_id (forwarded phone origin) h'.outstanding })
  ]

  unfoldable pub forward_notification : Value → Hub → Hub
  forward_notification obj h = elim (mux_out h) [
    | none ↦ h
    | some out ↦ emit (to_leader out (LeaderClient.acp (to_string obj))) h
  ]

  -- `on_phone_reply` with the claim that the reply answers.
  unfoldable pub answer_claim : ℕ → Value → Claim → Hub → Hub
  answer_claim claim_key obj claim h =
      let (claim', home_id) = take_claim claim in
      let claimed = record h { claims = insert claim_key claim' h.claims } in
      elim home_id [
        | none ↦ claimed
        | some id ↦ forward_notification (set_field obj "id" id) claimed
      ]

  unfoldable pub on_phone_reply : ℕ → Value → Value → Hub → Hub
  on_phone_reply phone origin obj h = elim (get (phone, origin) h.reverse) [
    | none ↦ h
    | some claim_key ↦
        let replied = record h { reverse = remove (phone, origin) h.reverse } in
        elim (get claim_key replied.claims) [
          | none ↦ replied
          | some claim ↦ answer_claim claim_key obj claim replied
        ]
  ]

  unfoldable pub watch_named : ℕ → Value → Hub → Hub
  watch_named phone obj h = elim (session_id_in obj) [
    | none ↦ h
    | some session ↦ (watch phone session h).1
  ]

  unfoldable pub unwatch_named : ℕ → Value → Hub → Hub
  unwatch_named phone obj h = elim (session_id_in obj) [
    | none ↦ h
    | some session ↦ unwatch phone session h
  ]

  unfoldable pub refuse : ℕ → Value → Hub → Hub
  refuse phone id h = send_phone phone (rpc_error id invalid_request "phone has not initialized") h

  unfoldable pub on_phone_request : ℕ → String → Value → Value → Hub → Hub
  on_phone_request phone method id obj h =
      if method == "initialize"
      then answer_initialize phone id h
      else if method == "authenticate"
      then send_phone phone (rpc_error id method_not_found "Method not found") h
      else if method == "session/load" || method == "session/resume"
      then (if phone_ready h phone
          then forward_request phone id obj (watch_named phone obj h)
          else refuse phone id h)
      else if method == "session/close"
      then forward_request phone id obj (unwatch_named phone obj h)
      else if starts_with method "session/" && not (phone_ready h phone)
      then refuse phone id h
      else forward_request phone id obj h

  -- Every request ends in one of these ways.
  pub on_phone_request_cases {ℓ} :
      (P : Hub → Type ℓ) (phone : ℕ) (method : String) (id obj : Value) (h : Hub)
      → P (answer_initialize phone id h)
      → P (send_phone phone (rpc_error id method_not_found "Method not found") h)
      → P (forward_request phone id obj (watch_named phone obj h))
      → P (forward_request phone id obj (unwatch_named phone obj h))
      → P (refuse phone id h)
      → P (forward_request phone id obj h)
      → P (on_phone_request phone method id obj h)
  unfolding on_phone_request
  on_phone_request_cases P phone method id obj h answered unknown watched unwatched refused sent =
      if_cases P (method == "initialize") answered (
        if_cases P (method == "authenticate") unknown (
          if_cases P (method == "session/load" || method == "session/resume")
            (if_cases P (phone_ready h phone) watched refused)
            (if_cases P (method == "session/close") unwatched (
              if_cases P (starts_with method "session/" && not (phone_ready h phone)) refused
                sent))))

  unfoldable pub on_rpc : ℕ → Value → Hub → Hub
  on_rpc phone obj h = elim (do value ← field obj "method"; as_str value) [
    | some method ↦ elim (field obj "id") [
      | some id ↦ on_phone_request phone method id obj h
      | none ↦ forward_notification obj h
    ]
    | none ↦
        if is_some (field obj "result") || is_some (field obj "error")
        then elim (field obj "id") [ some id ↦ on_phone_reply phone id obj h | none ↦ h ]
        else h
  ]

  unfoldable pub on_phone_text : ℕ → String → Hub → Hub
  on_phone_text phone text h =
      if contains_key phone h.phones
      then elim (parse_rpc_text text) [
        | ok obj ↦ on_rpc phone obj h
        | err _ ↦ send_phone phone (rpc_error null parse_error "Parse error") h
      ]
      else h
