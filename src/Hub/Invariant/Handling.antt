-- ===== src/Hub/Invariant/Handling.antt =====
-- The invariant under what the home and the phones send.
use aqualung.Common.{
  ℕ, none, some, nat_eq, string_eq, String, if◌then◌else◌, arith, is_some, option_cases, if_cases,
  ok, err, ◌>>=◌, ◌||◌,
}
use aqualung.Common.HashMap.{get, contains_key}
use aqualung.Json.{Json}
use aqualung.Wire.{LeaderServer}
use aqualung.Wire.Rpc.{parse_rpc_text, rpc_error, parse_error}
use aqualung.Hub.Link.{mux, candidate, unknown}
use aqualung.Hub.State.{Hub, Wait, forwarded, hub_initialize, hub_load, role, send_phone}
use aqualung.Hub.FromHome.{is_mux, is_candidate}
use aqualung.Hub.FromHome.Frames.{
  settle, on_home_result, dispatch_home, on_home_acp, frame_arm, on_home_frame,
}
use aqualung.Hub.FromPhone.{
  on_phone_request, on_phone_request_cases, on_rpc, on_phone_text, forward_notification,
  on_phone_reply,
}
use aqualung.Hub.Untouched.{
  fail_incoming-Untouched, on_home_eof-Untouched, on_home_notification-Untouched,
}
use aqualung.Hub.Untouched.Candidates.{
  on_registered-Untouched, on_leader_ready-Untouched, after_follower_initialize-Untouched,
  after_load_result-Untouched, forward_request-Untouched, forward_notification-Untouched,
  refuse-Untouched,
}
use aqualung.Hub.Invariant.Keeping.{
  Keeps, Keeps-refl, Keeps-trans, Keeps-Untouched, watch_reply-Keeps, watch_named-Keeps,
  unwatch_named-Keeps, send_phone-Keeps,
}
use aqualung.Hub.Invariant.Keeping.Asking.{
  on_reverse_request-Keeps, answer_initialize-Keeps, on_phone_reply-Keeps,
}

module _ ⦃J : Json⦄ where
  settle-Keeps :
      (gen id : ℕ) (obj : J.Value) (wait : Wait) (h : Hub) → Keeps h (settle gen id obj wait h)
  unfolding settle
  settle-Keeps gen id obj (forwarded phone origin) h =
      if_cases (Keeps h) (is_mux (role h gen))
        (Keeps-trans (watch_reply-Keeps phone obj h) (send_phone-Keeps phone _ _)) (Keeps-refl h)
  settle-Keeps gen id obj hub_initialize h =
      if_cases (Keeps h) (is_candidate (role h gen))
        (if_cases (Keeps h) (is_some (J.field obj "error"))
          (Keeps-Untouched (fail_incoming-Untouched gen h))
          (Keeps-Untouched (after_follower_initialize-Untouched gen h)))
        (Keeps-refl h)
  settle-Keeps gen id obj hub_load h =
      if_cases (Keeps h) (is_candidate (role h gen))
        (Keeps-Untouched (after_load_result-Untouched gen id h)) (Keeps-refl h)

  on_home_result-Keeps : (gen : ℕ) (obj : J.Value) (h : Hub) → Keeps h (on_home_result gen obj h)
  unfolding on_home_result
  on_home_result-Keeps gen obj h =
      option_cases (Keeps h) (do value ← J.field obj "id"; J.as_u64 value) (Keeps-refl h)
        λ id.
          option_cases (Keeps h) (get id h.outstanding) (Keeps-refl h)
            λ wait. Keeps-trans (Keeps-Untouched (ground arith)) (settle-Keeps gen id obj wait _)

  on_home_acp-Keeps : (gen : ℕ) (payload : String) (h : Hub) → Keeps h (on_home_acp gen payload h)
  unfolding on_home_acp dispatch_home
  on_home_acp-Keeps gen payload h =
      elim (parse_rpc_text payload)
        as (λ r. Keeps h (elim r [ err _ ↦ h | ok obj ↦ dispatch_home gen obj h ])) [
          | err _ ↦ Keeps-refl h
          | ok obj ↦
              if_cases (Keeps h) (is_some (do value ← J.field obj "method"; J.as_str value))
                (if_cases (Keeps h) (is_mux (role h gen))
                  (if_cases (Keeps h) (is_some (J.field obj "id")) (on_reverse_request-Keeps obj h)
                    (Keeps-Untouched (on_home_notification-Untouched obj h)))
                  (Keeps-refl h))
                (if_cases (Keeps h) (is_some (J.field obj "id")) (on_home_result-Keeps gen obj h)
                  (Keeps-refl h))
        ]

  frame_arm-Keeps : (now gen : ℕ) (msg : LeaderServer) (h : Hub) → Keeps h (frame_arm now gen msg h)
  unfolding frame_arm
  frame_arm-Keeps now gen (LeaderServer.registered is_up version) h =
      if_cases (Keeps h) (is_candidate (role h gen))
        (Keeps-Untouched (on_registered-Untouched now gen is_up version h)) (Keeps-refl h)
  frame_arm-Keeps now gen LeaderServer.leader_ready h =
      if_cases (Keeps h) (is_candidate (role h gen))
        (Keeps-Untouched (on_leader_ready-Untouched gen h)) (Keeps-refl h)
  frame_arm-Keeps now gen (LeaderServer.acp payload) h = on_home_acp-Keeps gen payload h
  frame_arm-Keeps now gen LeaderServer.pong h = Keeps-refl h
  frame_arm-Keeps now gen LeaderServer.unknown h = Keeps-refl h
  frame_arm-Keeps now gen (LeaderServer.error message) h =
      if_cases (Keeps h) (is_candidate (role h gen))
        (Keeps-Untouched (fail_incoming-Untouched gen h))
        (Keeps-Untouched (on_home_eof-Untouched gen h))

  pub on_home_frame-Keeps :
      (now gen : ℕ) (msg : LeaderServer) (h : Hub) → Keeps h (on_home_frame now gen msg h)
  unfolding on_home_frame
  on_home_frame-Keeps now gen msg h =
      elim (role h gen)
        as (λ r. Keeps h (elim r [
          | unknown ↦ h
          | mux ↦ frame_arm now gen msg h
          | candidate ↦ frame_arm now gen msg h
        ])) [
          | unknown ↦ Keeps-refl h
          | mux ↦ frame_arm-Keeps now gen msg h
          | candidate ↦ frame_arm-Keeps now gen msg h
        ]

  on_phone_request-Keeps :
      (phone : ℕ) (method : String) (id obj : J.Value) (h : Hub)
      → Keeps h (on_phone_request phone method id obj h)
  on_phone_request-Keeps phone method id obj h =
      on_phone_request_cases (Keeps h) phone method id obj h (answer_initialize-Keeps phone id h)
        (send_phone-Keeps phone _ h)
        (Keeps-trans (watch_named-Keeps phone obj h)
          (Keeps-Untouched (forward_request-Untouched phone id obj _)))
        (Keeps-trans (unwatch_named-Keeps phone obj h)
          (Keeps-Untouched (forward_request-Untouched phone id obj _)))
        (Keeps-Untouched (refuse-Untouched phone id h))
        (Keeps-Untouched (forward_request-Untouched phone id obj h))

  on_rpc-Keeps : (phone : ℕ) (obj : J.Value) (h : Hub) → Keeps h (on_rpc phone obj h)
  unfolding on_rpc
  on_rpc-Keeps phone obj h =
      elim (do value ← J.field obj "method"; J.as_str value)
        as (λ m. Keeps h (elim m [
          | some method ↦ elim (J.field obj "id") [
            | some id ↦ on_phone_request phone method id obj h
            | none ↦ forward_notification obj h
          ]
          | none ↦
              if is_some (J.field obj "result") || is_some (J.field obj "error")
              then elim (J.field obj "id") [ some id ↦ on_phone_reply phone id obj h | none ↦ h ]
              else h
        ])) [
          | some method ↦
              elim (J.field obj "id")
                as (λ i. Keeps h (elim i [
                  | some id ↦ on_phone_request phone method id obj h
                  | none ↦ forward_notification obj h
                ])) [
                  | some id ↦ on_phone_request-Keeps phone method id obj h
                  | none ↦ Keeps-Untouched (forward_notification-Untouched obj h)
                ]
          | none ↦
              if_cases (Keeps h) (is_some (J.field obj "result") || is_some (J.field obj "error"))
                (elim (J.field obj "id")
                  as (λ i.
                    Keeps h (elim i [ some id ↦ on_phone_reply phone id obj h | none ↦ h ])) [
                      | some id ↦ on_phone_reply-Keeps phone id obj h
                      | none ↦ Keeps-refl h
                    ])
                (Keeps-refl h)
        ]

  pub on_phone_text-Keeps :
      (phone : ℕ) (text : String) (h : Hub) → Keeps h (on_phone_text phone text h)
  unfolding on_phone_text
  on_phone_text-Keeps phone text h =
      if_cases (Keeps h) (contains_key phone h.phones)
        (elim (parse_rpc_text text)
          as (λ r. Keeps h (elim r [
            | ok obj ↦ on_rpc phone obj h
            | err _ ↦ send_phone phone (rpc_error J.null parse_error "Parse error") h
          ])) [ ok obj ↦ on_rpc-Keeps phone obj h | err _ ↦ send_phone-Keeps phone _ h ])
        (Keeps-refl h)
