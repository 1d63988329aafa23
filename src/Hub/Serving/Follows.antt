-- ===== src/Hub/Serving/Follows.antt =====
-- The handlers for the connection that comes up, as moves of that connection.
use aqualung.Common.{
  ℕ, ◌≡◌, Option, refl, ap, List, string_eq, Bool, none, some, ◌==◌, nat_eq, String, is_some, ok,
  err, if_cases, option_cases,
}
use aqualung.Json.{Json}
use aqualung.Wire.Rpc.{parse_rpc_text}
use aqualung.Hub.State.{Hub, Wait, forwarded, hub_initialize, hub_load, role}
use aqualung.Hub.Slots.{take_candidate}
use aqualung.Hub.FromHome.{
  after_follower_initialize, after_load_result, on_registered, on_leader_ready, is_mux,
  is_candidate,
}
use aqualung.Hub.FromHome.Frames.{settle, on_home_result, dispatch_home, on_home_acp}
use aqualung.Hub.Quiet.{
  Quiet, Quiet-trans, watch_reply-Quiet, send_phone-Quiet, on_home_notification-Quiet,
  on_reverse_request-Quiet,
}
use aqualung.Hub.Serving.{view, CandidateMove}
use aqualung.Hub.Serving.Candidates.{
  kept_same, register_candidate-move, ready_candidate-move, initialize_candidate-move,
  load_candidate-move, fail_incoming-move, take_candidate-WasTaken,
}
use aqualung.Common.HashMap.{get, remove, keys}
use aqualung.Wire.{leader_protocol_version}
use aqualung.Common.{◌>>=◌}

module _ ⦃J : Json⦄ where
  after_follower_initialize-move :
      {answer : Option ℕ} (gen id : ℕ) (h : Hub)
      → answer ≡ some id
      → CandidateMove
          (keys h.watchers)
          answer
          gen
          (view h.home)
          (view (after_follower_initialize gen h).home)
  unfolding after_follower_initialize take_candidate
  after_follower_initialize-move gen id h for_id =
      initialize_candidate-move gen id (view h.home) (take_candidate h gen)
        (take_candidate-WasTaken gen h) refl for_id

  after_load_result-move :
      {answer : Option ℕ} (gen id : ℕ) (h : Hub)
      → answer ≡ some id
      → CandidateMove
          (keys h.watchers)
          answer
          gen
          (view h.home)
          (view (after_load_result gen id h).home)
  unfolding after_load_result
  after_load_result-move gen id h for_id =
      load_candidate-move gen id (view h.home) (take_candidate h gen)
        (take_candidate-WasTaken gen h) for_id

  Quiet-move :
      {watched : List String} {answer : Option ℕ} {gen c : ℕ} {h h' : Hub}
      → Quiet c h h'
      → CandidateMove watched answer gen (view h.home) (view h'.home)
  Quiet-move q = kept_same (ap view q.home)

  -- The view after a handler for the connection `gen`, against the view of `h`.
  abbrev pub Follows : Option ℕ → ℕ → Hub → Hub → Type 0
  Follows answer gen h w = CandidateMove (keys h.watchers) answer gen (view h.home) (view w.home)

  settle-move :
      (gen id : ℕ) (obj : J.Value) (wait : Wait) (h : Hub)
      → Follows (some id) gen h (settle gen id obj wait h)
  unfolding settle
  settle-move gen id obj (forwarded phone origin) h =
      if_cases (Follows (some id) gen h) (is_mux (role h gen))
        (Quiet-move (Quiet-trans (watch_reply-Quiet 0 phone obj h) (send_phone-Quiet 0 phone _ _)))
        (kept_same refl)
  settle-move gen id obj hub_initialize h =
      if_cases (Follows (some id) gen h) (is_candidate (role h gen))
        (if_cases (Follows (some id) gen h) (is_some (J.field obj "error"))
          (fail_incoming-move gen h) (after_follower_initialize-move gen id h refl))
        (kept_same refl)
  settle-move gen id obj hub_load h =
      if_cases (Follows (some id) gen h) (is_candidate (role h gen))
        (after_load_result-move gen id h refl) (kept_same refl)

  -- The id in an answer, and in a text of the leader.
  abbrev pub id_in : J.Value → Option ℕ
  id_in obj = do value ← J.field obj "id"; J.as_u64 value

  abbrev pub answers_to : String → Option ℕ
  answers_to payload = elim (parse_rpc_text payload) [ err _ ↦ none | ok obj ↦ id_in obj ]

  on_home_result-move :
      (gen : ℕ) (obj : J.Value) (h : Hub) → Follows (id_in obj) gen h (on_home_result gen obj h)
  unfolding on_home_result
  on_home_result-move gen obj h =
      elim (id_in obj)
        as (λ o. Follows o gen h (elim o [
          | none ↦ h
          | some id ↦ elim (get id h.outstanding) [
            | none ↦ h
            | some wait ↦
                settle gen id obj wait (record h { outstanding = remove id h.outstanding })
          ]
        ])) [
          | none ↦ kept_same refl
          | some id ↦
              option_cases (Follows (some id) gen h) (get id h.outstanding) (kept_same refl)
                λ wait. settle-move gen id obj wait _
        ]

  dispatch_home-move :
      (gen : ℕ) (obj : J.Value) (h : Hub) → Follows (id_in obj) gen h (dispatch_home gen obj h)
  unfolding dispatch_home
  dispatch_home-move gen obj h =
      if_cases (Follows (id_in obj) gen h)
        (is_some (do value ← J.field obj "method"; J.as_str value))
        (if_cases (Follows (id_in obj) gen h) (is_mux (role h gen))
          (if_cases (Follows (id_in obj) gen h) (is_some (J.field obj "id"))
            (Quiet-move (on_reverse_request-Quiet 0 obj h))
            (Quiet-move (on_home_notification-Quiet 0 obj h)))
          (kept_same refl))
        (if_cases (Follows (id_in obj) gen h) (is_some (J.field obj "id"))
          (on_home_result-move gen obj h) (kept_same refl))

  pub on_home_acp-move :
      (gen : ℕ) (payload : String) (h : Hub)
      → Follows (answers_to payload) gen h (on_home_acp gen payload h)
  unfolding on_home_acp
  on_home_acp-move gen payload h =
      elim (parse_rpc_text payload)
        as (λ r.
          Follows (elim r [ err _ ↦ none | ok obj ↦ id_in obj ]) gen h
            (elim r [ err _ ↦ h | ok obj ↦ dispatch_home gen obj h ])) [
              | err _ ↦ kept_same refl
              | ok obj ↦ dispatch_home-move gen obj h
            ]

  pub on_registered-move :
      {answer : Option ℕ} (now gen : ℕ) (is_up : Bool) (version : ℕ) (h : Hub)
      → Follows answer gen h (on_registered now gen is_up version h)
  unfolding on_registered
  on_registered-move {answer} now gen is_up version h =
      if_cases (Follows answer gen h) (version == leader_protocol_version)
        (register_candidate-move gen now is_up (view h.home)
          (take_candidate (record h { refused_version = none }) gen)
          (take_candidate-WasTaken gen (record h { refused_version = none })))
        (fail_incoming-move gen (record h { refused_version = some version }))

  pub on_leader_ready-move :
      {answer : Option ℕ} (gen : ℕ) (h : Hub) → Follows answer gen h (on_leader_ready gen h)
  unfolding on_leader_ready
  on_leader_ready-move gen h =
      ready_candidate-move gen (view h.home) (take_candidate h gen) (take_candidate-WasTaken gen h)
