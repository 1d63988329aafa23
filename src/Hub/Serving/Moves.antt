-- ===== src/Hub/Serving/Moves.antt =====
-- Every message to the hub is a step of the relation on the home connections.
use aqualung.Common.{
  ℕ, String, List, ◌≡◌, refl, ap, inl, inr, Bool, true, false, Option, none, some, ◌==◌, nat_eq,
  string_eq, nat_beq_iff, Bool-cases, if_cases,
}
use aqualung.Json.{Json}
use aqualung.Common.HashMap.{keys}
use aqualung.Wire.{LeaderServer}
use aqualung.Hub.Loads.{next_id}
use aqualung.Hub.Link.{
  Link, wait_registered, Home, away, bringing_up, sole, dual, link_of, mux, candidate, unknown,
}
use aqualung.Hub.State.{Hub, role, broadcast_away}
use aqualung.Hub.Slots.{fail_incoming, place_incoming, on_accepted, lose_mux, on_home_eof}
use aqualung.Hub.FromHome.{is_candidate}
use aqualung.Hub.FromHome.Frames.{frame_arm, on_home_frame}
use aqualung.Hub.Run.{
  ToHub, accepted, home_frame, home_eof, phone_hello, phone_text, phone_eof, shutdown_hub, handle,
  shutdown,
}
use aqualung.Hub.Quiet.{on_phone_hello-Quiet, on_phone_text-Quiet, on_phone_eof-Quiet}
use aqualung.Hub.Serving.{View, view, registering, CandidateMove}
use aqualung.Hub.Serving.Candidates.{fail_incoming-move}
use aqualung.Hub.Serving.Follows.{
  answers_to, on_home_acp-move, on_registered-move, on_leader_ready-move,
}

-- The home connection that a message comes from.
abbrev pub sender : ToHub → Option ℕ
sender (accepted _ _ _) = none
sender (home_frame gen _) = some gen
sender (home_eof gen) = some gen
sender (phone_hello _ _) = none
sender (phone_text _ _) = none
sender (phone_eof _) = none
sender shutdown_hub = none

-- The messages that end the connection they come from: its end, or an error of the leader.
abbrev pub is_end : ToHub → Bool
is_end (home_eof _) = true
is_end (home_frame _ (LeaderServer.error _)) = true
is_end (home_frame _ _) = false
is_end (accepted _ _ _) = false
is_end (phone_hello _ _) = false
is_end (phone_text _ _) = false
is_end (phone_eof _) = false
is_end shutdown_hub = false

-- The connections before and after a message; `gen` is the generation that a new one gets.
pub data Move (watched : List String) (answer : Option ℕ) (gen : ℕ) (m : ToHub) (v w : View)
    : Type 0 where
  unmoved : w.served ≡ v.served → w.coming ≡ v.coming → Move watched answer gen m v w
  arrived :
      (out halt bind : ℕ)
      → m ≡ accepted out halt bind
      → w.served ≡ v.served
      → w.coming ≡ some (record { home_gen = gen; out = out; halt = some halt }, registering)
      → Move watched answer gen m v w
  candidate_moved :
      (from : ℕ)
      → sender m ≡ some from
      → CandidateMove watched answer from v w
      → Move watched answer gen m v w
  lost :
      (link : Link)
      → sender m ≡ some link.home_gen
      → is_end m ≡ true
      → v.served ≡ some link
      → w.served ≡ none
      → w.coming ≡ v.coming
      → Move watched answer gen m v w
  stopped : m ≡ shutdown_hub → w.served ≡ none → w.coming ≡ none → Move watched answer gen m v w

unmoved_same :
    {watched : List String} {answer : Option ℕ} {gen : ℕ} {m : ToHub} {v w : View}
    → w ≡ v
    → Move watched answer gen m v w
unmoved_same e = unmoved (ap (λ u. u.served) e) (ap (λ u. u.coming) e)

module _ ⦃J : Json⦄ where
  -- The id of the request that a message answers, if it is an answer.
  abbrev pub reply_id : ToHub → Option ℕ
  reply_id (home_frame _ (LeaderServer.acp payload)) = answers_to payload
  reply_id (home_frame _ _) = none
  reply_id (accepted _ _ _) = none
  reply_id (home_eof _) = none
  reply_id (phone_hello _ _) = none
  reply_id (phone_text _ _) = none
  reply_id (phone_eof _) = none
  reply_id shutdown_hub = none

  place_incoming-view :
      (home : Home) (link : Link) (deadline : ℕ) (h : Hub)
      → ((view (place_incoming home (wait_registered link deadline) h).home).served
          ≡ (view home).served)
        × ((view (place_incoming home (wait_registered link deadline) h).home).coming
            ≡ some (link, registering))
  unfolding place_incoming link_of
  place_incoming-view away link deadline h = (refl, refl)
  place_incoming-view (bringing_up incoming) link deadline h = (refl, refl)
  place_incoming-view (sole live) link deadline h = (refl, refl)
  place_incoming-view (dual rep) link deadline h = (refl, refl)

  on_accepted-Move :
      (now out halt bind : ℕ) (h : Hub)
      → Move
          (keys h.watchers)
          none
          (next_id h.next_gen)
          (accepted out halt bind)
          (view h.home)
          (view (on_accepted now out halt bind h).home)
  unfolding on_accepted
  on_accepted-Move now out halt bind h =
      let (served, coming) = place_incoming-view h.home _ _ _ in
      arrived out halt bind refl served coming

  -- The end of the connection that is served.
  lose_mux-Move :
      (home : Home) (next gen : ℕ) (m : ToHub) (h : Hub)
      → h.home ≡ home
      → sender m ≡ some gen
      → is_end m ≡ true
      → Move (keys h.watchers) (reply_id m) next m (view home) (view (lose_mux home gen h).home)
  unfolding lose_mux broadcast_away
  lose_mux-Move away next gen m h e s t = unmoved_same (ap view e)
  lose_mux-Move (bringing_up incoming) next gen m h e s t = unmoved_same (ap view e)
  lose_mux-Move (sole live) next gen m h e s t = elim (Bool-cases (live.link.home_gen == gen)) [
    | inl own ↦
        rw own
          (lost live.link (cc (s, (nat_beq_iff live.link.home_gen gen).0 own)) t refl refl refl)
    | inr other ↦ rw other (unmoved_same (ap view e))
  ]
  lose_mux-Move (dual rep) next gen m h e s t =
      elim (Bool-cases (rep.incumbent.link.home_gen == gen)) [
        | inl own ↦ rw own (
            lost rep.incumbent.link (cc (s, (nat_beq_iff rep.incumbent.link.home_gen gen).0 own)) t
              refl refl refl)
        | inr other ↦ rw other (unmoved_same (ap view e))
      ]

  -- The move of a message, from the hub `h` to `w`.
  abbrev Sent : ℕ → ToHub → Hub → Hub → Type 0
  Sent next m h w = Move (keys h.watchers) (reply_id m) next m (view h.home) (view w.home)

  on_home_eof-Move :
      (next gen : ℕ) (m : ToHub) (h : Hub)
      → sender m ≡ some gen
      → is_end m ≡ true
      → Move (keys h.watchers) (reply_id m) next m (view h.home) (view (on_home_eof gen h).home)
  unfolding on_home_eof
  on_home_eof-Move next gen m h s t =
      elim (role h gen)
        as (λ r. Sent next m h (elim r [
          | unknown ↦ h
          | mux ↦ lose_mux h.home gen h
          | candidate ↦ fail_incoming gen h
        ])) [
          | unknown ↦ unmoved_same refl
          | mux ↦ lose_mux-Move h.home next gen m h refl s t
          | candidate ↦ candidate_moved gen s (fail_incoming-move gen h)
        ]

  frame_arm-Move :
      (next now gen : ℕ) (msg : LeaderServer) (h : Hub)
      → Sent next (home_frame gen msg) h (frame_arm now gen msg h)
  unfolding frame_arm
  frame_arm-Move next now gen (LeaderServer.registered is_up version) h =
      if_cases (Sent next (home_frame gen (LeaderServer.registered is_up version)) h)
        (is_candidate (role h gen))
        (candidate_moved gen refl (on_registered-move now gen is_up version h)) (unmoved_same refl)
  frame_arm-Move next now gen LeaderServer.leader_ready h =
      if_cases (Sent next (home_frame gen LeaderServer.leader_ready) h) (is_candidate (role h gen))
        (candidate_moved gen refl (on_leader_ready-move gen h)) (unmoved_same refl)
  frame_arm-Move next now gen (LeaderServer.acp payload) h =
      candidate_moved gen refl (on_home_acp-move gen payload h)
  frame_arm-Move next now gen LeaderServer.pong h = unmoved_same refl
  frame_arm-Move next now gen LeaderServer.unknown h = unmoved_same refl
  frame_arm-Move next now gen (LeaderServer.error message) h =
      if_cases (Sent next (home_frame gen (LeaderServer.error message)) h)
        (is_candidate (role h gen)) (candidate_moved gen refl (fail_incoming-move gen h))
        (on_home_eof-Move next gen (home_frame gen (LeaderServer.error message)) h refl refl)

  on_home_frame-Move :
      (next now gen : ℕ) (msg : LeaderServer) (h : Hub)
      → Sent next (home_frame gen msg) h (on_home_frame now gen msg h)
  unfolding on_home_frame
  on_home_frame-Move next now gen msg h =
      elim (role h gen)
        as (λ r. Sent next (home_frame gen msg) h (elim r [
          | unknown ↦ h
          | mux ↦ frame_arm now gen msg h
          | candidate ↦ frame_arm now gen msg h
        ])) [
          | unknown ↦ unmoved_same refl
          | mux ↦ frame_arm-Move next now gen msg h
          | candidate ↦ frame_arm-Move next now gen msg h
        ]

  pub handle-Move :
      (now : ℕ) (m : ToHub) (h : Hub)
      → Move
          (keys h.watchers)
          (reply_id m)
          (next_id h.next_gen)
          m
          (view h.home)
          (view (handle now m h).home)
  unfolding handle shutdown
  handle-Move now (accepted out halt bind) h = on_accepted-Move now out halt bind h
  handle-Move now (home_frame gen msg) h = on_home_frame-Move _ now gen msg h
  handle-Move now (home_eof gen) h = on_home_eof-Move _ gen (home_eof gen) h refl refl
  handle-Move now (phone_hello out bind) h =
      unmoved_same (ap view (on_phone_hello-Quiet 0 out bind h).home)
  handle-Move now (phone_text phone text) h =
      unmoved_same (ap view (on_phone_text-Quiet 0 phone text h).home)
  handle-Move now (phone_eof phone) h = unmoved_same (ap view (on_phone_eof-Quiet 0 phone h).home)
  handle-Move now shutdown_hub h = stopped refl refl refl
