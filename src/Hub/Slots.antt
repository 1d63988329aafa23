-- ===== src/Hub/Slots.antt =====
-- The home connections of `Hub`: a new connection, the end of one, its deadline, and the slot of
-- the connection that is still coming up.
use aqualung.Common.{
  ℕ, ◌+◌, true, false, Option, none, some, ◌==◌, nat_eq, ok, err, if◌then◌else◌, is_some,
}
use aqualung.Json.{Json}
use aqualung.Hub.Loads.{next_id}
use aqualung.Hub.Link.{
  home_bound, Link, drop_link, Live, Incoming, wait_registered, link_of, deadline_of, abort, arm,
  cutover, Home, away, bringing_up, sole, dual, ready, mux, candidate, unknown,
}
use aqualung.Hub.State.{Hub, register_wait, emit, dropping, role, broadcast_away}

-- `CandidateSlot`
pub record CandidateSlot : Type 0 where
  pub incumbent : Option Live

-- What `take_candidate` finds, and the `home` that it leaves.
unfoldable pub take_candidate_in : Home → ℕ → Option (Incoming × CandidateSlot) × Home
unfolding link_of
take_candidate_in away home_gen = (none, away)
take_candidate_in (bringing_up incoming) home_gen =
    if (link_of incoming).home_gen == home_gen
    then (some (incoming, record { incumbent = none }), away)
    else (none, bringing_up incoming)
take_candidate_in (sole live) home_gen = (none, sole live)
take_candidate_in (dual rep) home_gen =
    if (link_of rep.incoming).home_gen == home_gen
    then (some (rep.incoming, record { incumbent = some rep.incumbent }), away)
    else (none, dual rep)

module _ ⦃J : Json⦄ where
  unfoldable pub take_candidate : Hub → ℕ → Option (Incoming × CandidateSlot) × Hub
  take_candidate h home_gen =
      let (taken, home) = take_candidate_in h.home home_gen in (taken, record h { home = home })

  unfoldable pub put_candidate : Incoming → CandidateSlot → Hub → Hub
  put_candidate incoming slot h = elim slot.incumbent [
    | none ↦ record h { home = bringing_up incoming }
    | some incumbent ↦ record h {
      home = dual (record { incumbent = incumbent; incoming = incoming });
    }
  ]

  -- The clauses of `on_accepted`, on the `home` that was there.
  unfoldable pub place_incoming : Home → Incoming → Hub → Hub
  unfolding abort drop_link link_of
  place_incoming away incoming h = record h { home = bringing_up incoming }
  place_incoming (sole incumbent) incoming h = record h {
    home = dual (record { incumbent = incumbent; incoming = incoming });
  }
  place_incoming (dual rep) incoming h =
      let (incumbent, sent) = abort rep h.sent in
      record h { home = dual (record { incumbent = incumbent; incoming = incoming }); sent = sent }
  place_incoming (bringing_up old) incoming h = record (dropping (link_of old) h) {
    home = bringing_up incoming;
  }

  -- `out`, `halt` and `bind` are the channels of the message.
  unfoldable pub on_accepted : ℕ → ℕ → ℕ → ℕ → Hub → Hub
  unfolding next_id place_incoming
  on_accepted now out halt bind h =
      let home_gen = next_id h.next_gen in
      let link : Link = record { home_gen = home_gen; out = out; halt = some halt } in
      place_incoming h.home (wait_registered link (now + register_wait))
        (emit (home_bound bind home_gen) (record h { next_gen = home_gen }))

  unfoldable pub fail_in : Home → ℕ → Hub → Hub
  unfolding abort drop_link link_of
  fail_in away home_gen h = h
  fail_in (bringing_up incoming) home_gen h =
      if (link_of incoming).home_gen == home_gen
      then record (dropping (link_of incoming) h) { home = away }
      else h
  fail_in (sole live) home_gen h = h
  fail_in (dual rep) home_gen h =
      if (link_of rep.incoming).home_gen == home_gen
      then (let (incumbent, sent) = abort rep h.sent in
          record h { home = sole incumbent; sent = sent })
      else h

  unfoldable pub fail_incoming : ℕ → Hub → Hub
  unfolding fail_in
  fail_incoming home_gen h = fail_in h.home home_gen h

  unfoldable pub expire_in : Home → Hub → Hub
  unfolding abort drop_link link_of deadline_of
  expire_in away h = h
  expire_in (bringing_up incoming) h =
      if is_some (deadline_of incoming)
      then record (dropping (link_of incoming) h) { home = away }
      else h
  expire_in (sole live) h = h
  expire_in (dual rep) h =
      if is_some (deadline_of rep.incoming)
      then (let (incumbent, sent) = abort rep h.sent in
          record h { home = sole incumbent; sent = sent })
      else h

  unfoldable pub on_deadline : Hub → Hub
  unfolding expire_in
  on_deadline h = expire_in h.home h

  -- The branch of `on_home_eof` for the connection that is served.
  unfoldable pub lose_mux : Home → ℕ → Hub → Hub
  unfolding drop_link
  lose_mux away home_gen h = h
  lose_mux (bringing_up incoming) home_gen h = h
  lose_mux (sole live) home_gen h =
      if live.link.home_gen == home_gen
      then broadcast_away true (record (dropping live.link h) { home = away })
      else h
  lose_mux (dual rep) home_gen h =
      if rep.incumbent.link.home_gen == home_gen
      then broadcast_away true
          (record (dropping rep.incumbent.link h) { home = bringing_up rep.incoming })
      else h

  unfoldable pub on_home_eof : ℕ → Hub → Hub
  unfolding role lose_mux
  on_home_eof home_gen h = elim (role h home_gen) [
    | unknown ↦ h
    | mux ↦ lose_mux h.home home_gen h
    | candidate ↦ fail_incoming home_gen h
  ]

  unfoldable pub finish_successor : Live → CandidateSlot → Hub → Hub
  unfolding arm cutover
  finish_successor successor slot h = elim slot.incumbent [
    | none ↦ broadcast_away false (record h { home = sole successor })
    | some incumbent ↦
        elim (arm (record { incumbent = incumbent; incoming = ready successor.link })) [
          | ok armed ↦
              let (live, sent) = cutover armed h.sent in record h { home = sole live; sent = sent }
          | err rep ↦ record h { home = dual rep }
        ]
  ]

  -- `Hub::current_deadline`
  unfoldable pub current_deadline : Hub → Option ℕ
  unfolding deadline_of
  current_deadline h = elim h.home [
    | away ↦ none
    | bringing_up incoming ↦ deadline_of incoming
    | sole _ ↦ none
    | dual rep ↦ deadline_of rep.incoming
  ]
