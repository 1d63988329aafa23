-- ===== src/Hub/Serving/Candidates.antt =====
-- The parts of the handlers that move a connection which is coming up.
use aqualung.Common.{
  ℕ, ◌≡◌, refl, inl, inr, Bool, true, false, Option, none, some, ◌==◌, nat_eq, arith, Bool-cases,
  nat_beq_iff, ap, String, List, string_eq,
}
use aqualung.Json.{Json}
use mathlib.Core.Path.{subst}
use aqualung.Common.HashMap.{keys}
use aqualung.Hub.Loads.{PendingLoads, LoadProgress, more, done, ignore, start}
use aqualung.Hub.Link.{
  Link, Live, Incoming, wait_registered, wait_ready, wait_initialize, wait_loads, link_of, Home,
  away, bringing_up, sole, dual,
}
use aqualung.Hub.State.{Hub, broadcast_away}
use aqualung.Hub.Slots.{
  CandidateSlot, take_candidate_in, take_candidate, put_candidate, fail_in, fail_incoming,
  finish_successor,
}
use aqualung.Hub.FromHome.{
  register_candidate, ready_candidate, load_sessions, initialize_candidate, note_loaded,
  load_candidate,
}
use aqualung.Hub.Serving.Loading.{Starts, start_lem, Answers, loaded_lem}
use aqualung.Hub.Serving.{
  stage_of, View, view, Advance, registered_up, registered_waiting, became_ready, initialized,
  answered, CanServe, nothing_to_load, all_loaded, CandidateMove, kept, advanced, promoted, failed,
  slot_link,
}

module _ ⦃J : Json⦄ where
  -- What a candidate that was taken out says of the view before.
  abbrev pub WasTaken : ℕ → View → Option (Incoming × CandidateSlot) × Hub → Type 0
  WasTaken gen v (none, h) = view h.home ≡ v
  WasTaken gen v (some (incoming, slot), h) =
      ((link_of incoming).home_gen ≡ gen)
      × (v.coming ≡ some (link_of incoming, stage_of incoming))
      × (v.served ≡ slot_link slot)

  take_candidate_in-WasTaken :
      (home : Home) (gen : ℕ) (h : Hub)
      → WasTaken gen
          (view home)
          ((take_candidate_in home gen).0, record h { home = (take_candidate_in home gen).1 })
  unfolding take_candidate_in
  take_candidate_in-WasTaken away gen h = refl
  take_candidate_in-WasTaken (bringing_up incoming) gen h =
      elim (Bool-cases ((link_of incoming).home_gen == gen)) [
        | inl e ↦ rw e ((nat_beq_iff _ gen).0 e, refl, refl)
        | inr e ↦ rw e
      ]
  take_candidate_in-WasTaken (sole live) gen h = refl
  take_candidate_in-WasTaken (dual rep) gen h =
      elim (Bool-cases ((link_of rep.incoming).home_gen == gen)) [
        | inl e ↦ rw e ((nat_beq_iff _ gen).0 e, refl, refl)
        | inr e ↦ rw e
      ]

  pub take_candidate-WasTaken :
      (gen : ℕ) (h : Hub) → WasTaken gen (view h.home) (take_candidate h gen)
  unfolding take_candidate
  take_candidate-WasTaken gen h = take_candidate_in-WasTaken h.home gen h

  put_candidate-view :
      (incoming : Incoming) (slot : CandidateSlot) (h : Hub)
      → ((view (put_candidate incoming slot h).home).served ≡ slot_link slot)
        × ((view (put_candidate incoming slot h).home).coming
            ≡ some (link_of incoming, stage_of incoming))
  unfolding put_candidate
  put_candidate-view incoming slot h = ground arith

  finish_successor-view :
      (live : Live) (slot : CandidateSlot) (h : Hub)
      → view (finish_successor live slot h).home ≡ record { served = some live.link; coming = none }
  unfolding finish_successor broadcast_away
  finish_successor-view live slot h = ground arith

module _ ⦃J : Json⦄ {watched : List String} {answer : Option ℕ} where
  -- Putting the candidate back as it was changes nothing.
  put_back :
      (gen : ℕ) (v : View) (incoming : Incoming) (slot : CandidateSlot) (h : Hub)
      → WasTaken gen v (some (incoming, slot), h)
      → CandidateMove watched answer gen v (view (put_candidate incoming slot h).home)
  put_back gen v incoming slot h t =
      kept (cc (t.2, (put_candidate-view incoming slot h).0))
        (cc (t.1, (put_candidate-view incoming slot h).1))

  put_advanced :
      (gen : ℕ) (v : View) (old new : Incoming) (slot : CandidateSlot) (h h' : Hub)
      → WasTaken gen v (some (old, slot), h)
      → Advance watched answer (stage_of old) (stage_of new)
      → link_of new ≡ link_of old
      → CandidateMove watched answer gen v (view (put_candidate new slot h').home)
  put_advanced gen v old new slot h h' t a e =
      let (served, coming) = put_candidate-view new slot h' in
      advanced (link_of old) (stage_of old) (stage_of new) a t.0 t.1 (cc) (rw (← e) coming)

  pub kept_same : {gen : ℕ} {v w : View} → w ≡ v → CandidateMove watched answer gen v w
  kept_same e = kept (ap (λ u. u.served) e) (ap (λ u. u.coming) e)

  pub register_candidate-move :
      (gen now : ℕ) (is_up : Bool) (v : View) (t : Option (Incoming × CandidateSlot) × Hub)
      → WasTaken gen v t
      → CandidateMove watched answer gen v (view (register_candidate now is_up t).home)
  unfolding register_candidate link_of
  register_candidate-move gen now is_up v (none, h) t = kept_same t
  register_candidate-move gen now true v (some (wait_registered link deadline, slot), h) t =
      put_advanced gen v (wait_registered link deadline) (wait_initialize link) slot h _ t
        registered_up refl
  register_candidate-move gen now false v (some (wait_registered link deadline, slot), h) t =
      put_advanced gen v (wait_registered link deadline) (wait_ready link _) slot h _ t
        registered_waiting refl
  register_candidate-move gen now is_up v (some (incoming, slot), h) t =
      put_back gen v incoming slot h t

  pub ready_candidate-move :
      (gen : ℕ) (v : View) (t : Option (Incoming × CandidateSlot) × Hub)
      → WasTaken gen v t
      → CandidateMove watched answer gen v (view (ready_candidate t).home)
  unfolding ready_candidate link_of
  ready_candidate-move gen v (none, h) t = kept_same t
  ready_candidate-move gen v (some (wait_ready link deadline, slot), h) t =
      put_advanced gen v (wait_ready link deadline) (wait_initialize link) slot h _ t became_ready
        refl
  ready_candidate-move gen v (some (incoming, slot), h) t = put_back gen v incoming slot h t

  finish_promoted :
      (gen : ℕ) (v : View) (old : Incoming) (link : Link) (slot : CandidateSlot) (h h' : Hub)
      → WasTaken gen v (some (old, slot), h)
      → CanServe watched answer (stage_of old)
      → link_of old ≡ link
      → CandidateMove watched answer gen v
          (view (finish_successor (record { link = link }) slot h').home)
  finish_promoted gen v old link slot h h' t c e =
      let done = finish_successor-view (record { link = link }) slot h' in
      promoted (link_of old) (stage_of old) c t.0 t.1 (rw (done, e)) (rw done)

  load_sessions-move :
      (gen id : ℕ) (v : View) (link : Link) (slot : CandidateSlot) (loads : Option PendingLoads × ℕ)
      (h h' : Hub)
      → WasTaken gen v (some (wait_initialize link, slot), h)
      → Starts watched loads
      → answer ≡ some id
      → CandidateMove watched answer gen v (view (load_sessions link slot loads h').home)
  unfolding load_sessions link_of
  load_sessions-move gen id v link slot (none, last) h h' t s for_id =
      finish_promoted gen v (wait_initialize link) link slot h _ t (nothing_to_load id for_id s)
        refl
  load_sessions-move gen id v link slot (some pending, last) h h' t s for_id =
      put_advanced gen v (wait_initialize link) (wait_loads link pending) slot h _ t
        (initialized id for_id s) refl

  pub initialize_candidate-move :
      (gen id : ℕ) (v : View) (t : Option (Incoming × CandidateSlot) × Hub)
      → WasTaken gen v t
      → keys t.1.watchers ≡ watched
      → answer ≡ some id
      → CandidateMove watched answer gen v (view (initialize_candidate t).home)
  unfolding initialize_candidate link_of
  initialize_candidate-move gen id v (none, h) t same for_id = kept_same t
  initialize_candidate-move gen id v (some (wait_initialize link, slot), h) t same for_id =
      load_sessions-move gen id v link slot (start (keys h.watchers) h.next_req) h h t
        (subst (λ ss. Starts ss (start (keys h.watchers) h.next_req)) same
          (start_lem (keys h.watchers) h.next_req))
        for_id
  initialize_candidate-move gen id v (some (incoming, slot), h) t same for_id =
      put_back gen v incoming slot h t

  note_loaded-move :
      (gen id : ℕ) (v : View) (link : Link) (old : PendingLoads) (slot : CandidateSlot)
      (progress : LoadProgress) (h : Hub)
      → WasTaken gen v (some (wait_loads link old, slot), h)
      → Answers old id progress
      → answer ≡ some id
      → CandidateMove watched answer gen v (view (note_loaded link slot progress h).home)
  unfolding note_loaded link_of
  note_loaded-move gen id v link old slot (more pending) h t (session, asked, left, ids) for_id =
      put_advanced gen v (wait_loads link old) (wait_loads link pending) slot h h t
        (answered id session for_id asked left ids) refl
  note_loaded-move gen id v link old slot (ignore pending) h t same for_id =
      rw same (put_back gen v (wait_loads link old) slot h t)
  note_loaded-move gen id v link old slot done h t (session, asked, last) for_id =
      finish_promoted gen v (wait_loads link old) link slot h h t
        (all_loaded id session for_id asked last) refl

  pub load_candidate-move :
      (gen id : ℕ) (v : View) (t : Option (Incoming × CandidateSlot) × Hub)
      → WasTaken gen v t
      → answer ≡ some id
      → CandidateMove watched answer gen v (view (load_candidate id t).home)
  unfolding load_candidate link_of
  load_candidate-move gen id v (none, h) t for_id = kept_same t
  load_candidate-move gen id v (some (wait_loads link pending, slot), h) t for_id =
      note_loaded-move gen id v link pending slot _ h t (loaded_lem pending id) for_id
  load_candidate-move gen id v (some (incoming, slot), h) t for_id =
      put_back gen v incoming slot h t

  fail_in-move :
      (home : Home) (gen : ℕ) (h : Hub)
      → h.home ≡ home
      → CandidateMove watched answer gen (view home) (view (fail_in home gen h).home)
  unfolding fail_in
  fail_in-move away gen h e = kept_same (ap view e)
  fail_in-move (bringing_up incoming) gen h e =
      elim (Bool-cases ((link_of incoming).home_gen == gen)) [
        | inl own ↦ rw own (
            failed (link_of incoming) (stage_of incoming) ((nat_beq_iff _ gen).0 own) refl refl
              refl)
        | inr other ↦ rw other (kept_same (ap view e))
      ]
  fail_in-move (sole live) gen h e = kept_same (ap view e)
  fail_in-move (dual rep) gen h e = elim (Bool-cases ((link_of rep.incoming).home_gen == gen)) [
    | inl own ↦ rw own (
        failed (link_of rep.incoming) (stage_of rep.incoming) ((nat_beq_iff _ gen).0 own) refl refl
          refl)
    | inr other ↦ rw other (kept_same (ap view e))
  ]

  pub fail_incoming-move :
      (gen : ℕ) (h : Hub)
      → CandidateMove watched answer gen (view h.home) (view (fail_incoming gen h).home)
  unfolding fail_incoming
  fail_incoming-move gen h = fail_in-move h.home gen h refl
