-- ===== src/Hub/Serving.antt =====
-- Which home connection is served and which is coming up: a step relation, for
-- crates/topside/src/hub.rs.
pub mod Follows
pub mod Moves
pub mod Generations
pub mod Candidates
pub mod Loading
use aqualung.Common.{
  ℕ, ◌≡◌, refl, ◌⊎◌, inl, inr, Bool, true, false, Option, none, some, ◌==◌, nat_eq, if◌then◌else◌,
  arith, Bool-cases, nat_beq_iff, ap, is_some, List, [], ◌∷◌, String, string_eq,
}
use aqualung.Json.{Json}
use aqualung.Common.HashMap.{get, remove}
use aqualung.Common.HashSet.{set_remove, btree_collect}
use aqualung.Hub.Loads.{PendingLoads, LoadProgress, more, done, ignore}
use aqualung.Hub.Link.{
  Link, Live, Incoming, wait_registered, wait_ready, wait_initialize, wait_loads, ready, link_of,
  Home, away, bringing_up, sole, dual,
}
use aqualung.Hub.State.{Hub, broadcast_away, alloc_req}
use aqualung.Hub.Slots.{
  CandidateSlot, take_candidate_in, take_candidate, put_candidate, fail_in, fail_incoming,
  finish_successor,
}
use aqualung.Hub.FromHome.{
  register_candidate, ready_candidate, load_sessions, initialize_candidate, note_loaded,
  load_candidate, send_follower_initialize, send_loads,
}
use aqualung.Hub.Quiet.{Quiet, send_follower_initialize-Quiet, send_loads-Quiet}

-- How far a connection that comes up has got.
pub data Stage : Type 0 where
  registering readying initializing armed : Stage
  loading : PendingLoads → Stage

abbrev pub stage_of : Incoming → Stage
stage_of (wait_registered _ _) = registering
stage_of (wait_ready _ _) = readying
stage_of (wait_initialize _) = initializing
stage_of (wait_loads _ pending) = loading pending
stage_of (ready _) = armed

pub record View : Type 0 where
  pub served : Option Link
  pub coming : Option (Link × Stage)

abbrev pub view : Home → View
view away = record { served = none; coming = none }
view (bringing_up incoming) = record {
  served = none;
  coming = some (link_of incoming, stage_of incoming);
}
view (sole live) = record { served = some live.link; coming = none }
view (dual rep) = record {
  served = some rep.incumbent.link;
  coming = some (link_of rep.incoming, stage_of rep.incoming);
}

-- The handshake goes on in this order. The loads are at first of all sessions that are watched, and
-- an answer to an open request leaves the other requests and their sessions; `answer` is the id of
-- the request that the message answers.
pub data Advance (watched : List String) (answer : Option ℕ) : Stage → Stage → Type 0 where
  registered_up : Advance watched answer registering initializing
  registered_waiting : Advance watched answer registering readying
  became_ready : Advance watched answer readying initializing
  initialized :
      {pending : PendingLoads} (id : ℕ)
      → answer ≡ some id
      → pending.remaining ≡ btree_collect watched
      → Advance watched answer initializing (loading pending)
  answered :
      {pending rest : PendingLoads} (id : ℕ) (session : String)
      → answer ≡ some id
      → get id pending.load_ids ≡ some session
      → rest.remaining ≡ set_remove session pending.remaining
      → rest.load_ids ≡ remove id pending.load_ids
      → Advance watched answer (loading pending) (loading rest)

-- The stages from which a connection may be served: its `initialize` was answered and no session is
-- watched, or an open request is answered and its session was all that was left.
pub data CanServe (watched : List String) (answer : Option ℕ) : Stage → Type 0 where
  nothing_to_load :
      (id : ℕ) → answer ≡ some id → watched ≡ [] → CanServe watched answer initializing
  all_loaded :
      {pending : PendingLoads} (id : ℕ) (session : String)
      → answer ≡ some id
      → get id pending.load_ids ≡ some session
      → set_remove session pending.remaining ≡ []
      → CanServe watched answer (loading pending)

-- What the connection `gen`, while it is coming up, may do to the view, where `watched` are the
-- sessions with a watcher.
pub data CandidateMove (watched : List String) (answer : Option ℕ) (gen : ℕ) (v w : View)
    : Type 0 where
  kept : w.served ≡ v.served → w.coming ≡ v.coming → CandidateMove watched answer gen v w
  advanced :
      (link : Link) (s t : Stage)
      → Advance watched answer s t
      → link.home_gen ≡ gen
      → v.coming ≡ some (link, s)
      → w.served ≡ v.served
      → w.coming ≡ some (link, t)
      → CandidateMove watched answer gen v w
  promoted :
      (link : Link) (s : Stage)
      → CanServe watched answer s
      → link.home_gen ≡ gen
      → v.coming ≡ some (link, s)
      → w.served ≡ some link
      → w.coming ≡ none
      → CandidateMove watched answer gen v w
  failed :
      (link : Link) (s : Stage)
      → link.home_gen ≡ gen
      → v.coming ≡ some (link, s)
      → w.served ≡ v.served
      → w.coming ≡ none
      → CandidateMove watched answer gen v w

abbrev pub slot_link : CandidateSlot → Option Link
slot_link slot = elim slot.incumbent [ none ↦ none | some live ↦ some live.link ]
