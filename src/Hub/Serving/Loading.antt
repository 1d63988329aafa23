-- ===== src/Hub/Serving/Loading.antt =====
-- The loads of a connection that comes up: what they start with, and what an answer makes of them.
use aqualung.Common.{
  ℕ, ◌≡◌, refl, ap, sym, true, Option, none, some, String, List, [], ◌∷◌, nat_eq, string_eq, arith,
  ==_refl,
}
use aqualung.Common.HashMap.{get, remove, btree_map_collect}
use aqualung.Common.HashSet.{set_remove, btree_collect, contains, contains-btree_collect}
use aqualung.Hub.Loads.{PendingLoads, LoadProgress, more, done, ignore, start, loaded, assign_ids}

-- What the loads with which a connection starts are of.
abbrev pub Starts : List String → Option PendingLoads × ℕ → Type 0
Starts watched (none, last) = watched ≡ []
Starts watched (some pending, last) = pending.remaining ≡ btree_collect watched

nothing_collected : (watched : List String) → btree_collect watched ≡ [] → watched ≡ []
unfolding contains
nothing_collected [] e = refl
nothing_collected (s ∷ ss) e =
    let here : contains s (s ∷ ss) ≡ true = ground (arith, ==_refl s) in
    cc (here, ap (contains s) e, contains-btree_collect s (s ∷ ss))

collected-Starts :
    (watched sessions : List String) (n : ℕ)
    → btree_collect watched ≡ sessions
    → Starts watched (elim sessions [
      | [] ↦ (none, n)
      | session ∷ rest ↦
          let (ids, last) = assign_ids n (session ∷ rest) in
          (some (record { remaining = session ∷ rest; load_ids = btree_map_collect [] ids }), last)
    ])
unfolding btree_map_collect
collected-Starts watched [] n e = nothing_collected watched e
collected-Starts watched (session ∷ rest) n e = sym e

pub start_lem : (watched : List String) (n : ℕ) → Starts watched (start watched n)
unfolding start
start_lem watched n = collected-Starts watched (btree_collect watched) n refl

-- What an answer makes of the loads.
abbrev pub Answers : PendingLoads → ℕ → LoadProgress → Type 0
Answers pending id (more rest) =
    (session : String) × (get id pending.load_ids ≡ some session)
    × (rest.remaining ≡ set_remove session pending.remaining)
    × (rest.load_ids ≡ remove id pending.load_ids)
Answers pending id done =
    (session : String) × (get id pending.load_ids ≡ some session)
    × (set_remove session pending.remaining ≡ [])
Answers pending id (ignore rest) = rest ≡ pending

rest_of :
    (pending : PendingLoads) (id : ℕ) (session : String) (left : List String)
    → get id pending.load_ids ≡ some session
    → set_remove session pending.remaining ≡ left
    → Answers pending id (elim left [
      | [] ↦ done
      | s ∷ rest ↦ more (record { remaining = s ∷ rest; load_ids = remove id pending.load_ids })
    ])
rest_of pending id session [] asked e = (session, asked, e)
rest_of pending id session (s ∷ rest) asked e = (session, asked, sym e, refl)

answer_of :
    (pending : PendingLoads) (id : ℕ) (asked : Option String)
    → get id pending.load_ids ≡ asked
    → Answers pending id (elim asked [
      | none ↦ ignore pending
      | some session ↦ elim (set_remove session pending.remaining) [
        | [] ↦ done
        | s ∷ rest ↦ more (record { remaining = s ∷ rest; load_ids = remove id pending.load_ids })
      ]
    ])
answer_of pending id none e = refl
answer_of pending id (some session) e =
    rest_of pending id session (set_remove session pending.remaining) e refl

pub loaded_lem : (pending : PendingLoads) (id : ℕ) → Answers pending id (loaded pending id)
unfolding loaded
loaded_lem pending id = answer_of pending id (get id pending.load_ids) refl
