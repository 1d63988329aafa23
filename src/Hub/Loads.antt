-- ===== src/Hub/Loads.antt =====
-- `PendingLoads` of crates/topside/src/hub.rs: the sessions that a new home connection has still to
-- load, with the id of the request that loads each.
pub mod Progress
pub mod Starting
pub mod Finishing
use aqualung.Common.{ℕ, ◌+◌, ◌%◌, ◌^◌, String, Option, none, some, List, [], ◌∷◌, nat_eq, string_eq}
use aqualung.Common.HashMap.{HashMap, get, remove, btree_map_collect}
use aqualung.Common.HashSet.{set_remove, btree_collect}

-- `+= 1` on a `u64`
unfoldable pub next_id : ℕ → ℕ
next_id n = (n + 1) % 2 ^ 64

pub record PendingLoads : Type 0 where
  pub remaining : List String
  pub load_ids : HashMap ℕ String

pub data LoadProgress : Type 0 where
  more : PendingLoads → LoadProgress
  done : LoadProgress
  ignore : PendingLoads → LoadProgress

-- One id for each session, with the counter behind the last.
unfoldable pub assign_ids : ℕ → List String → List (ℕ × String) × ℕ
unfolding next_id
assign_ids n [] = ([], n)
assign_ids n (session ∷ rest) =
    let id = next_id n in let (ids, last) = assign_ids id rest in ((id, session) ∷ ids, last)

unfoldable pub start : List String → ℕ → Option PendingLoads × ℕ
unfolding btree_collect assign_ids btree_map_collect
start watched next_req = elim (btree_collect watched) [
  | [] ↦ (none, next_req)
  | session ∷ rest ↦
      let (ids, last) = assign_ids next_req (session ∷ rest) in
      (some (record { remaining = session ∷ rest; load_ids = btree_map_collect [] ids }), last)
]

unfoldable pub loaded : PendingLoads → ℕ → LoadProgress
unfolding get remove set_remove
loaded p id = elim (get id p.load_ids) [
  | none ↦ ignore p
  | some session ↦
      let ids = remove id p.load_ids in
      elim (set_remove session p.remaining) [
        | [] ↦ done
        | s ∷ rest ↦ more (record { remaining = s ∷ rest; load_ids = ids })
      ]
]

-- The requests still open, in the order of their ids.
abbrev pub requests : PendingLoads → List (ℕ × String)
requests p = p.load_ids
