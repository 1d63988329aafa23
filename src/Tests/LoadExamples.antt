-- ===== src/Tests/LoadExamples.antt =====
-- One session to load.
use aqualung.Common.{some, ◌≡◌, ◌≢◌, refl, ◌⊎◌, [], ◌∷◌, nat_eq, string_eq, ==_iff, arith}
use aqualung.Common.HashMap.{get, remove, btree_map_insert, btree_map_collect}
use aqualung.Common.HashSet.{contains, place, btree_insert, btree_collect}
use aqualung.Hub.Loads.{PendingLoads, more, done, loaded, start, assign_ids, next_id}
use aqualung.Hub.Loads.Finishing.{Answered, fed, start-fed}
use aqualung.Hub.Loads.Progress.{Matched, loaded-Matched}

abbrev one_load : PendingLoads
one_load = record { remaining = "a" ∷ []; load_ids = (1, "a") ∷ [] }

one_load-Matched : Matched one_load
unfolding contains get
one_load-Matched = record {
  has_request = λ s c. (1, ground (arith, ==_iff "a" s));
  remains = λ id s e. ground (arith, ==_iff 1 id, ==_iff "a" s);
  one_request = λ i j s e f. ground (arith, ==_iff 1 i, ==_iff 1 j);
}

loaded-Matched_example :
    ((loaded one_load 1 ≡ done) × (remove 1 one_load.load_ids ≡ []))
    ⊎ ((q : PendingLoads) × (loaded one_load 1 ≡ more q)
        × Matched q
        × (q.load_ids ≡ remove 1 one_load.load_ids)
        × (remove 1 one_load.load_ids ≢ []))
unfolding get
loaded-Matched_example = loaded-Matched one_load 1 "a" one_load-Matched refl

abbrev two_loads : PendingLoads
two_loads = record { remaining = "a" ∷ "b" ∷ []; load_ids = (5, "a") ∷ (6, "b") ∷ [] }

start_two : start ("b" ∷ "a" ∷ "b" ∷ []) 4 ≡ (some two_loads, 6)
unfolding start btree_collect btree_insert place contains assign_ids next_id btree_map_collect
    btree_map_insert
start_two = refl

both-Answered : Answered two_loads (6 ∷ 99 ∷ 5 ∷ [])
unfolding get contains
both-Answered = λ id s e. ground (arith, ==_iff 5 id, ==_iff 6 id)

start-fed_example : fed (more two_loads) (6 ∷ 99 ∷ 5 ∷ []) ≡ done
unfolding btree_collect btree_insert place contains
start-fed_example =
    start-fed ("b" ∷ "a" ∷ "b" ∷ []) 4 6 two_loads "a" (6 ∷ 99 ∷ 5 ∷ []) start_two (omega arith)
      refl both-Answered
