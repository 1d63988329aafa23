-- ===== src/Hub/Loads/Progress.antt =====
-- The loads that are still open, and the sessions that wait for them.
use aqualung.Common.{
  ℕ, String, ◌≡◌, ◌≢◌, refl, ◌⊎◌, inl, inr, true, none, some, List, [], ◌∷◌, nat_eq, string_eq,
  arith, ==_iff, ==_refl, Option-cases,
}
use aqualung.Common.HashMap.{HashMap, get, remove, get-remove}
use aqualung.Common.HashSet.{contains, set_remove, contains-set_remove}
use aqualung.Hub.Loads.{PendingLoads, more, done, loaded}

-- Every session that remains has one open request, and every open request is for one that remains.
pub record Matched (p : PendingLoads) : Type 0 where
  pub has_request :
      (s : String) → contains s p.remaining ≡ true → (id : ℕ) × (get id p.load_ids ≡ some s)
  pub remains : (id : ℕ) (s : String) → get id p.load_ids ≡ some s → contains s p.remaining ≡ true
  pub one_request :
      (i j : ℕ) (s : String) → get i p.load_ids ≡ some s → get j p.load_ids ≡ some s → i ≡ j

List-cases :
    (xs : List String) → (xs ≡ []) ⊎ ((x : String) × (rest : List String) × (xs ≡ x ∷ rest))
List-cases [] = inl refl
List-cases (x ∷ rest) = inr (x, rest, refl)

nothing_left : (m : HashMap ℕ String) → ((j : ℕ) → get j m ≡ none) → m ≡ []
unfolding get
nothing_left [] none_left = refl
nothing_left ((k, s) ∷ m) none_left = ground (arith, none_left k, ==_refl k)

contains_head : (t : String) (rest : List String) → contains t (t ∷ rest) ≡ true
unfolding contains
contains_head t rest = ground (arith, ==_refl t)

has_one : (m : HashMap ℕ String) (t : String) → (id : ℕ) × (get id m ≡ some t) → m ≢ []
unfolding get
has_one [] t (id, e) = λ empty. cc
has_one (entry ∷ m) t (id, e) = λ empty. cc

-- The open requests after one was answered, if the session waited for it alone.
answered :
    (p : PendingLoads) (id : ℕ) (s : String) (rest : List String)
    → Matched p
    → get id p.load_ids ≡ some s
    → set_remove s p.remaining ≡ rest
    → Matched (record { remaining = rest; load_ids = remove id p.load_ids })
answered p id s rest m there left = record {
  has_request = λ t c.
      let other : contains t (set_remove s p.remaining) ≡ true = rw left c in
      let (j, open_request) =
        m.has_request t (ground (arith, contains-set_remove s t p.remaining)) in
      (
        j,
        ground (
          arith,
          get-remove id j p.load_ids,
          contains-set_remove s t p.remaining,
          ==_iff id j,
          ==_iff s t,
        ),
      );
  remains = λ j t e. rw (← left) (
      ground (
        arith,
        contains-set_remove s t p.remaining,
        get-remove id j p.load_ids,
        m.remains j t,
        ==_iff id j,
        ==_iff s t,
        m.one_request id j t,
      ));
  one_request = λ i j t e f.
      ground (arith, get-remove id i p.load_ids, get-remove id j p.load_ids, m.one_request i j t);
}

-- The answer to an open request, where every session that remains has one open request and every
-- open request a session: the loads are done exactly if no other request is open; otherwise they go
-- on with the others, and sessions and requests still match.
pub loaded-Matched :
    (p : PendingLoads) (id : ℕ) (s : String)
    → Matched p
    → get id p.load_ids ≡ some s
    → ((loaded p id ≡ done) × (remove id p.load_ids ≡ []))
      ⊎ ((q : PendingLoads) × (loaded p id ≡ more q)
          × Matched q
          × (q.load_ids ≡ remove id p.load_ids)
          × (remove id p.load_ids ≢ []))
unfolding loaded contains
loaded-Matched p id s m there = elim (List-cases (set_remove s p.remaining)) [
  | inl last ↦
      let after = answered p id s [] m there last in
      inl (
        rw (there, loaded, last) refl,
        nothing_left (remove id p.load_ids) (λ j.
            elim (Option-cases (get j (remove id p.load_ids))) [
              | inl gone ↦ gone
              | inr (t, e) ↦ ground (arith, after.remains j t e)
            ]),
      )
  | inr (t, rest, left) ↦
      let after = answered p id s (t ∷ rest) m there left in
      inr (
        _,
        rw (there, loaded, left) refl,
        after,
        refl,
        λ e. has_one (remove id p.load_ids) t (after.has_request t (contains_head t rest)) e,
      )
]
