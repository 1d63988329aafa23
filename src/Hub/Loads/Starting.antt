-- ===== src/Hub/Loads/Starting.antt =====
-- The loads with which a new home connection starts.
use aqualung.Common.{
  some_inj, ℕ, suc, ◌+◌, ◌^◌, ◌≤◌, ◌<◌, String, ◌≡◌, refl, ◌⊎◌, inl, inr, ◌∙◌, sym, ap, true, false,
  Option, none, some, List, [], ◌∷◌, ◌==◌, nat_eq, string_eq, arith, ==_iff, ==_refl, Bool-cases,
}
use aqualung.Common.HashMap.{
  HashMap, get, btree_map_insert, btree_map_collect, get-btree_map_insert,
}
use aqualung.Common.HashSet.{
  contains, Distinct, btree_collect, btree_collect-Distinct, contains-btree_collect,
}
use aqualung.Hub.Loads.{next_id, PendingLoads, assign_ids, start}
use aqualung.Hub.Loads.Progress.{Matched}

abbrev pub count : List String → ℕ
count [] = 0
count (_ ∷ sessions) = suc (count sessions)

-- The requests for the sessions, on top of those that are there.
abbrev requested : HashMap ℕ String → ℕ → List String → HashMap ℕ String
requested m n sessions = btree_map_collect m (assign_ids n sessions).0

requested-cons :
    (m : HashMap ℕ String) (n : ℕ) (session : String) (rest : List String)
    → n + 1 < 2 ^ 64
    → requested m n (session ∷ rest) ≡ requested (btree_map_insert (n + 1) session m) (n + 1) rest
unfolding assign_ids next_id btree_map_collect
requested-cons m n session rest room =
    ap (λ id. requested (btree_map_insert id session m) id rest) (omega (arith, room))

-- An id that is not above the counter keeps its session.
get-requested :
    (k n : ℕ) (m : HashMap ℕ String) (sessions : List String)
    → k ≤ n
    → n + count sessions < 2 ^ 64
    → get k (requested m n sessions) ≡ get k m
unfolding assign_ids btree_map_collect
get-requested k n m [] below room = refl
get-requested k n m (session ∷ rest) below room =
    ap (λ all. get k all) (requested-cons m n session rest (omega (arith, room)))
    ∙ get-requested k (n + 1) (btree_map_insert (n + 1) session m) rest (omega (arith, below))
        (omega (arith, room))
    ∙ ground (arith, get-btree_map_insert (n + 1) k session m, below)

has_request :
    (n : ℕ) (m : HashMap ℕ String) (sessions : List String) (s : String)
    → n + count sessions < 2 ^ 64
    → contains s sessions ≡ true
    → (id : ℕ) × (get id (requested m n sessions) ≡ some s)
unfolding contains
has_request n m [] s room there = cc
has_request n m (session ∷ rest) s room there = elim (Bool-cases (session == s)) [
  | inl here ↦ (
    n + 1,
    ap (λ all. get (n + 1) all) (requested-cons m n session rest (omega (arith, room)))
        ∙ get-requested (n + 1) (n + 1) (btree_map_insert (n + 1) session m) rest (omega arith)
            (omega (arith, room))
        ∙ ground (
          arith,
          get-btree_map_insert (n + 1) (n + 1) session m,
          ==_iff session s,
          ==_refl (n + 1),
        ),
  )
  | inr on ↦
      let (id, e) =
        has_request (n + 1) (btree_map_insert (n + 1) session m) rest s (omega (arith, room))
          (ground arith) in
      (id, ap (λ all. get id all) (requested-cons m n session rest (omega (arith, room))) ∙ e)
]

remains :
    (n : ℕ) (m : HashMap ℕ String) (sessions : List String) (id : ℕ) (s : String)
    → n + count sessions < 2 ^ 64
    → get id (requested m n sessions) ≡ some s
    → (contains s sessions ≡ true) ⊎ (get id m ≡ some s)
unfolding contains assign_ids btree_map_collect
remains n m [] id s room there = inr there
remains n m (session ∷ rest) id s room there =
    elim (remains (n + 1) (btree_map_insert (n + 1) session m) rest id s (omega (arith, room)) (
      ap (λ all. get id all) (sym (requested-cons m n session rest (omega (arith, room))))
      ∙ there)) [
        | inl later ↦ inl (ground (arith, later))
        | inr e ↦ elim (Bool-cases (n + 1 == id)) [
          | inl same ↦
              inl (ground (arith, get-btree_map_insert (n + 1) id session m, e, ==_iff session s))
          | inr other ↦ inr (ground (arith, get-btree_map_insert (n + 1) id session m, e))
        ]
      ]

-- The sessions that have requests have one each, and are not among those to come.
record Single (m : HashMap ℕ String) (sessions : List String) : Type 0 where
  one : (i j : ℕ) (s : String) → get i m ≡ some s → get j m ≡ some s → i ≡ j
  fresh : (i : ℕ) (s : String) → get i m ≡ some s → contains s sessions ≡ false

Single-insert :
    (n : ℕ) (m : HashMap ℕ String) (session : String) (rest : List String)
    → contains session rest ≡ false
    → Single m (session ∷ rest)
    → Single (btree_map_insert (n + 1) session m) rest
unfolding contains
Single-insert n m session rest new single = record {
  one = λ i j s e f. ground (
    arith,
    get-btree_map_insert (n + 1) i session m,
    get-btree_map_insert (n + 1) j session m,
    single.one i j s,
    single.fresh i s,
    single.fresh j s,
    ==_iff session s,
    ==_iff (n + 1) i,
    ==_iff (n + 1) j,
  );
  fresh = λ i s e.
      ground
        (arith, get-btree_map_insert (n + 1) i session m, single.fresh i s, new, ==_iff session s);
}

one_request :
    (n : ℕ) (m : HashMap ℕ String) (sessions : List String)
    → n + count sessions < 2 ^ 64
    → Distinct sessions
    → Single m sessions
    → Single (requested m n sessions) []
unfolding assign_ids btree_map_collect
one_request n m [] room d single = single
one_request n m (session ∷ rest) room d single =
    rw (requested-cons m n session rest (omega (arith, room))) (
      one_request (n + 1) (btree_map_insert (n + 1) session m) rest (omega (arith, room)) d.1
        (Single-insert n m session rest d.0 single))

nothing-Single : (sessions : List String) → Single [] sessions
unfolding get
nothing-Single sessions = record { one = λ i j s e f. cc; fresh = λ i s e. cc }

abbrev started : ℕ → List String → PendingLoads
started n sessions = record { remaining = sessions; load_ids = requested [] n sessions }

started-Matched :
    (n : ℕ) (sessions : List String)
    → n + count sessions < 2 ^ 64
    → Distinct sessions
    → Matched (started n sessions)
unfolding get
started-Matched n sessions room d = record {
  has_request = λ s there. has_request n [] sessions s room there;
  remains = λ id s there. elim (remains n [] sessions id s room there) [
    | inl yes_ ↦ yes_
    | inr e ↦ ground (arith, e)
  ];
  one_request = (one_request n [] sessions room d (nothing-Single sessions)).one;
}

start-started :
    (watched : List String) (next_req last : ℕ) (p : PendingLoads)
    → start watched next_req ≡ (some p, last)
    → started next_req (btree_collect watched) ≡ p
unfolding start
start-started watched next_req last p h = go (btree_collect watched) refl
  where
    go :
        (sessions : List String)
        → btree_collect watched ≡ sessions
        → started next_req (btree_collect watched) ≡ p
    go [] e =
        let nothing : start watched next_req ≡ (none, next_req) = rw (start, e) refl in
        let absurd : none ≡ some p = ap (λ (r : Option PendingLoads × ℕ). r.0) (sym nothing ∙ h) in
        cc
    go (session ∷ rest) e =
        let given : start watched next_req
            ≡ (some (started next_req (session ∷ rest)), (assign_ids next_req (session ∷ rest)).1) =
          rw (start, e) refl in
        let same : some (started next_req (session ∷ rest)) ≡ some p =
          ap (λ (r : Option PendingLoads × ℕ). r.0) (sym given ∙ h) in
        ap (started next_req) e ∙ some_inj same

-- What `start` gives, where the ids do not wrap: every session that is watched remains, and no
-- other; every session that remains has one open request, and every open request is for one that
-- remains.
pub start-Matched :
    (watched : List String) (next_req last : ℕ) (p : PendingLoads) (s : String)
    → start watched next_req ≡ (some p, last)
    → next_req + count (btree_collect watched) < 2 ^ 64
    → Matched p × (contains s p.remaining ≡ contains s watched)
start-Matched watched next_req last p s h room =
    let same = start-started watched next_req last p h in
    rw (sym same) (
      started-Matched next_req (btree_collect watched) room (btree_collect-Distinct watched),
      contains-btree_collect s watched,
    )
