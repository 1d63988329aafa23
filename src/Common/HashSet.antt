-- ===== src/Common/HashSet.antt =====
-- `HashSet` and `BTreeSet`: lists without repetition, in the order in which they are iterated.
use Prim.Native.Nat.{Ordering}
use Prim.Native.String.{String, compare}
use mathlib.Core.Path.{◌≡◌, refl, ap, ◌∙◌}
use mathlib.Core.Bool.{Bool, true, false}
use mathlib.Core.List.{List, [], ◌∷◌}
use native.Mathlib.Omega.{arith}
use aqualung.Common.Tests.{if◌then◌else◌, Eq, ◌==◌, ==_iff, string_eq, Bool-cases}
use mathlib.Core.Logic.{inl, inr}

module _ {ℓ} {A : Type ℓ} ⦃e : Eq A⦄ where
  -- `set.contains(&a)`
  unfoldable pub contains : A → List A → Bool
  contains a [] = false
  contains a (x ∷ xs) = if x == a then true else contains a xs

  -- `set.insert(a)`
  unfoldable pub set_insert : A → List A → List A
  set_insert a [] = a ∷ []
  set_insert a (x ∷ xs) = if x == a then x ∷ xs else x ∷ set_insert a xs

  -- `set.remove(&a)`
  unfoldable pub set_remove : A → List A → List A
  set_remove a [] = []
  set_remove a (x ∷ xs) = let rest = set_remove a xs in if x == a then rest else x ∷ rest

  pub contains-set_insert :
      (a b : A) (xs : List A)
      → contains b (set_insert a xs) ≡ (if a == b then true else contains b xs)
  unfolding contains set_insert
  contains-set_insert a b [] = refl
  contains-set_insert a b (x ∷ xs) =
      ground (arith, ==_iff a b, ==_iff x a, ==_iff x b, contains-set_insert a b xs)

  pub contains-set_remove :
      (a b : A) (xs : List A)
      → contains b (set_remove a xs) ≡ (if a == b then false else contains b xs)
  unfolding contains set_remove
  contains-set_remove a b [] = ground arith
  contains-set_remove a b (x ∷ xs) =
      ground (arith, ==_iff a b, ==_iff x a, ==_iff x b, contains-set_remove a b xs)

  -- A list without repetition.
  abbrev pub Distinct : List A → Type 0
  Distinct [] = Unit {0}
  Distinct (x ∷ xs) = (contains x xs ≡ false) × Distinct xs

module _ {ℓ} {A : Type ℓ} ⦃e : Eq A⦄ where
  pub set_insert-Distinct : (a : A) (xs : List A) → Distinct xs → Distinct (set_insert a xs)
  unfolding set_insert contains
  set_insert-Distinct a [] d = (refl, tt)
  set_insert-Distinct a (x ∷ xs) d = elim (Bool-cases (x == a)) [
    | inl same ↦ rw same d
    | inr other ↦ rw other (
      ground (arith, contains-set_insert a x xs, d.0, ==_iff a x, ==_iff x a),
      set_insert-Distinct a xs d.1,
    )
  ]

  pub set_remove-Distinct : (a : A) (xs : List A) → Distinct xs → Distinct (set_remove a xs)
  unfolding set_remove contains
  set_remove-Distinct a [] d = tt
  set_remove-Distinct a (x ∷ xs) d = elim (Bool-cases (x == a)) [
    | inl same ↦ rw same (set_remove-Distinct a xs d.1)
    | inr other ↦
        rw other (ground (arith, contains-set_remove a x xs, d.0), set_remove-Distinct a xs d.1)
  ]

-- The place of a text among texts in their order.
unfoldable pub place : String → List String → List String
place s [] = s ∷ []
place s (t ∷ ts) = elim (compare s t) [
  | Ordering.lt ↦ s ∷ t ∷ ts
  | Ordering.eq ↦ s ∷ t ∷ ts
  | Ordering.gt ↦ t ∷ place s ts
]

-- `BTreeSet::insert` of a text: the set is iterated in the order of its texts.
unfoldable pub btree_insert : String → List String → List String
unfolding place contains
btree_insert s ts = if contains s ts then ts else place s ts

-- `collect::<BTreeSet<_>>()`
unfoldable pub btree_collect : List String → List String
unfolding btree_insert
btree_collect [] = []
btree_collect (s ∷ ss) = btree_insert s (btree_collect ss)

contains-place :
    (s t : String) (ts : List String)
    → contains t (place s ts) ≡ (if s == t then true else contains t ts)
unfolding contains place
contains-place s t [] = refl
contains-place s t (u ∷ ts) = ground (arith, contains-place s t ts)

pub contains-btree_insert :
    (s t : String) (ts : List String)
    → contains t (btree_insert s ts) ≡ (if s == t then true else contains t ts)
unfolding btree_insert
contains-btree_insert s t ts = ground (arith, ==_iff s t, contains-place s t ts)

place-Distinct :
    (s : String) (ts : List String) → contains s ts ≡ false → Distinct ts → Distinct (place s ts)
unfolding contains place
place-Distinct s [] fresh d = (refl, tt)
place-Distinct s (t ∷ ts) fresh d =
    go (compare s t) (place-Distinct s ts (ground (arith, ==_iff t s)) d.1)
  where
    go :
        (o : Ordering)
        → Distinct (place s ts)
        → Distinct (elim o [
          | Ordering.lt ↦ s ∷ t ∷ ts
          | Ordering.eq ↦ s ∷ t ∷ ts
          | Ordering.gt ↦ t ∷ place s ts
        ])
    go Ordering.lt later = (fresh, d)
    go Ordering.eq later = (fresh, d)
    go Ordering.gt later =
        (ground (arith, contains-place s t ts, ==_iff t s, ==_iff s t, d.0), later)

btree_insert-Distinct : (s : String) (ts : List String) → Distinct ts → Distinct (btree_insert s ts)
unfolding btree_insert
btree_insert-Distinct s ts d = elim (Bool-cases (contains s ts)) [
  | inl there ↦ rw there d
  | inr fresh ↦ rw fresh (place-Distinct s ts fresh d)
]

pub btree_collect-Distinct : (ss : List String) → Distinct (btree_collect ss)
unfolding btree_collect
btree_collect-Distinct [] = tt
btree_collect-Distinct (s ∷ ss) =
    btree_insert-Distinct s (btree_collect ss) (btree_collect-Distinct ss)

pub contains-btree_collect :
    (t : String) (ss : List String) → contains t (btree_collect ss) ≡ contains t ss
unfolding btree_collect contains
contains-btree_collect t [] = refl
contains-btree_collect t (s ∷ ss) =
    contains-btree_insert s t (btree_collect ss)
    ∙ ap (λ b. if s == t then true else b) (contains-btree_collect t ss)
