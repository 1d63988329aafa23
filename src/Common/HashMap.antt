-- ===== src/Common/HashMap.antt =====
-- `HashMap` and `BTreeMap`: entries with distinct keys, in the order in which they are iterated.
use Prim.Native.Nat.{ℕ, compare, Ordering}
use mathlib.Core.Path.{◌≡◌, refl}
use mathlib.Core.Bool.{Bool, true, false}
use mathlib.Core.Option.{Option, none, some}
use mathlib.Core.List.{List, [], ◌∷◌}
use native.Mathlib.Omega.{arith}
use aqualung.Common.Tests.{if◌then◌else◌, Eq, ◌==◌, ==_iff, nat_eq}
use aqualung.Common.Tests.{is_some, ◌>>=◌}
use aqualung.Common.HashSet.{contains, Distinct}

abbrev pub HashMap {ℓ κ} : Type ℓ → Type κ → Type (ℓ ⊔ κ)
HashMap K V = List (K × V)

module _ {ℓ κ} {K : Type ℓ} {V : Type κ} ⦃e : Eq K⦄ where
  -- `map.get(&k)`
  unfoldable pub get : K → HashMap K V → Option V
  get key [] = none
  get key ((own, value) ∷ rest) = if own == key then some value else get key rest

  -- `map.contains_key(&k)`
  unfoldable pub contains_key : K → HashMap K V → Bool
  contains_key k [] = false
  contains_key k ((j, v) ∷ m) = if j == k then true else contains_key k m

  -- `map.insert(k, v)`: the value of a key that is there is replaced.
  unfoldable pub insert : K → V → HashMap K V → HashMap K V
  insert key value [] = (key, value) ∷ []
  insert key value ((own, old) ∷ rest) =
      if own == key then (key, value) ∷ rest else (own, old) ∷ insert key value rest

  -- `map.remove(&k)`
  unfoldable pub remove : K → HashMap K V → HashMap K V
  remove k [] = []
  remove k ((j, v) ∷ m) = let rest = remove k m in if j == k then rest else (j, v) ∷ rest

  -- `map.retain(|k, v| ..)`, where the closure may change the value: `none` drops the entry.
  unfoldable pub retain : (K → V → Option V) → HashMap K V → HashMap K V
  retain f [] = []
  retain f ((j, v) ∷ m) =
      let rest = retain f m in elim (f j v) [ none ↦ rest | some w ↦ (j, w) ∷ rest ]

  -- `map.keys()`
  unfoldable pub keys : HashMap K V → List K
  keys [] = []
  keys ((j, v) ∷ m) = j ∷ keys m

  -- `map.values()`
  unfoldable pub values : HashMap K V → List V
  values [] = []
  values ((j, v) ∷ m) = v ∷ values m

  pub get-insert :
      (k j : K) (v : V) (m : HashMap K V)
      → get j (insert k v m) ≡ (if k == j then some v else get j m)
  unfolding get insert
  get-insert k j v [] = refl
  get-insert k j v ((own, old) ∷ rest) =
      ground (arith, get-insert k j v rest, ==_iff own j, ==_iff own k, ==_iff k j)

  pub get-remove :
      (k j : K) (m : HashMap K V) → get j (remove k m) ≡ (if k == j then none else get j m)
  unfolding get remove
  get-remove k j [] = ground arith
  get-remove k j ((i, w) ∷ m) = ground (arith, ==_iff k j, ==_iff i k, ==_iff i j, get-remove k j m)

-- `BTreeMap::insert` at a number: the map is iterated in the order of its keys.
unfoldable pub btree_map_insert {ℓ} : {V : Type ℓ} → ℕ → V → HashMap ℕ V → HashMap ℕ V
btree_map_insert k v [] = (k, v) ∷ []
btree_map_insert k v ((j, w) ∷ m) = elim (compare k j) [
  | Ordering.lt ↦ (k, v) ∷ (j, w) ∷ m
  | Ordering.eq ↦ (k, v) ∷ m
  | Ordering.gt ↦ (j, w) ∷ btree_map_insert k v m
]

-- `collect::<BTreeMap<_, _>>()`, on top of the entries that are there.
unfoldable pub btree_map_collect {ℓ} : {V : Type ℓ} → HashMap ℕ V → List (ℕ × V) → HashMap ℕ V
unfolding btree_map_insert
btree_map_collect m [] = m
btree_map_collect m ((k, v) ∷ xs) = btree_map_collect (btree_map_insert k v m) xs

module _ {ℓ κ} {K : Type ℓ} {V : Type κ} ⦃e : Eq K⦄ where
  pub contains_key-get : (k : K) (m : HashMap K V) → contains_key k m ≡ is_some (get k m)
  unfolding contains_key get
  contains_key-get k [] = refl
  contains_key-get k ((j, v) ∷ m) = ground (arith, contains_key-get k m)

  pub contains-keys : (k : K) (m : HashMap K V) → contains k (keys m) ≡ is_some (get k m)
  unfolding contains keys get
  contains-keys k [] = refl
  contains-keys k ((j, v) ∷ m) = ground (arith, contains-keys k m)

  pub get-retain_keys :
      (drop : K → Bool) (k : K) (m : HashMap K V)
      → get k (retain (λ j v. if drop j then none else some v) m)
        ≡ (if drop k then none else get k m)
  unfolding get retain
  get-retain_keys drop k [] = ground arith
  get-retain_keys drop k ((j, v) ∷ m) = ground (arith, ==_iff j k, get-retain_keys drop k m)

  -- Each key stands once.
  abbrev pub DistinctKeys : HashMap K V → Type 0
  DistinctKeys m = Distinct (keys m)

  get_absent : (k : K) (m : HashMap K V) → contains k (keys m) ≡ false → get k m ≡ none
  get_absent k m h = ground (arith, contains-keys k m)

  pub get-retain :
      (f : K → V → Option V) (k : K) (m : HashMap K V)
      → DistinctKeys m
      → get k (retain f m) ≡ (get k m >>= f k)
  unfolding get retain keys contains
  get-retain f k [] d = refl
  get-retain f k ((j, v) ∷ m) d =
      ground (arith, ==_iff j k, get-retain f k m d.1, get_absent j m d.0)

  pub insert-DistinctKeys :
      (k : K) (v : V) (m : HashMap K V) → DistinctKeys m → DistinctKeys (insert k v m)
  unfolding insert keys contains
  insert-DistinctKeys k v [] d = (refl, tt)
  insert-DistinctKeys k v ((j, w) ∷ m) d = ground (
    arith,
    ==_iff k j,
    ==_iff j k,
    contains-keys j m,
    contains-keys j (insert k v m),
    get-insert k j v m,
    insert-DistinctKeys k v m d.1,
  )

  pub remove-DistinctKeys : (k : K) (m : HashMap K V) → DistinctKeys m → DistinctKeys (remove k m)
  unfolding remove keys contains
  remove-DistinctKeys k [] d = tt
  remove-DistinctKeys k ((j, w) ∷ m) d = ground (
    arith,
    contains-keys j m,
    contains-keys j (remove k m),
    get-remove k j m,
    remove-DistinctKeys k m d.1,
  )

  pub retain-DistinctKeys :
      (f : K → V → Option V) (m : HashMap K V) → DistinctKeys m → DistinctKeys (retain f m)
  unfolding retain keys contains
  retain-DistinctKeys f [] d = tt
  retain-DistinctKeys f ((j, w) ∷ m) d = ground (
    arith,
    contains-keys j m,
    contains-keys j (retain f m),
    get-retain f j m d.1,
    retain-DistinctKeys f m d.1,
  )

pub get-btree_map_insert {ℓ} :
    {V : Type ℓ} (k j : ℕ) (v : V) (m : HashMap ℕ V)
    → get j (btree_map_insert k v m) ≡ (if k == j then some v else get j m)
unfolding get btree_map_insert
get-btree_map_insert k j v [] = refl
get-btree_map_insert k j v ((i, w) ∷ m) = ground (arith, get-btree_map_insert k j v m)
