-- ===== src/Hub/Invariant/Agreement.antt =====
-- One session's watchers and its driver.
use mathlib.Core.Path.{subst}
use aqualung.Common.{
  ℕ, ◌≡◌, ap, Bool, true, false, Option, none, some, List, [], ◌∷◌, ◌==◌, nat_eq, string_eq,
  if◌then◌else◌, arith, is_some, ==_iff,
}
use aqualung.Common.HashMap.{HashMap, get}
use aqualung.Common.HashSet.{
  contains, set_insert, set_remove, contains-set_insert, contains-set_remove, Distinct,
  set_insert-Distinct, set_remove-Distinct,
}
use aqualung.Hub.State.{Phone, is_ready}
use aqualung.Hub.Watching.{or_default}

-- `phone_ready`, of the table of phones.
abbrev pub ready_in : HashMap ℕ Phone → ℕ → Bool
ready_in phones p = elim (get p phones) [ none ↦ false | some slot ↦ is_ready slot ]

abbrev pub AllReady : HashMap ℕ Phone → List ℕ → Type 0
AllReady phones ps = (p : ℕ) → contains p ps ≡ true → ready_in phones p ≡ true

abbrev pub Agree : HashMap ℕ Phone → Option (List ℕ) → Option ℕ → Type 0
Agree phones none none = Unit {0}
Agree phones none (some d) = ⊥
Agree phones (some ps) none = ⊥
Agree phones (some ps) (some d) = (contains d ps ≡ true) × AllReady phones ps × Distinct ps

-- Where every phone that was ready still is, the agreement stays.
pub Agree-mono :
    (phones phones' : HashMap ℕ Phone) (ws : Option (List ℕ)) (d : Option ℕ)
    → ((p : ℕ) → ready_in phones p ≡ true → ready_in phones' p ≡ true)
    → Agree phones ws d
    → Agree phones' ws d
Agree-mono phones phones' none none m a = tt
Agree-mono phones phones' none (some d) m a = a
Agree-mono phones phones' (some ps) none m a = a
Agree-mono phones phones' (some ps) (some d) m a = (a.0, λ p c. m p (a.1 p c), a.2)

-- One more watcher, who drives if nobody did.
pub Agree-watch :
    (phones : HashMap ℕ Phone) (ws : Option (List ℕ)) (d : Option ℕ) (p : ℕ)
    → ready_in phones p ≡ true
    → Agree phones ws d
    → Agree phones (some (set_insert p (or_default ws))) (if is_some d then d else some p)
unfolding or_default contains
Agree-watch phones none none p r a = (
  rw contains-set_insert (ground (arith, ==_iff p p)),
  λ q c. ground (arith, ==_iff p q, contains-set_insert p q []),
  set_insert-Distinct p [] tt,
)
Agree-watch phones none (some d) p r a = elim a [ ]
Agree-watch phones (some ps) none p r a = elim a [ ]
Agree-watch phones (some ps) (some d) p r a = (
  rw contains-set_insert (ground arith),
  λ q c. ground (arith, ==_iff p q, contains-set_insert p q ps, a.1 q),
  set_insert-Distinct p ps a.2,
)

-- Who watches after one has gone.
pub contains_left :
    (p x next : ℕ) (ps others : List ℕ)
    → set_remove p ps ≡ next ∷ others
    → contains x (next ∷ others) ≡ (if p == x then false else contains x ps)
contains_left p x next ps others e = rw (← e) (contains-set_remove p x ps)

pub left-Distinct :
    (p next : ℕ) (ps others : List ℕ)
    → set_remove p ps ≡ next ∷ others
    → Distinct ps
    → Distinct (next ∷ others)
left-Distinct p next ps others e d = subst Distinct e (set_remove-Distinct p ps d)

pub contains_head : (x : ℕ) (xs : List ℕ) → contains x (x ∷ xs) ≡ true
unfolding contains
contains_head x xs = ground (arith, ==_iff x x)

-- One watcher fewer. `next` drives if the one who goes did.
pub Agree-leave :
    (phones : HashMap ℕ Phone) (ps : List ℕ) (d : ℕ) (p : ℕ) (next : ℕ) (others : List ℕ)
    → set_remove p ps ≡ next ∷ others
    → Agree phones (some ps) (some d)
    → Agree phones (some (next ∷ others)) (some (if d == p then next else d))
Agree-leave phones ps d p next others e a = (
  ground (
    arith,
    ==_iff d p,
    ==_iff p d,
    contains_head next others,
    contains_left p d next ps others e,
  ),
  λ q c. ground (arith, contains_left p q next ps others e, a.1 q),
  left-Distinct p next ps others e a.2,
)

-- The last watcher was the driver.
pub last_watcher :
    (phones : HashMap ℕ Phone) (ps : List ℕ) (d p : ℕ)
    → set_remove p ps ≡ []
    → Agree phones (some ps) (some d)
    → d ≡ p
unfolding contains
last_watcher phones ps d p e a =
    ground (arith, ap (contains d) e, contains-set_remove p d ps, ==_iff p d)

-- The driver after a watcher has gone and others are left.
abbrev pub next_driver : ℕ → ℕ → Option ℕ → Option ℕ
next_driver p next none = none
next_driver p next (some owner) = some (if owner == p then next else owner)

pub Agree-unwatch :
    (phones : HashMap ℕ Phone) (ps : List ℕ) (d : Option ℕ) (p : ℕ) (next : ℕ) (others : List ℕ)
    → set_remove p ps ≡ next ∷ others
    → Agree phones (some ps) d
    → Agree phones (some (next ∷ others)) (next_driver p next d)
Agree-unwatch phones ps none p next others e a = a
Agree-unwatch phones ps (some d) p next others e a = Agree-leave phones ps d p next others e a
