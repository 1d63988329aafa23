-- ===== src/Common/Results.antt =====
-- `?` on a `Result`, and what the code does with errors.
use mathlib.Core.Path.{◌≡◌, refl, sym}
use mathlib.Core.Logic.{◌≢◌}
use mathlib.Core.Option.{Option, none, some}
use aqualung.Common.Tests.{Result, ok, err}

infixl 5 ◌>>=◌ ◌>>◌
abbrev pub ◌>>=◌ {ℓ κ μ} :
    {A : Type ℓ} {B : Type κ} {E : Type μ} → Result A E → (A → Result B E) → Result B E
ok a >>= f = f a
err e >>= f = err e

abbrev pub ◌>>◌ {ℓ κ} : {B : Type ℓ} {E : Type κ} → Result (Unit {0}) E → Result B E → Result B E
m >> k = m >>= λ _. k

module _ {ℓ κ μ} {A : Type ℓ} {E : Type κ} {F : Type μ} where
  -- `result.map_err(f)`
  abbrev pub map_err : (E → F) → Result A E → Result A F
  map_err f (ok a) = ok a
  map_err f (err e) = err (f e)

-- `option.ok_or(e)`
abbrev pub ok_or {ℓ κ} : {A : Type ℓ} {E : Type κ} → E → Option A → Result A E
ok_or e none = err e
ok_or e (some a) = ok a

-- What a chain returned, its first step returned.
pub >>=-eq-ok {ℓ κ μ} :
    {A : Type ℓ} {B : Type κ} {E : Type μ} (m : Result A E) (f : A → Result B E) (b : B)
    → (m >>= f) ≡ ok b
    → (a : A) × (m ≡ ok a) × (f a ≡ ok b)
>>=-eq-ok (ok a) f b h = (a, refl, h)
>>=-eq-ok (err e) f b h = cc

-- A chain does not fail in a way in which no step of it fails.
pub >>=-ne-err {ℓ κ μ} :
    {A : Type ℓ} {B : Type κ} {E : Type μ} (m : Result A E) (f : A → Result B E) (e : E)
    → m ≢ err e
    → ((a : A) → m ≡ ok a → f a ≢ err e)
    → (m >>= f) ≢ err e
>>=-ne-err (ok a) f e first rest = rest a refl
>>=-ne-err (err x) f e first rest = λ h. first (cc)

pub map_err-ne {ℓ κ μ} :
    {A : Type ℓ} {E : Type κ} {F : Type μ} (f : E → F) (m : Result A E) (e : F)
    → ((x : E) → f x ≢ e)
    → map_err f m ≢ err e
map_err-ne f (ok a) e other = λ h. cc
map_err-ne f (err x) e other = λ h. other x (cc)

pub map_err-eq-ok {ℓ κ μ} :
    {A : Type ℓ} {E : Type κ} {F : Type μ} (f : E → F) (m : Result A E) (a : A)
    → map_err f m ≡ ok a
    → m ≡ ok a
map_err-eq-ok f (ok x) a h = cc
map_err-eq-ok f (err e) a h = cc

pub ok_inj {ℓ κ} : {A : Type ℓ} {E : Type κ} {a b : A} → ◌≡◌ {A = Result A E} (ok a) (ok b) → a ≡ b
ok_inj h = cc

-- What holds of a result, if there is one.
abbrev pub OnOk {ℓ κ μ} : {A : Type ℓ} {E : Type κ} → (A → Type μ) → Result A E → Type μ
OnOk Q (ok a) = Q a
OnOk Q (err e) = Unit

pub >>=-OnOk {ℓ κ ν μ} :
    {A : Type ℓ} {B : Type ν} {E : Type κ} (Q : B → Type μ) (m : Result A E) (f : A → Result B E)
    → ((a : A) → m ≡ ok a → OnOk Q (f a))
    → OnOk Q (m >>= f)
>>=-OnOk Q (ok a) f q = q a refl
>>=-OnOk Q (err e) f q = tt

pub OnOk-ok {ℓ κ μ} :
    {A : Type ℓ} {E : Type κ} (Q : A → Type μ) (m : Result A E) (a : A) → OnOk Q m → m ≡ ok a → Q a
OnOk-ok Q (ok b) a q h = let same : b ≡ a = cc in rw (sym same) q
OnOk-ok Q (err e) a q h = cc
