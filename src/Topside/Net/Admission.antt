-- ===== src/Topside/Net/Admission.antt =====
-- Which phones the callback of crates/topside/src/net.rs lets in.
use Prim.Native.Char.{Char, char, code, IsScalar}
use Prim.Native.String.{◌++◌ as str_append}
use text.Mathlib.TextEquality.{Char-path}
use text.Mathlib.TextLemmas.{nil-append, cons-append}
use aqualung.Common.{
  ℕ, ◌⊎◌, ◌<◌, String, ◌≡◌, refl, ap, ◌∙◌, sym, ◌↔◌, Bool, true, false, Option, none, some, List,
  [], ◌∷◌, ◌++◌, ◌==◌, nat_eq, ==_iff, if◌then◌else◌, ok, err, Bool-cases, Option-cases, inl, inr,
  arith,
}
use aqualung.Common.Utf8.{as_bytes, encode}
use aqualung.Common.Trim.{trim}
use aqualung.Auth.{token_eq, token_eq_iff, AreBytes}
use aqualung.Topside.Config.{bytes_eq}
use aqualung.Topside.Pinning.{bytes_eq_iff}
use aqualung.Topside.Net.Bearer.{
  split_once, to_ascii_lowercase, eq_ignore_ascii_case, bearer_bytes, Http, unauthorized, decide,
  header_of, callback,
}

AreBytes-append : (xs ys : List ℕ) → AreBytes xs → AreBytes ys → AreBytes (xs ++ ys)
AreBytes-append [] ys bx by = by
AreBytes-append (x ∷ xs) ys bx by = (bx.0, AreBytes-append xs ys bx.1 by)

scalar_bound : (n : ℕ) → IsScalar n → n < 1114112
scalar_bound n s = ground arith

encode-AreBytes : (n : ℕ) → n < 1114112 → AreBytes (encode n)
unfolding encode
encode-AreBytes n b = ground arith

as_bytes-AreBytes : (s : String) → AreBytes (as_bytes s)
unfolding as_bytes
as_bytes-AreBytes String.[] = tt
as_bytes-AreBytes (String.◌∷◌ (char n p) s) =
    AreBytes-append (encode n) (as_bytes s) (encode-AreBytes n (scalar_bound n p))
      (as_bytes-AreBytes s)

abbrev pub space : Char
space = char 32 tt

unfoldable pub has_space : String → Bool
has_space String.[] = false
has_space (String.◌∷◌ c s) = if code c == 32 then true else has_space s

parts_eq :
    (a b c d : String)
    → ◌≡◌ {A = Option (String × String)} (some (a, b)) (some (c, d))
    → (a ≡ c) × (b ≡ d)
parts_eq a b c d h = (
  ap (λ o. elim o [ none ↦ a | some (x, y) ↦ x ]) h,
  ap (λ o. elim o [ none ↦ a | some (x, y) ↦ y ]) h,
)

split_once-eq-some :
    (s before behind : String)
    → split_once s ≡ some (before, behind)
    → (s ≡ str_append before (String.◌∷◌ space behind)) × (has_space before ≡ false)
unfolding split_once has_space
split_once-eq-some String.[] before behind h = cc
split_once-eq-some (String.◌∷◌ c s) before behind h = elim (Bool-cases (code c == 32)) [
  | inl here ↦
      let (first, second) = parts_eq String.[] s before behind (sym (rw here refl) ∙ h) in
      (
        rw (sym first, sym second, nil-append, Char-path c space ((==_iff (code c) 32).0 here))
            refl,
        rw (sym first) refl,
      )
  | inr on ↦ elim (Option-cases (split_once s)) [
    | inl missing ↦ ground arith
    | inr ((first, second), e) ↦
        let (a, b) = split_once-eq-some s first second e in
        let (c, d) =
          parts_eq (String.◌∷◌ c first) second before behind (sym (rw (on, e) refl) ∙ h) in
        (rw (sym c, sym d, cons-append, a) refl, rw (sym c, on) b)
  ]
]

split_once-append :
    (before behind : String)
    → has_space before ≡ false
    → split_once (str_append before (String.◌∷◌ space behind)) ≡ some (before, behind)
unfolding split_once has_space
split_once-append String.[] behind h = rw nil-append refl
split_once-append (String.◌∷◌ c before) behind h =
    rw cons-append (ground (arith, split_once-append before behind))

-- A header that shows the token: behind blanks, the word `Bearer` in capitals or small letters, a
-- space, and the token between blanks.
pub record Bearing (header : String) (token : List ℕ) : Type 0 where
  pub scheme : String
  pub rest : String
  pub parts : trim header ≡ str_append scheme (String.◌∷◌ space rest)
  pub one_word : has_space scheme ≡ false
  pub bearer : to_ascii_lowercase scheme ≡ to_ascii_lowercase "Bearer"
  pub shown : as_bytes (trim rest) ≡ token

bearer_bytes-eq-some :
    (header : String) (token : List ℕ) → bearer_bytes header ≡ some token → Bearing header token
unfolding bearer_bytes eq_ignore_ascii_case
bearer_bytes-eq-some header token h = elim (Option-cases (split_once (trim header))) [
  | inl missing ↦ ground arith
  | inr ((scheme, rest), e) ↦
      let (a, b) = split_once-eq-some (trim header) scheme rest e in
      let shown : (if bytes_eq (to_ascii_lowercase scheme) (to_ascii_lowercase "Bearer")
            then some (as_bytes (trim rest))
            else none)
          ≡ some token =
        sym (rw e refl) ∙ h in
      record {
        scheme = scheme;
        rest = rest;
        parts = a;
        one_word = b;
        bearer =
            (bytes_eq_iff (to_ascii_lowercase scheme) (to_ascii_lowercase "Bearer")).0
              (ground arith);
        shown = ground arith;
      }
]

bearer_bytes-Bearing :
    (header : String) (token : List ℕ) → Bearing header token → bearer_bytes header ≡ some token
unfolding bearer_bytes eq_ignore_ascii_case
bearer_bytes-Bearing header token b =
    rw
      (
        b.parts,
        split_once-append b.scheme b.rest b.one_word,
        (bytes_eq_iff (to_ascii_lowercase b.scheme) (to_ascii_lowercase "Bearer")).1 b.bearer,
        b.shown,
      )
      refl

decide-answers :
    (expected : List ℕ) (found : Option (List ℕ))
    → (decide expected found ≡ ok tt) ⊎ (decide expected found ≡ err 401)
unfolding decide unauthorized
decide-answers expected none = inr refl
decide-answers expected (some provided) = elim (Bool-cases (token_eq provided expected)) [
  | inl same ↦ inl (rw same refl)
  | inr other ↦ inr (rw other refl)
]

bearer_bytes-AreBytes :
    (header : String) (provided : List ℕ) → bearer_bytes header ≡ some provided → AreBytes provided
bearer_bytes-AreBytes header provided e =
    let b = bearer_bytes-eq-some header provided e in
    rw (sym b.shown) (as_bytes-AreBytes (trim b.rest))

decide_iff :
    (expected : List ℕ) (header : String)
    → AreBytes expected
    → (decide expected (bearer_bytes header) ≡ ok tt) ↔ (bearer_bytes header ≡ some expected)
unfolding decide
decide_iff expected header bytes = elim (Option-cases (bearer_bytes header)) [
  | inl missing ↦ rw missing (ground arith)
  | inr (provided, e) ↦ rw e (
      ground
        (arith, token_eq_iff provided expected (bearer_bytes-AreBytes header provided e) bytes))
]

module _ ⦃H : Http⦄ where
  -- For an expected token of bytes: the callback lets a request in exactly if its header shows the
  -- token, byte for byte, and answers every other one with 401.
  pub callback_iff :
      (expected : List ℕ) (req : H.Request)
      → AreBytes expected
      → ((callback expected req ≡ ok tt) ↔ Bearing (header_of req) expected)
        × ((callback expected req ≡ ok tt) ⊎ (callback expected req ≡ err 401))
  unfolding callback
  callback_iff expected req bytes =
      let header = header_of req in
      (
        (
          λ h. bearer_bytes-eq-some header expected ((decide_iff expected header bytes).0 h),
          λ b. (decide_iff expected header bytes).1 (bearer_bytes-Bearing header expected b),
        ),
        decide-answers expected (bearer_bytes header),
      )
