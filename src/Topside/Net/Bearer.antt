-- ===== src/Topside/Net/Bearer.antt =====
-- The test of a phone's header in crates/topside/src/net.rs: `bearer_bytes`, the callback of
-- `phone_connection` and `unauthorized`, with the operations of `str` that they use.
use Prim.Native.Char.{code}
use aqualung.Common.{
  ℕ, String, Bool, Option, none, some, List, [], ◌∷◌, ◌==◌, nat_eq, leb, ◌&&◌, if◌then◌else◌,
  Result, ok, err, ◌>>=◌, ◌+◌,
}
use aqualung.Common.Utf8.{as_bytes}
use aqualung.Common.Trim.{trim}
use aqualung.Auth.{token_eq}
use aqualung.Topside.Config.{bytes_eq}

-- `s.split_once(' ')`
unfoldable pub split_once : String → Option (String × String)
split_once String.[] = none
split_once (String.◌∷◌ c s) =
    let rest = split_once s in
    if code c == 32
    then some (String.[], s)
    else elim rest [ none ↦ none | some (before, behind) ↦ some (String.◌∷◌ c before, behind) ]

unfoldable pub to_ascii_lowercase : String → List ℕ
to_ascii_lowercase String.[] = []
to_ascii_lowercase (String.◌∷◌ c s) =
    (if leb 65 (code c) && leb (code c) 90 then code c + 32 else code c) ∷ to_ascii_lowercase s

unfoldable pub eq_ignore_ascii_case : String → String → Bool
unfolding to_ascii_lowercase bytes_eq
eq_ignore_ascii_case a b = bytes_eq (to_ascii_lowercase a) (to_ascii_lowercase b)

unfoldable pub bearer_bytes : String → Option (List ℕ)
unfolding trim split_once eq_ignore_ascii_case as_bytes
bearer_bytes header = do
  (scheme, rest) ← split_once (trim header)
  (if eq_ignore_ascii_case scheme "Bearer" then some (as_bytes (trim rest)) else none)

-- The requests of HTTP: `headers().get("Authorization")`, and `to_str` of what it finds.
pub record Http : Type 1 where
  pub Request : Type 0
  pub HeaderValue : Type 0
  pub authorization : Request → Option HeaderValue
  pub to_str : HeaderValue → Option String

-- `StatusCode::UNAUTHORIZED`, the status of `unauthorized()`.
unfoldable pub unauthorized : ℕ
unauthorized = 401

unfoldable pub unwrap_or_empty : Option String → String
unwrap_or_empty none = ""
unwrap_or_empty (some s) = s

-- The test of `callback` on what `bearer_bytes` found.
unfoldable pub decide : List ℕ → Option (List ℕ) → Result (Unit {0}) ℕ
unfolding token_eq unauthorized
decide expected none = err unauthorized
decide expected (some provided) = if token_eq provided expected then ok tt else err unauthorized

module _ ⦃H : Http⦄ where
  unfoldable pub header_of : H.Request → String
  unfolding unwrap_or_empty
  header_of req = unwrap_or_empty (do value ← H.authorization req; H.to_str value)

  -- `callback`, without the response that it passes on.
  unfoldable pub callback : List ℕ → H.Request → Result (Unit {0}) ℕ
  unfolding header_of bearer_bytes decide
  callback expected req = decide expected (bearer_bytes (header_of req))
