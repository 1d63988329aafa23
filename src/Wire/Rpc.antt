-- ===== src/Wire/Rpc.antt =====
-- The JSON-RPC texts of crates/topside/src/wire.rs.
use Prim.Native.Char.{code}
use aqualung.Common.{
  ℕ, String, Bool, ◌||◌, Option, none, some, [], ◌∷◌, ◌==◌, nat_eq, string_eq, ◌>>=◌, Result, ok,
  err, ℤ, pos, negsuc, if◌then◌else◌,
}
use aqualung.Json.{Json}

pub data RpcError : Type 0 where
  invalid : RpcError

abbrev pub parse_error : ℤ
parse_error = negsuc 32699

abbrev pub invalid_request : ℤ
invalid_request = negsuc 32599

abbrev pub method_not_found : ℤ
method_not_found = negsuc 32600

abbrev pub host_is_away : ℤ
host_is_away = negsuc 32002

unfoldable pub method_of : String → String
method_of String.[] = ""
method_of (String.◌∷◌ c s) = if code c == b'_' then s else String.◌∷◌ c s

unfoldable pub is_interaction : String → Bool
unfolding method_of
is_interaction method =
    let name = method_of method in
    name == "session/request_permission"
    || name == "x.ai/ask_user_question"
    || name == "x.ai/exit_plan_mode"
    || name == "x.ai/mcp/elicit"

module _ ⦃J : Json⦄ where
  open J use {Value, string, number, bool, array, object, field, as_str, is_object, to_string}
  open J use {deserialize, end}

  unfoldable pub parse_rpc_text : String → Result Value RpcError
  parse_rpc_text text = elim (deserialize text) [
    | none ↦ err invalid
    | some (value, rest) ↦
        if is_object value then (if end rest then ok value else err invalid) else err invalid
  ]

  unfoldable pub host_away_note : Bool → String
  host_away_note away = to_string (
      object (
        ("jsonrpc", string "2.0")
        ∷ ("method", string "aqualung/host_away")
        ∷ ("params", object (("away", bool away) ∷ []))
        ∷ []))

  unfoldable pub initialize_result : Value → String
  initialize_result id = to_string (
      object (
        ("jsonrpc", string "2.0")
        ∷ ("id", id)
        ∷ ("result", object (("protocolVersion", number (pos 1)) ∷ ("authMethods", array []) ∷ []))
        ∷ []))

  unfoldable pub follower_initialize : ℕ → String
  follower_initialize id = to_string (
      object (
        ("jsonrpc", string "2.0")
        ∷ ("id", number (pos id))
        ∷ ("method", string "initialize")
        ∷ (
          "params",
          object (("protocolVersion", number (pos 1)) ∷ ("clientCapabilities", object []) ∷ []),
        )
        ∷ []))

  unfoldable pub session_load : ℕ → String → String
  session_load id session = to_string (
      object (
        ("jsonrpc", string "2.0")
        ∷ ("id", number (pos id))
        ∷ ("method", string "session/load")
        ∷ ("params", object (("sessionId", string session) ∷ []))
        ∷ []))

  unfoldable pub rpc_error : Value → ℤ → String → String
  rpc_error id c message = to_string (
      object (
        ("jsonrpc", string "2.0")
        ∷ ("id", id)
        ∷ ("error", object (("code", number c) ∷ ("message", string message) ∷ []))
        ∷ []))

  -- One of the two places where a session id may stand.
  session_id_under : Value → String → Option String
  session_id_under obj part = do inner ← field obj part; id ← field inner "sessionId"; as_str id

  unfoldable pub session_id_in : Value → Option String
  unfolding session_id_under
  session_id_in obj = elim (session_id_under obj "params") [
    | some session ↦ some session
    | none ↦ session_id_under obj "result"
  ]
