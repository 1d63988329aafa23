-- ===== src/Json.antt =====
-- The JSON library (`serde_json::Value`) as the program uses it: an interface, whose laws are what
-- that library documents. Each module takes it as an instance argument.
use aqualung.Common.{
  ℕ, ◌<◌, ◌^◌, String, ◌≡◌, Bool, true, Option, none, some, List, [], ◌∷◌, Eq, ◌==◌, string_eq, ℤ,
  pos, if◌then◌else◌,
}

pub record Json : Type 1 where
  pub Value : Type 0
  -- `==` of `Value`
  pub value_eq : Eq Value
  -- `Value::Null`, `Value::String`, `Value::from` of an integer and of a Boolean
  pub null : Value
  pub string : String → Value
  pub number : ℤ → Value
  pub bool : Bool → Value
  -- `json!([...])` and `json!({...})`
  pub array : List Value → Value
  pub object : List (String × Value) → Value
  -- `value.get(key)`, and `value[key] = x`
  pub field : Value → String → Option Value
  pub set_field : Value → String → Value → Value
  pub as_str : Value → Option String
  pub as_u64 : Value → Option ℕ
  pub is_object : Value → Bool
  pub to_string : Value → String
  -- `Value::deserialize` on a text: the value and the text behind it. `end` is the parser's test
  -- that nothing but blanks is left.
  pub deserialize : String → Option (Value × String)
  pub end : String → Bool
  pub field-set_field :
      (v x : Value) (k j : String)
      → is_object v ≡ true
      → field (set_field v k x) j ≡ (if k == j then some x else field v j)
  pub is_object-set_field :
      (v x : Value) (k : String) → is_object v ≡ true → is_object (set_field v k x) ≡ true
  pub as_u64-number : (n : ℕ) → n < 2 ^ 64 → as_u64 (number (pos n)) ≡ some n
  pub as_str-string : (s : String) → as_str (string s) ≡ some s
  pub field-object_nil : (j : String) → field (object []) j ≡ none
  pub field-object :
      (k j : String) (x : Value) (fs : List (String × Value))
      → field (object fs) k ≡ none
      → field (object ((k, x) ∷ fs)) j ≡ (if k == j then some x else field (object fs) j)
