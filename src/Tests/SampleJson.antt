-- ===== src/Tests/SampleJson.antt =====
-- A small JSON library for the examples. Its texts have no escapes, and it reads the texts of a
-- table.
use Prim.Native.String.{◌++◌ as str_append}
use aqualung.Common.{
  ℕ, suc, String, ◌≡◌, refl, ◌↔◌, Bool, true, false, Option, none, some, List, [], ◌∷◌, Eq, ◌==◌,
  nat_eq, string_eq, ℤ, pos, negsuc, if◌then◌else◌, arith, ==_iff, ◌&&◌,
}
use aqualung.Common.Decimal.{decimal}
use aqualung.Json.{Json}

-- A leaf has a tag, a text and a number; an object's entries, and an array's items, stand in front
-- of the leaf that ends it.
pub data Value : Type 0 where
  leaf : ℕ → String → ℕ → Value
  entry : String → Value → Value → Value
  item : Value → Value → Value

abbrev pub null : Value
null = leaf 0 "" 0

abbrev pub string : String → Value
string s = leaf 1 s 0

abbrev pub number : ℤ → Value
number (pos n) = leaf 2 "" n
number (negsuc n) = leaf 3 "" n

abbrev pub bool : Bool → Value
bool false = leaf 4 "" 0
bool true = leaf 4 "" 1

abbrev pub array : List Value → Value
array [] = leaf 5 "" 0
array (v ∷ vs) = item v (array vs)

abbrev pub object : List (String × Value) → Value
object [] = leaf 6 "" 0
object ((k, v) ∷ fs) = entry k v (object fs)

abbrev pub value_beq : Value → Value → Bool
value_beq (leaf a s m) (leaf b t n) = (a == b) && (s == t) && (m == n)
value_beq (leaf a s m) (entry k v rest) = false
value_beq (leaf a s m) (item v rest) = false
value_beq (entry k v rest) (leaf b t n) = false
value_beq (entry k v rest) (entry j w last) = (k == j) && value_beq v w && value_beq rest last
value_beq (entry k v rest) (item w last) = false
value_beq (item v rest) (leaf b t n) = false
value_beq (item v rest) (entry j w last) = false
value_beq (item v rest) (item w last) = value_beq v w && value_beq rest last

pub value_beq_iff : (v w : Value) → (value_beq v w ≡ true) ↔ (v ≡ w)
value_beq_iff (leaf a s m) (leaf b t n) = ground (arith, ==_iff a b, ==_iff s t, ==_iff m n)
value_beq_iff (leaf a s m) (entry k v rest) = ground arith
value_beq_iff (leaf a s m) (item v rest) = ground arith
value_beq_iff (entry k v rest) (leaf b t n) = ground arith
value_beq_iff (entry k v rest) (entry j w last) =
    ground (arith, ==_iff k j, value_beq_iff v w, value_beq_iff rest last)
value_beq_iff (entry k v rest) (item w last) = ground arith
value_beq_iff (item v rest) (leaf b t n) = ground arith
value_beq_iff (item v rest) (entry j w last) = ground arith
value_beq_iff (item v rest) (item w last) =
    ground (arith, value_beq_iff v w, value_beq_iff rest last)

instance abbrev pub value_eq : Eq Value
value_eq = record { beq = value_beq; beq_iff = value_beq_iff }

abbrev pub field : Value → String → Option Value
field (leaf _ _ _) j = none
field (entry k v rest) j = if k == j then some v else field rest j
field (item _ _) j = none

abbrev pub set_field : Value → String → Value → Value
set_field (leaf a s n) k x = entry k x (leaf 6 "" 0)
set_field (entry j v rest) k x = if j == k then entry j x rest else entry j v (set_field rest k x)
set_field (item v rest) k x = item v rest

abbrev pub as_str : Value → Option String
as_str (leaf a s n) = if a == 1 then some s else none
as_str (entry _ _ _) = none
as_str (item _ _) = none

abbrev pub as_u64 : Value → Option ℕ
as_u64 (leaf a s n) = if a == 2 then some n else none
as_u64 (entry _ _ _) = none
as_u64 (item _ _) = none

abbrev pub is_object : Value → Bool
is_object (leaf a s n) = a == 6
is_object (entry _ _ rest) = is_object rest
is_object (item _ _) = false

pub field-set_field :
    (v x : Value) (k j : String)
    → is_object v ≡ true
    → field (set_field v k x) j ≡ (if k == j then some x else field v j)
field-set_field (leaf a s n) x k j o = refl
field-set_field (entry i v rest) x k j o =
    ground (arith, ==_iff k j, ==_iff i k, ==_iff i j, field-set_field rest x k j o)
field-set_field (item v rest) x k j o = cc

pub is_object-set_field :
    (v x : Value) (k : String) → is_object v ≡ true → is_object (set_field v k x) ≡ true
is_object-set_field (leaf a s n) x k o = refl
is_object-set_field (entry i v rest) x k o = ground (arith, is_object-set_field rest x k o)
is_object-set_field (item v rest) x k o = cc

-- The text of a leaf, by its tag.
abbrev pub leaf_text : ℕ → String → ℕ → String
leaf_text a s n =
    if a == 0
    then "null"
    else if a == 1
    then str_append "\"" (str_append s "\"")
    else if a == 2
    then decimal n
    else if a == 3
    then str_append "-" (decimal (suc n))
    else if a == 4
    then (if n == 0 then "false" else "true")
    else if a == 5
    then "]"
    else "}"

abbrev pub to_string : Value → String
to_string (leaf a s n) = leaf_text a s n
to_string (entry k v rest) =
    str_append "{\"" (str_append k (str_append "\":" (str_append (to_string v) (to_string rest))))
to_string (item v rest) = str_append "[" (str_append (to_string v) (to_string rest))

-- The library with a table of texts.
abbrev pub sample : (String → Option (Value × String)) → Json
sample table = record {
  Value = Value;
  value_eq = value_eq;
  null = null;
  string = string;
  number = number;
  bool = bool;
  array = array;
  object = object;
  field = field;
  set_field = set_field;
  as_str = as_str;
  as_u64 = as_u64;
  is_object = is_object;
  to_string = to_string;
  deserialize = table;
  end = λ rest. rest == "";
  field-set_field = field-set_field;
  is_object-set_field = is_object-set_field;
  as_u64-number = λ n small. refl;
  as_str-string = λ s. refl;
  field-object_nil = λ j. refl;
  field-object = λ k j x fs absent. refl;
}
