-- ===== src/Json.antt =====
-- serde_json's `Value`, as the program uses it: `as_i64`, `as_str`, `get`, `==`, `json!`.
-- A float is its 64 bits, so `f64` equality is stated on the bits. An object stands in the order of
-- its keys, as in the `BTreeMap` behind serde_json's `Map`.
pub mod Laws
use Prim.Native.Nat.{compare, Ordering}
use Prim.Native.String
use middlesox.Prelude.{
  ℕ, suc, ◌+◌, ◌-◌, ◌*◌, ◌%◌, ◌/◌, ◌^◌, String, Bool, true, false, ◌&&◌, ◌||◌, not, Option, none,
  some, List, [], ◌∷◌, ◌==◌, leb, ltb, nat_eq, bool_eq, if◌then◌else◌, ℤ, pos, negsuc, i64_max,
}

-- `pos_int n` is a `u64`, `neg_int n` the `i64` -(n + 1), `float b` the `f64` with the bits `b`.
pub data Number : Type 0 where
  pos_int : ℕ → Number
  neg_int : ℕ → Number
  float : ℕ → Number

mutual
  pub data Value : Type 0 where
    null : Value
    bool : Bool → Value
    number : Number → Value
    string : String → Value
    array : Items → Value
    object : Fields → Value

  pub data Items : Type 0 where
    nil : Items
    cons : (first : Value) (others : Items) → Items

  pub data Fields : Type 0 where
    end : Fields
    field : (key : String) (value : Value) (others : Fields) → Fields

abbrev pub items : Items → List Value
items nil = []
items (cons v vs) = v ∷ items vs

abbrev pub fields : Fields → List (String × Value)
fields end = []
fields (field k v fs) = (k, v) ∷ fields fs

abbrev pub to_items : List Value → Items
to_items [] = nil
to_items (v ∷ vs) = cons v (to_items vs)

-- `f64 == f64`: NaN equals nothing, and the two zeros are equal.
abbrev is_nan : ℕ → Bool
is_nan b = ltb (0x7FF * 2 ^ 52) (b % 2 ^ 63)

abbrev pub float_eq : ℕ → ℕ → Bool
float_eq a b =
    not (is_nan a)
    && not (is_nan b)
    && (nat_eq a b || (nat_eq (a % 2 ^ 63) 0 && nat_eq (b % 2 ^ 63) 0))

unfoldable pub number_eq : Number → Number → Bool
number_eq (pos_int a) (pos_int b) = nat_eq a b
number_eq (neg_int a) (neg_int b) = nat_eq a b
number_eq (float a) (float b) = float_eq a b
number_eq _ _ = false

-- `Value == Value`
unfoldable mutual
  pub value_eq : Value → Value → Bool
  value_eq null null = true
  value_eq (bool a) (bool b) = bool_eq a b
  value_eq (number a) (number b) = number_eq a b
  value_eq (string a) (string b) = a == b
  value_eq (array a) (array b) = items_eq a b
  value_eq (object a) (object b) = fields_eq a b
  value_eq _ _ = false

  pub items_eq : Items → Items → Bool
  items_eq nil nil = true
  items_eq (cons v vs) (cons w ws) = value_eq v w && items_eq vs ws
  items_eq _ _ = false

  pub fields_eq : Fields → Fields → Bool
  fields_eq end end = true
  fields_eq (field j v fs) (field k w gs) = j == k && value_eq v w && fields_eq fs gs
  fields_eq _ _ = false

abbrev pub number_as_i64 : Number → Option ℤ
number_as_i64 (pos_int n) = if leb n i64_max then some (pos n) else none
number_as_i64 (neg_int n) = some (negsuc n)
number_as_i64 (float b) = none

abbrev pub as_i64 : Value → Option ℤ
as_i64 (number n) = number_as_i64 n
as_i64 _ = none

abbrev pub as_u64 : Value → Option ℕ
as_u64 (number (pos_int n)) = some n
as_u64 _ = none

abbrev pub as_str : Value → Option String
as_str (string s) = some s
as_str _ = none

abbrev pub as_bool : Value → Option Bool
as_bool (bool b) = some b
as_bool _ = none

abbrev pub as_array : Value → Option (List Value)
as_array (array vs) = some (items vs)
as_array _ = none

abbrev pub as_object : Value → Option (List (String × Value))
as_object (object fs) = some (fields fs)
as_object _ = none

-- `Value::from` of an `i64`.
abbrev pub from_i64 : ℤ → Value
from_i64 (pos n) = number (pos_int n)
from_i64 (negsuc n) = number (neg_int n)

-- `Value::from` of a `u32` or `u64`.
abbrev pub from_u64 : ℕ → Value
from_u64 n = number (pos_int n)

-- `Map::insert`, which keeps the order of the keys.
unfoldable pub insert_field : String → Value → Fields → Fields
insert_field k v end = field k v end
insert_field k v (field j w fs) =
    let later = field j w (insert_field k v fs) in
    elim (String.compare k j) [
      | Ordering.lt ↦ field k v (field j w fs)
      | Ordering.eq ↦ field k v fs
      | Ordering.gt ↦ later
    ]

unfoldable pub to_fields : List (String × Value) → Fields
to_fields [] = end
to_fields ((k, v) ∷ kvs) = insert_field k v (to_fields kvs)

-- `json!({ "k": v, … })`
abbrev pub json_object : List (String × Value) → Value
json_object kvs = object (to_fields kvs)

-- `value["key"]`, which is null where there is no such key or no object.
unfoldable pub index : Value → String → Value
index (object end) k = null
index (object (field j v fs)) k = if j == k then v else index (object fs) k
index _ k = null
