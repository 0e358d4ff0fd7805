-- ===== src/Engine/Convert.antt =====
-- Values that go into a script and come back.
use middlesox.Prelude.{◌≤◌, ◌≡◌, refl, ap, ap₂, true, arith, i64_max}
use middlesox.Json.{
  Number, pos_int, neg_int, float, Value, null, bool, number, string, array, object, Items, nil,
  cons, Fields, end, field,
}
use middlesox.Engine.{
  number_to_dynamic, json_to_dynamic, items_to_dynamics, fields_to_entries, is_finite,
  dynamic_to_json, dynamics_to_items, entries_to_fields,
}

-- Every unsigned number fits an `i64`, and every float is finite.
abbrev pub NumberFits : Number → Type 0
NumberFits (pos_int n) = n ≤ i64_max
NumberFits (neg_int n) = Unit
NumberFits (float b) = is_finite b ≡ true

unfoldable mutual
  pub Fits : Value → Type 0
  Fits (number n) = NumberFits n
  Fits (array vs) = ItemsFit vs
  Fits (object fs) = FieldsFit fs
  Fits _ = Unit

  pub ItemsFit : Items → Type 0
  ItemsFit nil = Unit
  ItemsFit (cons v vs) = Fits v × ItemsFit vs

  pub FieldsFit : Fields → Type 0
  FieldsFit end = Unit
  FieldsFit (field k v fs) = Fits v × FieldsFit fs

number_back : (n : Number) → NumberFits n → dynamic_to_json (number_to_dynamic n) ≡ number n
unfolding dynamic_to_json number_to_dynamic
number_back (pos_int n) h = ground arith
number_back (neg_int n) h = refl
number_back (float b) h = ground arith

mutual
  unfolding json_to_dynamic dynamic_to_json Fits

  value_back : (v : Value) → Fits v → dynamic_to_json (json_to_dynamic v) ≡ v
  value_back null h = refl
  value_back (bool b) h = refl
  value_back (number n) h = number_back n h
  value_back (string s) h = refl
  value_back (array vs) h = ap array (items_back vs h)
  value_back (object fs) h = ap object (fields_back fs h)

  items_back : (vs : Items) → ItemsFit vs → dynamics_to_items (items_to_dynamics vs) ≡ vs
  items_back nil h = refl
  items_back (cons v vs) h = ap₂ cons (value_back v h.0) (items_back vs h.1)

  fields_back : (fs : Fields) → FieldsFit fs → entries_to_fields (fields_to_entries fs) ≡ fs
  fields_back end h = refl
  fields_back (field k v fs) h = ap₂ (field k) (value_back v h.0) (fields_back fs h.1)

-- A value that a script reads with `get` and hands back to `set` unchanged is the same JSON value,
-- if its unsigned numbers fit an `i64` and its floats are finite.
pub dynamic_to_json-json_to_dynamic : (v : Value) → Fits v → dynamic_to_json (json_to_dynamic v) ≡ v
dynamic_to_json-json_to_dynamic v h = value_back v h
