-- ===== src/Json/Laws.antt =====
-- Equality of `Value`s.
use middlesox.Prelude.{◌≡◌, refl, true, false, arith, eq_refl}
use middlesox.Json.{
  Number, pos_int, neg_int, float, Value, null, bool, number, string, array, object, Items, nil,
  cons, Fields, end, field, is_nan, number_eq, value_eq, items_eq, fields_eq,
}

-- No number in the value is NaN, as serde_json sees to.
abbrev pub IsNumber : Number → Type 0
IsNumber (float b) = is_nan b ≡ false
IsNumber _ = Unit

mutual
  pub IsFinite : Value → Type 0
  IsFinite (number n) = IsNumber n
  IsFinite (array vs) = AreFinite vs
  IsFinite (object fs) = HasFinite fs
  IsFinite _ = Unit

  pub AreFinite : Items → Type 0
  AreFinite nil = Unit
  AreFinite (cons v vs) = IsFinite v × AreFinite vs

  pub HasFinite : Fields → Type 0
  HasFinite end = Unit
  HasFinite (field k v fs) = IsFinite v × HasFinite fs

number_eq_refl : (n : Number) → IsNumber n → number_eq n n ≡ true
unfolding number_eq
number_eq_refl (pos_int n) h = ground arith
number_eq_refl (neg_int n) h = ground arith
number_eq_refl (float b) h = ground arith

mutual
  unfolding value_eq IsFinite

  value_refl : (v : Value) → IsFinite v → value_eq v v ≡ true
  value_refl null h = refl
  value_refl (bool b) h = ground arith
  value_refl (number n) h = number_eq_refl n h
  value_refl (string s) h = eq_refl s
  value_refl (array vs) h = items_refl vs h
  value_refl (object fs) h = fields_refl fs h

  items_refl : (vs : Items) → AreFinite vs → items_eq vs vs ≡ true
  items_refl nil h = refl
  items_refl (cons v vs) h = rw (value_refl v h.0) (items_refl vs h.1)

  fields_refl : (fs : Fields) → HasFinite fs → fields_eq fs fs ≡ true
  fields_refl end h = refl
  fields_refl (field k v fs) h = rw (eq_refl k, value_refl v h.0) (fields_refl fs h.1)

pub value_eq_refl : (v : Value) → IsFinite v → value_eq v v ≡ true
value_eq_refl v h = value_refl v h
