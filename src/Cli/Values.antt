-- ===== src/Cli/Values.antt =====
-- middlesox-cli/src/main.rs: how the value of `msx set` is read.
use middlesox.Prelude.{
  ℕ, String, true, false, Option, none, some, if◌then◌else◌, parse_i64, show_i64, ℤ, IsI64,
  parse_i64-show_i64, ◌≡◌, ◌⊎◌, inl, inr, refl, ap, ◌∙◌,
}
use middlesox.Json.{Value, bool, string, number, float, from_i64}
use middlesox.Engine.{is_finite}
use middlesox.Socket.Capabilities.{lower_is}

-- What serde_json reads from a text, and the bits of `str::parse::<f64>`.
pub record Readers : Type 0 where
  pub from_json : String → Option Value
  pub parse_f64 : String → Option ℕ

abbrev word_value : String → Value
word_value s =
    if lower_is s "true" then bool true else if lower_is s "false" then bool false else string s

abbrev float_value : Option ℕ → String → Value
float_value none s = word_value s
float_value (some b) s = if is_finite b then number (float b) else word_value s

abbrev integer_value : Option ℤ → Option ℕ → String → Value
integer_value (some z) f s = from_i64 z
integer_value none f s = float_value f s

abbrev json_value : Option Value → Option ℤ → Option ℕ → String → Value
json_value (some v) z f s = v
json_value none z f s = integer_value z f s

unfoldable pub parse_value : Readers → String → Value
unfolding lower_is parse_i64
parse_value r s = json_value (r.from_json s) (parse_i64 s) (r.parse_f64 s) s

json_value-show_i64 :
    (m : Option Value) (z : ℤ) (f : Option ℕ) (s : String)
    → (m ≡ some (from_i64 z)) ⊎ (m ≡ none)
    → json_value m (some z) f s ≡ from_i64 z
json_value-show_i64 (some v) z f s (inl h) = cc
json_value-show_i64 none z f s (inl h) = cc
json_value-show_i64 m z f s (inr h) = rw h refl

-- The decimal text of an integer of 64 bits is read as that integer, if serde_json reads it so or
-- refuses it.
pub parse_value-show_i64 :
    (r : Readers) (z : ℤ)
    → IsI64 z
    → (r.from_json (show_i64 z) ≡ some (from_i64 z)) ⊎ (r.from_json (show_i64 z) ≡ none)
    → parse_value r (show_i64 z) ≡ from_i64 z
unfolding parse_value
parse_value-show_i64 r z fits h =
    ap (λ m. json_value (r.from_json (show_i64 z)) m (r.parse_f64 (show_i64 z)) (show_i64 z))
      (parse_i64-show_i64 z fits)
    ∙ json_value-show_i64 (r.from_json (show_i64 z)) z (r.parse_f64 (show_i64 z)) (show_i64 z) h
