-- ===== src/Mangowc/Values.antt =====
-- mangowc/src/lib.rs: the values of `set` for tags and layouts.
use Prim.Native.Char.{code}
use middlesox.Prelude.{
  ℕ, ◌+◌, String, Bool, true, false, ◌&&◌, ◌||◌, Option, none, some, List, Result, ok, err, ◌>>=◌,
  ok_or, ◌<>◌, if◌then◌else◌, leb, nat_eq, u32_max, lookup,
}
use middlesox.Json.{Value, as_u64, as_bool, as_object}
use middlesox.Mangowc.{layout_code_to_name}

abbrev lower : ℕ → ℕ
lower c = if leb b'A' c && leb c b'Z' then c + 32 else c

-- `eq_ignore_ascii_case`
unfoldable pub eq_ignore_ascii_case : String → String → Bool
eq_ignore_ascii_case String.[] String.[] = true
eq_ignore_ascii_case String.[] (String.◌∷◌ d t) = false
eq_ignore_ascii_case (String.◌∷◌ c s) String.[] = false
eq_ignore_ascii_case (String.◌∷◌ c s) (String.◌∷◌ d t) =
    let rest = eq_ignore_ascii_case s t in
    if nat_eq (lower (code c)) (lower (code d)) then rest else false

unfoldable pub layout_matches : String → String → Bool
unfolding eq_ignore_ascii_case layout_code_to_name
layout_matches layout_code requested =
    eq_ignore_ascii_case layout_code requested
    || eq_ignore_ascii_case (layout_code_to_name layout_code) requested
    || eq_ignore_ascii_case (layout_code_to_name layout_code) (layout_code_to_name requested)

unfoldable pub value_as_u32 : Value → String → Result ℕ
value_as_u32 v name = do
  raw ← ok_or (as_u64 v) (name <> " must be an unsigned integer")
  if leb raw u32_max then ok raw else err (name <> " must fit in u32")

abbrev pub or_else : {A : Type 0} → Option A → Option A → Option A
or_else none b = b
or_else (some a) b = some a

abbrev pub flag : Option Value → Bool
flag none = false
flag (some v) = elim (as_bool v) [ none ↦ false | some b ↦ b ]

abbrev pub tags_object : List (String × Value) → Result (ℕ × Bool)
tags_object object = do
  tag_value ←
      ok_or (or_else (lookup "tagmask" object) (lookup "tags" object))
        "tags object must include tagmask or tags"
  mask ← value_as_u32 tag_value "tagmask"
  ok (mask, flag (lookup "toggle" object))

abbrev pub is_u64 : Value → Bool
is_u64 v = elim (as_u64 v) [ none ↦ false | some n ↦ true ]

-- The mask, and whether it is toggled.
unfoldable pub parse_tags_value : Value → Result (ℕ × Bool)
unfolding value_as_u32 lookup
parse_tags_value v =
    if is_u64 v
    then (value_as_u32 v "tags" >>= λ mask. ok (mask, false))
    else (ok_or (as_object v) "tags must be a number or object" >>= tags_object)

abbrev pub client_part : String → List (String × Value) → Result ℕ
client_part key object = do
  v ← ok_or (lookup key object) "client_tags object must include tags or and_tags/xor_tags"
  value_as_u32 v key

abbrev pub client_tags_object : Option Value → List (String × Value) → Result (ℕ × ℕ)
client_tags_object (some tags) object =
    value_as_u32 tags "client_tags.tags" >>= λ mask. ok (0, mask)
client_tags_object none object = do
  and_tags ← client_part "and_tags" object
  xor_tags ← client_part "xor_tags" object
  ok (and_tags, xor_tags)

unfoldable pub parse_client_tags_value : Value → Result (ℕ × ℕ)
unfolding value_as_u32 lookup
parse_client_tags_value v =
    if is_u64 v
    then (value_as_u32 v "client_tags" >>= λ mask. ok (0, mask))
    else (ok_or (as_object v) "client_tags must be a number or object" >>= λ object.
        client_tags_object (lookup "tags" object) object)
