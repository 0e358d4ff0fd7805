-- ===== src/Prelude/Parsing.antt =====
-- What `str` and `i64` offer to readers of lines: splitting and trimming.
use Prim.Native.Char.{Char, code}
use Prim.Native.Nat.{ℕ}
use Prim.Native.String.{String, [], ◌∷◌}
use mathlib.Core.Bool.{Bool, ◌&&◌, ◌||◌}
use mathlib.Core.Option.{Option, none, some}
use text.Mathlib.Text.{◌==◌}
use middlesox.Prelude.Tests.{if◌then◌else◌, leb, nat_eq}

abbrev push_left : Char → Option (String × String) → Option (String × String)
push_left c none = none
push_left c (some (l, r)) = some (c ∷ l, r)

-- `split_once` at a separator of one character.
unfoldable pub split_once : ℕ → String → Option (String × String)
split_once sep [] = none
split_once sep (c ∷ s) =
    let rest = split_once sep s in if nat_eq (code c) sep then some ("", s) else push_left c rest

abbrev after_char : ℕ → String → Option String
after_char x [] = none
after_char x (c ∷ s) = if nat_eq (code c) x then some s else none

abbrev split_at_arrow : Char → Option String → Option (String × String) → Option (String × String)
split_at_arrow c (some s) rest = if nat_eq (code c) b'>' then some ("", s) else push_left c rest
split_at_arrow c none rest = push_left c rest

-- `split_once(">>")`
unfoldable pub split_once_arrow : String → Option (String × String)
split_once_arrow [] = none
split_once_arrow (c ∷ s) = split_at_arrow c (after_char b'>' s) (split_once_arrow s)

-- `char::is_whitespace`: the property White_Space of Unicode.
abbrev is_whitespace : ℕ → Bool
is_whitespace c =
    (leb 9 c && leb c 13)
    || nat_eq c 32
    || nat_eq c 133
    || nat_eq c 160
    || nat_eq c 5760
    || (leb 8192 c && leb c 8202)
    || nat_eq c 8232
    || nat_eq c 8233
    || nat_eq c 8239
    || nat_eq c 8287
    || nat_eq c 12288

unfoldable pub trim_end : String → String
trim_end [] = ""
trim_end (c ∷ s) =
    let rest = trim_end s in if is_whitespace (code c) && rest == "" then "" else c ∷ rest

unfoldable pub trim_start : String → String
trim_start [] = ""
trim_start (c ∷ s) = let rest = trim_start s in if is_whitespace (code c) then rest else c ∷ s

unfoldable pub trim : String → String
unfolding trim_end trim_start
trim s = trim_end (trim_start s)
