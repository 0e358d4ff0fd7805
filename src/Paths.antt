-- ===== src/Paths.antt =====
-- `std::path::Path` on Unix, as the configuration and the controller use it: absolute paths, `join`
-- and `extension`. A path is a text.
use Prim.Native.Char.{Char, code}
use Prim.Native.String.{String, [], ◌∷◌}
use middlesox.Prelude.{
  ℕ, Bool, false, not, ◌||◌, Option, none, some, List, nat_eq, if◌then◌else◌, ◌==◌, ◌<>◌, filter,
  reverse,
}

unfoldable pub is_absolute : String → Bool
is_absolute [] = false
is_absolute (c ∷ s) = nat_eq (code c) b'/'

-- Whether `PathBuf::push` writes a separator after this text.
unfoldable pub needs_separator : String → Bool
needs_separator [] = false
needs_separator (c ∷ []) = not (nat_eq (code c) b'/')
needs_separator (c ∷ (d ∷ s)) = needs_separator (d ∷ s)

unfoldable pub join : String → String → String
unfolding is_absolute needs_separator
join base path =
    if is_absolute path
    then path
    else if needs_separator base
    then base <> ("/" <> path)
    else base <> path

abbrev push_head : Char → List String → List String
push_head c List.[] = List.◌∷◌ (c ∷ []) List.[]
push_head c (List.◌∷◌ x xs) = List.◌∷◌ (c ∷ x) xs

unfoldable pub split_on : ℕ → String → List String
split_on sep [] = List.◌∷◌ "" List.[]
split_on sep (c ∷ s) =
    let rest = split_on sep s in if nat_eq (code c) sep then List.◌∷◌ "" rest else push_head c rest

-- The last component that is neither empty nor ".", if it is not "..".
abbrev last_name : List String → Option String
last_name List.[] = none
last_name (List.◌∷◌ x xs) = if x == ".." then none else some x

unfoldable pub file_name : String → Option String
unfolding split_on
file_name path = last_name (reverse (filter (λ s. not (s == "" || s == ".")) (split_on b'/' path)))

-- What follows the last dot, if something stands before it.
abbrev after_dot : List String → Option String
after_dot List.[] = none
after_dot (List.◌∷◌ x List.[]) = none
after_dot (List.◌∷◌ x (List.◌∷◌ y List.[])) = if y == "" then none else some x
after_dot (List.◌∷◌ x (List.◌∷◌ y (List.◌∷◌ z rest))) = some x

abbrev extension_of : Option String → Option String
extension_of none = none
extension_of (some name) = after_dot (reverse (split_on b'.' name))

unfoldable pub extension : String → Option String
unfolding file_name split_on
extension path = extension_of (file_name path)

abbrev pub has_extension : String → String → Bool
has_extension ext path = elim (extension path) [ none ↦ false | some e ↦ e == ext ]
