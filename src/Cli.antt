-- ===== src/Cli.antt =====
-- middlesox-cli/src/main.rs: the program `msx`. The modules below are the values of `set`, the choice of
-- the adapter, the commands of a client, and the start of the daemon.
pub mod Values
pub mod Backends
pub mod Commands
pub mod EndToEnd
pub mod Startup
pub mod Locations
use Prim.Native.Char.{code}
use middlesox.Prelude.{
  String, Bool, true, false, Option, none, some, List, [], ◌∷◌, find, nat_eq, if◌then◌else◌,
}
use middlesox.Paths.{join}

-- `dirs::config_dir()` joined with the name, an empty path where there is none.
abbrev user_config : Option String → String
user_config none = ""
user_config (some dir) = join dir "middlesox/config.toml"

-- The file in the working directory comes before the user's, and that before the system's.
unfoldable pub find_config_path : (String → Bool) → Option String → Option String
unfolding join
find_config_path exists config_dir =
    find exists ("./middlesox.toml" ∷ user_config config_dir ∷ "/etc/middlesox/config.toml" ∷ [])

-- What follows `~/`.
abbrev pub after_tilde : String → Option String
after_tilde String.[] = none
after_tilde (String.◌∷◌ c String.[]) = none
after_tilde (String.◌∷◌ c (String.◌∷◌ d rest)) =
    if nat_eq (code c) b'~' then if nat_eq (code d) b'/' then some rest else none else none

abbrev pub at_home : Option String → Option String → String → String
at_home none home path = path
at_home (some rest) none path = path
at_home (some rest) (some dir) path = join dir rest

unfoldable pub expand_path : Option String → String → String
unfolding join
expand_path home path = at_home (after_tilde path) home path
