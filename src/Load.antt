-- ===== src/Load.antt =====
-- middlesox/src/config.rs: `Config::load`. What reading the file, parsing the TOML and `Path::parent`
-- give are its arguments.
pub mod Laws
use Prim.Native.Char.{code}
use middlesox.Prelude.{
  String, Bool, false, not, ◌&&◌, Option, none, some, Result, ok, err, ◌>>=◌, ◌<>◌, nat_eq,
  if◌then◌else◌,
}
use middlesox.Config.{Config}
use middlesox.Paths.{is_absolute, join}

unfoldable pub starts_with_tilde : String → Bool
starts_with_tilde String.[] = false
starts_with_tilde (String.◌∷◌ c s) = nat_eq (code c) b'~'

abbrev resolved : Option String → String → String
resolved none dir = dir
resolved (some config_dir) dir = join config_dir dir

unfoldable pub resolve_scripts_dir : Option String → Config → Config
resolve_scripts_dir parent c =
    if not (is_absolute c.settings.scripts_dir) && not (starts_with_tilde c.settings.scripts_dir)
    then record c {
      settings = record (c.settings) { scripts_dir = resolved parent c.settings.scripts_dir };
    }
    else c

abbrev in_context : {A : Type 0} → Result A → String → Result A
in_context (ok a) message = ok a
in_context (err e) message = err message

unfoldable pub parse : (String → Result Config) → String → Result Config
parse from_toml content = in_context (from_toml content) "Failed to parse TOML config"

abbrev pub read_config :
    (String → Result String) → (String → Result Config) → String → Result Config
read_config read_file from_toml path =
    in_context (read_file path) ("Failed to read config file: " <> path) >>= parse from_toml

abbrev pub located : Option String → Result Config → Result Config
located parent m = m >>= λ c. ok (resolve_scripts_dir parent c)

unfoldable pub load :
    (String → Result String)
    → (String → Result Config)
    → (String → Option String)
    → String
    → Result Config
load read_file from_toml parent path = located (parent path) (read_config read_file from_toml path)
