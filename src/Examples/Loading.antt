-- ===== src/Examples/Loading.antt =====
-- Tests of where scripts are looked for.
use middlesox.Prelude.{String, Option, some, Result, ok, ◌≡◌, refl}
use middlesox.Config.{Config}
use middlesox.Paths.{is_absolute, join, needs_separator}
use middlesox.Load.{resolve_scripts_dir, starts_with_tilde}
use middlesox.Examples.Data.{config}

abbrev pub read_config_file : String → Result String
read_config_file path = ok "[settings]"

abbrev from_toml : String → Result Config
from_toml text = ok config

abbrev pub parent_dir : String → Option String
parent_dir path = some "/etc/msx"

abbrev pub relative : Config
relative = record config { settings = record (config.settings) { scripts_dir = "scripts" } }

load_relative :
    resolve_scripts_dir (some "/etc/msx") relative
    ≡ record relative { settings = record (config.settings) { scripts_dir = "/etc/msx/scripts" } }
unfolding resolve_scripts_dir is_absolute starts_with_tilde join needs_separator
load_relative = refl

abbrev pub loaded : Config
loaded = resolve_scripts_dir (some "/etc/msx") relative
