-- ===== src/Cli/Backends.antt =====
-- middlesox-cli/src/main.rs: which adapter a configuration names, and where its sockets are.
pub mod Choice
use middlesox.Prelude.{
  String, Bool, Option, none, some, List, Result, ok, err, ◌>>=◌, ◌<>◌, ◌==◌, if◌then◌else◌, lookup,
}
use middlesox.Config.{TomlValue, text, other, AdapterConfig}
use middlesox.HyprlandIpc.{discover_socket_dir}

pub data Backend : Type 0 where
  mock mangowc : Backend
  hyprland : (socket_dir : String) → Backend
  socket : (cmd_socket event_socket : String) → Backend

abbrev pub Options : Type 0
Options = List (String × TomlValue)

-- `toml::Value::as_str`
abbrev pub as_str : Option TomlValue → Option String
as_str (some (text s)) = some s
as_str (some (other s)) = none
as_str none = none

abbrev pub from_base : Option String → Result (String × String)
from_base (some base) = ok (base <> ".sock", base <> "-events.sock")
from_base none =
    err "Socket adapter requires 'cmd_socket'+'event_socket' or 'base_path' in [adapter]"

abbrev pub paths : Option String → Option String → Option String → Result (String × String)
paths (some cmd) (some event) base = ok (cmd, event)
paths none event base = from_base base
paths (some cmd) none base = from_base base

unfoldable pub socket_paths_from_options : Options → Result (String × String)
unfolding lookup
socket_paths_from_options options =
    paths (as_str (lookup "cmd_socket" options)) (as_str (lookup "event_socket" options))
      (as_str (lookup "base_path" options))

abbrev pub hyprland_at : Option String → Result String → Result Backend
hyprland_at (some dir) discovered = ok (hyprland dir)
hyprland_at none discovered = discovered >>= λ dir. ok (hyprland dir)

abbrev pub socket_at : Result (String × String) → Result Backend
socket_at sockets = sockets >>= λ (cmd, event). ok (socket cmd event)

-- The `match` on the name, with what the branches of the last two adapters give.
abbrev pub named : String → Result Backend → Result Backend → Result Backend
named name for_hyprland for_socket =
    if name == "mock"
    then ok mock
    else if name == "mangowc"
    then ok mangowc
    else if name == "hyprland"
    then for_hyprland
    else if name == "socket"
    then for_socket
    else err ("Unknown adapter: '" <> name <> "'")

-- The variables of the environment, and which paths exist, are for the discovery of Hyprland.
unfoldable pub create_backend_from_config :
    (String → Option String) → (String → Bool) → AdapterConfig → Result Backend
unfolding socket_paths_from_options lookup discover_socket_dir
create_backend_from_config var exists adapter =
    named adapter.name
      (hyprland_at (as_str (lookup "socket_dir" adapter.options)) (discover_socket_dir var exists))
      (socket_at (socket_paths_from_options adapter.options))
