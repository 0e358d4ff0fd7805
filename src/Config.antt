-- ===== src/Config.antt =====
-- middlesox/src/config.rs: the configuration, the watches and their conditions. The TOML parser is
-- code of another crate; what it returns is the argument of `load` (Config/Load).

pub mod Matching
pub mod Subscriptions
use middlesox.Prelude.{
  String, Bool, true, false, ◌&&◌, Option, none, some, List, [], ◌∷◌, map, ◌==◌, contains, filter,
  find, is_empty, if◌then◌else◌, lookup,
}
use middlesox.Json.{Value, value_eq}
use middlesox.Event.{State}

pub record Settings : Type 0 where
  pub scripts_dir : String
  pub log_level : String
  pub script_env : List (String × String)

-- `toml::Value`, of which the program reads texts only.
pub data TomlValue : Type 0 where
  text other : String → TomlValue

pub record AdapterConfig : Type 0 where
  pub name : String
  pub options : List (String × TomlValue)

pub record Watch : Type 0 where
  pub event : String
  pub exec : String
  pub prev : State
  pub curr : State
  pub description : Option String
  pub enabled : Bool

pub record Command : Type 0 where
  pub name : String
  pub script : String
  pub description : Option String

pub record Config : Type 0 where
  pub settings : Settings
  pub adapter : AdapterConfig
  pub watch : List Watch
  pub command : List Command

abbrev pub default_adapter_name : String
default_adapter_name = "mock"

unfoldable pub default_adapter : AdapterConfig
default_adapter = record { name = default_adapter_name; options = [] }

abbrev pub default_log_level : String
default_log_level = "info"

abbrev wanted : String → Watch → Bool
wanted event_name w = w.enabled && w.event == event_name

unfoldable pub watches_for_event : Config → String → List Watch
watches_for_event c event_name = filter (wanted event_name) c.watch

unfoldable pub command_by_name : Config → String → Option Command
command_by_name c name = find (λ cmd. cmd.name == name) c.command

-- `collect` into a `HashSet`: a text stands once.
unfoldable pub to_set : List String → List String
to_set [] = []
to_set (x ∷ xs) = let rest = to_set xs in if contains rest x then rest else x ∷ rest

unfoldable pub subscribed_events : Config → List String
unfolding to_set
subscribed_events c = to_set (map (λ w. w.event) (filter (λ w. w.enabled) c.watch))

-- One of the two loops of `matches`: every condition is met by the state.
abbrev met : Option Value → Value → Bool
met (some actual) expected = value_eq actual expected
met none expected = false

unfoldable pub conditions_hold : State → State → Bool
conditions_hold state [] = true
conditions_hold state ((key, expected) ∷ more) =
    let rest = conditions_hold state more in if met (lookup key state) expected then rest else false

unfoldable pub matches : Watch → State → State → Bool
unfolding conditions_hold
matches w prev_state curr_state =
    let rest = conditions_hold curr_state w.curr in
    if conditions_hold prev_state w.prev then rest else false

-- `default_config`, where `scripts_dir` is what `default_scripts_dir` finds.
unfoldable pub default_config : String → Config
unfolding default_adapter
default_config scripts_dir = record {
  settings = record { scripts_dir = scripts_dir; log_level = default_log_level; script_env = [] };
  adapter = default_adapter;
  watch =
      record {
        event = "workspace_change";
        exec = "on_workspace_change.rhai";
        prev = [];
        curr = [];
        description = some "Called when workspace changes";
        enabled = true;
      }
      ∷ [];
  command = [];
}
