-- ===== src/Controller.antt =====
-- middlesox/src/controller.rs: events are handed to the watches, control requests are answered.
pub mod Events
pub mod Guarded
pub mod Reach
pub mod Requests
use middlesox.Prelude.{
  ℕ, String, Bool, true, false, ◌&&◌, ◌||◌, Option, none, some, List, [], ◌∷◌, map, Result, ok, err,
  ◌<>◌, is_empty, if◌then◌else◌,
}
use middlesox.Json.{Value, null, bool, string, array, json_object, to_items, from_u64}
use middlesox.Capability.{AccessMode, Capability, is_writable}
use middlesox.Manifest.{CapabilityManifest, find_cap}
use middlesox.Event.{State, RawEvent, state_or_default}
use middlesox.Config.{Watch, Command, Config, watches_for_event, command_by_name, matches}
use middlesox.Control.{ControlRequest, ControlResponse, respond_ok, respond_empty, respond_err}
use middlesox.Adapter.{ProtocolAdapter}
use middlesox.Handle.{Actor, Input, call_get, call_set, call_manifest}
use middlesox.Scripts.{Host, Launch, run_script, execute_script}

abbrev should_run : Watch → State → State → Bool
should_run w prev curr = (is_empty w.prev && is_empty w.curr) || matches w prev curr

-- The loop over the watches, which names the scripts to run in order.
unfoldable pub triggered : List Watch → State → State → List String
triggered [] prev curr = []
triggered (w ∷ ws) prev curr =
    let rest = triggered ws prev curr in if should_run w prev curr then w.exec ∷ rest else rest

unfoldable pub triggered_by : Config → RawEvent → List String
unfolding triggered
triggered_by c e =
    triggered (watches_for_event c e.name) (state_or_default e.prev) (state_or_default e.curr)

-- `Option` and text as JSON.
abbrev text_or_null : Option String → Value
text_or_null none = null
text_or_null (some s) = string s

-- `format!("{:?}", access)`
abbrev access_text : AccessMode → String
access_text AccessMode.read_only = "ReadOnly"
access_text AccessMode.read_write = "ReadWrite"

abbrev pub cap_json : Capability → Value
cap_json c = json_object (
    ("name", string c.name)
    ∷ ("access", string (access_text c.access))
    ∷ ("description", text_or_null c.description)
    ∷ [])

abbrev pub command_json : Command → Value
command_json c = json_object (
    ("name", string c.name)
    ∷ ("description", text_or_null c.description)
    ∷ ("script", string c.script)
    ∷ [])

abbrev pub key_check : String → Option Capability → Result (Unit {0})
key_check key none = err ("unknown key: " <> key)
key_check key (some cap) = if is_writable cap then ok tt else err ("read-only key: " <> key)

module _ {S : Type 0} where
  abbrev pub manifest_check :
      String → Result CapabilityManifest × Actor S → Result (Unit {0}) × Actor S
  manifest_check key (err e, s) = (err e, s)
  manifest_check key (ok m, s) = (key_check key (find_cap m key), s)

  abbrev pub value_response : Result Value × Actor S → ControlResponse × Actor S
  value_response (ok v, s) = (respond_ok v, s)
  value_response (err e, s) = (respond_err e, s)

  abbrev pub empty_response : Result (Unit {0}) × Actor S → ControlResponse × Actor S
  empty_response (ok u, s) = (respond_empty, s)
  empty_response (err e, s) = (respond_err e, s)

  abbrev pub script_response : Result (Option String) × Actor S → ControlResponse × Actor S
  script_response (ok none, s) = (respond_empty, s)
  script_response (ok (some out), s) = (respond_ok (string out), s)
  script_response (err e, s) = (respond_err e, s)

  abbrev pub caps_response : Result CapabilityManifest × Actor S → ControlResponse × Actor S
  caps_response (err e, s) = (respond_err e, s)
  caps_response (ok m, s) = (respond_ok (array (to_items (map cap_json m.capabilities))), s)

module _ {S : Type 0} (a : ProtocolAdapter S) where
  unfoldable pub validate_set_key : List Input → String → Actor S → Result (Unit {0}) × Actor S
  validate_set_key before key s = manifest_check key (call_manifest a before s)

  abbrev pub set_if_valid :
      List Input → String → Value → Result (Unit {0}) × Actor S → ControlResponse × Actor S
  set_if_valid between key v (err e, s) = (respond_err e, s)
  set_if_valid between key v (ok u, s) = empty_response (call_set a between key v s)

module _ {S : Type 0} (a : ProtocolAdapter S) (host : Host S) (c : Config)
    (scripts_dir : String) where
  unfoldable pub handle_event : RawEvent → List Launch
  handle_event e =
      map (λ exec. run_script host c.settings.script_env scripts_dir exec e) (triggered_by c e)

  abbrev pub exec_command : String → Option Command → Actor S → ControlResponse × Actor S
  exec_command name none s = (respond_err ("Unknown command: " <> name), s)
  exec_command name (some cmd) s =
      script_response (execute_script host c.settings.script_env scripts_dir cmd.script s)

  -- The inputs are what the actor takes before its first and its second command of this request.
  unfoldable pub handle_control :
      List Input → List Input → ControlRequest → Actor S → ControlResponse × Actor S
  unfolding validate_set_key
  handle_control before between (ControlRequest.get key) s =
      value_response (call_get a before key s)
  handle_control before between (ControlRequest.set key v) s =
      set_if_valid a between key v (validate_set_key a before key s)
  handle_control before between (ControlRequest.exec name) s =
      exec_command name (command_by_name c name) s
  handle_control before between ControlRequest.caps s = caps_response (call_manifest a before s)
  handle_control before between ControlRequest.commands s =
      (respond_ok (array (to_items (map command_json c.command))), s)
  handle_control before between ControlRequest.status s = (
    respond_ok (
        json_object
          (("running", bool true) ∷ ("pid", from_u64 host.pid) ∷ ("adapter", string s.name) ∷ [])),
    s,
  )
  handle_control before between ControlRequest.stop s = (respond_empty, s)
