-- ===== src/Scripts.antt =====
-- middlesox/src/controller.rs: how a script is found, checked, given its environment and run, for an
-- event (`run_script`) and for a command (`execute_script`). What the operating system, serde_json
-- and Rhai do is the record `Host`.
pub mod Laws
pub mod Pool
use middlesox.Prelude.{
  ℕ, suc, String, Bool, true, false, ◌&&◌, Option, none, some, List, [], ◌∷◌, map, Result, ok, err,
  ◌<>◌, ◌==◌, nat_eq, if◌then◌else◌, insert, take, is_empty_text,
}
use middlesox.Json.{Value, null, string, object, json_object, to_fields}
use middlesox.Dynamic.{Dynamic}
use middlesox.Event.{State, RawEvent}
use middlesox.Engine.{EventContext, context_of}
use middlesox.Engine.Run.{execute_file}
use middlesox.Paths.{is_absolute, join, has_extension}
use middlesox.Handle.{Actor}

pub record Process : Type 0 where
  pub program : String
  pub arg : String
  pub env : List (String × String)

pub data Output : Type 0 where
  exited : (success : Bool) (status : String) (stdout stderr : List ℕ) → Output
  failed : (error : String) → Output
  timed_out : Output

pub record Host (S : Type 0) : Type 0 where
  pub exists : String → Bool
  pub read_text : String → Result String
  pub read_bytes : String → Result (List ℕ)
  pub eval : String → List (String × Dynamic) → Actor S → Result Dynamic × Actor S
  pub output : Process → Output
  pub print : Value → String
  pub print_state : Option State → String
  pub lossy : List ℕ → String
  pub debug : Dynamic → String
  pub pid : ℕ

-- `#!` in the first two bytes; a shorter file has none.
unfoldable pub has_shebang : Result (List ℕ) → Result Bool
has_shebang (err e) = err e
has_shebang (ok []) = ok false
has_shebang (ok (b ∷ [])) = ok false
has_shebang (ok (b ∷ (c ∷ bytes))) = ok (nat_eq b b'#' && nat_eq c b'!')

unfoldable pub resolve_script_path : String → String → String
resolve_script_path scripts_dir name = if is_absolute name then name else join scripts_dir name

-- `Command::envs`
unfoldable pub envs : List (String × String) → List (String × String) → List (String × String)
envs [] env = env
envs ((k, v) ∷ more) env = envs more (insert k v env)

-- The configured variables first, then those of Middlesox, which replace them.
unfoldable pub script_environment :
    List (String × String) → String → String → String → List (String × String)
unfolding envs
script_environment script_env event prev curr =
    insert "MSX_CURR" curr (insert "MSX_PREV" prev (insert "MSX_EVENT" event (envs script_env [])))

abbrev state_value : Option State → Value
state_value none = null
state_value (some s) = object (to_fields s)

abbrev input_value : String → Option State → Option State → Value
input_value event prev curr =
    json_object
      (("event", string event) ∷ ("prev", state_value prev) ∷ ("curr", state_value curr) ∷ [])

pub data Launch : Type 0 where
  missing : (path : String) → Launch
  no_shebang : (path : String) → Launch
  unreadable : (path error : String) → Launch
  rhai : (path : String) (event : RawEvent) → Launch
  shell : Process → Launch

abbrev max_output_bytes : ℕ
max_output_bytes = 65536

module _ {S : Type 0} (host : Host S) (script_env : List (String × String)) where
  unfoldable pub event_process : String → RawEvent → Process
  event_process path e = record {
    program = path;
    arg = host.print (input_value e.name e.prev e.curr);
    env = script_environment script_env e.name (host.print_state e.prev) (host.print_state e.curr);
  }

  unfoldable pub command_process : String → Process
  command_process path = record {
    program = path;
    arg = host.print (input_value "command" none none);
    env = script_environment script_env "command" "null" "null";
  }

  -- `run_shell_script` and `run_script`: what is spawned for an event, and nothing is waited for.
  abbrev shell_launch : String → RawEvent → Result Bool → Launch
  shell_launch path e (ok true) = shell (event_process path e)
  shell_launch path e (ok false) = no_shebang path
  shell_launch path e (err error) = unreadable path error

  unfoldable pub run_shell_script : String → RawEvent → Launch
  run_shell_script path e =
      if has_extension "sh" path
      then shell_launch path e (has_shebang (host.read_bytes path))
      else shell (event_process path e)

  unfoldable pub run_script : String → String → RawEvent → Launch
  run_script scripts_dir name e =
      let path = resolve_script_path scripts_dir name in
      if host.exists path
      then if has_extension "rhai" path then rhai path e else run_shell_script path e
      else missing path

  abbrev some_text : String → Option String
  some_text s = if is_empty_text s then none else some s

  abbrev command_result : String → Output → Result (Option String)
  command_result name (exited true status stdout stderr) =
      ok (some_text (host.lossy (take max_output_bytes stdout)))
  command_result name (exited false status stdout stderr) = err (
      "Command '"
      <> (name
          <> ("' failed with status "
              <> (status <> (": " <> host.lossy (take max_output_bytes stderr))))))
  command_result name (failed e) = err ("Failed to execute command '" <> (name <> ("': " <> e)))
  command_result name timed_out = err ("Command '" <> (name <> "' timed out after 60s"))

  abbrev checked_command : String → String → Result Bool → Result (Option String)
  checked_command path name (ok true) = command_result name (host.output (command_process path))
  checked_command path name (ok false) =
      err ("Script '" <> (path <> "' is missing a shebang line (e.g., #!/bin/bash)"))
  checked_command path name (err e) = err ("Failed to read script '" <> (path <> ("': " <> e)))

  unfoldable pub execute_shell_script : String → String → Result (Option String)
  execute_shell_script path name =
      if has_extension "sh" path
      then checked_command path name (has_shebang (host.read_bytes path))
      else command_result name (host.output (command_process path))

  abbrev shown : Dynamic → Option String
  shown Dynamic.unit = none
  shown d = some (host.debug d)

  abbrev pub shown_result : Result Dynamic × Actor S → Result (Option String) × Actor S
  shown_result (ok d, s) = (ok (shown d), s)
  shown_result (err e, s) = (err e, s)

  unfoldable pub execute_script : String → String → Actor S → Result (Option String) × Actor S
  unfolding execute_file
  execute_script scripts_dir name s =
      let path = resolve_script_path scripts_dir name in
      if host.exists path
      then if has_extension "rhai" path
        then shown_result (execute_file host.eval (host.read_text path) s)
        else (execute_shell_script path name, s)
      else (err ("Script not found: " <> path), s)
