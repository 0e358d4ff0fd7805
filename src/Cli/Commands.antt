-- ===== src/Cli/Commands.antt =====
-- middlesox-cli/src/main.rs: the commands of a client, and what they print.
use middlesox.Prelude.{
  ℕ, String, Bool, Option, none, some, List, [], ◌∷◌, ◌++◌, map, Result, ok, err, ◌<>◌,
  if◌then◌else◌, length, show_nat,
}
use middlesox.Json.{Value, null, index, as_str, as_array, as_u64}
use middlesox.Config.{Config, default_config}
use middlesox.Control.{ControlRequest, ControlResponse}
use middlesox.Cli.Values.{Readers, parse_value}

-- The commands but `run`, which is Startup.
pub data Command : Type 0 where
  get : (key : String) → Command
  set : (key value : String) → Command
  exec : (name : String) → Command
  caps commands stop status : Command

-- What `msx` may use: the path of the configuration, if one is given or found, and what `Config::load`
-- gives for a path, with the directory of scripts where there is none; the readers of a value, the two printers of JSON, the probe of the lock, and the
-- control socket.
pub record Shell : Type 0 where
  pub config_path : Option String
  pub load_config : String → Result Config
  pub default_scripts_dir : String
  pub readers : Readers
  pub pretty : Value → String
  pub print : Value → String
  pub daemon_running : Bool
  pub send_request : ControlRequest → Result ControlResponse

-- The lines on the standard output, and how the program ends; an error goes to the standard error.
pub record Run : Type 0 where
  pub lines : List String
  pub result : Result (Unit {0})

abbrev pub value_or_null : Option Value → Value
value_or_null none = null
value_or_null (some v) = v

abbrev pub error_or_unknown : Option String → String
error_or_unknown none = "Unknown error"
error_or_unknown (some e) = e

unfoldable pub handle_response : ControlResponse → (Value → List String) → Run
handle_response r on_success =
    if r.success
    then record { lines = on_success (value_or_null r.result); result = ok tt }
    else record { lines = []; result = err (error_or_unknown r.error) }

abbrev pub handled : (Value → List String) → Result ControlResponse → Run
handled on_success (err e) = record { lines = []; result = err e }
handled on_success (ok r) = handle_response r on_success

abbrev text_or : String → Option String → String
text_or other none = other
text_or other (some s) = s

abbrev member : Value → String → String
member v key = text_or "-" (as_str (index v key))

abbrev cap_line : Value → String
cap_line cap =
    "  "
    <> (member cap "name" <> (" (" <> (member cap "access" <> ("): " <> member cap "description"))))

abbrev command_line : Value → String
command_line cmd =
    "  "
    <> (member cmd "name"
        <> (": " <> text_or (member cmd "script") (as_str (index cmd "description"))))

abbrev pub print_caps : Option (List Value) → List String
print_caps none = []
print_caps (some found) =
    ("Capabilities (" <> (show_nat (length found) <> "):")) ∷ map cap_line found

abbrev print_some_commands : List Value → List String
print_some_commands [] = "No commands defined in config" ∷ []
print_some_commands (c ∷ cs) = "Available commands:" ∷ map command_line (c ∷ cs)

abbrev pub print_commands : Option (List Value) → List String
print_commands none = []
print_commands (some cmds) = print_some_commands cmds

abbrev pid_line : Option ℕ → List String
pid_line none = []
pid_line (some pid) = ("PID: " <> show_nat pid) ∷ []

abbrev adapter_line : Option String → List String
adapter_line none = []
adapter_line (some adapter) = ("Adapter: " <> adapter) ∷ []

abbrev pub print_status : Value → List String
print_status v =
    "Status: running"
    ∷ (pid_line (as_u64 (index v "pid")) ++ adapter_line (as_str (index v "adapter")))

abbrev pub unless_null : (Value → String) → Value → List String
unless_null print null = []
unless_null print v = print v ∷ []

unfoldable pub request_of : Readers → Command → ControlRequest
unfolding parse_value
request_of r (get key) = ControlRequest.get key
request_of r (set key value) = ControlRequest.set key (parse_value r value)
request_of r (exec name) = ControlRequest.exec name
request_of r caps = ControlRequest.caps
request_of r commands = ControlRequest.commands
request_of r stop = ControlRequest.stop
request_of r status = ControlRequest.status

abbrev pub on_success : Shell → Command → Value → List String
on_success sh (get key) v = sh.pretty v ∷ []
on_success sh (set key value) v = "OK" ∷ []
on_success sh (exec name) v = unless_null sh.print v
on_success sh caps v = print_caps (as_array v)
on_success sh commands v = print_commands (as_array v)
on_success sh stop v = "Daemon stopped" ∷ []
on_success sh status v = print_status v

abbrev pub asked : Shell → Command → Run
asked sh c = handled (on_success sh c) (sh.send_request (request_of sh.readers c))

abbrev pub not_running : Run
not_running = record { lines = "Daemon is not running" ∷ []; result = ok tt }

-- Only `status` looks at the lock first.
abbrev pub answered : Shell → Command → Run
answered sh status = if sh.daemon_running then asked sh status else not_running
answered sh c = asked sh c

-- The configuration is loaded first, also for the commands that do not need it.
abbrev pub loaded : Shell → Result Config
loaded sh = elim sh.config_path [
  | none ↦ ok (default_config sh.default_scripts_dir)
  | some path ↦ sh.load_config path
]

abbrev pub with_config : Result Config → Run → Run
with_config (err e) run = record { lines = []; result = err e }
with_config (ok config) run = run

unfoldable pub main : Shell → Command → Run
unfolding handle_response request_of index show_nat default_config
main sh c = with_config (loaded sh) (answered sh c)
