-- ===== src/Examples/Data.antt =====
-- The inputs of the examples: a mock backend under its actor, a host, a configuration.
use middlesox.Prelude.{true, false, none, some, [], ◌∷◌, ok, pos}
use middlesox.Json.{Value, number, pos_int}
use middlesox.Dynamic.{Dynamic}
use middlesox.Event.{RawEvent}
use middlesox.Config.{Watch, Config}
use middlesox.Handle.{Actor}
use middlesox.Mock.{MockBackend}
use middlesox.Scripts.{Host, exited}

abbrev pub one : Value
one = number (pos_int 1)

abbrev pub two : Value
two = number (pos_int 2)

abbrev pub backend : MockBackend
backend = record {
  workspace = pos 1;
  layout = "master";
  event_interval_ms = 2000;
  subscriptions = "workspace_change" ∷ [];
  tick = true;
  cycle = 0;
  shutdown = false;
}

abbrev pub actor : Actor MockBackend
actor = record { name = "mock"; adapter = backend; live = true; events = []; replies = [] }

abbrev pub host : Host MockBackend
host = record {
  exists = λ path. true;
  read_text = λ path. ok "";
  read_bytes = λ path. ok (0x23 ∷ 0x21 ∷ []);
  eval = λ text scope s. (ok Dynamic.unit, s);
  output = λ p. exited true "exit status: 0" [] [];
  print = λ v. "";
  print_state = λ s. "";
  lossy = λ bytes. "";
  debug = λ d. "";
  pid = 42;
}

abbrev pub watch : Watch
watch = record {
  event = "workspace_change";
  exec = "wallpaper.sh";
  prev = ("id", one) ∷ [];
  curr = ("id", two) ∷ [];
  description = none;
  enabled = true;
}

abbrev pub config : Config
config = record {
  settings = record {
    scripts_dir = "/s";
    log_level = "info";
    script_env = ("MSX_EVENT", "x") ∷ ("A", "b") ∷ [];
  };
  adapter = record { name = "mock"; options = [] };
  watch = watch ∷ [];
  command = record { name = "go"; script = "go.sh"; description = none } ∷ [];
}

abbrev pub moved : RawEvent
moved = record {
  name = "workspace_change";
  prev = some (("id", one) ∷ []);
  curr = some (("id", two) ∷ []);
  timestamp = 0;
}
