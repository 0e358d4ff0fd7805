-- ===== src/Examples/Clients.antt =====
-- Tests of the command line, alone and with a daemon, and its theorems at concrete inputs.
use middlesox.Prelude.{
  arith, true, false, none, some, List, [], ◌∷◌, ok, err, ◌≡◌, ◌↔◌, ◌⊎◌, refl, length, trim, ◌==◌,
  if◌then◌else◌,
}
use middlesox.Json.{value_eq, string, to_fields, insert_field}
use middlesox.Config.{Config, text, AdapterConfig}
use middlesox.Paths.{is_absolute}
use middlesox.Control.{ControlRequest, stop, respond_err, respond_empty}
use middlesox.Control.Wire.{encode_request, encode_response, value_field}
use middlesox.Control.Client.{JsonText, Link, send_request_to}
use middlesox.Load.{load}
use middlesox.Control.Files.{Kind}
use middlesox.Mock.{adapter}
use middlesox.Controller.{handle_control}
use middlesox.Daemon.{control_shutdown}
use middlesox.Scripts.{Launch, rhai}
use middlesox.Scripts.Pool.{Action, launch, acquire, expire, empty, run}
use middlesox.Scripts.Pool.Limit.{IsBounded, run-IsBounded, FitThreads, orphans_up_to_threads}
use middlesox.Cli.{expand_path}
use middlesox.Cli.Values.{Readers, parse_value}
use middlesox.Cli.Backends.{socket, create_backend_from_config}
use middlesox.Cli.Backends.Choice.{Names, create_backend_ok_iff}
use middlesox.Cli.Commands.{get, Shell, main}
use middlesox.Cli.EndToEnd.{
  EndsWell, IsConfigured, main_ok_iff, answer_line, response_to, send_request-eq-handle_control,
}
use middlesox.Cli.Startup.{World, Environment, start_in, run_daemon}
use middlesox.Control.Files.{runtime_dir}
use middlesox.Cli.Startup.Order.{Succeeds, run_daemon_ok_iff}
use middlesox.Cli.Locations.{IsLocated, expand_path-load}
use middlesox.Examples.Data.{backend, actor, host, config, moved}
use middlesox.Examples.Daemons.{works}
use middlesox.Examples.Loading.{read_config_file, parent_dir, relative}

abbrev readers : Readers
readers = record { from_json = λ s. none; parse_f64 = λ s. none }

-- Nothing but what JSON does not know.
plain_word : parse_value readers "tile" ≡ string "tile"
unfolding parse_value
plain_word = refl

abbrev shell : Shell
shell = record {
  config_path = some "/etc/middlesox/config.toml";
  load_config = λ path. ok config;
  default_scripts_dir = "/s";
  readers = readers;
  pretty = λ v. "v";
  print = λ v. "v";
  daemon_running = true;
  send_request = λ r. ok (respond_err "unknown key: x");
}

failed_get : (main shell (get "x")).result ≡ err "unknown key: x"
unfolding main respond_err
failed_get = refl

-- A bad configuration stops every command.
unconfigured :
    (main (record shell { load_config = λ path. err "bad" }) (get "x")).result ≡ err "bad"
unfolding main
unconfigured = refl

main_ok_iff_example :
    (((main shell (get "x")).result ≡ ok tt) ↔ (IsConfigured shell × EndsWell shell (get "x")))
    × (((main shell (get "x")).result ≡ ok tt) ⊎ ((main shell (get "x")).lines ≡ []))
main_ok_iff_example = main_ok_iff shell (get "x")

abbrev bridged : AdapterConfig
bridged = record { name = "socket"; options = ("base_path", text "/run/msx") ∷ [] }

create_backend_ok_iff_example :
    (create_backend_from_config (λ v. none) (λ p. false) bridged
      ≡ ok (socket "/run/msx.sock" "/run/msx-events.sock"))
    ↔ Names (λ v. none) (λ p. false) bridged (socket "/run/msx.sock" "/run/msx-events.sock")
create_backend_ok_iff_example =
    create_backend_ok_iff (λ v. none) (λ p. false) bridged
      (socket "/run/msx.sock" "/run/msx-events.sock")

-- A printer and a reader that know one request and its response.
abbrev known : ControlRequest
known = stop

abbrev json : JsonText
json = record {
  print = λ v. if value_eq v (encode_request known) then "request" else "response";
  read = λ s.
      if trim s == "request" then ok (encode_request known) else ok (encode_response respond_empty);
}

abbrev link : Link
link = record {
  exists = λ path. true;
  connect = λ path. some (ok tt);
  exchange =
      λ line. some (ok (answer_line (adapter none) host config "/s" json [] [] true actor line));
}

send_request-eq-handle_control_example :
    send_request_to json link "/run/middlesox.sock" known
    ≡ ok (record (response_to (adapter none) host config "/s" json [] [] true actor known) {
      result =
          value_field
            (response_to (adapter none) host config "/s" json [] [] true actor known).result;
    })
unfolding encode_request encode_response value_eq trim handle_control to_fields insert_field
    respond_empty
send_request-eq-handle_control_example =
    send_request-eq-handle_control (adapter none) host config "/s" json [] [] true actor link
      "/run/middlesox.sock" known (record { there = refl; accepts = refl; answers = λ line. refl })
      refl refl

abbrev opening : Environment
opening = record {
  process = record { uid = 1000; pid = 7; xdg_runtime_dir = some "/run" };
  home = none;
  lock_io = record { opens = true; locks = true; empties = true; writes = true };
  io = works;
}

-- Another daemon has the lock, and its socket is there.
abbrev occupied : World
occupied = record {
  lock = record { text = some "3\n"; holder = some 3 };
  files = ("/run/middlesox.sock", record { kind = Kind.socket; owner = 1000; mode = none }) ∷ [];
}

second_daemon :
    (run_daemon
      (adapter none)
      host
      config
      opening
      []
      (control_shutdown ∷ [])
      (ok backend)
      occupied).0
    ≡ some (err "Another instance is already running (lock file: /run/middlesox.lock)")
unfolding run_daemon
second_daemon = refl

run_daemon_ok_iff_example :
    let (dir, files) = runtime_dir opening.io opening.process occupied.files in
    ((run_daemon
        (adapter none)
        host
        config
        opening
        []
        (control_shutdown ∷ [])
        (ok backend)
        occupied).0
      ≡ some (ok tt))
    ↔ Succeeds
        (adapter none)
        host
        config
        (start_in dir opening)
        []
        (control_shutdown ∷ [])
        (ok backend)
        (record occupied { files = files })
run_daemon_ok_iff_example =
    run_daemon_ok_iff (adapter none) host config opening [] (control_shutdown ∷ []) (ok backend)
      occupied

expand_path-load_example :
    (c : Config) × (load read_config_file (λ t. ok relative) parent_dir "/etc/msx/config.toml"
      ≡ ok c)
    × IsLocated "/etc/msx" "/home/me" "scripts"
        (expand_path (some "/home/me") c.settings.scripts_dir)
unfolding is_absolute
expand_path-load_example =
    expand_path-load read_config_file (λ t. ok relative) parent_dir "/etc/msx/config.toml"
      "/etc/msx" "/home/me" "[settings]" relative refl refl refl refl

abbrev slow : Launch
slow = rhai "/s/slow.rhai" moved

run-IsBounded_example : IsBounded (run (launch slow ∷ acquire 0 ∷ expire 0 true ∷ []) empty)
run-IsBounded_example = run-IsBounded (launch slow ∷ acquire 0 ∷ expire 0 true ∷ [])

orphans_up_to_threads_example :
    (actions : List Action) × FitThreads 512 actions empty
    × (length (run actions empty).orphans ≡ 20)
orphans_up_to_threads_example = orphans_up_to_threads 512 20 slow (omega arith) refl
