-- ===== src/Examples/Running.antt =====
-- The actor, the engine, the controller and the daemon at concrete inputs.
use mathlib.Core.List.{Memᴰ}
use middlesox.Prelude.{
  ℕ, ◌≡◌, ◌≢◌, refl, ◌↔◌, ◌++◌, true, false, none, some, List, [], ◌∷◌, Result, ok, arith,
  if◌then◌else◌,
}
use middlesox.Dynamic.{Dynamic}
use middlesox.Capability.{is_writable}
use middlesox.Manifest.{find_cap}
use middlesox.Control.{ControlRequest, stop}
use middlesox.Handle.{Actor, Input, receive, get, manifest, shutdown, step, run, call_shutdown}
use middlesox.Handle.Shutdown.{counted, run-shutdown_once}
use middlesox.Handle.Replies.{answered, requested, run-answered}
use middlesox.Engine.{script_set, dynamic_to_json}
use middlesox.Engine.Policy.{IsWritable, script_set_refused}
use middlesox.Paths.{is_absolute, join, extension}
use middlesox.Scripts.{
  shell, event_process, resolve_script_path, run_shell_script, run_script, has_shebang,
}
use middlesox.Controller.{triggered_by, handle_control}
use middlesox.Controller.Events.{IsTriggered, triggered_by_iff}
use middlesox.Controller.Requests.{handle_control-set_refused, script_set-agrees-handle_control}
use middlesox.Daemon
use middlesox.Daemon.{Signal, event, control_shutdown, handle_control_client}
use middlesox.Daemon.Laws.{first_outcome, run_ok_iff, handle_control_client-stop}
use middlesox.Mock
use middlesox.Mock.{MockBackend, adapter}
use middlesox.Examples.Data.{one, actor, host, config, moved}

triggered_by_iff_example :
    Memᴰ "wallpaper.sh" (triggered_by config moved) ↔ IsTriggered config moved "wallpaper.sh"
triggered_by_iff_example = triggered_by_iff config moved "wallpaper.sh"

abbrev counting : Actor (MockBackend × ℕ)
counting = record {
  name = "mock";
  adapter = (actor.adapter, 0);
  live = true;
  events = [];
  replies = [];
}

abbrev busy : List Input
busy = receive (some (get "workspace" 7)) ∷ receive (some (shutdown 8)) ∷ receive none ∷ []

run-shutdown_once_example :
    (run (counted (adapter none)) busy counting).adapter.1
    ≡ (if (run (counted (adapter none)) busy counting).live then 0 else 1)
run-shutdown_once_example = run-shutdown_once (adapter none) busy counting refl refl

abbrev reads : List Input
reads = receive (some (get "workspace" 7)) ∷ receive (some (manifest 8)) ∷ []

run-answered_example : answered (run (adapter none) reads actor) ≡ answered actor ++ requested reads
unfolding run step
run-answered_example = run-answered (adapter none) reads actor refl

monitor_read_only : ¬ IsWritable (Mock.manifest actor.adapter) "monitor"
unfolding Mock.manifest find_cap is_writable
monitor_read_only (cap, found, writable) = ground arith

monitor_read_only_later :
    ¬ IsWritable ((adapter none).manifest (run (adapter none) [] actor).adapter) "monitor"
unfolding run
monitor_read_only_later = monitor_read_only

script_set_refused_example :
    ((script_set (adapter none) [] [] "monitor" (Dynamic.string "x") actor).0 ≢ "")
    × ((script_set (adapter none) [] [] "monitor" (Dynamic.string "x") actor).1
        ≡ step (adapter none) (receive (some (manifest 0))) (run (adapter none) [] actor))
unfolding run
script_set_refused_example =
    script_set_refused (adapter none) [] "monitor" (Dynamic.string "x") [] actor refl refl
      monitor_read_only_later

handle_control-set_refused_example :
    ((handle_control
        (adapter none)
        host
        config
        "/s"
        []
        []
        (ControlRequest.set "monitor" one)
        actor).0.success
      ≡ false)
    × ((handle_control
          (adapter none)
          host
          config
          "/s"
          []
          []
          (ControlRequest.set "monitor" one)
          actor).1
        ≡ step (adapter none) (receive (some (manifest 0))) (run (adapter none) [] actor))
unfolding run
handle_control-set_refused_example =
    handle_control-set_refused (adapter none) host config "/s" [] [] "monitor" one actor refl refl
      monitor_read_only_later

script_set-agrees-handle_control_example :
    (((script_set (adapter none) [] [] "layout" (Dynamic.string "grid") actor).0 ≡ "") ↔ (
      (handle_control
        (adapter none)
        host
        config
        "/s"
        []
        []
        (ControlRequest.set "layout" (dynamic_to_json (Dynamic.string "grid")))
        actor).0.success
      ≡ true))
    × ((script_set (adapter none) [] [] "layout" (Dynamic.string "grid") actor).1
        ≡ (handle_control
            (adapter none)
            host
            config
            "/s"
            []
            []
            (ControlRequest.set "layout" (dynamic_to_json (Dynamic.string "grid")))
            actor).1)
script_set-agrees-handle_control_example =
    script_set-agrees-handle_control (adapter none) host config "/s" [] [] "layout"
      (Dynamic.string "grid") actor

launched :
    run_script host config.settings.script_env "/s" "wallpaper.sh" moved
    ≡ shell (event_process host config.settings.script_env "/s/wallpaper.sh" moved)
unfolding run_script run_shell_script resolve_script_path extension is_absolute join has_shebang
launched = refl

abbrev signals : List Signal
signals = event (some moved) ∷ control_shutdown ∷ event none ∷ []

run_ok_iff_example :
    ((Daemon.run (adapter none) host config "/s" [] signals actor).0 ≡ some (ok tt))
    ↔ ((first_outcome signals ≡ some (ok tt)) × ((call_shutdown (adapter none) [] actor).0 ≡ ok tt))
run_ok_iff_example = run_ok_iff (adapter none) host config "/s" [] signals actor

handle_control_client-stop_example :
    let served =
      handle_control_client (adapter none) host config "/s" [] [] (ok stop) (ok tt) true actor in
    ((served.stop_sent ≡ true) ↔ (
      ◌≡◌ {A = Result ControlRequest} (ok stop) (ok stop)
      × ◌≡◌ {A = Result (Unit {0})} (ok tt) (ok tt)
      × (true ≡ true)))
    × ((served.sender_left ≡ true) ↔ ((true ≡ true) × (served.stop_sent ≡ false)))
handle_control_client-stop_example =
    handle_control_client-stop (adapter none) host config "/s" [] [] (ok stop) (ok tt) true actor
