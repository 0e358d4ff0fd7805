-- ===== src/Lib.antt =====
-- Middlesox: a daemon between a window manager and scripts.
--
-- An adapter speaks the protocol of one window manager (hyprland/, mangowc/, mock/) or of a socket
-- (socket/). It runs inside an actor, which alone owns it: the actor takes the adapter's events and the
-- commands of the handle. The controller reads the events, runs the scripts of the watches that match,
-- and answers the requests of the command line over a control socket. Scripts are shell programs or
-- Rhai; a Rhai script reads and sets values through the handle, under the manifest's write policy.
--
-- Files, and the code they follow:
--   Prelude       lists, texts, maps, numbers and results that the standard library of Rust offers:
--                 Tests (Boolean tests), Lists, Text, Maps (a HashMap as an association list),
--                 Results, Numbers (i64, u32, f64 of a quotient), Parsing (split_once, trim),
--                 Decimal (parse::<i64>, to_string), Printed (a number on a line, trim, parse::<u32>)
--   Json          serde_json's Value as the program reads and builds it
--   Capability, Manifest   middlesox/src/capability.rs
--   Event         middlesox/src/event.rs
--   Config, Load  middlesox/src/config.rs: Config, its queries, Watch::matches; Config::load
--   Paths         std::path::Path as text
--   Control       middlesox/src/control.rs: ControlRequest, ControlResponse; Wire is their JSON form, Lock
--                 the lock file (acquire_lock_in, is_daemon_running, read_daemon_pid), Files the runtime
--                 directory and the listening socket (Again: its later calls), Client connect_to and send_request_to
--   Adapter       middlesox/src/adapter.rs: the trait as a record of operations on a state
--   Handle        middlesox/src/adapter_handle.rs: adapter_actor_loop and the calls of the handle
--   Dynamic, Engine   middlesox/src/engine.rs: get and set of a script, the scope, the conversions; Run
--                 is the run of a script, with the limit on its operations
--   Scripts       middlesox/src/controller.rs: run_script, run_shell_script, execute_script; Pool is the
--                 tasks under the semaphore, with their time limits
--   Controller    middlesox/src/controller.rs: handle_event, validate_set_key, handle_control
--   Daemon        middlesox/src/controller.rs: run and handle_control_client; Pipeline goes from Hyprland's
--                 event socket to the scripts that are started
--   Mock          mock/src/lib.rs
--   HyprlandEvents, HyprlandIpc, Hyprland   hyprland/src/lib.rs: EventTranslator, and Reader the
--                 task that reads the socket; the command socket; the adapter
--   Mangowc       mangowc/src/lib.rs: Values (parse_tags_value, layout_matches), Frame (emit_event and the
--                 events of a frame), Wayland (WaylandState, the registry, outputs, the manager), Output
--                 (the events of an output), Thread (all events), Commands (get, set), Caps (manifest), Loop
--                 (run_wayland_loop and CommandSender), Start (subscribe, next_event)
--   Socket        socket/src/protocol.rs, socket/src/lib.rs: Protocol (requests and answers), Capabilities
--                 (what a bridge offers), Task (the task that reads events), Socket (the adapter)
--   Cli           middlesox-cli/src/main.rs and its control.rs: Values (the value of set), Backends (the
--                 choice of an adapter), Commands (a client's commands), Startup (the daemon's start),
--                 EndToEnd (a command and the daemon's answer), Locations (expand_path and Config::load)
--   Examples      runs of the model at concrete inputs
--
-- How state is modelled. Rust's &mut self is a state passed in and handed back. An async operation
-- that has no answer yet is `none`. The select! of the actor is a list of `Input`s, one for each
-- turn of the loop: which branch is ready is up to the scheduler, so theorems hold for all lists.
-- A call of the handle says which inputs the actor takes before it reaches the command (`before`,
-- `between`), so that other commands and events may come in between. The main loop is a list of
-- `Signal`s, the reader task of Hyprland a list of `Read`s. The lock file is shared by processes:
-- a list of `Action`s says which process makes its next system call, whether the call succeeds,
-- and which process dies. The Wayland thread's loop is a list of its `Action`s and those of the
-- senders, the pool of scripts a list of the tasks' `Action`s. A script is what the interpreter
-- does next, operation by operation, and the daemon's dealings with the adapter are a list of
-- `Activity`s. Logging is left out.
--
-- Numbers. An i64 is an integer with its range stated where it matters; u64 counters wrap. An f64 is its
-- 64 bits. The mock's event loop needs at most three ticks for an event, and is run for three. The
-- decimal text of a number is written with at most twenty digits, enough for 64 bits. The
-- operations of a script are counted down from max_operations, as Rhai counts them.
--
-- Parameters. Code of other crates and of the system is an argument: the TOML reader, the Rhai
-- interpreter, the printing of JSON as text, files, processes, clocks and the window manager. What a
-- theorem asks of one is among its hypotheses.
--
-- Not modelled: the argument parser (clap) of middlesox-cli/ and its logging, the test harness
-- (middlesox-tests/), Rhai's limits on depth and sizes, a lock file that is written in part, what
-- other processes change between two file-system calls of runtime_dir and create_listener_at or between
-- its calls, the number of blocking threads (an argument where it matters), and panics.
mod Prelude
pub mod Json
pub mod Capability
pub mod Manifest
pub mod Event
pub mod Config
pub mod Paths
pub mod Control
pub mod Adapter
pub mod Handle
pub mod Dynamic
pub mod Engine
pub mod Scripts
pub mod Controller
pub mod Mock
pub mod Load
pub mod HyprlandEvents
pub mod HyprlandIpc
pub mod Hyprland
pub mod Mangowc
pub mod Socket
pub mod Daemon
pub mod Cli
mod Examples
