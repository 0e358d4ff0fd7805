-- ===== src/Cli/Startup.antt =====
-- middlesox-cli/src/main.rs: `run_daemon`, from the lock to the removal of the socket.
pub mod Order
pub mod Traces
use middlesox.Prelude.{
  ℕ, String, Bool, Option, none, some, List, Result, ok, err, if◌then◌else◌, true, false, lookup,
  insert,
}
use middlesox.Config.{Config, subscribed_events}
use middlesox.Control.Lock.{
  LockFile, LockIo, acquire_lock_in, lock_result, unlocked, lock_path_in, socket_path_in,
}
use middlesox.Control.Files.{
  regular, Node, Files, Process, Io, runtime_dir, create_listener_at, cleanup_socket,
}
use middlesox.Adapter.{ProtocolAdapter}
use middlesox.Handle.{Actor, Input, spawn}
use middlesox.Scripts.{Host}
use middlesox.Daemon.{Signal}
use middlesox.Daemon
use middlesox.Cli.{expand_path}

-- What outlives the daemon.
pub record World : Type 0 where
  pub lock : LockFile
  pub files : Files

-- The process, its home, and what the system calls do.
pub record Environment : Type 0 where
  pub process : Process
  pub home : Option String
  pub lock_io : LockIo
  pub io : Io

-- The same with the two paths in the runtime directory.
pub record Start : Type 0 where
  pub pid : ℕ
  pub uid : ℕ
  pub lock_path : String
  pub socket_path : String
  pub home : Option String
  pub lock_io : LockIo
  pub io : Io

abbrev pub start_in : String → Environment → Start
start_in dir env = record {
  pid = env.process.pid;
  uid = env.process.uid;
  lock_path = lock_path_in dir;
  socket_path = socket_path_in dir;
  home = env.home;
  lock_io = env.lock_io;
  io = env.io;
}

-- What the opening of the lock file leaves: a new file where there was none.
abbrev pub lock_created : Bool → ℕ → String → Option Node → Files → Files
lock_created false uid path m files = files
lock_created true uid path (some n) files = files
lock_created true uid path none files =
    insert path (record { kind = regular; owner = uid; mode = none }) files

abbrev pub with_lock_file : Start → Files → Files
with_lock_file st files =
    lock_created st.lock_io.opens st.uid st.lock_path (lookup st.lock_path files) files

-- `none` is a daemon that still runs.
abbrev pub End : Type 0
End = Option (Result (Unit {0})) × World

-- The lock is given back when the function returns.
abbrev pub released : End → End
released (none, w) = (none, w)
released (some r, w) = (some r, record w { lock = unlocked w.lock })

module _ {S : Type 0} (a : ProtocolAdapter S) (host : Host S) (c : Config) (st : Start)
    (before : List Input) (signals : List Signal) where
  abbrev pub cleaned : Option (Result (Unit {0})) → World → End
  cleaned none w = (none, w)
  cleaned (some r) w = (some r, record w { files = cleanup_socket st.io st.socket_path w.files })

  -- The controller over the actor, once the socket listens.
  abbrev pub served : Actor S → World → End
  served actor w =
      cleaned
        (Daemon.run a host c (expand_path st.home c.settings.scripts_dir) before signals actor).0 w

  abbrev pub with_listener : Actor S → World → Result (Unit {0}) × Files → End
  with_listener actor w (err e, files) = (some (err e), record w { files = files })
  with_listener actor w (ok u, files) = served actor (record w { files = files })

  abbrev pub with_actor : World → Result (Actor S) → End
  with_actor w (err e) = (some (err e), w)
  with_actor w (ok actor) =
      with_listener actor w (create_listener_at st.io st.uid st.socket_path w.files)

  abbrev pub with_backend : World → Result S → End
  with_backend w (err e) = (some (err e), w)
  with_backend w (ok s) = with_actor w (spawn a (subscribed_events c) s)

  abbrev pub with_lock : World → Result S → Result (Unit {0}) → End
  with_lock w backend (err e) = (some (err e), w)
  with_lock w backend (ok u) = released (with_backend w backend)

  -- From `acquire_lock_in` on; `backend` is what `create_backend_from_config` gives.
  unfoldable pub start_daemon : Result S → World → End
  unfolding expand_path create_listener_at cleanup_socket spawn subscribed_events Daemon.run
      acquire_lock_in lookup insert
  start_daemon backend w =
      let t = acquire_lock_in st.lock_path st.pid st.lock_io w.lock in
      with_lock (record w { lock = t.file; files = with_lock_file st w.files }) backend
        (lock_result t.outcome)

-- The first call of `lock_path` may create the runtime directory; the later ones of it and of
-- `socket_path` find it as it is.
unfoldable pub run_daemon :
    {S : Type 0}
    → ProtocolAdapter S
    → Host S
    → Config
    → Environment
    → List Input
    → List Signal
    → Result S
    → World
    → End
unfolding start_daemon runtime_dir lock_path_in socket_path_in
run_daemon a host c env before signals backend w =
    let (dir, files) = runtime_dir env.io env.process w.files in
    start_daemon a host c (start_in dir env) before signals backend (record w { files = files })
