-- ===== src/Cli/Startup/Order.antt =====
-- middlesox-cli/src/main.rs: when `run_daemon` succeeds, and what it leaves behind.
use middlesox.Prelude.{Option, none, some, List, Result, ok, err, ◌≡◌, ◌↔◌, refl, sym}
use mathlib.Core.Path.{subst}
use middlesox.Config.{Config, subscribed_events}
use middlesox.Control.Lock.{acquire_lock_in, lock_result}
use middlesox.Control.Lock.Acquire.{AllSucceed, acquire_lem}
use middlesox.Control.Files.{Files, runtime_dir, create_listener_at}
use middlesox.Adapter.{ProtocolAdapter}
use middlesox.Handle.{Actor, Input, spawn}
use middlesox.Scripts.{Host}
use middlesox.Daemon.{Signal}
use middlesox.Daemon
use middlesox.Cli.{expand_path}
use middlesox.Cli.Startup.{
  World, Environment, start_in, with_lock_file, start_daemon, Start, End, released, cleaned,
  with_listener, with_actor, with_backend, with_lock, run_daemon,
}

module _ {S : Type 0} (a : ProtocolAdapter S) (host : Host S) (c : Config) (st : Start)
    (before : List Input) (signals : List Signal) where
  -- Each step of the start succeeds, and the daemon ends well.
  pub record Succeeds (backend : Result S) (w : World) : Type 0 where
    pub free : w.lock.holder ≡ none
    pub locked : AllSucceed st.lock_io
    pub adapter : S
    pub created : backend ≡ ok adapter
    pub actor : Actor S
    pub spawned : spawn a (subscribed_events c) adapter ≡ ok actor
    pub listening :
        (create_listener_at st.io st.uid st.socket_path (with_lock_file st w.files)).0 ≡ ok tt
    pub ended :
        (Daemon.run a host c (expand_path st.home c.settings.scripts_dir) before signals actor).0
        ≡ some (ok tt)

  cleaned_ok :
      (m : Option (Result (Unit {0}))) (w : World)
      → ((cleaned a host c st before signals m w).0 ≡ some (ok tt)) ↔ (m ≡ some (ok tt))
  cleaned_ok none w = (λ h. h, λ h. h)
  cleaned_ok (some r) w = (λ h. h, λ h. h)

  released_ok : (e : End) → ((released e).0 ≡ some (ok tt)) ↔ (e.0 ≡ some (ok tt))
  released_ok (none, w) = (λ h. h, λ h. h)
  released_ok (some r, w) = (λ h. h, λ h. h)

  abbrev outcome : Actor S → Option (Result (Unit {0}))
  outcome actor =
      (Daemon.run a host c (expand_path st.home c.settings.scripts_dir) before signals actor).0

  listener_ok :
      (actor : Actor S) (w : World) (r : Result (Unit {0}) × Files)
      → ((with_listener a host c st before signals actor w r).0 ≡ some (ok tt))
        ↔ ((r.0 ≡ ok tt) × (outcome actor ≡ some (ok tt)))
  listener_ok actor w (err e, files) = (λ h. cc, λ (h, k). cc)
  listener_ok actor w (ok u, files) =
      let same = cleaned_ok (outcome actor) (record w { files = files }) in
      (λ h. (refl, same.0 h), λ (h, k). same.1 k)

  abbrev listens : World → Result (Unit {0}) × Files
  listens w = create_listener_at st.io st.uid st.socket_path w.files

  abbrev IsGood : End → Type 0
  IsGood e = e.0 ≡ some (ok tt)

  actor_ok :
      (w : World) (m : Result (Actor S))
      → IsGood (with_actor a host c st before signals w m)
      → (actor : Actor S) × (m ≡ ok actor)
        × ((listens w).0 ≡ ok tt)
        × (outcome actor ≡ some (ok tt))
  actor_ok w (err e) h = cc
  actor_ok w (ok actor) h =
      let (l, o) = (listener_ok actor w (listens w)).0 h in (actor, refl, l, o)

  actor_of :
      (w : World) (m : Result (Actor S)) (actor : Actor S)
      → m ≡ ok actor
      → (listens w).0 ≡ ok tt
      → outcome actor ≡ some (ok tt)
      → IsGood (with_actor a host c st before signals w m)
  actor_of w m actor p l o =
      subst (λ r. IsGood (with_actor a host c st before signals w r)) (sym p)
        ((listener_ok actor w (listens w)).1 (l, o))

  backend_ok :
      (w v : World) (backend : Result S)
      → w.lock.holder ≡ none
      → AllSucceed st.lock_io
      → v.files ≡ with_lock_file st w.files
      → IsGood (with_backend a host c st before signals v backend)
      → Succeeds backend w
  backend_ok w v (err e) free all same h = cc
  backend_ok w v (ok s) free all same h =
      let (actor, p, l, o) = actor_ok v (spawn a (subscribed_events c) s) h in
      record {
        free = free;
        locked = all;
        adapter = s;
        created = refl;
        actor = actor;
        spawned = p;
        listening =
            subst (λ fs. (create_listener_at st.io st.uid st.socket_path fs).0 ≡ ok tt) same l;
        ended = o;
      }

  backend_of :
      (w v : World) (backend : Result S)
      → v.files ≡ with_lock_file st w.files
      → Succeeds backend w
      → IsGood (with_backend a host c st before signals v backend)
  backend_of w v backend same h =
      subst (λ m. IsGood (with_backend a host c st before signals v m)) (sym h.created)
        (actor_of v (spawn a (subscribed_events c) h.adapter) h.actor h.spawned
          (subst (λ fs. (create_listener_at st.io st.uid st.socket_path fs).0 ≡ ok tt) (sym same)
            h.listening)
          h.ended)

  lock_ok :
      (w v : World) (backend : Result S) (r : Result (Unit {0}))
      → (r ≡ ok tt) ↔ ((w.lock.holder ≡ none) × AllSucceed st.lock_io)
      → v.files ≡ with_lock_file st w.files
      → IsGood (with_lock a host c st before signals v backend r) ↔ Succeeds backend w
  lock_ok w v backend (err e) held same = (λ h. cc, λ h. cc (held.1 (h.free, h.locked)))
  lock_ok w v backend (ok u) held same =
      let (free, all) = held.0 refl in
      let e = released_ok (with_backend a host c st before signals v backend) in
      (λ h. backend_ok w v backend free all same (e.0 h), λ h. e.1 (backend_of w v backend same h))

  start_daemon_ok_iff :
      (backend : Result S) (w : World)
      → ((start_daemon a host c st before signals backend w).0 ≡ some (ok tt)) ↔ Succeeds backend w
  unfolding start_daemon
  start_daemon_ok_iff backend w =
      let t = acquire_lock_in st.lock_path st.pid st.lock_io w.lock in
      lock_ok w (record w { lock = t.file; files = with_lock_file st w.files }) backend
        (lock_result t.outcome) (acquire_lem st.lock_path st.pid st.lock_io w.lock).0 refl

-- The daemon ends well exactly when no process has the lock, the system calls on it succeed, the
-- adapter is created, initialised and subscribed, the socket in the runtime directory listens, and the
-- main loop ends well.
pub run_daemon_ok_iff :
    {S : Type 0} (a : ProtocolAdapter S) (host : Host S) (c : Config) (env : Environment)
    (before : List Input) (signals : List Signal) (backend : Result S) (w : World)
    → let (dir, files) = runtime_dir env.io env.process w.files in
      ((run_daemon a host c env before signals backend w).0 ≡ some (ok tt))
      ↔ Succeeds a host c (start_in dir env) before signals backend (record w { files = files })
unfolding run_daemon
run_daemon_ok_iff a host c env before signals backend w =
    let (dir, files) = runtime_dir env.io env.process w.files in
    start_daemon_ok_iff a host c (start_in dir env) before signals backend
      (record w { files = files })
