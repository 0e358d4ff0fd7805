-- ===== src/Examples/Threads.antt =====
-- Tests of the Wayland thread's loop and of its start, and the theorems at concrete inputs.
use middlesox.Prelude.{◌<◌, ◌⊎◌, true, false, none, List, [], ◌∷◌, ok, err, ◌≡◌, ◌↔◌, refl}
use middlesox.Mangowc.Wayland.{WaylandState, new}
use middlesox.Mangowc.Thread.{global}
use middlesox.Mangowc.Commands.{MangoWcBackend}
use middlesox.Mangowc.Loop.{
  set_tags, shutdown, Io, ready, Action, thread, send, notify, run, start, done, left,
}
use middlesox.Mangowc.Loop.Wakeup.{run-woken}
use middlesox.Mangowc.Loop.Answers.{answered, awaited, all_accepted, answered-run}
use middlesox.Mangowc.Start.{Compositor, subscribe}
use middlesox.Mangowc.Start.Ready.{IsReady, subscribe_ok_iff}

abbrev quiet : Io
quiet = record { clock = none; flushed = ok tt; polled = ready false; events = ok [] }

-- The thread waits, a command is sent and its wake-up follows, and the thread answers it.
abbrev woken : List Action
woken =
    thread quiet
    ∷ send (set_tags 1 false 4)
    ∷ thread quiet
    ∷ notify
    ∷ thread quiet
    ∷ thread quiet
    ∷ thread quiet
    ∷ thread quiet
    ∷ []

abbrev nothing_known : WaylandState
nothing_known = new ("tag_change" ∷ [])

answer_is_sent :
    (run woken (start nothing_known)).replies ≡ (4, done (err "No focused output")) ∷ []
unfolding run new
answer_is_sent = refl

shutdown_leaves :
    (run (send shutdown ∷ thread quiet ∷ []) (start nothing_known)).stage ≡ left (ok tt)
unfolding run new
shutdown_leaves = refl

-- The thread waits, and a command has come whose wake-up is still to follow.
abbrev unwoken : List Action
unwoken = thread quiet ∷ send (set_tags 1 false 4) ∷ []

run-woken_example :
    ((run unwoken (start nothing_known)).wake ≡ true)
    ⊎ (0 < (run unwoken (start nothing_known)).unnotified)
unfolding run new
run-woken_example = run-woken unwoken nothing_known refl (λ h. cc)

answered-run_example :
    answered (run woken (start nothing_known)) ≡ awaited (all_accepted woken (start nothing_known))
unfolding run new
answered-run_example = answered-run woken nothing_known refl

abbrev compositor : Compositor
compositor = record {
  clock = none;
  eventfd = ok tt;
  connect = ok tt;
  first = ok (global 1 "zdwl_ipc_manager_v2" ∷ []);
  second = ok [];
}

abbrev unstarted : MangoWcBackend
unstarted = record { thread = none }

subscribe_ok_iff_example :
    ((subscribe compositor ("tag_change" ∷ []) unstarted).0 ≡ ok tt) ↔ IsReady compositor
subscribe_ok_iff_example = subscribe_ok_iff compositor ("tag_change" ∷ []) unstarted
