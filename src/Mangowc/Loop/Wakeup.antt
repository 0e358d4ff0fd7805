-- ===== src/Mangowc/Loop/Wakeup.antt =====
-- mangowc/src/lib.rs: no command waits for an event of the compositor.
use middlesox.Prelude.{
  ℕ, ◌<◌, Bool, true, false, ◌||◌, Option, List, [], ◌∷◌, Result, ok, err, ◌≡◌, ◌≢◌, ◌⊎◌, inl, inr,
  refl, sym, ◌∙◌, Bool-cases, arith, nat_eq,
}
use middlesox.Mangowc.Wayland.{WaylandState}
use middlesox.Mangowc.Thread.{WaylandEvent}
use middlesox.Mangowc.Commands.{Request}
use middlesox.Mangowc.Loop.{
  WaylandCommand, set_tags, set_client_tags, set_layout, get_state, shutdown, Stage, draining,
  polling, clearing, dispatching, left, Loop, Io, Action, thread, send, notify, begin_drop,
  drop_sender, act, run, start, serve_command, drain, poll, dispatched, Polled, interrupted,
  poll_failed, ready, advance, enqueue, requested, is_left,
}

-- A thread that waits in `poll` while a command is in its channel is woken: the eventfd is set, or the
-- sender of a command is about to set it.
abbrev IsWoken : Loop → Type 0
IsWoken l = l.stage ≡ polling → l.queue ≢ [] → (l.wake ≡ true) ⊎ (0 < l.unnotified)

requested-stage :
    (request : ℕ → Request) (id : ℕ) (r : Result ℕ) (l : Loop)
    → (requested request id r l).stage ≡ l.stage
requested-stage request id (err e) l = refl
requested-stage request id (ok output) l = refl

requested-ne-polling :
    (request : ℕ → Request) (id : ℕ) (r : Result ℕ) (l : Loop)
    → l.stage ≡ draining
    → (requested request id r l).stage ≢ polling
requested-ne-polling request id r l e p = cc (sym (requested-stage request id r l) ∙ p, e)

serve_command-stage :
    (c : WaylandCommand) (l : Loop) → l.stage ≡ draining → (serve_command c l).stage ≢ polling
unfolding serve_command
serve_command-stage (set_tags mask toggle id) l e = requested-ne-polling _ id _ l e
serve_command-stage (set_client_tags and_tags xor_tags id) l e = requested-ne-polling _ id _ l e
serve_command-stage (set_layout index id) l e = requested-ne-polling _ id _ l e
serve_command-stage (get_state id) l e = λ p. ground arith
serve_command-stage shutdown l e = λ p. cc

drain-IsWoken :
    (queue : List WaylandCommand) (flushed : Result (Unit {0})) (l : Loop)
    → l.stage ≡ draining
    → l.queue ≡ queue
    → IsWoken (drain queue flushed l)
drain-IsWoken (c ∷ queue) flushed l e q =
    λ p. elim (serve_command-stage c (record l { queue = queue }) e p) [ ]
drain-IsWoken [] (ok u) l e q = ground arith
drain-IsWoken [] (err x) l e q = ground arith

poll-IsWoken : (r : Polled) (l : Loop) → IsWoken l → IsWoken (poll r l)
poll-IsWoken interrupted l h = λ p q. cc
poll-IsWoken (poll_failed e) l h = λ p q. cc
poll-IsWoken (ready events) l h = elim (Bool-cases (l.wake || events)) [
  | inl go ↦ rw go (λ p q. cc)
  | inr stay ↦ rw stay h
]

dispatched-IsWoken :
    (events : Bool) (clock : Option ℕ) (es : Result (List WaylandEvent)) (l : Loop)
    → IsWoken (dispatched events clock es l)
dispatched-IsWoken false clock es l = λ p q. cc
dispatched-IsWoken true clock (err e) l = λ p q. cc
dispatched-IsWoken true clock (ok es) l = λ p q. cc

advance-IsWoken :
    (io : Io) (s : Stage) (l : Loop) → l.stage ≡ s → IsWoken l → IsWoken (advance io s l)
advance-IsWoken io draining l e h = drain-IsWoken l.queue io.flushed l e refl
advance-IsWoken io polling l e h = poll-IsWoken io.polled l h
advance-IsWoken io (clearing woken events) l e h = λ p q. cc
advance-IsWoken io (dispatching events) l e h = dispatched-IsWoken events io.clock io.events l
advance-IsWoken io (left r) l e h = h

enqueue-IsWoken : (b : Bool) (c : WaylandCommand) (l : Loop) → IsWoken l → IsWoken (enqueue b c l)
enqueue-IsWoken true c l h = h
enqueue-IsWoken false c l h = λ p q. inr (omega arith)

act-IsWoken : (a : Action) (l : Loop) → IsWoken l → IsWoken (act a l)
unfolding act
act-IsWoken (thread io) l h = advance-IsWoken io l.stage l refl h
act-IsWoken (send c) l h = enqueue-IsWoken (is_left l.stage) c l h
act-IsWoken notify l h = elim (Bool-cases (nat_eq l.unnotified 0)) [
  | inl nothing ↦ rw nothing h
  | inr something ↦ rw something (λ p q. inl refl)
]
act-IsWoken begin_drop l h = λ p q. inl refl
act-IsWoken drop_sender l h = h

run-keeps : (actions : List Action) (l : Loop) → IsWoken l → IsWoken (run actions l)
unfolding run
run-keeps [] l h = h
run-keeps (a ∷ actions) l h = run-keeps actions (act a l) (act-IsWoken a l h)

run-IsWoken : (actions : List Action) (w : WaylandState) → IsWoken (run actions (start w))
run-IsWoken actions w = run-keeps actions (start w) (λ p q. cc)

-- Whatever the system, the compositor and the senders do, the thread never waits in `poll` over a
-- command that nothing will wake it for: if it waits and a command is in its channel, the eventfd is
-- set, or the sender of a command is still to set it.
pub run-woken :
    (actions : List Action) (w : WaylandState)
    → (run actions (start w)).stage ≡ polling
    → (run actions (start w)).queue ≢ []
    → ((run actions (start w)).wake ≡ true) ⊎ (0 < (run actions (start w)).unnotified)
run-woken actions w = run-IsWoken actions w
