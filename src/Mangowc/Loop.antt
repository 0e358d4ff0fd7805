-- ===== src/Mangowc/Loop.antt =====
-- mangowc/src/lib.rs: `run_wayland_loop` and the senders of its commands, a step of either at a time.
-- The eventfd is a flag, its counter being read only to clear it.
pub mod Wakeup
pub mod Answers
use middlesox.Prelude.{
  ℕ, ◌+◌, ◌-◌, String, Bool, true, false, ◌||◌, Option, none, some, List, [], ◌∷◌, ◌++◌, Result, ok,
  err, if◌then◌else◌, nat_eq,
}
use middlesox.Mangowc.{CompositorState}
use middlesox.Mangowc.Wayland.{WaylandState}
use middlesox.Mangowc.Thread.{WaylandEvent, dispatch_all}
use middlesox.Mangowc.Commands.{Request, focused_ipc}

-- A command, with the number of the channel that its reply is sent on.
pub data WaylandCommand : Type 0 where
  set_tags : (tagmask : ℕ) (toggle : Bool) (reply : ℕ) → WaylandCommand
  set_client_tags : (and_tags xor_tags : ℕ) (reply : ℕ) → WaylandCommand
  set_layout : (index : ℕ) (reply : ℕ) → WaylandCommand
  get_state : (reply : ℕ) → WaylandCommand
  shutdown : WaylandCommand

pub data Reply : Type 0 where
  done : (result : Result (Unit {0})) → Reply
  state : (snapshot : CompositorState) → Reply

-- Where the thread stands: it drains its commands, waits in `poll`, clears the eventfd, or dispatches
-- events; it has left the loop with a result.
pub data Stage : Type 0 where
  draining polling : Stage
  clearing : (woken ready : Bool) → Stage
  dispatching : (ready : Bool) → Stage
  left : (result : Result (Unit {0})) → Stage

-- `queue` is the channel of commands, `senders` says whether its sender is still there, and
-- `unnotified` how many of the commands sent have not been followed by their wake-up yet.
pub record Loop : Type 0 where
  pub wayland : WaylandState
  pub stage : Stage
  pub queue : List WaylandCommand
  pub senders : Bool
  pub unnotified : ℕ
  pub wake : Bool
  pub requests : List Request
  pub replies : List (ℕ × Reply)

abbrev pub replied : ℕ → Reply → Loop → Loop
replied id r l = record l { replies = l.replies ++ ((id, r) ∷ []) }

abbrev pub requested : (ℕ → Request) → ℕ → Result ℕ → Loop → Loop
requested request id (err e) l = replied id (done (err e)) l
requested request id (ok output) l =
    replied id (done (ok tt)) (record l { requests = l.requests ++ (request output ∷ []) })

-- The `match` on a command that was taken out of the channel.
unfoldable pub serve_command : WaylandCommand → Loop → Loop
unfolding focused_ipc
serve_command (set_tags mask toggle id) l =
    requested (λ output. Request.set_tags output mask toggle) id (focused_ipc l.wayland) l
serve_command (set_client_tags and_tags xor_tags id) l =
    requested (λ output. Request.set_client_tags output and_tags xor_tags) id
      (focused_ipc l.wayland) l
serve_command (set_layout index id) l =
    requested (λ output. Request.set_layout output index) id (focused_ipc l.wayland) l
serve_command (get_state id) l = replied id (state l.wayland.state) l
serve_command shutdown l = record l { stage = left (ok tt) }

-- `try_recv`; an empty channel is flushed and polled, one without senders ends the loop.
abbrev pub drain : List WaylandCommand → Result (Unit {0}) → Loop → Loop
drain (c ∷ queue) flushed l = serve_command c (record l { queue = queue })
drain [] (ok u) l =
    if l.senders then record l { stage = polling } else record l { stage = left (ok tt) }
drain [] (err e) l =
    if l.senders then record l { stage = left (err e) } else record l { stage = left (ok tt) }

-- What `poll` returns: an interruption, an error, or whether events are ready. It returns only if they
-- are, or if the eventfd is set.
pub data Polled : Type 0 where
  interrupted : Polled
  poll_failed : (error : String) → Polled
  ready : Bool → Polled

abbrev pub poll : Polled → Loop → Loop
poll interrupted l = record l { stage = draining }
poll (poll_failed e) l = record l { stage = left (err e) }
poll (ready events) l = if l.wake || events then record l { stage = clearing l.wake events } else l

abbrev pub dispatched : Bool → Option ℕ → Result (List WaylandEvent) → Loop → Loop
dispatched false clock events l = record l { stage = draining }
dispatched true clock (err e) l = record l { stage = left (err e) }
dispatched true clock (ok events) l = record l {
  stage = draining;
  wayland = dispatch_all clock events l.wayland;
}

-- What the system gives to one step of the thread.
pub record Io : Type 0 where
  pub clock : Option ℕ
  pub flushed : Result (Unit {0})
  pub polled : Polled
  pub events : Result (List WaylandEvent)

abbrev pub advance : Io → Stage → Loop → Loop
advance io draining l = drain l.queue io.flushed l
advance io polling l = poll io.polled l
advance io (clearing woken events) l = record l {
  stage = dispatching events;
  wake = if woken then false else l.wake;
}
advance io (dispatching events) l = dispatched events io.clock io.events l
advance io (left r) l = l

-- A command is put into the channel, then its wake-up follows. When the sender goes, `begin_drop` is
-- the body of its `drop`, which sets the eventfd, and `drop_sender` the end of its channel after that.
pub data Action : Type 0 where
  thread : Io → Action
  send : WaylandCommand → Action
  notify begin_drop drop_sender : Action

abbrev pub is_left : Stage → Bool
is_left (left r) = true
is_left s = false

abbrev pub enqueue : Bool → WaylandCommand → Loop → Loop
enqueue true c l = l
enqueue false c l = record l { queue = l.queue ++ (c ∷ []); unnotified = l.unnotified + 1 }

unfoldable pub act : Action → Loop → Loop
unfolding serve_command dispatch_all
act (thread io) l = advance io l.stage l
act (send c) l = enqueue (is_left l.stage) c l
act notify l =
    if nat_eq l.unnotified 0 then l else record l { unnotified = l.unnotified - 1; wake = true }
act begin_drop l = record l { wake = true }
act drop_sender l = record l { senders = false }

unfoldable pub run : List Action → Loop → Loop
unfolding act
run [] l = l
run (a ∷ actions) l = run actions (act a l)

abbrev pub start : WaylandState → Loop
start w = record {
  wayland = w;
  stage = draining;
  queue = [];
  senders = true;
  unnotified = 0;
  wake = false;
  requests = [];
  replies = [];
}
