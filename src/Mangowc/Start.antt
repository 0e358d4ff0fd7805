-- ===== src/Mangowc/Start.antt =====
-- mangowc/src/lib.rs: `subscribe`, which starts the Wayland thread and waits until it is ready,
-- `next_event`, and the backend as an adapter.
pub mod Ready
use middlesox.Prelude.{
  ℕ, String, Bool, true, false, Option, none, some, List, [], ◌∷◌, Result, ok, err, ◌<>◌,
  if◌then◌else◌,
}
use middlesox.Event.{RawEvent}
use middlesox.Adapter.{ProtocolAdapter}
use middlesox.Mangowc.Wayland.{WaylandState}
use middlesox.Mangowc.Wayland as Wayland
use middlesox.Mangowc.Thread.{WaylandEvent, dispatch_all}
use middlesox.Mangowc.Commands.{Thread, Phase, MangoWcBackend, get, set, shutdown}
use middlesox.Mangowc.Caps.{manifest}

-- What the system and the compositor give to the start: the eventfd, the connection, and the events of
-- the two roundtrips.
pub record Compositor : Type 0 where
  pub clock : Option ℕ
  pub eventfd : Result (Unit {0})
  pub connect : Result (Unit {0})
  pub first : Result (List WaylandEvent)
  pub second : Result (List WaylandEvent)

abbrev pub no_manager : String
no_manager = "zdwl_ipc_manager_v2 not available - is this a dwl-based compositor?"

abbrev pub dispatched :
    Option ℕ → String → Result (List WaylandEvent) → WaylandState → Result WaylandState
dispatched clock message (err e) w = err (message <> e)
dispatched clock message (ok events) w = ok (dispatch_all clock events w)

-- The second roundtrip, for tags and layouts.
abbrev pub with_manager : Compositor → Result WaylandState → Result WaylandState
with_manager k (err e) = err e
with_manager k (ok w) =
    if w.manager then dispatched k.clock "Roundtrip failed: " k.second w else err no_manager

abbrev pub connected : Compositor → Result (Unit {0}) → WaylandState → Result WaylandState
connected k (err e) w = err ("Failed to connect to Wayland display: " <> e)
connected k (ok u) w = with_manager k (dispatched k.clock "Roundtrip failed: " k.first w)

-- `run_wayland_loop` up to its loop: the state that it is entered with.
unfoldable pub start_thread : Compositor → List String → Result WaylandState
unfolding dispatch_all Wayland.new
start_thread k subscriptions = connected k k.connect (Wayland.new subscriptions)

abbrev thread_in : Phase → WaylandState → Thread
thread_in phase w = record { wayland = w; requests = []; phase = phase }

-- The two channels are stored before the thread says whether it is ready.
abbrev pub signalled : List String → Result WaylandState → Result (Unit {0}) × MangoWcBackend
signalled subscriptions (err e) =
    (err e, record { thread = some (thread_in Phase.gone (Wayland.new subscriptions)) })
signalled subscriptions (ok w) = (ok tt, record { thread = some (thread_in Phase.serving w) })

abbrev pub with_eventfd :
    Compositor
    → Result (Unit {0})
    → List String
    → MangoWcBackend
    → Result (Unit {0}) × MangoWcBackend
with_eventfd k (err e) subscriptions b = (err ("Failed to create eventfd: " <> e), b)
with_eventfd k (ok u) subscriptions b = signalled subscriptions (start_thread k subscriptions)

unfoldable pub subscribe :
    Compositor → List String → MangoWcBackend → Result (Unit {0}) × MangoWcBackend
unfolding start_thread Wayland.new
subscribe k subscriptions b = with_eventfd k k.eventfd subscriptions b

abbrev ended : Phase → Bool
ended Phase.gone = true
ended phase = false

abbrev received :
    Thread → List RawEvent → MangoWcBackend → Option (Result (Option RawEvent) × MangoWcBackend)
received t [] b = if ended t.phase then some (ok none, b) else none
received t (e ∷ es) b = some (
  ok (some e),
  record {
    thread = some (record t {
      wayland = record (t.wayland) { sink = record (t.wayland.sink) { waiting = es } };
    });
  },
)

abbrev receive_from :
    Option Thread → MangoWcBackend → Option (Result (Option RawEvent) × MangoWcBackend)
receive_from none b = some (err "subscribe() must be called before next_event()", b)
receive_from (some t) b = received t t.wayland.sink.waiting b

unfoldable pub next_event : MangoWcBackend → Option (Result (Option RawEvent) × MangoWcBackend)
next_event b = receive_from b.thread b

-- `sort` is the library's sorting of texts.
abbrev pub adapter : Compositor → (List String → List String) → ProtocolAdapter MangoWcBackend
adapter k sort = record {
  name = λ b. "mangowc";
  manifest = λ b. manifest;
  subscribe = subscribe k;
  next_event = next_event;
  get = get sort;
  set = set;
  init = λ b. (ok tt, b);
  shutdown = shutdown;
}
