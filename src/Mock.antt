-- ===== src/Mock.antt =====
-- mock/src/lib.rs: the backend without a window manager. `clock` is what `RawEvent::new` reads.
pub mod Laws
pub mod Ticks
use middlesox.Prelude.{
  ℕ, zero, suc, ◌+◌, ◌-◌, ◌%◌, ◌^◌, String, Bool, true, false, ◌&&◌, ◌||◌, Option, none, some, List,
  [], ◌∷◌, Result, ok, err, ◌<>◌, ◌==◌, nat_eq, leb, if◌then◌else◌, contains, is_empty, ℤ, pos,
  negsuc,
}
use middlesox.Json.{Value, string, from_i64, from_u64, as_i64, as_str}
use middlesox.Capability.{read_only_cap, read_write_cap, with_description}
use middlesox.Manifest
use middlesox.Manifest.{CapabilityManifest, add}
use middlesox.Event.{RawEvent, with_prev, with_curr}
use middlesox.Event
use middlesox.Adapter.{ProtocolAdapter}

-- `tick` says whether the interval has been set up.
pub record MockBackend : Type 0 where
  pub workspace : ℤ
  pub layout : String
  pub event_interval_ms : ℕ
  pub subscriptions : List String
  pub tick : Bool
  pub cycle : ℕ
  pub shutdown : Bool

unfoldable pub new : MockBackend
new = record {
  workspace = pos 1;
  layout = "master";
  event_interval_ms = 2000;
  subscriptions = [];
  tick = false;
  cycle = 0;
  shutdown = false;
}

unfoldable pub with_interval : MockBackend → ℕ → MockBackend
with_interval b ms = record b { event_interval_ms = ms }

unfoldable pub manifest : MockBackend → CapabilityManifest
unfolding Manifest.new add read_write_cap read_only_cap with_description
manifest b =
    add
      (add
        (add
          (add Manifest.new
            (with_description (read_write_cap "workspace") "Current workspace number (1-10)"))
          (with_description (read_write_cap "layout") "Window layout mode (master, grid, float)"))
        (with_description (read_only_cap "monitor") "Current monitor name"))
      (with_description (read_only_cap "window_count") "Number of windows on current workspace")

unfoldable pub subscribe : List String → MockBackend → Result (Unit {0}) × MockBackend
subscribe subs b = (ok tt, record b { subscriptions = subs; tick = true })

-- `(ws % 4) + 1` on `i64`, whose remainder has the sign of `ws`.
unfoldable pub next_workspace : ℤ → ℤ
next_workspace (pos n) = pos (n % 4 + 1)
next_workspace (negsuc n) = let r = suc n % 4 in if leb r 1 then pos (1 - r) else negsuc (r - 2)

-- One round of the loop of `next_event`.
unfoldable pub on_tick : Option ℕ → MockBackend → Option RawEvent × MockBackend
unfolding next_workspace
on_tick clock b =
    let c = (b.cycle + 1) % 2 ^ 64 in
    let b' = record b { cycle = c } in
    if nat_eq (c % 3) 0 && contains b.subscriptions "workspace_change"
    then (
      some (
          with_curr
            (with_curr (with_prev (Event.new clock "workspace_change") "id" (from_i64 b.workspace))
              "id" (from_i64 (next_workspace b.workspace)))
            "monitor" (string "MOCK-1")),
      record b' { workspace = next_workspace b.workspace },
    )
    else if nat_eq (c % 3) 1 && contains b.subscriptions "window_update"
    then (
      some (
          with_curr
            (with_curr (Event.new clock "window_update") "window_count" (from_u64 (c % 5 + 1)))
            "workspace" (from_i64 b.workspace)),
      b',
    )
    else if nat_eq (c % 3) 2 && contains b.subscriptions "layout_hint"
    then (
      some (
          with_curr (with_curr (Event.new clock "layout_hint") "layout" (string b.layout))
            "workspace" (from_i64 b.workspace)),
      b',
    )
    else (none, b')

abbrev until_event :
    Option RawEvent × MockBackend
    → (MockBackend → Option (Result (Option RawEvent) × MockBackend))
    → Option (Result (Option RawEvent) × MockBackend)
until_event (some e, b) k = some (ok (some e), b)
until_event (none, b) k = k b

-- The loop, which has not returned after `rounds` ticks without an event.
unfoldable pub tick_loop :
    Option ℕ → ℕ → MockBackend → Option (Result (Option RawEvent) × MockBackend)
unfolding on_tick
tick_loop clock zero b = none
tick_loop clock (suc rounds) b = until_event (on_tick clock b) (λ b'. tick_loop clock rounds b')

-- Without subscriptions the call waits for ever. Before `subscribe` the code panics; the actor
-- never polls such a backend.
unfoldable pub next_event : Option ℕ → MockBackend → Option (Result (Option RawEvent) × MockBackend)
next_event clock b =
    if b.shutdown
    then some (ok none, b)
    else if b.tick
    then if is_empty b.subscriptions then none else tick_loop clock 3 b
    else none

unfoldable pub get : String → MockBackend → Result Value × MockBackend
get key b =
    if key == "workspace"
    then (ok (from_i64 b.workspace), b)
    else if key == "layout"
    then (ok (string b.layout), b)
    else if key == "monitor"
    then (ok (string "MOCK-1"), b)
    else if key == "window_count"
    then (ok (from_u64 3), b)
    else (err ("Unknown key: " <> key), b)

abbrev in_range : ℤ → Bool
in_range (pos n) = leb 1 n && leb n 10
in_range (negsuc n) = false

set_workspace : Option ℤ → MockBackend → Result (Unit {0}) × MockBackend
set_workspace none b = (err "workspace must be an integer", b)
set_workspace (some ws) b =
    if in_range ws then (ok tt, record b { workspace = ws }) else (err "workspace must be 1-10", b)

abbrev valid_layouts : List String
valid_layouts = "master" ∷ "grid" ∷ "float" ∷ []

set_layout : Option String → MockBackend → Result (Unit {0}) × MockBackend
set_layout none b = (err "layout must be a string", b)
set_layout (some layout) b =
    if contains valid_layouts layout
    then (ok tt, record b { layout = layout })
    else (err "layout must be one of: [\"master\", \"grid\", \"float\"]", b)

unfoldable pub set : String → Value → MockBackend → Result (Unit {0}) × MockBackend
unfolding set_workspace set_layout
set key v b =
    if key == "workspace"
    then set_workspace (as_i64 v) b
    else if key == "layout"
    then set_layout (as_str v) b
    else if key == "monitor" || key == "window_count"
    then (err ("'" <> (key <> "' is read-only")), b)
    else (err ("Unknown key: " <> key), b)

unfoldable pub shutdown : MockBackend → Result (Unit {0}) × MockBackend
shutdown b = (ok tt, record b { shutdown = true })

abbrev pub adapter : Option ℕ → ProtocolAdapter MockBackend
adapter clock = record {
  name = λ b. "mock";
  manifest = manifest;
  subscribe = subscribe;
  next_event = next_event clock;
  get = get;
  set = set;
  init = λ b. (ok tt, b);
  shutdown = shutdown;
}
