-- ===== src/Mangowc/Frame.antt =====
-- mangowc/src/lib.rs: `emit_event`, and the events that a frame makes of the differences between two
-- states of an output.
use middlesox.Prelude.{
  ℕ, String, Bool, true, not, ◌&&◌, ◌||◌, Option, List, [], ◌∷◌, ◌++◌, nat_eq, ltb, if◌then◌else◌,
  ◌==◌, bool_eq, int_eq, contains, length,
}
use middlesox.Event.{RawEvent, State, with_prev_state, with_curr_state}
use middlesox.Event
use middlesox.Json.{bool, string, from_u64, from_i64}
use middlesox.Mangowc.{OutputState, GlobalState, layout_name, scale_value}

-- The subscriptions and the channel of events: the events that wait in it, and whether its receiver is
-- still there.
pub record Sink : Type 0 where
  pub subscriptions : List String
  pub waiting : List RawEvent
  pub receiving : Bool

unfoldable pub start_sink : List String → Sink
start_sink subscriptions = record { subscriptions = subscriptions; waiting = []; receiving = true }

-- The room of the channel.
abbrev pub capacity : ℕ
capacity = 100

-- `try_send`: an event that the channel does not take is lost.
unfoldable pub try_send : RawEvent → Sink → Sink
try_send e k =
    if k.receiving && ltb (length k.waiting) capacity
    then record k { waiting = k.waiting ++ (e ∷ []) }
    else k

-- One event of a frame, its name and its two states.
pub record Change : Type 0 where
  pub name : String
  pub prev : State
  pub curr : State

unfoldable pub emit_event : Option ℕ → Change → Sink → Sink
unfolding try_send
emit_event clock c k =
    if contains k.subscriptions c.name
    then try_send (with_curr_state (with_prev_state (Event.new clock c.name) c.prev) c.curr) k
    else k

-- The changes whose test holds, in their order.
unfoldable pub picked : List (Bool × Change) → List Change
picked [] = []
picked ((changed, c) ∷ ds) = let rest = picked ds in if changed then c ∷ rest else rest

module _ (global : GlobalState) (output : String) where
  abbrev with_output : State → State
  with_output s = s ++ (("output", string output) ∷ [])

  abbrev layout_state : OutputState → State
  layout_state o = with_output (
      ("layout", from_u64 o.layout_idx)
      ∷ ("layout_name", string (layout_name o global))
      ∷ ("layout_symbol", string o.layout_symbol)
      ∷ [])

  abbrev geometry_state : OutputState → State
  geometry_state o = with_output (
      ("x", from_i64 o.x)
      ∷ ("y", from_i64 o.y)
      ∷ ("width", from_i64 o.width)
      ∷ ("height", from_i64 o.height)
      ∷ [])

  -- What a change of `of` makes an event of.
  abbrev change : String → (OutputState → State) → OutputState → OutputState → Change
  change name of old o = record { name = name; prev = of old; curr = of o }

  -- The later events of a frame, each with its test.
  abbrev pub screen_differences : OutputState → OutputState → List (Bool × Change)
  screen_differences old o =
      (
        not (int_eq old.x o.x)
            || not (int_eq old.y o.y)
            || not (int_eq old.width o.width)
            || not (int_eq old.height o.height),
        change "geometry_change" geometry_state old o,
      )
      ∷ (
        not (old.last_layer == o.last_layer),
        change "layer_change" (λ s. with_output (("last_layer", string s.last_layer) ∷ [])) old o,
      )
      ∷ (
        not (old.kb_layout == o.kb_layout),
        change "keyboard_layout_change" (λ s. with_output (("kb_layout", string s.kb_layout) ∷ []))
            old o,
      )
      ∷ (
        not (old.keymode == o.keymode),
        change "keymode_change" (λ s. with_output (("keymode", string s.keymode) ∷ [])) old o,
      )
      ∷ (
        not (nat_eq old.scale_factor o.scale_factor),
        change "scale_factor_change" (λ s. with_output (("scale_factor", scale_value s) ∷ [])) old
            o,
      )
      ∷ []

  -- Each event of a frame with its test, in their order; `focused` says that the output is the
  -- focused one.
  abbrev pub differences : Bool → OutputState → OutputState → List (Bool × Change)
  differences focused old o =
      (
        not (nat_eq old.active_tags o.active_tags),
        change "tag_change" (λ s. with_output (("tags", from_u64 s.active_tags) ∷ [])) old o,
      )
      ∷ (
        not (nat_eq old.layout_idx o.layout_idx) || not (old.layout_symbol == o.layout_symbol),
        change "layout_change" layout_state old o,
      )
      ∷ (
        focused && (not (old.title == o.title) || not (old.appid == o.appid)),
        change "focus_change" (λ s. ("title", string s.title) ∷ ("appid", string s.appid) ∷ []) old
            o,
      )
      ∷ (
        not (bool_eq old.fullscreen o.fullscreen) || not (bool_eq old.floating o.floating),
        change "window_state_change"
            (λ s.
              with_output (("fullscreen", bool s.fullscreen) ∷ ("floating", bool s.floating) ∷ []))
            old o,
      )
      ∷ screen_differences old o

  unfoldable pub changes : Bool → OutputState → OutputState → List Change
  unfolding picked
  changes focused old o = picked (differences focused old o)

unfoldable pub emit_changes : Option ℕ → List Change → Sink → Sink
unfolding emit_event
emit_changes clock [] k = k
emit_changes clock (c ∷ cs) k = emit_changes clock cs (emit_event clock c k)
