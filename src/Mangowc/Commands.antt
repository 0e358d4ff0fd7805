-- ===== src/Mangowc/Commands.antt =====
-- mangowc/src/lib.rs: the commands that the Wayland thread serves, and `get`, `set` and `shutdown` of
-- the backend, which send them.
pub mod Served
use middlesox.Prelude.{
  ℕ, ◌+◌, ◌%◌, String, Bool, true, false, Option, none, some, List, [], ◌∷◌, ◌++◌, map, Result, ok,
  err, ◌>>=◌, ok_or, ◌<>◌, ◌==◌, if◌then◌else◌, lookup, u32_mod,
}
use middlesox.Json.{Value, bool, string, array, to_items, as_u64, as_str, from_u64, from_i64}
use middlesox.Event.{RawEvent}
use middlesox.Mangowc.{
  OutputState, CompositorState, layout_code_to_name, layout_name, focused_client_tags,
  occupied_tags, urgent_tags, client_count, geometry_json, tag_info_json, scale_value,
}
use middlesox.Mangowc.Values.{layout_matches, parse_tags_value, parse_client_tags_value}
use middlesox.Mangowc.Wayland.{WaylandState, Bound, lookup_id}

-- What is sent to the compositor for an output.
pub data Request : Type 0 where
  set_tags : (output tagmask : ℕ) (toggle : Bool) → Request
  set_client_tags : (output and_tags xor_tags : ℕ) → Request
  set_layout : (output index : ℕ) → Request

-- The Wayland thread: `serving` takes the commands of its channel, `leaving` has left its loop before
-- the channel is closed, so that a command is taken and never answered, `gone` has closed it.
pub data Phase : Type 0 where
  serving leaving gone : Phase

pub record Thread : Type 0 where
  pub wayland : WaylandState
  pub requests : List Request
  pub phase : Phase

abbrev pub bound_output : ℕ → Option Bound → Result ℕ
bound_output id none = err "No IPC output available for focused output"
bound_output id (some b) = if b.ipc then ok id else err "No IPC output available for focused output"

abbrev pub focused_from : WaylandState → Option ℕ → Result ℕ
focused_from w none = err "No focused output"
focused_from w (some id) = bound_output id (lookup_id id w.outputs)

-- The focused output, if it is bound.
unfoldable pub focused_ipc : WaylandState → Result ℕ
unfolding lookup_id
focused_ipc w = focused_from w w.focused_output_id

abbrev pub sent : (ℕ → Request) → Result ℕ → Thread → Result (Unit {0}) × Thread
sent request (err e) t = (err e, t)
sent request (ok id) t = (ok tt, record t { requests = t.requests ++ (request id ∷ []) })

-- A command that the thread answers by a request to the focused output.
abbrev pub serve : (ℕ → Request) → Thread → Result (Unit {0}) × Thread
serve request t = sent request (focused_ipc t.wayland) t

abbrev pub at_phase :
    {A : Type 0} → Phase → Thread → (Thread → Result A × Thread) → Result A × Thread
at_phase Phase.serving t f = f t
at_phase Phase.leaving t f = (err "No response from Wayland thread", t)
at_phase Phase.gone t f = (err "Wayland thread closed", t)

-- `cmd_tx.send(…)` and the wait for the reply.
abbrev pub ask : {A : Type 0} → (Thread → Result A × Thread) → Thread → Result A × Thread
ask f t = at_phase t.phase t f

-- `thread` is there once `subscribe` has stored the sender, `event_rx` with it.
pub record MangoWcBackend : Type 0 where
  pub thread : Option Thread

abbrev with_thread :
    {A : Type 0} → (Thread → Result A × Thread) → Option Thread → Result A × Option Thread
with_thread f none = (err "Backend not started (subscribe() not called)", none)
with_thread f (some t) = let (r, t') = f t in (r, some t')

abbrev started :
    {A : Type 0} → (Thread → Result A × Thread) → MangoWcBackend → Result A × MangoWcBackend
started f b = let (r, t) = with_thread f b.thread in (r, record { thread = t })

abbrev names_of : List String → Value
names_of names = array (to_items (map (λ name. string name) names))

abbrev key_names : {V : Type 0} → List (String × V) → List String
key_names m = map (λ (k, v). k) m

-- The value of a key in a state with its focused output; `sort` is the library's sorting of texts.
unfoldable pub read_key :
    (List String → List String) → String → CompositorState → OutputState → Result Value
unfolding layout_code_to_name layout_name focused_client_tags occupied_tags urgent_tags client_count
    geometry_json tag_info_json scale_value
read_key sort key s o =
    if key == "layout"
    then ok (from_u64 o.layout_idx)
    else if key == "layout_name"
    then ok (string (layout_name o s.global))
    else if key == "layout_symbol"
    then ok (string o.layout_symbol)
    else if key == "layouts"
    then ok (names_of (map layout_code_to_name s.global.layouts))
    else if key == "tags"
    then ok (from_u64 o.active_tags)
    else if key == "client_tags"
    then ok (from_u64 (focused_client_tags o))
    else if key == "tag_count"
    then ok (from_u64 s.global.tag_count)
    else if key == "tag_info"
    then ok (tag_info_json o)
    else if key == "occupied_tags"
    then ok (from_u64 (occupied_tags o))
    else if key == "urgent_tags"
    then ok (from_u64 (urgent_tags o))
    else if key == "client_count"
    then ok (from_u64 (client_count o))
    else if key == "title"
    then ok (string o.title)
    else if key == "appid"
    then ok (string o.appid)
    else if key == "output"
    then ok (string s.focused_output)
    else if key == "outputs"
    then ok (names_of (sort (key_names s.outputs)))
    else if key == "fullscreen"
    then ok (bool o.fullscreen)
    else if key == "floating"
    then ok (bool o.floating)
    else if key == "geometry"
    then ok (geometry_json o)
    else if key == "x"
    then ok (from_i64 o.x)
    else if key == "y"
    then ok (from_i64 o.y)
    else if key == "width"
    then ok (from_i64 o.width)
    else if key == "height"
    then ok (from_i64 o.height)
    else if key == "last_layer"
    then ok (string o.last_layer)
    else if key == "kb_layout"
    then ok (string o.kb_layout)
    else if key == "keymode"
    then ok (string o.keymode)
    else if key == "scale_factor"
    then ok (scale_value o)
    else err ("Unknown key: " <> key)

unfoldable pub get :
    (List String → List String) → String → MangoWcBackend → Result Value × MangoWcBackend
unfolding read_key lookup
get sort key = started (
    ask (λ t. (
      ok_or (lookup t.wayland.state.focused_output t.wayland.state.outputs) "No focused output"
          >>= read_key sort key t.wayland.state,
      t,
    )))

abbrev index_from : ℕ → String → List String → Option ℕ
index_from i name [] = none
index_from i name (code ∷ codes) =
    let rest = index_from (i + 1) name codes in if layout_matches code name then some i else rest

-- `iter().position(…)` among the layouts.
unfoldable pub layout_position : String → List String → Option ℕ
unfolding layout_matches
layout_position name codes = index_from 0 name codes

-- A command whose arguments are read from the value first.
abbrev pub parsed_then :
    {A : Type 0} → Result A → (A → ℕ → Request) → Thread → Result (Unit {0}) × Thread
parsed_then (err e) request t = (err e, t)
parsed_then (ok a) request t = ask (serve (request a)) t

-- `as u32`, after which a reply with the state is waited for, then one for the layout.
abbrev pub set_layout_named : String → Thread → Result (Unit {0}) × Thread
set_layout_named name = ask (λ t.
    parsed_then
      (ok_or (layout_position name t.wayland.state.global.layouts)
        ("Layout '" <> name <> "' not found"))
      (λ index id. Request.set_layout id (index % u32_mod)) t)

abbrev pub named_or_refused : Result String → Thread → Result (Unit {0}) × Thread
named_or_refused (err e) t = (err e, t)
named_or_refused (ok name) t = set_layout_named name t

-- `set`, once the sender is there.
unfoldable pub set_on : String → Value → Thread → Result (Unit {0}) × Thread
unfolding parse_tags_value parse_client_tags_value layout_position focused_ipc
set_on key v t =
    if key == "tags"
    then parsed_then (parse_tags_value v) (λ (mask, toggle) id. Request.set_tags id mask toggle) t
    else if key == "client_tags"
    then parsed_then (parse_client_tags_value v)
        (λ (and_tags, xor_tags) id. Request.set_client_tags id and_tags xor_tags) t
    else if key == "layout"
    then parsed_then (ok_or (as_u64 v) "layout must be a number")
        (λ index id. Request.set_layout id (index % u32_mod)) t
    else if key == "layout_name"
    then named_or_refused (ok_or (as_str v) "layout_name must be a string") t
    else (err ("Cannot set '" <> key <> "' (read-only or unknown)"), t)

unfoldable pub set : String → Value → MangoWcBackend → Result (Unit {0}) × MangoWcBackend
unfolding set_on
set key v = started (set_on key v)

-- The thread is told to leave; the backend forgets it.
unfoldable pub shutdown : MangoWcBackend → Result (Unit {0}) × MangoWcBackend
shutdown b = (ok tt, record { thread = none })
