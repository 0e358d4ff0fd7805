-- ===== src/Mangowc/Output.antt =====
-- mangowc/src/lib.rs: the dispatch of the events of `zdwl_ipc_output_v2`, which collects them in
-- `pending` until the frame.
use middlesox.Prelude.{
  ℕ, String, Bool, not, Option, none, some, List, [], ◌∷◌, nat_eq, ltb, if◌then◌else◌, ◌==◌, length,
  set_elem, lookup, insert, remove, ℤ,
}
use middlesox.Event.{State}
use middlesox.Json.{string}
use middlesox.Mangowc.{OutputState, TagInfo, GlobalState, default_output, focus_payload, mask_from}
use middlesox.Mangowc.Frame.{Change, changes, emit_event, emit_changes}
use middlesox.Mangowc.Wayland.{WaylandState, Bound, lookup_id}

-- The events of the protocol; a flag is the number that the protocol sends.
pub data IpcEvent : Type 0 where
  active : (active : ℕ) → IpcEvent
  tag : (tag state clients focused : ℕ) → IpcEvent
  layout : (layout : ℕ) → IpcEvent
  title : (title : String) → IpcEvent
  appid : (appid : String) → IpcEvent
  fullscreen : (is_fullscreen : ℕ) → IpcEvent
  floating : (is_floating : ℕ) → IpcEvent
  layout_symbol : (layout : String) → IpcEvent
  toggle_visibility : IpcEvent
  frame : IpcEvent
  x : (x : ℤ) → IpcEvent
  y : (y : ℤ) → IpcEvent
  width : (width : ℤ) → IpcEvent
  height : (height : ℤ) → IpcEvent
  last_layer : (last_layer : String) → IpcEvent
  kb_layout : (kb_layout : String) → IpcEvent
  keymode : (keymode : String) → IpcEvent
  scalefactor : (scalefactor : ℕ) → IpcEvent

abbrev pub is_on : ℕ → Bool
is_on n = not (nat_eq n 0)

-- A tag out of range changes nothing; else the mask of active tags is computed anew.
unfoldable pub set_tag : ℕ → TagInfo → OutputState → OutputState
unfolding mask_from
set_tag n info o =
    let tags = set_elem o.tag_info n info in
    if ltb n (length o.tag_info)
    then record o { tag_info = tags; active_tags = mask_from (λ t. nat_eq t.state 1) 0 0 tags }
    else o

-- What an event does to the pending state.
unfoldable pub update : IpcEvent → OutputState → OutputState
unfolding set_tag
update (active a) o = record o { active = is_on a }
update (tag n state clients focused) o =
    set_tag n (record { state = state; clients = clients; focused = is_on focused }) o
update (layout n) o = record o { layout_idx = n }
update (title s) o = record o { title = s }
update (appid s) o = record o { appid = s }
update (fullscreen n) o = record o { fullscreen = is_on n }
update (floating n) o = record o { floating = is_on n }
update (layout_symbol s) o = record o { layout_symbol = s }
update toggle_visibility o = o
update frame o = o
update (x n) o = record o { x = n }
update (y n) o = record o { y = n }
update (width n) o = record o { width = n }
update (height n) o = record o { height = n }
update (last_layer s) o = record o { last_layer = s }
update (kb_layout s) o = record o { kb_layout = s }
update (keymode s) o = record o { keymode = s }
update (scalefactor n) o = record o { scale_factor = n }

abbrev pub or_clone : Option OutputState → Option OutputState → OutputState
or_clone (some p) o = p
or_clone none (some o) = o
or_clone none none = default_output

-- The pending state of an output, which starts as a copy of its state.
unfoldable pub pending_of : String → WaylandState → OutputState
unfolding lookup
pending_of name w = or_clone (lookup name w.pending) (lookup name w.state.outputs)

abbrev payload : String → Option OutputState → State
payload name none = ("output", string name) ∷ []
payload name (some o) = focus_payload o name

-- An output that becomes active is the focused one.
unfoldable pub focus : Option ℕ → ℕ → String → WaylandState → WaylandState
unfolding emit_event focus_payload lookup
focus clock id name w =
    let moved : Change = record {
      name = "output_focus";
      prev = payload w.state.focused_output (lookup w.state.focused_output w.state.outputs);
      curr = payload name (lookup name w.state.outputs);
    } in
    if w.state.focused_output == name then record w { focused_output_id = some id } else record w {
      focused_output_id = some id;
      state = record (w.state) { focused_output = name };
      sink = emit_event clock moved w.sink;
    }

abbrev pub frame_changes :
    GlobalState → String → Bool → Option OutputState → OutputState → List Change
frame_changes global name focused none o = []
frame_changes global name focused (some old) o = changes global name focused old o

-- A frame: the pending state becomes the state of the output, with an event for each change.
unfoldable pub commit : Option ℕ → String → OutputState → WaylandState → WaylandState
unfolding changes emit_changes insert remove lookup
commit clock name o w = record w {
  pending = remove name w.pending;
  sink =
      emit_changes clock
        (frame_changes w.state.global name (name == w.state.focused_output)
          (lookup name w.state.outputs) o)
        w.sink;
  state = record (w.state) { outputs = insert name o w.state.outputs };
}

abbrev pub collect : IpcEvent → String → WaylandState → WaylandState
collect e name w = record w { pending = insert name (update e (pending_of name w)) w.pending }

abbrev pub on_named : Option ℕ → IpcEvent → ℕ → Option Bound → WaylandState → WaylandState
on_named clock e id none w = w
on_named clock frame id (some b) w = commit clock b.name (pending_of b.name w) w
on_named clock (active a) id (some b) w =
    let w' = collect (active a) b.name w in if is_on a then focus clock id b.name w' else w'
on_named clock e id (some b) w = collect e b.name w

unfoldable pub on_ipc : Option ℕ → ℕ → IpcEvent → WaylandState → WaylandState
unfolding update pending_of focus commit lookup_id insert
on_ipc clock id e w = on_named clock e id (lookup_id id w.outputs) w
