-- ===== src/HyprlandEvents.antt =====
-- hyprland/src/lib.rs: `EventTranslator`, which reads the lines `event>>data` of the event socket.
-- `clock` is what `RawEvent::new` reads.
pub mod Reader
pub mod Kinds
pub mod Tracking
pub mod Stream
pub mod Chain
use middlesox.Prelude.{
  ℕ, String, Bool, true, false, Option, none, some, List, [], ◌∷◌, ◌++◌, Result, ok, err, ◌==◌,
  if◌then◌else◌, contains, is_empty_text, insert, ℤ, pos, split_once, split_once_arrow, trim,
  trim_end, parse_i64,
}
use middlesox.Json.{Value, bool, string, from_i64}
use middlesox.Event.{State, RawEvent, with_prev_state, with_curr_state, ◌>>=◌}
use middlesox.Event

pub record EventTranslator : Type 0 where
  pub workspace_id : ℤ
  pub workspace_name : String
  pub title : String
  pub appid : String
  pub output : String
  pub fullscreen : Bool
  pub keymode : String
  pub kb_layout : String

unfoldable pub default_translator : EventTranslator
default_translator = record {
  workspace_id = pos 0;
  workspace_name = "";
  title = "";
  appid = "";
  output = "";
  fullscreen = false;
  keymode = "";
  kb_layout = "";
}

-- In what follows every early return stands before the first change of the translator, so `none` leaves
-- it as it was.

-- An event that leads from one state to another.
abbrev pub transition : Option ℕ → String → State → State → RawEvent
transition clock name prev curr = with_curr_state (with_prev_state (Event.new clock name) prev) curr

-- "ID,NAME"
abbrev pub numbered : String → Option (ℤ × String)
numbered body = do (id, name) ← split_once b',' body; n ← parse_i64 id; some (n, name)

abbrev pub workspace_state : ℤ → String → State
workspace_state id name = ("id", from_i64 id) ∷ ("name", string name) ∷ []

unfoldable pub workspace_change :
    Option ℕ → String → EventTranslator → Option (RawEvent × EventTranslator)
workspace_change clock body t = do
  (id, name) ← numbered body
  some (
    transition clock "workspace_change" (workspace_state t.workspace_id t.workspace_name)
        (workspace_state id name),
    record t { workspace_id = id; workspace_name = name },
  )

abbrev pub window_state : String → String → State
window_state title class = ("title", string title) ∷ ("appid", string class) ∷ []

unfoldable pub focus_change :
    Option ℕ → String → EventTranslator → Option (RawEvent × EventTranslator)
focus_change clock body t = do
  (class, title) ← split_once b',' body
  some (
    transition clock "focus_change" (window_state t.title t.appid) (window_state title class),
    record t { title = title; appid = class },
  )

unfoldable pub output_focus :
    Option ℕ → String → EventTranslator → Option (RawEvent × EventTranslator)
output_focus clock body t = do
  (monitor, workspace) ← split_once b',' body
  some (
    transition clock "output_focus" (("output", string t.output) ∷ [])
        (("output", string monitor) ∷ ("workspace", string workspace) ∷ []),
    record t { output = monitor },
  )

unfoldable pub window_state_change :
    Option ℕ → String → EventTranslator → Option (RawEvent × EventTranslator)
unfolding trim
window_state_change clock body t =
    let fullscreen = trim body == "1" in
    some (
      transition clock "window_state_change" (("fullscreen", bool t.fullscreen) ∷ [])
          (("fullscreen", bool fullscreen) ∷ []),
      record t { fullscreen = fullscreen },
    )

unfoldable pub keymode_change :
    Option ℕ → String → EventTranslator → Option (RawEvent × EventTranslator)
keymode_change clock body t = some (
  transition clock "keymode_change" (("keymode", string t.keymode) ∷ [])
      (("keymode", string body) ∷ []),
  record t { keymode = body },
)

unfoldable pub keyboard_layout_change :
    Option ℕ → String → EventTranslator → Option (RawEvent × EventTranslator)
keyboard_layout_change clock body t = do
  (keyboard, layout) ← split_once b',' body
  some (
    transition clock "keyboard_layout_change" (("kb_layout", string t.kb_layout) ∷ [])
        (("kb_layout", string layout) ∷ []),
    record t { kb_layout = layout },
  )

-- The four parts of `splitn(4, ',')`.
unfoldable pub window_open :
    Option ℕ → String → EventTranslator → Option (RawEvent × EventTranslator)
window_open clock body t = do
  (address, rest) ← split_once b',' body
  (workspace, rest) ← split_once b',' rest
  (class, title) ← split_once b',' rest
  some (
    with_curr_state (Event.new clock "window_open") (
        ("address", string address)
        ∷ ("workspace", string workspace)
        ∷ ("appid", string class)
        ∷ ("title", string title)
        ∷ []),
    t,
  )

unfoldable pub workspace_create :
    Option ℕ → String → EventTranslator → Option (RawEvent × EventTranslator)
workspace_create clock body t = do
  (id, name) ← numbered body
  some (with_curr_state (Event.new clock "workspace_create") (workspace_state id name), t)

unfoldable pub workspace_destroy :
    Option ℕ → String → EventTranslator → Option (RawEvent × EventTranslator)
workspace_destroy clock body t = do
  (id, name) ← numbered body
  some (with_prev_state (Event.new clock "workspace_destroy") (workspace_state id name), t)

abbrev pub output_state : String → State
output_state name = ("output", string name) ∷ []

-- What `name` and `data` of a line give, before the translator is put back.
unfoldable pub translate_event :
    Option ℕ → String → String → EventTranslator → Option (RawEvent × EventTranslator)
unfolding workspace_change focus_change output_focus window_state_change keymode_change
    keyboard_layout_change window_open workspace_create workspace_destroy
translate_event clock name body t =
    if name == "workspacev2"
    then workspace_change clock body t
    else if name == "activewindow"
    then focus_change clock body t
    else if name == "focusedmon"
    then output_focus clock body t
    else if name == "fullscreen"
    then window_state_change clock body t
    else if name == "submap"
    then keymode_change clock body t
    else if name == "activelayout"
    then keyboard_layout_change clock body t
    else if name == "openwindow"
    then window_open clock body t
    else if name == "closewindow"
    then some (with_prev_state (Event.new clock "window_close") (("address", string body) ∷ []), t)
    else if name == "createworkspacev2"
    then workspace_create clock body t
    else if name == "destroyworkspacev2"
    then workspace_destroy clock body t
    else if name == "monitoradded"
    then some (with_curr_state (Event.new clock "output_add") (output_state body), t)
    else if name == "monitorremoved"
    then some (with_prev_state (Event.new clock "output_remove") (output_state body), t)
    else none

abbrev pub settle :
    EventTranslator → Option (RawEvent × EventTranslator) → Option RawEvent × EventTranslator
settle t none = (none, t)
settle t (some (e, t')) = (some e, t')

abbrev pub translate_parts :
    Option ℕ → Option (String × String) → EventTranslator → Option (RawEvent × EventTranslator)
translate_parts clock none t = none
translate_parts clock (some (name, body)) t = translate_event clock name body t

unfoldable pub translate : Option ℕ → String → EventTranslator → Option RawEvent × EventTranslator
unfolding split_once_arrow translate_event
translate clock line t = settle t (translate_parts clock (split_once_arrow line) t)
