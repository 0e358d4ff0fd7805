-- ===== src/Hyprland.antt =====
-- hyprland/src/lib.rs: the adapter for Hyprland.
pub mod Laws
pub mod Toggles
use middlesox.Prelude.{
  ℕ, String, Bool, true, false, not, Option, none, some, List, [], ◌∷◌, map, length, find, Result,
  ok, err, ◌>>=◌, ok_or, ◌<>◌, ◌==◌, if◌then◌else◌, bool_eq, ℤ, pos, int_eq, trim, show_i64,
}
use middlesox.Json.{
  Value, null, bool, string, array, json_object, to_items, index, as_bool, as_i64, as_str, as_array,
  from_u64,
}
use middlesox.Capability.{read_only_cap, read_write_cap, with_description}
use middlesox.Manifest
use middlesox.Manifest.{CapabilityManifest, add}
use middlesox.Event.{RawEvent}
use middlesox.Adapter.{ProtocolAdapter}
use middlesox.Paths.{join}
use middlesox.HyprlandEvents.Reader.{Reader, Read, start_reader, on_read}
use middlesox.HyprlandIpc.{Compositor, HyprlandBackend, value_or, query, dispatch, answer}

-- A Boolean on older versions, a mode on newer ones.
unfoldable pub fullscreen_as_bool : Value → Bool
fullscreen_as_bool v = value_or (not (int_eq (value_or (pos 0) (as_i64 v)) (pos 0))) (as_bool v)

unfoldable pub manifest : CapabilityManifest
unfolding Manifest.new add read_write_cap read_only_cap with_description
manifest =
    add
      (add
        (add
          (add
            (add
              (add
                (add
                  (add
                    (add
                      (add Manifest.new
                        (with_description (read_write_cap "workspace") "Active workspace ID"))
                      (with_description (read_only_cap "workspace_name") "Active workspace name"))
                    (with_description (read_only_cap "workspaces") "Existing workspaces"))
                  (with_description (read_only_cap "title") "Focused window title"))
                (with_description (read_only_cap "appid") "Focused window class"))
              (with_description (read_write_cap "fullscreen") "Focused window fullscreen state"))
            (with_description (read_write_cap "floating") "Focused window floating state"))
          (with_description (read_only_cap "output") "Focused monitor name"))
        (with_description (read_only_cap "outputs") "Connected monitor names"))
      (with_description (read_only_cap "client_count") "Number of open windows")

abbrev workspace_entry : Value → Value
workspace_entry ws = json_object (("id", index ws "id") ∷ ("name", index ws "name") ∷ [])

abbrev workspace_list : Option (List Value) → Value
workspace_list none = array (to_items [])
workspace_list (some ws) = array (to_items (map workspace_entry ws))

-- The names of the monitors that have one.
abbrev names_of : List Value → List Value
names_of [] = []
names_of (m ∷ ms) = let rest = names_of ms in with_name (as_str (index m "name")) rest
  where
    with_name : Option String → List Value → List Value
    with_name none rest = rest
    with_name (some x) rest = string x ∷ rest

-- Every monitor without `focused` counts as not focused.
abbrev is_focused : Value → Bool
is_focused m = value_or false (as_bool (index m "focused"))

abbrev focused_of : Option (List Value) → Option Value
focused_of none = none
focused_of (some ms) = find is_focused ms

module _ {W : Type 0} (c : Compositor W) where
  abbrev focused_monitor : Value → Result Value
  focused_monitor monitors =
      ok_or (focused_of (as_array monitors)) "No focused monitor reported by Hyprland"

  unfoldable pub get : String → HyprlandBackend W → Result Value × HyprlandBackend W
  unfolding query index fullscreen_as_bool
  get key b =
      if key == "workspace"
      then answer c (λ v. ok (index v "id")) (query c "activeworkspace" b)
      else if key == "workspace_name"
      then answer c (λ v. ok (index v "name")) (query c "activeworkspace" b)
      else if key == "workspaces"
      then answer c (λ v. ok (workspace_list (as_array v))) (query c "workspaces" b)
      else if key == "title"
      then answer c (λ v. ok (string (value_or "" (as_str (index v "title")))))
          (query c "activewindow" b)
      else if key == "appid"
      then answer c (λ v. ok (string (value_or "" (as_str (index v "class")))))
          (query c "activewindow" b)
      else if key == "fullscreen"
      then answer c (λ v. ok (bool (fullscreen_as_bool (index v "fullscreen"))))
          (query c "activewindow" b)
      else if key == "floating"
      then answer c (λ v. ok (bool (value_or false (as_bool (index v "floating")))))
          (query c "activewindow" b)
      else if key == "output"
      then answer c (λ v. focused_monitor v >>= λ m. ok (index m "name")) (query c "monitors" b)
      else if key == "outputs"
      then answer c (λ v. ok (array (to_items (names_of (value_or [] (as_array v))))))
          (query c "monitors" b)
      else if key == "client_count"
      then answer c (λ v. ok (from_u64 (length (value_or [] (as_array v))))) (query c "clients" b)
      else (err ("Unknown key: " <> key), b)

  -- The workspace that a value names: an identifier or a name.
  abbrev pub target : Option ℤ → Option String → Option String
  target (some id) name = some (show_i64 id)
  target none name = name

  set_workspace : Option String → HyprlandBackend W → Result (Unit {0}) × HyprlandBackend W
  unfolding dispatch
  set_workspace none b = (err "workspace must be a number or string", b)
  set_workspace (some x) b = dispatch c ("workspace " <> x) b

  -- The dispatchers toggle, so one is called only when the state is not the wanted one.
  abbrev pub toggle_to :
      Bool
      → (Value → Bool)
      → String
      → Result Value × HyprlandBackend W
      → Result (Unit {0}) × HyprlandBackend W
  toggle_to want current args (err e, b) = (err e, b)
  toggle_to want current args (ok v, b) =
      let fired = dispatch c args b in if bool_eq (current v) want then (ok tt, b) else fired

  abbrev pub current_fullscreen : Value → Bool
  current_fullscreen v = fullscreen_as_bool (index v "fullscreen")

  abbrev pub current_floating : Value → Bool
  current_floating v = value_or false (as_bool (index v "floating"))

  set_fullscreen : Option Bool → HyprlandBackend W → Result (Unit {0}) × HyprlandBackend W
  set_fullscreen none b = (err "fullscreen must be a boolean", b)
  set_fullscreen (some want) b =
      toggle_to want current_fullscreen "fullscreen 0" (query c "activewindow" b)

  set_floating : Option Bool → HyprlandBackend W → Result (Unit {0}) × HyprlandBackend W
  set_floating none b = (err "floating must be a boolean", b)
  set_floating (some want) b =
      toggle_to want current_floating "togglefloating" (query c "activewindow" b)

  unfoldable pub set : String → Value → HyprlandBackend W → Result (Unit {0}) × HyprlandBackend W
  unfolding set_workspace set_fullscreen set_floating show_i64
  set key v b =
      if key == "workspace"
      then set_workspace (target (as_i64 v) (as_str v)) b
      else if key == "fullscreen"
      then set_fullscreen (as_bool v) b
      else if key == "floating"
      then set_floating (as_bool v) b
      else (err ("Cannot set '" <> key <> "' (read-only or unknown)"), b)

  abbrev ignore_answer : Result Value × HyprlandBackend W → Result (Unit {0}) × HyprlandBackend W
  ignore_answer (ok v, b) = (ok tt, b)
  ignore_answer (err e, b) = (err "Failed to query Hyprland version - is Hyprland running?", b)

  unfoldable pub init : HyprlandBackend W → Result (Unit {0}) × HyprlandBackend W
  unfolding query
  init b = ignore_answer (query c "version" b)

  abbrev with_reader :
      List String → HyprlandBackend W → Result (Unit {0}) → Result (Unit {0}) × HyprlandBackend W
  with_reader subs b (err e) = (err e, b)
  with_reader subs b (ok u) = (ok tt, record b { event_rx = some (start_reader subs) })

  unfoldable pub subscribe : List String → HyprlandBackend W → Result (Unit {0}) × HyprlandBackend W
  unfolding join start_reader
  subscribe subs b = with_reader subs b (c.connect (join b.socket_dir ".socket2.sock") b.world)

abbrev received :
    {W : Type 0}
    → Reader
    → List RawEvent
    → HyprlandBackend W
    → Option (Result (Option RawEvent) × HyprlandBackend W)
received r [] b = if r.running then none else some (ok none, b)
received r (e ∷ es) b = some (ok (some e), record b { event_rx = some (record r { sent = es }) })

abbrev receive_from :
    {W : Type 0}
    → Option Reader
    → HyprlandBackend W
    → Option (Result (Option RawEvent) × HyprlandBackend W)
receive_from none b = some (err "subscribe() must be called before next_event()", b)
receive_from (some r) b = received r r.sent b

unfoldable pub next_event :
    {W : Type 0} → HyprlandBackend W → Option (Result (Option RawEvent) × HyprlandBackend W)
next_event b = receive_from b.event_rx b

-- The task reads on by itself between the calls.
unfoldable pub read_socket : {W : Type 0} → Read → HyprlandBackend W → HyprlandBackend W
unfolding on_read
read_socket x b = record b { event_rx = reader_reads b.event_rx }
  where
    reader_reads : Option Reader → Option Reader
    reader_reads none = none
    reader_reads (some r) = some (on_read x r)

unfoldable pub shutdown : {W : Type 0} → HyprlandBackend W → Result (Unit {0}) × HyprlandBackend W
shutdown b = (ok tt, record b { event_rx = none })

abbrev pub adapter : {W : Type 0} → Compositor W → ProtocolAdapter (HyprlandBackend W)
adapter c = record {
  name = λ b. "hyprland";
  manifest = λ b. manifest;
  subscribe = subscribe c;
  next_event = next_event;
  get = get c;
  set = set c;
  init = init c;
  shutdown = shutdown;
}
