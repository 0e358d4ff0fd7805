-- ===== src/Examples/Compositors.antt =====
-- Tests of the adapter for Hyprland, and its theorems at concrete inputs.
use middlesox.Prelude.{
  ap, ℕ, String, Bool, true, false, not, Option, none, some, List, [], ◌∷◌, map, filter, Result, ok,
  err, ◌≡◌, refl, ◌==◌, if◌then◌else◌, pos, negsuc, contains, split_once, parse_i64, show_i64, trim,
  trim_end, lookup,
}
use middlesox.Json.{Value, bool, object, end, field, from_i64, index}
use middlesox.Event.{RawEvent, get_prev, with_curr_state, with_prev_state, new}
use middlesox.HyprlandEvents.{default_translator, translate}
use middlesox.HyprlandEvents.Reader.{start_reader, reading}
use middlesox.HyprlandEvents.Kinds.{Kind, remembered}
use middlesox.HyprlandEvents.Stream.{events_of, wanted, as_read, reading-eq-filter}
use middlesox.HyprlandEvents.Chain.{Linked, reading-Linked}
use middlesox.Config.{subscribed_events}
use middlesox.Mock.{adapter}
use middlesox.Daemon.{Signal, event, accept, run_loop, start}
use middlesox.Daemon.Pipeline.{heard, launches, run_loop-reading}
use middlesox.Examples.Data.{config, host}
use middlesox.HyprlandIpc.{Compositor, HyprlandBackend}
use middlesox.Hyprland.{get, set, fullscreen_as_bool, current_fullscreen, current_floating}
use middlesox.Hyprland.Toggles.{IsToggled, get-set_fullscreen}

minus_twelve : parse_i64 "-12" ≡ some (negsuc 11)
unfolding parse_i64
minus_twelve = refl

shown_number : show_i64 (negsuc 1023) ≡ "-1024"
unfolding show_i64
shown_number = refl

commas_in_title : split_once b',' "kitty,vim: a,b" ≡ some ("kitty", "vim: a,b")
unfolding split_once
commas_in_title = refl

trimmed : trim "  ok \n" ≡ "ok"
unfolding trim
trimmed = refl

abbrev lines : List (Option ℕ × String)
lines =
    (none, "workspacev2>>2,web\n")
    ∷ (none, "activewindow>>kitty,vim\n")
    ∷ (none, "workspacev2>>5,mail\n")
    ∷ []

abbrev prev_ids : List RawEvent → List (Option Value)
prev_ids es = map (λ e. get_prev e "id") es

second_starts_from_first :
    prev_ids (reading (map as_read lines) (start_reader ("workspace_change" ∷ []))).sent
    ≡ some (from_i64 (pos 0)) ∷ some (from_i64 (pos 2)) ∷ []
unfolding reading start_reader get_prev contains lookup trim_end translate split_once parse_i64
    with_curr_state with_prev_state new
second_starts_from_first = refl

reading-eq-filter_example :
    (reading (map as_read lines) (start_reader ("workspace_change" ∷ []))).sent
    ≡ filter (wanted ("workspace_change" ∷ [])) (events_of lines default_translator)
reading-eq-filter_example = reading-eq-filter lines ("workspace_change" ∷ [])

heard-map : (es : List RawEvent) → heard (map (λ e. event (some e)) es) ≡ es
heard-map [] = refl
heard-map (e ∷ es) = ap (λ more. e ∷ more) (heard-map es)

abbrev sent_events : List RawEvent
sent_events = (reading (map as_read lines) (start_reader (subscribed_events config))).sent

-- A client connects, then the events come in.
abbrev signals : List Signal
signals = accept (ok 1) ∷ map (λ e. event (some e)) sent_events

run_loop-reading_example :
    (run_loop (adapter none) host config "/s" signals start).launched
    ≡ launches (adapter none) host config "/s" (events_of lines default_translator)
run_loop-reading_example =
    run_loop-reading (adapter none) host config "/s" lines signals (heard-map sent_events)

reading-Linked_example :
    Linked Kind.workspace
      (remembered Kind.workspace default_translator)
      (reading (map as_read lines) (start_reader ("workspace_change" ∷ []))).sent
unfolding contains
reading-Linked_example = reading-Linked Kind.workspace ("workspace_change" ∷ []) lines refl

-- A compositor with one window: whether it is fullscreen and whether it floats.
abbrev window_value : Bool × Bool → Value
window_value (full, floats) =
    object (field "floating" (bool floats) (field "fullscreen" (bool full) end))

abbrev window_text : Bool × Bool → String
window_text (true, true) = "TT"
window_text (true, false) = "TF"
window_text (false, true) = "FT"
window_text (false, false) = "FF"

abbrev text_window : String → Result Value
text_window s =
    if s == "TT"
    then ok (window_value (true, true))
    else if s == "TF"
    then ok (window_value (true, false))
    else if s == "FT"
    then ok (window_value (false, true))
    else if s == "FF"
    then ok (window_value (false, false))
    else err "not a window"

abbrev obey : String → Bool × Bool → Result String × (Bool × Bool)
obey request (full, floats) =
    if request == "j/activewindow"
    then (ok (window_text (full, floats)), (full, floats))
    else if request == "dispatch fullscreen 0"
    then (ok "ok\n", (not full, floats))
    else if request == "dispatch togglefloating"
    then (ok "ok\n", (full, not floats))
    else (err "unknown request", (full, floats))

abbrev compositor : Compositor (Bool × Bool)
compositor = record {
  command = λ path request w. obey request w;
  from_json = text_window;
  connect = λ path w. ok tt;
}

abbrev hyprland : HyprlandBackend (Bool × Bool)
hyprland = record { socket_dir = "/run/hypr"; event_rx = none; world = (false, false) }

text_window-window_text : (w : Bool × Bool) → text_window (window_text w) ≡ ok (window_value w)
text_window-window_text (true, true) = refl
text_window-window_text (true, false) = refl
text_window-window_text (false, true) = refl
text_window-window_text (false, false) = refl

fullscreen-IsToggled :
    IsToggled compositor "/run/hypr" "fullscreen 0" (current_fullscreen compositor) (λ w. w.0)
unfolding fullscreen_as_bool index trim
fullscreen-IsToggled = record {
  text = window_text;
  shown = window_value;
  asked = λ w. refl;
  read = text_window-window_text;
  shows = λ w. refl;
  turned = λ w. (not w.0, w.1);
  reply = λ w. "ok\n";
  fired = λ w. refl;
  answers_ok = λ w. refl;
  turns = λ w. refl;
}

floating-IsToggled :
    IsToggled compositor "/run/hypr" "togglefloating" (current_floating compositor) (λ w. w.1)
unfolding index trim
floating-IsToggled = record {
  text = window_text;
  shown = window_value;
  asked = λ w. refl;
  read = text_window-window_text;
  shows = λ w. refl;
  turned = λ w. (w.0, not w.1);
  reply = λ w. "ok\n";
  fired = λ w. refl;
  answers_ok = λ w. refl;
  turns = λ w. refl;
}

get-set_fullscreen_example :
    (b' : HyprlandBackend (Bool × Bool)) × (set compositor "fullscreen" (bool true) hyprland
      ≡ (ok tt, b'))
    × (get compositor "fullscreen" b' ≡ (ok (bool true), b'))
    × (false ≡ true → b' ≡ hyprland)
get-set_fullscreen_example =
    get-set_fullscreen compositor (λ w. w.0) true hyprland fullscreen-IsToggled
