-- ===== src/HyprlandEvents/Kinds.antt =====
-- What `EventTranslator` of hyprland/src/lib.rs remembers, by kind of event, and its steps.
use middlesox.Prelude.{String, Bool, some, [], ◌∷◌, ◌≡◌, ◌≢◌, refl, lookup, ℤ}
use middlesox.Json.{Value, bool, string}
use middlesox.Event.{State, RawEvent, get_curr}
use middlesox.HyprlandEvents.{EventTranslator, workspace_state, window_state}

-- The kinds of event whose state the translator remembers.
pub data Kind : Type 0 where
  workspace focus output window keymode layout : Kind

abbrev pub kind_name : Kind → String
kind_name workspace = "workspace_change"
kind_name focus = "focus_change"
kind_name output = "output_focus"
kind_name window = "window_state_change"
kind_name keymode = "keymode_change"
kind_name layout = "keyboard_layout_change"

abbrev pub remembered : Kind → EventTranslator → State
remembered workspace t = workspace_state t.workspace_id t.workspace_name
remembered focus t = window_state t.title t.appid
remembered output t = ("output", string t.output) ∷ []
remembered window t = ("fullscreen", bool t.fullscreen) ∷ []
remembered keymode t = ("keymode", string t.keymode) ∷ []
remembered layout t = ("kb_layout", string t.kb_layout) ∷ []

-- The event's new state says what the remembered state says.
abbrev pub Agrees : State → RawEvent → Type 0
Agrees s e = (key : String) (v : Value) → lookup key s ≡ some v → get_curr e key ≡ some v

-- One translated line: an event of a remembered kind leads from what was remembered to what is
-- remembered then, and no other kind is touched; any other event leaves the translator alone.
pub data Moves (t : EventTranslator) (e : RawEvent) (t' : EventTranslator) : Type 0 where
  tracked :
      (k : Kind)
      → e.name ≡ kind_name k
      → e.prev ≡ some (remembered k t)
      → Agrees (remembered k t') e
      → ((j : Kind) → j ≢ k → remembered j t' ≡ remembered j t)
      → Moves t e t'
  passing : ((k : Kind) → e.name ≢ kind_name k) → t' ≡ t → Moves t e t'

-- A translator that differs from `t` in what it remembers of one kind.
abbrev pub Keeps : Kind → EventTranslator → EventTranslator → Type 0
Keeps k t t' = (j : Kind) → j ≢ k → remembered j t' ≡ remembered j t

pub workspace-Keeps :
    (t : EventTranslator) (id : ℤ) (name : String)
    → Keeps workspace t (record t { workspace_id = id; workspace_name = name })
workspace-Keeps t id name workspace h = elim (h refl) [ ]
workspace-Keeps t id name focus h = refl
workspace-Keeps t id name output h = refl
workspace-Keeps t id name window h = refl
workspace-Keeps t id name keymode h = refl
workspace-Keeps t id name layout h = refl

pub focus-Keeps :
    (t : EventTranslator) (title class : String)
    → Keeps focus t (record t { title = title; appid = class })
focus-Keeps t title class workspace h = refl
focus-Keeps t title class focus h = elim (h refl) [ ]
focus-Keeps t title class output h = refl
focus-Keeps t title class window h = refl
focus-Keeps t title class keymode h = refl
focus-Keeps t title class layout h = refl

pub output-Keeps :
    (t : EventTranslator) (monitor : String) → Keeps output t (record t { output = monitor })
output-Keeps t monitor workspace h = refl
output-Keeps t monitor focus h = refl
output-Keeps t monitor output h = elim (h refl) [ ]
output-Keeps t monitor window h = refl
output-Keeps t monitor keymode h = refl
output-Keeps t monitor layout h = refl

pub window-Keeps : (t : EventTranslator) (b : Bool) → Keeps window t (record t { fullscreen = b })
window-Keeps t b workspace h = refl
window-Keeps t b focus h = refl
window-Keeps t b output h = refl
window-Keeps t b window h = elim (h refl) [ ]
window-Keeps t b keymode h = refl
window-Keeps t b layout h = refl

pub keymode-Keeps : (t : EventTranslator) (x : String) → Keeps keymode t (record t { keymode = x })
keymode-Keeps t x workspace h = refl
keymode-Keeps t x focus h = refl
keymode-Keeps t x output h = refl
keymode-Keeps t x window h = refl
keymode-Keeps t x keymode h = elim (h refl) [ ]
keymode-Keeps t x layout h = refl

pub layout-Keeps : (t : EventTranslator) (x : String) → Keeps layout t (record t { kb_layout = x })
layout-Keeps t x workspace h = refl
layout-Keeps t x focus h = refl
layout-Keeps t x output h = refl
layout-Keeps t x window h = refl
layout-Keeps t x keymode h = refl
layout-Keeps t x layout h = elim (h refl) [ ]
