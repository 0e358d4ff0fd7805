-- ===== src/Mangowc.antt =====
-- mangowc/src/lib.rs: the state that the adapter for MangoWC and dwl keeps of the compositor. `Values`
-- reads the values that `set` is given, `Wayland` is the Wayland thread's state, `Output` the dispatch for an output,
-- `Frame` the events of a frame, `Commands` what the thread does for `get` and `set`.
pub mod Values
pub mod Frame
pub mod Wayland
pub mod Output
pub mod Buffering
pub mod Commands
pub mod Changes
pub mod Thread
pub mod Loop
pub mod Start
pub mod Channel
pub mod Caps
use Prim.Native.Nat.{bit_or}
use middlesox.Prelude.{
  ℕ, zero, suc, ◌+◌, ◌*◌, ◌%◌, ◌^◌, String, Bool, true, false, Option, none, some, List, [], ◌∷◌,
  nat_eq, ltb, if◌then◌else◌, ◌==◌, is_empty_text, get_elem?, lookup, ℤ, pos, f64_ratio, u32_mod,
}
use middlesox.Json.{
  Value, bool, string, array, number, float, json_object, to_items, from_u64, from_i64,
}
use middlesox.Event.{State}

unfoldable pub layout_code_to_name : String → String
layout_code_to_name code =
    if code == "S"
    then "Scroller"
    else if code == "T"
    then "Tile"
    else if code == "G"
    then "Grid"
    else if code == "M"
    then "Monocle"
    else if code == "K"
    then "Deck"
    else if code == "D"
    then "Deck"
    else if code == "CT"
    then "Center Tile"
    else if code == "C"
    then "Center Tile"
    else if code == "VS"
    then "Vertical Scroller"
    else if code == "VT"
    then "Vertical Tile"
    else if code == "VG"
    then "Vertical Grid"
    else if code == "RT"
    then "Right Tile"
    else if code == "VK"
    then "Vertical Deck"
    else if code == "VD"
    then "Vertical Deck"
    else if code == "TG"
    then "TGMix"
    else code

-- `state` is 0 for none, 1 for active, 2 for urgent.
pub record TagInfo : Type 0 where
  pub state : ℕ
  pub clients : ℕ
  pub focused : Bool

unfoldable pub default_tag : TagInfo
default_tag = record { state = 0; clients = 0; focused = false }

pub record OutputState : Type 0 where
  pub active_tags : ℕ
  pub layout_idx : ℕ
  pub title : String
  pub appid : String
  pub tag_info : List TagInfo
  pub active : Bool
  pub fullscreen : Bool
  pub floating : Bool
  pub layout_symbol : String
  pub x : ℤ
  pub y : ℤ
  pub width : ℤ
  pub height : ℤ
  pub last_layer : String
  pub kb_layout : String
  pub keymode : String
  pub scale_factor : ℕ

unfoldable pub default_output : OutputState
default_output = record {
  active_tags = 0;
  layout_idx = 0;
  title = "";
  appid = "";
  tag_info = [];
  active = false;
  fullscreen = false;
  floating = false;
  layout_symbol = "";
  x = pos 0;
  y = pos 0;
  width = pos 0;
  height = pos 0;
  last_layer = "";
  kb_layout = "";
  keymode = "";
  scale_factor = 0;
}

pub record GlobalState : Type 0 where
  pub tag_count : ℕ
  pub layouts : List String

pub record CompositorState : Type 0 where
  pub global : GlobalState
  pub outputs : List (String × OutputState)
  pub focused_output : String

unfoldable pub default_state : CompositorState
default_state = record {
  global = record { tag_count = 0; layouts = [] };
  outputs = [];
  focused_output = "";
}

unfoldable pub focus_payload : OutputState → String → State
focus_payload o output =
    ("output", string output) ∷ ("title", string o.title) ∷ ("appid", string o.appid) ∷ []

-- The mask of the tags that satisfy `p`, the first of them at `idx`, joined to `mask`: `1 << idx` on
-- `u32`, whose shift is taken modulo 32 where overflow is not checked.
unfoldable pub mask_from : (TagInfo → Bool) → ℕ → ℕ → List TagInfo → ℕ
mask_from p idx mask [] = mask
mask_from p idx mask (t ∷ ts) =
    mask_from p (idx + 1) (if p t then bit_or mask (2 ^ (idx % 32)) else mask) ts

unfoldable pub occupied_tags : OutputState → ℕ
unfolding mask_from
occupied_tags o = mask_from (λ t. ltb 0 t.clients) 0 0 o.tag_info

unfoldable pub urgent_tags : OutputState → ℕ
unfolding mask_from
urgent_tags o = mask_from (λ t. nat_eq t.state 2) 0 0 o.tag_info

unfoldable pub focused_client_tags : OutputState → ℕ
unfolding mask_from
focused_client_tags o = mask_from (λ t. t.focused) 0 0 o.tag_info

-- The sum of `u32`s.
unfoldable pub sum_clients : List TagInfo → ℕ
sum_clients [] = 0
sum_clients (t ∷ ts) = (t.clients + sum_clients ts) % u32_mod

unfoldable pub client_count : OutputState → ℕ
unfolding sum_clients
client_count o = sum_clients o.tag_info

abbrev or_empty : Option String → String
or_empty none = ""
or_empty (some x) = x

unfoldable pub layout_label : OutputState → GlobalState → String
layout_label o global =
    if is_empty_text o.layout_symbol
    then or_empty (get_elem? global.layouts o.layout_idx)
    else o.layout_symbol

unfoldable pub layout_name : OutputState → GlobalState → String
unfolding layout_code_to_name layout_label
layout_name o global = layout_code_to_name (layout_label o global)

unfoldable pub geometry_json : OutputState → Value
geometry_json o = json_object (
    ("x", from_i64 o.x)
    ∷ ("y", from_i64 o.y)
    ∷ ("width", from_i64 o.width)
    ∷ ("height", from_i64 o.height)
    ∷ [])

abbrev tag_json : ℕ → TagInfo → Value
tag_json idx t = json_object (
    ("tag", from_u64 (idx + 1))
    ∷ ("state", from_u64 t.state)
    ∷ ("clients", from_u64 t.clients)
    ∷ ("focused", bool t.focused)
    ∷ [])

abbrev tags_json : ℕ → List TagInfo → List Value
tags_json idx [] = []
tags_json idx (t ∷ ts) = tag_json idx t ∷ tags_json (idx + 1) ts

unfoldable pub tag_info_json : OutputState → Value
tag_info_json o = array (to_items (tags_json 0 o.tag_info))

-- `scale_factor as f64 / 100.0`
unfoldable pub scale_value : OutputState → Value
unfolding f64_ratio
scale_value o = number (float (f64_ratio o.scale_factor 100))
