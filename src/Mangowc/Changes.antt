-- ===== src/Mangowc/Changes.antt =====
-- mangowc/src/lib.rs: a frame makes no event exactly when nothing that its events tell of has changed.
use middlesox.Prelude.{
  ℕ, String, Bool, true, false, not, ◌&&◌, ◌||◌, List, [], ◌∷◌, ◌≡◌, refl, ◌↔◌, nat_eq, ◌==◌,
  bool_eq, int_eq, arith, eq_iff, nat_eq_iff, ℤ, pos, negsuc,
}
use middlesox.Mangowc.{OutputState, GlobalState}
use middlesox.Mangowc.Frame.{Change, picked, differences, changes}

abbrev AllFalse : List (Bool × Change) → Type 0
AllFalse [] = Unit {0}
AllFalse ((b, c) ∷ ds) = (b ≡ false) × AllFalse ds

picked-eq-nil : (ds : List (Bool × Change)) → picked ds ≡ [] → AllFalse ds
unfolding picked
picked-eq-nil [] h = tt
picked-eq-nil ((true, c) ∷ ds) h = cc
picked-eq-nil ((false, c) ∷ ds) h = (refl, picked-eq-nil ds h)

picked-nil : (ds : List (Bool × Change)) → AllFalse ds → picked ds ≡ []
unfolding picked
picked-nil [] h = refl
picked-nil ((b, c) ∷ ds) (h, hs) = rw h (picked-nil ds hs)

int_eq_iff : (m n : ℤ) → (int_eq m n ≡ true) ↔ (m ≡ n)
int_eq_iff (pos m) (pos n) = ground (arith, nat_eq_iff m n)
int_eq_iff (pos m) (negsuc n) = ground arith
int_eq_iff (negsuc m) (pos n) = ground arith
int_eq_iff (negsuc m) (negsuc n) = ground (arith, nat_eq_iff m n)

bool_eq_iff : (a b : Bool) → (bool_eq a b ≡ true) ↔ (a ≡ b)
bool_eq_iff a b = ground arith

-- Two states of an output that agree in all that the events of a frame tell of: title and application
-- only count on the focused output.
pub record IsShownSame (focused : Bool) (old o : OutputState) : Type 0 where
  pub active_tags : old.active_tags ≡ o.active_tags
  pub layout_idx : old.layout_idx ≡ o.layout_idx
  pub layout_symbol : old.layout_symbol ≡ o.layout_symbol
  pub title : focused ≡ true → old.title ≡ o.title
  pub appid : focused ≡ true → old.appid ≡ o.appid
  pub fullscreen : old.fullscreen ≡ o.fullscreen
  pub floating : old.floating ≡ o.floating
  pub x : old.x ≡ o.x
  pub y : old.y ≡ o.y
  pub width : old.width ≡ o.width
  pub height : old.height ≡ o.height
  pub last_layer : old.last_layer ≡ o.last_layer
  pub kb_layout : old.kb_layout ≡ o.kb_layout
  pub keymode : old.keymode ≡ o.keymode
  pub scale_factor : old.scale_factor ≡ o.scale_factor

-- The four tests for a difference, and when they find none.
same_nat : (m n : ℕ) → (not (nat_eq m n) ≡ false) ↔ (m ≡ n)
same_nat m n = ground (arith, nat_eq_iff m n)

same_int : (m n : ℤ) → (not (int_eq m n) ≡ false) ↔ (m ≡ n)
same_int m n = ground (arith, int_eq_iff m n)

same_text : (s t : String) → (not (s == t) ≡ false) ↔ (s ≡ t)
same_text s t = ground (arith, eq_iff s t)

same_bool : (a b : Bool) → (not (bool_eq a b) ≡ false) ↔ (a ≡ b)
same_bool a b = ground (arith, bool_eq_iff a b)

or_false_iff : (a b : Bool) → (a || b ≡ false) ↔ ((a ≡ false) × (b ≡ false))
or_false_iff a b = ground arith

same_title :
    (focused : Bool) (s t u v : String)
    → (focused && (not (s == t) || not (u == v)) ≡ false)
      ↔ ((focused ≡ true → s ≡ t) × (focused ≡ true → u ≡ v))
same_title true s t u v = ground (arith, eq_iff s t, eq_iff u v)
same_title false s t u v = ground arith

module _ (global : GlobalState) (output : String) (focused : Bool) (old o : OutputState) where
  changes_complete : changes global output focused old o ≡ [] → IsShownSame focused old o
  unfolding changes
  changes_complete h =
      let (tags, (layout, (title, (window, (geometry, (layer, (kb, (mode, (scale, u))))))))) =
        picked-eq-nil (differences global output focused old o) h in
      let (idx, symbol) = (or_false_iff _ _).0 layout in
      let (titles, apps) = (same_title focused old.title o.title old.appid o.appid).0 title in
      let (full, floats) = (or_false_iff _ _).0 window in
      let (g₂, gh) = (or_false_iff _ _).0 geometry in
      let (g₁, gw) = (or_false_iff _ _).0 g₂ in
      let (gx, gy) = (or_false_iff _ _).0 g₁ in
      record {
        active_tags = (same_nat old.active_tags o.active_tags).0 tags;
        layout_idx = (same_nat old.layout_idx o.layout_idx).0 idx;
        layout_symbol = (same_text old.layout_symbol o.layout_symbol).0 symbol;
        title = titles;
        appid = apps;
        fullscreen = (same_bool old.fullscreen o.fullscreen).0 full;
        floating = (same_bool old.floating o.floating).0 floats;
        x = (same_int old.x o.x).0 gx;
        y = (same_int old.y o.y).0 gy;
        width = (same_int old.width o.width).0 gw;
        height = (same_int old.height o.height).0 gh;
        last_layer = (same_text old.last_layer o.last_layer).0 layer;
        kb_layout = (same_text old.kb_layout o.kb_layout).0 kb;
        keymode = (same_text old.keymode o.keymode).0 mode;
        scale_factor = (same_nat old.scale_factor o.scale_factor).0 scale;
      }

  changes_sound : IsShownSame focused old o → changes global output focused old o ≡ []
  unfolding changes
  changes_sound h = picked-nil (differences global output focused old o) (
    (same_nat old.active_tags o.active_tags).1 h.active_tags,
    (
      (or_false_iff _ _).1 (
        (same_nat old.layout_idx o.layout_idx).1 h.layout_idx,
        (same_text old.layout_symbol o.layout_symbol).1 h.layout_symbol,
      ),
      (
        (same_title focused old.title o.title old.appid o.appid).1 (h.title, h.appid),
        (
          (or_false_iff _ _).1 (
            (same_bool old.fullscreen o.fullscreen).1 h.fullscreen,
            (same_bool old.floating o.floating).1 h.floating,
          ),
          (
            (or_false_iff _ _).1 (
              (or_false_iff _ _).1 (
                (or_false_iff _ _).1 ((same_int old.x o.x).1 h.x, (same_int old.y o.y).1 h.y),
                (same_int old.width o.width).1 h.width,
              ),
              (same_int old.height o.height).1 h.height,
            ),
            (
              (same_text old.last_layer o.last_layer).1 h.last_layer,
              (
                (same_text old.kb_layout o.kb_layout).1 h.kb_layout,
                (
                  (same_text old.keymode o.keymode).1 h.keymode,
                  ((same_nat old.scale_factor o.scale_factor).1 h.scale_factor, tt),
                ),
              ),
            ),
          ),
        ),
      ),
    ),
  )

-- A frame makes no event exactly when the state before and the pending state agree in the tags, the
-- layout, the window's two flags, its geometry, the layer, the keyboard, the key mode and the scale,
-- and, on the focused output, in title and application.
pub changes-eq-nil_iff :
    (global : GlobalState) (output : String) (focused : Bool) (old o : OutputState)
    → (changes global output focused old o ≡ []) ↔ IsShownSame focused old o
changes-eq-nil_iff global output focused old o =
    (changes_complete global output focused old o, changes_sound global output focused old o)
