-- ===== src/HyprlandEvents/Tracking.antt =====
-- `EventTranslator::translate` of hyprland/src/lib.rs as a step relation: how an event is made of the
-- state that the translator remembers.
use middlesox.Prelude.{
  ℕ, String, true, false, Option, none, some, List, [], ◌∷◌, ◌≡◌, ◌≢◌, refl, ◌==◌, if◌then◌else◌,
  contains, lookup, split_once, split_once_arrow, arith, trim, sym, ◌∙◌,
}
use mathlib.Core.Path.{subst}
use middlesox.Json.{string}
use middlesox.Event.{RawEvent, get_curr, with_prev_state, with_curr_state, new}
use middlesox.HyprlandEvents.Kinds.{
  Kind, workspace, focus, output, window, keymode, layout, kind_name, Moves, tracked, passing,
  workspace-Keeps, focus-Keeps, output-Keeps, window-Keeps, keymode-Keeps, layout-Keeps,
}
use middlesox.HyprlandEvents.{
  EventTranslator, translate, translate_parts, translate_event, settle, workspace_change,
  focus_change, output_focus, window_state_change, keymode_change, keyboard_layout_change,
  window_open, workspace_create, workspace_destroy, output_state, ◌>>=◌, numbered,
}

abbrev IsStep : EventTranslator → Option (RawEvent × EventTranslator) → Type 0
IsStep t none = Unit {0}
IsStep t (some (e, t')) = Moves t e t'

bind-IsStep :
    {A : Type 0} (t : EventTranslator) (m : Option A) (f : A → Option (RawEvent × EventTranslator))
    → ((a : A) → IsStep t (f a))
    → IsStep t (m >>= f)
bind-IsStep t none f h = tt
bind-IsStep t (some a) f h = h a

abbrev tracked_names : List String
tracked_names =
    "workspace_change" ∷ "focus_change" ∷ "output_focus" ∷ "window_state_change" ∷ "keymode_change"
    ∷ "keyboard_layout_change" ∷ []

kind_name-listed : (k : Kind) → contains tracked_names (kind_name k) ≡ true
unfolding contains
kind_name-listed workspace = refl
kind_name-listed focus = refl
kind_name-listed output = refl
kind_name-listed window = refl
kind_name-listed keymode = refl
kind_name-listed layout = refl

true-ne-false : true ≢ false
true-ne-false e = cc

untracked : (x : String) → contains tracked_names x ≡ false → (k : Kind) → x ≢ kind_name k
untracked x h k e =
    elim (true-ne-false
      (sym (kind_name-listed k) ∙ subst (λ y. contains tracked_names y ≡ false) e h)) [ ]

workspace_change-IsStep :
    (clock : Option ℕ) (body : String) (t : EventTranslator)
    → IsStep t (workspace_change clock body t)
unfolding workspace_change with_prev_state with_curr_state new get_curr lookup
workspace_change-IsStep clock body t =
    bind-IsStep t (numbered body) _
      (λ (id, name). tracked workspace refl refl (λ key v h. h) (workspace-Keeps t id name))

focus_change-IsStep :
    (clock : Option ℕ) (body : String) (t : EventTranslator) → IsStep t (focus_change clock body t)
unfolding focus_change with_prev_state with_curr_state new get_curr lookup
focus_change-IsStep clock body t =
    bind-IsStep t (split_once b',' body) _
      (λ (class, title). tracked focus refl refl (λ key v h. h) (focus-Keeps t title class))

output_focus-IsStep :
    (clock : Option ℕ) (body : String) (t : EventTranslator) → IsStep t (output_focus clock body t)
unfolding output_focus with_prev_state with_curr_state new get_curr lookup
output_focus-IsStep clock body t = bind-IsStep t (split_once b',' body) _ (λ (monitor, space).
    tracked output refl refl (λ key v h. ground (arith, h)) (output-Keeps t monitor))

window_state_change-IsStep :
    (clock : Option ℕ) (body : String) (t : EventTranslator)
    → IsStep t (window_state_change clock body t)
unfolding window_state_change with_prev_state with_curr_state new get_curr lookup
window_state_change-IsStep clock body t =
    tracked window refl refl (λ key v h. h) (window-Keeps t (trim body == "1"))

keymode_change-IsStep :
    (clock : Option ℕ) (body : String) (t : EventTranslator)
    → IsStep t (keymode_change clock body t)
unfolding keymode_change with_prev_state with_curr_state new get_curr lookup
keymode_change-IsStep clock body t = tracked keymode refl refl (λ key v h. h) (keymode-Keeps t body)

keyboard_layout_change-IsStep :
    (clock : Option ℕ) (body : String) (t : EventTranslator)
    → IsStep t (keyboard_layout_change clock body t)
unfolding keyboard_layout_change with_prev_state with_curr_state new get_curr lookup
keyboard_layout_change-IsStep clock body t =
    bind-IsStep t (split_once b',' body) _
      (λ (keyboard, x). tracked layout refl refl (λ key v h. h) (layout-Keeps t x))

window_open-IsStep :
    (clock : Option ℕ) (body : String) (t : EventTranslator) → IsStep t (window_open clock body t)
unfolding window_open with_prev_state with_curr_state new contains
window_open-IsStep clock body t = bind-IsStep t (split_once b',' body) _ (λ (address, rest).
    bind-IsStep t (split_once b',' rest) _ (λ (space, rest').
      bind-IsStep t (split_once b',' rest') _
        (λ parts. passing (untracked "window_open" refl) refl)))

workspace_create-IsStep :
    (clock : Option ℕ) (body : String) (t : EventTranslator)
    → IsStep t (workspace_create clock body t)
unfolding workspace_create with_prev_state with_curr_state new contains
workspace_create-IsStep clock body t =
    bind-IsStep t (numbered body) _ (λ parts. passing (untracked "workspace_create" refl) refl)

workspace_destroy-IsStep :
    (clock : Option ℕ) (body : String) (t : EventTranslator)
    → IsStep t (workspace_destroy clock body t)
unfolding workspace_destroy with_prev_state with_curr_state new contains
workspace_destroy-IsStep clock body t =
    bind-IsStep t (numbered body) _ (λ parts. passing (untracked "workspace_destroy" refl) refl)

-- The arms of the match on the name of an event.
abbrev pick :
    String
    → List (String × Option (RawEvent × EventTranslator))
    → Option (RawEvent × EventTranslator)
pick name [] = none
pick name ((x, r) ∷ arms) = if name == x then r else pick name arms

abbrev AllStep : EventTranslator → List (String × Option (RawEvent × EventTranslator)) → Type 0
AllStep t [] = Unit {0}
AllStep t ((x, r) ∷ arms) = IsStep t r × AllStep t arms

pick-IsStep :
    (t : EventTranslator) (name : String)
    (arms : List (String × Option (RawEvent × EventTranslator)))
    → AllStep t arms
    → IsStep t (pick name arms)
pick-IsStep t name [] h = tt
pick-IsStep t name ((x, r) ∷ arms) (h, hs) =
    elim (name == x) as (λ b. IsStep t (if b then r else pick name arms)) [
      | true ↦ h
      | false ↦ pick-IsStep t name arms hs
    ]

translate_event-IsStep :
    (clock : Option ℕ) (name body : String) (t : EventTranslator)
    → IsStep t (translate_event clock name body t)
unfolding translate_event with_prev_state with_curr_state new contains
translate_event-IsStep clock name body t =
    pick-IsStep t name
      (("workspacev2", workspace_change clock body t)
        ∷ ("activewindow", focus_change clock body t)
        ∷ ("focusedmon", output_focus clock body t)
        ∷ ("fullscreen", window_state_change clock body t)
        ∷ ("submap", keymode_change clock body t)
        ∷ ("activelayout", keyboard_layout_change clock body t)
        ∷ ("openwindow", window_open clock body t)
        ∷ (
          "closewindow",
          some (with_prev_state (new clock "window_close") (("address", string body) ∷ []), t),
        )
        ∷ ("createworkspacev2", workspace_create clock body t)
        ∷ ("destroyworkspacev2", workspace_destroy clock body t)
        ∷ ("monitoradded", some (with_curr_state (new clock "output_add") (output_state body), t))
        ∷ (
          "monitorremoved",
          some (with_prev_state (new clock "output_remove") (output_state body), t),
        )
        ∷ [])
      (
        workspace_change-IsStep clock body t,
        (
          focus_change-IsStep clock body t,
          (
            output_focus-IsStep clock body t,
            (
              window_state_change-IsStep clock body t,
              (
                keymode_change-IsStep clock body t,
                (
                  keyboard_layout_change-IsStep clock body t,
                  (
                    window_open-IsStep clock body t,
                    (
                      passing (untracked "window_close" refl) refl,
                      (
                        workspace_create-IsStep clock body t,
                        (
                          workspace_destroy-IsStep clock body t,
                          (
                            passing (untracked "output_add" refl) refl,
                            (passing (untracked "output_remove" refl) refl, tt),
                          ),
                        ),
                      ),
                    ),
                  ),
                ),
              ),
            ),
          ),
        ),
      )

abbrev pub IsTranslated : EventTranslator → Option RawEvent × EventTranslator → Type 0
IsTranslated t (none, t') = t' ≡ t
IsTranslated t (some e, t') = Moves t e t'

settle-IsTranslated :
    (t : EventTranslator) (r : Option (RawEvent × EventTranslator))
    → IsStep t r
    → IsTranslated t (settle t r)
settle-IsTranslated t none h = refl
settle-IsTranslated t (some (e, t')) h = h

translate_parts-IsStep :
    (clock : Option ℕ) (p : Option (String × String)) (t : EventTranslator)
    → IsStep t (translate_parts clock p t)
translate_parts-IsStep clock none t = tt
translate_parts-IsStep clock (some (name, body)) t = translate_event-IsStep clock name body t

-- A line either gives no event and leaves the translator as it was, or gives one event: if it is of a
-- remembered kind, its old state is what was remembered of that kind, its new state says what is
-- remembered now, and what is remembered of the other kinds has not changed; if it is of another kind,
-- the translator is as it was.
pub translate-IsTranslated :
    (clock : Option ℕ) (line : String) (t : EventTranslator)
    → IsTranslated t (translate clock line t)
unfolding translate
translate-IsTranslated clock line t =
    settle-IsTranslated t _ (translate_parts-IsStep clock (split_once_arrow line) t)
