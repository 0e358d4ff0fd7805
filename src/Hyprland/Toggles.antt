-- ===== src/Hyprland/Toggles.antt =====
-- hyprland/src/lib.rs: setting `fullscreen` and `floating`, whose dispatchers toggle.
use middlesox.Prelude.{
  String, Bool, true, false, not, ok, ◌≡◌, ◌≢◌, ◌↔◌, refl, ap, ◌∙◌, ◌<>◌, trim, Bool-cases, inl,
  inr, arith, bool_eq,
}
use middlesox.Json.{Value, bool}
use middlesox.Paths.{join}
use middlesox.HyprlandIpc.{Compositor, HyprlandBackend, query, command, dispatch}
use middlesox.Hyprland.{
  get, set, current_fullscreen, current_floating, toggle_to, set_fullscreen, set_floating,
}

-- What the compositor documents of one property of the focused window: the query shows it and changes
-- nothing, and the dispatcher answers "ok" and turns it over.
pub record IsToggled {W : Type 0} (c : Compositor W) (dir args : String) (current : Value → Bool)
    (held : W → Bool) : Type 0 where
  pub text : W → String
  pub shown : W → Value
  pub asked : (w : W) → c.command (join dir ".socket.sock") "j/activewindow" w ≡ (ok (text w), w)
  pub read : (w : W) → c.from_json (text w) ≡ ok (shown w)
  pub shows : (w : W) → current (shown w) ≡ held w
  pub turned : W → W
  pub reply : W → String
  pub fired :
      (w : W)
      → c.command (join dir ".socket.sock") ("dispatch " <> args) w ≡ (ok (reply w), turned w)
  pub answers_ok : (w : W) → trim (reply w) ≡ "ok"
  pub turns : (w : W) → held (turned w) ≡ not (held w)

bool_eq_iff : (x y : Bool) → (bool_eq x y ≡ true) ↔ (x ≡ y)
bool_eq_iff x y = ground arith

not-of_bool_eq : (x y : Bool) → bool_eq x y ≡ false → not x ≡ y
not-of_bool_eq x y h = ground arith

bool_ne : (x y : Bool) → bool_eq x y ≡ false → x ≢ y
bool_ne x y h = ground arith

module _ {W : Type 0} (c : Compositor W) (args : String) (current : Value → Bool)
    (held : W → Bool) where
  query_shown :
      (b : HyprlandBackend W) (h : IsToggled c b.socket_dir args current held)
      → query c "activewindow" b ≡ (ok (h.shown b.world), b)
  unfolding query command
  query_shown b h = rw (command, h.asked b.world, h.read b.world) refl

  dispatch_turned :
      (b : HyprlandBackend W) (h : IsToggled c b.socket_dir args current held)
      → dispatch c args b ≡ (ok tt, record b { world = h.turned b.world })
  unfolding dispatch command
  dispatch_turned b h = rw (command, h.fired b.world, h.answers_ok b.world) refl

  -- The property has the wanted value after the request, which says so; nothing changes where it had
  -- that value before.
  record IsSettled (want : Bool) (b b' : HyprlandBackend W) : Type 0 where
    value : Value
    says : query c "activewindow" b' ≡ (ok value, b')
    is_wanted : current value ≡ want
    idle : held b.world ≡ want → b' ≡ b

  toggled :
      (want : Bool) (b : HyprlandBackend W)
      → IsToggled c b.socket_dir args current held
      → (b' : HyprlandBackend W) × (toggle_to c want current args (query c "activewindow" b)
          ≡ (ok tt, b'))
        × IsSettled want b b'
  toggled want b h = elim (Bool-cases (bool_eq (held b.world) want)) [
    | inl same ↦ (
      b,
      rw (query_shown b h, h.shows b.world, same) refl,
      record {
        value = h.shown b.world;
        says = query_shown b h;
        is_wanted = h.shows b.world ∙ (bool_eq_iff (held b.world) want).0 same;
        idle = λ e. refl;
      },
    )
    | inr differ ↦
        let b' : HyprlandBackend W = record b { world = h.turned b.world } in
        (
          b',
          rw (query_shown b h, h.shows b.world, differ) (dispatch_turned b h),
          record {
            value = h.shown (h.turned b.world);
            says = query_shown b' h;
            is_wanted =
                h.shows (h.turned b.world)
                ∙ h.turns b.world
                ∙ not-of_bool_eq (held b.world) want differ;
            idle = λ e. absurd (bool_ne (held b.world) want differ e);
          },
        )
  ]

module _ {W : Type 0} (c : Compositor W) (held : W → Bool) where
  -- Where the compositor shows whether the focused window is fullscreen, and its dispatcher turns that
  -- over and answers "ok", setting `fullscreen` to a Boolean succeeds, reading it then gives that
  -- Boolean, and nothing changes if the window was so before.
  pub get-set_fullscreen :
      (want : Bool) (b : HyprlandBackend W)
      → IsToggled c b.socket_dir "fullscreen 0" (current_fullscreen c) held
      → (b' : HyprlandBackend W) × (set c "fullscreen" (bool want) b ≡ (ok tt, b'))
        × (get c "fullscreen" b' ≡ (ok (bool want), b'))
        × (held b.world ≡ want → b' ≡ b)
  unfolding set get set_fullscreen
  get-set_fullscreen want b h =
      let (b', done, settled) = toggled c "fullscreen 0" (current_fullscreen c) held want b h in
      (b', done, rw settled.says (ap (λ x. (ok (bool x), b')) settled.is_wanted), settled.idle)

  -- Where the compositor shows whether the focused window is floating, and its dispatcher turns that
  -- over and answers "ok", setting `floating` to a Boolean succeeds, reading it then gives that
  -- Boolean, and nothing changes if the window was so before.
  pub get-set_floating :
      (want : Bool) (b : HyprlandBackend W)
      → IsToggled c b.socket_dir "togglefloating" (current_floating c) held
      → (b' : HyprlandBackend W) × (set c "floating" (bool want) b ≡ (ok tt, b'))
        × (get c "floating" b' ≡ (ok (bool want), b'))
        × (held b.world ≡ want → b' ≡ b)
  unfolding set get set_floating
  get-set_floating want b h =
      let (b', done, settled) = toggled c "togglefloating" (current_floating c) held want b h in
      (b', done, rw settled.says (ap (λ x. (ok (bool x), b')) settled.is_wanted), settled.idle)
