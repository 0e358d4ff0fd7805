-- ===== src/Hyprland/Laws.antt =====
-- The adapter of hyprland/src/lib.rs against its own manifest.
use middlesox.Prelude.{String, true, false, err, ◌<>◌, ◌≡◌, refl}
use middlesox.Json.{Value}
use middlesox.Capability.{is_writable, read_only_cap, read_write_cap, with_description}
use middlesox.Manifest
use middlesox.Manifest.{add, find_cap}
use middlesox.Manifest.Writes.{declares_writable, apart}
use middlesox.HyprlandIpc.{Compositor, HyprlandBackend}
use middlesox.Hyprland.{manifest, set}

is_writable_key :
    (key : String)
    → (declares_writable manifest "workspace" ≡ true)
      × (declares_writable manifest "fullscreen" ≡ true)
      × (declares_writable manifest "floating" ≡ true)
unfolding manifest find_cap Manifest.new add read_write_cap read_only_cap with_description
    is_writable
is_writable_key key = (refl, refl, refl)

module _ {W : Type 0} (c : Compositor W) where
  -- The adapter refuses to set every key that its manifest does not declare writable, and asks the
  -- compositor nothing for it.
  pub set-not_writable :
      (key : String) (v : Value) (b : HyprlandBackend W)
      → declares_writable manifest key ≡ false
      → set c key v b ≡ (err ("Cannot set '" <> key <> "' (read-only or unknown)"), b)
  unfolding set
  set-not_writable key v b h =
      let (w, f, g) = is_writable_key key in
      rw
        (
          apart (declares_writable manifest) key "workspace" w h,
          apart (declares_writable manifest) key "fullscreen" f h,
          apart (declares_writable manifest) key "floating" g h,
        )
        refl
