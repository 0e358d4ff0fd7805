-- ===== src/Manifest/Writes.antt =====
-- Which keys a manifest declares writable, as a test.
use middlesox.Prelude.{
  String, Bool, true, false, Option, none, some, ◌≡◌, ◌≢◌, sym, ◌∙◌, ◌==◌, eq_iff, Bool-cases, inl,
  inr,
}
use mathlib.Core.Path.{subst}
use middlesox.Capability.{Capability, is_writable}
use middlesox.Manifest.{CapabilityManifest, find_cap}

abbrev pub allows : Option Capability → Bool
allows none = false
allows (some cap) = is_writable cap

abbrev pub declares_writable : CapabilityManifest → String → Bool
declares_writable m key = allows (find_cap m key)

true-ne-false : true ≢ false
true-ne-false e = cc

-- Keys that differ in a test are different keys.
pub apart : (t : String → Bool) (key x : String) → t x ≡ true → t key ≡ false → (key == x) ≡ false
apart t key x h g = elim (Bool-cases (key == x)) [
  | inl e ↦ elim (true-ne-false (sym h ∙ subst (λ y. t y ≡ false) ((eq_iff key x).0 e) g)) [ ]
  | inr e ↦ e
]
