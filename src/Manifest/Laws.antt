-- ===== src/Manifest/Laws.antt =====
-- Looking up a capability in a manifest.
use mathlib.Core.List.{Memᴰ}
use middlesox.Prelude.{
  ◌+◌, ◌≡◌, String, Bool, none, some, List, [], ◌∷◌, ◌++◌, ◌==◌, eq_iff, arith, is_some, length,
  find, find-eq-some, if◌then◌else◌,
}
use middlesox.Capability.{Capability}
use middlesox.Manifest.{CapabilityManifest, add, find_cap, len}

find-append :
    (p : Capability → Bool) (xs : List Capability) (c : Capability)
    → find p (xs ++ c ∷ [])
      ≡ (if is_some (find p xs) then find p xs else if p c then some c else none)
find-append p [] c = ground arith
find-append p (x ∷ xs) c = ground (arith, find-append p xs c)

length-concat : (xs : List Capability) (c : Capability) → length (xs ++ c ∷ []) ≡ length xs + 1
length-concat [] c = omega arith
length-concat (x ∷ xs) c = omega (arith, length-concat xs c)

-- A capability that is added under a name already present never replaces the one found, so that
-- no later entry changes the access of a key; a new name is found from then on, and the manifest
-- is one entry longer.
pub find_cap-add :
    (m : CapabilityManifest) (c : Capability) (key : String)
    → (find_cap (add m c) key ≡ (
        if is_some (find_cap m key)
        then find_cap m key
        else if c.name == key
        then some c
        else none))
      × (len (add m c) ≡ len m + 1)
unfolding find_cap add len
find_cap-add m c key =
    (find-append (λ d. d.name == key) m.capabilities c, length-concat m.capabilities c)

-- What a lookup finds is an entry of the manifest that carries the key.
pub find_cap-eq-some :
    (m : CapabilityManifest) (key : String) {c : Capability}
    → find_cap m key ≡ some c
    → Memᴰ c m.capabilities × (c.name ≡ key)
unfolding find_cap
find_cap-eq-some m key {c} e =
    let (listed, same) = find-eq-some (λ d. d.name == key) m.capabilities e in
    (listed, (eq_iff c.name key).0 same)
