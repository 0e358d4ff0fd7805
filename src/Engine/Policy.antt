-- ===== src/Engine/Policy.antt =====
-- What a script's `set` may reach.
use middlesox.Prelude.{
  ◌≡◌, ◌≢◌, refl, String, true, Option, none, some, List, arith, Bool-cases, append-ne-empty,
  eq_iff, inl, inr,
}
use middlesox.Dynamic.{Dynamic}
use middlesox.Capability.{Capability, is_writable}
use middlesox.Manifest.{CapabilityManifest, find_cap}
use middlesox.Adapter.{ProtocolAdapter}
use middlesox.Handle.{Actor, Input, run, step, receive, manifest}
use middlesox.Handle.Calls.{call_manifest_running}
use middlesox.Engine.{checked_set, script_set}

-- The manifest declares the key, and declares it writable.
abbrev pub IsWritable : CapabilityManifest → String → Type 0
IsWritable m key = (cap : Capability) × (find_cap m key ≡ some cap) × (is_writable cap ≡ true)

module _ {S : Type 0} (a : ProtocolAdapter S) (between : List Input) (key : String)
    (v : Dynamic) where
  checked_set_refused :
      (found : Option Capability) (s : Actor S)
      → ((cap : Capability) → found ≡ some cap → is_writable cap ≡ true → ⊥)
      → ((checked_set a between key v found s).0 ≢ "")
        × ((checked_set a between key v found s).1 ≡ s)
  unfolding checked_set
  checked_set_refused none s h =
      (append-ne-empty "unknown key: " key (ground (arith, eq_iff "unknown key: " "")), refl)
  checked_set_refused (some cap) s h = elim (Bool-cases (is_writable cap)) [
    | inl w ↦ absurd (h cap refl w)
    | inr r ↦
        rw r (
          append-ne-empty "read-only key: " key (ground (arith, eq_iff "read-only key: " "")),
          refl,
        )
  ]

  -- A script that sets a key which the manifest does not declare writable gets a message, and all
  -- that the running actor does for it is to answer the manifest.
  pub script_set_refused :
      (before : List Input) (s : Actor S)
      → s.live ≡ true
      → (run a before s).live ≡ true
      → ¬ IsWritable (a.manifest (run a before s).adapter) key
      → ((script_set a before between key v s).0 ≢ "")
        × ((script_set a before between key v s).1
            ≡ step a (receive (some (manifest 0))) (run a before s))
  unfolding script_set
  script_set_refused before s up still refused = rw (call_manifest_running a before s up still) (
      checked_set_refused (find_cap (a.manifest (run a before s).adapter) key)
        (step a (receive (some (manifest 0))) (run a before s)) (λ cap e w. refused (cap, e, w)))
