-- ===== src/Engine/Reach.antt =====
-- middlesox/src/adapter.rs: an adapter with a log of the keys that are set.
use mathlib.Core.List.{Memᴰ}
use mathlib.Core.Path.{subst}
use middlesox.Prelude.{sym, String, Option, none, some, List, ◌∷◌, Result}
use middlesox.Manifest.{CapabilityManifest}
use middlesox.Event.{RawEvent}
use middlesox.Adapter.{ProtocolAdapter}
use middlesox.Handle.Invariant.{HoldsAfter, Preserves}
use middlesox.Engine.Policy.{IsWritable}

abbrev with_keys :
    {S : Type 0}
    → List String
    → Option (Result (Option RawEvent) × S)
    → Option (Result (Option RawEvent) × (S × List String))
with_keys keys none = none
with_keys keys (some (r, t)) = some (r, (t, keys))

-- The adapter together with the keys that were set, the last one first.
abbrev pub logged : {S : Type 0} → ProtocolAdapter S → ProtocolAdapter (S × List String)
logged a = record {
  name = λ (s, keys). a.name s;
  manifest = λ (s, keys). a.manifest s;
  subscribe = λ subs (s, keys). let (r, t) = a.subscribe subs s in (r, (t, keys));
  next_event = λ (s, keys). with_keys keys (a.next_event s);
  get = λ key (s, keys). let (r, t) = a.get key s in (r, (t, keys));
  set = λ key v (s, keys). let (r, t) = a.set key v s in (r, (t, key ∷ keys));
  init = λ (s, keys). let (r, t) = a.init s in (r, (t, keys));
  shutdown = λ (s, keys). let (r, t) = a.shutdown s in (r, (t, keys));
}

abbrev pub AllWritable : {S : Type 0} → CapabilityManifest → S × List String → Type 0
AllWritable m (s, keys) = (key : String) → Memᴰ key keys → IsWritable m key

with_keys-AllWritable :
    {S : Type 0} (m : CapabilityManifest) (keys : List String)
    → ((key : String) → Memᴰ key keys → IsWritable m key)
    → (r : Option (Result (Option RawEvent) × S)) → HoldsAfter (AllWritable m) (with_keys keys r)
with_keys-AllWritable m keys h none = tt
with_keys-AllWritable m keys h (some (r, t)) = h

pub logged-Preserves :
    {S : Type 0} (a : ProtocolAdapter S) (m : CapabilityManifest)
    → Preserves (logged a) (IsWritable m) (AllWritable m)
logged-Preserves a m = record {
  by_next_event = λ (s, keys) h. with_keys-AllWritable m keys h (a.next_event s);
  by_get = λ key (s, keys) h. h;
  by_set = λ key v w (s, keys) h k mem. elim mem [
    | Memᴰ.head e ↦ subst (IsWritable m) (sym e) w
    | Memᴰ.tail later ↦ h k later
  ];
  by_shutdown = λ (s, keys) h. h;
}
