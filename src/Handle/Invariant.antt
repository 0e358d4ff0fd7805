-- ===== src/Handle/Invariant.antt =====
-- An invariant of an adapter's operations is one of the actor that owns it, where only the keys that
-- are allowed are set.
use mathlib.Core.List.{Memᴰ}
use middlesox.Prelude.{
  String, Bool, true, false, Option, none, some, List, [], ◌∷◌, Result, ok, err, Bool-cases, inl,
  refl, inr,
}
use middlesox.Json.{Value}
use middlesox.Event.{RawEvent}
use middlesox.Adapter.{ProtocolAdapter}
use middlesox.Handle.{
  Actor, Input, next, receive, AdapterCommand, get, set, manifest, shutdown, forward, serve, step,
  run,
}

abbrev pub HoldsAfter : {S : Type 0} → (S → Type 0) → Option (Result (Option RawEvent) × S) → Type 0
HoldsAfter P none = Unit
HoldsAfter P (some (r, s)) = P s

-- Every operation that the actor calls keeps the property, `set` that of an allowed key.
pub record Preserves {S : Type 0} (a : ProtocolAdapter S) (Allowed : String → Type 0)
    (P : S → Type 0) : Type 0 where
  pub by_next_event : (s : S) → P s → HoldsAfter P (a.next_event s)
  pub by_get : (key : String) (s : S) → P s → P (a.get key s).1
  pub by_set : (key : String) (v : Value) → Allowed key → (s : S) → P s → P (a.set key v s).1
  pub by_shutdown : (s : S) → P s → P (a.shutdown s).1

abbrev pub IsAllowed : (String → Type 0) → Input → Type 0
IsAllowed Allowed (receive (some (set key v id))) = Allowed key
IsAllowed Allowed i = Unit

abbrev pub AllAllowed : (String → Type 0) → List Input → Type 0
AllAllowed Allowed is = (i : Input) → Memᴰ i is → IsAllowed Allowed i

-- Where every key is allowed, every input is.
pub any-IsAllowed : (i : Input) → IsAllowed (λ key. Unit) i
any-IsAllowed (next receiving) = tt
any-IsAllowed (receive none) = tt
any-IsAllowed (receive (some (get key id))) = tt
any-IsAllowed (receive (some (set key v id))) = tt
any-IsAllowed (receive (some (manifest id))) = tt
any-IsAllowed (receive (some (shutdown id))) = tt

module _ {S : Type 0} {a : ProtocolAdapter S} {Allowed : String → Type 0} {P : S → Type 0}
    (p : Preserves a Allowed P) where
  forward-P :
      (receiving : Bool) (polled : Option (Result (Option RawEvent) × S)) (s : Actor S)
      → P s.adapter
      → HoldsAfter P polled
      → P (forward a receiving polled s).adapter
  unfolding forward
  forward-P receiving none s h k = h
  forward-P true (some (ok (some e), t)) s h k = k
  forward-P false (some (ok (some e), t)) s h k = p.by_shutdown t k
  forward-P receiving (some (ok none, t)) s h k = p.by_shutdown t k
  forward-P receiving (some (err e, t)) s h k = p.by_shutdown t k

  serve-P :
      (c : Option AdapterCommand) (s : Actor S)
      → IsAllowed Allowed (receive c)
      → P s.adapter
      → P (serve a c s).adapter
  unfolding serve
  serve-P none s al h = p.by_shutdown s.adapter h
  serve-P (some (get key id)) s al h = p.by_get key s.adapter h
  serve-P (some (set key v id)) s al h = p.by_set key v al s.adapter h
  serve-P (some (manifest id)) s al h = h
  serve-P (some (shutdown id)) s al h = p.by_shutdown s.adapter h

  pub step-P :
      (i : Input) (s : Actor S) → IsAllowed Allowed i → P s.adapter → P (step a i s).adapter
  unfolding step
  step-P (next receiving) s al h = elim (Bool-cases s.live) [
    | inl up ↦
        simp up (forward-P receiving (a.next_event s.adapter) s h (p.by_next_event s.adapter h))
    | inr down ↦ simp down h
  ]
  step-P (receive c) s al h = elim (Bool-cases s.live) [
    | inl up ↦ simp up (serve-P c s al h)
    | inr down ↦ simp down h
  ]

  -- The property holds of the adapter after any sequence of events and allowed commands.
  pub run-P :
      (is : List Input) (s : Actor S) → AllAllowed Allowed is → P s.adapter → P (run a is s).adapter
  unfolding run
  run-P [] s al h = h
  run-P (i ∷ is) s al h =
      run-P is (step a i s) (λ j m. al j (Memᴰ.tail m)) (step-P i s (al i (Memᴰ.head refl)) h)
