-- ===== src/Engine/Guarded.antt =====
-- middlesox/src/engine.rs: what the adapter keeps under the writable keys, it keeps under a whole
-- script, whatever the interpreter does.
use middlesox.Prelude.{
  ℕ, zero, suc, ◌≡◌, refl, sym, ap, String, Option, none, some, List, [], ◌∷◌, ◌++◌, Result, ok,
  err, Bool-cases, inl, inr, arith,
}
use middlesox.Json.{Value}
use middlesox.Dynamic.{Dynamic}
use middlesox.Capability.{Capability, is_writable}
use middlesox.Manifest.{CapabilityManifest, find_cap}
use middlesox.Adapter.{ProtocolAdapter}
use middlesox.Handle.{
  Actor, Input, receive, get, set, manifest, run, call_get, call_set, call_manifest,
}
use middlesox.Handle.Invariant.{Preserves, AllAllowed, step-P, run-P}
use middlesox.Event.{RawEvent}
use middlesox.Engine.{context_of, scope_of, checked_set, script_set, with_manifest, EventContext}
use middlesox.Engine.Policy.{IsWritable}
use middlesox.Engine.Run.{
  Scope, Rhai, Schedule, Operation, work, ask, tell, finish, Outcome, ended, answered, after,
  operate, eval, eval_with_scope, max_operations, script_error, execute_sync, execute,
  execute_with_event, execute_file, execute_file_with_event,
}

module _ {S : Type 0} {a : ProtocolAdapter S} {Allowed : String → Type 0} {P : S → Type 0}
    (p : Preserves a Allowed P) (before : List Input) (ours : AllAllowed Allowed before)
    (s : Actor S) (h : P s.adapter) where
  pub call_get-P : (key : String) → P (call_get a before key s).1.adapter
  unfolding call_get
  call_get-P key = elim (Bool-cases s.live) [
    | inl up ↦ elim (Bool-cases (run a before s).live) [
      | inl still ↦
          simp (up, still) (step-P p (receive (some (get key 0))) _ tt (run-P p before s ours h))
      | inr lost ↦ simp (up, lost) (run-P p before s ours h)
    ]
    | inr down ↦ simp down h
  ]

  pub call_set-P :
      (key : String) (v : Value) → Allowed key → P (call_set a before key v s).1.adapter
  unfolding call_set
  call_set-P key v allowed = elim (Bool-cases s.live) [
    | inl up ↦ elim (Bool-cases (run a before s).live) [
      | inl still ↦
          simp (up, still)
            (step-P p (receive (some (set key v 0))) _ allowed (run-P p before s ours h))
      | inr lost ↦ simp (up, lost) (run-P p before s ours h)
    ]
    | inr down ↦ simp down h
  ]

  -- The manifest is read, and the adapter is the same.
  pub manifest-P :
      (a' : Result CapabilityManifest × Actor S) → a' ≡ call_manifest a before s → P a'.1.adapter
  unfolding call_manifest
  manifest-P a' e = elim (Bool-cases s.live) [
    | inl up ↦ elim (Bool-cases (run a before s).live) [
      | inl still ↦
          rw e (
            simp (up, still)
              (step-P p (receive (some (manifest 0))) _ tt (run-P p before s ours h)))
      | inr lost ↦ rw e (simp (up, lost) (run-P p before s ours h))
    ]
    | inr down ↦ rw e (simp down h)
  ]

module _ {S : Type 0} {a : ProtocolAdapter S} (m : CapabilityManifest) {P : S → Type 0}
    (p : Preserves a (IsWritable m) P) (fixed : (s : S) → a.manifest s ≡ m) where
  checked_set-P :
      (between : List Input)
      → AllAllowed (IsWritable m) between
      → (key : String) (v : Dynamic) (found : Option Capability) → find_cap m key ≡ found
      → (s : Actor S) → P s.adapter
      → P (checked_set a between key v found s).1.adapter
  unfolding checked_set
  checked_set-P between ours key v none e s h = h
  checked_set-P between ours key v (some cap) e s h = elim (Bool-cases (is_writable cap)) [
    | inl w ↦ simp w (call_set-P p between ours s h key _ (cap, e, w))
    | inr r ↦ simp r h
  ]

  with_manifest-P :
      (between : List Input)
      → AllAllowed (IsWritable m) between
      → (key : String) (v : Dynamic) (r : Result CapabilityManifest × Actor S)
      → ((m' : CapabilityManifest) → r.0 ≡ ok m' → m' ≡ m)
      → P r.1.adapter
      → P (with_manifest a between key v r).1.adapter
  with_manifest-P between ours key v (err e, s) same h = h
  with_manifest-P between ours key v (ok m', s) same h =
      checked_set-P between ours key v (find_cap m' key)
        (sym (ap (λ m''. find_cap m'' key) (same m' refl))) s h

  pub call_manifest-fixed :
      (before : List Input) (s : Actor S) (m' : CapabilityManifest)
      → (call_manifest a before s).0 ≡ ok m'
      → m' ≡ m
  unfolding call_manifest
  call_manifest-fixed before s m' e = ground (arith, fixed (run a before s).adapter)

  script_set-P :
      (before : List Input)
      → AllAllowed (IsWritable m) before
      → (between : List Input) → AllAllowed (IsWritable m) between
      → (key : String) (v : Dynamic) (s : Actor S) → P s.adapter
      → P (script_set a before between key v s).1.adapter
  unfolding script_set
  script_set-P before ours between theirs key v s h =
      with_manifest-P between theirs key v (call_manifest a before s) (call_manifest-fixed before s)
        (manifest-P p before ours s h _ refl)

-- What other tasks set while the script runs are writable keys as well.
abbrev pub IsCalm : CapabilityManifest → Schedule → Type 0
IsCalm m schedule =
    (n : ℕ)
    → AllAllowed (IsWritable m) (schedule.before n) × AllAllowed (IsWritable m) (schedule.between n)

module _ {S : Type 0} {a : ProtocolAdapter S} (m : CapabilityManifest) {P : S → Type 0}
    (p : Preserves a (IsWritable m) P) (fixed : (s : S) → a.manifest s ≡ m) (schedule : Schedule)
    (calm : IsCalm m schedule) (rhai : Rhai) where
  operate-P :
      (n : ℕ) (op : Operation) (s : Actor S)
      → P s.adapter
      → P (operate a rhai schedule n op s).1.adapter
  unfolding operate
  operate-P n work s h = h
  operate-P n (ask key) s h = call_get-P p (schedule.before n) (calm n).0 s h key
  operate-P n (tell key v) s h =
      script_set-P m p fixed (schedule.before n) (calm n).0 (schedule.between n) (calm n).1 key v s
        h
  operate-P n (finish r) s h = h

  after-P :
      (o : Outcome × Actor S) (k : Dynamic → Actor S → Result Dynamic × Actor S)
      → P o.1.adapter
      → ((d : Dynamic) (t : Actor S) → P t.adapter → P (k d t).1.adapter)
      → P (after o k).1.adapter
  after-P (ended r, t) k h rest = h
  after-P (answered d, t) k h rest = rest d t h

  eval-P :
      (script : String) (scope : Scope) (n : ℕ) (answers : List Dynamic) (s : Actor S)
      → P s.adapter
      → P (eval a rhai schedule script scope n answers s).1.adapter
  unfolding eval
  eval-P script scope zero answers s h = h
  eval-P script scope (suc n) answers s h =
      after-P (operate a rhai schedule n (rhai.next script scope answers) s)
        (λ d t. eval a rhai schedule script scope n (answers ++ d ∷ []) t)
        (operate-P n (rhai.next script scope answers) s h)
        (λ d t. eval-P script scope n (answers ++ d ∷ []) t)

  script_error-P : (r : Result Dynamic × Actor S) → P r.1.adapter → P (script_error r).1.adapter
  script_error-P (ok d, s) h = h
  script_error-P (err e, s) h = h

  pub execute_sync-P :
      (script : String) (context : Option EventContext) (s : Actor S)
      → P s.adapter
      → P (execute_sync (eval_with_scope a rhai schedule) script context s).1.adapter
  unfolding execute_sync eval_with_scope
  execute_sync-P script context s h =
      script_error-P (eval a rhai schedule script (scope_of context) max_operations [] s)
        (eval-P script (scope_of context) max_operations [] s h)

  pub execute_file-P :
      (text : Result String) (s : Actor S)
      → P s.adapter
      → P (execute_file (eval_with_scope a rhai schedule) text s).1.adapter
  unfolding execute_file execute
  execute_file-P (err e) s h = h
  execute_file-P (ok text) s h = execute_sync-P text none s h

  pub execute_file_with_event-P :
      (text : Result String) (e : RawEvent) (s : Actor S)
      → P s.adapter
      → P (execute_file_with_event (eval_with_scope a rhai schedule) text e s).1.adapter
  unfolding execute_file_with_event execute_with_event
  execute_file_with_event-P (err error) e s h = h
  execute_file_with_event-P (ok text) e s h = execute_sync-P text (some (context_of e)) s h
