-- ===== src/Handle/Shutdown.antt =====
-- How the actor task ends.
use middlesox.Prelude.{ℕ, ◌+◌, ◌≡◌, true, none, some, List, [], ◌∷◌, arith, if◌then◌else◌}
use middlesox.Adapter.{ProtocolAdapter}
use middlesox.Handle.{Actor, Input, next, receive, step, run}

-- The adapter together with a count of the calls of its `shutdown`.
abbrev pub counted : {S : Type 0} → ProtocolAdapter S → ProtocolAdapter (S × ℕ)
counted a = record {
  name = λ (s, n). a.name s;
  manifest = λ (s, n). a.manifest s;
  subscribe = λ subs (s, n). let (r, t) = a.subscribe subs s in (r, (t, n));
  next_event = λ (s, n). elim (a.next_event s) [ none ↦ none | some (r, t) ↦ some (r, (t, n)) ];
  get = λ key (s, n). let (r, t) = a.get key s in (r, (t, n));
  set = λ key v (s, n). let (r, t) = a.set key v s in (r, (t, n));
  init = λ (s, n). let (r, t) = a.init s in (r, (t, n));
  shutdown = λ (s, n). let (r, t) = a.shutdown s in (r, (t, n + 1));
}

-- One call for an actor that has left its loop, none for one that is in it.
abbrev Balanced : {S : Type 0} → Actor (S × ℕ) → Type 0
Balanced s = s.adapter.1 ≡ (if s.live then 0 else 1)

step-Balanced :
    {S : Type 0} (a : ProtocolAdapter S) (i : Input) (s : Actor (S × ℕ))
    → Balanced s
    → Balanced (step (counted a) i s)
unfolding step
step-Balanced a (next receiving) s h = ground arith
step-Balanced a (receive c) s h = ground arith

run-Balanced :
    {S : Type 0} (a : ProtocolAdapter S) (is : List Input) (s : Actor (S × ℕ))
    → Balanced s
    → Balanced (run (counted a) is s)
unfolding run
run-Balanced a [] s h = h
run-Balanced a (i ∷ is) s h = run-Balanced a is (step (counted a) i s) (step-Balanced a i s h)

-- Whatever the adapter does and whatever the actor is sent, `shutdown` of the adapter is called
-- exactly once if the task has ended, and not at all while it runs.
pub run-shutdown_once :
    {S : Type 0} (a : ProtocolAdapter S) (is : List Input) (s : Actor (S × ℕ))
    → s.live ≡ true
    → s.adapter.1 ≡ 0
    → (run (counted a) is s).adapter.1 ≡ (if (run (counted a) is s).live then 0 else 1)
run-shutdown_once a is s l z = run-Balanced a is s (ground arith)
