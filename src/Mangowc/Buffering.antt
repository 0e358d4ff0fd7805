-- ===== src/Mangowc/Buffering.antt =====
-- mangowc/src/lib.rs: the events of an output are collected until the frame, which commits them.
use middlesox.Prelude.{
  ℕ, String, true, false, Option, none, some, List, [], ◌∷◌, ◌≡◌, refl, sym, ap, ◌∙◌, lookup,
  lookup-insert, lookup-remove, eq_refl, if◌then◌else◌, Bool-cases, inl, inr, ◌==◌,
}
use mathlib.Core.Path.{subst}
use middlesox.Mangowc.{OutputState}
use middlesox.Mangowc.Wayland.{WaylandState, Bound, lookup_id}
use middlesox.Mangowc.Output.{
  IpcEvent, frame, active, update, pending_of, focus, commit, on_ipc, collect, on_named, is_on,
}

-- The events of one output, one after the other.
abbrev pub run_ipc : Option ℕ → ℕ → List IpcEvent → WaylandState → WaylandState
run_ipc clock id [] w = w
run_ipc clock id (e ∷ es) w = run_ipc clock id es (on_ipc clock id e w)

-- The same events, applied to a state of the output at once.
abbrev pub updates : List IpcEvent → OutputState → OutputState
updates [] o = o
updates (e ∷ es) o = updates es (update e o)

-- What collecting an event keeps, and what it changes.
record IsCollected (e : IpcEvent) (name : String) (w w' : WaylandState) : Type 0 where
  outputs : w'.outputs ≡ w.outputs
  states : w'.state.outputs ≡ w.state.outputs
  pending : pending_of name w' ≡ update e (pending_of name w)

collect-IsCollected :
    (e : IpcEvent) (name : String) (w : WaylandState) → IsCollected e name w (collect e name w)
unfolding pending_of
collect-IsCollected e name w = record {
  outputs = refl;
  states = refl;
  pending =
      rw (lookup-insert name name (update e (pending_of name w)) w.pending, eq_refl name) refl;
}

focus-IsCollected :
    (e : IpcEvent) (clock : Option ℕ) (id : ℕ) (name : String) (w w' : WaylandState)
    → IsCollected e name w w'
    → IsCollected e name w (focus clock id name w')
unfolding focus pending_of
focus-IsCollected e clock id name w w' h = elim (Bool-cases (w'.state.focused_output == name)) [
  | inl same ↦ rw same (record { outputs = h.outputs; states = h.states; pending = h.pending })
  | inr differ ↦ rw differ (record { outputs = h.outputs; states = h.states; pending = h.pending })
]

active-IsCollected :
    (clock : Option ℕ) (id a : ℕ) (b : Bound) (w : WaylandState)
    → IsCollected (active a) b.name w (on_named clock (active a) id (some b) w)
active-IsCollected clock id a b w =
    elim (is_on a)
      as (λ on. IsCollected (active a) b.name w (
        if on
        then focus clock id b.name (collect (active a) b.name w)
        else collect (active a) b.name w)) [
          | true ↦
              focus-IsCollected (active a) clock id b.name w (collect (active a) b.name w)
                (collect-IsCollected (active a) b.name w)
          | false ↦ collect-IsCollected (active a) b.name w
        ]

abbrev pub IsFrame : IpcEvent → Type 0
IsFrame frame = Unit {0}
IsFrame e = ⊥

on_named-IsCollected :
    (clock : Option ℕ) (e : IpcEvent) (id : ℕ) (b : Bound) (w : WaylandState)
    → ¬ IsFrame e
    → IsCollected e b.name w (on_named clock e id (some b) w)
on_named-IsCollected clock frame id b w h = absurd (h tt)
on_named-IsCollected clock (active a) id b w h = active-IsCollected clock id a b w
on_named-IsCollected clock e id b w h = collect-IsCollected e b.name w

on_ipc-IsCollected :
    (clock : Option ℕ) (e : IpcEvent) (id : ℕ) (b : Bound) (w : WaylandState)
    → lookup_id id w.outputs ≡ some b
    → ¬ IsFrame e
    → IsCollected e b.name w (on_ipc clock id e w)
unfolding on_ipc
on_ipc-IsCollected clock e id b w found h =
    subst (λ m. IsCollected e b.name w (on_named clock e id m w)) (sym found)
      (on_named-IsCollected clock e id b w h)

abbrev pub NoFrame : List IpcEvent → Type 0
NoFrame [] = Unit {0}
NoFrame (e ∷ es) = ¬ IsFrame e × NoFrame es

-- While no frame comes, the states of all outputs stay, and what is pending for the output is what
-- was pending with the events applied to it.
pub run_ipc-pending :
    (clock : Option ℕ) (id : ℕ) (b : Bound) (es : List IpcEvent) (w : WaylandState)
    → lookup_id id w.outputs ≡ some b
    → NoFrame es
    → ((run_ipc clock id es w).state.outputs ≡ w.state.outputs)
      × (lookup_id id (run_ipc clock id es w).outputs ≡ some b)
      × (pending_of b.name (run_ipc clock id es w) ≡ updates es (pending_of b.name w))
run_ipc-pending clock id b [] w found h = (refl, found, refl)
run_ipc-pending clock id b (e ∷ es) w found (h, hs) =
    let c = on_ipc-IsCollected clock e id b w found h in
    let (s, f, p) =
      run_ipc-pending clock id b es (on_ipc clock id e w) (ap (lookup_id id) c.outputs ∙ found)
        hs in
    (s ∙ c.states, f, p ∙ ap (updates es) c.pending)

commit-state :
    (clock : Option ℕ) (name : String) (o : OutputState) (w : WaylandState)
    → (lookup name (commit clock name o w).state.outputs ≡ some o)
      × (lookup name (commit clock name o w).pending ≡ none)
unfolding commit
commit-state clock name o w = (
  rw (lookup-insert name name o w.state.outputs, eq_refl name) refl,
  rw (lookup-remove name name w.pending, eq_refl name) refl,
)

-- The events of a known output that come between two frames reach its state at the frame, all at
-- once: until then no output's state changes, and after the frame the state is the pending one with
-- the events applied in their order, and nothing is pending.
pub run_ipc-frame :
    (clock : Option ℕ) (id : ℕ) (b : Bound) (es : List IpcEvent) (w : WaylandState)
    → lookup_id id w.outputs ≡ some b
    → NoFrame es
    → ((run_ipc clock id es w).state.outputs ≡ w.state.outputs)
      × (let w' = on_ipc clock id frame (run_ipc clock id es w) in
          (lookup b.name w'.state.outputs ≡ some (updates es (pending_of b.name w)))
          × (lookup b.name w'.pending ≡ none))
unfolding on_ipc
run_ipc-frame clock id b es w found h =
    let (s, f, p) = run_ipc-pending clock id b es w found h in
    let w₁ = run_ipc clock id es w in
    let c = commit-state clock b.name (pending_of b.name w₁) w₁ in
    (
      s,
      subst
          (λ m.
            (lookup b.name (on_named clock frame id m w₁).state.outputs
              ≡ some (updates es (pending_of b.name w)))
            × (lookup b.name (on_named clock frame id m w₁).pending ≡ none))
          (sym f) (c.0 ∙ ap some p, c.1),
    )
