-- ===== src/Config/Matching.antt =====
-- What `Watch::matches` decides.
use mathlib.Core.Bool.{Bool-set}
use mathlib.Core.Logic.{∥∥₁_elim}
use mathlib.Core.List.{Memᴰ, Perm, Permᴰ}
use middlesox.Prelude.{
  ◌≡◌, refl, ap, ◌∙◌, ◌↔◌, String, true, Option, none, some, [], ◌∷◌, arith, lookup,
}
use middlesox.Json.{Value, value_eq}
use middlesox.Event.{State}
use middlesox.Config.{Watch, met, conditions_hold, matches}

-- The state has the key, with a value equal to the expected one.
pub record IsMet (state : State) (key : String) (expected : Value) : Type 0 where
  pub actual : Value
  pub found : lookup key state ≡ some actual
  pub equal : value_eq actual expected ≡ true

abbrev pub AllMet : State → State → Type 0
AllMet state conditions = (c : String × Value) → Memᴰ c conditions → IsMet state c.0 c.1

met-IsMet :
    (state : State) (key : String) (v : Value) → met (lookup key state) v ≡ true → IsMet state key v
met-IsMet state key v h = go (lookup key state) refl h
  where
    go : (o : Option Value) → lookup key state ≡ o → met o v ≡ true → IsMet state key v
    go none e h = cc
    go (some a) e h = record { actual = a; found = e; equal = h }

IsMet-met :
    {state : State} {key : String} {v : Value} → IsMet state key v → met (lookup key state) v ≡ true
IsMet-met m = rw m.found m.equal

conditions_hold_sound :
    (state conditions : State) → conditions_hold state conditions ≡ true → AllMet state conditions
unfolding conditions_hold
conditions_hold_sound state [] h c m = elim m [ ]
conditions_hold_sound state ((key, v) ∷ more) h c (Memᴰ.head e) =
    rw e (met-IsMet state key v (ground arith))
conditions_hold_sound state ((key, v) ∷ more) h c (Memᴰ.tail m) =
    conditions_hold_sound state more (ground arith) c m

conditions_hold_complete :
    (state conditions : State) → AllMet state conditions → conditions_hold state conditions ≡ true
unfolding conditions_hold
conditions_hold_complete state [] h = refl
conditions_hold_complete state ((key, v) ∷ more) h =
    rw (IsMet-met (h (key, v) (Memᴰ.head refl)))
      (conditions_hold_complete state more (λ c m. h c (Memᴰ.tail m)))

-- A watch matches exactly when every condition on the previous state and every condition on the
-- current state is met: the key is there and its value equals the expected one.
pub matches_iff :
    (w : Watch) (prev curr : State)
    → (matches w prev curr ≡ true) ↔ (AllMet prev w.prev × AllMet curr w.curr)
unfolding matches
matches_iff w prev curr = (
  λ h. (
    conditions_hold_sound prev w.prev (ground arith),
    conditions_hold_sound curr w.curr (ground arith),
  ),
  λ (p, c). rw (conditions_hold_complete prev w.prev p) (conditions_hold_complete curr w.curr c),
)

conditions_hold_permᴰ :
    (state : State) {xs ys : State}
    → Permᴰ xs ys
    → conditions_hold state xs ≡ conditions_hold state ys
unfolding conditions_hold
conditions_hold_permᴰ state Permᴰ.nil = refl
conditions_hold_permᴰ state (Permᴰ.cons {a = (j, v)} {b = (k, w)} e p) = ground (
  arith,
  conditions_hold_permᴰ state p,
  ap (λ (c : String × Value). c.0) e,
  ap (λ (c : String × Value). c.1) e,
)
conditions_hold_permᴰ state (Permᴰ.swap {a = x} {b = y} {l = l} e f) = rw (e, f) (ground arith)
conditions_hold_permᴰ state (Permᴰ.trans p q) =
    conditions_hold_permᴰ state p ∙ conditions_hold_permᴰ state q

conditions_hold-perm :
    (state : State) {xs ys : State}
    → Perm xs ys
    → conditions_hold state xs ≡ conditions_hold state ys
conditions_hold-perm state p = ∥∥₁_elim p (Bool-set _ _) (conditions_hold_permᴰ state)

-- The order in which the conditions of a watch are visited does not change the answer.
pub matches-perm :
    (w u : Watch) (prev curr : State)
    → Perm w.prev u.prev
    → Perm w.curr u.curr
    → matches w prev curr ≡ matches u prev curr
unfolding matches
matches-perm w u prev curr p c = rw (conditions_hold-perm prev p, conditions_hold-perm curr c)
