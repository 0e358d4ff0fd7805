-- ===== src/Mangowc/Channel.antt =====
-- mangowc/src/lib.rs: what the channel of events holds, over all that the compositor may send.
use middlesox.Prelude.{
  ℕ, suc, ◌≤◌, String, Bool, true, false, not, ◌&&◌, Option, none, some, List, [], ◌∷◌, ◌++◌, ◌≡◌,
  refl, sym, ap, ◌∙◌, all, contains, length, ltb, if◌then◌else◌, arith, Bool-cases, inl, inr, ◌==◌,
  lookup,
}
use mathlib.Core.Path.{subst}
use middlesox.Event.{RawEvent, with_prev_state, with_curr_state, new}
use middlesox.Mangowc.Frame.{Sink, Change, try_send, emit_event, emit_changes, capacity}
use middlesox.Mangowc.Wayland.{
  WaylandState, Bound, lookup_id, on_global, on_global_remove, on_output_name, on_tags, on_layout,
  bind_pending_outputs, drop_output, named, migrated, known, first_focused, bound_now,
}
use middlesox.Mangowc.Output.{
  IpcEvent, frame, active, on_ipc, on_named, focus, commit, collect, is_on, frame_changes,
  pending_of,
}
use middlesox.Mangowc.Thread.{
  WaylandEvent, global, global_remove, output_name, tags, layout, ipc, dispatch, dispatch_all,
}

abbrev is_wanted : List String → RawEvent → Bool
is_wanted subs e = contains subs e.name

-- The channel holds at most its capacity, and only events that are subscribed to.
pub record IsSink (subs : List String) (k : Sink) : Type 0 where
  pub subscribed : k.subscriptions ≡ subs
  pub bounded : length k.waiting ≤ capacity
  pub wanted : all (is_wanted subs) k.waiting ≡ true

length-snoc : {A : Type 0} (xs : List A) (x : A) → length (xs ++ (x ∷ [])) ≡ suc (length xs)
length-snoc [] x = refl
length-snoc (y ∷ ys) x = omega (arith, length-snoc ys x)

all-snoc :
    {A : Type 0} (p : A → Bool) (xs : List A) (x : A)
    → all p xs ≡ true
    → p x ≡ true
    → all p (xs ++ (x ∷ [])) ≡ true
all-snoc p [] x h g = rw g refl
all-snoc p (y ∷ ys) x h g = ground (arith, all-snoc p ys x)

try_send-IsSink :
    (subs : List String) (e : RawEvent) (k : Sink)
    → IsSink subs k
    → is_wanted subs e ≡ true
    → IsSink subs (try_send e k)
unfolding try_send
try_send-IsSink subs e k h g = elim (Bool-cases (k.receiving && ltb (length k.waiting) capacity)) [
  | inl room ↦ rw room (record {
    subscribed = h.subscribed;
    bounded = rw (length-snoc k.waiting e) (ground arith);
    wanted = all-snoc (is_wanted subs) k.waiting e h.wanted g;
  })
  | inr full ↦ rw full h
]

emit_event-IsSink :
    (subs : List String) (clock : Option ℕ) (c : Change) (k : Sink)
    → IsSink subs k
    → IsSink subs (emit_event clock c k)
unfolding emit_event with_curr_state with_prev_state new
emit_event-IsSink subs clock c k h = elim (Bool-cases (contains k.subscriptions c.name)) [
  | inl yes_wanted ↦
      rw yes_wanted
        (try_send-IsSink subs _ k h (ap (λ s. contains s c.name) (sym h.subscribed) ∙ yes_wanted))
  | inr not_wanted ↦ rw not_wanted h
]

emit_changes-IsSink :
    (subs : List String) (clock : Option ℕ) (cs : List Change) (k : Sink)
    → IsSink subs k
    → IsSink subs (emit_changes clock cs k)
unfolding emit_changes
emit_changes-IsSink subs clock [] k h = h
emit_changes-IsSink subs clock (c ∷ cs) k h =
    emit_changes-IsSink subs clock cs (emit_event clock c k) (emit_event-IsSink subs clock c k h)

-- A step that leaves the channel alone.
record Quiet (w w' : WaylandState) : Type 0 where
  same : w'.sink ≡ w.sink

quiet : {w : WaylandState} → Quiet w w
quiet = record { same = refl }

if-Quiet :
    {w : WaylandState} (b : Bool) (p q : WaylandState)
    → Quiet w p
    → Quiet w q
    → Quiet w (if b then p else q)
if-Quiet true p q h g = h
if-Quiet false p q h g = g

then-Quiet : {u v w : WaylandState} → Quiet u v → Quiet v w → Quiet u w
then-Quiet h g = record { same = g.same ∙ h.same }

bind_pending_outputs-Quiet : (w : WaylandState) → Quiet w (bind_pending_outputs w)
unfolding bind_pending_outputs
bind_pending_outputs-Quiet w = if-Quiet w.manager _ _ (record { same = refl }) quiet

on_global-Quiet :
    (name : ℕ) (interface : String) (w : WaylandState) → Quiet w (on_global name interface w)
unfolding on_global
on_global-Quiet name interface w =
    if-Quiet (interface == "zdwl_ipc_manager_v2") _ _
      (then-Quiet (record { same = refl })
        (bind_pending_outputs-Quiet (record w { manager = true })))
      (if-Quiet (interface == "wl_output") _ _
        (if-Quiet w.manager _ _ (record { same = refl }) (record { same = refl })) quiet)

drop_output-Quiet :
    (name : ℕ) (m : Option Bound) (w : WaylandState) → Quiet w (drop_output name m w)
drop_output-Quiet name none w = quiet
drop_output-Quiet name (some b) w = record { same = refl }

named-Quiet :
    (id : ℕ) (name : String) (m : Option Bound) (w : WaylandState) → Quiet w (named id name m w)
named-Quiet id name none w = quiet
named-Quiet id name (some b) w = record { same = refl }

migrated-Quiet : (name : String) (m : Option Bound) (w : WaylandState) → Quiet w (migrated name m w)
migrated-Quiet name none w = quiet
migrated-Quiet name (some b) w = if-Quiet (b.name == name) _ _ quiet (record { same = refl })

first_focused-Quiet :
    (id : ℕ) (name : String) (w : WaylandState) → Quiet w (first_focused id name w)
first_focused-Quiet id name w =
    if-Quiet (w.state.focused_output == "") _ _ (record { same = refl }) quiet

bound_now-Quiet : (id : ℕ) (m : Option Bound) (w : WaylandState) → Quiet w (bound_now id m w)
bound_now-Quiet id none w = quiet
bound_now-Quiet id (some b) w = if-Quiet (w.manager && not b.ipc) _ _ (record { same = refl }) quiet

on_output_name-Quiet :
    (id : ℕ) (name : String) (w : WaylandState) → Quiet w (on_output_name id name w)
unfolding on_output_name
on_output_name-Quiet id name w =
    let old = lookup_id id w.outputs in
    let w₁ = named id name old w in
    let w₂ = migrated name old w₁ in
    let w₃ = known name w₂ in
    let w₄ = first_focused id name w₃ in
    then-Quiet (named-Quiet id name old w) (
      then-Quiet (migrated-Quiet name old w₁) (
        then-Quiet {v = w₃} (record { same = refl })
          (then-Quiet (first_focused-Quiet id name w₃)
            (bound_now-Quiet id (lookup_id id w₄.outputs) w₄))))

module _ (subs : List String) (clock : Option ℕ) where
  abbrev Holds : WaylandState → Type 0
  Holds w = IsSink subs w.sink

  focus-Holds :
      (id : ℕ) (name : String) (w : WaylandState) → Holds w → Holds (focus clock id name w)
  unfolding focus
  focus-Holds id name w h = elim (Bool-cases (w.state.focused_output == name)) [
    | inl same ↦ rw same h
    | inr differ ↦ rw differ (emit_event-IsSink subs clock _ w.sink h)
  ]

  on_named-Holds :
      (e : IpcEvent) (id : ℕ) (m : Option Bound) (w : WaylandState)
      → Holds w
      → Holds (on_named clock e id m w)
  unfolding commit
  on_named-Holds e id none w h = h
  on_named-Holds frame id (some b) w h =
      emit_changes-IsSink subs clock
        (frame_changes w.state.global b.name (b.name == w.state.focused_output)
          (lookup b.name w.state.outputs) (pending_of b.name w))
        w.sink h
  on_named-Holds (active a) id (some b) w h =
      elim (is_on a)
        as (λ on.
          IsSink subs
            (if on
              then focus clock id b.name (collect (active a) b.name w)
              else collect (active a) b.name w).sink) [
                | true ↦ focus-Holds id b.name (collect (active a) b.name w) h
                | false ↦ h
              ]
  on_named-Holds e id (some b) w h = h

  Quiet-Holds : (w w' : WaylandState) → Quiet w w' → Holds w → Holds w'
  Quiet-Holds w w' q h = subst (IsSink subs) (sym q.same) h

  dispatch-Holds : (e : WaylandEvent) (w : WaylandState) → Holds w → Holds (dispatch clock e w)
  unfolding dispatch on_ipc on_global_remove on_tags on_layout
  dispatch-Holds (global name interface) w h =
      Quiet-Holds w (on_global name interface w) (on_global-Quiet name interface w) h
  dispatch-Holds (global_remove name) w h =
      Quiet-Holds w _ (drop_output-Quiet name (lookup_id name w.outputs) w) h
  dispatch-Holds (output_name output name) w h =
      Quiet-Holds w (on_output_name output name w) (on_output_name-Quiet output name w) h
  dispatch-Holds (tags amount) w h = h
  dispatch-Holds (layout name) w h = h
  dispatch-Holds (ipc output event) w h =
      on_named-Holds event output (lookup_id output w.outputs) w h

-- Whatever the compositor sends, the channel of events holds at most its capacity, and only events
-- whose name is subscribed to.
pub dispatch_all-IsSink :
    (subs : List String) (clock : Option ℕ) (es : List WaylandEvent) (w : WaylandState)
    → IsSink subs w.sink
    → IsSink subs (dispatch_all clock es w).sink
unfolding dispatch_all
dispatch_all-IsSink subs clock [] w h = h
dispatch_all-IsSink subs clock (e ∷ es) w h =
    dispatch_all-IsSink subs clock es (dispatch clock e w) (dispatch-Holds subs clock e w h)
