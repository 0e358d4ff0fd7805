-- ===== src/Mangowc/Start/Ready.antt =====
-- mangowc/src/lib.rs: when the Wayland thread becomes ready.
use middlesox.Prelude.{
  ℕ, String, Bool, true, false, ◌||◌, Option, none, some, List, [], ◌∷◌, Result, ok, err, ◌≡◌, ◌↔◌,
  refl, ap, ◌∙◌, if◌then◌else◌, ◌==◌, Bool-cases, inl, inr, arith,
}
use middlesox.Mangowc.Wayland.{
  WaylandState, Bound, new, lookup_id, on_global, on_global_remove, on_output_name, on_tags,
  on_layout, bind_pending_outputs, drop_output, named, migrated, known, first_focused, bound_now,
}
use middlesox.Mangowc.Output.{
  IpcEvent, frame, active, on_ipc, on_named, focus, commit, collect, is_on,
}
use middlesox.Mangowc.Thread.{
  WaylandEvent, global, global_remove, output_name, tags, layout, ipc, dispatch, dispatch_all,
}
use middlesox.Mangowc.Commands.{MangoWcBackend}
use middlesox.Mangowc.Start.{
  Compositor, no_manager, subscribe, start_thread, with_eventfd, signalled, connected, with_manager,
  dispatched,
}

-- Whether the compositor announces its manager among these events.
abbrev pub announces : WaylandEvent → Bool
announces (global name interface) = interface == "zdwl_ipc_manager_v2"
announces e = false

abbrev pub announced : List WaylandEvent → Bool
announced [] = false
announced (e ∷ es) = announces e || announced es

on_global-manager :
    (name : ℕ) (interface : String) (w : WaylandState)
    → (on_global name interface w).manager ≡ (interface == "zdwl_ipc_manager_v2") || w.manager
unfolding on_global bind_pending_outputs
on_global-manager name interface w = ground arith

-- A step after which the manager is known if it was before.
abbrev Keeps : WaylandState → WaylandState → Type 0
Keeps w w' = w'.manager ≡ w.manager

named-Keeps :
    (id : ℕ) (name : String) (m : Option Bound) (w : WaylandState) → Keeps w (named id name m w)
named-Keeps id name none w = refl
named-Keeps id name (some b) w = refl

migrated-Keeps : (name : String) (m : Option Bound) (w : WaylandState) → Keeps w (migrated name m w)
migrated-Keeps name none w = refl
migrated-Keeps name (some b) w = ground arith

first_focused-Keeps :
    (id : ℕ) (name : String) (w : WaylandState) → Keeps w (first_focused id name w)
first_focused-Keeps id name w = ground arith

bound_now-Keeps : (id : ℕ) (m : Option Bound) (w : WaylandState) → Keeps w (bound_now id m w)
bound_now-Keeps id none w = refl
bound_now-Keeps id (some b) w = ground arith

on_output_name-Keeps :
    (id : ℕ) (name : String) (w : WaylandState) → Keeps w (on_output_name id name w)
unfolding on_output_name
on_output_name-Keeps id name w =
    let old = lookup_id id w.outputs in
    let w₁ = named id name old w in
    let w₂ = migrated name old w₁ in
    let w₃ = known name w₂ in
    let w₄ = first_focused id name w₃ in
    bound_now-Keeps id (lookup_id id w₄.outputs) w₄
    ∙ first_focused-Keeps id name w₃
    ∙ migrated-Keeps name old w₁
    ∙ named-Keeps id name old w

drop_output-Keeps :
    (name : ℕ) (m : Option Bound) (w : WaylandState) → Keeps w (drop_output name m w)
drop_output-Keeps name none w = refl
drop_output-Keeps name (some b) w = refl

focus-Keeps :
    (clock : Option ℕ) (id : ℕ) (name : String) (w : WaylandState) → Keeps w (focus clock id name w)
unfolding focus
focus-Keeps clock id name w = elim (Bool-cases (w.state.focused_output == name)) [
  | inl same ↦ rw same refl
  | inr differ ↦ rw differ refl
]

on_named-Keeps :
    (clock : Option ℕ) (e : IpcEvent) (id : ℕ) (m : Option Bound) (w : WaylandState)
    → Keeps w (on_named clock e id m w)
unfolding commit
on_named-Keeps clock e id none w = refl
on_named-Keeps clock frame id (some b) w = refl
on_named-Keeps clock (active a) id (some b) w =
    elim (is_on a)
      as (λ on. Keeps w (
        if on
        then focus clock id b.name (collect (active a) b.name w)
        else collect (active a) b.name w)) [
          | true ↦ focus-Keeps clock id b.name (collect (active a) b.name w)
          | false ↦ refl
        ]
on_named-Keeps clock e id (some b) w = refl

dispatch-manager :
    (clock : Option ℕ) (e : WaylandEvent) (w : WaylandState)
    → (dispatch clock e w).manager ≡ announces e || w.manager
unfolding dispatch on_ipc on_global_remove on_tags on_layout
dispatch-manager clock (global name interface) w = on_global-manager name interface w
dispatch-manager clock (global_remove name) w = drop_output-Keeps name (lookup_id name w.outputs) w
dispatch-manager clock (output_name output name) w = on_output_name-Keeps output name w
dispatch-manager clock (tags amount) w = refl
dispatch-manager clock (layout name) w = refl
dispatch-manager clock (ipc output event) w =
    on_named-Keeps clock event output (lookup_id output w.outputs) w

dispatch_all-manager :
    (clock : Option ℕ) (es : List WaylandEvent) (w : WaylandState)
    → (dispatch_all clock es w).manager ≡ announced es || w.manager
unfolding dispatch_all
dispatch_all-manager clock [] w = refl
dispatch_all-manager clock (e ∷ es) w =
    dispatch_all-manager clock es (dispatch clock e w)
    ∙ ap (λ b. announced es || b) (dispatch-manager clock e w)
    ∙ ground arith

-- What the start of the thread needs of the system and of the compositor.
pub record IsReady (k : Compositor) : Type 0 where
  pub eventfd_made : k.eventfd ≡ ok tt
  pub connects : k.connect ≡ ok tt
  pub first_events : List WaylandEvent
  pub second_events : List WaylandEvent
  pub first_comes : k.first ≡ ok first_events
  pub second_comes : k.second ≡ ok second_events
  pub manager_announced : announced first_events ≡ true

module _ (k : Compositor) where
  second_ok :
      (m : Result (List WaylandEvent)) (b : Bool) (v w : WaylandState)
      → (if b then dispatched k.clock "Roundtrip failed: " m v else err no_manager) ≡ ok w
      → (b ≡ true) × ((es : List WaylandEvent) × (m ≡ ok es))
  second_ok (ok es) true v w h = (refl, (es, refl))
  second_ok (err e) true v w h = cc
  second_ok m false v w h = cc

  first_ok :
      (m : Result (List WaylandEvent)) (v w : WaylandState)
      → v.manager ≡ false
      → with_manager k (dispatched k.clock "Roundtrip failed: " m v) ≡ ok w
      → (es : List WaylandEvent) × (m ≡ ok es)
        × (announced es ≡ true)
        × ((fs : List WaylandEvent) × (k.second ≡ ok fs))
  first_ok (err e) v w no_one h = cc
  first_ok (ok es) v w no_one h =
      let u = dispatch_all k.clock es v in
      let (found, rest) = second_ok k.second u.manager u w h in
      (es, refl, ground (arith, dispatch_all-manager k.clock es v), rest)

  connected_ok :
      (c : Result (Unit {0})) (v w : WaylandState)
      → v.manager ≡ false
      → connected k c v ≡ ok w
      → (c ≡ ok tt)
        × ((es : List WaylandEvent) × (k.first ≡ ok es)
            × (announced es ≡ true)
            × ((fs : List WaylandEvent) × (k.second ≡ ok fs)))
  connected_ok (err e) v w no_one h = cc
  connected_ok (ok u) v w no_one h = (refl, first_ok k.first v w no_one h)

  signalled_ok :
      (subs : List String) (m : Result WaylandState)
      → (signalled subs m).0 ≡ ok tt
      → (w : WaylandState) × (m ≡ ok w)
  signalled_ok subs (err e) h = cc
  signalled_ok subs (ok w) h = (w, refl)

  subscribe_ok :
      (e : Result (Unit {0})) (subs : List String) (b : MangoWcBackend)
      → k.eventfd ≡ e
      → (with_eventfd k e subs b).0 ≡ ok tt
      → IsReady k
  unfolding start_thread new
  subscribe_ok (err x) subs b q h = cc
  subscribe_ok (ok u) subs b q h =
      let (w, ran) = signalled_ok subs (start_thread k subs) h in
      let (c, (es, f, found, (fs, s))) = connected_ok k.connect (new subs) w refl ran in
      record {
        eventfd_made = q;
        connects = c;
        first_events = es;
        second_events = fs;
        first_comes = f;
        second_comes = s;
        manager_announced = found;
      }

  start_thread-IsReady :
      (subs : List String) (r : IsReady k)
      → start_thread k subs
        ≡ ok (dispatch_all k.clock r.second_events (dispatch_all k.clock r.first_events (new subs)))
  unfolding start_thread
  start_thread-IsReady subs r =
      rw
        (
          r.connects,
          r.first_comes,
          r.second_comes,
          dispatch_all-manager k.clock r.first_events (new subs),
          r.manager_announced,
        )
        refl

  -- The subscription succeeds exactly when the eventfd and the connection are made, both roundtrips
  -- come back, and the compositor announces its manager of dwl in the first.
  pub subscribe_ok_iff :
      (subs : List String) (b : MangoWcBackend) → ((subscribe k subs b).0 ≡ ok tt) ↔ IsReady k
  unfolding subscribe
  subscribe_ok_iff subs b = (
    subscribe_ok k.eventfd subs b refl,
    λ r. rw (r.eventfd_made, start_thread-IsReady subs r) refl,
  )
