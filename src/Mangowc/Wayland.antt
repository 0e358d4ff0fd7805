-- ===== src/Mangowc/Wayland.antt =====
-- mangowc/src/lib.rs: `WaylandState`, and what its `Dispatch` implementations do on the events of the
-- registry, of an output, of the manager and of an output of the manager. What is sent to the
-- compositor at a binding has no model: an output only knows whether it is bound.
use middlesox.Prelude.{
  ℕ, zero, suc, String, Bool, true, false, not, ◌&&◌, Option, none, some, List, [], ◌∷◌, ◌++◌, map,
  nat_eq, if◌then◌else◌, ◌==◌, is_empty_text, replicate, lookup, insert, remove, ◌<>◌, show_nat,
}
use middlesox.Mangowc.{OutputState, CompositorState, default_output, default_tag, default_state}
use middlesox.Mangowc.Frame.{Sink, start_sink}

-- An output of the registry: its name, and whether its IPC output is bound.
pub record Bound : Type 0 where
  pub name : String
  pub ipc : Bool

pub record WaylandState : Type 0 where
  pub manager : Bool
  pub outputs : List (ℕ × Bound)
  pub pending_outputs : List ℕ
  pub state : CompositorState
  pub pending : List (String × OutputState)
  pub sink : Sink
  pub focused_output_id : Option ℕ

unfoldable pub new : List String → WaylandState
unfolding default_state start_sink
new subscriptions = record {
  manager = false;
  outputs = [];
  pending_outputs = [];
  state = default_state;
  pending = [];
  sink = start_sink subscriptions;
  focused_output_id = none;
}

module _ {V : Type 0} where
  unfoldable pub lookup_id : ℕ → List (ℕ × V) → Option V
  lookup_id id [] = none
  lookup_id id ((i, v) ∷ rest) = if nat_eq i id then some v else lookup_id id rest

  unfoldable pub insert_id : ℕ → V → List (ℕ × V) → List (ℕ × V)
  insert_id id v [] = (id, v) ∷ []
  insert_id id v ((i, w) ∷ rest) =
      if nat_eq i id then (id, v) ∷ rest else (i, w) ∷ insert_id id v rest

  unfoldable pub remove_id : ℕ → List (ℕ × V) → List (ℕ × V)
  remove_id id [] = []
  remove_id id ((i, w) ∷ rest) =
      let kept = remove_id id rest in if nat_eq i id then kept else (i, w) ∷ kept

abbrev pub placeholder : ℕ → String
placeholder id = "output-" <> show_nat id

abbrev pub bind_all : List ℕ → List (ℕ × Bound) → List (ℕ × Bound)
bind_all [] outputs = outputs
bind_all (id ∷ ids) outputs =
    bind_all ids (insert_id id (record { name = placeholder id; ipc = true }) outputs)

unfoldable pub bind_pending_outputs : WaylandState → WaylandState
unfolding insert_id show_nat
bind_pending_outputs w =
    if w.manager
    then record w { pending_outputs = []; outputs = bind_all w.pending_outputs w.outputs }
    else w

-- `Global` of the registry.
unfoldable pub on_global : ℕ → String → WaylandState → WaylandState
unfolding bind_pending_outputs insert_id show_nat
on_global name interface w =
    if interface == "zdwl_ipc_manager_v2"
    then bind_pending_outputs (record w { manager = true })
    else if interface == "wl_output"
    then if w.manager
      then record w {
        outputs = insert_id name (record { name = placeholder name; ipc = true }) w.outputs;
      }
      else record w {
        outputs = insert_id name (record { name = placeholder name; ipc = false }) w.outputs;
        pending_outputs = w.pending_outputs ++ (name ∷ []);
      }
    else w

abbrev pub drop_output : ℕ → Option Bound → WaylandState → WaylandState
drop_output name none w = w
drop_output name (some b) w = record w {
  outputs = remove_id name w.outputs;
  state = record (w.state) { outputs = remove b.name w.state.outputs };
}

-- `GlobalRemove` of the registry.
unfoldable pub on_global_remove : ℕ → WaylandState → WaylandState
unfolding lookup_id remove_id remove
on_global_remove name w = drop_output name (lookup_id name w.outputs) w

abbrev move_key : {V : Type 0} → String → String → Option V → List (String × V) → List (String × V)
move_key old_name name none m = m
move_key old_name name (some v) m = insert name v (remove old_name m)

abbrev rename : {V : Type 0} → String → String → List (String × V) → List (String × V)
rename old_name name m = move_key old_name name (lookup old_name m) m

abbrev pub migrated : String → Option Bound → WaylandState → WaylandState
migrated name none w = w
migrated name (some b) w = if b.name == name then w else record w {
  pending = rename b.name name w.pending;
  state = record (w.state) { outputs = rename b.name name w.state.outputs };
}

abbrev pub named : ℕ → String → Option Bound → WaylandState → WaylandState
named id name none w = w
named id name (some b) w = record w { outputs = insert_id id (record b { name = name }) w.outputs }

abbrev or_insert :
    String
    → OutputState
    → Option OutputState
    → List (String × OutputState)
    → List (String × OutputState)
or_insert name fresh none m = insert name fresh m
or_insert name fresh (some o) m = m

abbrev pub known : String → WaylandState → WaylandState
known name w =
    let fresh : OutputState = record default_output {
      tag_info = replicate w.state.global.tag_count default_tag;
    } in
    record w {
      state = record (w.state) {
        outputs = or_insert name fresh (lookup name w.state.outputs) w.state.outputs;
      };
    }

abbrev pub first_focused : ℕ → String → WaylandState → WaylandState
first_focused id name w =
    if is_empty_text w.state.focused_output
    then record w {
      state = record (w.state) { focused_output = name };
      focused_output_id = some id;
    }
    else w

abbrev pub bound_now : ℕ → Option Bound → WaylandState → WaylandState
bound_now id none w = w
bound_now id (some b) w =
    if w.manager && not b.ipc
    then record w { outputs = insert_id id (record b { ipc = true }) w.outputs }
    else w

-- `Name` of an output: the name is stored, the state moves from the placeholder's name to it, the first
-- output is the focused one, and the IPC output is bound if the manager is there.
unfoldable pub on_output_name : ℕ → String → WaylandState → WaylandState
unfolding lookup_id insert_id lookup insert remove default_output default_tag
on_output_name id name w₀ =
    let old = lookup_id id w₀.outputs in
    let w₁ = named id name old w₀ in
    let w₂ = migrated name old w₁ in
    let w₃ = known name w₂ in
    let w₄ = first_focused id name w₃ in bound_now id (lookup_id id w₄.outputs) w₄

-- `Vec::resize`
abbrev resize : {A : Type 0} → ℕ → A → List A → List A
resize zero a xs = []
resize (suc n) a [] = a ∷ resize n a []
resize (suc n) a (x ∷ xs) = x ∷ resize n a xs

abbrev resized : ℕ → String × OutputState → String × OutputState
resized amount (name, o) = (name, record o { tag_info = resize amount default_tag o.tag_info })

-- `Tags` of the manager.
unfoldable pub on_tags : ℕ → WaylandState → WaylandState
unfolding default_tag
on_tags amount w = record w {
  state = record (w.state) {
    global = record (w.state.global) { tag_count = amount };
    outputs = map (resized amount) w.state.outputs;
  };
}

-- `Layout` of the manager.
unfoldable pub on_layout : String → WaylandState → WaylandState
on_layout name w = record w {
  state = record (w.state) {
    global = record (w.state.global) { layouts = w.state.global.layouts ++ (name ∷ []) };
  };
}
