-- ===== src/Mangowc/Thread.antt =====
-- mangowc/src/lib.rs: the Wayland thread over all that the compositor may send it.
use middlesox.Prelude.{ℕ, String, Option, List, [], ◌∷◌}
use middlesox.Mangowc.Wayland.{
  WaylandState, on_global, on_global_remove, on_output_name, on_tags, on_layout,
}
use middlesox.Mangowc.Output.{IpcEvent, on_ipc}

-- What the compositor sends: globals that come and go, the name of an output, the tags and layouts of
-- the manager, and the events of an output.
pub data WaylandEvent : Type 0 where
  global : (name : ℕ) (interface : String) → WaylandEvent
  global_remove : (name : ℕ) → WaylandEvent
  output_name : (output : ℕ) (name : String) → WaylandEvent
  tags : (amount : ℕ) → WaylandEvent
  layout : (name : String) → WaylandEvent
  ipc : (output : ℕ) (event : IpcEvent) → WaylandEvent

unfoldable pub dispatch : Option ℕ → WaylandEvent → WaylandState → WaylandState
dispatch clock (global name interface) w = on_global name interface w
dispatch clock (global_remove name) w = on_global_remove name w
dispatch clock (output_name output name) w = on_output_name output name w
dispatch clock (tags amount) w = on_tags amount w
dispatch clock (layout name) w = on_layout name w
dispatch clock (ipc output event) w = on_ipc clock output event w

unfoldable pub dispatch_all : Option ℕ → List WaylandEvent → WaylandState → WaylandState
unfolding dispatch
dispatch_all clock [] w = w
dispatch_all clock (e ∷ es) w = dispatch_all clock es (dispatch clock e w)
