-- ===== src/Examples/Wayland.antt =====
-- Tests of the adapter for MangoWC, and its theorems at concrete inputs.
use middlesox.Prelude.{
  true, false, none, some, List, [], ◌∷◌, ok, err, ◌≡◌, ◌↔◌, refl, lookup, insert, remove, pos, map,
  arith,
}
use middlesox.Json.{number, pos_int, bool, object, field, end}
use middlesox.Mangowc.{OutputState, default_tag, mask_from, layout_code_to_name}
use middlesox.Mangowc.Values.{parse_tags_value, value_as_u32, layout_matches, eq_ignore_ascii_case}
use middlesox.Mangowc.Frame.{changes, picked, start_sink}
use middlesox.Mangowc.Wayland.{WaylandState, new, lookup_id}
use middlesox.Mangowc.Output.{
  IpcEvent, on_ipc, frame, tag, title, update, set_tag, pending_of, commit,
}
use middlesox.Mangowc.Buffering.{run_ipc, updates, run_ipc-frame}
use middlesox.Mangowc.Changes.{IsShownSame, changes-eq-nil_iff}
use middlesox.Mangowc.Thread.{WaylandEvent, global, output_name, tags, ipc, dispatch_all}
use middlesox.Mangowc.Channel.{IsSink, dispatch_all-IsSink}
use middlesox.Mangowc.Commands.{Thread, Phase, Request, set_on, focused_ipc}
use middlesox.Mangowc.Commands.Served.{IsServed, set_on-IsServed}

tags_with_toggle :
    parse_tags_value
      (object (field "tagmask" (number (pos_int 4)) (field "toggle" (bool true) end)))
    ≡ ok (4, true)
unfolding parse_tags_value value_as_u32 lookup
tags_with_toggle = refl

tags_too_large : parse_tags_value (number (pos_int 4294967296)) ≡ err "tags must fit in u32"
unfolding parse_tags_value value_as_u32
tags_too_large = refl

layout_by_name : layout_matches "CT" "center tile" ≡ true
unfolding layout_matches eq_ignore_ascii_case layout_code_to_name
layout_by_name = refl

abbrev screen : OutputState
screen = record {
  active_tags = 0;
  layout_idx = 0;
  title = "";
  appid = "";
  tag_info = default_tag ∷ default_tag ∷ default_tag ∷ [];
  active = true;
  fullscreen = false;
  floating = false;
  layout_symbol = "";
  x = pos 0;
  y = pos 0;
  width = pos 0;
  height = pos 0;
  last_layer = "";
  kb_layout = "";
  keymode = "";
  scale_factor = 100;
}

-- One output with three tags, named and bound.
abbrev wayland : WaylandState
wayland = record {
  manager = true;
  outputs = (7, record { name = "DP-1"; ipc = true }) ∷ [];
  pending_outputs = [];
  state = record {
    global = record { tag_count = 3; layouts = "T" ∷ "M" ∷ [] };
    outputs = ("DP-1", screen) ∷ [];
    focused_output = "DP-1";
  };
  pending = [];
  sink = record { subscriptions = "tag_change" ∷ []; waiting = []; receiving = true };
  focused_output_id = some 7;
}

abbrev second_tag : List IpcEvent
second_tag = tag 1 1 2 1 ∷ title "vim" ∷ []

tags_after_frame :
    map
      (λ (name, o). o.active_tags)
      (on_ipc none 7 frame (run_ipc none 7 second_tag wayland)).state.outputs
    ≡ 2 ∷ []
unfolding on_ipc update set_tag pending_of commit lookup_id lookup insert remove changes picked
    mask_from default_tag
tags_after_frame = refl

run_ipc-frame_example :
    ((run_ipc none 7 second_tag wayland).state.outputs ≡ wayland.state.outputs)
    × (let w' = on_ipc none 7 frame (run_ipc none 7 second_tag wayland) in
        (lookup "DP-1" w'.state.outputs ≡ some (updates second_tag (pending_of "DP-1" wayland)))
        × (lookup "DP-1" w'.pending ≡ none))
unfolding lookup_id
run_ipc-frame_example =
    run_ipc-frame none 7 (record { name = "DP-1"; ipc = true }) second_tag wayland refl
      ((λ h. h), ((λ h. h), tt))

changes-eq-nil_iff_example :
    (changes wayland.state.global "DP-1" true screen (record screen { keymode = "resize" }) ≡ [])
    ↔ IsShownSame true screen (record screen { keymode = "resize" })
changes-eq-nil_iff_example =
    changes-eq-nil_iff wayland.state.global "DP-1" true screen
      (record screen { keymode = "resize" })

abbrev from_compositor : List WaylandEvent
from_compositor =
    global 1 "zdwl_ipc_manager_v2"
    ∷ global 2 "wl_output"
    ∷ tags 3
    ∷ output_name 2 "DP-1"
    ∷ ipc 2 (tag 0 1 1 1)
    ∷ ipc 2 frame
    ∷ []

dispatch_all-IsSink_example :
    IsSink ("tag_change" ∷ []) (dispatch_all none from_compositor (new ("tag_change" ∷ []))).sink
unfolding new start_sink
dispatch_all-IsSink_example =
    dispatch_all-IsSink ("tag_change" ∷ []) none from_compositor (new ("tag_change" ∷ []))
      (record { subscribed = refl; bounded = omega arith; wanted = refl })

abbrev thread : Thread
thread = record { wayland = wayland; requests = []; phase = Phase.serving }

tags_are_sent :
    (set_on "tags" (number (pos_int 5)) thread).1.requests ≡ Request.set_tags 7 5 false ∷ []
unfolding set_on parse_tags_value value_as_u32 focused_ipc lookup_id
tags_are_sent = refl

-- A layout index that does not fit 32 bits is cut to them, so that the first layout is chosen.
layout_is_cut :
    (set_on "layout" (number (pos_int 4294967296)) thread).1.requests ≡ Request.set_layout 7 0 ∷ []
unfolding set_on focused_ipc lookup_id
layout_is_cut = refl

set_on-IsServed_example : IsServed thread (set_on "tags" (number (pos_int 5)) thread)
set_on-IsServed_example = set_on-IsServed "tags" (number (pos_int 5)) thread
