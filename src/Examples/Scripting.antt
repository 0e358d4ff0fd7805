-- ===== src/Examples/Scripting.antt =====
-- Whole scripts at concrete inputs.
use mathlib.Core.List.{Memᴰ}
use mathlib.Core.Path.{subst}
use middlesox.Prelude.{◌≡◌, refl, sym, String, true, none, some, List, [], ◌∷◌, ok}
use middlesox.Dynamic.{Dynamic}
use middlesox.Capability.{is_writable}
use middlesox.Manifest.{find_cap}
use middlesox.Handle.{Actor, receive, get, run, step, call_manifest, call_get, call_set}
use middlesox.Handle.Invariant.{IsAllowed, AllAllowed}
use middlesox.Control.{ControlRequest}
use middlesox.Scripts.{Host, exited}
use middlesox.Engine.Policy.{IsWritable}
use middlesox.Engine.Run.{
  Rhai, Schedule, Operation, ask, tell, finish, execute_sync, eval_with_scope,
  execute_file_with_event,
}
use middlesox.Engine.Guarded.{IsCalm}
use middlesox.Engine.Reach.{logged, AllWritable}
use middlesox.Controller.{handle_control}
use middlesox.Controller.Reach.{
  Activity, client, script, others, IsCalmly, AllCalm, perform_all, perform_all-AllWritable,
}
use middlesox.Mock
use middlesox.Mock.{MockBackend, adapter}
use middlesox.Examples.Data.{actor, moved, config, one, two}

-- Reads the layout, tries to set a key that is read-only, sets the layout.
abbrev steps : List Dynamic → Operation
steps [] = ask "layout"
steps (d ∷ []) = tell "monitor" (Dynamic.string "x")
steps (d ∷ e ∷ []) = tell "layout" d
steps (d ∷ e ∷ f ∷ more) = finish (ok f)

abbrev interpreter : Rhai
interpreter = record { next = λ script scope answers. steps answers; too_many = "stopped" }

abbrev alone : Schedule
alone = record { before = λ n. []; between = λ n. [] }

abbrev logging : Actor (MockBackend × List String)
logging = record {
  name = "mock";
  adapter = (actor.adapter, []);
  live = true;
  events = [];
  replies = [];
}

abbrev logged_host : Host (MockBackend × List String)
logged_host = record {
  exists = λ path. true;
  read_text = λ path. ok "text";
  read_bytes = λ path. ok (0x23 ∷ 0x21 ∷ []);
  eval = λ text scope s. (ok Dynamic.unit, s);
  output = λ p. exited true "exit status: 0" [] [];
  print = λ v. "";
  print_state = λ s. "";
  lossy = λ bytes. "";
  debug = λ d. "";
  pid = 42;
}

-- A client sets a read-only key, an event starts the script, a client sets the workspace.
abbrev activities : List Activity
activities =
    client [] [] alone (ControlRequest.set "monitor" one)
    ∷ script alone "/s/layout.rhai" moved
    ∷ others (receive (some (get "workspace" 7)) ∷ [])
    ∷ client [] [] alone (ControlRequest.set "workspace" two)
    ∷ []

abbrev performed : Actor (MockBackend × List String)
performed =
    perform_all (logged (adapter none)) interpreter logged_host config "/s" activities logging

keys_set : performed.adapter.1 ≡ "workspace" ∷ "layout" ∷ []
unfolding execute_sync eval_with_scope call_manifest call_get run step find_cap Mock.manifest
    is_writable call_set handle_control execute_file_with_event Mock.set
keys_set = refl

nothing_set : AllAllowed (IsWritable (Mock.manifest actor.adapter)) []
nothing_set i m = elim m [ ]

get_is_allowed :
    AllAllowed (IsWritable (Mock.manifest actor.adapter)) (receive (some (get "workspace" 7)) ∷ [])
get_is_allowed i m = elim m [
  | Memᴰ.head e ↦ subst (IsAllowed (IsWritable (Mock.manifest actor.adapter))) (sym e) tt
  | Memᴰ.tail later ↦ elim later [ ]
]

alone-IsCalm : IsCalm (Mock.manifest actor.adapter) alone
alone-IsCalm n = (nothing_set, nothing_set)

activities_calm : AllCalm (Mock.manifest actor.adapter) activities
activities_calm =
    let quiet : IsCalmly (Mock.manifest actor.adapter) (client [] [] alone (ControlRequest.stop)) =
      (nothing_set, nothing_set, alone-IsCalm) in
    (quiet, (alone-IsCalm, (get_is_allowed, (quiet, tt))))

perform_all-AllWritable_example : AllWritable (Mock.manifest actor.adapter) performed.adapter
unfolding Mock.manifest
perform_all-AllWritable_example =
    perform_all-AllWritable (adapter none) (Mock.manifest actor.adapter) (λ b. refl) interpreter
      logged_host config "/s" activities activities_calm logging refl
