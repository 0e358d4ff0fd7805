-- ===== src/Controller/Reach.antt =====
-- middlesox/src/controller.rs: the keys that the daemon sets, over all that it does.
use mathlib.Core.List.{Memᴰ}
use mathlib.Core.Path.{subst}
use middlesox.Prelude.{◌≡◌, String, List, [], ◌∷◌}
use middlesox.Manifest.{CapabilityManifest}
use middlesox.Event.{RawEvent}
use middlesox.Config.{Config}
use middlesox.Control.{ControlRequest}
use middlesox.Adapter.{ProtocolAdapter}
use middlesox.Handle.{Actor, Input, run}
use middlesox.Handle.Invariant.{Preserves, AllAllowed, run-P}
use middlesox.Engine.Policy.{IsWritable}
use middlesox.Engine.Run.{Rhai, Schedule, eval_with_scope, execute_file_with_event}
use middlesox.Engine.Guarded.{IsCalm, execute_file_with_event-P}
use middlesox.Engine.Reach.{logged, AllWritable, logged-Preserves}
use middlesox.Scripts.{Host}
use middlesox.Controller.{handle_control}
use middlesox.Controller.Guarded.{with_engine, handle_control-P}

-- What the daemon does that reaches the adapter: a client's request, a Rhai script that an event has
-- started, and what the actor takes besides. The schedules are those of the scripts.
pub data Activity : Type 0 where
  client :
      (before : List Input) (between : List Input) (schedule : Schedule) (request : ControlRequest)
      → Activity
  script : (schedule : Schedule) (path : String) (event : RawEvent) → Activity
  others : List Input → Activity

-- What comes in between sets writable keys only.
abbrev pub IsCalmly : CapabilityManifest → Activity → Type 0
IsCalmly m (client before between schedule r) =
    AllAllowed (IsWritable m) before × AllAllowed (IsWritable m) between × IsCalm m schedule
IsCalmly m (script schedule path e) = IsCalm m schedule
IsCalmly m (others is) = AllAllowed (IsWritable m) is

abbrev pub AllCalm : CapabilityManifest → List Activity → Type 0
AllCalm m [] = Unit
AllCalm m (act ∷ acts) = IsCalmly m act × AllCalm m acts

module _ {S : Type 0} (a : ProtocolAdapter S) (rhai : Rhai) (host : Host S) (c : Config)
    (dir : String) where
  abbrev pub perform : Activity → Actor S → Actor S
  perform (client before between schedule r) s =
      (handle_control a (with_engine a rhai schedule host) c dir before between r s).1
  perform (script schedule path e) s =
      (execute_file_with_event (eval_with_scope a rhai schedule) (host.read_text path) e s).1
  perform (others is) s = run a is s

  abbrev pub perform_all : List Activity → Actor S → Actor S
  perform_all [] s = s
  perform_all (act ∷ acts) s = perform_all acts (perform act s)

module _ {S : Type 0} {a : ProtocolAdapter S} (m : CapabilityManifest) {P : S → Type 0}
    (p : Preserves a (IsWritable m) P) (fixed : (s : S) → a.manifest s ≡ m) (rhai : Rhai)
    (host : Host S) (c : Config) (dir : String) where
  perform-P :
      (act : Activity) (s : Actor S)
      → IsCalmly m act
      → P s.adapter
      → P (perform a rhai host c dir act s).adapter
  perform-P (client before between schedule r) s (ours, theirs, calm) h =
      handle_control-P m p fixed schedule calm rhai host c dir before ours between theirs r s h
  perform-P (script schedule path e) s calm h =
      execute_file_with_event-P m p fixed schedule calm rhai (host.read_text path) e s h
  perform-P (others is) s calm h = run-P p is s calm h

  perform_all-P :
      (acts : List Activity) (s : Actor S)
      → AllCalm m acts
      → P s.adapter
      → P (perform_all a rhai host c dir acts s).adapter
  perform_all-P [] s calm h = h
  perform_all-P (act ∷ acts) s (calm, rest) h =
      perform_all-P acts (perform a rhai host c dir act s) rest (perform-P act s calm h)

-- Whatever the clients ask, whatever the scripts do and whatever the interpreter makes of them, the
-- daemon sets only keys that the manifest declares writable. This holds of an adapter whose manifest
-- does not change, where the other commands that its actor takes set writable keys only.
pub perform_all-AllWritable :
    {S : Type 0} (a : ProtocolAdapter S) (m : CapabilityManifest)
    → ((s : S) → a.manifest s ≡ m)
    → (rhai : Rhai) (host : Host (S × List String)) (c : Config) (dir : String)
      (acts : List Activity)
    → AllCalm m acts
    → (s : Actor (S × List String)) → s.adapter.1 ≡ []
    → AllWritable m (perform_all (logged a) rhai host c dir acts s).adapter
perform_all-AllWritable a m fixed rhai host c dir acts calm s e =
    perform_all-P m (logged-Preserves a m) (λ (t, keys). fixed t) rhai host c dir acts s calm
      (λ key mem. elim (subst (λ keys. Memᴰ key keys) e mem) [ ])
