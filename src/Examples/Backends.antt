-- ===== src/Examples/Backends.antt =====
-- The mock backend at concrete inputs.
use middlesox.Prelude.{◌≡◌, refl, true, none, some, [], ◌∷◌, ok, arith, contains, inl}
use middlesox.Event.{RawEvent}
use middlesox.Handle.{Actor, receive, next, set, run, spawn}
use middlesox.Mock
use middlesox.Mock.{MockBackend, adapter}
use middlesox.Mock.Ticks.{IsValid, run-MockIsValid, next_event-ready}
use middlesox.Examples.Data.{one, backend}

abbrev spawned : Actor MockBackend
spawned = record {
  name = "mock";
  adapter = record Mock.new { subscriptions = "layout_hint" ∷ []; tick = true };
  live = true;
  events = [];
  replies = [];
}

run-MockIsValid_example :
    IsValid
      (run (adapter none) (receive (some (set "workspace" one 3)) ∷ next true ∷ []) spawned).adapter
unfolding spawn Mock.subscribe
run-MockIsValid_example =
    run-MockIsValid none ("layout_hint" ∷ [])
      (receive (some (set "workspace" one 3)) ∷ next true ∷ []) {s = spawned} refl

next_event-ready_example :
    (e : RawEvent) × (b : MockBackend) × (Mock.next_event none backend ≡ some (ok (some e), b))
unfolding contains
next_event-ready_example = next_event-ready none backend refl refl (omega arith) (inl refl)
