-- ===== src/Daemon.antt =====
-- middlesox/src/controller.rs: the main loop `Controller::run` and the clients of the control socket.
-- One `Signal` is one round of the `select!` loop.
pub mod Laws
pub mod Pipeline
use middlesox.Prelude.{
  ℕ, String, Bool, true, false, Option, none, some, List, [], ◌∷◌, ◌++◌, Result, ok, err,
  if◌then◌else◌,
}
use middlesox.Event.{RawEvent}
use middlesox.Config.{Config}
use middlesox.Control.{ControlRequest, ControlResponse, stop}
use middlesox.Adapter.{ProtocolAdapter}
use middlesox.Handle.{Actor, Input, call_shutdown}
use middlesox.Scripts.{Host, Launch}
use middlesox.Controller.{handle_event, handle_control}

-- The branch that `select!` takes, with what it receives. `accept` carries the number of a client.
pub data Signal : Type 0 where
  event : Option RawEvent → Signal
  accept : Result ℕ → Signal
  external_shutdown control_shutdown : Signal

-- `result` is what `run_result` holds when the loop is left.
pub record Loop : Type 0 where
  pub launched : List Launch
  pub clients : List ℕ
  pub result : Option (Result (Unit {0}))

unfoldable pub start : Loop
start = record { launched = []; clients = []; result = none }

abbrev pub left : Loop → Bool
left l = elim l.result [ none ↦ false | some r ↦ true ]

-- After the loop: the adapter is shut down, and its error is reported if there is no other.
unfoldable pub combine : Result (Unit {0}) → Result (Unit {0}) → Result (Unit {0})
combine run_result (ok u) = run_result
combine (ok u) (err e) = err e
combine (err first) (err e) = err first

abbrev pub is_stop : ControlRequest → Bool
is_stop ControlRequest.stop = true
is_stop r = false

pub record Served (S : Type 0) : Type 0 where
  pub response : Option ControlResponse
  pub sender_left : Bool
  pub stop_sent : Bool
  pub actor : Actor S

module _ {S : Type 0} (a : ProtocolAdapter S) (host : Host S) (c : Config) (dir : String) where
  unfoldable pub on_signal : Signal → Loop → Loop
  on_signal (event (some e)) l = record l { launched = l.launched ++ handle_event a host c dir e }
  on_signal (event none) l = record l {
    result = some (err "adapter event stream ended unexpectedly");
  }
  on_signal (accept (ok client)) l = record l { clients = l.clients ++ client ∷ [] }
  on_signal (accept (err e)) l = record l { result = some (err e) }
  on_signal external_shutdown l = record l { result = some (ok tt) }
  on_signal control_shutdown l = record l { result = some (ok tt) }

  unfoldable pub run_loop : List Signal → Loop → Loop
  unfolding on_signal
  run_loop [] l = l
  run_loop (s ∷ ss) l = if left l then l else run_loop ss (on_signal s l)

  abbrev pub finish :
      List Input → Option (Result (Unit {0})) → Actor S → Option (Result (Unit {0})) × Actor S
  finish before none s = (none, s)
  finish before (some run_result) s =
      let (r, s') = call_shutdown a before s in (some (combine run_result r), s')

  -- `run`; it has no result as long as no signal has left the loop.
  unfoldable pub run : List Input → List Signal → Actor S → Option (Result (Unit {0})) × Actor S
  unfolding run_loop combine
  run before signals s = finish before (run_loop signals start).result s

  -- `handle_control_client`: what was read from the line, and whether the response could be
  -- written. `sender` says whether the shutdown sender is still there to be taken.
  unfoldable pub handle_control_client :
      List Input
      → List Input
      → Result ControlRequest
      → Result (Unit {0})
      → Bool
      → Actor S
      → Served S
  handle_control_client before between (err e) written sender s = record {
    response = none;
    sender_left = sender;
    stop_sent = false;
    actor = s;
  }
  handle_control_client before between (ok r) (err e) sender s =
      let (response, s') = handle_control a host c dir before between r s in
      record { response = none; sender_left = sender; stop_sent = false; actor = s' }
  handle_control_client before between (ok r) (ok u) sender s =
      let (response, s') = handle_control a host c dir before between r s in
      record {
        response = some response;
        sender_left = if is_stop r then false else sender;
        stop_sent = if is_stop r then sender else false;
        actor = s';
      }
