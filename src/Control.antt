-- ===== src/Control.antt =====
-- middlesox/src/control.rs: the requests and responses of the control socket.
pub mod Wire
pub mod Lock
pub mod Client
pub mod Files
use middlesox.Prelude.{String, Bool, true, false, Option, none, some}
use middlesox.Json.{Value}

pub data ControlRequest : Type 0 where
  get : (key : String) → ControlRequest
  set : (key : String) (value : Value) → ControlRequest
  exec : (name : String) → ControlRequest
  caps commands status stop : ControlRequest

pub record ControlResponse : Type 0 where
  pub success : Bool
  pub result : Option Value
  pub error : Option String

unfoldable pub respond_ok : Value → ControlResponse
respond_ok v = record { success = true; result = some v; error = none }

unfoldable pub respond_empty : ControlResponse
respond_empty = record { success = true; result = none; error = none }

unfoldable pub respond_err : String → ControlResponse
respond_err message = record { success = false; result = none; error = some message }
