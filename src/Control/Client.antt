-- ===== src/Control/Client.antt =====
-- middlesox/src/control.rs: the client's side of the control socket. serde_json between a text and a
-- JSON value is the record `JsonText`, the connection to the daemon the record `Link`.
use middlesox.Prelude.{
  String, Bool, Option, none, some, Result, ok, err, ◌>>=◌, ◌<>◌, if◌then◌else◌,
}
use middlesox.Json.{Value}
use middlesox.Control.{ControlRequest, ControlResponse}
use middlesox.Control.Wire.{encode_request, decode_response}

pub record JsonText : Type 0 where
  pub print : Value → String
  pub read : String → Result Value

-- `exists` is `path.exists()`. A `none` has not come within the time limit; `exchange` is what is read
-- after a line was written, or the error of either.
pub record Link : Type 0 where
  pub exists : String → Bool
  pub connect : String → Option (Result (Unit {0}))
  pub exchange : String → Option (Result String)

abbrev pub within : Option (Result ControlResponse) → Result ControlResponse
within none = err "Daemon did not respond within 30s"
within (some r) = r

abbrev in_context : String → Result (Unit {0}) → Result (Unit {0})
in_context message (ok u) = ok u
in_context message (err e) = err message

abbrev connected : String → Option (Result (Unit {0})) → Option (Result (Unit {0}))
connected path none = none
connected path (some r) = some (in_context ("Failed to connect to daemon at " <> path) r)

unfoldable pub connect_to : Link → String → Option (Result (Unit {0}))
connect_to l path =
    if l.exists path
    then connected path (l.connect path)
    else some (err ("Daemon is not running (socket not found: " <> path <> ")"))

abbrev pub parsed : Result ControlResponse → Result ControlResponse
parsed (ok r) = ok r
parsed (err e) = err "Invalid response from daemon"

module _ (j : JsonText) where
  abbrev pub received : Option (Result String) → Option (Result ControlResponse)
  received none = none
  received (some r) = some (r >>= λ line. parsed (j.read line >>= decode_response))

  abbrev pub exchanged :
      Link → ControlRequest → Option (Result (Unit {0})) → Option (Result ControlResponse)
  exchanged l request none = none
  exchanged l request (some (err e)) = some (err e)
  exchanged l request (some (ok u)) =
      received (l.exchange (j.print (encode_request request) <> "\n"))

  unfoldable pub send_request_to : Link → String → ControlRequest → Result ControlResponse
  unfolding connect_to
  send_request_to l path request = within (exchanged l request (connect_to l path))
