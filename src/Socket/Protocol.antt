-- ===== src/Socket/Protocol.antt =====
-- socket/src/protocol.rs: the requests to a bridge, its responses and its events.
use middlesox.Prelude.{ℕ, String, Option, List, [], ◌∷◌, map}
use middlesox.Json.{Value, null, string, array, json_object, to_items}

pub record Request : Type 0 where
  pub id : ℕ
  pub method : String
  pub params : Value

unfoldable pub get_request : ℕ → String → Request
get_request id key = record {
  id = id;
  method = "get";
  params = json_object (("key", string key) ∷ []);
}

unfoldable pub set_request : ℕ → String → Value → Request
set_request id key v = record {
  id = id;
  method = "set";
  params = json_object (("key", string key) ∷ ("value", v) ∷ []);
}

unfoldable pub caps_request : ℕ → Request
caps_request id = record { id = id; method = "caps"; params = null }

unfoldable pub subscribe_request : ℕ → List String → Request
subscribe_request id events = record {
  id = id;
  method = "subscribe";
  params = json_object (("events", array (to_items (map (λ e. string e) events))) ∷ []);
}

pub record Response : Type 0 where
  pub id : ℕ
  pub result : Option Value
  pub error : Option String

pub record Event : Type 0 where
  pub event : String
  pub prev : Option Value
  pub curr : Option Value
