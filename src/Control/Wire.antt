-- ===== src/Control/Wire.antt =====
-- The JSON of requests and responses, as the serde attributes of middlesox/src/control.rs lay it
-- out: a request carries its variant's name under "method", and an absent field of a response is
-- left out.
use middlesox.Prelude.{
  ◌≡◌, refl, String, Option, none, some, List, [], ◌∷◌, ◌++◌, ◌==◌, ◌<>◌, if◌then◌else◌, arith,
  Result, ok, err, ◌>>=◌, ok_or, lookup,
}
use middlesox.Json.{
  Value, null, bool, string, json_object, to_fields, insert_field, as_str, as_bool, as_object,
}
use middlesox.Control.{
  ControlRequest, get, set, exec, caps, commands, status, stop, ControlResponse,
}

tagged : String → List (String × Value) → Value
tagged method params = json_object (("method", string method) ∷ params)

unfoldable pub encode_request : ControlRequest → Value
unfolding tagged
encode_request (get key) = tagged "get" (("key", string key) ∷ [])
encode_request (set key value) = tagged "set" (("key", string key) ∷ ("value", value) ∷ [])
encode_request (exec name) = tagged "exec" (("name", string name) ∷ [])
encode_request caps = tagged "caps" []
encode_request commands = tagged "commands" []
encode_request status = tagged "status" []
encode_request stop = tagged "stop" []

abbrev text_field : String → List (String × Value) → Result String
text_field name fs = do
  v ← ok_or (lookup name fs) ("missing field `" <> name <> "`")
  ok_or (as_str v) "invalid type"

decode_variant : String → List (String × Value) → Result ControlRequest
decode_variant method fs =
    if method == "get"
    then (do key ← text_field "key" fs; ok (get key))
    else if method == "set"
    then (do
      key ← text_field "key" fs
      v ← ok_or (lookup "value" fs) "missing field `value`"
      ok (set key v))
    else if method == "exec"
    then (do name ← text_field "name" fs; ok (exec name))
    else if method == "caps"
    then ok caps
    else if method == "commands"
    then ok commands
    else if method == "status"
    then ok status
    else if method == "stop"
    then ok stop
    else err ("unknown variant `" <> method <> "`")

pub decode_request : Value → Result ControlRequest
unfolding decode_variant
decode_request v = do
  fs ← ok_or (as_object v) "invalid type"
  method ← text_field "method" fs
  decode_variant method fs

-- Every request that a client writes is read back by the daemon as the same request.
pub decode_request-encode_request : (r : ControlRequest) → decode_request (encode_request r) ≡ ok r
unfolding decode_request encode_request lookup to_fields insert_field
decode_request-encode_request (get key) = refl
decode_request-encode_request (set key value) = refl
decode_request-encode_request (exec name) = refl
decode_request-encode_request caps = refl
decode_request-encode_request commands = refl
decode_request-encode_request status = refl
decode_request-encode_request stop = refl

-- `skip_serializing_if = "Option::is_none"`
abbrev optional : String → Option Value → List (String × Value)
optional name none = []
optional name (some v) = (name, v) ∷ []

abbrev text_value : Option String → Option Value
text_value none = none
text_value (some s) = some (string s)

unfoldable pub encode_response : ControlResponse → Value
encode_response r = json_object (
    ("success", bool r.success)
    ∷ (optional "result" r.result ++ optional "error" (text_value r.error)))

-- An `Option` field reads null as `None`.
abbrev pub value_field : Option Value → Option Value
value_field (some null) = none
value_field found = found

abbrev error_field : Option Value → Result (Option String)
error_field none = ok none
error_field (some null) = ok none
error_field (some (string s)) = ok (some s)
error_field (some other) = err "invalid type"

pub decode_response : Value → Result ControlResponse
decode_response v = do
  fs ← ok_or (as_object v) "invalid type"
  flag ← ok_or (lookup "success" fs) "missing field `success`"
  success ← ok_or (as_bool flag) "invalid type"
  error ← error_field (lookup "error" fs)
  ok (record { success = success; result = value_field (lookup "result" fs); error = error })

-- A response is read back as it was written, but for a result that is null, which is read as no
-- result at all.
pub decode_response-encode_response :
    (r : ControlResponse)
    → decode_response (encode_response r) ≡ ok (record r { result = value_field r.result })
unfolding decode_response encode_response lookup to_fields insert_field
decode_response-encode_response r = ground arith
