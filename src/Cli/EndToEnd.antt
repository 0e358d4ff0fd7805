-- ===== src/Cli/EndToEnd.antt =====
-- middlesox-cli/src/main.rs with middlesox/src/control.rs and controller.rs: a client and the daemon.
use middlesox.Prelude.{
  String, Bool, true, false, Option, none, some, List, [], Result, ok, err, ◌>>=◌, ◌<>◌, ◌≡◌, ◌↔◌,
  ◌⊎◌, inl, inr, refl, sym, ◌∙◌, if◌then◌else◌, trim, arith, Bool-cases,
}
use middlesox.Json.{Value}
use middlesox.Config.{Config, default_config}
use middlesox.Control.{ControlRequest, ControlResponse}
use middlesox.Control.Wire.{
  encode_request, decode_request, encode_response, decode_request-encode_request,
  decode_response-encode_response, value_field,
}
use middlesox.Control.Client.{JsonText, Link, connect_to, send_request_to}
use middlesox.Adapter.{ProtocolAdapter}
use middlesox.Handle.{Actor, Input}
use middlesox.Scripts.{Host}
use middlesox.Controller.{handle_control}
use middlesox.Daemon.{handle_control_client}
use middlesox.Cli.Commands.{
  Command, status, Shell, Run, main, answered, loaded, with_config, asked, not_running, handled,
  handle_response, request_of, on_success,
}

-- How a command ends well with a configuration: `status` finds no daemon, or the daemon answers with success.
abbrev pub EndsWell : Shell → Command → Type 0
EndsWell sh c =
    ((c ≡ status) × (sh.daemon_running ≡ false))
    ⊎ ((r : ControlResponse) × (sh.send_request (request_of sh.readers c) ≡ ok r)
        × (r.success ≡ true))

handled_ok :
    (f : Value → List String) (m : Result ControlResponse)
    → (handled f m).result ≡ ok tt
    → (r : ControlResponse) × (m ≡ ok r) × (r.success ≡ true)
unfolding handle_response
handled_ok f (err e) h = cc
handled_ok f (ok r) h = (r, refl, ground arith)

handled_of_success :
    (f : Value → List String) (m : Result ControlResponse) (r : ControlResponse)
    → m ≡ ok r
    → r.success ≡ true
    → (handled f m).result ≡ ok tt
unfolding handle_response
handled_of_success f m r e h = rw (e, h) refl

handled_lines :
    (f : Value → List String) (m : Result ControlResponse)
    → ((handled f m).result ≡ ok tt) ⊎ ((handled f m).lines ≡ [])
unfolding handle_response
handled_lines f (err e) = inr refl
handled_lines f (ok r) = elim (Bool-cases r.success) [
  | inl good ↦ inl (rw good refl)
  | inr bad ↦ inr (rw bad refl)
]

asked_iff :
    (sh : Shell) (c : Command)
    → ((asked sh c).result ≡ ok tt) ↔ (
        (r : ControlResponse) × (sh.send_request (request_of sh.readers c) ≡ ok r)
        × (r.success ≡ true))
asked_iff sh c = (
  handled_ok (on_success sh c) (sh.send_request (request_of sh.readers c)),
  λ (r, e, h).
      handled_of_success (on_success sh c) (sh.send_request (request_of sh.readers c)) r e h,
)

asked-EndsWell :
    (sh : Shell) (c : Command)
    → (c ≡ status → sh.daemon_running ≡ true)
    → (((asked sh c).result ≡ ok tt) ↔ EndsWell sh c)
      × (((asked sh c).result ≡ ok tt) ⊎ ((asked sh c).lines ≡ []))
asked-EndsWell sh c there = (
  (
    λ h. inr ((asked_iff sh c).0 h),
    λ w. elim w [ inl (s, off) ↦ cc (there s) | inr answered ↦ (asked_iff sh c).1 answered ],
  ),
  handled_lines (on_success sh c) (sh.send_request (request_of sh.readers c)),
)

abbrev Agrees : Shell → Command → Run → Type 0
Agrees sh c r = ((r.result ≡ ok tt) ↔ EndsWell sh c) × ((r.result ≡ ok tt) ⊎ (r.lines ≡ []))

status-EndsWell :
    (sh : Shell) (b : Bool)
    → sh.daemon_running ≡ b
    → Agrees sh status (if b then asked sh status else not_running)
status-EndsWell sh true on = asked-EndsWell sh status (λ s. on)
status-EndsWell sh false off = ((λ h. inl (refl, off), λ w. refl), inl refl)

answered-EndsWell : (sh : Shell) (c : Command) → Agrees sh c (answered sh c)
answered-EndsWell sh status = status-EndsWell sh sh.daemon_running refl
answered-EndsWell sh c = asked-EndsWell sh c (λ s. cc)

-- There is no configuration file, or `Config::load` gives a configuration for it.
abbrev pub IsConfigured : Shell → Type 0
IsConfigured sh =
    (sh.config_path ≡ none)
    ⊎ ((path : String) × (config : Config) × (sh.config_path ≡ some path)
        × (sh.load_config path ≡ ok config))

loaded_at :
    (sh : Shell) (path : String) → sh.config_path ≡ some path → loaded sh ≡ sh.load_config path
loaded_at sh path e = rw e refl

loaded_iff :
    (sh : Shell) (m : Option String)
    → sh.config_path ≡ m
    → ((config : Config) × (loaded sh ≡ ok config)) ↔ IsConfigured sh
loaded_iff sh none e = (λ h. inl e, λ h. (default_config sh.default_scripts_dir, rw e refl))
loaded_iff sh (some path) e = (
  λ (config, h). inr (path, config, e, sym (loaded_at sh path e) ∙ h),
  λ h. elim h [ inl n ↦ cc | inr (path', config, at, h) ↦ (config, loaded_at sh path' at ∙ h) ],
)

with_config_iff :
    (sh : Shell) (c : Command) (m : Result Config) (run : Run)
    → Agrees sh c run
    → (((with_config m run).result ≡ ok tt)
        ↔ (((config : Config) × (m ≡ ok config)) × EndsWell sh c))
      × (((with_config m run).result ≡ ok tt) ⊎ ((with_config m run).lines ≡ []))
with_config_iff sh c (err e) run (ends, prints) = ((λ h. cc, λ ((config, h), w). cc), inr refl)
with_config_iff sh c (ok config) run (ends, prints) =
    ((λ h. ((config, refl), ends.0 h), λ (there, w). ends.1 w), prints)

-- A command of a client ends well exactly when the configuration, if there is a file for it, is loaded,
-- and the daemon answers with success, or the command is `status` and no daemon runs. A command that
-- fails prints nothing on the standard output.
pub main_ok_iff :
    (sh : Shell) (c : Command)
    → (((main sh c).result ≡ ok tt) ↔ (IsConfigured sh × EndsWell sh c))
      × (((main sh c).result ≡ ok tt) ⊎ ((main sh c).lines ≡ []))
unfolding main
main_ok_iff sh c =
    let there = loaded_iff sh sh.config_path refl in
    let (ends, prints) =
      with_config_iff sh c (loaded sh) (answered sh c) (answered-EndsWell sh c) in
    ((λ h. let (l, w) = ends.0 h in (there.0 l, w), λ (l, w). ends.1 (there.1 l, w)), prints)

module _ {S : Type 0} (a : ProtocolAdapter S) (host : Host S) (c : Config) (dir : String)
    (j : JsonText) (before between : List Input) (sender : Bool) (s : Actor S) where
  -- The line that the daemon answers: an empty one where the connection is closed without an answer.
  abbrev pub response_line : Option ControlResponse → String
  response_line none = ""
  response_line (some r) = j.print (encode_response r) <> "\n"

  abbrev pub answer_line : String → String
  answer_line line =
      response_line
        (handle_control_client a host c dir before between (j.read (trim line) >>= decode_request)
          (ok tt) sender s).response

  -- The daemon listens at the path and answers each line.
  pub record Serves (l : Link) (path : String) : Type 0 where
    pub there : l.exists path ≡ true
    pub accepts : l.connect path ≡ some (ok tt)
    pub answers : (line : String) → l.exchange line ≡ some (ok (answer_line line))

  abbrev pub response_to : ControlRequest → ControlResponse
  response_to request = (handle_control a host c dir before between request s).0

  answer_line-request :
      (request : ControlRequest)
      → j.read (trim (j.print (encode_request request) <> "\n")) ≡ ok (encode_request request)
      → answer_line (j.print (encode_request request) <> "\n")
        ≡ j.print (encode_response (response_to request)) <> "\n"
  unfolding handle_control_client
  answer_line-request request h = rw (h, decode_request-encode_request request) refl

  -- A client receives what the controller answers to its request, except that a result that is null
  -- comes as none, if the JSON of the request and of the response is read as it was printed.
  pub send_request-eq-handle_control :
      (l : Link) (path : String) (request : ControlRequest)
      → Serves l path
      → j.read (trim (j.print (encode_request request) <> "\n")) ≡ ok (encode_request request)
      → j.read (j.print (encode_response (response_to request)) <> "\n")
        ≡ ok (encode_response (response_to request))
      → send_request_to j l path request
        ≡ ok (record (response_to request) { result = value_field (response_to request).result })
  unfolding send_request_to connect_to
  send_request-eq-handle_control l path request serves asks answers =
      rw
        (
          serves.there,
          serves.accepts,
          serves.answers,
          answer_line-request request asks,
          answers,
          decode_response-encode_response (response_to request),
        )
        refl
