-- ===== src/HyprlandIpc.antt =====
-- hyprland/src/lib.rs: the sockets of Hyprland: where they are found, and the requests on the command
-- socket. The compositor is the argument `Compositor`: what it answers there, connection errors and the
-- time limit included, and what serde_json reads from an answer.
use middlesox.Prelude.{
  String, Bool, Option, none, some, List, [], ◌∷◌, find, Result, ok, err, ◌>>=◌, ok_or, ◌<>◌, ◌==◌,
  if◌then◌else◌, trim,
}
use middlesox.Json.{Value}
use middlesox.Paths.{join}
use middlesox.HyprlandEvents.Reader.{Reader}

abbrev pub value_or : {A : Type 0} → A → Option A → A
value_or a none = a
value_or a (some b) = b

abbrev candidates : Option String → String → List String
candidates none signature = join "/tmp/hypr" signature ∷ []
candidates (some runtime_dir) signature =
    join (join runtime_dir "hypr") signature ∷ join "/tmp/hypr" signature ∷ []

-- The environment variables and the files of the system are arguments.
unfoldable pub discover_socket_dir : (String → Option String) → (String → Bool) → Result String
unfolding join
discover_socket_dir var exists = do
  signature ←
      ok_or (var "HYPRLAND_INSTANCE_SIGNATURE")
        "HYPRLAND_INSTANCE_SIGNATURE is not set - is Hyprland running? (set [adapter] socket_dir to override)"
  ok_or
      (find (λ dir. exists (join dir ".socket.sock"))
        (candidates (var "XDG_RUNTIME_DIR") signature))
      ("Hyprland socket not found for instance '" <> signature
        <> "' (checked $XDG_RUNTIME_DIR/hypr and /tmp/hypr)")

-- `command` is a connection to the socket at a path: the request, and what was read until the end or
-- the error. `connect` is the connection to the event socket.
pub record Compositor (W : Type 0) : Type 0 where
  pub command : String → String → W → Result String × W
  pub from_json : String → Result Value
  pub connect : String → W → Result (Unit {0})

-- `event_rx` is the receiver with the task that sends to it.
pub record HyprlandBackend (W : Type 0) : Type 0 where
  pub socket_dir : String
  pub event_rx : Option Reader
  pub world : W

module _ {W : Type 0} (c : Compositor W) where
  abbrev asked : HyprlandBackend W → Result String × W → Result String × HyprlandBackend W
  asked b (r, w) = (r, record b { world = w })

  unfoldable pub command : String → HyprlandBackend W → Result String × HyprlandBackend W
  unfolding join
  command request b = asked b (c.command (join b.socket_dir ".socket.sock") request b.world)

  abbrev read_json : String → String → Result Value → Result Value
  read_json cmd response (ok v) = ok v
  read_json cmd response (err e) =
      err ("Invalid JSON from Hyprland for '" <> cmd <> "': " <> response)

  abbrev pub parsed : String → Result String × HyprlandBackend W → Result Value × HyprlandBackend W
  parsed cmd (err e, b) = (err e, b)
  parsed cmd (ok response, b) = (read_json cmd response (c.from_json response), b)

  unfoldable pub query : String → HyprlandBackend W → Result Value × HyprlandBackend W
  unfolding command
  query cmd b = parsed cmd (command ("j/" <> cmd) b)

  abbrev pub dispatched :
      String → Result String × HyprlandBackend W → Result (Unit {0}) × HyprlandBackend W
  dispatched args (err e, b) = (err e, b)
  dispatched args (ok response, b) = (
    (if trim response == "ok"
        then ok tt
        else err ("Hyprland dispatch '" <> args <> "' failed: " <> response)),
    b,
  )

  unfoldable pub dispatch : String → HyprlandBackend W → Result (Unit {0}) × HyprlandBackend W
  unfolding command trim
  dispatch args b = dispatched args (command ("dispatch " <> args) b)

  -- A query whose answer is read by `f`.
  abbrev pub answer :
      (Value → Result Value) → Result Value × HyprlandBackend W → Result Value × HyprlandBackend W
  answer f (r, b) = (r >>= f, b)
