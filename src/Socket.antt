-- ===== src/Socket.antt =====
-- socket/src/protocol.rs and socket/src/lib.rs: the requests to a bridge process, its responses, and
-- the adapter that asks it. The bridge is the argument `Bridge`: the line that it answers, connection
-- errors and the time limit included, and what serde_json reads from a line.
pub mod Protocol
pub mod Task
pub mod Capabilities
pub mod Answers
pub mod Stream
use Prim.Native.Char.{Char, code}
use middlesox.Prelude.{
  ℕ, ◌+◌, ◌%◌, ◌^◌, String, Bool, true, false, ◌&&◌, ◌||◌, Option, none, some, List, [], ◌∷◌, map,
  Result, ok, err, ◌>>=◌, ok_or, ◌<>◌, ◌==◌, if◌then◌else◌, nat_eq, leb, trim, show_nat, split_once,
}
use middlesox.Json.{Value, null, string, array, json_object, to_items, as_object}
use middlesox.Capability.{Capability, read_only_cap, read_write_cap, with_description}
use middlesox.Adapter.{ProtocolAdapter}
use middlesox.Socket.Protocol.{
  Request, Response, Event, get_request, set_request, caps_request, subscribe_request,
}
use middlesox.Socket.Capabilities.{CapabilityInfo, manifest_of}
use middlesox.Socket.Task.{Reader, Read, start_reader, on_read}
use middlesox.Manifest
use middlesox.Manifest.{CapabilityManifest, add}
use middlesox.Event.{RawEvent}

-- `exchange` is one connection to the socket at a path: a request, and the line that is read.
-- `open_events` is the connection for events: the request, and all that has been read once it holds a
-- line or the stream has ended, which may be more than that line.
pub record Bridge (W : Type 0) : Type 0 where
  pub exchange : String → Request → W → Result String × W
  pub open_events : String → Request → W → Result String × W
  pub to_response : String → Option Response
  pub to_caps : Value → Option (List CapabilityInfo)
  pub to_event : String → Option Event

-- The adapter with the world of the bridge. `event_rx` is the task behind the receiver of events.
pub record SocketAdapter (W : Type 0) : Type 0 where
  pub cmd_socket : String
  pub event_socket : String
  pub next_id : ℕ
  pub cached_caps : Option CapabilityManifest
  pub event_rx : Option Reader
  pub world : W

unfoldable pub new : {W : Type 0} → String → String → W → SocketAdapter W
new cmd_socket event_socket world = record {
  cmd_socket = cmd_socket;
  event_socket = event_socket;
  next_id = 1;
  cached_caps = none;
  event_rx = none;
  world = world;
}

unfoldable pub from_base_path : {W : Type 0} → String → W → SocketAdapter W
unfolding new
from_base_path base world = new (base <> ".sock") (base <> "-events.sock") world

abbrev pub or_null : Option Value → Value
or_null none = null
or_null (some v) = v

abbrev pub outcome : Option String → Option Value → Result Value
outcome (some e) result = err ("Bridge error: " <> e)
outcome none result = ok (or_null result)

-- What a response means for the request with this id.
unfoldable pub accept : ℕ → Response → Result Value
unfolding show_nat
accept id r =
    if nat_eq r.id id
    then outcome r.error r.result
    else err ("Response ID mismatch: expected " <> show_nat id <> ", got " <> show_nat r.id)

module _ {W : Type 0} (c : Bridge W) where
  abbrev pub read_line : ℕ → Result String → Result Value
  read_line id line = do
    text ← line
    r ← ok_or (c.to_response text) ("Invalid response: " <> trim text)
    accept id r

  abbrev answered : ℕ → SocketAdapter W → Result String × W → Result Value × SocketAdapter W
  answered id s (line, w) = (read_line id line, record s { world = w })

  unfoldable pub send : Request → SocketAdapter W → Result Value × SocketAdapter W
  unfolding accept trim
  send request s = answered request.id s (c.exchange s.cmd_socket request s.world)

  -- `next_id`, whose counter wraps where overflow is not checked: the id, and the adapter after it.
  abbrev pub counted : SocketAdapter W → SocketAdapter W
  counted s = record s { next_id = (s.next_id + 1) % 2 ^ 64 }

  abbrev to_manifest : Result Value × SocketAdapter W → Result CapabilityManifest × SocketAdapter W
  to_manifest (r, s) = (
    (r >>= λ v.
        ok_or (c.to_caps v) "Invalid capabilities response" >>= λ infos. ok (manifest_of infos)),
    s,
  )

  unfoldable pub fetch_capabilities : SocketAdapter W → Result CapabilityManifest × SocketAdapter W
  unfolding send caps_request manifest_of
  fetch_capabilities s = to_manifest (send (caps_request s.next_id) (counted s))

  abbrev cache : Result CapabilityManifest × SocketAdapter W → Result (Unit {0}) × SocketAdapter W
  cache (err e, s) = (err e, s)
  cache (ok m, s) = (ok tt, record s { cached_caps = some m })

  abbrev pub when_missing :
      Option CapabilityManifest → SocketAdapter W → Result (Unit {0}) × SocketAdapter W
  when_missing none s = cache (fetch_capabilities s)
  when_missing (some m) s = (ok tt, s)

  -- The capabilities are fetched once.
  unfoldable pub init : SocketAdapter W → Result (Unit {0}) × SocketAdapter W
  unfolding fetch_capabilities
  init s = when_missing s.cached_caps s

  abbrev pub and_send :
      (ℕ → Request) → Result (Unit {0}) × SocketAdapter W → Result Value × SocketAdapter W
  and_send request (err e, s) = (err e, s)
  and_send request (ok u, s) = send (request s.next_id) (counted s)

  unfoldable pub get : String → SocketAdapter W → Result Value × SocketAdapter W
  unfolding init send get_request
  get key s = and_send (λ id. get_request id key) (init s)

  abbrev without_value : Result Value × SocketAdapter W → Result (Unit {0}) × SocketAdapter W
  without_value (r, s) = (r >>= λ v. ok tt, s)

  unfoldable pub set : String → Value → SocketAdapter W → Result (Unit {0}) × SocketAdapter W
  unfolding init send set_request
  set key v s = without_value (and_send (λ id. set_request id key v) (init s))

-- The acknowledgement of a subscription, whose id is not looked at.
abbrev pub acknowledged : Option Response → Result (Unit {0})
acknowledged none = err "Invalid subscribe response from bridge"
acknowledged (some r) = elim r.error [
  | none ↦ ok tt
  | some e ↦ err ("Bridge rejected subscription: " <> e)
]

abbrev cached : Option CapabilityManifest → CapabilityManifest
cached none = Manifest.new
cached (some m) = m

unfoldable pub manifest : {W : Type 0} → SocketAdapter W → CapabilityManifest
unfolding Manifest.new
manifest s = cached s.cached_caps

-- `read_line` over what was read: the line, and what is left in the buffer of the `BufReader`.
abbrev pub cut : Option (String × String) → String → String × String
cut none text = (text, "")
cut (some (line, rest)) text = (line, rest)

unfoldable pub read_buffered : String → String × String
unfolding split_once
read_buffered text = cut (split_once b'\n' text) text

module _ {W : Type 0} (c : Bridge W) where
  -- The first line is the acknowledgement. With it goes what the buffer still holds.
  abbrev pub handshake : Result String → Result String
  handshake read = do
    text ← read
    let (line, buffer) = read_buffered text
    u ← acknowledged (c.to_response (trim line))
    ok buffer

  -- `into_inner` drops the buffer: the task reads what comes after it.
  abbrev pub with_reader : W → SocketAdapter W → Result String → Result (Unit {0}) × SocketAdapter W
  with_reader w s (err e) = (err e, record s { world = w })
  with_reader w s (ok buffer) = (ok tt, record s { event_rx = some start_reader; world = w })

  abbrev pub subscribed : SocketAdapter W → Result String × W → Result (Unit {0}) × SocketAdapter W
  subscribed s (read, w) = with_reader w s (handshake read)

  unfoldable pub subscribe : List String → SocketAdapter W → Result (Unit {0}) × SocketAdapter W
  unfolding trim start_reader subscribe_request read_buffered
  subscribe events s =
      subscribed s (c.open_events s.event_socket (subscribe_request 0 events) s.world)

  abbrev pub task_reads : Read → Option Reader → Option Reader
  task_reads x none = none
  task_reads x (some r) = some (on_read c.to_event x r)

  -- The task reads on by itself between the calls.
  unfoldable pub read_socket : Read → SocketAdapter W → SocketAdapter W
  unfolding on_read
  read_socket x s = record s { event_rx = task_reads x s.event_rx }

module _ {W : Type 0} where
  abbrev pub received :
      Reader → List RawEvent → SocketAdapter W → Option (Result (Option RawEvent) × SocketAdapter W)
  received r [] s = if r.running then none else some (ok none, s)
  received r (e ∷ es) s = some (ok (some e), record s { event_rx = some (record r { sent = es }) })

  abbrev pub receive_from :
      Option Reader → SocketAdapter W → Option (Result (Option RawEvent) × SocketAdapter W)
  receive_from none s = some (err "subscribe() must be called before next_event()", s)
  receive_from (some r) s = received r r.sent s

  unfoldable pub next_event : SocketAdapter W → Option (Result (Option RawEvent) × SocketAdapter W)
  next_event s = receive_from s.event_rx s

  unfoldable pub shutdown : SocketAdapter W → Result (Unit {0}) × SocketAdapter W
  shutdown s = (ok tt, record s { event_rx = none })

abbrev pub adapter : {W : Type 0} → Bridge W → ProtocolAdapter (SocketAdapter W)
adapter c = record {
  name = λ s. "socket";
  manifest = manifest;
  subscribe = subscribe c;
  next_event = next_event;
  get = get c;
  set = set c;
  init = init c;
  shutdown = shutdown;
}
