-- ===== src/Examples/Sockets.antt =====
-- Tests of the adapter for a bridge process, and its theorems at concrete inputs.
use middlesox.Prelude.{
  ℕ, suc, String, Option, map, length, trim, ◌++◌, none, some, List, [], ◌∷◌, ok, err, ◌≡◌, refl,
}
use middlesox.Json.{string}
use middlesox.Capability.{is_writable, read_only_cap, read_write_cap, with_description}
use middlesox.Manifest
use middlesox.Manifest.{add, find_cap}
use middlesox.Socket.Task.{closed, raw_event}
use middlesox.Socket.Stream.{
  events_of, as_read, given, next_events, read_all, next_events-subscribe,
}
use middlesox.Socket.Capabilities.{CapabilityInfo, manifest_of, capability_of, lower_is}
use middlesox.Socket.{
  Bridge, SocketAdapter, get, new, from_base_path, accept, send, init, subscribe, read_buffered,
}
use middlesox.Socket.Answers.{IsGranted, manifest_of-writable}

-- A bridge that answers every request with the id that it holds.
abbrev bridge : Bridge ℕ
bridge = record {
  exchange = λ path request id. (ok "tile", id);
  open_events = λ path request id. (ok "yes\nearly\n", id);
  to_response = λ text. some (record { id = 4; result = some (string text); error = none });
  to_caps = λ v. none;
  to_event = λ text. none;
}

abbrev adapter : SocketAdapter ℕ
adapter = record {
  cmd_socket = "/run/msx.sock";
  event_socket = "/run/msx-events.sock";
  next_id = 4;
  cached_caps = some Manifest.new;
  event_rx = none;
  world = 0;
}

base_path : (from_base_path {W = ℕ} "/run/msx" 0).event_socket ≡ "/run/msx-events.sock"
unfolding from_base_path new
base_path = refl

value_is_answered : (get bridge "layout" adapter).0 ≡ ok (string "tile")
unfolding get init send accept
value_is_answered = refl

other_id_is_refused :
    accept 5 (record { id = 4; result = none; error = none })
    ≡ err "Response ID mismatch: expected 5, got 4"
unfolding accept
other_id_is_refused = refl

abbrev listed : List CapabilityInfo
listed =
    record { name = "title"; access = "ro"; description = none }
    ∷ record { name = "layout"; access = "RW"; description = some "Layout" }
    ∷ []

manifest_of-writable_example : IsGranted listed "layout"
unfolding manifest_of capability_of add Manifest.new find_cap is_writable lower_is read_only_cap
    read_write_cap with_description
manifest_of-writable_example = manifest_of-writable listed "layout" refl

-- A bridge that accepts the subscription, with an event in the same chunk, and then writes one event, a
-- blank line and one more event.
abbrev streaming : Bridge ℕ
streaming = record bridge {
  to_event = λ text. some (record { event = text; prev = none; curr = none });
}

abbrev lines : List (Option ℕ × String)
lines = (some 1, "focus_change\n") ∷ (some 2, "  \n") ∷ (some 3, "title_change") ∷ []

two_events : length (events_of streaming.to_event lines) ≡ 2
unfolding trim raw_event
two_events = refl

early_is_dropped : read_buffered "yes\nearly\n" ≡ ("yes", "early\n")
unfolding read_buffered
early_is_dropped = refl

next_events-subscribe_example :
    ((subscribe streaming ("focus_change" ∷ []) adapter).0 ≡ ok tt)
    × (next_events (suc (length (events_of streaming.to_event lines))) (
          read_all streaming
            (map as_read lines ++ (closed ∷ []))
            (subscribe streaming ("focus_change" ∷ []) adapter).1)
        ≡ map given (events_of streaming.to_event lines) ++ (ok none ∷ []))
next_events-subscribe_example =
    next_events-subscribe streaming ("focus_change" ∷ []) "yes\nearly\n" 0 lines adapter refl refl
