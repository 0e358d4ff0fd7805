-- ===== src/Handle.antt =====
-- middlesox/src/adapter_handle.rs: the actor task that owns the adapter, and the handle that sends
-- it commands. One `Input` is one round of the `select!` loop: the branch that tokio chose. Replies
-- are kept with the number of the channel that they are sent on.
pub mod Shutdown
pub mod Replies
pub mod Calls
pub mod Invariant
use middlesox.Prelude.{
  ℕ, String, Bool, true, false, Option, none, some, List, [], ◌∷◌, ◌++◌, Result, ok, err,
  if◌then◌else◌,
}
use middlesox.Json.{Value}
use middlesox.Manifest.{CapabilityManifest}
use middlesox.Event.{RawEvent}
use middlesox.Adapter.{ProtocolAdapter}

pub data AdapterCommand : Type 0 where
  get : (key : String) (reply : ℕ) → AdapterCommand
  set : (key : String) (value : Value) (reply : ℕ) → AdapterCommand
  manifest : (reply : ℕ) → AdapterCommand
  shutdown : (reply : ℕ) → AdapterCommand

pub data Reply : Type 0 where
  value : Result Value → Reply
  done : Result (Unit {0}) → Reply
  caps : CapabilityManifest → Reply

-- `next receiving` polls `next_event`; `receiving` says whether the event receiver still stands.
-- `receive none` is a command channel that has no sender left.
pub data Input : Type 0 where
  next : (receiving : Bool) → Input
  receive : Option AdapterCommand → Input

pub record Actor (S : Type 0) : Type 0 where
  pub name : String
  pub adapter : S
  pub live : Bool
  pub events : List RawEvent
  pub replies : List (ℕ × Reply)

abbrev pub closed : String
closed = "Adapter task closed"

abbrev pub dropped : String
dropped = "Adapter task dropped reply"

module _ {S : Type 0} (a : ProtocolAdapter S) where
  -- The end of the loop, where `adapter.shutdown()` is still to be called.
  exit : Actor S → Actor S
  exit s = record s { adapter = (a.shutdown s.adapter).1; live = false }

  abbrev answer : ℕ → Reply → S → Actor S → Actor S
  answer id r s' s = record s { adapter = s'; replies = s.replies ++ (id, r) ∷ [] }

  -- The `match` on the result of `next_event`.
  forward : Bool → Option (Result (Option RawEvent) × S) → Actor S → Actor S
  unfolding exit
  forward receiving none s = s
  forward true (some (ok (some event), s')) s = record s {
    adapter = s';
    events = s.events ++ event ∷ [];
  }
  forward false (some (ok (some event), s')) s = exit (record s { adapter = s' })
  forward receiving (some (ok none, s')) s = exit (record s { adapter = s' })
  forward receiving (some (err e, s')) s = exit (record s { adapter = s' })

  -- The `match` on the command; `shutdown` leaves the loop with `shutdown_done`.
  serve : Option AdapterCommand → Actor S → Actor S
  unfolding exit
  serve none s = exit s
  serve (some (get key id)) s = let (r, s') = a.get key s.adapter in answer id (value r) s' s
  serve (some (set key v id)) s = let (r, s') = a.set key v s.adapter in answer id (done r) s' s
  serve (some (manifest id)) s = answer id (caps (a.manifest s.adapter)) s.adapter s
  serve (some (shutdown id)) s =
      let (r, s') = a.shutdown s.adapter in record (answer id (done r) s' s) { live = false }

  unfoldable pub step : Input → Actor S → Actor S
  unfolding forward serve
  step (next receiving) s = if s.live then forward receiving (a.next_event s.adapter) s else s
  step (receive c) s = if s.live then serve c s else s

  unfoldable pub run : List Input → Actor S → Actor S
  run [] s = s
  run (i ∷ is) s = run is (step i s)

  abbrev started : String → S → Actor S
  started name s = record { name = name; adapter = s; live = true; events = []; replies = [] }

  abbrev and_then : Result (Unit {0}) × S → (S → Result (Actor S)) → Result (Actor S)
  and_then (ok u, s) k = k s
  and_then (err e, s) k = err e

  -- `AdapterHandle::spawn`, up to the start of the task; the handle keeps the name.
  unfoldable pub spawn : List String → S → Result (Actor S)
  spawn subscriptions s =
      and_then (a.init s)
        (λ s'. and_then (a.subscribe subscriptions s') (λ s''. ok (started (a.name s') s'')))

  -- The methods of the handle. `before` is what the actor does between the sending of the command
  -- and its turn: the command is lost if the actor has left its loop by then.
  unfoldable pub call_get : List Input → String → Actor S → Result Value × Actor S
  call_get before key s =
      if s.live
      then (let s' = run before s in
          if s'.live
          then ((a.get key s'.adapter).0, step (receive (some (get key 0))) s')
          else (err dropped, s'))
      else (err closed, s)

  unfoldable pub call_set : List Input → String → Value → Actor S → Result (Unit {0}) × Actor S
  call_set before key v s =
      if s.live
      then (let s' = run before s in
          if s'.live
          then ((a.set key v s'.adapter).0, step (receive (some (set key v 0))) s')
          else (err dropped, s'))
      else (err closed, s)

  unfoldable pub call_manifest : List Input → Actor S → Result CapabilityManifest × Actor S
  call_manifest before s =
      if s.live
      then (let s' = run before s in
          if s'.live
          then (ok (a.manifest s'.adapter), step (receive (some (manifest 0))) s')
          else (err dropped, s'))
      else (err closed, s)

  -- A closed channel and a dropped reply are both taken for success.
  unfoldable pub call_shutdown : List Input → Actor S → Result (Unit {0}) × Actor S
  call_shutdown before s =
      if s.live
      then (let s' = run before s in
          if s'.live
          then ((a.shutdown s'.adapter).0, step (receive (some (shutdown 0))) s')
          else (ok tt, s'))
      else (ok tt, s)
