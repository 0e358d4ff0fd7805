-- ===== src/Adapter.antt =====
-- middlesox/src/adapter.rs: the trait `ProtocolAdapter` as a record of operations over the state of
-- the adapter. An `async` method that has no answer yet is `none`.
use middlesox.Prelude.{String, Option, List, Result}
use middlesox.Json.{Value}
use middlesox.Manifest.{CapabilityManifest}
use middlesox.Event.{RawEvent}

pub record ProtocolAdapter (S : Type 0) : Type 0 where
  pub name : S → String
  pub manifest : S → CapabilityManifest
  pub subscribe : List String → S → Result (Unit {0}) × S
  pub next_event : S → Option (Result (Option RawEvent) × S)
  pub get : String → S → Result Value × S
  pub set : String → Value → S → Result (Unit {0}) × S
  pub init : S → Result (Unit {0}) × S
  pub shutdown : S → Result (Unit {0}) × S
