-- ===== src/Engine.antt =====
-- middlesox/src/engine.rs: the functions that scripts may call, and the conversion of values. The
-- Rhai interpreter is code of another crate.
pub mod Convert
pub mod Policy
pub mod Run
pub mod Guarded
pub mod Reach
use middlesox.Prelude.{
  ℕ, ◌*◌, ◌^◌, ◌%◌, ◌≤◌, String, Bool, true, false, not, Option, none, some, List, [], ◌∷◌, Result,
  ok, err, ◌<>◌, if◌then◌else◌, leb, ltb, ℤ, pos, negsuc, i64_max, f64_ratio,
}
use middlesox.Json.{
  Number, pos_int, neg_int, float, Value, null, bool, number, string, array, object, Items, nil,
  cons, Fields, end, field, from_i64, to_fields,
}
use middlesox.Dynamic.{Dynamic, Dynamics, Entries}
use middlesox.Capability.{Capability, is_writable}
use middlesox.Manifest.{CapabilityManifest, find_cap}
use middlesox.Event.{State, RawEvent, state_or_default}
use middlesox.Adapter.{ProtocolAdapter}
use middlesox.Handle.{Actor, Input, call_get, call_set, call_manifest}

-- A number outside `i64` becomes a float, as `as_f64` rounds it.
unfoldable pub number_to_dynamic : Number → Dynamic
number_to_dynamic (pos_int n) =
    if leb n i64_max then Dynamic.int (pos n) else Dynamic.float (f64_ratio n 1)
number_to_dynamic (neg_int n) = Dynamic.int (negsuc n)
number_to_dynamic (float b) = Dynamic.float b

unfoldable mutual
  pub json_to_dynamic : Value → Dynamic
  json_to_dynamic null = Dynamic.unit
  json_to_dynamic (bool b) = Dynamic.bool b
  json_to_dynamic (number n) = number_to_dynamic n
  json_to_dynamic (string s) = Dynamic.string s
  json_to_dynamic (array vs) = Dynamic.array (items_to_dynamics vs)
  json_to_dynamic (object fs) = Dynamic.map (fields_to_entries fs)

  pub items_to_dynamics : Items → Dynamics
  items_to_dynamics nil = Dynamics.nil
  items_to_dynamics (cons v vs) = Dynamics.cons (json_to_dynamic v) (items_to_dynamics vs)

  pub fields_to_entries : Fields → Entries
  fields_to_entries end = Entries.end
  fields_to_entries (field k v fs) = Entries.entry k (json_to_dynamic v) (fields_to_entries fs)

-- `json_map_to_dynamic`: a Rhai map stands in the order of its keys.
unfoldable pub json_map_to_dynamic : State → Dynamic
unfolding json_to_dynamic
json_map_to_dynamic m = Dynamic.map (fields_to_entries (to_fields m))

-- `Number::from_f64` refuses NaN and the infinities.
abbrev pub is_finite : ℕ → Bool
is_finite b = ltb (b % 2 ^ 63) (0x7FF * 2 ^ 52)

unfoldable mutual
  pub dynamic_to_json : Dynamic → Value
  dynamic_to_json Dynamic.unit = null
  dynamic_to_json (Dynamic.bool b) = bool b
  dynamic_to_json (Dynamic.int i) = from_i64 i
  dynamic_to_json (Dynamic.float b) = if is_finite b then number (float b) else null
  dynamic_to_json (Dynamic.string s) = string s
  dynamic_to_json (Dynamic.array ds) = array (dynamics_to_items ds)
  dynamic_to_json (Dynamic.map es) = object (entries_to_fields es)
  dynamic_to_json Dynamic.other = null

  pub dynamics_to_items : Dynamics → Items
  dynamics_to_items Dynamics.nil = nil
  dynamics_to_items (Dynamics.cons d ds) = cons (dynamic_to_json d) (dynamics_to_items ds)

  pub entries_to_fields : Entries → Fields
  entries_to_fields Entries.end = end
  entries_to_fields (Entries.entry k d es) = field k (dynamic_to_json d) (entries_to_fields es)

pub record EventContext : Type 0 where
  pub event_name : String
  pub prev : State
  pub curr : State

unfoldable pub context_of : RawEvent → EventContext
context_of e = record {
  event_name = e.name;
  prev = state_or_default e.prev;
  curr = state_or_default e.curr;
}

-- The variables that `execute_sync` puts in scope.
unfoldable pub scope_of : Option EventContext → List (String × Dynamic)
unfolding json_map_to_dynamic
scope_of none = []
scope_of (some c) =
    ("event_name", Dynamic.string c.event_name)
    ∷ ("prev", json_map_to_dynamic c.prev)
    ∷ ("curr", json_map_to_dynamic c.curr)
    ∷ []

module _ {S : Type 0} (a : ProtocolAdapter S) where
  abbrev pub value_or_unit : Result Value → Dynamic
  value_or_unit (ok v) = json_to_dynamic v
  value_or_unit (err e) = Dynamic.unit

  -- `get(key)` in a script.
  unfoldable pub script_get : List Input → String → Actor S → Dynamic × Actor S
  script_get before key s = let (r, s') = call_get a before key s in (value_or_unit r, s')

  abbrev pub set_message : Result (Unit {0}) → String
  set_message (ok u) = ""
  set_message (err e) = "adapter error: " <> e

  -- `set(key, value)` in a script, once the manifest is there.
  unfoldable pub checked_set :
      List Input → String → Dynamic → Option Capability → Actor S → String × Actor S
  checked_set before key v none s = ("unknown key: " <> key, s)
  checked_set before key v (some cap) s =
      if is_writable cap
      then (let (r, s') = call_set a before key (dynamic_to_json v) s in (set_message r, s'))
      else ("read-only key: " <> key, s)

  abbrev pub with_manifest :
      List Input → String → Dynamic → Result CapabilityManifest × Actor S → String × Actor S
  with_manifest before key v (err e, s) = ("failed to get manifest: " <> e, s)
  with_manifest before key v (ok m, s) = checked_set before key v (find_cap m key) s

  unfoldable pub script_set :
      List Input → List Input → String → Dynamic → Actor S → String × Actor S
  unfolding checked_set
  script_set before between key v s = with_manifest between key v (call_manifest a before s)
