-- ===== src/Socket/Task.antt =====
-- socket/src/lib.rs: the task that reads the events of a bridge. `to_event` is what serde_json reads from a
-- line, `clock` what `RawEvent::new` reads.
use middlesox.Prelude.{
  ℕ, String, Bool, true, false, Option, none, some, List, [], ◌∷◌, ◌++◌, if◌then◌else◌,
  is_empty_text, trim,
}
use middlesox.Json.{Value, as_object}
use middlesox.Event.{RawEvent, State, with_prev_state, with_curr_state}
use middlesox.Event as Events
use middlesox.Socket.Protocol.{Event}

unfoldable pub json_object_to_hashmap : Value → State
json_object_to_hashmap v = elim (as_object v) [ none ↦ [] | some fields ↦ fields ]

abbrev with_prev_object : Option Value → RawEvent → RawEvent
with_prev_object none e = e
with_prev_object (some v) e = with_prev_state e (json_object_to_hashmap v)

abbrev with_curr_object : Option Value → RawEvent → RawEvent
with_curr_object none e = e
with_curr_object (some v) e = with_curr_state e (json_object_to_hashmap v)

-- The event that the reader task makes of a line.
unfoldable pub raw_event : Option ℕ → Event → RawEvent
unfolding json_object_to_hashmap with_prev_state with_curr_state
raw_event clock e = with_curr_object e.curr (with_prev_object e.prev (Events.new clock e.event))

-- What one `read_line` of the task gives, and whether the channel still has its receiver. A full
-- channel makes the task wait.
pub data Read : Type 0 where
  line : (clock : Option ℕ) (text : String) (receiving : Bool) → Read
  closed : Read
  failed : (error : String) → Read

-- The events that it has sent and that have not been received, the oldest first.
pub record Reader : Type 0 where
  pub sent : List RawEvent
  pub running : Bool

unfoldable pub start_reader : Reader
start_reader = record { sent = []; running = true }

module _ (to_event : String → Option Event) where
  abbrev pub forward : Option ℕ → Bool → Option Event → Reader → Reader
  forward clock receiving none r = r
  forward clock true (some e) r = record r { sent = r.sent ++ (raw_event clock e ∷ []) }
  forward clock false (some e) r = record r { running = false }

  -- A line that is no event is passed over.
  abbrev pub on_line : Option ℕ → String → Bool → Reader → Reader
  on_line clock text receiving r =
      if is_empty_text text then r else forward clock receiving (to_event text) r

  abbrev pub on_running : Read → Reader → Reader
  on_running (line clock text receiving) r = on_line clock (trim text) receiving r
  on_running closed r = record r { running = false }
  on_running (failed error) r = record r { running = false }

  -- One round of the task's loop; a task that has left it does nothing.
  unfoldable pub on_read : Read → Reader → Reader
  unfolding trim raw_event
  on_read x r = if r.running then on_running x r else r

  unfoldable pub reading : List Read → Reader → Reader
  unfolding on_read
  reading [] r = r
  reading (x ∷ xs) r = reading xs (on_read x r)
