-- ===== src/HyprlandEvents/Reader.antt =====
-- hyprland/src/lib.rs: the task that reads the event socket, from `subscribe`.
use middlesox.Prelude.{
  ℕ, String, Bool, true, false, Option, none, some, List, [], ◌∷◌, ◌++◌, if◌then◌else◌, contains,
  is_empty_text, trim_end,
}
use middlesox.Event.{RawEvent}
use middlesox.HyprlandEvents.{EventTranslator, default_translator, translate}

-- What one `read_line` of the reader task gives, and whether the channel still has its receiver.
pub data Read : Type 0 where
  line : (clock : Option ℕ) (text : String) (receiving : Bool) → Read
  closed : Read
  failed : (error : String) → Read

-- The task: its translator, the subscriptions it was started with, and the events it has sent that
-- have not been received, the oldest first.
pub record Reader : Type 0 where
  pub translator : EventTranslator
  pub subscriptions : List String
  pub sent : List RawEvent
  pub running : Bool

unfoldable pub start_reader : List String → Reader
unfolding default_translator
start_reader subs = record {
  translator = default_translator;
  subscriptions = subs;
  sent = [];
  running = true;
}

abbrev pub send : Bool → Option RawEvent × EventTranslator → Reader → Reader
send receiving (none, t) r = record r { translator = t }
send receiving (some e, t) r =
    if contains r.subscriptions e.name
    then if receiving
      then record r { translator = t; sent = r.sent ++ (e ∷ []) }
      else record r { translator = t; running = false }
    else record r { translator = t }

abbrev pub on_line : Option ℕ → String → Bool → Reader → Reader
on_line clock text receiving r =
    if is_empty_text text then r else send receiving (translate clock text r.translator) r

abbrev on_running : Read → Reader → Reader
on_running (line clock text receiving) r = on_line clock (trim_end text) receiving r
on_running closed r = record r { running = false }
on_running (failed error) r = record r { running = false }

-- One round of the task's loop; a task that has left it does nothing.
unfoldable pub on_read : Read → Reader → Reader
unfolding trim_end translate
on_read x r = if r.running then on_running x r else r

unfoldable pub reading : List Read → Reader → Reader
unfolding on_read
reading [] r = r
reading (x ∷ xs) r = reading xs (on_read x r)
