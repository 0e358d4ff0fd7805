-- ===== src/Event.antt =====
-- middlesox/src/event.rs: events with the state before and after a transition.
pub mod Laws
use middlesox.Prelude.{ℕ, ◌%◌, ◌^◌, String, Option, none, some, List, [], lookup, insert, ℤ}
use middlesox.Json.{Value, as_str, as_i64}

-- `HashMap<String, Value>`
abbrev pub State : Type 0
State = List (String × Value)

pub record RawEvent : Type 0 where
  pub name : String
  pub prev : Option State
  pub curr : Option State
  pub timestamp : ℕ

-- `SystemTime::now().duration_since(UNIX_EPOCH)` in milliseconds, or `none` before the epoch;
-- `as u64` keeps the low 64 bits.
abbrev timestamp_of : Option ℕ → ℕ
timestamp_of none = 0
timestamp_of (some millis) = millis % 2 ^ 64

unfoldable pub new : Option ℕ → String → RawEvent
new clock name = record { name = name; prev = none; curr = none; timestamp = timestamp_of clock }

-- `unwrap_or_default`, which is also what `get_or_insert_with(HashMap::new)` inserts into.
abbrev pub state_or_default : Option State → State
state_or_default none = []
state_or_default (some s) = s

unfoldable pub with_prev : RawEvent → String → Value → RawEvent
with_prev e key value = record e { prev = some (insert key value (state_or_default e.prev)) }

unfoldable pub with_curr : RawEvent → String → Value → RawEvent
with_curr e key value = record e { curr = some (insert key value (state_or_default e.curr)) }

unfoldable pub with_prev_state : RawEvent → State → RawEvent
with_prev_state e s = record e { prev = some s }

unfoldable pub with_curr_state : RawEvent → State → RawEvent
with_curr_state e s = record e { curr = some s }

infixl 5 ◌>>=◌
abbrev pub ◌>>=◌ {ℓ κ} : {A : Type ℓ} {B : Type κ} → Option A → (A → Option B) → Option B
none >>= k = none
some a >>= k = k a

unfoldable pub get_prev : RawEvent → String → Option Value
get_prev e key = e.prev >>= lookup key

unfoldable pub get_curr : RawEvent → String → Option Value
get_curr e key = e.curr >>= lookup key

unfoldable pub get_prev_str : RawEvent → String → Option String
unfolding get_prev
get_prev_str e key = get_prev e key >>= as_str

unfoldable pub get_curr_str : RawEvent → String → Option String
unfolding get_curr
get_curr_str e key = get_curr e key >>= as_str

unfoldable pub get_prev_i64 : RawEvent → String → Option ℤ
unfolding get_prev
get_prev_i64 e key = get_prev e key >>= as_i64

unfoldable pub get_curr_i64 : RawEvent → String → Option ℤ
unfolding get_curr
get_curr_i64 e key = get_curr e key >>= as_i64
