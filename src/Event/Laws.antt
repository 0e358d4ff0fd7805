-- ===== src/Event/Laws.antt =====
-- Building events and reading them back.
use middlesox.Prelude.{◌≡◌, refl, String, some, ◌==◌, arith, if◌then◌else◌, lookup, lookup-insert}
use middlesox.Json.{Value}
use middlesox.Event.{RawEvent, state_or_default, with_prev, with_curr, get_prev, get_curr}

get_curr-lookup :
    (e : RawEvent) (key : String) → get_curr e key ≡ lookup key (state_or_default e.curr)
unfolding get_curr lookup
get_curr-lookup e key = ground arith

get_prev-lookup :
    (e : RawEvent) (key : String) → get_prev e key ≡ lookup key (state_or_default e.prev)
unfolding get_prev lookup
get_prev-lookup e key = ground arith

-- A value put into the current state is read back under its key, every other key reads as before,
-- and the previous state, the name and the time stay as they were.
pub get_curr-with_curr :
    (e : RawEvent) (key other : String) (v : Value)
    → (get_curr (with_curr e key v) other ≡ (if key == other then some v else get_curr e other))
      × (get_prev (with_curr e key v) other ≡ get_prev e other)
      × ((with_curr e key v).name ≡ e.name)
      × ((with_curr e key v).timestamp ≡ e.timestamp)
unfolding with_curr
get_curr-with_curr e key other v = (
  rw (get_curr-lookup (with_curr e key v) other, get_curr-lookup e other)
      (lookup-insert key other v (state_or_default e.curr)),
  unfold get_prev in refl,
  refl,
  refl,
)

-- The same for the previous state.
pub get_prev-with_prev :
    (e : RawEvent) (key other : String) (v : Value)
    → (get_prev (with_prev e key v) other ≡ (if key == other then some v else get_prev e other))
      × (get_curr (with_prev e key v) other ≡ get_curr e other)
      × ((with_prev e key v).name ≡ e.name)
      × ((with_prev e key v).timestamp ≡ e.timestamp)
unfolding with_prev
get_prev-with_prev e key other v = (
  rw (get_prev-lookup (with_prev e key v) other, get_prev-lookup e other)
      (lookup-insert key other v (state_or_default e.prev)),
  unfold get_curr in refl,
  refl,
  refl,
)
