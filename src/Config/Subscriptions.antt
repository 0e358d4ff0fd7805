-- ===== src/Config/Subscriptions.antt =====
-- Which events the adapter is asked for, and which watches see an event.
use mathlib.Core.List.{Memᴰ}
use middlesox.Prelude.{
  not, is_empty, ◌∙◌, ◌≡◌, refl, ◌↔◌, ◌≢◌, String, true, List, [], ◌∷◌, map, arith, contains,
  filter, eq_iff, Memᴰ-filter, Memᴰ_of_filter,
}
use middlesox.Config.{Watch, Config, wanted, watches_for_event, to_set, subscribed_events}

contains-to_set : (s : String) (xs : List String) → contains (to_set xs) s ≡ contains xs s
unfolding contains to_set
contains-to_set s [] = refl
contains-to_set s (x ∷ xs) = ground (arith, contains-to_set s xs, contains-to_set x xs, eq_iff x s)

contains_events :
    (ws : List Watch) (name : String)
    → contains (map (λ w. w.event) (filter (λ w. w.enabled) ws)) name
      ≡ not (is_empty (filter (wanted name) ws))
unfolding contains
contains_events [] name = refl
contains_events (w ∷ ws) name = ground (arith, contains_events ws name)

-- The watches that see an event are exactly the enabled ones with its name.
pub watches_for_event_iff :
    (c : Config) (name : String) (w : Watch)
    → Memᴰ w (watches_for_event c name) ↔ (Memᴰ w c.watch × (w.enabled ≡ true) × (w.event ≡ name))
unfolding watches_for_event
watches_for_event_iff c name w = (
  λ m.
      let (listed, h) = Memᴰ_of_filter (wanted name) w c.watch m in
      (listed, ground arith, (eq_iff w.event name).0 (ground arith)),
  λ (listed, on, same).
      Memᴰ-filter (wanted name) w c.watch listed (ground (arith, eq_iff w.event name)),
)

-- The adapter is asked for an event exactly when some watch would see it: no watch waits for an
-- event that is not subscribed, and nothing is subscribed that no watch sees.
pub subscribed_iff_watched :
    (c : Config) (name : String)
    → (contains (subscribed_events c) name ≡ true) ↔ (watches_for_event c name ≢ [])
unfolding subscribed_events watches_for_event
subscribed_iff_watched c name =
    let same =
      contains-to_set name (map (λ w. w.event) (filter (λ w. w.enabled) c.watch))
      ∙ contains_events c.watch name in
    rw same (ground arith)
