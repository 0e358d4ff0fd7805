-- ===== src/Examples/Core.antt =====
-- Manifests, events, watches and the wire format at concrete inputs.
use middlesox.Prelude.{◌≡◌, ◌≢◌, refl, ◌↔◌, true, false, some, [], ◌∷◌, arith, contains, lookup}
use middlesox.Json.{number_eq, string, array, cons, nil, value_eq}
use middlesox.Capability.{read_only_cap, read_write_cap}
use middlesox.Manifest
use middlesox.Manifest.{add, find_cap, len}
use middlesox.Config.{Watch, matches, watches_for_event, subscribed_events}
use middlesox.Config.Matching.{AllMet, matches_iff}
use middlesox.Config.Subscriptions.{subscribed_iff_watched}
use middlesox.Engine.{json_to_dynamic, dynamic_to_json}
use middlesox.Engine.Convert.{dynamic_to_json-json_to_dynamic, Fits}
use middlesox.Examples.Data.{one, two, watch, config}

duplicate_stays_read_only :
    find_cap (add (add Manifest.new (read_only_cap "monitor")) (read_write_cap "monitor")) "monitor"
    ≡ some (read_only_cap "monitor")
unfolding find_cap add Manifest.new read_only_cap read_write_cap
duplicate_stays_read_only = refl

matches_iff_example :
    (matches watch (("id", one) ∷ []) (("id", two) ∷ []) ≡ true)
    ↔ (AllMet (("id", one) ∷ []) watch.prev × AllMet (("id", two) ∷ []) watch.curr)
matches_iff_example = matches_iff watch (("id", one) ∷ []) (("id", two) ∷ [])

matches_test :
    (matches watch (("id", one) ∷ []) (("id", two) ∷ []) ≡ true)
    × (matches watch (("id", two) ∷ []) (("id", two) ∷ []) ≡ false)
    × (matches watch [] (("id", two) ∷ []) ≡ false)
unfolding matches lookup value_eq number_eq
matches_test = (refl, refl, refl)

abbrev two_conditions : Watch
two_conditions = record watch { curr = ("id", two) ∷ ("monitor", string "A") ∷ [] }

abbrev swapped : Watch
swapped = record watch { curr = ("monitor", string "A") ∷ ("id", two) ∷ [] }

subscribed_iff_watched_example :
    (contains (subscribed_events config) "workspace_change" ≡ true)
    ↔ (watches_for_event config "workspace_change" ≢ [])
subscribed_iff_watched_example = subscribed_iff_watched config "workspace_change"

dynamic_to_json-json_to_dynamic_example :
    dynamic_to_json (json_to_dynamic (array (cons one (cons (string "a") nil))))
    ≡ array (cons one (cons (string "a") nil))
unfolding Fits
dynamic_to_json-json_to_dynamic_example =
    dynamic_to_json-json_to_dynamic (array (cons one (cons (string "a") nil))) (omega arith)
