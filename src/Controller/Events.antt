-- ===== src/Controller/Events.antt =====
-- Which scripts an event runs.
use mathlib.Core.List.{Memᴰ}
use mathlib.Core.Path.{subst}
use middlesox.Prelude.{
  ◌≡◌, refl, sym, ◌∙◌, ◌↔◌, String, true, List, [], ◌∷◌, arith, is_empty, Bool-cases, inl, inr,
}
use middlesox.Event.{State, RawEvent, state_or_default}
use middlesox.Config.{Watch, Config, watches_for_event, matches, conditions_hold}
use middlesox.Config.Matching.{AllMet, matches_iff}
use middlesox.Config.Subscriptions.{watches_for_event_iff}
use middlesox.Controller.{should_run, triggered, triggered_by}

is_empty-eq-nil : (s : State) → is_empty s ≡ true → s ≡ []
is_empty-eq-nil [] h = refl
is_empty-eq-nil (x ∷ s) h = cc

matches_unconditional :
    (w : Watch) (prev curr : State) → w.prev ≡ [] → w.curr ≡ [] → matches w prev curr ≡ true
unfolding matches
matches_unconditional w prev curr p c = rw (p, c, conditions_hold)

-- A watch without conditions is a watch whose conditions are all met.
should_run-eq-matches :
    (w : Watch) (prev curr : State) → should_run w prev curr ≡ matches w prev curr
should_run-eq-matches w prev curr =
    ground
      (arith, is_empty-eq-nil w.prev, is_empty-eq-nil w.curr, matches_unconditional w prev curr)

triggered-Memᴰ :
    (ws : List Watch) (prev curr : State) (w : Watch)
    → Memᴰ w ws
    → matches w prev curr ≡ true
    → Memᴰ w.exec (triggered ws prev curr)
unfolding triggered
triggered-Memᴰ [] prev curr w m h = elim m [ ]
triggered-Memᴰ (v ∷ ws) prev curr w (Memᴰ.head e) h =
    rw (should_run-eq-matches v prev curr, ← e, h) (Memᴰ.head refl)
triggered-Memᴰ (v ∷ ws) prev curr w (Memᴰ.tail m) h = elim (Bool-cases (should_run v prev curr)) [
  | inl on ↦ rw on (Memᴰ.tail (triggered-Memᴰ ws prev curr w m h))
  | inr off ↦ rw off (triggered-Memᴰ ws prev curr w m h)
]

-- A watch of the list that runs the script.
pub record RunsFrom (ws : List Watch) (prev curr : State) (exec : String) : Type 0 where
  pub watch : Watch
  pub listed : Memᴰ watch ws
  pub matched : matches watch prev curr ≡ true
  pub script : watch.exec ≡ exec

RunsFrom-cons :
    {v : Watch} {ws : List Watch} {prev curr : State} {exec : String}
    → RunsFrom ws prev curr exec
    → RunsFrom (v ∷ ws) prev curr exec
RunsFrom-cons r = record {
  watch = r.watch;
  listed = Memᴰ.tail r.listed;
  matched = r.matched;
  script = r.script;
}

triggered_head :
    (v : Watch) (ws : List Watch) (prev curr : State) (exec : String)
    → matches v prev curr ≡ true
    → (Memᴰ exec (triggered ws prev curr) → RunsFrom ws prev curr exec)
    → Memᴰ exec (v.exec ∷ triggered ws prev curr)
    → RunsFrom (v ∷ ws) prev curr exec
triggered_head v ws prev curr exec h rest (Memᴰ.head e) = record {
  watch = v;
  listed = Memᴰ.head refl;
  matched = h;
  script = sym e;
}
triggered_head v ws prev curr exec h rest (Memᴰ.tail m) = RunsFrom-cons (rest m)

triggered-RunsFrom :
    (ws : List Watch) (prev curr : State) (exec : String)
    → Memᴰ exec (triggered ws prev curr)
    → RunsFrom ws prev curr exec
unfolding triggered
triggered-RunsFrom [] prev curr exec m = elim m [ ]
triggered-RunsFrom (v ∷ ws) prev curr exec m = elim (Bool-cases (should_run v prev curr)) [
  | inl on ↦
      triggered_head v ws prev curr exec (sym (should_run-eq-matches v prev curr) ∙ on)
        (triggered-RunsFrom ws prev curr exec) (rw on at m)
  | inr off ↦ RunsFrom-cons (triggered-RunsFrom ws prev curr exec (rw off at m))
]

-- What makes an event run a script: a watch of the configuration that names the script, is enabled,
-- waits for an event of this name, and has all of its conditions met by the two states.
pub record IsTriggered (c : Config) (e : RawEvent) (exec : String) : Type 0 where
  pub watch : Watch
  pub configured : Memᴰ watch c.watch
  pub script : watch.exec ≡ exec
  pub enabled : watch.enabled ≡ true
  pub event : watch.event ≡ e.name
  pub prev_met : AllMet (state_or_default e.prev) watch.prev
  pub curr_met : AllMet (state_or_default e.curr) watch.curr

triggered_by-IsTriggered :
    (c : Config) (e : RawEvent) (exec : String)
    → Memᴰ exec (triggered_by c e)
    → IsTriggered c e exec
unfolding triggered_by
triggered_by-IsTriggered c e exec m =
    let r =
      triggered-RunsFrom (watches_for_event c e.name) (state_or_default e.prev)
        (state_or_default e.curr) exec m in
    let (configured, enabled, event) = (watches_for_event_iff c e.name r.watch).0 r.listed in
    let (prev_met, curr_met) =
      (matches_iff r.watch (state_or_default e.prev) (state_or_default e.curr)).0 r.matched in
    record {
      watch = r.watch;
      configured = configured;
      script = r.script;
      enabled = enabled;
      event = event;
      prev_met = prev_met;
      curr_met = curr_met;
    }

-- An event runs a script exactly when some watch that names it is enabled, waits for an event of
-- this name, and has every condition on the previous and the current state met; a state that the
-- event does not carry counts as empty.
pub triggered_by_iff :
    (c : Config) (e : RawEvent) (exec : String)
    → Memᴰ exec (triggered_by c e) ↔ IsTriggered c e exec
unfolding triggered_by
triggered_by_iff c e exec = (
  triggered_by-IsTriggered c e exec,
  λ t.
      subst (λ x. Memᴰ x (triggered_by c e)) t.script
        (triggered-Memᴰ (watches_for_event c e.name) (state_or_default e.prev)
          (state_or_default e.curr) t.watch
          ((watches_for_event_iff c e.name t.watch).1 (t.configured, t.enabled, t.event))
          ((matches_iff t.watch (state_or_default e.prev) (state_or_default e.curr)).1
            (t.prev_met, t.curr_met))),
)
