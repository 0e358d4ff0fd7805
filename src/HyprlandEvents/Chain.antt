-- ===== src/HyprlandEvents/Chain.antt =====
-- hyprland/src/lib.rs: the old state of an event is the new state of the last event of its kind.
use middlesox.Prelude.{
  ℕ, String, true, false, Option, none, some, List, [], ◌∷◌, map, filter, ◌==◌, ◌≡◌, ◌≢◌, refl, sym,
  ap, ◌∙◌, contains, trim_end, if◌then◌else◌,
}
use mathlib.Core.Path.{subst}
use middlesox.Event.{State, RawEvent}
use middlesox.HyprlandEvents.{EventTranslator, translate, default_translator}
use middlesox.HyprlandEvents.Reader.{start_reader, reading}
use middlesox.HyprlandEvents.Kinds.{Kind, kind_name, remembered, Agrees, Moves, tracked, passing}
use middlesox.HyprlandEvents.Tracking.{IsTranslated, translate-IsTranslated}
use middlesox.HyprlandEvents.Stream.{events_of, prepend, wanted, as_read, reading-eq-filter}

abbrev key_of : State → List String
key_of s = map (λ (k, v). k) s

-- In this list of events, each event of kind `k` starts from the state `s` before the list, or from
-- what the event of that kind before it says: from a state with the same keys whose every entry that
-- event has among its new state.
pub data Linked (k : Kind) : State → List RawEvent → Type 0 where
  done : {s : State} → Linked k s []
  other :
      {s : State} {e : RawEvent} {es : List RawEvent}
      → e.name ≢ kind_name k
      → Linked k s es
      → Linked k s (e ∷ es)
  next :
      {s s' : State} {e : RawEvent} {es : List RawEvent}
      → e.name ≡ kind_name k
      → e.prev ≡ some s
      → key_of s' ≡ key_of s
      → Agrees s' e
      → Linked k s' es
      → Linked k s (e ∷ es)

same_keys : (k : Kind) (t t' : EventTranslator) → key_of (remembered k t') ≡ key_of (remembered k t)
same_keys Kind.workspace t t' = refl
same_keys Kind.focus t t' = refl
same_keys Kind.output t t' = refl
same_keys Kind.window t t' = refl
same_keys Kind.keymode t t' = refl
same_keys Kind.layout t t' = refl

Kind-discrete : Discrete Kind
Kind-discrete = hlevel

kind_of_name : String → Kind
kind_of_name x =
    if x == "workspace_change"
    then Kind.workspace
    else if x == "focus_change"
    then Kind.focus
    else if x == "output_focus"
    then Kind.output
    else if x == "window_state_change"
    then Kind.window
    else if x == "keymode_change"
    then Kind.keymode
    else Kind.layout

kind_of_name-kind_name : (k : Kind) → kind_of_name (kind_name k) ≡ k
unfolding kind_of_name
kind_of_name-kind_name Kind.workspace = refl
kind_of_name-kind_name Kind.focus = refl
kind_of_name-kind_name Kind.output = refl
kind_of_name-kind_name Kind.window = refl
kind_of_name-kind_name Kind.keymode = refl
kind_of_name-kind_name Kind.layout = refl

kind_name_injective : (k j : Kind) → kind_name k ≡ kind_name j → k ≡ j
kind_name_injective k j e =
    sym (kind_of_name-kind_name k) ∙ ap kind_of_name e ∙ kind_of_name-kind_name j

-- An event of kind `j` after which the state of kind `k` is known.
Linked-step :
    (k : Kind) (t t' : EventTranslator) (e : RawEvent) (es : List RawEvent)
    → Moves t e t'
    → Linked k (remembered k t') es
    → Linked k (remembered k t) (e ∷ es)
Linked-step k t t' e es (passing named same) l =
    other (named k) (subst (λ u. Linked k (remembered k u) es) same l)
Linked-step k t t' e es (tracked j named old now kept) l = elim (Kind-discrete j k) [
  | yes same ↦
      next (named ∙ ap kind_name same) (old ∙ ap (λ i. some (remembered i t)) same)
        (same_keys k t t') (subst (λ i. Agrees (remembered i t') e) same now) l
  | no differ ↦
      other (λ x. differ (kind_name_injective j k (sym named ∙ x)))
        (subst (λ s. Linked k s es) (kept k (λ x. differ (sym x))) l)
]

Linked-prepend :
    (k : Kind) (t : EventTranslator) (p : Option RawEvent × EventTranslator) (es : List RawEvent)
    → IsTranslated t p
    → Linked k (remembered k p.1) es
    → Linked k (remembered k t) (prepend p.0 es)
Linked-prepend k t (none, t') es h l = subst (λ u. Linked k (remembered k u) es) h l
Linked-prepend k t (some e, t') es h l = Linked-step k t t' e es h l

events_of-Linked :
    (k : Kind) (ls : List (Option ℕ × String)) (t : EventTranslator)
    → Linked k (remembered k t) (events_of ls t)
events_of-Linked k [] t = done
events_of-Linked k ((clock, text) ∷ ls) t =
    let p = translate clock (trim_end text) t in
    Linked-prepend k t p (events_of ls p.1) (translate-IsTranslated clock (trim_end text) t)
      (events_of-Linked k ls p.1)

filter-Linked :
    (k : Kind) (subs : List String) (s : State) (es : List RawEvent)
    → contains subs (kind_name k) ≡ true
    → Linked k s es
    → Linked k s (filter (wanted subs) es)
filter-Linked k subs s [] h done = done
filter-Linked k subs s (e ∷ es) h (other n l) =
    elim (wanted subs e)
      as (λ b. Linked k s (if b then e ∷ filter (wanted subs) es else filter (wanted subs) es)) [
        | true ↦ other n (filter-Linked k subs s es h l)
        | false ↦ filter-Linked k subs s es h l
      ]
filter-Linked k subs s (e ∷ es) h (next {s' = s'} n p q a l) =
    subst (λ b. Linked k s (if b then e ∷ filter (wanted subs) es else filter (wanted subs) es))
      (sym (ap (contains subs) n ∙ h)) (next n p q a (filter-Linked k subs s' es h l))

-- After a subscription to one of the six kinds of event whose state is tracked, each event of that
-- kind that the task sends starts from the state that the one before it led to, the first from the
-- state of a new translator, whatever other lines, subscribed to or not, stand between.
pub reading-Linked :
    (k : Kind) (subs : List String) (ls : List (Option ℕ × String))
    → contains subs (kind_name k) ≡ true
    → Linked k (remembered k default_translator) (reading (map as_read ls) (start_reader subs)).sent
reading-Linked k subs ls h =
    subst (Linked k (remembered k default_translator)) (sym (reading-eq-filter ls subs))
      (filter-Linked k subs _ _ h (events_of-Linked k ls default_translator))
