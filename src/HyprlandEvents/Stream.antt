-- ===== src/HyprlandEvents/Stream.antt =====
-- The events that the reader task of hyprland/src/lib.rs sends, against the translation of all lines.
use middlesox.Prelude.{
  ℕ, String, Bool, true, false, Option, none, some, List, [], ◌∷◌, ◌++◌, map, filter, ◌≡◌, refl,
  sym, ap, ◌∙◌, contains, trim_end, append_assoc, append-nil, is_empty_text, Bool-cases, inl, inr,
  split_once_arrow, eq_iff, if◌then◌else◌,
}
use mathlib.Core.Path.{subst}
use middlesox.Event.{RawEvent}
use middlesox.HyprlandEvents.{EventTranslator, translate, default_translator}
use middlesox.HyprlandEvents.Reader.{
  Read, line, Reader, start_reader, on_read, reading, on_line, send,
}

abbrev pub prepend : Option RawEvent → List RawEvent → List RawEvent
prepend none es = es
prepend (some e) es = e ∷ es

-- All events that the lines stand for, subscribed to or not. Each line comes with what the clock says.
abbrev pub events_of : List (Option ℕ × String) → EventTranslator → List RawEvent
events_of [] t = []
events_of ((clock, text) ∷ ls) t =
    let r = translate clock (trim_end text) t in prepend r.0 (events_of ls r.1)

abbrev pub as_read : Option ℕ × String → Read
as_read (clock, text) = line clock text true

abbrev pub wanted : List String → RawEvent → Bool
wanted subs e = contains subs e.name

abbrev next_reader : Option RawEvent × EventTranslator → Reader → Reader
next_reader (e, t) r = record r {
  translator = t;
  sent = r.sent ++ filter (wanted r.subscriptions) (prepend e []);
}

translate_empty : (clock : Option ℕ) (t : EventTranslator) → translate clock "" t ≡ (none, t)
unfolding translate split_once_arrow
translate_empty clock t = refl

send-eq-next_reader :
    (p : Option RawEvent × EventTranslator) (r : Reader) → send true p r ≡ next_reader p r
send-eq-next_reader (none, t) r =
    ap (λ es. record r { translator = t; sent = es }) (sym (append-nil r.sent))
send-eq-next_reader (some e, t) r =
    elim (contains r.subscriptions e.name)
      as (λ b.
        (if b
          then record r { translator = t; sent = r.sent ++ (e ∷ []) }
          else record r { translator = t })
        ≡ record r { translator = t; sent = r.sent ++ (if b then e ∷ [] else []) }) [
          | true ↦ refl
          | false ↦ ap (λ es. record r { translator = t; sent = es }) (sym (append-nil r.sent))
        ]

on_line-eq-next_reader :
    (clock : Option ℕ) (text : String) (r : Reader)
    → on_line clock text true r ≡ next_reader (translate clock text r.translator) r
on_line-eq-next_reader clock text r = elim (Bool-cases (is_empty_text text)) [
  | inl e ↦ rw e (
      subst (λ x. r ≡ next_reader (translate clock x r.translator) r) (sym ((eq_iff text "").0 e))
        (rw (translate_empty clock r.translator)
          (ap (λ es. record r { sent = es }) (sym (append-nil r.sent)))))
  | inr e ↦ rw e (send-eq-next_reader (translate clock text r.translator) r)
]

on_read-eq-next_reader :
    (clock : Option ℕ) (text : String) (r : Reader)
    → r.running ≡ true
    → on_read (line clock text true) r
      ≡ next_reader (translate clock (trim_end text) r.translator) r
unfolding on_read
on_read-eq-next_reader clock text r h =
    subst
      (λ b.
        (if b then on_line clock (trim_end text) true r else r)
        ≡ next_reader (translate clock (trim_end text) r.translator) r)
      (sym h) (on_line-eq-next_reader clock (trim_end text) r)

filter-prepend :
    (p : RawEvent → Bool) (m : Option RawEvent) (es : List RawEvent)
    → filter p (prepend m es) ≡ filter p (prepend m []) ++ filter p es
filter-prepend p none es = refl
filter-prepend p (some e) es =
    elim (p e)
      as (λ b.
        (if b then e ∷ filter p es else filter p es) ≡ (if b then e ∷ [] else []) ++ filter p es) [
          | true ↦ refl
          | false ↦ refl
        ]

reading-sent :
    (ls : List (Option ℕ × String)) (r : Reader)
    → r.running ≡ true
    → (reading (map as_read ls) r).sent
      ≡ r.sent ++ filter (wanted r.subscriptions) (events_of ls r.translator)
unfolding reading
reading-sent [] r h = sym (append-nil r.sent)
reading-sent ((clock, text) ∷ ls) r h =
    let p = translate clock (trim_end text) r.translator in
    ap (λ q. (reading (map as_read ls) q).sent) (on_read-eq-next_reader clock text r h)
    ∙ reading-sent ls (next_reader p r) h
    ∙ append_assoc r.sent _ _
    ∙ ap (λ es. r.sent ++ es) (sym (filter-prepend (wanted r.subscriptions) p.0 (events_of ls p.1)))

-- The task sends, in the order of the lines, those events of all lines whose name is subscribed to:
-- the lines of other events still move the state that later events start from.
pub reading-eq-filter :
    (ls : List (Option ℕ × String)) (subs : List String)
    → (reading (map as_read ls) (start_reader subs)).sent
      ≡ filter (wanted subs) (events_of ls default_translator)
unfolding start_reader
reading-eq-filter ls subs = reading-sent ls (start_reader subs) refl
