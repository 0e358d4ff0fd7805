-- ===== src/Daemon/Pipeline.antt =====
-- From the event socket of hyprland/src/lib.rs to the scripts that middlesox/src/controller.rs starts.
use middlesox.Prelude.{
  ℕ, ◌≡◌, ◌≢◌, refl, sym, ap, ◌∙◌, String, true, false, Option, none, some, List, if◌then◌else◌, [],
  ◌∷◌, ◌++◌, map, filter, ok, err, append_assoc, append-nil, Bool-cases, inl, inr,
}
use middlesox.Event.{RawEvent}
use middlesox.Config.{Config, watches_for_event, subscribed_events}
use middlesox.Config.Subscriptions.{subscribed_iff_watched}
use middlesox.Adapter.{ProtocolAdapter}
use middlesox.HyprlandEvents.{default_translator}
use middlesox.HyprlandEvents.Reader.{start_reader, reading}
use middlesox.HyprlandEvents.Stream.{events_of, as_read, wanted, reading-eq-filter}
use middlesox.Scripts.{Host, Launch}
use middlesox.Controller.{triggered, triggered_by, handle_event}
use middlesox.Daemon.{
  Signal, event, accept, external_shutdown, control_shutdown, Loop, start, on_signal, run_loop,
  left,
}

-- The events that the loop hears before a signal makes it leave.
abbrev pub heard : List Signal → List RawEvent
heard [] = []
heard (event (some e) ∷ ss) = e ∷ heard ss
heard (accept (ok client) ∷ ss) = heard ss
heard (s ∷ ss) = []

nil_of_not : {A : Type 0} (xs : List A) → ¬ (xs ≢ []) → xs ≡ []
nil_of_not [] h = refl
nil_of_not (x ∷ xs) h = absurd (h (λ e. cc e))

abbrev launched_of : Loop → List Launch
launched_of l = l.launched

module _ {S : Type 0} (a : ProtocolAdapter S) (host : Host S) (c : Config) (dir : String) where
  -- What the events start, one after the other.
  abbrev pub launches : List RawEvent → List Launch
  launches [] = []
  launches (e ∷ es) = handle_event a host c dir e ++ launches es

  run_loop-done :
      (ss : List Signal) (l : Loop)
      → left l ≡ true
      → (run_loop a host c dir ss l).launched ≡ l.launched
  unfolding run_loop
  run_loop-done [] l h = refl
  run_loop-done (s ∷ ss) l h = simp h

  run_loop-next :
      (s : Signal) (ss : List Signal) (l : Loop)
      → l.result ≡ none
      → run_loop a host c dir (s ∷ ss) l ≡ run_loop a host c dir ss (on_signal a host c dir s l)
  unfolding run_loop
  run_loop-next s ss l h =
      ap
        (λ r.
          if elim r [ none ↦ false | some x ↦ true ]
          then l
          else run_loop a host c dir ss (on_signal a host c dir s l))
        h

  leaves :
      (s : Signal) (ss : List Signal) (l : Loop)
      → l.result ≡ none
      → left (on_signal a host c dir s l) ≡ true
      → (on_signal a host c dir s l).launched ≡ l.launched
      → (run_loop a host c dir (s ∷ ss) l).launched ≡ l.launched ++ []
  leaves s ss l h gone same =
      ap launched_of (run_loop-next s ss l h)
      ∙ run_loop-done ss (on_signal a host c dir s l) gone
      ∙ same
      ∙ sym (append-nil l.launched)

  run_loop-launched :
      (ss : List Signal) (l : Loop)
      → l.result ≡ none
      → (run_loop a host c dir ss l).launched ≡ l.launched ++ launches (heard ss)
  unfolding run_loop on_signal
  run_loop-launched [] l h = sym (append-nil l.launched)
  run_loop-launched (event (some e) ∷ ss) l h =
      ap launched_of (run_loop-next (event (some e)) ss l h)
      ∙ run_loop-launched ss _ h
      ∙ append_assoc l.launched (handle_event a host c dir e) (launches (heard ss))
  run_loop-launched (event none ∷ ss) l h = leaves (event none) ss l h refl refl
  run_loop-launched (accept (ok client) ∷ ss) l h =
      ap launched_of (run_loop-next (accept (ok client)) ss l h) ∙ run_loop-launched ss _ h
  run_loop-launched (accept (err e) ∷ ss) l h = leaves (accept (err e)) ss l h refl refl
  run_loop-launched (external_shutdown ∷ ss) l h = leaves external_shutdown ss l h refl refl
  run_loop-launched (control_shutdown ∷ ss) l h = leaves control_shutdown ss l h refl refl

  unsubscribed-nil :
      (e : RawEvent) → wanted (subscribed_events c) e ≡ false → handle_event a host c dir e ≡ []
  unfolding handle_event triggered_by triggered
  unsubscribed-nil e h =
      rw
        (nil_of_not (watches_for_event c e.name)
          (λ more. cc ((subscribed_iff_watched c e.name).1 more, h)))
        refl

  launches-filter :
      (es : List RawEvent) → launches (filter (wanted (subscribed_events c)) es) ≡ launches es
  launches-filter [] = refl
  launches-filter (e ∷ es) = elim (Bool-cases (wanted (subscribed_events c) e)) [
    | inl w ↦ simp (w, launches-filter es)
    | inr u ↦ simp (u, launches-filter es, unsubscribed-nil e u)
  ]

  -- The adapter is started with the events that the configuration subscribes to, and the main loop
  -- hears all that the reader task sends, in order, before it is left. Then the scripts it starts are
  -- those that all events of the socket call for, in order: what is not subscribed to would start
  -- none.
  pub run_loop-reading :
      (ls : List (Option ℕ × String)) (ss : List Signal)
      → heard ss ≡ (reading (map as_read ls) (start_reader (subscribed_events c))).sent
      → (run_loop a host c dir ss start).launched ≡ launches (events_of ls default_translator)
  unfolding start
  run_loop-reading ls ss h =
      run_loop-launched ss start refl
      ∙ ap launches (h ∙ reading-eq-filter ls (subscribed_events c))
      ∙ launches-filter (events_of ls default_translator)
