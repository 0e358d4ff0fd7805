-- ===== src/Socket/Stream.antt =====
-- socket/src/lib.rs: what a subscriber is given by `next_event`, from the lines that the bridge writes.
use middlesox.Prelude.{
  ℕ, zero, suc, String, true, false, Option, none, some, List, [], ◌∷◌, ◌++◌, map, length, Result,
  ok, err, ◌≡◌, refl, sym, ap, ◌∙◌, append_assoc, append-nil, trim, is_empty_text, if◌then◌else◌,
}
use middlesox.Event.{RawEvent}
use middlesox.Socket.Protocol.{Event, subscribe_request}
use middlesox.Socket.Task.{
  Reader, Read, line, closed, start_reader, on_read, reading, on_line, forward, raw_event,
}
use middlesox.Socket.{
  Bridge, SocketAdapter, subscribe, acknowledged, read_buffered, handshake, with_reader,
  read_socket, next_event,
}

-- The events of the lines, each with what the clock says; blank lines and lines that are no event have
-- none.
abbrev event_of : Option ℕ → Option Event → List RawEvent → List RawEvent
event_of clock none es = es
event_of clock (some e) es = raw_event clock e ∷ es

abbrev line_event : (String → Option Event) → Option ℕ → String → List RawEvent → List RawEvent
line_event to_event clock text es =
    if is_empty_text text then es else event_of clock (to_event text) es

abbrev pub events_of : (String → Option Event) → List (Option ℕ × String) → List RawEvent
events_of to_event [] = []
events_of to_event ((clock, text) ∷ ls) =
    line_event to_event clock (trim text) (events_of to_event ls)

abbrev pub as_read : Option ℕ × String → Read
as_read (clock, text) = line clock text true

module _ (to_event : String → Option Event) where
  forward-sent :
      (clock : Option ℕ) (m : Option Event) (r : Reader)
      → forward to_event clock true m r ≡ record r { sent = r.sent ++ event_of clock m [] }
  forward-sent clock none r = ap (λ es. record r { sent = es }) (sym (append-nil r.sent))
  forward-sent clock (some e) r = refl

  event_of-append :
      (clock : Option ℕ) (m : Option Event) (es : List RawEvent)
      → event_of clock m es ≡ event_of clock m [] ++ es
  event_of-append clock none es = refl
  event_of-append clock (some e) es = refl

  line_event-append :
      (clock : Option ℕ) (text : String) (es : List RawEvent)
      → line_event to_event clock text es ≡ line_event to_event clock text [] ++ es
  line_event-append clock text es =
      elim (is_empty_text text)
        as (λ b.
          (if b then es else event_of clock (to_event text) es)
          ≡ (if b then [] else event_of clock (to_event text) []) ++ es) [
            | true ↦ refl
            | false ↦ event_of-append clock (to_event text) es
          ]

  on_line-sent :
      (clock : Option ℕ) (text : String) (r : Reader)
      → on_line to_event clock text true r
        ≡ record r { sent = r.sent ++ line_event to_event clock text [] }
  on_line-sent clock text r =
      elim (is_empty_text text)
        as (λ b.
          (if b then r else forward to_event clock true (to_event text) r)
          ≡ record r { sent = r.sent ++ (if b then [] else event_of clock (to_event text) []) }) [
            | true ↦ ap (λ es. record r { sent = es }) (sym (append-nil r.sent))
            | false ↦ forward-sent clock (to_event text) r
          ]

  -- A task that still runs, with the events that it has sent.
  abbrev sending : List RawEvent → Reader
  sending es = record { sent = es; running = true }

  reading-sent :
      (ls : List (Option ℕ × String)) (es : List RawEvent)
      → reading to_event (map as_read ls ++ (closed ∷ [])) (sending es)
        ≡ record { sent = es ++ events_of to_event ls; running = false }
  unfolding reading on_read
  reading-sent [] es = ap (λ xs. record { sent = xs; running = false }) (sym (append-nil es))
  reading-sent ((clock, text) ∷ ls) es =
      ap (reading to_event (map as_read ls ++ (closed ∷ [])))
        (on_line-sent clock (trim text) (sending es))
      ∙ reading-sent ls (es ++ line_event to_event clock (trim text) [])
      ∙ ap (λ xs. record { sent = xs; running = false })
          (append_assoc es _ (events_of to_event ls)
            ∙ ap (λ xs. es ++ xs)
                (sym (line_event-append clock (trim text) (events_of to_event ls))))

abbrev pub given : RawEvent → Result (Option RawEvent)
given e = ok (some e)

module _ {W : Type 0} where
  -- What so many calls of `next_event` give, up to the first that has no answer yet.
  abbrev pub next_events : ℕ → SocketAdapter W → List (Result (Option RawEvent))
  next_events zero s = []
  next_events (suc n) s = elim (next_event s) [ none ↦ [] | some (r, s') ↦ r ∷ next_events n s' ]

  next_events-sent :
      (es : List RawEvent) (s : SocketAdapter W)
      → next_events
          (suc (length es))
          (record s { event_rx = some (record { sent = es; running = false }) })
        ≡ map given es ++ (ok none ∷ [])
  unfolding next_event
  next_events-sent [] s = refl
  next_events-sent (e ∷ es) s = ap (λ rs. given e ∷ rs) (next_events-sent es s)

module _ {W : Type 0} (c : Bridge W) where
  -- The task reads all of these.
  abbrev pub read_all : List Read → SocketAdapter W → SocketAdapter W
  read_all [] s = s
  read_all (x ∷ xs) s = read_all xs (read_socket c x s)

  read_all-reading :
      (xs : List Read) (r : Reader) (s : SocketAdapter W)
      → read_all xs (record s { event_rx = some r })
        ≡ record s { event_rx = some (reading c.to_event xs r) }
  unfolding read_socket reading
  read_all-reading [] r s = refl
  read_all-reading (x ∷ xs) r s = read_all-reading xs (on_read c.to_event x r) s

  with_reader-stream :
      (ls : List (Option ℕ × String)) (w : W) (s : SocketAdapter W) (m : Result String)
      → (with_reader c w s m).0 ≡ ok tt
      → next_events
          (suc (length (events_of c.to_event ls)))
          (read_all (map as_read ls ++ (closed ∷ [])) (with_reader c w s m).1)
        ≡ map given (events_of c.to_event ls) ++ (ok none ∷ [])
  unfolding start_reader
  with_reader-stream ls w s (err e) h = cc
  with_reader-stream ls w s (ok buffer) h =
      let es = events_of c.to_event ls in
      ap (next_events (suc (length es))) (
        read_all-reading (map as_read ls ++ (closed ∷ [])) start_reader (record s { world = w })
        ∙ ap (λ r. record s { world = w; event_rx = some r }) (reading-sent c.to_event ls []))
      ∙ next_events-sent es (record s { world = w })

  acknowledged-with_reader :
      (text : String) (w : W) (s : SocketAdapter W)
      → acknowledged (c.to_response (trim (read_buffered text).0)) ≡ ok tt
      → (with_reader c w s (handshake c (ok text))).0 ≡ ok tt
  acknowledged-with_reader text w s h = rw h refl

  -- When the first line that comes from the bridge accepts the subscription, `next_event` gives the
  -- events of the lines that the bridge writes after what came in one read with that line, each once
  -- and in order, blank lines and lines that are no event left out, and then says that the stream has
  -- ended, once the bridge has closed it. What came in the same read after the first line is lost.
  pub next_events-subscribe :
      (events : List String) (text : String) (w : W) (ls : List (Option ℕ × String))
      (s : SocketAdapter W)
      → c.open_events s.event_socket (subscribe_request 0 events) s.world ≡ (ok text, w)
      → acknowledged (c.to_response (trim (read_buffered text).0)) ≡ ok tt
      → ((subscribe c events s).0 ≡ ok tt)
        × (next_events
              (suc (length (events_of c.to_event ls)))
              (read_all (map as_read ls ++ (closed ∷ [])) (subscribe c events s).1)
            ≡ map given (events_of c.to_event ls) ++ (ok none ∷ []))
  unfolding subscribe
  next_events-subscribe events text w ls s opened accepted =
      let there = acknowledged-with_reader text w s accepted in
      rw opened (there, with_reader-stream ls w s (handshake c (ok text)) there)
