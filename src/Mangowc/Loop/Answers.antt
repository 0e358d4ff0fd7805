-- ===== src/Mangowc/Loop/Answers.antt =====
-- mangowc/src/lib.rs: every command is answered once, in order.
use middlesox.Prelude.{
  ℕ, Bool, true, false, ◌||◌, Option, List, [], ◌∷◌, ◌++◌, ◌-◌, ◌⊎◌, map, Result, ok, err, ◌≡◌,
  refl, sym, ap, ◌∙◌, inl, inr, append_assoc, append-nil, nat_eq, if◌then◌else◌,
}
use mathlib.Core.List.{map-append}
use mathlib.Core.Path.{subst}
use middlesox.Mangowc.Wayland.{WaylandState}
use middlesox.Mangowc.Thread.{WaylandEvent}
use middlesox.Mangowc.Commands.{Request}
use middlesox.Mangowc.Loop.{
  WaylandCommand, set_tags, set_client_tags, set_layout, get_state, shutdown, Reply, Stage,
  draining, polling, clearing, dispatching, left, is_left, Loop, Io, Action, thread, send, notify,
  begin_drop, drop_sender, act, run, start, serve_command, drain, poll, dispatched, Polled,
  interrupted, poll_failed, ready, advance, enqueue, requested, replied,
}

abbrev with_id : WaylandCommand → List ℕ → List ℕ
with_id (set_tags mask toggle id) ids = id ∷ ids
with_id (set_client_tags and_tags xor_tags id) ids = id ∷ ids
with_id (set_layout index id) ids = id ∷ ids
with_id (get_state id) ids = id ∷ ids
with_id shutdown ids = ids

-- The channels on which replies to these commands are awaited.
abbrev pub awaited : List WaylandCommand → List ℕ
awaited [] = []
awaited (c ∷ cs) = with_id c (awaited cs)

-- The channels that have had their reply, then those of the commands that still wait.
abbrev pub answered : Loop → List ℕ
answered l = map (λ (id, r). id) l.replies ++ awaited l.queue

-- What an action puts into the channel of commands.
abbrev pub accepted : Action → Loop → List WaylandCommand
accepted (send c) l = if is_left l.stage then [] else c ∷ []
accepted a l = []

abbrev pub all_accepted : List Action → Loop → List WaylandCommand
all_accepted [] l = []
all_accepted (a ∷ actions) l = accepted a l ++ all_accepted actions (act a l)

awaited-append : (cs ds : List WaylandCommand) → awaited (cs ++ ds) ≡ awaited cs ++ awaited ds
awaited-append [] ds = refl
awaited-append (set_tags mask toggle id ∷ cs) ds = ap (λ ids. id ∷ ids) (awaited-append cs ds)
awaited-append (set_client_tags a x id ∷ cs) ds = ap (λ ids. id ∷ ids) (awaited-append cs ds)
awaited-append (set_layout index id ∷ cs) ds = ap (λ ids. id ∷ ids) (awaited-append cs ds)
awaited-append (get_state id ∷ cs) ds = ap (λ ids. id ∷ ids) (awaited-append cs ds)
awaited-append (shutdown ∷ cs) ds = awaited-append cs ds

answered-replied :
    (id : ℕ) (r : Reply) (l : Loop)
    → answered (replied id r l) ≡ map (λ (id, r). id) l.replies ++ (id ∷ awaited l.queue)
answered-replied id r l =
    ap (λ ids. ids ++ awaited l.queue) (map-append (λ (id, r). id) l.replies ((id, r) ∷ []))
    ∙ append_assoc (map (λ (id, r). id) l.replies) (id ∷ []) (awaited l.queue)

answered-requested :
    (request : ℕ → Request) (id : ℕ) (m : Result ℕ) (l : Loop)
    → answered (requested request id m l) ≡ map (λ (id, r). id) l.replies ++ (id ∷ awaited l.queue)
answered-requested request id (err e) l = answered-replied id _ l
answered-requested request id (ok output) l = answered-replied id _ l

serve_command-answered :
    (c : WaylandCommand) (l : Loop)
    → is_left (serve_command c l).stage ≡ false
    → answered (serve_command c l) ≡ map (λ (id, r). id) l.replies ++ with_id c (awaited l.queue)
unfolding serve_command
serve_command-answered (set_tags mask toggle id) l h = answered-requested _ id _ l
serve_command-answered (set_client_tags a x id) l h = answered-requested _ id _ l
serve_command-answered (set_layout index id) l h = answered-requested _ id _ l
serve_command-answered (get_state id) l h = answered-replied id _ l
serve_command-answered shutdown l h = cc

drain-answered :
    (queue : List WaylandCommand) (flushed : Result (Unit {0})) (l : Loop)
    → l.queue ≡ queue
    → is_left (drain queue flushed l).stage ≡ false
    → answered (drain queue flushed l) ≡ answered l
drain-answered (c ∷ queue) flushed l q h =
    serve_command-answered c (record l { queue = queue }) h
    ∙ ap (λ cs. map (λ (id, r). id) l.replies ++ awaited cs) (sym q)
drain-answered [] (ok u) l q h =
    elim l.senders
      as (λ b.
        answered (if b then record l { stage = polling } else record l { stage = left (ok tt) })
        ≡ answered l) [ true ↦ refl | false ↦ refl ]
drain-answered [] (err e) l q h =
    elim l.senders
      as (λ b.
        answered
          (if b then record l { stage = left (err e) } else record l { stage = left (ok tt) })
        ≡ answered l) [ true ↦ refl | false ↦ refl ]

poll-answered : (r : Polled) (l : Loop) → answered (poll r l) ≡ answered l
poll-answered interrupted l = refl
poll-answered (poll_failed e) l = refl
poll-answered (ready events) l =
    elim (l.wake || events)
      as (λ b.
        answered (if b then record l { stage = clearing l.wake events } else l) ≡ answered l) [
          | true ↦ refl
          | false ↦ refl
        ]

dispatched-answered :
    (events : Bool) (clock : Option ℕ) (es : Result (List WaylandEvent)) (l : Loop)
    → answered (dispatched events clock es l) ≡ answered l
dispatched-answered false clock es l = refl
dispatched-answered true clock (err e) l = refl
dispatched-answered true clock (ok es) l = refl

advance-answered :
    (io : Io) (s : Stage) (l : Loop)
    → is_left (advance io s l).stage ≡ false
    → answered (advance io s l) ≡ answered l
advance-answered io draining l h = drain-answered l.queue io.flushed l refl h
advance-answered io polling l h = poll-answered io.polled l
advance-answered io (clearing woken events) l h = refl
advance-answered io (dispatching events) l h = dispatched-answered events io.clock io.events l
advance-answered io (left r) l h = refl

enqueue-answered :
    (b : Bool) (c : WaylandCommand) (l : Loop)
    → answered (enqueue b c l) ≡ answered l ++ awaited (if b then [] else c ∷ [])
enqueue-answered true c l = sym (append-nil (answered l))
enqueue-answered false c l =
    ap (λ ids. map (λ (id, r). id) l.replies ++ ids) (awaited-append l.queue (c ∷ []))
    ∙ sym (append_assoc (map (λ (id, r). id) l.replies) (awaited l.queue) (awaited (c ∷ [])))

act-answered :
    (a : Action) (l : Loop)
    → is_left (act a l).stage ≡ false
    → answered (act a l) ≡ answered l ++ awaited (accepted a l)
unfolding act
act-answered (thread io) l h = advance-answered io l.stage l h ∙ sym (append-nil (answered l))
act-answered (send c) l h = enqueue-answered (is_left l.stage) c l
act-answered notify l h =
    elim (nat_eq l.unnotified 0)
      as (λ b.
        answered (if b then l else record l { unnotified = l.unnotified - 1; wake = true })
        ≡ answered l ++ []) [
          | true ↦ sym (append-nil (answered l))
          | false ↦ sym (append-nil (answered l))
        ]
act-answered begin_drop l h = sym (append-nil (answered l))
act-answered drop_sender l h = sym (append-nil (answered l))

-- A thread that has left its loop does not come back.
act-left :
    (a : Action) (l : Loop) (r : Result (Unit {0})) → l.stage ≡ left r → (act a l).stage ≡ left r
unfolding act
act-left (thread io) l r h = subst (λ s. (advance io s l).stage ≡ left r) (sym h) h
act-left (send c) l r h = elim (is_left l.stage) as (λ b. (enqueue b c l).stage ≡ left r) [
  | true ↦ h
  | false ↦ h
]
act-left notify l r h =
    elim (nat_eq l.unnotified 0)
      as (λ b.
        (if b then l else record l { unnotified = l.unnotified - 1; wake = true }).stage ≡ left r) [
          | true ↦ h
          | false ↦ h
        ]
act-left begin_drop l r h = h
act-left drop_sender l r h = h

run-left :
    (actions : List Action) (l : Loop) (r : Result (Unit {0}))
    → l.stage ≡ left r
    → (run actions l).stage ≡ left r
unfolding run
run-left [] l r h = h
run-left (a ∷ actions) l r h = run-left actions (act a l) r (act-left a l r h)

left-cases : (s : Stage) → (is_left s ≡ false) ⊎ ((r : Result (Unit {0})) × (s ≡ left r))
left-cases draining = inl refl
left-cases polling = inl refl
left-cases (clearing w e) = inl refl
left-cases (dispatching e) = inl refl
left-cases (left r) = inr (r, refl)

run-answered_from :
    (actions : List Action) (l : Loop)
    → is_left (run actions l).stage ≡ false
    → answered (run actions l) ≡ answered l ++ awaited (all_accepted actions l)
unfolding run
run-answered_from [] l h = sym (append-nil (answered l))
run-answered_from (a ∷ actions) l h = elim (left-cases (act a l).stage) [
  | inl inside ↦
      run-answered_from actions (act a l) h
      ∙ ap (λ ids. ids ++ awaited (all_accepted actions (act a l))) (act-answered a l inside)
      ∙ append_assoc (answered l) (awaited (accepted a l))
          (awaited (all_accepted actions (act a l)))
      ∙ ap (λ ids. answered l ++ ids)
          (sym (awaited-append (accepted a l) (all_accepted actions (act a l))))
  | inr (r, outside) ↦ cc (run-left actions (act a l) r outside, h)
]

-- As long as the Wayland thread is in its loop, the replies that it has sent, followed by those that are
-- still awaited by the commands in its channel, are those of all commands that were sent, each once and
-- in order.
pub answered-run :
    (actions : List Action) (w : WaylandState)
    → is_left (run actions (start w)).stage ≡ false
    → answered (run actions (start w)) ≡ awaited (all_accepted actions (start w))
answered-run actions w h = run-answered_from actions (start w) h
