-- ===== src/Handle/Replies.antt =====
-- Which commands are answered, and what is left once the actor has stopped.
use middlesox.Prelude.{
  ℕ, ◌≡◌, refl, ◌∙◌, sym, true, false, none, some, List, [], ◌∷◌, ◌++◌, map, append-nil, ok, arith,
  Bool-cases, inl, inr,
}
use middlesox.Adapter.{ProtocolAdapter}
use middlesox.Handle.{
  Actor, Input, next, receive, AdapterCommand, get, set, manifest, shutdown, step, run,
  call_shutdown, Reply,
}

abbrev pub reply_of : AdapterCommand → ℕ
reply_of (get key id) = id
reply_of (set key v id) = id
reply_of (manifest id) = id
reply_of (shutdown id) = id

-- The reply channels of the commands among the inputs, in order.
abbrev pub requested : List Input → List ℕ
requested [] = []
requested (next receiving ∷ is) = requested is
requested (receive none ∷ is) = requested is
requested (receive (some c) ∷ is) = reply_of c ∷ requested is

abbrev pub answered : {S : Type 0} → Actor S → List ℕ
answered s = map (λ (r : ℕ × Reply). r.0) s.replies

module _ {S : Type 0} (a : ProtocolAdapter S) where
  step_stopped : (i : Input) (s : Actor S) → s.live ≡ false → step a i s ≡ s
  unfolding step
  step_stopped (next receiving) s h = rw h
  step_stopped (receive c) s h = rw h

  -- An actor that has left its loop takes no further event, command or reply.
  pub run_stopped : (is : List Input) (s : Actor S) → s.live ≡ false → run a is s ≡ s
  unfolding run
  run_stopped [] s h = refl
  run_stopped (i ∷ is) s h = rw (step_stopped i s h) (run_stopped is s h)

  live_before : (is : List Input) (s : Actor S) → (run a is s).live ≡ true → s.live ≡ true
  live_before is s h = elim (Bool-cases s.live) [
    | inl up ↦ up
    | inr down ↦ ground (arith, run_stopped is s down)
  ]

  answer-append :
      (rs : List (ℕ × Reply)) (id : ℕ) (r : Reply) (rest : List ℕ)
      → map (λ (x : ℕ × Reply). x.0) (rs ++ (id, r) ∷ []) ++ rest
        ≡ map (λ (x : ℕ × Reply). x.0) rs ++ id ∷ rest
  answer-append [] id r rest = refl
  answer-append (x ∷ rs) id r rest = rw (answer-append rs id r rest)

  step-answered :
      (i : Input) (is : List Input) (s : Actor S)
      → (step a i s).live ≡ true
      → s.live ≡ true
      → answered (step a i s) ++ requested is ≡ answered s ++ requested (i ∷ is)
  unfolding step
  step-answered (next receiving) is s h l = ground arith
  step-answered (receive none) is s h l = ground arith
  step-answered (receive (some (get key id))) is s h l =
      rw l (answer-append s.replies id (Reply.value (a.get key s.adapter).0) (requested is))
  step-answered (receive (some (set key v id))) is s h l =
      rw l (answer-append s.replies id (Reply.done (a.set key v s.adapter).0) (requested is))
  step-answered (receive (some (manifest id))) is s h l =
      rw l (answer-append s.replies id (Reply.caps (a.manifest s.adapter)) (requested is))
  step-answered (receive (some (shutdown id))) is s h l = ground arith

  -- While the task is still running, every command that it has received has been answered once,
  -- in the order of their arrival, and nothing else has been sent.
  pub run-answered :
      (is : List Input) (s : Actor S)
      → (run a is s).live ≡ true
      → answered (run a is s) ≡ answered s ++ requested is
  unfolding run
  run-answered [] s h = sym (append-nil _)
  run-answered (i ∷ is) s h =
      let up = live_before is (step a i s) h in
      run-answered is (step a i s) h ∙ step-answered i is s up (live_before (i ∷ is) s h)

  call_shutdown_live :
      (before : List Input) (s : Actor S) → (call_shutdown a before s).1.live ≡ false
  unfolding call_shutdown step
  call_shutdown_live before s = ground arith

  call_shutdown_stopped :
      (before : List Input) (s : Actor S) → s.live ≡ false → call_shutdown a before s ≡ (ok tt, s)
  unfolding call_shutdown
  call_shutdown_stopped before s h = ground arith

  -- Shutting down twice is harmless: after the first call the actor is stopped, and the second one
  -- reports success and changes nothing.
  pub call_shutdown_twice :
      (before again : List Input) (s : Actor S)
      → ((call_shutdown a before s).1.live ≡ false)
        × (call_shutdown a again (call_shutdown a before s).1
            ≡ (ok tt, (call_shutdown a before s).1))
  call_shutdown_twice before again s =
      let down = call_shutdown_live before s in
      (down, call_shutdown_stopped again (call_shutdown a before s).1 down)
