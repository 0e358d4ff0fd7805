-- ===== src/Daemon/Laws.antt =====
-- How the daemon ends.
use middlesox.Prelude.{
  ◌≡◌, refl, ap, ◌↔◌, inl, inr, Option-cases, ◌∙◌, String, Bool, true, false, Option, none, some,
  List, [], ◌∷◌, Result, ok, err, arith,
}
use middlesox.Config.{Config}
use middlesox.Control.{ControlRequest, stop}
use middlesox.Adapter.{ProtocolAdapter}
use middlesox.Handle.{Actor, Input, call_shutdown}
use middlesox.Scripts.{Host}
use middlesox.Daemon.{
  Signal, event, accept, external_shutdown, control_shutdown, Loop, start, on_signal, run_loop,
  combine, run, handle_control_client, left, is_stop, finish,
}

-- What a signal that leaves the loop leaves in `run_result`.
abbrev pub outcome : Signal → Option (Result (Unit {0}))
outcome (event (some e)) = none
outcome (event none) = some (err "adapter event stream ended unexpectedly")
outcome (accept (ok client)) = none
outcome (accept (err e)) = some (err e)
outcome external_shutdown = some (ok tt)
outcome control_shutdown = some (ok tt)

abbrev pub first_outcome : List Signal → Option (Result (Unit {0}))
first_outcome [] = none
first_outcome (s ∷ ss) = elim (outcome s) [ none ↦ first_outcome ss | some r ↦ some r ]

stop-eq_of_is_stop : (r : ControlRequest) → is_stop r ≡ true → r ≡ stop
stop-eq_of_is_stop r h = ground arith

combine-eq-ok : (r t : Result (Unit {0})) → combine r t ≡ ok tt → (r ≡ ok tt) × (t ≡ ok tt)
unfolding combine
combine-eq-ok (ok u) (ok v) h = (refl, refl)
combine-eq-ok (err x) (ok v) h = cc
combine-eq-ok (ok u) (err y) h = cc
combine-eq-ok (err x) (err y) h = cc

module _ {S : Type 0} (a : ProtocolAdapter S) (host : Host S) (c : Config) (dir : String) where
  -- A stop is passed on exactly when the request was to stop, its response was written and the
  -- shutdown sender was still there. The sender is there afterwards exactly when it was there before
  -- and no stop was passed on, so that at most one stop is passed on by all clients.
  pub handle_control_client-stop :
      (before between : List Input) (r : Result ControlRequest) (written : Result (Unit {0}))
      (sender : Bool) (s : Actor S)
      → let served = handle_control_client a host c dir before between r written sender s in
        ((served.stop_sent ≡ true) ↔ ((r ≡ ok stop) × (written ≡ ok tt) × (sender ≡ true)))
        × ((served.sender_left ≡ true) ↔ ((sender ≡ true) × (served.stop_sent ≡ false)))
  unfolding handle_control_client
  handle_control_client-stop before between (ok r) (ok u) sender s = (
    (
      λ h. (ap ok (stop-eq_of_is_stop r (ground arith)), refl, ground arith),
      λ (e, w, t). ground arith,
    ),
    (λ h. ground arith, λ (t, n). ground arith),
  )
  handle_control_client-stop before between (err x) written sender s =
      ((λ h. cc, λ (e, w, t). cc), (λ h. (h, refl), λ (t, n). t))
  handle_control_client-stop before between (ok r) (err x) sender s =
      ((λ h. cc, λ (e, w, t). cc), (λ h. (h, refl), λ (t, n). t))

  run_loop-left : (ss : List Signal) (l : Loop) → left l ≡ true → run_loop a host c dir ss l ≡ l
  unfolding run_loop
  run_loop-left [] l h = refl
  run_loop-left (s ∷ ss) l h = simp h

  on_signal-result :
      (s : Signal) (l : Loop) → l.result ≡ none → (on_signal a host c dir s l).result ≡ outcome s
  unfolding on_signal
  on_signal-result s l h = ground arith

  -- The main loop reports what the first signal that leaves it says: an error if the event stream
  -- ended or the control socket failed, success for a request to stop from outside or from a
  -- client; it has no result while no such signal came.
  pub run_loop-result :
      (ss : List Signal) (l : Loop)
      → l.result ≡ none
      → (run_loop a host c dir ss l).result ≡ first_outcome ss
  unfolding run_loop
  run_loop-result [] l h = h
  run_loop-result (s ∷ ss) l h =
      let l' = on_signal a host c dir s l in
      let e : l'.result ≡ outcome s = on_signal-result s l h in
      elim (Option-cases (outcome s)) [
        | inl q ↦ ground (arith, run_loop-result ss (on_signal a host c dir s l) (e ∙ q))
        | inr (r, q) ↦ ground (arith, run_loop-left ss (on_signal a host c dir s l), e)
      ]

  finish_ok_iff :
      (before : List Input) (o : Option (Result (Unit {0}))) (s : Actor S)
      → ((finish a host c dir before o s).0 ≡ some (ok tt))
        ↔ ((o ≡ some (ok tt)) × ((call_shutdown a before s).0 ≡ ok tt))
  unfolding combine
  finish_ok_iff before none s = (λ h. cc, λ (h, k). cc)
  finish_ok_iff before (some r) s = (
    λ h. let (p, q) = combine-eq-ok r (call_shutdown a before s).0 (ground arith) in (ap some p, q),
    λ (h, k). ground arith,
  )

  -- The daemon ends well exactly when the first signal that leaves the loop is a request to stop
  -- and the adapter shuts down without an error.
  pub run_ok_iff :
      (before : List Input) (ss : List Signal) (s : Actor S)
      → ((run a host c dir before ss s).0 ≡ some (ok tt))
        ↔ ((first_outcome ss ≡ some (ok tt)) × ((call_shutdown a before s).0 ≡ ok tt))
  unfolding run start
  run_ok_iff before ss s =
      rw (run_loop-result ss start refl) (finish_ok_iff before (first_outcome ss) s)
