-- ===== src/Handle/Calls.antt =====
-- The methods of the handle while the actor is running.
use middlesox.Prelude.{◌≡◌, String, true, some, List, ok}
use middlesox.Json.{Value}
use middlesox.Adapter.{ProtocolAdapter}
use middlesox.Handle.{Actor, Input, receive, set, manifest, step, run, call_manifest, call_set}

module _ {S : Type 0} (a : ProtocolAdapter S) (before : List Input) (s : Actor S)
    (up : s.live ≡ true) (still : (run a before s).live ≡ true) where
  pub call_manifest_running : call_manifest a before s ≡ (
    ok (a.manifest (run a before s).adapter),
    step a (receive (some (manifest 0))) (run a before s),
  )
  unfolding call_manifest
  call_manifest_running = simp (up, still)

  pub call_set_running :
      (key : String) (v : Value)
      → call_set a before key v s ≡ (
        (a.set key v (run a before s).adapter).0,
        step a (receive (some (set key v 0))) (run a before s),
      )
  unfolding call_set
  call_set_running key v = simp (up, still)
