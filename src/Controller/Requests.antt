-- ===== src/Controller/Requests.antt =====
-- What the control requests answer, and what they do to the adapter.
use middlesox.Prelude.{
  ◌≡◌, ◌≢◌, ◌↔◌, ◌⊎◌, refl, String, true, false, Option, none, some, List, map, arith, Result, ok,
  err, ◌<>◌, Bool-cases, inl, inr, append-ne-empty, eq_iff,
}
use middlesox.Json.{Value, string, array, to_items}
use middlesox.Dynamic.{Dynamic}
use middlesox.Capability.{Capability, is_writable}
use middlesox.Manifest.{CapabilityManifest, find_cap}
use middlesox.Config.{Config, Command, command_by_name}
use middlesox.Control.{ControlRequest, ControlResponse, respond_ok, respond_empty, respond_err}
use middlesox.Adapter.{ProtocolAdapter}
use middlesox.Handle.{Actor, Input, run, step, receive, manifest, call_get, call_manifest, call_set}
use middlesox.Handle.Calls.{call_manifest_running}
use middlesox.Engine.{dynamic_to_json, checked_set, script_set, set_message, with_manifest}
use middlesox.Engine.Policy.{IsWritable}
use middlesox.Scripts.{Host, execute_script}
use middlesox.Controller.{
  cap_json, command_json, value_response, script_response, caps_response, exec_command,
  validate_set_key, key_check, manifest_check, handle_control, set_if_valid, empty_response,
}

-- A response says why it failed exactly when it failed, and then has no result.
abbrev pub IsCoherent : ControlResponse → Type 0
IsCoherent r =
    ((r.success ≡ true) × (r.error ≡ none))
    ⊎ ((r.success ≡ false) × (r.result ≡ none) × (r.error ≢ none))

respond_ok-IsCoherent : (v : Value) → IsCoherent (respond_ok v)
unfolding respond_ok
respond_ok-IsCoherent v = inl (refl, refl)

respond_empty-IsCoherent : IsCoherent respond_empty
unfolding respond_empty
respond_empty-IsCoherent = inl (refl, refl)

respond_err-IsCoherent : (e : String) → IsCoherent (respond_err e)
unfolding respond_err
respond_err-IsCoherent e = inr (refl, refl, λ p. cc)

module _ {S : Type 0} where
  value_response-IsCoherent : (p : Result Value × Actor S) → IsCoherent (value_response p).0
  value_response-IsCoherent (ok v, s) = respond_ok-IsCoherent v
  value_response-IsCoherent (err e, s) = respond_err-IsCoherent e

  empty_response-IsCoherent : (p : Result (Unit {0}) × Actor S) → IsCoherent (empty_response p).0
  empty_response-IsCoherent (ok u, s) = respond_empty-IsCoherent
  empty_response-IsCoherent (err e, s) = respond_err-IsCoherent e

  script_response-IsCoherent :
      (p : Result (Option String) × Actor S) → IsCoherent (script_response p).0
  script_response-IsCoherent (ok none, s) = respond_empty-IsCoherent
  script_response-IsCoherent (ok (some out), s) = respond_ok-IsCoherent (string out)
  script_response-IsCoherent (err e, s) = respond_err-IsCoherent e

  caps_response-IsCoherent :
      (p : Result CapabilityManifest × Actor S) → IsCoherent (caps_response p).0
  caps_response-IsCoherent (ok m, s) =
      respond_ok-IsCoherent (array (to_items (map cap_json m.capabilities)))
  caps_response-IsCoherent (err e, s) = respond_err-IsCoherent e

  set_if_valid-IsCoherent :
      (a : ProtocolAdapter S) (between : List Input) (key : String) (v : Value)
      (p : Result (Unit {0}) × Actor S)
      → IsCoherent (set_if_valid a between key v p).0
  set_if_valid-IsCoherent a between key v (ok u, s) =
      empty_response-IsCoherent (call_set a between key v s)
  set_if_valid-IsCoherent a between key v (err e, s) = respond_err-IsCoherent e

module _ {S : Type 0} (a : ProtocolAdapter S) (between : List Input) (key : String) where
  set_if_valid_refused :
      (found : Option Capability) (v : Value) (s : Actor S)
      → ((cap : Capability) → found ≡ some cap → is_writable cap ≡ true → ⊥)
      → ((set_if_valid a between key v (key_check key found, s)).0.success ≡ false)
        × ((set_if_valid a between key v (key_check key found, s)).1 ≡ s)
  unfolding respond_err
  set_if_valid_refused none v s h = (refl, refl)
  set_if_valid_refused (some cap) v s h = elim (Bool-cases (is_writable cap)) [
    | inl w ↦ absurd (h cap refl w)
    | inr r ↦ rw r (refl, refl)
  ]

  empty_response_agrees :
      (p : Result (Unit {0}) × Actor S)
      → ((set_message a p.0 ≡ "") ↔ ((empty_response p).0.success ≡ true))
        × (p.1 ≡ (empty_response p).1)
  unfolding respond_empty respond_err
  empty_response_agrees (ok u, s) = ((λ e. refl, λ e. refl), refl)
  empty_response_agrees (err e, s) = (
    (
      λ m.
          absurd
            (append-ne-empty "adapter error: " e (ground (arith, eq_iff "adapter error: " "")) m),
      λ m. cc,
    ),
    refl,
  )

  checked_set_agrees :
      (found : Option Capability) (v : Dynamic) (s : Actor S)
      → (((checked_set a between key v found s).0 ≡ "") ↔ (
          (set_if_valid a between key (dynamic_to_json v) (key_check key found, s)).0.success
          ≡ true))
        × ((checked_set a between key v found s).1
            ≡ (set_if_valid a between key (dynamic_to_json v) (key_check key found, s)).1)
  unfolding checked_set respond_err
  checked_set_agrees none v s = (
    (
      λ m.
          absurd
            (append-ne-empty "unknown key: " key (ground (arith, eq_iff "unknown key: " "")) m),
      λ m. cc,
    ),
    refl,
  )
  checked_set_agrees (some cap) v s = elim (Bool-cases (is_writable cap)) [
    | inl w ↦ rw w (empty_response_agrees (call_set a between key (dynamic_to_json v) s))
    | inr r ↦ rw r (
      (
        λ m.
            absurd (
              append-ne-empty "read-only key: " key (ground (arith, eq_iff "read-only key: " ""))
                m),
        λ m. cc,
      ),
      refl,
    )
  ]

  with_manifest_agrees :
      (v : Dynamic) (p : Result CapabilityManifest × Actor S)
      → (((with_manifest a between key v p).0 ≡ "") ↔ (
          (set_if_valid a between key (dynamic_to_json v) (manifest_check key p)).0.success ≡ true))
        × ((with_manifest a between key v p).1
            ≡ (set_if_valid a between key (dynamic_to_json v) (manifest_check key p)).1)
  unfolding respond_err
  with_manifest_agrees v (ok m, s) = checked_set_agrees (find_cap m key) v s
  with_manifest_agrees v (err e, s) = (
    (
      λ m. absurd (
          append-ne-empty "failed to get manifest: " e
            (ground (arith, eq_iff "failed to get manifest: " "")) m),
      λ m. cc,
    ),
    refl,
  )

module _ {S : Type 0} (a : ProtocolAdapter S) (host : Host S) (c : Config) (dir : String)
    (before between : List Input) where
  exec_command-IsCoherent :
      (name : String) (found : Option Command) (s : Actor S)
      → IsCoherent (exec_command a host c dir name found s).0
  exec_command-IsCoherent name none s = respond_err-IsCoherent ("Unknown command: " <> name)
  exec_command-IsCoherent name (some cmd) s =
      script_response-IsCoherent (execute_script host c.settings.script_env dir cmd.script s)

  -- Every response to every request says why it failed exactly when it failed, and a failure
  -- carries no result.
  pub handle_control-IsCoherent :
      (r : ControlRequest) (s : Actor S)
      → IsCoherent (handle_control a host c dir before between r s).0
  unfolding handle_control
  handle_control-IsCoherent (ControlRequest.get key) s =
      value_response-IsCoherent (call_get a before key s)
  handle_control-IsCoherent (ControlRequest.set key v) s =
      set_if_valid-IsCoherent a between key v (validate_set_key a before key s)
  handle_control-IsCoherent (ControlRequest.exec name) s =
      exec_command-IsCoherent name (command_by_name c name) s
  handle_control-IsCoherent ControlRequest.caps s =
      caps_response-IsCoherent (call_manifest a before s)
  handle_control-IsCoherent ControlRequest.commands s =
      respond_ok-IsCoherent (array (to_items (map command_json c.command)))
  handle_control-IsCoherent ControlRequest.status s = respond_ok-IsCoherent _
  handle_control-IsCoherent ControlRequest.stop s = respond_empty-IsCoherent

  -- A `set` of a key that the manifest does not declare writable fails, and all that the running
  -- actor does for it is to answer the manifest: the adapter's `set` is not reached.
  pub handle_control-set_refused :
      (key : String) (v : Value) (s : Actor S)
      → s.live ≡ true
      → (run a before s).live ≡ true
      → ¬ IsWritable (a.manifest (run a before s).adapter) key
      → let (r, s') = handle_control a host c dir before between (ControlRequest.set key v) s in
        (r.success ≡ false) × (s' ≡ step a (receive (some (manifest 0))) (run a before s))
  unfolding handle_control
  handle_control-set_refused key v s up still refused =
      rw (call_manifest_running a before s up still) (
        set_if_valid_refused a between key (find_cap (a.manifest (run a before s).adapter) key) v
          (step a (receive (some (manifest 0))) (run a before s)) (λ cap e w. refused (cap, e, w)))

  -- The two ways to set a value obey one policy: a script's `set` reports no error exactly when the
  -- request of a client succeeds, and both leave the actor in the same state.
  pub script_set-agrees-handle_control :
      (key : String) (v : Dynamic) (s : Actor S)
      → let (m, s') = script_set a before between key v s in
        let (r, s'') =
          handle_control a host c dir before between
            (ControlRequest.set key (dynamic_to_json v))
            s in
        ((m ≡ "") ↔ (r.success ≡ true)) × (s' ≡ s'')
  unfolding handle_control script_set
  script_set-agrees-handle_control key v s =
      with_manifest_agrees a between key v (call_manifest a before s)
