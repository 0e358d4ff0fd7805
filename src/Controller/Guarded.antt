-- ===== src/Controller/Guarded.antt =====
-- middlesox/src/controller.rs: what the adapter keeps under the writable keys, it keeps under every
-- control request, and under every Rhai script that an event starts.
use middlesox.Prelude.{
  ◌≡◌, refl, sym, ap, String, Option, none, some, List, Result, ok, err, Bool-cases, inl, inr,
}
use middlesox.Json.{Value}
use middlesox.Dynamic.{Dynamic}
use middlesox.Capability.{Capability, is_writable}
use middlesox.Manifest.{CapabilityManifest, find_cap}
use middlesox.Config.{Config, Command, command_by_name}
use middlesox.Control.{ControlRequest}
use middlesox.Adapter.{ProtocolAdapter}
use middlesox.Handle.{Actor, Input, call_get, call_set, call_manifest}
use middlesox.Handle.Invariant.{Preserves, AllAllowed}
use middlesox.Engine.Policy.{IsWritable}
use middlesox.Engine.Run.{Rhai, Schedule, eval_with_scope, execute_file}
use middlesox.Engine.Guarded.{
  IsCalm, call_get-P, call_set-P, manifest-P, call_manifest-fixed, execute_file-P,
}
use middlesox.Paths.{has_extension}
use middlesox.Scripts.{Host, execute_script, resolve_script_path, shown_result}
use middlesox.Controller.{
  value_response, empty_response, script_response, caps_response, exec_command, key_check,
  manifest_check, set_if_valid, validate_set_key, handle_control,
}

-- The host whose Rhai scripts are run by the engine.
abbrev pub with_engine : {S : Type 0} → ProtocolAdapter S → Rhai → Schedule → Host S → Host S
with_engine a rhai schedule host = record host { eval = eval_with_scope a rhai schedule }

module _ {S : Type 0} (P : S → Type 0) where
  value_response-P : (r : Result Value × Actor S) → P r.1.adapter → P (value_response r).1.adapter
  value_response-P (ok v, s) h = h
  value_response-P (err e, s) h = h

  empty_response-P :
      (r : Result (Unit {0}) × Actor S) → P r.1.adapter → P (empty_response r).1.adapter
  empty_response-P (ok u, s) h = h
  empty_response-P (err e, s) h = h

  script_response-P :
      (r : Result (Option String) × Actor S) → P r.1.adapter → P (script_response r).1.adapter
  script_response-P (ok none, s) h = h
  script_response-P (ok (some out), s) h = h
  script_response-P (err e, s) h = h

  caps_response-P :
      (r : Result CapabilityManifest × Actor S) → P r.1.adapter → P (caps_response r).1.adapter
  caps_response-P (ok m, s) h = h
  caps_response-P (err e, s) h = h

  shown_result-P :
      (host : Host S) (env : List (String × String)) (r : Result Dynamic × Actor S)
      → P r.1.adapter
      → P (shown_result host env r).1.adapter
  shown_result-P host env (ok d, s) h = h
  shown_result-P host env (err e, s) h = h

module _ {S : Type 0} {a : ProtocolAdapter S} (m : CapabilityManifest) {P : S → Type 0}
    (p : Preserves a (IsWritable m) P) (fixed : (s : S) → a.manifest s ≡ m) where
  set_if_valid-P :
      (between : List Input)
      → AllAllowed (IsWritable m) between
      → (key : String) (v : Value) (found : Option Capability) → find_cap m key ≡ found
      → (s : Actor S) → P s.adapter
      → P (set_if_valid a between key v (key_check key found, s)).1.adapter
  set_if_valid-P between ours key v none e s h = h
  set_if_valid-P between ours key v (some cap) e s h = elim (Bool-cases (is_writable cap)) [
    | inl w ↦ simp w (
        empty_response-P P (call_set a between key v s)
          (call_set-P p between ours s h key v (cap, e, w)))
    | inr r ↦ simp r h
  ]

  manifest_check-P :
      (between : List Input)
      → AllAllowed (IsWritable m) between
      → (key : String) (v : Value) (r : Result CapabilityManifest × Actor S)
      → ((m' : CapabilityManifest) → r.0 ≡ ok m' → m' ≡ m)
      → P r.1.adapter
      → P (set_if_valid a between key v (manifest_check key r)).1.adapter
  manifest_check-P between ours key v (err e, s) same h = h
  manifest_check-P between ours key v (ok m', s) same h =
      set_if_valid-P between ours key v (find_cap m' key)
        (sym (ap (λ m''. find_cap m'' key) (same m' refl))) s h

module _ {S : Type 0} {a : ProtocolAdapter S} (m : CapabilityManifest) {P : S → Type 0}
    (p : Preserves a (IsWritable m) P) (fixed : (s : S) → a.manifest s ≡ m) (schedule : Schedule)
    (calm : IsCalm m schedule) (rhai : Rhai) (host : Host S) where
  execute_script-P :
      (env : List (String × String)) (dir : String) (name : String) (s : Actor S)
      → P s.adapter
      → P (execute_script (with_engine a rhai schedule host) env dir name s).1.adapter
  unfolding execute_script
  execute_script-P env dir name s h =
      elim (Bool-cases (host.exists (resolve_script_path dir name))) [
        | inl there ↦ elim (Bool-cases (has_extension "rhai" (resolve_script_path dir name))) [
          | inl script ↦
              simp (there, script)
                (shown_result-P P (with_engine a rhai schedule host) env
                  (execute_file (eval_with_scope a rhai schedule)
                    (host.read_text (resolve_script_path dir name)) s)
                  (execute_file-P m p fixed schedule calm rhai
                    (host.read_text (resolve_script_path dir name)) s h))
          | inr shell ↦ simp (there, shell) h
        ]
        | inr missing ↦ simp missing h
      ]

  exec_command-P :
      (c : Config) (dir : String) (name : String) (found : Option Command) (s : Actor S)
      → P s.adapter
      → P (exec_command a (with_engine a rhai schedule host) c dir name found s).1.adapter
  exec_command-P c dir name none s h = h
  exec_command-P c dir name (some cmd) s h =
      script_response-P P
        (execute_script (with_engine a rhai schedule host) c.settings.script_env dir cmd.script s)
        (execute_script-P c.settings.script_env dir cmd.script s h)

  pub handle_control-P :
      (c : Config) (dir : String) (before : List Input)
      → AllAllowed (IsWritable m) before
      → (between : List Input) → AllAllowed (IsWritable m) between
      → (r : ControlRequest) (s : Actor S) → P s.adapter
      → P (handle_control a (with_engine a rhai schedule host) c dir before between r s).1.adapter
  unfolding handle_control validate_set_key
  handle_control-P c dir before ours between theirs (ControlRequest.get key) s h =
      value_response-P P (call_get a before key s) (call_get-P p before ours s h key)
  handle_control-P c dir before ours between theirs (ControlRequest.set key v) s h =
      manifest_check-P m p fixed between theirs key v (call_manifest a before s)
        (call_manifest-fixed m p fixed before s) (manifest-P p before ours s h _ refl)
  handle_control-P c dir before ours between theirs (ControlRequest.exec name) s h =
      exec_command-P c dir name (command_by_name c name) s h
  handle_control-P c dir before ours between theirs ControlRequest.caps s h =
      caps_response-P P (call_manifest a before s) (manifest-P p before ours s h _ refl)
  handle_control-P c dir before ours between theirs ControlRequest.commands s h = h
  handle_control-P c dir before ours between theirs ControlRequest.status s h = h
  handle_control-P c dir before ours between theirs ControlRequest.stop s h = h
