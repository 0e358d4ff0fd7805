-- ===== src/Scripts/Laws.antt =====
-- What a script is given, and which scripts are started.
use middlesox.Prelude.{
  ◌≡◌, refl, String, Bool, true, false, some, List, [], Result, ok, err, ◌==◌, arith, if◌then◌else◌,
  lookup, lookup-insert, Bool-cases, inl, inr,
}
use middlesox.Event.{RawEvent}
use middlesox.Paths.{has_extension}
use middlesox.Scripts.{
  Host, Process, shell, has_shebang, resolve_script_path, envs, script_environment, event_process,
  shell_launch, run_shell_script, run_script,
}

-- The variables of Middlesox have its values whatever the configuration says, and every other
-- variable has the value that the configuration gives it.
pub lookup-script_environment :
    (script_env : List (String × String)) (event prev curr key : String)
    → lookup key (script_environment script_env event prev curr) ≡ (
        if "MSX_CURR" == key
        then some curr
        else if "MSX_PREV" == key
        then some prev
        else if "MSX_EVENT" == key
        then some event
        else lookup key (envs script_env []))
unfolding script_environment
lookup-script_environment script_env event prev curr key = simp lookup-insert

-- What must hold of the path before a program is started.
pub record IsRunnable {S : Type 0} (host : Host S) (path : String) : Type 0 where
  pub found : host.exists path ≡ true
  pub not_rhai : has_extension "rhai" path ≡ false
  pub marked : has_extension "sh" path ≡ true → has_shebang (host.read_bytes path) ≡ ok true

module _ {S : Type 0} (host : Host S) (script_env : List (String × String)) (e : RawEvent) where
  shell_launch-shell :
      (path : String) (marked : Result Bool) (p : Process)
      → shell_launch host script_env path e marked ≡ shell p
      → (marked ≡ ok true) × (p ≡ event_process host script_env path e)
  shell_launch-shell path (ok true) p h = (refl, cc)
  shell_launch-shell path (ok false) p h = cc
  shell_launch-shell path (err x) p h = cc

  run_shell_script-shell :
      (path : String) (p : Process)
      → run_shell_script host script_env path e ≡ shell p
      → (has_extension "sh" path ≡ true → has_shebang (host.read_bytes path) ≡ ok true)
        × (p ≡ event_process host script_env path e)
  unfolding run_shell_script
  run_shell_script-shell path p h = elim (Bool-cases (has_extension "sh" path)) [
    | inl sh ↦
        let (marked, same) =
          shell_launch-shell path (has_shebang (host.read_bytes path)) p (rw sh at h) in
        (λ s. marked, same)
    | inr plain ↦ (λ s. cc, ground arith)
  ]

  -- A program is started for an event only if its file exists, is no Rhai script, and starts with
  -- "#!" if it is named *.sh; it is the file that the watch names, with the event in its
  -- environment.
  pub run_script-shell :
      (dir name : String) (p : Process)
      → run_script host script_env dir name e ≡ shell p
      → IsRunnable host (resolve_script_path dir name)
        × (p ≡ event_process host script_env (resolve_script_path dir name) e)
  unfolding run_script
  run_script-shell dir name p h =
      let path = resolve_script_path dir name in
      elim (Bool-cases (host.exists path)) [
        | inr absent ↦ cc (absent)
        | inl found ↦ elim (Bool-cases (has_extension "rhai" path)) [
          | inl rhai ↦ ground arith
          | inr other ↦
              let (marked, same) = run_shell_script-shell path p (ground arith) in
              (record { found = found; not_rhai = other; marked = marked }, same)
        ]
      ]
