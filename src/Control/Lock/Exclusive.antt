-- ===== src/Control/Lock/Exclusive.antt =====
-- middlesox/src/control.rs: one daemon at a time, whatever the processes do and in whatever order.
use middlesox.Prelude.{
  ℕ, ◌≤◌, String, Bool, true, false, Option, none, some, List, [], ◌∷◌, ◌≡◌, ◌≢◌, ◌↔◌, refl, ap,
  ◌∙◌, ◌<>◌, show_nat, parse_u32, arith, u32_max, trim-show_nat, parse_u32-show_nat,
}
use mathlib.Core.Path.{subst}
use middlesox.Control.Lock.{
  LockFile, Stage, idle, opened, locked, emptied, running, probing, probed, begin_probe, overwrite,
  or_new, flock, refused, Call, acquire, probe, is_running, advance, System, Action, turn, die,
  set_stage, has_lock, closed, act, run, start, reached, read_daemon_pid,
}

-- What the stage of process `j` says of the file.
abbrev Fits : ℕ → Stage → LockFile → Type 0
Fits j running f = f.text ≡ some (show_nat j <> "\n")
Fits j emptied f = f.text ≡ some ""
Fits j idle f = Unit
Fits j st f = f.text ≢ none

-- The lock is held by exactly the process that has come past `flock` and has not closed the file; a
-- running daemon's id is the text of the file; a file that was opened is there.
pub record IsExclusive (s : System) : Type 0 where
  pub held : (j : ℕ) → (has_lock (s.stage j) ≡ true) ↔ (s.file.holder ≡ some j)
  pub written : (j : ℕ) → Fits j (s.stage j) s.file

overwrite-empty : (new : String) → overwrite new "" ≡ new
unfolding overwrite
overwrite-empty String.[] = refl
overwrite-empty (String.◌∷◌ c new) = refl

-- What is written to an empty file is all that it holds.
overwritten : (new : String) (m : Option String) → m ≡ some "" → overwrite new (or_new m) ≡ new
overwritten new m e = rw e (overwrite-empty new)

module _ (path : String) (i : ℕ) (s : System) (inv : IsExclusive s) where
  advance-held :
      (call : Call) (io : Bool) (st : Stage)
      → s.stage i ≡ st
      → (j : ℕ)
      → (has_lock (set_stage s.stage i (advance path i call io st s.file).stage j) ≡ true)
        ↔ ((advance path i call io st s.file).file.holder ≡ some j)
  unfolding advance
  advance-held acquire true idle e j = ground (arith, inv.held i, inv.held j)
  advance-held acquire false idle e j = ground (arith, inv.held i, inv.held j)
  advance-held probe io idle e j = ground (arith, inv.held i, inv.held j)
  advance-held call io opened e j = ground (arith, inv.held i, inv.held j)
  advance-held call true locked e j = ground (arith, inv.held i, inv.held j)
  advance-held call false locked e j = ground (arith, inv.held i, inv.held j)
  advance-held call true emptied e j = ground (arith, inv.held i, inv.held j)
  advance-held call false emptied e j = ground (arith, inv.held i, inv.held j)
  advance-held call io running e j = ground (arith, inv.held i, inv.held j)
  advance-held call io probing e j = ground (arith, inv.held i, inv.held j)
  advance-held call io probed e j = ground (arith, inv.held i, inv.held j)

  advance-written :
      (call : Call) (io : Bool) (st : Stage)
      → s.stage i ≡ st
      → (j : ℕ)
      → let t = advance path i call io st s.file in Fits j (set_stage s.stage i t.stage j) t.file
  unfolding advance
  advance-written acquire true idle e j = ground (arith, inv.written j)
  advance-written acquire false idle e j = ground (arith, inv.written j)
  advance-written probe io idle e j = ground (arith, inv.written j)
  advance-written call io opened e j = ground (arith, inv.written i, inv.written j)
  advance-written call true locked e j =
      ground (arith, inv.written i, inv.written j, inv.held i, inv.held j)
  advance-written call false locked e j = ground (arith, inv.written j)
  advance-written call true emptied e j =
      let at = subst (λ st. Fits i st s.file) e (inv.written i) in
      ground (
        arith,
        overwritten (show_nat i <> "\n") s.file.text at,
        inv.written j,
        inv.held i,
        inv.held j,
      )
  advance-written call false emptied e j = ground (arith, inv.written j)
  advance-written call io running e j = ground (arith, inv.written j)
  advance-written call io probing e j = ground (arith, inv.written i, inv.written j)
  advance-written call io probed e j = ground (arith, inv.written j)

  die-held :
      (st : Stage)
      → s.stage i ≡ st
      → (j : ℕ)
      → (has_lock (set_stage s.stage i idle j) ≡ true) ↔ ((closed st s.file).holder ≡ some j)
  die-held st e j = ground (arith, inv.held i, inv.held j)

  die-written :
      (st : Stage)
      → s.stage i ≡ st
      → (j : ℕ) → Fits j (set_stage s.stage i idle j) (closed st s.file)
  die-written st e j = ground (arith, inv.written j)

act-IsExclusive :
    (path : String) (a : Action) (s : System) → IsExclusive s → IsExclusive (act path a s)
unfolding act
act-IsExclusive path (turn i call io) s inv = record {
  held = advance-held path i s inv call io (s.stage i) refl;
  written = advance-written path i s inv call io (s.stage i) refl;
}
act-IsExclusive path (die i) s inv = record {
  held = die-held path i s inv (s.stage i) refl;
  written = die-written path i s inv (s.stage i) refl;
}

run-keeps :
    (path : String) (actions : List Action) (s : System)
    → IsExclusive s
    → IsExclusive (run path actions s)
unfolding run
run-keeps path [] s inv = inv
run-keeps path (a ∷ actions) s inv =
    run-keeps path actions (act path a s) (act-IsExclusive path a s inv)

-- Whatever processes start, probe, fail and die in whatever order, the lock is held by exactly the one
-- process, if any, that has taken it and not closed the file, and the file of a running daemon holds
-- its process id.
pub run-IsExclusive :
    (path : String) (actions : List Action) (text : Option String)
    → IsExclusive (reached path actions text)
run-IsExclusive path actions text =
    run-keeps path actions (start text) (record { held = λ j. ground arith; written = λ j. tt })

read_daemon_pid_of_text :
    (f : LockFile) (i : ℕ)
    → i ≤ u32_max
    → f.text ≡ some (show_nat i <> "\n")
    → read_daemon_pid f ≡ some i
unfolding read_daemon_pid
read_daemon_pid_of_text f i fits h =
    rw h (ap parse_u32 (trim-show_nat i) ∙ parse_u32-show_nat i fits)

-- At most one process is a running daemon, and `read_daemon_pid` then gives its process id.
pub read_daemon_pid-run :
    (path : String) (actions : List Action) (text : Option String) (i : ℕ)
    → i ≤ u32_max
    → (reached path actions text).stage i ≡ running
    → (read_daemon_pid (reached path actions text).file ≡ some i)
      × ((j : ℕ) → (reached path actions text).stage j ≡ running → j ≡ i)
unfolding read_daemon_pid
read_daemon_pid-run path actions text i fits e =
    let s = reached path actions text in
    let inv = run-IsExclusive path actions text in
    (
      read_daemon_pid_of_text s.file i fits (subst (λ st. Fits i st s.file) e (inv.written i)),
      λ j f. ground (arith, inv.held i, inv.held j),
    )

-- What an answer says of the processes.
abbrev pub IsSound : (answer : Bool) → ℕ → System → Type 0
IsSound true i s = (j : ℕ) × (j ≢ i) × (has_lock (s.stage j) ≡ true)
IsSound false i s = (j : ℕ) → s.stage j ≢ running

module _ (path : String) (i : ℕ) (s : System) (inv : IsExclusive s) where
  idle-IsSound :
      (text : Option String)
      → s.file.text ≡ text
      → (b : Bool) → (begin_probe text true s.file).outcome ≡ some (is_running b)
      → IsSound b i s
  idle-IsSound none h true e = cc
  idle-IsSound none h false e = λ j r. ground (arith, inv.written j)
  idle-IsSound (some text) h b e = cc

  probing-IsSound :
      (holder : Option ℕ)
      → s.file.holder ≡ holder
      → s.stage i ≡ probing
      → (b : Bool)
      → (flock i holder true probed (is_running true) s.file).outcome ≡ some (is_running b)
      → IsSound b i s
  probing-IsSound none h at b e = cc
  probing-IsSound (some j) h at true e = (j, λ same. ground (arith, inv.held j), (inv.held j).1 h)
  probing-IsSound (some j) h at false e = cc

  opened-IsSound :
      (holder : Option ℕ) (error : String) (b : Bool)
      → (flock i holder true locked (refused error) s.file).outcome ≡ some (is_running b)
      → IsSound b i s
  opened-IsSound none error b e = cc
  opened-IsSound (some j) error b e = cc

  advance-IsSound :
      (call : Call) (st : Stage)
      → s.stage i ≡ st
      → (b : Bool) → (advance path i call true st s.file).outcome ≡ some (is_running b)
      → IsSound b i s
  unfolding advance
  advance-IsSound acquire idle at b e = cc
  advance-IsSound probe idle at b e = idle-IsSound s.file.text refl b e
  advance-IsSound call opened at b e = opened-IsSound s.file.holder _ b e
  advance-IsSound call locked at b e = cc
  advance-IsSound call emptied at b e = cc
  advance-IsSound call running at b e = cc
  advance-IsSound call probing at b e = probing-IsSound s.file.holder refl at b e
  advance-IsSound call probed at true e = cc
  advance-IsSound call probed at false e = λ j r. ground (arith, inv.held i, inv.held j)

-- When `is_daemon_running` answers no, and its system calls work, no process is a running daemon; when
-- it answers yes, another process has the lock: a daemon, one that starts or ends, or another probe.
pub probe-IsSound :
    (path : String) (actions : List Action) (text : Option String) (i : ℕ) (call : Call) (b : Bool)
    → (advance path i call true
        ((reached path actions text).stage i)
        (reached path actions text).file).outcome
      ≡ some (is_running b)
    → IsSound b i (reached path actions text)
probe-IsSound path actions text i call b e =
    advance-IsSound path i (reached path actions text) (run-IsExclusive path actions text) call _
      refl b e
