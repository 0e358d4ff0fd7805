-- ===== src/Examples/Daemons.antt =====
-- Tests of the lock, the files and the start of a daemon, and the theorems at concrete inputs.
use middlesox.Prelude.{ℕ, String, true, none, some, List, [], ◌∷◌, ◌≡◌, ◌⊎◌, refl, arith}
use middlesox.Control.Lock.{
  turn, acquire, acquired, refused, probe, Action, running, reached, read_daemon_pid, run,
}
use middlesox.Control.Lock.Exclusive.{
  IsExclusive, IsSound, run-IsExclusive, read_daemon_pid-run, probe-IsSound,
}
use middlesox.Control.Files.{Io, Process, Files, symlink, create_listener_at, runtime_dir}
use middlesox.Control.Files.Safe.{
  IsUsable, IsRejected, IsCareful, runtime_dir-IsUsable, create_listener_at-IsCareful,
}

abbrev path : String
path = "/run/user/7/middlesox.lock"

-- Process 7 becomes the daemon.
abbrev first : List Action
first = turn 7 acquire true ∷ turn 7 acquire true ∷ turn 7 acquire true ∷ turn 7 acquire true ∷ []

-- Process 9 comes too late.
abbrev second : List Action
second =
    turn 7 acquire true
    ∷ turn 9 acquire true
    ∷ turn 7 acquire true
    ∷ turn 9 acquire true
    ∷ turn 7 acquire true
    ∷ turn 7 acquire true
    ∷ []

second_is_refused :
    ((reached path second none).stage 7 ≡ running)
    × ((reached path second none).file.holder ≡ some 7)
unfolding run
second_is_refused = (refl, refl)

-- A probe refuses a daemon that starts at the same time.
probe_in_between :
    (reached path
      (turn 9 acquire true
        ∷ turn 9 acquire true
        ∷ turn 9 acquire true
        ∷ turn 9 acquire true
        ∷ turn 9 acquire true
        ∷ turn 5 probe true
        ∷ turn 5 probe true
        ∷ turn 7 acquire true
        ∷ turn 7 acquire true
        ∷ [])
      none).outcomes
    ≡ (9, acquired)
      ∷ (7, refused "Another instance is already running (lock file: /run/user/7/middlesox.lock)")
      ∷ []
unfolding run
probe_in_between = refl

run-IsExclusive_example : IsExclusive (reached path second (some "3\n"))
run-IsExclusive_example = run-IsExclusive path second (some "3\n")

read_daemon_pid-run_example :
    (read_daemon_pid (reached path second none).file ≡ some 7)
    × ((j : ℕ) → (reached path second none).stage j ≡ running → j ≡ 7)
unfolding run
read_daemon_pid-run_example = read_daemon_pid-run path second none 7 (omega arith) refl

-- Process 5 probes while process 7 has the lock.
abbrev probing_now : List Action
probing_now = turn 7 acquire true ∷ turn 7 acquire true ∷ turn 5 probe true ∷ []

probe-IsSound_example : IsSound true 5 (reached path probing_now none)
unfolding run
probe-IsSound_example = probe-IsSound path probing_now none 5 probe true refl

abbrev pub works : Io
works = record { create = none; chmod = none; read = none; unlink = none; bind = none }

abbrev someone : Process
someone = record { uid = 1000; pid = 7; xdg_runtime_dir = none }

abbrev attacked : Files
attacked = ("/tmp/middlesox-1000", record { kind = symlink; owner = 66; mode = none }) ∷ []

attacked_dir : (runtime_dir works someone attacked).0 ≡ "/run/middlesox-rejected-7"
unfolding runtime_dir
attacked_dir = refl

runtime_dir-IsUsable_example :
    IsUsable someone (runtime_dir works someone attacked)
    ⊎ IsRejected someone attacked (runtime_dir works someone attacked)
runtime_dir-IsUsable_example = runtime_dir-IsUsable works someone attacked refl refl refl

create_listener_at-IsCareful_example :
    IsCareful 1000 "/tmp/middlesox-1000" attacked
      (create_listener_at works 1000 "/tmp/middlesox-1000" attacked)
create_listener_at-IsCareful_example =
    create_listener_at-IsCareful works 1000 "/tmp/middlesox-1000" attacked
