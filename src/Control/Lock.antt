-- ===== src/Control/Lock.antt =====
-- middlesox/src/control.rs: the lock file that keeps a second daemon away, its probe by `status`, and
-- the process id in it. Any number of processes take turns: one turn is one system call of one of them.
pub mod Exclusive
pub mod Acquire
use middlesox.Prelude.{
  ℕ, String, Bool, true, false, Option, none, some, List, [], ◌∷◌, ◌++◌, ◌<>◌, nat_eq,
  if◌then◌else◌, show_nat, trim, parse_u32, Result, ok, err,
}
use middlesox.Paths.{join}

-- The file at the path of the lock, `text` if it is there, and the process whose `flock` it has.
pub record LockFile : Type 0 where
  pub text : Option String
  pub holder : Option ℕ

-- How far a process has come: in `acquire_lock_in` before the lock, before the truncation and before
-- the writing of its id, as a running daemon, or in `is_daemon_running` before and after its lock.
pub data Stage : Type 0 where
  idle opened locked emptied running probing probed : Stage

pub data Call : Type 0 where
  acquire probe : Call

pub data Outcome : Type 0 where
  acquired : Outcome
  refused : (error : String) → Outcome
  is_running : (answer : Bool) → Outcome

pub record Turn : Type 0 where
  pub file : LockFile
  pub stage : Stage
  pub outcome : Option Outcome

abbrev pub or_new : Option String → String
or_new none = ""
or_new (some text) = text

-- What is written from the start of a file stands before the rest of what was there, a character of
-- the old text for each one that is written.
unfoldable pub overwrite : String → String → String
overwrite String.[] old = old
overwrite (String.◌∷◌ c new) String.[] = String.◌∷◌ c new
overwrite (String.◌∷◌ c new) (String.◌∷◌ d old) = String.◌∷◌ c (overwrite new old)

-- What a process that closes its file leaves: its lock is gone.
abbrev pub unlocked : LockFile → LockFile
unlocked f = record f { holder = none }

abbrev pub begin_probe : Option String → Bool → LockFile → Turn
begin_probe none io f = record { file = f; stage = idle; outcome = some (is_running false) }
begin_probe (some text) true f = record { file = f; stage = probing; outcome = none }
begin_probe (some text) false f = record {
  file = f;
  stage = idle;
  outcome = some (is_running false);
}

abbrev begin : Call → Bool → String → LockFile → Turn
begin acquire true path f = record {
  file = record f { text = some (or_new f.text) };
  stage = opened;
  outcome = none;
}
begin acquire false path f = record {
  file = f;
  stage = idle;
  outcome = some (refused ("Failed to create lock file: " <> path));
}
begin probe io path f = begin_probe f.text io f

-- `flock(LOCK_EX | LOCK_NB)`, with the stage that follows, or the outcome without the lock.
abbrev pub flock : ℕ → Option ℕ → Bool → Stage → Outcome → LockFile → Turn
flock i none true next other f = record {
  file = record f { holder = some i };
  stage = next;
  outcome = none;
}
flock i none false next other f = record { file = f; stage = idle; outcome = some other }
flock i (some j) io next other f = record { file = f; stage = idle; outcome = some other }

-- One turn of process `i` where it stands; `io` says whether the system call succeeds. An idle process
-- starts `call`, a daemon that runs ends.
unfoldable pub advance : String → ℕ → Call → Bool → Stage → LockFile → Turn
unfolding show_nat overwrite
advance path i call io idle f = begin call io path f
advance path i call io opened f =
    flock i f.holder io locked
      (refused ("Another instance is already running (lock file: " <> path <> ")")) f
advance path i call true locked f = record {
  file = record f { text = some "" };
  stage = emptied;
  outcome = none;
}
advance path i call false locked f = record {
  file = unlocked f;
  stage = idle;
  outcome = some (refused "set_len failed");
}
advance path i call true emptied f = record {
  file = record f { text = some (overwrite (show_nat i <> "\n") (or_new f.text)) };
  stage = running;
  outcome = some acquired;
}
advance path i call false emptied f = record {
  file = unlocked f;
  stage = idle;
  outcome = some (refused "write failed");
}
advance path i call io running f = record { file = unlocked f; stage = idle; outcome = none }
advance path i call io probing f = flock i f.holder io probed (is_running true) f
advance path i call io probed f = record {
  file = unlocked f;
  stage = idle;
  outcome = some (is_running false);
}

-- Which of the four system calls of `acquire_lock_in` succeed.
pub record LockIo : Type 0 where
  pub opens : Bool
  pub locks : Bool
  pub empties : Bool
  pub writes : Bool

-- The next turn of a process that has no outcome yet.
abbrev pub then_turn : (Stage → LockFile → Turn) → Turn → Turn
then_turn next t = elim t.outcome [ none ↦ next t.stage t.file | some o ↦ t ]

-- `acquire_lock_in` of a process that no other one interrupts.
unfoldable pub acquire_lock_in : String → ℕ → LockIo → LockFile → Turn
unfolding advance
acquire_lock_in path i io f = then_turn (advance path i acquire io.writes) (
    then_turn (advance path i acquire io.empties)
      (then_turn (advance path i acquire io.locks) (advance path i acquire io.opens idle f)))

abbrev pub lock_result : Option Outcome → Result (Unit {0})
lock_result (some acquired) = ok tt
lock_result (some (refused e)) = err e
lock_result (some (is_running answer)) = err ""
lock_result none = err ""

-- The processes over one lock file, and what they have been told, the oldest first.
pub record System : Type 0 where
  pub file : LockFile
  pub stage : ℕ → Stage
  pub outcomes : List (ℕ × Outcome)

-- `die` ends a process wherever it stands: the system closes its file.
pub data Action : Type 0 where
  turn : (process : ℕ) (call : Call) (io : Bool) → Action
  die : (process : ℕ) → Action

abbrev pub set_stage : (ℕ → Stage) → ℕ → Stage → ℕ → Stage
set_stage stage i new j = if nat_eq i j then new else stage j

abbrev pub has_lock : Stage → Bool
has_lock idle = false
has_lock opened = false
has_lock probing = false
has_lock _ = true

abbrev told : ℕ → Option Outcome → List (ℕ × Outcome)
told i none = []
told i (some o) = (i, o) ∷ []

abbrev pub taken : ℕ → Turn → System → System
taken i t s = record {
  file = t.file;
  stage = set_stage s.stage i t.stage;
  outcomes = s.outcomes ++ told i t.outcome;
}

abbrev pub closed : Stage → LockFile → LockFile
closed stage f = if has_lock stage then unlocked f else f

unfoldable pub act : String → Action → System → System
unfolding advance
act path (turn i call io) s = taken i (advance path i call io (s.stage i) s.file) s
act path (die i) s = record s { file = closed (s.stage i) s.file; stage = set_stage s.stage i idle }

unfoldable pub run : String → List Action → System → System
unfolding act
run path [] s = s
run path (a ∷ actions) s = run path actions (act path a s)

-- No process has begun; an earlier daemon may have left the file.
abbrev pub start : Option String → System
start text = record {
  file = record { text = text; holder = none };
  stage = λ i. idle;
  outcomes = [];
}

-- What the actions lead to.
abbrev pub reached : String → List Action → Option String → System
reached path actions text = run path actions (start text)

abbrev parsed_pid : Option String → Option ℕ
parsed_pid none = none
parsed_pid (some text) = parse_u32 (trim text)

unfoldable pub read_daemon_pid : LockFile → Option ℕ
unfolding parse_u32 trim
read_daemon_pid f = parsed_pid f.text

unfoldable pub lock_path_in : String → String
unfolding join
lock_path_in runtime_dir = join runtime_dir "middlesox.lock"

unfoldable pub socket_path_in : String → String
unfolding join
socket_path_in runtime_dir = join runtime_dir "middlesox.sock"
