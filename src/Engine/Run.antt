-- ===== src/Engine/Run.antt =====
-- middlesox/src/engine.rs: how `ScriptEngine` runs a script, and the engine that `create_engine` sets
-- up. Rhai is the argument `Rhai`: from the text, the scope and the answers so far it says which
-- registered function the script calls next, if any. What Rhai documents of `set_max_operations` is
-- that a run of more operations than that ends in an error.
use middlesox.Prelude.{
  ℕ, zero, suc, String, Option, none, some, List, [], ◌∷◌, ◌++◌, Result, ok, err, ◌<>◌,
}
use middlesox.Dynamic.{Dynamic}
use middlesox.Event.{RawEvent}
use middlesox.Adapter.{ProtocolAdapter}
use middlesox.Handle.{Actor, Input}
use middlesox.Engine.{EventContext, context_of, scope_of, script_get, script_set}

abbrev pub Scope : Type 0
Scope = List (String × Dynamic)

abbrev pub script_error : {S : Type 0} → Result Dynamic × Actor S → Result Dynamic × Actor S
script_error (ok d, s) = (ok d, s)
script_error (err e, s) = (err ("Script error: " <> e), s)

module _ {S : Type 0} (eval_with_scope : String → Scope → Actor S → Result Dynamic × Actor S) where
  unfoldable pub execute_sync : String → Option EventContext → Actor S → Result Dynamic × Actor S
  unfolding scope_of
  execute_sync script context s = script_error (eval_with_scope script (scope_of context) s)

  unfoldable pub execute : String → Actor S → Result Dynamic × Actor S
  unfolding execute_sync
  execute script s = execute_sync script none s

  unfoldable pub execute_with_event : String → RawEvent → Actor S → Result Dynamic × Actor S
  unfolding execute_sync context_of
  execute_with_event script e s = execute_sync script (some (context_of e)) s

  -- `text` is what the file at the path reads as.
  unfoldable pub execute_file : Result String → Actor S → Result Dynamic × Actor S
  unfolding execute
  execute_file (err e) s = (err e, s)
  execute_file (ok text) s = execute text s

  unfoldable pub execute_file_with_event :
      Result String → RawEvent → Actor S → Result Dynamic × Actor S
  unfolding execute_with_event
  execute_file_with_event (err e) event s = (err e, s)
  execute_file_with_event (ok text) event s = execute_with_event text event s

-- `work` is an operation that reaches no registered function but `print` and `log`.
pub data Operation : Type 0 where
  work : Operation
  ask : (key : String) → Operation
  tell : (key : String) (value : Dynamic) → Operation
  finish : Result Dynamic → Operation

pub record Rhai : Type 0 where
  pub next : String → Scope → List Dynamic → Operation
  pub too_many : String

-- What the actor does before a command of the script comes to its turn: `before` a `get` or the
-- manifest, `between` the manifest and a `set`. The number is that of the operations left.
pub record Schedule : Type 0 where
  pub before : ℕ → List Input
  pub between : ℕ → List Input

pub data Outcome : Type 0 where
  ended : Result Dynamic → Outcome
  answered : Dynamic → Outcome

abbrev pub after :
    {S : Type 0}
    → Outcome × Actor S
    → (Dynamic → Actor S → Result Dynamic × Actor S)
    → Result Dynamic × Actor S
after (ended r, s) k = (r, s)
after (answered d, s) k = k d s

abbrev pub max_operations : ℕ
max_operations = 100000

module _ {S : Type 0} (a : ProtocolAdapter S) (rhai : Rhai) (schedule : Schedule) where
  abbrev told : String × Actor S → Outcome × Actor S
  told (message, s) = (answered (Dynamic.string message), s)

  abbrev asked : Dynamic × Actor S → Outcome × Actor S
  asked (d, s) = (answered d, s)

  -- One operation, with `n` left after it.
  unfoldable pub operate : ℕ → Operation → Actor S → Outcome × Actor S
  unfolding script_get script_set
  operate n work s = (answered Dynamic.unit, s)
  operate n (ask key) s = asked (script_get a (schedule.before n) key s)
  operate n (tell key v) s = told (script_set a (schedule.before n) (schedule.between n) key v s)
  operate n (finish r) s = (ended r, s)

  abbrev stopped : Operation → Result Dynamic
  stopped (finish r) = r
  stopped op = err rhai.too_many

  module _ (script : String) (scope : Scope) where
    unfoldable pub eval : ℕ → List Dynamic → Actor S → Result Dynamic × Actor S
    unfolding operate
    eval zero answers s = (stopped (rhai.next script scope answers), s)
    eval (suc n) answers s =
        after (operate n (rhai.next script scope answers) s) (λ d t. eval n (answers ++ d ∷ []) t)

  -- The engine that `create_engine` makes.
  unfoldable pub eval_with_scope : String → Scope → Actor S → Result Dynamic × Actor S
  unfolding eval
  eval_with_scope script scope s = eval script scope max_operations [] s
