-- ===== src/Scripts/Pool.antt =====
-- middlesox/src/controller.rs: the tasks that run scripts for events, under one semaphore. A task is in
-- the order of no queue: which one gets a permit, and when it ends, is up to the runtime.
pub mod Limit
use middlesox.Prelude.{
  ℕ, zero, suc, ◌&&◌, ◌+◌, ◌≤◌, ◌<◌, Bool, true, false, Option, none, some, List, [], ◌∷◌, ◌++◌,
  length, replicate, ◌≡◌, refl, sym, ap, ◌∙◌, arith, ltb, if◌then◌else◌, get_elem?, append_assoc,
}
use middlesox.Scripts.{Launch, rhai, shell, missing, no_shebang, unreadable}

-- `MAX_CONCURRENT_SCRIPTS`
abbrev pub max_concurrent_scripts : ℕ
max_concurrent_scripts = 8

-- `holding` are the tasks that have a permit, each with its script; `orphans` are the Rhai scripts that
-- run on a blocking thread of the runtime though their task has given up waiting for them.
pub record Pool : Type 0 where
  pub waiting : List Launch
  pub holding : List Launch
  pub orphans : List Launch

-- `on_thread` says whether a Rhai script has a thread when its task gives up: it may still wait for its
-- text or for a thread, of which the runtime has so many.
pub data Action : Type 0 where
  launch : Launch → Action
  acquire finish orphan_ends : (index : ℕ) → Action
  expire : (index : ℕ) (on_thread : Bool) → Action

-- Whether a task is spawned for a script.
abbrev pub spawns : Launch → Bool
spawns (rhai path e) = true
spawns (shell p) = true
spawns l = false

abbrev pub is_rhai : Launch → Bool
is_rhai (rhai path e) = true
is_rhai l = false

abbrev put_back : {A : Type 0} → A → Option (A × List A) → Option (A × List A)
put_back x none = none
put_back x (some (y, rest)) = some (y, x ∷ rest)

-- The element at a place, and the others.
unfoldable pub take_at : {A : Type 0} → ℕ → List A → Option (A × List A)
take_at i [] = none
take_at zero (x ∷ xs) = some (x, xs)
take_at (suc i) (x ∷ xs) = put_back x (take_at i xs)

abbrev pub acquired : Option (Launch × List Launch) → Pool → Pool
acquired none p = p
acquired (some (l, rest)) p = record p { waiting = rest; holding = p.holding ++ (l ∷ []) }

abbrev pub finished : Option (Launch × List Launch) → Pool → Pool
finished none p = p
finished (some (l, rest)) p = record p { holding = rest }

-- A program is killed when its task gives up; a Rhai script that has a thread is not, and its permit is
-- free again.
abbrev pub expired : Bool → Option (Launch × List Launch) → Pool → Pool
expired on_thread none p = p
expired on_thread (some (l, rest)) p = record p {
  holding = rest;
  orphans = if is_rhai l && on_thread then p.orphans ++ (l ∷ []) else p.orphans;
}

abbrev pub orphan_gone : Option (Launch × List Launch) → Pool → Pool
orphan_gone none p = p
orphan_gone (some (l, rest)) p = record p { orphans = rest }

unfoldable pub act : Action → Pool → Pool
unfolding take_at
act (launch l) p = if spawns l then record p { waiting = p.waiting ++ (l ∷ []) } else p
act (acquire i) p =
    if ltb (length p.holding) max_concurrent_scripts then acquired (take_at i p.waiting) p else p
act (finish i) p = finished (take_at i p.holding) p
act (expire i on_thread) p = expired on_thread (take_at i p.holding) p
act (orphan_ends i) p = orphan_gone (take_at i p.orphans) p

unfoldable pub run : List Action → Pool → Pool
unfolding act
run [] p = p
run (a ∷ actions) p = run actions (act a p)

abbrev pub empty : Pool
empty = record { waiting = []; holding = []; orphans = [] }
