-- ===== src/Scripts/Pool/Limit.antt =====
-- middlesox/src/controller.rs: what the semaphore limits, and what it does not.
use middlesox.Prelude.{
  ℕ, zero, suc, ◌&&◌, ◌+◌, ◌≤◌, Bool, true, false, Option, none, some, List, [], ◌∷◌, ◌++◌, length,
  all, ◌≡◌, refl, arith, ltb, if◌then◌else◌, Bool-cases, inl, inr,
}
use middlesox.Scripts.{Launch, rhai}
use middlesox.Scripts.Pool.{
  max_concurrent_scripts, Pool, Action, launch, acquire, finish, expire, orphan_ends, spawns,
  is_rhai, put_back, take_at, acquired, finished, expired, orphan_gone, act, run, empty,
}

-- At most so many tasks run a script, and what still runs without a task is a Rhai script.
pub record IsBounded (p : Pool) : Type 0 where
  pub few : length p.holding ≤ max_concurrent_scripts
  pub only_rhai : all is_rhai p.orphans ≡ true

length-snoc : {A : Type 0} (xs : List A) (x : A) → length (xs ++ (x ∷ [])) ≡ suc (length xs)
length-snoc [] x = refl
length-snoc (y ∷ ys) x = omega (arith, length-snoc ys x)

all-snoc :
    (xs : List Launch) (x : Launch)
    → all is_rhai xs ≡ true
    → is_rhai x ≡ true
    → all is_rhai (xs ++ (x ∷ [])) ≡ true
all-snoc [] x h g = rw g refl
all-snoc (y ∷ ys) x h g = ground (arith, all-snoc ys x)

-- What is left after an element was taken out.
abbrev Leaves : {A : Type 0} → (List A → Type 0) → Option (A × List A) → Type 0
Leaves P none = Unit {0}
Leaves P (some (x, rest)) = P rest

put_back-length :
    (n : ℕ) (x : Launch) (m : Option (Launch × List Launch))
    → Leaves (λ rest. length rest ≤ n) m
    → Leaves (λ rest. length rest ≤ suc n) (put_back x m)
put_back-length n x none h = tt
put_back-length n x (some (y, rest)) h = omega arith

take_at-length :
    (i n : ℕ) (xs : List Launch) → length xs ≤ n → Leaves (λ rest. length rest ≤ n) (take_at i xs)
unfolding take_at
take_at-length i n [] h = tt
take_at-length zero n (x ∷ xs) h = omega arith
take_at-length (suc i) zero (x ∷ xs) h = absurd (omega arith)
take_at-length (suc i) (suc n) (x ∷ xs) h =
    put_back-length n x (take_at i xs) (take_at-length i n xs (omega arith))

put_back-all :
    (x : Launch) (m : Option (Launch × List Launch))
    → is_rhai x ≡ true
    → Leaves (λ rest. all is_rhai rest ≡ true) m
    → Leaves (λ rest. all is_rhai rest ≡ true) (put_back x m)
put_back-all x none h g = tt
put_back-all x (some (y, rest)) h g = ground arith

take_at-all :
    (i : ℕ) (xs : List Launch)
    → all is_rhai xs ≡ true
    → Leaves (λ rest. all is_rhai rest ≡ true) (take_at i xs)
unfolding take_at
take_at-all i [] h = tt
take_at-all zero (x ∷ xs) h = ground arith
take_at-all (suc i) (x ∷ xs) h =
    put_back-all x (take_at i xs) (ground arith) (take_at-all i xs (ground arith))

acquired-IsBounded :
    (m : Option (Launch × List Launch)) (p : Pool)
    → IsBounded p
    → length p.holding + 1 ≤ max_concurrent_scripts
    → IsBounded (acquired m p)
acquired-IsBounded none p h room = h
acquired-IsBounded (some (l, rest)) p h room = record {
  few = omega (arith, length-snoc p.holding l);
  only_rhai = h.only_rhai;
}

finished-IsBounded :
    (m : Option (Launch × List Launch)) (p : Pool)
    → IsBounded p
    → Leaves (λ rest. length rest ≤ max_concurrent_scripts) m
    → IsBounded (finished m p)
finished-IsBounded none p h g = h
finished-IsBounded (some (l, rest)) p h g = record { few = g; only_rhai = h.only_rhai }

expired_rhai :
    (b : Bool) (l : Launch) (xs : List Launch)
    → is_rhai l ≡ true
    → all is_rhai xs ≡ true
    → all is_rhai (if b then xs ++ (l ∷ []) else xs) ≡ true
expired_rhai true l xs e h = all-snoc xs l h e
expired_rhai false l xs e h = h

expired_orphans :
    (b : Bool) (l : Launch) (xs : List Launch)
    → all is_rhai xs ≡ true
    → all is_rhai (if is_rhai l && b then xs ++ (l ∷ []) else xs) ≡ true
expired_orphans b (rhai path e) xs h = expired_rhai b (rhai path e) xs refl h
expired_orphans b l xs h = h

expired-IsBounded :
    (b : Bool) (m : Option (Launch × List Launch)) (p : Pool)
    → IsBounded p
    → Leaves (λ rest. length rest ≤ max_concurrent_scripts) m
    → IsBounded (expired b m p)
expired-IsBounded b none p h g = h
expired-IsBounded b (some (l, rest)) p h g = record {
  few = g;
  only_rhai = expired_orphans b l p.orphans h.only_rhai;
}

orphan_gone-IsBounded :
    (m : Option (Launch × List Launch)) (p : Pool)
    → IsBounded p
    → Leaves (λ rest. all is_rhai rest ≡ true) m
    → IsBounded (orphan_gone m p)
orphan_gone-IsBounded none p h g = h
orphan_gone-IsBounded (some (l, rest)) p h g = record { few = h.few; only_rhai = g }

act-IsBounded : (a : Action) (p : Pool) → IsBounded p → IsBounded (act a p)
unfolding act
act-IsBounded (launch l) p h =
    elim (spawns l)
      as (λ b. IsBounded (if b then record p { waiting = p.waiting ++ (l ∷ []) } else p)) [
        | true ↦ record { few = h.few; only_rhai = h.only_rhai }
        | false ↦ h
      ]
act-IsBounded (acquire i) p h = elim (Bool-cases (ltb (length p.holding) max_concurrent_scripts)) [
  | inl room ↦ rw room (acquired-IsBounded (take_at i p.waiting) p h (ground arith))
  | inr full ↦ rw full h
]
act-IsBounded (finish i) p h =
    finished-IsBounded (take_at i p.holding) p h
      (take_at-length i max_concurrent_scripts p.holding h.few)
act-IsBounded (expire i on_thread) p h =
    expired-IsBounded on_thread (take_at i p.holding) p h
      (take_at-length i max_concurrent_scripts p.holding h.few)
act-IsBounded (orphan_ends i) p h =
    orphan_gone-IsBounded (take_at i p.orphans) p h (take_at-all i p.orphans h.only_rhai)

run-keeps : (actions : List Action) (p : Pool) → IsBounded p → IsBounded (run actions p)
unfolding run
run-keeps [] p h = h
run-keeps (a ∷ actions) p h = run-keeps actions (act a p) (act-IsBounded a p h)

-- However many events come, at most eight tasks run a script at once, so at most eight programs run;
-- only Rhai scripts may run on after their task has ended.
pub run-IsBounded : (actions : List Action) → IsBounded (run actions empty)
run-IsBounded actions = run-keeps actions empty (record { few = omega arith; only_rhai = refl })

-- A Rhai script that is launched, gets a permit and a thread, and takes too long, so many times.
abbrev pub slow_scripts : ℕ → Launch → List Action
slow_scripts zero l = []
slow_scripts (suc n) l = launch l ∷ acquire 0 ∷ expire 0 true ∷ slow_scripts n l

-- All along, the scripts have no more than so many threads.
abbrev pub FitThreads : ℕ → List Action → Pool → Type 0
FitThreads threads [] p = length p.orphans + length p.holding ≤ threads
FitThreads threads (a ∷ actions) p =
    (length p.orphans + length p.holding ≤ threads) × FitThreads threads actions (act a p)

abbrev only_orphans : List Launch → Pool
only_orphans orphans = record { waiting = []; holding = []; orphans = orphans }

slow_scripts-orphans :
    (n : ℕ) (l : Launch) (orphans : List Launch)
    → is_rhai l ≡ true
    → length (run (slow_scripts n l) (only_orphans orphans)).orphans ≡ n + length orphans
unfolding run act
slow_scripts-orphans zero l orphans h = omega arith
slow_scripts-orphans (suc n) (rhai path e) orphans h = omega (
  arith,
  slow_scripts-orphans n (rhai path e) (orphans ++ (rhai path e ∷ [])) refl,
  length-snoc orphans (rhai path e),
)
slow_scripts-orphans (suc n) l orphans h = ground arith

slow_scripts-FitThreads :
    (threads n : ℕ) (l : Launch) (orphans : List Launch)
    → is_rhai l ≡ true
    → n + length orphans ≤ threads
    → FitThreads threads (slow_scripts n l) (only_orphans orphans)
unfolding act
slow_scripts-FitThreads threads zero l orphans h k = omega arith
slow_scripts-FitThreads threads (suc n) (rhai path e) orphans h k = (
  omega arith,
  (
    omega arith,
    (
      omega arith,
      slow_scripts-FitThreads threads n (rhai path e) (orphans ++ (rhai path e ∷ [])) refl
          (omega (arith, length-snoc orphans (rhai path e))),
    ),
  ),
)
slow_scripts-FitThreads threads (suc n) l orphans h k = ground arith

-- The semaphore does not limit the Rhai scripts that run: with so many blocking threads for them, every
-- number up to that can run at once without a permit, since the time limit of a script gives its permit
-- back and does not stop it. At no time do they need more threads.
pub orphans_up_to_threads :
    (threads n : ℕ) (l : Launch)
    → n ≤ threads
    → is_rhai l ≡ true
    → (actions : List Action) × FitThreads threads actions empty
      × (length (run actions empty).orphans ≡ n)
orphans_up_to_threads threads n l few h = (
  slow_scripts n l,
  slow_scripts-FitThreads threads n l [] h (omega arith),
  omega (arith, slow_scripts-orphans n l [] h),
)
