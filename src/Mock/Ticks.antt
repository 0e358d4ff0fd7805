-- ===== src/Mock/Ticks.antt =====
-- The mock backend under the actor: what always holds of it, and when an event comes.
use middlesox.Prelude.{
  ℕ, zero, suc, ◌+◌, ◌-◌, ◌%◌, ◌^◌, ◌<◌, ◌≡◌, ◌≢◌, refl, ◌⊎◌, String, Bool, true, false, ◌||◌,
  Option, none, some, List, [], ◌∷◌, Result, ok, arith, contains, is_empty, if◌then◌else◌, ℤ, pos,
  negsuc, ◌&&◌, nat_eq, inl, inr,
}
use mathlib.Core.Path.{subst}
use middlesox.Json.{Value}
use middlesox.Event.{RawEvent}
use middlesox.Handle.{Actor, Input, run, spawn}
use middlesox.Handle.Invariant.{HoldsAfter, Preserves, any-IsAllowed, run-P}
use middlesox.Mock.{
  MockBackend, adapter, get, set, in_range, valid_layouts, on_tick, next_workspace, tick_loop,
  until_event, next_event, subscribe, shutdown, new,
}

-- The workspace is 1 to 10, the layout is one of the three, and the interval is set up.
pub record IsValid (b : MockBackend) : Type 0 where
  pub workspace : in_range b.workspace ≡ true
  pub layout : contains valid_layouts b.layout ≡ true
  pub tick : b.tick ≡ true

next_workspace-in_range : (ws : ℤ) → in_range ws ≡ true → in_range (next_workspace ws) ≡ true
unfolding next_workspace
next_workspace-in_range (pos n) h = ground arith
next_workspace-in_range (negsuc n) h = cc

on_tick-IsValid : (clock : Option ℕ) (b : MockBackend) → IsValid b → IsValid (on_tick clock b).1
unfolding on_tick
on_tick-IsValid clock b v = ground (arith, next_workspace-in_range b.workspace)

tick_loop-IsValid :
    (clock : Option ℕ) (n : ℕ) (b : MockBackend)
    → IsValid b
    → HoldsAfter IsValid (tick_loop clock n b)
unfolding tick_loop
tick_loop-IsValid clock zero b v = tt
tick_loop-IsValid clock (suc n) b v =
    go (on_tick clock b) (on_tick-IsValid clock b v) (tick_loop-IsValid clock n (on_tick clock b).1)
  where
    go :
        (p : Option RawEvent × MockBackend)
        → IsValid p.1
        → (IsValid p.1 → HoldsAfter IsValid (tick_loop clock n p.1))
        → HoldsAfter IsValid (until_event p (tick_loop clock n))
    go (some e, c) w k = w
    go (none, c) w k = k w

HoldsAfter-if :
    (t : Bool) (x y : Option (Result (Option RawEvent) × MockBackend))
    → HoldsAfter IsValid x
    → HoldsAfter IsValid y
    → HoldsAfter IsValid (if t then x else y)
HoldsAfter-if true x y h k = h
HoldsAfter-if false x y h k = k

next_event-IsValid :
    (clock : Option ℕ) (b : MockBackend) → IsValid b → HoldsAfter IsValid (next_event clock b)
unfolding next_event
next_event-IsValid clock b v = HoldsAfter-if b.shutdown _ _ v (
    HoldsAfter-if b.tick _ _
      (HoldsAfter-if (is_empty b.subscriptions) _ _ tt (tick_loop-IsValid clock 3 b v)) tt)

get_unchanged : (key : String) (b : MockBackend) → (get key b).1 ≡ b
unfolding get
get_unchanged key b = ground arith

set-IsValid : (key : String) (x : Value) (b : MockBackend) → IsValid b → IsValid (set key x b).1
unfolding set
set-IsValid key x b v = ground arith

adapter-preserves : (clock : Option ℕ) → Preserves (adapter clock) (λ key. Unit) IsValid
unfolding shutdown
adapter-preserves clock = record {
  by_next_event = next_event-IsValid clock;
  by_get = λ key b v. rw (get_unchanged key b) v;
  by_set = λ key v u. set-IsValid key v;
  by_shutdown = λ b v. record { workspace = v.workspace; layout = v.layout; tick = v.tick };
}

abbrev spawned : List String → Actor MockBackend
spawned subs = record {
  name = "mock";
  adapter = record new { subscriptions = subs; tick = true };
  live = true;
  events = [];
  replies = [];
}

spawned-IsValid :
    (clock : Option ℕ) (subs : List String) (s : Actor MockBackend)
    → spawn (adapter clock) subs new ≡ ok s
    → IsValid s.adapter
unfolding spawn new subscribe contains
spawned-IsValid clock subs s e =
    let same : spawned subs ≡ s = cc in
    subst (λ (t : Actor MockBackend). IsValid t.adapter) same
      (record { workspace = refl; layout = refl; tick = refl })

-- Whatever a mock backend that was spawned with any subscriptions is sent, its workspace stays
-- within 1 to 10, its layout one of "master", "grid" and "float", and its interval set up, so that
-- `next_event` never panics.
pub run-MockIsValid :
    (clock : Option ℕ) (subs : List String) (is : List Input) {s : Actor MockBackend}
    → spawn (adapter clock) subs new ≡ ok s
    → IsValid (run (adapter clock) is s).adapter
run-MockIsValid clock subs is {s} e =
    run-P (adapter-preserves clock) is s (λ i m. any-IsAllowed i) (spawned-IsValid clock subs s e)

-- Whether the round that reaches the count `c` has an event for the subscriptions.
abbrev is_due : ℕ → List String → Bool
is_due c subs =
    (nat_eq (c % 3) 0 && contains subs "workspace_change")
    || ((nat_eq (c % 3) 1 && contains subs "window_update")
        || (nat_eq (c % 3) 2 && contains subs "layout_hint"))

abbrev IsReady : Option (Result (Option RawEvent) × MockBackend) → Type 0
IsReady polled = (e : RawEvent) × (b : MockBackend) × (polled ≡ some (ok (some e), b))

on_tick_due :
    (clock : Option ℕ) (b : MockBackend)
    → is_due ((b.cycle + 1) % 2 ^ 64) b.subscriptions ≡ true
    → (on_tick clock b).0 ≢ none
unfolding on_tick
on_tick_due clock b h = ground arith

on_tick_next :
    (clock : Option ℕ) (b : MockBackend)
    → ((on_tick clock b).1.cycle ≡ (b.cycle + 1) % 2 ^ 64)
      × ((on_tick clock b).1.subscriptions ≡ b.subscriptions)
unfolding on_tick
on_tick_next clock b = ground arith

until_event-IsReady :
    (p : Option RawEvent × MockBackend)
    (k : MockBackend → Option (Result (Option RawEvent) × MockBackend))
    → (p.0 ≡ none → IsReady (k p.1))
    → IsReady (until_event p k)
until_event-IsReady (some e, b) k h = (e, b, refl)
until_event-IsReady (none, b) k h = h refl

tick_loop-IsReady :
    (clock : Option ℕ) (n k : ℕ) (b : MockBackend)
    → k < n
    → b.cycle + n < 2 ^ 64
    → is_due (b.cycle + 1 + k) b.subscriptions ≡ true
    → IsReady (tick_loop clock n b)
unfolding tick_loop
tick_loop-IsReady clock zero k b h r d = absurd (omega arith)
tick_loop-IsReady clock (suc n) zero b h r d =
    until_event-IsReady (on_tick clock b) (tick_loop clock n) (λ q.
      let c : (b.cycle + 1) % 2 ^ 64 ≡ b.cycle + 1 + 0 = omega arith in
      absurd (on_tick_due clock b (rw c d) q))
tick_loop-IsReady clock (suc n) (suc k) b h r d =
    let (counted, same) = on_tick_next clock b in
    let c : (on_tick clock b).1.cycle ≡ b.cycle + 1 = omega arith in
    until_event-IsReady (on_tick clock b) (tick_loop clock n) (λ q.
      tick_loop-IsReady clock n k (on_tick clock b).1 (omega arith) (omega arith) (
        let e : (on_tick clock b).1.cycle + 1 + k ≡ b.cycle + 1 + suc k = omega arith in
        rw (e, same) d))

not_empty_of_contains :
    (subs : List String) (x : String) → contains subs x ≡ true → is_empty subs ≡ false
unfolding contains
not_empty_of_contains [] x h = cc
not_empty_of_contains (s ∷ subs) x h = refl

next_event-eq-tick_loop :
    (clock : Option ℕ) (b : MockBackend) (x : String)
    → b.shutdown ≡ false
    → b.tick ≡ true
    → contains b.subscriptions x ≡ true
    → next_event clock b ≡ tick_loop clock 3 b
unfolding next_event
next_event-eq-tick_loop clock b x up ticking h =
    ground (arith, not_empty_of_contains b.subscriptions x h)

-- The first round that reaches the residue `t`.
abbrev wait : ℕ → ℕ → ℕ
wait t cycle = (t + 5 - cycle % 3) % 3

IsReady-at :
    (clock : Option ℕ) (b : MockBackend) (x : String) (k : ℕ)
    → b.shutdown ≡ false
    → b.tick ≡ true
    → b.cycle + 3 < 2 ^ 64
    → contains b.subscriptions x ≡ true
    → k < 3
    → is_due (b.cycle + 1 + k) b.subscriptions ≡ true
    → IsReady (next_event clock b)
IsReady-at clock b x k up ticking room h below d =
    rw (next_event-eq-tick_loop clock b x up ticking h) (tick_loop-IsReady clock 3 k b below room d)

-- A running backend that is subscribed to one of its three events, and whose counter has not come
-- to the end of its 64 bits, has an event after at most three ticks.
pub next_event-ready :
    (clock : Option ℕ) (b : MockBackend)
    → b.shutdown ≡ false
    → b.tick ≡ true
    → b.cycle + 3 < 2 ^ 64
    → (contains b.subscriptions "workspace_change" ≡ true)
      ⊎ ((contains b.subscriptions "window_update" ≡ true)
          ⊎ (contains b.subscriptions "layout_hint" ≡ true))
    → (e : RawEvent) × (b' : MockBackend) × (next_event clock b ≡ some (ok (some e), b'))
next_event-ready clock b up ticking room (inl h) =
    IsReady-at clock b "workspace_change" (wait 0 b.cycle) up ticking room h (omega arith)
      (ground arith)
next_event-ready clock b up ticking room (inr (inl h)) =
    IsReady-at clock b "window_update" (wait 1 b.cycle) up ticking room h (omega arith)
      (ground arith)
next_event-ready clock b up ticking room (inr (inr h)) =
    IsReady-at clock b "layout_hint" (wait 2 b.cycle) up ticking room h (omega arith) (ground arith)
