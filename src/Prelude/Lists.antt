-- ===== src/Prelude/Lists.antt =====
-- Lists measured by native numbers, and the Boolean walks of Rust's iterators.
use Prim.Native.Nat.{ℕ, zero, suc, ◌≤◌}
use mathlib.Core.Path.{◌≡◌, refl, sym}
use mathlib.Core.Logic.{inl, inr}
use mathlib.Core.Bool.{Bool, true, false, ◌&&◌}
use mathlib.Core.Option.{Option, none, some}
use mathlib.Core.List.{List, [], ◌∷◌, Memᴰ}
use native.Mathlib.Omega.{arith}
use middlesox.Prelude.Tests.{if◌then◌else◌, Bool-cases}

module _ {ℓ} {A : Type ℓ} where
  abbrev pub length : List A → ℕ
  length [] = 0
  length (x ∷ xs) = suc (length xs)

  abbrev pub get_elem? : List A → ℕ → Option A
  get_elem? [] i = none
  get_elem? (x ∷ xs) zero = some x
  get_elem? (x ∷ xs) (suc i) = get_elem? xs i

  -- A write out of bounds changes nothing.
  abbrev pub set_elem : List A → ℕ → A → List A
  set_elem [] i v = []
  set_elem (x ∷ xs) zero v = v ∷ xs
  set_elem (x ∷ xs) (suc i) v = x ∷ set_elem xs i v

  abbrev pub take : ℕ → List A → List A
  take zero xs = []
  take (suc n) [] = []
  take (suc n) (x ∷ xs) = x ∷ take n xs

  pub length-take-le : (n : ℕ) (xs : List A) → length (take n xs) ≤ n
  length-take-le zero xs = omega arith
  length-take-le (suc n) [] = omega arith
  length-take-le (suc n) (x ∷ xs) = omega (arith, length-take-le n xs)

  abbrev pub replicate : ℕ → A → List A
  replicate zero a = []
  replicate (suc n) a = a ∷ replicate n a

  pub length-set_elem : (xs : List A) (i : ℕ) (v : A) → length (set_elem xs i v) ≡ length xs
  length-set_elem [] i v = refl
  length-set_elem (x ∷ xs) zero v = refl
  length-set_elem (x ∷ xs) (suc i) v = omega (arith, length-set_elem xs i v)

  abbrev pub is_empty : List A → Bool
  is_empty [] = true
  is_empty (x ∷ xs) = false

  -- `iter().filter(p)`
  abbrev pub filter : (A → Bool) → List A → List A
  filter p [] = []
  filter p (x ∷ xs) = let rest = filter p xs in if p x then x ∷ rest else rest

  -- `iter().find(p)`
  abbrev pub find : (A → Bool) → List A → Option A
  find p [] = none
  find p (x ∷ xs) = if p x then some x else find p xs

  -- `iter().all(p)`
  abbrev pub all : (A → Bool) → List A → Bool
  all p [] = true
  all p (x ∷ xs) = p x && all p xs

  pub Memᴰ-filter :
      (p : A → Bool) (a : A) (xs : List A) → Memᴰ a xs → p a ≡ true → Memᴰ a (filter p xs)
  Memᴰ-filter p a [] m h = elim m [ ]
  Memᴰ-filter p a (x ∷ xs) (Memᴰ.head e) h = rw (← e, h) (Memᴰ.head refl)
  Memᴰ-filter p a (x ∷ xs) (Memᴰ.tail m) h = elim (Bool-cases (p x)) [
    | inl t ↦ rw t (Memᴰ.tail (Memᴰ-filter p a xs m h))
    | inr f ↦ rw f (Memᴰ-filter p a xs m h)
  ]

  Memᴰ_of_filter_cons :
      (p : A → Bool) {a x : A} {xs ys : List A}
      → p x ≡ true
      → (Memᴰ a ys → Memᴰ a xs × (p a ≡ true))
      → Memᴰ a (x ∷ ys)
      → Memᴰ a (x ∷ xs) × (p a ≡ true)
  Memᴰ_of_filter_cons p t rest (Memᴰ.head e) = (Memᴰ.head e, rw e t)
  Memᴰ_of_filter_cons p t rest (Memᴰ.tail m) = let (n, h) = rest m in (Memᴰ.tail n, h)

  pub Memᴰ_of_filter :
      (p : A → Bool) (a : A) (xs : List A) → Memᴰ a (filter p xs) → Memᴰ a xs × (p a ≡ true)
  Memᴰ_of_filter p a [] m = elim m [ ]
  Memᴰ_of_filter p a (x ∷ xs) m = elim (Bool-cases (p x)) [
    | inl t ↦ Memᴰ_of_filter_cons p t (λ n. Memᴰ_of_filter p a xs n) (rw t at m)
    | inr f ↦ let (n, h) = Memᴰ_of_filter p a xs (rw f at m) in (Memᴰ.tail n, h)
  ]

  pub find-eq-some :
      (p : A → Bool) (xs : List A) {a : A} → find p xs ≡ some a → Memᴰ a xs × (p a ≡ true)
  find-eq-some p [] e = cc
  find-eq-some p (x ∷ xs) {a} e = elim (Bool-cases (p x)) [
    | inl t ↦ let same : x ≡ a = ground (arith) in (Memᴰ.head (sym same), rw (← same) t)
    | inr f ↦ let (m, h) = find-eq-some p xs {a = a} (rw f at e) in (Memᴰ.tail m, h)
  ]

  pub find-eq-none :
      (p : A → Bool) (xs : List A) → find p xs ≡ none → (a : A) → Memᴰ a xs → p a ≡ false
  find-eq-none p [] e a m = elim m [ ]
  find-eq-none p (x ∷ xs) e a (Memᴰ.head q) = rw q (ground arith)
  find-eq-none p (x ∷ xs) e a (Memᴰ.tail m) = find-eq-none p xs (ground arith) a m
