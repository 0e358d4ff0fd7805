-- ===== src/Prelude/Decimal.antt =====
-- Decimal text: `str::parse::<i64>` and `to_string`.
use Prim.Native.Char.{Char, code}
use Prim.Native.Nat.{ℕ, zero, suc, ◌+◌, ◌-◌, ◌*◌, ◌/◌, ◌%◌, ◌^◌, ◌≤◌, ◌<◌}
use Prim.Native.String.{String, [], ◌∷◌}
use mathlib.Core.Path.{◌≡◌, refl, ap}
use mathlib.Core.Logic.{◌≢◌, inl, inr}
use mathlib.Core.Bool.{true, ◌&&◌}
use mathlib.Core.Option.{Option, none, some}
use native.Mathlib.Omega.{arith}
use text.Mathlib.TextLemmas.{cons-append, nil-append}
use middlesox.Prelude.Tests.{if◌then◌else◌, leb, ltb, nat_eq, Bool-cases}
use middlesox.Prelude.Text.{◌<>◌, append-ne-empty}
use middlesox.Prelude.Numbers.{ℤ, pos, negsuc, i64_max}

-- The decimal digits of a text, read after the number `acc`.
unfoldable pub read_digits : ℕ → String → Option ℕ
read_digits acc [] = some acc
read_digits acc (c ∷ s) =
    let rest = read_digits (acc * 10 + (code c - b'0')) s in
    if leb b'0' (code c) && leb (code c) b'9' then rest else none

unfoldable pub read_nat : String → Option ℕ
unfolding read_digits
read_nat [] = none
read_nat (c ∷ s) = read_digits 0 (c ∷ s)

abbrev positive : Option ℕ → Option ℤ
positive none = none
positive (some n) = if leb n i64_max then some (pos n) else none

abbrev negative : Option ℕ → Option ℤ
negative none = none
negative (some zero) = some (pos 0)
negative (some (suc n)) = if leb n i64_max then some (negsuc n) else none

-- `str::parse::<i64>`
unfoldable pub parse_i64 : String → Option ℤ
unfolding read_nat
parse_i64 [] = none
parse_i64 (c ∷ s) =
    if nat_eq (code c) b'-'
    then negative (read_nat s)
    else if nat_eq (code c) b'+'
    then positive (read_nat s)
    else positive (read_nat (c ∷ s))

-- `i64` holds the number.
abbrev pub IsI64 : ℤ → Type 0
IsI64 (pos n) = n ≤ i64_max
IsI64 (negsuc n) = n ≤ i64_max

abbrev pub digit : ℕ → String
digit zero = "0"
digit (suc zero) = "1"
digit (suc (suc zero)) = "2"
digit (suc (suc (suc zero))) = "3"
digit (suc (suc (suc (suc zero)))) = "4"
digit (suc (suc (suc (suc (suc zero))))) = "5"
digit (suc (suc (suc (suc (suc (suc zero)))))) = "6"
digit (suc (suc (suc (suc (suc (suc (suc zero))))))) = "7"
digit (suc (suc (suc (suc (suc (suc (suc (suc zero)))))))) = "8"
digit (suc (suc (suc (suc (suc (suc (suc (suc (suc d))))))))) = "9"

-- The decimal text of a number of at most `fuel` digits, written before `rest`.
unfoldable pub show_before : ℕ → ℕ → String → String
show_before zero n rest = rest
show_before (suc fuel) n rest =
    let more = show_before fuel (n / 10) (digit (n % 10) <> rest) in
    if ltb n 10 then digit n <> rest else more

-- `u64::to_string`: a number below 2 ^ 64 has at most twenty digits.
unfoldable pub show_nat : ℕ → String
unfolding show_before
show_nat n = show_before 20 n ""

unfoldable pub show_i64 : ℤ → String
unfolding show_nat
show_i64 (pos n) = show_nat n
show_i64 (negsuc n) = "-" <> show_nat (suc n)

read_digits-char :
    (acc : ℕ) (c : Char) (rest : String)
    → leb b'0' (code c) && leb (code c) b'9' ≡ true
    → read_digits acc ((c ∷ "") <> rest) ≡ read_digits (acc * 10 + (code c - b'0')) rest
unfolding read_digits
read_digits-char acc c rest h = rw (cons-append c "" rest, nil-append rest, h)

read_digits-digit :
    (acc d : ℕ) (rest : String)
    → d < 10
    → read_digits acc (digit d <> rest) ≡ read_digits (acc * 10 + d) rest
read_digits-digit acc zero rest h = read_digits-char acc "0" rest refl
read_digits-digit acc (suc zero) rest h = read_digits-char acc "1" rest refl
read_digits-digit acc (suc (suc zero)) rest h = read_digits-char acc "2" rest refl
read_digits-digit acc (suc (suc (suc zero))) rest h = read_digits-char acc "3" rest refl
read_digits-digit acc (suc (suc (suc (suc zero)))) rest h = read_digits-char acc "4" rest refl
read_digits-digit acc (suc (suc (suc (suc (suc zero))))) rest h = read_digits-char acc "5" rest refl
read_digits-digit acc (suc (suc (suc (suc (suc (suc zero)))))) rest h =
    read_digits-char acc "6" rest refl
read_digits-digit acc (suc (suc (suc (suc (suc (suc (suc zero))))))) rest h =
    read_digits-char acc "7" rest refl
read_digits-digit acc (suc (suc (suc (suc (suc (suc (suc (suc zero)))))))) rest h =
    read_digits-char acc "8" rest refl
read_digits-digit acc (suc (suc (suc (suc (suc (suc (suc (suc (suc zero))))))))) rest h =
    read_digits-char acc "9" rest refl
read_digits-digit acc (suc (suc (suc (suc (suc (suc (suc (suc (suc (suc d)))))))))) rest h =
    ground arith

abbrev ten_to : ℕ → ℕ
ten_to zero = 1
ten_to (suc k) = 10 * ten_to k

read_digits-show_before :
    (fuel n : ℕ) (rest : String)
    → n < ten_to fuel
    → read_digits 0 (show_before fuel n rest) ≡ read_digits n rest
unfolding show_before
read_digits-show_before zero n rest h = ap (λ k. read_digits k rest) (omega (arith, h))
read_digits-show_before (suc fuel) n rest h = elim (Bool-cases (ltb n 10)) [
  | inl small ↦
      rw (small, read_digits-digit 0 n rest (ground arith))
        (ap (λ k. read_digits k rest) (omega arith))
  | inr large ↦
      rw
        (
          large,
          read_digits-show_before fuel (n / 10) (digit (n % 10) <> rest) (omega (arith, h)),
          read_digits-digit (n / 10) (n % 10) rest (omega arith),
        )
        (ap (λ k. read_digits k rest) (omega arith))
]

digit-ne-empty : (d : ℕ) → digit d ≢ ""
digit-ne-empty zero e = cc
digit-ne-empty (suc zero) e = cc
digit-ne-empty (suc (suc zero)) e = cc
digit-ne-empty (suc (suc (suc zero))) e = cc
digit-ne-empty (suc (suc (suc (suc zero)))) e = cc
digit-ne-empty (suc (suc (suc (suc (suc zero))))) e = cc
digit-ne-empty (suc (suc (suc (suc (suc (suc zero)))))) e = cc
digit-ne-empty (suc (suc (suc (suc (suc (suc (suc zero))))))) e = cc
digit-ne-empty (suc (suc (suc (suc (suc (suc (suc (suc zero)))))))) e = cc
digit-ne-empty (suc (suc (suc (suc (suc (suc (suc (suc (suc d))))))))) e = cc

show_before-ne-empty : (fuel n : ℕ) (rest : String) → rest ≢ "" → show_before fuel n rest ≢ ""
unfolding show_before
show_before-ne-empty zero n rest h = h
show_before-ne-empty (suc fuel) n rest h = elim (Bool-cases (ltb n 10)) [
  | inl small ↦ rw small (append-ne-empty (digit n) rest (digit-ne-empty n))
  | inr large ↦ rw large (
      show_before-ne-empty fuel (n / 10) (digit (n % 10) <> rest)
        (append-ne-empty (digit (n % 10)) rest (digit-ne-empty (n % 10))))
]

pub show_nat-ne-empty : (n : ℕ) → show_nat n ≢ ""
unfolding show_nat show_before
show_nat-ne-empty n = elim (Bool-cases (ltb n 10)) [
  | inl small ↦ rw small (append-ne-empty (digit n) "" (digit-ne-empty n))
  | inr large ↦ rw large (
      show_before-ne-empty 19 (n / 10) (digit (n % 10) <> "")
        (append-ne-empty (digit (n % 10)) "" (digit-ne-empty (n % 10))))
]

pub read_digits-show_nat : (n : ℕ) → n < 2 ^ 64 → read_digits 0 (show_nat n) ≡ some n
unfolding show_nat read_digits
read_digits-show_nat n h = read_digits-show_before 20 n "" (omega (arith, h))

parse_digits :
    (s : String) (n : ℕ)
    → s ≢ ""
    → read_digits 0 s ≡ some n
    → n ≤ i64_max
    → parse_i64 s ≡ some (pos n)
unfolding parse_i64 read_nat read_digits
parse_digits [] n h e b = elim (h refl) [ ]
parse_digits (c ∷ s) n h e b = ground arith

parse_negative :
    (s : String) (n : ℕ)
    → s ≢ ""
    → read_digits 0 s ≡ some (suc n)
    → n ≤ i64_max
    → parse_i64 ("-" <> s) ≡ some (negsuc n)
unfolding parse_i64 read_nat
parse_negative [] n h e b = elim (h refl) [ ]
parse_negative (c ∷ s) n h e b = rw (cons-append "-" "" (c ∷ s), nil-append (c ∷ s)) (ground arith)

-- A number of 64 bits is read back from its decimal text: the twenty digits are enough.
pub parse_i64-show_i64 : (z : ℤ) → IsI64 z → parse_i64 (show_i64 z) ≡ some z
unfolding show_i64
parse_i64-show_i64 (pos n) h =
    parse_digits (show_nat n) n (show_nat-ne-empty n) (read_digits-show_nat n (omega (arith, h))) h
parse_i64-show_i64 (negsuc n) h =
    parse_negative (show_nat (suc n)) n (show_nat-ne-empty (suc n))
      (read_digits-show_nat (suc n) (omega (arith, h))) h
