-- ===== src/Prelude/Printed.antt =====
-- A decimal number on a line of its own: `writeln!("{}", n)`, read back by `trim().parse::<u32>()`.
use Prim.Native.Char.{Char, code}
use Prim.Native.Nat.{ℕ, zero, suc, ◌/◌, ◌%◌, ◌≤◌}
use Prim.Native.String.{String, [], ◌∷◌}
use mathlib.Core.Path.{◌≡◌, refl}
use mathlib.Core.Logic.{◌≢◌, inl, inr}
use mathlib.Core.Bool.{Bool, true, ◌&&◌}
use mathlib.Core.Option.{Option, none, some}
use native.Mathlib.Omega.{arith}
use text.Mathlib.TextLemmas.{cons-append, nil-append}
use middlesox.Prelude.Tests.{if◌then◌else◌, leb, ltb, nat_eq, Bool-cases}
use middlesox.Prelude.Text.{◌<>◌}
use middlesox.Prelude.Numbers.{u32_max}
use middlesox.Prelude.Parsing.{trim, trim_start, trim_end}
use middlesox.Prelude.Decimal.{
  digit, read_digits, read_nat, show_before, show_nat, show_nat-ne-empty, read_digits-show_nat,
}

abbrev fit_u32 : Option ℕ → Option ℕ
fit_u32 none = none
fit_u32 (some n) = if leb n u32_max then some n else none

-- `str::parse::<u32>`
unfoldable pub parse_u32 : String → Option ℕ
unfolding read_nat
parse_u32 [] = none
parse_u32 (c ∷ s) =
    if nat_eq (code c) b'+' then fit_u32 (read_nat s) else fit_u32 (read_nat (c ∷ s))

abbrev is_digit : Char → Bool
is_digit c = leb b'0' (code c) && leb (code c) b'9'

abbrev all_digits : String → Bool
all_digits [] = true
all_digits (c ∷ s) = is_digit c && all_digits s

all_digits-char :
    (c : Char) (rest : String)
    → is_digit c ≡ true
    → all_digits rest ≡ true
    → all_digits ((c ∷ "") <> rest) ≡ true
all_digits-char c rest h k = rw (cons-append c "" rest, nil-append rest, h) k

all_digits-digit :
    (d : ℕ) (rest : String) → all_digits rest ≡ true → all_digits (digit d <> rest) ≡ true
all_digits-digit zero rest h = all_digits-char "0" rest refl h
all_digits-digit (suc zero) rest h = all_digits-char "1" rest refl h
all_digits-digit (suc (suc zero)) rest h = all_digits-char "2" rest refl h
all_digits-digit (suc (suc (suc zero))) rest h = all_digits-char "3" rest refl h
all_digits-digit (suc (suc (suc (suc zero)))) rest h = all_digits-char "4" rest refl h
all_digits-digit (suc (suc (suc (suc (suc zero))))) rest h = all_digits-char "5" rest refl h
all_digits-digit (suc (suc (suc (suc (suc (suc zero)))))) rest h = all_digits-char "6" rest refl h
all_digits-digit (suc (suc (suc (suc (suc (suc (suc zero))))))) rest h =
    all_digits-char "7" rest refl h
all_digits-digit (suc (suc (suc (suc (suc (suc (suc (suc zero)))))))) rest h =
    all_digits-char "8" rest refl h
all_digits-digit (suc (suc (suc (suc (suc (suc (suc (suc (suc d))))))))) rest h =
    all_digits-char "9" rest refl h

all_digits-show_before :
    (fuel n : ℕ) (rest : String)
    → all_digits rest ≡ true
    → all_digits (show_before fuel n rest) ≡ true
unfolding show_before
all_digits-show_before zero n rest h = h
all_digits-show_before (suc fuel) n rest h = elim (Bool-cases (ltb n 10)) [
  | inl small ↦ rw small (all_digits-digit n rest h)
  | inr large ↦ rw large (
      all_digits-show_before fuel (n / 10) (digit (n % 10) <> rest)
        (all_digits-digit (n % 10) rest h))
]

all_digits-show_nat : (n : ℕ) → all_digits (show_nat n) ≡ true
unfolding show_nat
all_digits-show_nat n = all_digits-show_before 20 n "" refl

trim_end-line : (s : String) → all_digits s ≡ true → trim_end (s <> "\n") ≡ s
unfolding trim_end
trim_end-line [] h = refl
trim_end-line (c ∷ s) h = rw (cons-append c s "\n") (ground (arith, trim_end-line s))

trim_start-digits : (s : String) → s ≢ "" → all_digits s ≡ true → trim_start (s <> "\n") ≡ s <> "\n"
unfolding trim_start
trim_start-digits [] h k = elim (h refl) [ ]
trim_start-digits (c ∷ s) h k = rw (cons-append c s "\n") (ground arith)

-- A line with a number holds that number.
pub trim-show_nat : (n : ℕ) → trim (show_nat n <> "\n") ≡ show_nat n
unfolding trim
trim-show_nat n =
    let digits = all_digits-show_nat n in
    rw (trim_start-digits (show_nat n) (show_nat-ne-empty n) digits)
      (trim_end-line (show_nat n) digits)

parse_digits :
    (s : String) (n : ℕ)
    → s ≢ ""
    → all_digits s ≡ true
    → read_digits 0 s ≡ some n
    → n ≤ u32_max
    → parse_u32 s ≡ some n
unfolding parse_u32 read_nat read_digits
parse_digits [] n h k e b = elim (h refl) [ ]
parse_digits (c ∷ s) n h k e b = ground arith

pub parse_u32-show_nat : (n : ℕ) → n ≤ u32_max → parse_u32 (show_nat n) ≡ some n
parse_u32-show_nat n h =
    parse_digits (show_nat n) n (show_nat-ne-empty n) (all_digits-show_nat n)
      (read_digits-show_nat n (omega (arith, h))) h
