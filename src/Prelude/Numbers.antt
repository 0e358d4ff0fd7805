-- ===== src/Prelude/Numbers.antt =====
-- Machine integers: `i64` as a signed number, and the ranges of the fixed widths.
use Prim.Native.Nat.{ℕ, zero, suc, ◌+◌, ◌*◌, ◌/◌, ◌%◌, ◌^◌}
use mathlib.Core.Bool.{Bool, false, ◌&&◌, ◌||◌}
use middlesox.Prelude.Tests.{ltb, nat_eq, if◌then◌else◌}

-- `negsuc n` is -(n + 1).
pub data ℤ : Type 0 where
  pos : ℕ → ℤ
  negsuc : ℕ → ℤ

abbrev pub int_eq : ℤ → ℤ → Bool
int_eq (pos a) (pos b) = nat_eq a b
int_eq (negsuc a) (negsuc b) = nat_eq a b
int_eq _ _ = false

abbrev pub i64_max : ℕ
i64_max = 9223372036854775807

abbrev pub u32_max : ℕ
u32_max = 4294967295

abbrev pub u32_mod : ℕ
u32_mod = 4294967296

-- The exponent j at which num / (den * 2^j) has 53 bits, searched upwards from the given one.
exponent_from : ℕ → ℕ → ℕ → ℕ → ℕ
exponent_from zero j num den = j
exponent_from (suc fuel) j num den =
    let more = exponent_from fuel (j + 1) num den in
    if ltb (num / (den * 2 ^ j)) (2 ^ 53) then j else more

abbrev round_half_even : ℕ → ℕ → ℕ
round_half_even num den =
    let q = num / den in
    let twice = 2 * (num % den) in
    if ltb den twice || (nat_eq den twice && nat_eq (q % 2) 1) then q + 1 else q

-- The bits of the `f64` nearest to n / d, for 0 < d and n / d between 2^-12 and 2^64.
unfoldable pub f64_ratio : ℕ → ℕ → ℕ
unfolding exponent_from
f64_ratio n d =
    if nat_eq n 0
    then 0
    else (let j = exponent_from 128 0 (n * 2 ^ 64) d in
        (1010 + j) * 2 ^ 52 + round_half_even (n * 2 ^ 64) (d * 2 ^ j))
