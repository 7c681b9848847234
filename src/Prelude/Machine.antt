-- ===== src/Prelude/Machine.antt =====
-- Go's int64 and float64, as far as the code computes with them.
use floxy_pro.Prelude.{
  Bool, arith, false, if◌then◌else◌, ltb, nat_eq, refl, suc, zero, ℕ, ◌%◌, ◌*◌, ◌+◌, ◌-◌, ◌/◌, ◌<◌,
  ◌==◌, ◌^◌, ◌≡◌,
}

pub data ℤ : Type 0 where
  pos : ℕ → ℤ
  negsuc : ℕ → ℤ

abbrev pub is_zero : ℤ → Bool
is_zero (pos n) = n == 0
is_zero (negsuc n) = false

-- The int64 that a product leaves: its last 64 bits, in two's complement.
abbrev pub wrap64 : ℕ → ℤ
wrap64 n =
    let bits = n % 2 ^ 64 in if ltb bits (2 ^ 63) then pos bits else negsuc (2 ^ 64 - 1 - bits)

-- What the last of 53 bits of the number stands for; a number below 2^64 has at most 11 bits more.
unfoldable pub unit_of : ℕ → ℕ → ℕ
unit_of zero n = 1
unit_of (suc fuel) n = let rest = unit_of fuel (n / 2) in if ltb n (2 ^ 53) then 1 else 2 * rest

-- The nearest multiple of the unit, and of two the even one.
abbrev pub to_nearest : ℕ → ℕ → ℕ
to_nearest n unit =
    let count = n / unit in
    let rest = n % unit in
    if ltb (2 * rest) unit
    then count * unit
    else if ltb unit (2 * rest)
    then suc count * unit
    else (count + count % 2) * unit

-- `float64(n)` of an int64 that is not negative.
unfoldable pub float64_of : ℕ → ℕ
unfolding unit_of
float64_of n = to_nearest n (unit_of 11 n)

unit_of_one : (fuel n : ℕ) → n < 2 ^ 53 → unit_of fuel n ≡ 1
unfolding unit_of
unit_of_one zero n small = refl
unit_of_one (suc fuel) n small = ground arith

to_nearest-one : (n : ℕ) → to_nearest n 1 ≡ n
to_nearest-one n =
    let whole : n / 1 ≡ n = omega arith in
    let exact : n % 1 ≡ 0 = omega arith in rw (exact, whole) (omega arith)

-- A number of at most 53 bits is exact.
pub float64_of-exact : (n : ℕ) → n < 2 ^ 53 → float64_of n ≡ n
unfolding float64_of
float64_of-exact n small = rw (unit_of_one 11 n small) (to_nearest-one n)

pub wrap64-pos : (n : ℕ) → n < 2 ^ 63 → wrap64 n ≡ pos n
wrap64-pos n small = let low : n % 2 ^ 64 ≡ n = omega arith in ground (arith, low)
