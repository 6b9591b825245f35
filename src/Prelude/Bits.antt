-- ===== src/Prelude/Bits.antt =====
-- `&` and `|` of the native numbers at variables: the digit recursion, masks and disjoint fields.
use Prim.Native.Nat.{
  ℕ, zero, suc, ◌+◌, ◌-◌, ◌*◌, ◌/◌, ◌%◌, ◌^◌, ◌≤◌, ◌<◌, min, max, bit_and, bit_or, digits, bitwise,
  bit_and-bitwise, bit_or-bitwise, bit_xor, bit_xor-bitwise, differ,
}
use mathlib.Core.Path.{◌≡◌, refl, ap, ◌∙◌, sym}
use mathlib.Core.Bool.{Bool, true, ◌&&◌}
use native.Mathlib.Nat.{le_refl, pow-suc, one-le-pow, div-add-mod, div-div-eq-div-mul}
use native.Mathlib.Decide.{dec_le}
use native.Mathlib.Omega.{arith}

-- Fuel beyond the first argument changes nothing, one unit of it at a time.
module _ (base : ℕ → ℕ) (op : ℕ → ℕ → ℕ) where
  one_more : (fuel x y : ℕ) → x ≤ fuel → digits base op (suc fuel) x y ≡ digits base op fuel x y
  one_more zero zero y h = refl
  one_more (suc fuel) zero y h = refl
  one_more zero (suc x) y h = absurd (omega arith)
  one_more (suc fuel) (suc x) y h = rw (one_more fuel (suc x / 2) (y / 2) (omega arith)) refl

  enough : (fuel x y : ℕ) → x ≤ fuel → digits base op fuel x y ≡ bitwise base op x y
  enough zero zero y h = refl
  enough zero (suc x) y h = absurd (omega arith)
  enough (suc fuel) x y h = elim (dec_le x fuel) [
    | yes within ↦ one_more fuel x y within ∙ enough fuel x y within
    | no beyond ↦ let all : x ≡ suc fuel = omega arith in rw all refl
  ]

-- The lowest digit of `|` is the greater of the lowest digits, and of `&` the lesser.
pub bit_or_step : (x y : ℕ) → bit_or x y ≡ bit_or (x / 2) (y / 2) * 2 + max (x % 2) (y % 2)
bit_or_step x y = simp bit_or-bitwise (lowest x)
  where
    lowest :
        (n : ℕ)
        → bitwise (λ d. d) max n y ≡ bitwise (λ d. d) max (n / 2) (y / 2) * 2 + max (n % 2) (y % 2)
    lowest zero = omega arith
    lowest (suc n) =
        let shorter = enough (λ d. d) max n (suc n / 2) (y / 2) (omega arith) in
        omega (arith, shorter)

pub bit_and_step : (x y : ℕ) → bit_and x y ≡ bit_and (x / 2) (y / 2) * 2 + min (x % 2) (y % 2)
bit_and_step x y = simp bit_and-bitwise (lowest x)
  where
    lowest :
        (n : ℕ)
        → bitwise (λ d. 0) min n y ≡ bitwise (λ d. 0) min (n / 2) (y / 2) * 2 + min (n % 2) (y % 2)
    lowest zero = omega arith
    lowest (suc n) =
        let shorter = enough (λ d. 0) min n (suc n / 2) (y / 2) (omega arith) in
        omega (arith, shorter)

and_digits-zero : (n a : ℕ) → digits (λ b. zero) min n a 0 ≡ 0
and_digits-zero zero zero = refl
and_digits-zero zero (suc a) = refl
and_digits-zero (suc n) zero = refl
and_digits-zero (suc n) (suc a) = omega (arith, and_digits-zero n (suc a / 2))

or_digits-zero : (n a : ℕ) → a ≤ n → digits (λ b. b) max n a 0 ≡ a
or_digits-zero zero zero h = refl
or_digits-zero zero (suc a) h = absurd (omega arith)
or_digits-zero (suc n) zero h = refl
or_digits-zero (suc n) (suc a) h = omega (arith, or_digits-zero n (suc a / 2) (omega arith))

pub bit_and-zero : (a : ℕ) → bit_and a 0 ≡ 0
bit_and-zero a = bit_and-bitwise a 0 ∙ and_digits-zero a a

pub zero-bit_and : (b : ℕ) → bit_and 0 b ≡ 0
zero-bit_and b = bit_and-bitwise 0 b

pub bit_or-zero : (a : ℕ) → bit_or a 0 ≡ a
bit_or-zero a = bit_or-bitwise a 0 ∙ or_digits-zero a a (le_refl a)

differ_self : (d : ℕ) → differ d d ≡ 0
differ_self zero = refl
differ_self (suc d) = differ_self d

xor_digits_self : (n a : ℕ) → a ≤ n → digits (λ b. b) differ n a a ≡ 0
xor_digits_self zero zero h = refl
xor_digits_self zero (suc a) h = absurd (omega arith)
xor_digits_self (suc n) zero h = refl
xor_digits_self (suc n) (suc a) h =
    omega (arith, xor_digits_self n (suc a / 2) (omega arith), differ_self (suc a % 2))

pub bit_xor_self : (a : ℕ) → bit_xor a a ≡ 0
bit_xor_self a = bit_xor-bitwise a a ∙ xor_digits_self a a (le_refl a)

-- `x & (((1 << n) - 1) << k)` keeps the `n` bits from bit `k` on, in their place.
abbrev pub field_mask : ℕ → ℕ → ℕ
field_mask k n = (2 ^ n - 1) * 2 ^ k

double : (q k : ℕ) → q * 2 ^ suc k ≡ 2 * (q * 2 ^ k)
double q k = omega (arith, ap (λ (t : ℕ). q * t) (pow-suc 2 k))

div-double : (a m : ℕ) → a / (2 * m) ≡ a / 2 / m
div-double a m = sym (div-div-eq-div-mul a 2 m)

-- The binary digits of a remainder by twice `m`.
mod-double : (a m : ℕ) → 0 < m → a % (2 * m) ≡ a / 2 % m * 2 + a % 2
mod-double a m h = omega (
  arith,
  div-add-mod a (2 * m),
  div-add-mod (a / 2) m,
  ap (λ (t : ℕ). 2 * m * t) (div-double a m),
)

-- A low mask is a remainder.
pub bit_and_low : (n a : ℕ) → bit_and a (2 ^ n - 1) ≡ a % 2 ^ n
bit_and_low zero a = rw bit_and-zero (omega arith)
bit_and_low (suc n) a = ground (
  arith,
  bit_and_step a (2 ^ suc n - 1),
  pow-suc 2 n,
  one-le-pow n 2,
  bit_and_low n (a / 2),
  mod-double a (2 ^ n),
)

-- A mask of consecutive bits keeps that field, in its place.
pub bit_and_field : (k n a : ℕ) → bit_and a (field_mask k n) ≡ a / 2 ^ k % 2 ^ n * 2 ^ k
bit_and_field zero n a = ground (arith, bit_and_low n a)
bit_and_field (suc k) n a = ground (
  arith,
  bit_and_step a (field_mask (suc k) n),
  double (2 ^ n - 1) k,
  double (a / 2 / 2 ^ k % 2 ^ n) k,
  pow-suc 2 k,
  div-double a (2 ^ k),
  bit_and_field k n (a / 2),
)

-- `|` of a number of whole `2 ^ k` and a number below it is their sum.
pub bit_or_disjoint : (k q r : ℕ) → r < 2 ^ k → bit_or (q * 2 ^ k) r ≡ q * 2 ^ k + r
bit_or_disjoint zero q r h = ground (arith, bit_or-zero q)
bit_or_disjoint (suc k) q r h = ground (
  arith,
  bit_or_step (q * 2 ^ suc k) r,
  double q k,
  pow-suc 2 k,
  bit_or_disjoint k q (r / 2) (omega (arith, pow-suc 2 k)),
)

-- A test of all numbers under a bound, by evaluation; it counts up from `from` for `count` rounds.
unfoldable pub all_from : ℕ → ℕ → (ℕ → Bool) → Bool
all_from from zero test = true
all_from from (suc count) test = test from && all_from (suc from) count test

abbrev pub all_below : ℕ → (ℕ → Bool) → Bool
all_below bound test = all_from 0 bound test

passes :
    (from count : ℕ) (test : ℕ → Bool) (n : ℕ)
    → all_from from count test ≡ true
    → from ≤ n
    → n < from + count
    → test n ≡ true
unfolding all_from
passes from zero test n all lo hi = absurd (omega arith)
passes from (suc count) test n all lo hi = elim (dec_le (suc from) n) [
  | yes later ↦
      let tail : all_from (suc from) count test ≡ true = ground arith in
      passes (suc from) count test n tail later (omega arith)
  | no here ↦
      let same : n ≡ from = omega arith in
      let head : test from ≡ true = ground arith in rw same head
]

pub all_below_sound :
    (bound : ℕ) (test : ℕ → Bool) (n : ℕ) → all_below bound test ≡ true → n < bound → test n ≡ true
all_below_sound bound test n all hi = passes 0 bound test n all (omega arith) (omega arith)
