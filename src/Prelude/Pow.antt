-- ===== src/Prelude/Pow.antt =====
-- Powers of two, and the digits of a remainder.
use Prim.Native.Nat.{ℕ, zero, suc, ◌+◌, ◌-◌, ◌*◌, ◌/◌, ◌%◌, ◌^◌, ◌≤◌, ◌<◌}
use mathlib.Core.Path.{◌≡◌, ap, sym}
use native.Mathlib.Nat.{
  pow-suc, one-le-pow, div-add-mod, div-div-eq-div-mul, add-zero, mul-le-mul_left,
}
use native.Mathlib.Omega.{arith}

pub pow-add : (a b : ℕ) → 2 ^ (a + b) ≡ 2 ^ a * 2 ^ b
pow-add a zero = rw add-zero (omega arith)
pow-add a (suc b) =
    let e : a + suc b ≡ suc (a + b) = omega arith in
    rw e (omega (arith, pow-suc 2 (a + b), pow-add a b, ap (λ (t : ℕ). 2 ^ a * t) (pow-suc 2 b)))

pub pow_pos : (n : ℕ) → 0 < 2 ^ n
pow_pos n = one-le-pow n 2 (omega arith)

pub pow_mono : (a b : ℕ) → a ≤ b → 2 ^ a ≤ 2 ^ b
pow_mono a b h =
    let e : a + (b - a) ≡ b = omega arith in
    omega
      (arith, ap (λ (t : ℕ). 2 ^ t) e, pow-add a (b - a), mul-le-mul_left (2 ^ a) (pow_pos (b - a)))

-- A remainder by a product has two digits.
pub mod-mul : (x m n : ℕ) → x % (m * n) ≡ x / m % n * m + x % m
mod-mul x m n = omega (
  arith,
  div-add-mod x (m * n),
  div-add-mod x m,
  ap (λ (t : ℕ). m * t) (div-add-mod (x / m) n),
  ap (λ (t : ℕ). m * n * t) (div-div-eq-div-mul x m n),
)

pub mod-pow-add : (x a b : ℕ) → x % 2 ^ (a + b) ≡ x / 2 ^ a % 2 ^ b * 2 ^ a + x % 2 ^ a
mod-pow-add x a b = rw (pow-add a b) (mod-mul x (2 ^ a) (2 ^ b))

pub div-pow-add : (x a b : ℕ) → x / 2 ^ (a + b) ≡ x / 2 ^ a / 2 ^ b
div-pow-add x a b = rw (pow-add a b) (sym (div-div-eq-div-mul x (2 ^ a) (2 ^ b)))
