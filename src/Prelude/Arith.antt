-- ===== src/Prelude/Arith.antt =====
-- Powers, quotients and remainders at variables.
use Prim.Native.Nat.{ℕ, zero, suc, ◌+◌, ◌*◌, ◌/◌, ◌%◌, ◌^◌, ◌<◌}
use mathlib.Core.Path.{◌≡◌, ap}
use native.Mathlib.Nat.{
  add_comm, zero-mul, zero-add, pow-zero, pow-suc, div-add-mod, div-div-eq-div-mul, mod-eq_of_lt,
  one-le-pow,
}
use native.Mathlib.Nat.{div-eq_of_lt, mul-add-div, mul-add-mod_self_left}
use native.Mathlib.Omega.{arith}

pub pow-add : (b m n : ℕ) → b ^ (m + n) ≡ b ^ m * b ^ n
pow-add b zero n =
    omega (
      arith,
      ap (λ (t : ℕ). t * b ^ n) (pow-zero b),
      ap (λ (t : ℕ). b ^ t) (zero-add n),
      pow-zero b,
    )
pow-add b (suc m) n =
    let shifted : suc m + n ≡ suc (m + n) = omega arith in
    omega (
      arith,
      ap (λ (t : ℕ). b ^ t) shifted,
      pow-suc b (m + n),
      ap (λ (t : ℕ). t * b ^ n) (pow-suc b m),
      ap (λ (t : ℕ). t * b) (pow-add b m n),
    )

-- The remainder by a product: the low digit, and the digits above it.
pub mod-mul : (n a b : ℕ) → n % (a * b) ≡ n % a + a * (n / a % b)
mod-mul n a b = omega (
  arith,
  div-add-mod n (a * b),
  ap (λ (t : ℕ). a * b * t) (div-div-eq-div-mul n a b),
  div-add-mod n a,
  ap (λ (t : ℕ). a * t) (div-add-mod (n / a) b),
)

-- A low digit and the digits above it, taken apart again.
pub div-digit : (x q b : ℕ) → x < b → (x + b * q) / b ≡ q
div-digit x q b h =
    rw (add_comm x (b * q)) (omega (arith, mul-add-div {m = b} (omega arith) q x, div-eq_of_lt h))

pub mod-digit : (x q b : ℕ) → x < b → (x + b * q) % b ≡ x
mod-digit x q b h =
    rw (add_comm x (b * q)) (omega (arith, mul-add-mod_self_left b q x, mod-eq_of_lt h))

-- No digits at all.
pub pow-zero-mul : (b : ℕ) → 2 ^ (0 * b) ≡ 1
pow-zero-mul b = ap (λ (t : ℕ). 2 ^ t) (zero-mul b)

pub pow-pos : (k : ℕ) → 0 < 2 ^ k
pow-pos k = omega (arith, one-le-pow k 2)
