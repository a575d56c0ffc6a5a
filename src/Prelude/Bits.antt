-- ===== src/Prelude/Bits.antt =====
-- `&` with a low mask, as arithmetic, at every width.
use Prim.Native.Nat.{
  ℕ, zero, suc, ◌+◌, ◌-◌, ◌*◌, ◌/◌, ◌%◌, ◌^◌, ◌≤◌, ◌<◌, min, bit_and, digits, bit_and-bitwise,
}
use mathlib.Core.Path.{◌≡◌, refl, ap, ap₂, sym, ◌∙◌}
use native.Mathlib.Nat.{pow-suc, one-le-pow}
use native.Mathlib.Omega.{arith}

-- The digits that `&` computes, with a bound on their number.
abbrev and_within : ℕ → ℕ → ℕ → ℕ
and_within bound x y = digits (λ rest. zero) min bound x y

-- One digit more than enough changes nothing.
one_more : (bound x y : ℕ) → x ≤ bound → and_within (suc bound) x y ≡ and_within bound x y
one_more zero zero y enough = refl
one_more (suc bound) zero y enough = refl
one_more (suc bound) (suc x) y enough =
    omega (arith, one_more bound (suc x / 2) (y / 2) (omega arith))
one_more zero (suc x) y enough = absurd (omega arith)

many_more :
    (gap bound limit x y : ℕ)
    → limit ≡ gap + bound
    → x ≤ bound
    → and_within limit x y ≡ and_within bound x y
many_more zero bound limit x y sum enough = ap (λ (t : ℕ). and_within t x y) (omega arith)
many_more (suc gap) bound zero x y sum enough = absurd (omega arith)
many_more (suc gap) bound (suc limit) x y sum enough =
    one_more limit x y (omega arith) ∙ many_more gap bound limit x y (omega arith) enough

-- Half a number has enough digits within the number before it.
half_within : (x y : ℕ) → and_within x (suc x / 2) y ≡ bit_and (suc x / 2) y
half_within x y =
    let half : ℕ = suc x / 2 in
    many_more (x - half) half x half y (omega arith) (omega arith) ∙ sym (bit_and-bitwise half y)

zero_and : (y : ℕ) → bit_and 0 y ≡ 0
zero_and = bit_and-bitwise 0

-- The lowest digit is the lesser one; the others are those of the halves.
pub bit_and_step : (x y : ℕ) → bit_and x y ≡ min (x % 2) (y % 2) + 2 * bit_and (x / 2) (y / 2)
bit_and_step (suc x) y = omega (arith, half_within x (y / 2), bit_and-bitwise (suc x) y)
bit_and_step zero y = omega (arith, zero_and (y / 2), zero_and y)

below_both : (bound x y : ℕ) → x ≤ bound → (bit_and x y ≤ x) × (bit_and x y ≤ y)
below_both bound zero y enough = (omega (arith, zero_and y), omega (arith, zero_and y))
below_both zero (suc x) y enough = absurd (omega arith)
below_both (suc bound) (suc x) y enough =
    let (left, right) = below_both bound (suc x / 2) (y / 2) (omega arith) in
    let step = bit_and_step (suc x) y in (omega (arith, step), omega (arith, step))

pub bit_and-le : (a b : ℕ) → bit_and a b ≤ a
bit_and-le a b = (below_both a a b (omega arith)).0

pub bit_and-zero : (a : ℕ) → bit_and a 0 ≡ 0
bit_and-zero a = omega (arith, (below_both a a 0 (omega arith)).1)

double_shift : (q k : ℕ) → q * 2 ^ suc k ≡ 2 * (q * 2 ^ k)
double_shift q k = omega (arith, ap (λ (t : ℕ). q * t) (pow-suc 2 k))

bit_and_parts : (k q r : ℕ) → r < 2 ^ k → bit_and (q * 2 ^ k + r) (2 ^ k - 1) ≡ r
bit_and_parts zero q r fits = ground (arith, bit_and-zero (q * 2 ^ 0 + r))
bit_and_parts (suc k) q r fits = ground (
  arith,
  bit_and_step (q * 2 ^ suc k + r) (2 ^ suc k - 1),
  double_shift q k,
  pow-suc 2 k,
  bit_and_parts k q (r / 2) (omega (arith, pow-suc 2 k)),
)

-- A mask of `k` low bits is the remainder by `2 ^ k`.
pub bit_and_mask : (k a : ℕ) → bit_and a (2 ^ k - 1) ≡ a % 2 ^ k
bit_and_mask k a = ground (arith, one-le-pow k 2, bit_and_parts k (a / 2 ^ k) (a % 2 ^ k))

-- The low `k` bits and those above them are and-ed apart.
pub bit_and-split :
    (k a b c d : ℕ)
    → a < 2 ^ k
    → c < 2 ^ k
    → bit_and (a + 2 ^ k * b) (c + 2 ^ k * d) ≡ bit_and a c + 2 ^ k * bit_and b d
bit_and-split zero a b c d p q =
    let left : a + 2 ^ 0 * b ≡ b = omega arith in
    let right : c + 2 ^ 0 * d ≡ d = omega arith in
    let none : a ≡ 0 = omega arith in
    omega (arith, ap₂ bit_and left right, ap (λ (t : ℕ). bit_and t c) none, zero_and c)
bit_and-split (suc k) a b c d p q =
    let left : (a + 2 ^ suc k * b) / 2 ≡ a / 2 + 2 ^ k * b = omega (arith, double_shift b k) in
    let right : (c + 2 ^ suc k * d) / 2 ≡ c / 2 + 2 ^ k * d = omega (arith, double_shift d k) in
    let left_bit : (a + 2 ^ suc k * b) % 2 ≡ a % 2 = omega (arith, double_shift b k) in
    let right_bit : (c + 2 ^ suc k * d) % 2 ≡ c % 2 = omega (arith, double_shift d k) in
    omega (
      arith,
      bit_and_step (a + 2 ^ suc k * b) (c + 2 ^ suc k * d),
      bit_and_step a c,
      ap₂ bit_and left right,
      left_bit,
      right_bit,
      bit_and-split k (a / 2) b (c / 2) d (omega (arith, pow-suc 2 k)) (omega (arith, pow-suc 2 k)),
      double_shift (bit_and b d) k,
    )
