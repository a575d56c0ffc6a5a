-- ===== src/HintUtils/Round.antt =====
-- Splitting a number into limbs and packing them are inverse, for every width that fits a felt.
use keth.Prelude.{
  ℕ, zero, suc, ◌+◌, ◌-◌, ◌*◌, ◌/◌, ◌%◌, ◌^◌, ◌<◌, ◌≤◌, bit_and, List, [], ◌∷◌, ◌≡◌, refl, arith,
  All, ap, ◌∙◌, length,
}
use keth.Prelude.Bits.{bit_and_mask}
use keth.Prelude.Arith.{pow-add, mod-mul, div-digit, mod-digit, pow-pos, pow-zero-mul}
use keth.Machine.{Felt252}
use keth.HintUtils.Limbs.{split, pack, pack_from}
use native.Mathlib.Nat.{mod-eq_of_lt, mod-lt, pow-le-pow_right}

-- A number of at most 251 bits fits a felt: converting it loses nothing.
pub from_small : (F : Felt252) (n : ℕ) → n < 2 ^ 251 → F.from n ≡ n
from_small F n h = F.from_lem n ∙ mod-eq_of_lt (omega (arith, F.prime_lem))

pub pow-le-251 : (b : ℕ) → b ≤ 251 → 2 ^ b ≤ 2 ^ 251
pow-le-251 b h = pow-le-pow_right {n = 2} (omega arith) h

-- What one round of the loop of `split` takes off.
pub split_limb : (F : Felt252) (n b : ℕ) → b ≤ 251 → F.from (bit_and n (2 ^ b - 1)) ≡ n % 2 ^ b
split_limb F n b h =
    ap F.from (bit_and_mask b n)
    ∙ from_small F (n % 2 ^ b) (omega (arith, mod-lt n (pow-pos b), pow-le-251 b h))

pub length-split : (F : Felt252) (n size b : ℕ) → length (split F n size b) ≡ size
unfolding split
length-split F n zero b = refl
length-split F n (suc size) b = ap suc (length-split F (n / 2 ^ b) size b)

pub split-bounded : (F : Felt252) (n size b : ℕ) → b ≤ 251 → All (λ x. x < 2 ^ b) (split F n size b)
unfolding split
split-bounded F n zero b h = tt
split-bounded F n (suc size) b h =
    (omega (arith, split_limb F n b h, mod-lt n (pow-pos b)), split-bounded F (n / 2 ^ b) size b h)

pack_from-suc : (xs : List ℕ) (i b : ℕ) → pack_from xs (i + 1) b ≡ 2 ^ b * pack_from xs i b
unfolding pack_from
pack_from-suc [] i b = omega arith
pack_from-suc (x ∷ xs) i b = omega (
  arith,
  ap (λ (t : ℕ). x * t) (pow-add 2 (i * b) b),
  ap (λ (t : ℕ). x * 2 ^ t) (shift_eq i b),
  pack_from-suc xs (i + 1) b,
)
  where
    shift_eq : (i b : ℕ) → (i + 1) * b ≡ i * b + b
    shift_eq i b = omega arith

pub pack-cons : (x : ℕ) (xs : List ℕ) (b : ℕ) → pack (x ∷ xs) b ≡ x + 2 ^ b * pack xs b
unfolding pack
pack-cons x xs b = omega (arith, pack_from-suc xs 0 b, ap (λ (t : ℕ). x * t) (pow-zero-mul b))

-- Packing what `split` returns, for limbs of at most 251 bits, gives the number back, cut to the
-- bits of the limbs.
pub pack-split :
    (F : Felt252) (n size b : ℕ) → b ≤ 251 → pack (split F n size b) b ≡ n % 2 ^ (size * b)
unfolding split
pack-split F n zero b h = unfold pack in omega (arith, ap (λ (t : ℕ). n % t) (pow-zero-mul b))
pack-split F n (suc size) b h =
    let digits : 2 ^ (suc size * b) ≡ 2 ^ b * 2 ^ (size * b) =
      ap (λ (t : ℕ). 2 ^ t) (omega arith) ∙ pow-add 2 b (size * b) in
    omega (
      arith,
      pack-cons (F.from (bit_and n (2 ^ b - 1))) (split F (n / 2 ^ b) size b) b,
      split_limb F n b h,
      ap (λ (t : ℕ). 2 ^ b * t) (pack-split F (n / 2 ^ b) size b h),
      mod-mul n (2 ^ b) (2 ^ (size * b)),
      ap (λ (t : ℕ). n % t) digits,
    )

-- Splitting what `pack` returns into as many limbs gives the limbs back, if each fits the width,
-- which is at most 251 bits.
pub split-pack :
    (F : Felt252) (xs : List ℕ) (b : ℕ)
    → b ≤ 251
    → All (λ x. x < 2 ^ b) xs
    → split F (pack xs b) (length xs) b ≡ xs
unfolding split
split-pack F [] b h small = refl
split-pack F (x ∷ xs) b h small = rw (
  split_limb F (pack (x ∷ xs) b) b h,
  pack-cons x xs b,
  mod-digit x (pack xs b) (2 ^ b) small.0,
  div-digit x (pack xs b) (2 ^ b) small.0,
  split-pack F xs b h small.1,
)
