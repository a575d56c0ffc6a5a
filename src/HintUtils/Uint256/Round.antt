-- ===== src/HintUtils/Uint256/Round.antt =====
-- The halves of a `Uint256`, and the limbs of a `Uint384`, against the number that they stand for.
use native.Mathlib.Nat.{mod-eq_of_lt}
use keth.Prelude.{ℕ, ◌+◌, ◌*◌, ◌/◌, ◌^◌, ◌<◌, ◌≡◌, ap, ◌∙◌, sym, arith, All, length}
use keth.Machine.{Felt252}
use keth.HintUtils.Uint256
use keth.HintUtils.Uint256.{Uint256}
use keth.HintUtils.Uint384
use keth.HintUtils.Uint384.{Uint384}
use keth.HintUtils.Limbs
use keth.HintUtils.Round.{from_small, split_limb, pack-split, split-pack}

-- A number below 2 ^ 256 is split into halves that pack to it.
pub pack-split_256 : (F : Felt252) (n : ℕ) → n < 2 ^ 256 → Uint256.pack (Uint256.split F n) ≡ n
unfolding Uint256.pack Uint256.split
pack-split_256 F n h =
    omega (arith, split_limb F n 128 (omega arith), from_small F (n / 2 ^ 128) (omega arith))

-- Halves below 2 ^ 128 are what splitting their number gives.
pub split-pack_256 :
    (F : Felt252) (u : Uint256)
    → u.low < 2 ^ 128
    → u.high < 2 ^ 128
    → Uint256.split F (Uint256.pack u) ≡ u
unfolding Uint256.pack Uint256.split
split-pack_256 F u low high = ground (
  arith,
  split_limb F (u.high * 2 ^ 128 + u.low) 128 (omega arith),
  from_small F ((u.high * 2 ^ 128 + u.low) / 2 ^ 128) (omega arith),
)

-- The conversion of a felt, a number below the prime, by division agrees with the split of that
-- number by mask and shift.
pub from_felt-eq-split :
    (F : Felt252) (x : ℕ) → x < F.prime → Uint256.from_felt F x ≡ Uint256.split F x
unfolding Uint256.from_felt Uint256.split
from_felt-eq-split F x h = ground (
  arith,
  F.div_rem_lem x (2 ^ 128) (omega arith),
  split_limb F x 128 (omega arith),
  from_small F (x / 2 ^ 128) (omega (arith, F.prime_lem)),
)

-- A number below 2 ^ 384 is split into limbs that pack to it.
pub pack-split_384 : (F : Felt252) (n : ℕ) → n < 2 ^ 384 → Uint384.pack (Uint384.split F n) ≡ n
unfolding Uint384.pack Uint384.split
pack-split_384 F n h = pack-split F n 4 96 (omega arith) ∙ mod-eq_of_lt h

-- Four limbs below 2 ^ 96 are what splitting their number gives.
pub split-pack_384 :
    (F : Felt252) (u : Uint384)
    → length u.limbs ≡ 4
    → All (λ x. x < 2 ^ 96) u.limbs
    → Uint384.split F (Uint384.pack u) ≡ u
unfolding Uint384.pack Uint384.split
split-pack_384 F u four small =
    ap (λ l. record { limbs = l })
      (ap (λ (n : ℕ). Limbs.split F (Limbs.pack u.limbs 96) n 96) (sym four)
        ∙ split-pack F u.limbs 96 (omega arith) small)
