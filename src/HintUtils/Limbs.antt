-- ===== src/HintUtils/Limbs.antt =====
-- `split` and `pack`: a number as limbs of `num_bits_shift` bits, the lowest first.
use keth.Prelude.{ℕ, zero, suc, ◌+◌, ◌-◌, ◌*◌, ◌/◌, ◌^◌, bit_and, List, [], ◌∷◌}
use keth.Machine.{Felt252}

-- The loop takes the low bits off `num` and shifts it, `size` times.
unfoldable pub split : Felt252 → ℕ → ℕ → ℕ → List ℕ
split F num zero num_bits_shift = []
split F num (suc size) num_bits_shift =
    F.from (bit_and num (2 ^ num_bits_shift - 1))
    ∷ split F (num / 2 ^ num_bits_shift) size num_bits_shift

-- The sum of `limb << (i * num_bits_shift)`, from limb `i` on.
unfoldable pub pack_from : List ℕ → ℕ → ℕ → ℕ
pack_from [] i num_bits_shift = 0
pack_from (limb ∷ limbs) i num_bits_shift =
    limb * 2 ^ (i * num_bits_shift) + pack_from limbs (i + 1) num_bits_shift

unfoldable pub pack : List ℕ → ℕ → ℕ
unfolding pack_from
pack limbs num_bits_shift = pack_from limbs 0 num_bits_shift
