-- ===== src/Tests/Numbers.antt =====
-- The theorems on numbers, limbs, bytes and byte strings at concrete inputs.
use keth.Prelude.{
  ℕ, ◌+◌, ◌*◌, ◌%◌, ◌^◌, ◌≤◌, ◌-◌, List, [], ◌∷◌, ◌++◌, ◌≡◌, refl, arith, In, ◌↔◌, ◌⊎◌, ok, panic,
  true, false, length, bit_and, some, replicate, not,
}
use keth.Prelude.Bytes.{le_value}
use keth.Machine.{int, Value}
use keth.HintUtils.Limbs
use keth.HintUtils.Round.{pack-split}
use keth.Hints.Maths.{bytes_le, felt252_bit_and}
use keth.Hints.Maths.And
use keth.Hints.Maths.ToBytes
use keth.Hints.Utils.{bytes_diff, precompile_index, PrecompileAddresses}
use keth.Hints.Utils.Diff
use keth.Hints.Utils.Precompile
use keth.Hints.Utils.Jumpdest.{get_valid_jump_destinations, is_no_push_case}
use keth.Hints.Utils.Jumpdest.Scan
use keth.Hints.Utils.Jumpdest.Push
use keth.Hints.HashDict.{storage_preimages, is_zero_int}
use keth.Hints.HashDict.Listing
use keth.Dicts.{DictKey, compound}
use keth.Tests.Library.{felts}

-- Three bytes of code: JUMPDEST, PUSH1 with the data 0x5b, JUMPDEST.
abbrev code : List ℕ
code = 0x5b ∷ 0x60 ∷ 0x5b ∷ 0x5b ∷ []

get_valid_jump_destinations_iff_example :
    In 3 (get_valid_jump_destinations code) ↔ Scan.IsJumpdest code 3
get_valid_jump_destinations_iff_example = Scan.get_valid_jump_destinations_iff code 3

no_push_passes : is_no_push_case (0x5b ∷ 0x01 ∷ 0x5b ∷ []) 2 ≡ ok true
unfolding is_no_push_case
no_push_passes = refl

no_push_is_valid_example : In 2 (get_valid_jump_destinations (0x5b ∷ 0x01 ∷ 0x5b ∷ []))
no_push_is_valid_example =
    Push.no_push_is_valid (0x5b ∷ 0x01 ∷ 0x5b ∷ []) 2 no_push_passes (omega arith) refl

felt252_bit_and_lem_example :
    felt252_bit_and felts (2 ^ 200 + 12) 10 ≡ ok (bit_and (2 ^ 200 + 12) 10)
felt252_bit_and_lem_example =
    And.felt252_bit_and_lem felts (2 ^ 200 + 12) 10 (omega arith) (omega arith)

bytes_le_lem_example :
    (bytes : List ℕ) × (bytes_le felts true 1000 4 ≡ ok bytes)
    × (length bytes ≡ 4)
    × (le_value bytes ≡ 1000 % 256 ^ 4)
bytes_le_lem_example = ToBytes.bytes_le_lem felts true 1000 4 (omega arith) (omega arith)

pack-split_example : Limbs.pack (Limbs.split felts 1000 3 8) 8 ≡ 1000 % 2 ^ 24
pack-split_example = pack-split felts 1000 3 8 (omega arith)

abbrev left : List ℕ
left = 1 ∷ 2 ∷ []

abbrev right : List ℕ
right = 1 ∷ 3 ∷ []

bytes_diff_lem_example :
    ((left ≡ right) × (bytes_diff left right ≡ (0, 0)))
    ⊎ ((k : ℕ) × (bytes_diff left right ≡ (1, k)) × Diff.IsFirstDiff k left right)
bytes_diff_lem_example = Diff.bytes_diff_lem left right refl

abbrev addresses : PrecompileAddresses
addresses = record { address = λ k. replicate 19 0 ++ (k ∷ []); address_lem = λ k h. refl }

precompile_index_iff_example :
    (precompile_index felts addresses (2 * 256 ^ 19) ≡ some 3)
    ↔ ((k : ℕ) × (1 ≤ k) × (k ≤ 10) × (2 * 256 ^ 19 % 256 ^ 20 ≡ k * 256 ^ 19) × (3 ≡ 3 * (k - 1)))
precompile_index_iff_example =
    Precompile.precompile_index_iff felts addresses (2 * 256 ^ 19) (omega arith) 3

-- Two stored keys: one extends the prefix, and one has the value 0.
abbrev entries : List (DictKey × Value)
entries = (compound (int 1 ∷ int 2 ∷ []), int 5) ∷ (compound (int 1 ∷ int 3 ∷ []), int 0) ∷ []

storage_preimages_iff_example :
    In (int 1 ∷ int 2 ∷ []) (storage_preimages (int 1 ∷ []) entries)
    ↔ Listing.IsListed (λ value. not (is_zero_int value)) (int 1 ∷ []) entries (int 1 ∷ int 2 ∷ [])
storage_preimages_iff_example =
    Listing.storage_preimages_iff (int 1 ∷ []) (int 1 ∷ int 2 ∷ []) entries

bytes_le_wide_example :
    (bytes_le felts true (2 ^ 100) 20 ≡ panic)
    × ((bytes : List ℕ) × (bytes_le felts false (2 ^ 100) 20 ≡ ok bytes)
        × (length bytes ≡ 20)
        × (le_value bytes ≡ 2 ^ 100 % 2 ^ 32))
bytes_le_wide_example =
    ToBytes.bytes_le_wide felts (2 ^ 100) 20 (omega arith) (omega arith) (omega arith)
