-- ===== src/Hints/Utils.antt =====
-- hint_definitions/utils.rs: comparisons of byte strings and numbers, precompile indices, and the
-- analysis of jump destinations (Utils/Jumpdest).
pub mod Jumpdest
pub mod Diff
pub mod Precompile
use Prim.Native.String.{◌++◌ as append}
use keth.Prelude.{
  ◌<◌, ℕ, zero, suc, ◌+◌, ◌-◌, ◌*◌, ◌%◌, List, [], ◌∷◌, ◌++◌, Option, some, none, Bool, true, false,
  ◌&&◌, ◌==◌, leb, ltb, if◌then◌else◌, from_bool, Result, ok, err, Action, lift, reads, pure, ok_or,
  ◌>>=◌, ◌>>◌, ◌≡◌, custom_hint, felt_to_usize, take, replicate, String, min, length, HintError,
}
use keth.Machine.{Felt252, Machine, Value, int}
use keth.HintUtils.Sequence.{serialize_sequence}

-- The first index, from `i` on, at which the common prefix of the lists differs.
unfoldable pub first_diff : ℕ → List ℕ → List ℕ → Option ℕ
first_diff i [] ys = none
first_diff i (x ∷ xs) [] = none
first_diff i (x ∷ xs) (y ∷ ys) =
    let rest = first_diff (i + 1) xs ys in if x == y then rest else some i

-- `is_diff` and `diff_index` of `Bytes__eq__`
unfoldable pub bytes_diff : List ℕ → List ℕ → ℕ × ℕ
unfolding first_diff
bytes_diff self_bytes other_bytes = elim (first_diff 0 self_bytes other_bytes) [
  | some i ↦ (1, i)
  | none ↦ (0, 0)
]

-- The addresses of the precompiled contracts in `revm_precompile`, twenty bytes each.
pub record PrecompileAddresses : Type 0 where
  pub address : ℕ → List ℕ
  -- number `k`, in big-endian bytes
  pub address_lem : (k : ℕ) → k < 256 → address k ≡ replicate 19 0 ++ (k ∷ [])

abbrev pub bytes_eq : List ℕ → List ℕ → Bool
bytes_eq [] [] = true
bytes_eq (x ∷ xs) (y ∷ ys) = x == y && bytes_eq xs ys
bytes_eq _ _ = false

-- The map `PRECOMPILE_INDICES`: ECRECOVER, SHA256, RIPEMD160, identity, MODEXP, the three of
-- BN128, BLAKE2F and KZG point evaluation.
unfoldable pub precompile_indices : PrecompileAddresses → List (List ℕ × ℕ)
precompile_indices P =
    (P.address 1, 0)
    ∷ (P.address 2, 3)
    ∷ (P.address 3, 2 * 3)
    ∷ (P.address 4, 3 * 3)
    ∷ (P.address 5, 4 * 3)
    ∷ (P.address 6, 5 * 3)
    ∷ (P.address 7, 6 * 3)
    ∷ (P.address 8, 7 * 3)
    ∷ (P.address 9, 8 * 3)
    ∷ (P.address 10, 9 * 3)
    ∷ []

abbrev pub lookup_bytes : List ℕ → List (List ℕ × ℕ) → Option ℕ
lookup_bytes k [] = none
lookup_bytes k ((j, v) ∷ rest) = if bytes_eq j k then some v else lookup_bytes k rest

-- The index of the address whose bytes are the low twenty of the felt, in that order.
unfoldable pub precompile_index : Felt252 → PrecompileAddresses → ℕ → Option ℕ
unfolding precompile_indices
precompile_index F P address_felt =
    lookup_bytes (take 20 (F.to_bytes_le address_felt)) (precompile_indices P)

module _ {S Ids : Type 0} (F : Felt252) (m : Machine S Ids) (ids : Ids) where
  unfoldable pub bytes__eq__ : Action S (Unit {0})
  unfolding serialize_sequence bytes_diff
  bytes__eq__ = do
    self_bytes ← serialize_sequence F m ids "_self"
    other_bytes ← serialize_sequence F m ids "other"
    let diff = bytes_diff self_bytes other_bytes
    m.insert_value_from_var_name ids "is_diff" (int diff.0)
    m.insert_value_from_var_name ids "diff_index" (int (F.from diff.1))

  unfoldable pub b_le_a : Action S (Unit {0})
  b_le_a = do
    a ← reads (m.get_integer_from_var_name ids "a")
    b ← reads (m.get_integer_from_var_name ids "b")
    m.insert_value_from_var_name ids "is_min_b" (int (from_bool (leb b a)))

  unfoldable pub fp_plus_2_or_0 : Action S (Unit {0})
  fp_plus_2_or_0 = do
    fp_offset ← reads (λ vm. m.add_usize (m.get_fp vm) 2)
    λ vm. elim (m.get_maybe vm fp_offset) [
      | none ↦ m.insert_value fp_offset (int 0) vm
      | some _ ↦ (ok tt, vm)
    ]

  unfoldable pub nibble_remainder : Action S (Unit {0})
  nibble_remainder = do
    bytes_ptr ← reads (m.get_ptr_from_var_name ids "x")
    len_addr ← lift (m.add_usize bytes_ptr 1)
    len_felt ← reads (λ vm. m.get_integer vm len_addr)
    len ← lift (ok_or (F.try_usize len_felt) (felt_to_usize len_felt))
    addr ← reads (λ vm. m.add_usize (m.get_fp vm) 2)
    m.insert_value addr (int (len % 2))

  -- The value is printed; the machine is left as it is.
  unfoldable pub print_maybe_relocatable_hint : Action S (Unit {0})
  print_maybe_relocatable_hint = do
    value ← reads (m.get_maybe_relocatable_from_var_name ids "x")
    pure tt

module _ {S Ids : Type 0} (F : Felt252) (m : Machine S Ids) (P : PrecompileAddresses)
    (display_address : List ℕ → String) (ids : Ids) where
  unfoldable pub precompile_index_from_address : Action S (Unit {0})
  unfolding precompile_index
  precompile_index_from_address = do
    address_felt ← reads (m.get_integer_from_var_name ids "address")
    index ← lift (
        ok_or (precompile_index F P address_felt) (
          custom_hint (
            append "Invalid precompile address: "
              (display_address (take 20 (F.to_bytes_le address_felt))))))
    m.insert_value_from_var_name ids "index" (int index)
