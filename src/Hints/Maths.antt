-- ===== src/Hints/Maths.antt =====
-- hint_definitions/maths.rs: felts as byte strings, and small tests on felts.
pub mod And
pub mod ToBytes
use keth.Prelude.{
  ℕ, ◌+◌, ◌-◌, ◌*◌, ◌/◌, ◌%◌, ◌^◌, bit_and, Bool, true, false, List, [], ◌∷◌, ◌++◌, map, ltb, leb,
  ◌==◌, if◌then◌else◌, from_bool, Result, ok, err, panic, Action, pure, lift, reads, ok_or, ◌>>=◌,
  ◌>>◌, length, take, drop, get_or, custom_hint, felt_to_usize,
}
use keth.Prelude.Words.{shl_one_u128, to_le_bytes}
use keth.Machine.{Felt252, Machine, int}

module _ (F : Felt252) where
  -- the closure `to_limbs`
  unfoldable pub to_limbs : ℕ → Result (List ℕ)
  to_limbs x =
      let limbs = F.to_le_digits x in
      if bit_and (get_or limbs 3 0) 0xf800000000000000 == 0
      then ok limbs
      else err (custom_hint "IntegerBiggerThanPowerOfTwo")

  -- the loop over the zipped limbs
  unfoldable pub and_limbs : List ℕ → List ℕ → List ℕ
  and_limbs [] ys = []
  and_limbs (x ∷ xs) [] = []
  and_limbs (x ∷ xs) (y ∷ ys) = bit_and x y ∷ and_limbs xs ys

  unfoldable pub felt252_bit_and : ℕ → ℕ → Result ℕ
  unfolding and_limbs
  felt252_bit_and num_x num_y = elim (to_limbs num_x) [
    | err e ↦ err e
    | panic ↦ panic
    | ok limbs_x ↦ elim (to_limbs num_y) [
      | err e ↦ err e
      | panic ↦ panic
      | ok limbs_y ↦
          let limbs_xy = and_limbs limbs_x limbs_y in
          ok (
            F.from_bytes_le_slice (
              to_le_bytes 8 (get_or limbs_xy 0 0)
              ++ (to_le_bytes 8 (get_or limbs_xy 1 0)
                  ++ (to_le_bytes 8 (get_or limbs_xy 2 0) ++ to_le_bytes 8 (get_or limbs_xy 3 0)))))
    ]
  ]

module _ (F : Felt252) (overflow_checks : Bool) where
  -- `truncated_value` of both conversions. For `len < 32` the product `len * 8` is in range.
  unfoldable pub truncate_value : ℕ → ℕ → Result ℕ
  truncate_value value len =
      if ltb len 32
      then elim (shl_one_u128 overflow_checks (len * 8)) [
        | ok shifted ↦ felt252_bit_and F value (F.from (shifted - 1))
        | err e ↦ err e
        | panic ↦ panic
      ]
      else ok value

  -- The bytes that `felt252_to_bytes_le` writes; `split_at` panics past the 32 bytes.
  unfoldable pub bytes_le : ℕ → ℕ → Result (List ℕ)
  bytes_le value len = elim (truncate_value value len) [
    | ok truncated ↦ if leb len 32 then ok (take len (F.to_bytes_le truncated)) else panic
    | err e ↦ err e
    | panic ↦ panic
  ]

  -- The bytes that `felt252_to_bytes_be` writes. In a release build `32 - len` wraps past 32 to an
  -- index that is out of range too.
  unfoldable pub bytes_be : ℕ → ℕ → Result (List ℕ)
  bytes_be value len = elim (truncate_value value len) [
    | ok truncated ↦ if leb len 32 then ok (drop (32 - len) (F.to_bytes_be truncated)) else panic
    | err e ↦ err e
    | panic ↦ panic
  ]

module _ {S Ids : Type 0} (F : Felt252) (m : Machine S Ids) (overflow_checks : Bool)
    (ids : Ids) where
  unfoldable pub felt252_to_bytes_le : Action S (Unit {0})
  unfolding bytes_le
  felt252_to_bytes_le = do
    value ← reads (m.get_integer_from_var_name ids "value")
    len_felt ← reads (m.get_integer_from_var_name ids "len")
    output_ptr ← reads (m.get_ptr_from_var_name ids "output")
    len ← lift (ok_or (F.try_usize len_felt) (felt_to_usize len_felt))
    bytes ← lift (bytes_le F overflow_checks value len)
    m.write_arg output_ptr (map int bytes)

  unfoldable pub felt252_to_bytes_be : Action S (Unit {0})
  unfolding bytes_be
  felt252_to_bytes_be = do
    value ← reads (m.get_integer_from_var_name ids "value")
    len_felt ← reads (m.get_integer_from_var_name ids "len")
    output_ptr ← reads (m.get_ptr_from_var_name ids "output")
    len ← lift (ok_or (F.try_usize len_felt) (felt_to_usize len_felt))
    bytes ← lift (bytes_be F overflow_checks value len)
    m.write_arg output_ptr (map int bytes)

module _ {S Ids : Type 0} (F : Felt252) (m : Machine S Ids) (ids : Ids) where
  -- `Felt252::MAX` is the prime less one.
  unfoldable pub is_positive_hint : Action S (Unit {0})
  is_positive_hint = do
    value ← reads (m.get_integer_from_var_name ids "value")
    m.insert_value_from_var_name ids "is_positive"
        (int (from_bool (leb value (F.from ((F.prime - 1) / 2)))))

  unfoldable pub value_len_mod_two : Action S (Unit {0})
  value_len_mod_two = do
    len ← reads (m.get_integer_from_var_name ids "len")
    m.insert_value_from_var_name ids "remainder" (int (F.from (len % 2)))
