-- ===== src/Hints/Precompiles.antt =====
-- hint_definitions/precompiles.rs: the gas and the output of MODEXP, and the hints that hand their
-- input to the crate `revm_precompile`.
pub mod Modexp
use keth.Prelude.{
  ℕ, zero, suc, ◌+◌, ◌-◌, ◌*◌, ◌/◌, ◌%◌, ◌^◌, ◌<◌, ◌≤◌, max, ◌&&◌, Bool, List, [], ◌∷◌, ◌++◌,
  Option, some, none, ltb, leb, ◌==◌, if◌then◌else◌, Result, ok, err, panic, Action, lift, reads,
  ◌>>=◌, ◌>>◌, ◌≡◌, length, replicate, Relocatable, unwrap, ok_or, felt_to_usize, pure, String,
}
use keth.Machine.{Felt252, Machine, Value, int, relocatable}
use keth.HintUtils.Uint256
use keth.HintUtils.Sequence.{serialize_sequence, deserialize_sequence}

-- The number of big-endian bytes (`from_bytes_be`), behind the digits read so far.
abbrev pub be_value : ℕ → List ℕ → ℕ
be_value acc [] = acc
be_value acc (b ∷ bs) = be_value (acc * 256 + b) bs

-- Big unsigned numbers (`num_bigint`) beyond the arithmetic of ℕ.
pub record BigNumbers : Type 0 where
  pub bits : ℕ → ℕ
  pub modpow : ℕ → ℕ → ℕ → ℕ
  pub from_bytes_be : List ℕ → ℕ
  pub to_bytes_be : ℕ → List ℕ
  pub bits_zero : bits 0 ≡ 0
  pub bits_bounds : (n : ℕ) → 0 < n → (2 ^ (bits n - 1) ≤ n) × (n < 2 ^ bits n) × (0 < bits n)
  pub modpow_lem : (b e n : ℕ) → 0 < n → modpow b e n ≡ b ^ e % n
  pub from_bytes_be_lem : (bs : List ℕ) → from_bytes_be bs ≡ be_value 0 bs
  -- the shortest bytes that stand for the number; for zero, one zero byte
  pub to_bytes_be_value : (n : ℕ) → be_value 0 (to_bytes_be n) ≡ n
  pub to_bytes_be_short : (n k : ℕ) → 0 < k → n < 256 ^ k → length (to_bytes_be n) ≤ k

-- The calls of `revm_precompile`: the output's bytes, or `none` for any of its errors.
pub record Revm : Type 0 where
  pub run_pair : List ℕ → Option (List ℕ)
  pub run_add : List ℕ → ℕ → Option (List ℕ)
  pub run_mul : List ℕ → ℕ → Option (List ℕ)
  pub run_point_evaluation : List ℕ → Option (List ℕ)

module _ (B : BigNumbers) where
  unfoldable pub iteration_count : ℕ → ℕ → ℕ
  iteration_count exp_length exp_head =
      if leb exp_length 32 && exp_head == 0
      then 0
      else if leb exp_length 32
      then (if B.bits exp_head == 0 then 0 else B.bits exp_head - 1)
      else 8 * (exp_length - 32) + (B.bits exp_head - 1)

  -- What `modexp_gas` computes from the packed lengths and the head of the exponent.
  unfoldable pub gas_cost : ℕ → ℕ → ℕ → ℕ → ℕ
  unfolding iteration_count
  gas_cost base_length exp_length modulus_length exp_head =
      let max_length = max base_length modulus_length in
      let words = (max_length + 7) / 8 in
      let multiplication_complexity = words * words in
      let count = max (iteration_count exp_length exp_head) 1 in
      let cost = multiplication_complexity * count in max 200 (cost / 3)

  -- What `modexp_output` computes from the three byte strings.
  unfoldable pub modexp_result : List ℕ → List ℕ → List ℕ → List ℕ
  modexp_result base_bytes exp_bytes mod_bytes =
      let base_int = B.from_bytes_be base_bytes in
      let exp_int = B.from_bytes_be exp_bytes in
      let mod_int = B.from_bytes_be mod_bytes in
      if mod_int == 0
      then replicate (length mod_bytes) 0
      else (let bytes = B.to_bytes_be (B.modpow base_int exp_int mod_int) in
          let target_len = length mod_bytes in
          if ltb (length bytes) target_len
          then replicate (target_len - length bytes) 0 ++ bytes
          else bytes)

-- `.iter().filter_map(|x| x.to_u8()).collect()`: what is no byte is dropped.
unfoldable pub filter_bytes : Felt252 → List ℕ → List ℕ
filter_bytes F [] = []
filter_bytes F (x ∷ xs) =
    let rest = filter_bytes F xs in elim (F.try_u8 x) [ none ↦ rest | some b ↦ b ∷ rest ]

module _ {S Ids : Type 0} (F : Felt252) (m : Machine S Ids) (B : BigNumbers) (ids : Ids) where
  unfoldable pub modexp_gas : Action S (Unit {0})
  unfolding gas_cost Uint256.from_var_name Uint256.pack
  modexp_gas = do
    base_length ← Uint256.from_var_name m ids "base_length"
    exp_length ← Uint256.from_var_name m ids "exp_length"
    modulus_length ← Uint256.from_var_name m ids "modulus_length"
    exp_head ← Uint256.from_var_name m ids "exp_head"
    let gas =
        gas_cost B (Uint256.pack base_length) (Uint256.pack exp_length)
          (Uint256.pack modulus_length) (Uint256.pack exp_head)
    m.insert_value_from_var_name ids "gas" (int (F.from gas))

  unfoldable pub modexp_output : Action S (Unit {0})
  unfolding serialize_sequence deserialize_sequence modexp_result filter_bytes
  modexp_output = do
    base_values ← serialize_sequence F m ids "base"
    exp_values ← serialize_sequence F m ids "exp"
    mod_values ← serialize_sequence F m ids "modulus"
    let result =
        modexp_result B (filter_bytes F base_values) (filter_bytes F exp_values)
          (filter_bytes F mod_values)
    base ← deserialize_sequence F m ids result
    m.insert_value_from_var_name ids "result" (relocatable base)

  unfoldable pub bit_length_hint : Action S (Unit {0})
  bit_length_hint = do
    value ← reads (m.get_integer_from_var_name ids "value")
    m.insert_value_from_var_name ids "bit_length" (int (F.from (B.bits value)))

-- The texts of the two errors.
abbrev pub out_of_gas_error : List ℕ
out_of_gas_error =
    b'O' ∷ b'u' ∷ b't' ∷ b'O' ∷ b'f' ∷ b'G' ∷ b'a' ∷ b's' ∷ b'E' ∷ b'r' ∷ b'r' ∷ b'o' ∷ b'r' ∷ []

abbrev pub kzg_proof_error : List ℕ
kzg_proof_error =
    b'K' ∷ b'Z' ∷ b'G' ∷ b'P' ∷ b'r' ∷ b'o' ∷ b'o' ∷ b'f' ∷ b'E' ∷ b'r' ∷ b'r' ∷ b'o' ∷ b'r' ∷ []

module _ {S Ids : Type 0} (F : Felt252) (m : Machine S Ids) (B : BigNumbers) (revm : Revm)
    (ids : Ids) where
  -- The two arms that follow each call: the output with a zero `error`, or a new segment that
  -- holds the error's text as a number.
  unfoldable pub write_output : Option (List ℕ) → List ℕ → Action S (Unit {0})
  unfolding deserialize_sequence
  write_output (some output) error_bytes = do
    m.insert_value_from_var_name ids "error" (int 0)
    output_ptr ← deserialize_sequence F m ids output
    m.insert_value_from_var_name ids "output" (relocatable output_ptr)
  write_output none error_bytes = do
    error_ptr ← λ vm. let (b, vm') = m.add_memory_segment vm in (ok b, vm')
    m.insert_value error_ptr (int (F.from (B.from_bytes_be error_bytes)))
    m.insert_value_from_var_name ids "error" (relocatable error_ptr)

  unfoldable pub alt_bn128_pairing_check_hint : Action S (Unit {0})
  unfolding serialize_sequence filter_bytes write_output
  alt_bn128_pairing_check_hint = do
    values ← serialize_sequence F m ids "data"
    write_output (revm.run_pair (filter_bytes F values)) out_of_gas_error

  unfoldable pub alt_bn128_add_hint : Action S (Unit {0})
  unfolding serialize_sequence filter_bytes write_output
  alt_bn128_add_hint = do
    gas_felt ← reads (m.get_integer_from_var_name ids "gas_cost")
    gas_cost ← lift (unwrap (ok_or (F.try_usize gas_felt) (felt_to_usize gas_felt)))
    values ← serialize_sequence F m ids "data"
    write_output (revm.run_add (filter_bytes F values) gas_cost) out_of_gas_error

  unfoldable pub alt_bn128_mul_hint : Action S (Unit {0})
  unfolding serialize_sequence filter_bytes write_output
  alt_bn128_mul_hint = do
    gas_felt ← reads (m.get_integer_from_var_name ids "gas_cost")
    gas_cost ← lift (unwrap (ok_or (F.try_usize gas_felt) (felt_to_usize gas_felt)))
    values ← serialize_sequence F m ids "data"
    write_output (revm.run_mul (filter_bytes F values) gas_cost) out_of_gas_error

  unfoldable pub point_evaluation_hint : Action S (Unit {0})
  unfolding serialize_sequence filter_bytes write_output
  point_evaluation_hint = do
    values ← serialize_sequence F m ids "data"
    write_output (revm.run_point_evaluation (filter_bytes F values)) kzg_proof_error
