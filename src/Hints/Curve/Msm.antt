-- ===== src/Hints/Curve/Msm.antt =====
-- The part of hint_definitions/curve.rs on multi-scalar multiplication: the hints that ask
-- garaga_rs for its calldata, take the calldata apart, and fill the cells of a circuit with it.
pub mod Arrays
pub mod Memory
use Prim.Native.String.{◌++◌}
use keth.Prelude.{
  ℕ, zero, suc, ◌+◌, ◌*◌, ◌%◌, ◌^◌, min, String, List, [], ◌∷◌, ◌++◌ as append, Bool, true, false,
  ◌&&◌, ◌==◌, ◌⊎◌, inl, inr, ltb, leb, if◌then◌else◌, length, take, drop, Relocatable, Result, ok,
  err, panic, Action, pure, fail, lift, reads, unwrap, ◌>>=◌, ◌>>◌, custom_hint,
}
use keth.Prelude.Words.{mul_usize, add_usize}
use keth.Machine.{Felt252, Machine}
use keth.HintUtils.Sequence.{write_collection_to_addr}
use keth.HintUtils.Uint384
use keth.HintUtils.Uint256

-- `CurveID` of garaga_rs, as far as the code names it
pub data CurveId : Type 0 where
  secp256k1 : CurveId
  bn254 : CurveId

-- The calls of garaga_rs: the calldata or the text of an error, from the points' coordinates and
-- the scalars; the generator's coordinates. And how the standard library prints a number.
pub record Garaga : Type 0 where
  pub msm_calldata_builder : List ℕ → List ℕ → CurveId → String ⊎ List ℕ
  pub g_x : ℕ
  pub g_y : ℕ
  pub decimal : ℕ → String

-- `&xs[n..]` and `&xs[..n]`: out of range they panic.
abbrev pub slice_from : {A : Type 0} → ℕ → List A → Result (List A)
slice_from n xs = if leb n (length xs) then ok (drop n xs) else panic

abbrev pub slice_to : {A : Type 0} → ℕ → List A → Result (List A)
slice_to n xs = if leb n (length xs) then ok (take n xs) else panic

-- One array: its count of elements, and four limbs for each, as far as there are any. What it
-- returns is the limbs and what is left of the calldata.
unfoldable pub take_array : Bool → List ℕ → Result (List ℕ × List ℕ)
take_array checks [] = panic
take_array checks (array_len ∷ rest) =
    if ltb array_len (2 ^ 64)
    then elim (mul_usize checks array_len 4) [
      | ok cells ↦
          let slice_len = min cells (length rest) in ok (take slice_len rest, drop slice_len rest)
      | err e ↦ err e
      | panic ↦ panic
    ]
    else err (custom_hint "Failed to convert array length to usize")

module _ {S : Type 0} where
  -- the loop `for _ in 0..4`, with the rounds that are left
  unfoldable pub take_arrays : Bool → ℕ → List ℕ → Action S (List ℕ)
  take_arrays checks zero rest = pure []
  take_arrays checks (suc n) rest = do
    array ← lift (take_array checks rest)
    others ← take_arrays checks n array.1
    pure (append array.0 others)

abbrev pub calldata_of : String ⊎ List ℕ → Result (List ℕ)
calldata_of (inl e) = err (custom_hint ("Error building MSM calldata: " ++ e))
calldata_of (inr calldata) = ok calldata

module _ {S : Type 0} (G : Garaga) (checks : Bool) where
  -- `q_low_high_high_shifted` and `rlc_components`, from the calldata with its length in front
  unfoldable pub split_calldata : ℕ → List ℕ → Action S (List ℕ × List ℕ)
  unfolding take_arrays
  split_calldata expected calldata_w_len = do
    calldata ← lift (slice_from 1 calldata_w_len)
    q_low_high_high_shifted ← lift (slice_to 24 calldata)
    calldata_rest ← lift (slice_from 24 calldata)
    rlc_components ← take_arrays checks 4 calldata_rest
    let text =
        "Invalid RLC components length: expected "
        ++ G.decimal expected
        ++ ", got "
        ++ G.decimal (length rlc_components)
    if length rlc_components == expected
        then pure (q_low_high_high_shifted, rlc_components)
        else fail (custom_hint text)

module _ {S Ids : Type 0} (F : Felt252) (m : Machine S Ids) (G : Garaga) (checks : Bool)
    (ids : Ids) where
  -- The writes to memory: the components behind the offset, the points further behind.
  unfoldable pub fill_cells : ℕ → ℕ → List ℕ × List ℕ → Action S (Unit {0})
  fill_cells memory_offset q_offset (q, rlc_components) = do
    range_check96_ptr ← reads (m.get_ptr_from_var_name ids "range_check96_ptr")
    offset ← lift (add_usize checks range_check96_ptr.offset memory_offset)
    write_collection_to_addr F m ids (record range_check96_ptr { offset = offset }) rlc_components
    q_addr ← lift (unwrap (m.add_usize range_check96_ptr (memory_offset + q_offset)))
    write_collection_to_addr F m ids q_addr q

  unfoldable pub fill_from_calldata : ℕ → ℕ → ℕ → String ⊎ List ℕ → Action S (Unit {0})
  unfolding split_calldata fill_cells
  fill_from_calldata expected memory_offset q_offset built = do
    calldata_w_len ← lift (calldata_of built)
    parts ← split_calldata G checks expected calldata_w_len
    fill_cells memory_offset q_offset parts

  unfoldable pub build_msm_hints_and_fill_memory : Action S (Unit {0})
  unfolding Uint384.from_base_addr Uint384.pack Uint256.from_var_name Uint256.pack
      fill_from_calldata
  build_msm_hints_and_fill_memory = do
    r_point_addr ← reads (m.get_relocatable_from_var_name ids "r_point")
    x ← Uint384.from_base_addr m r_point_addr "r_point.x"
    y_addr ← lift (unwrap (m.add_usize r_point_addr 4))
    y ← Uint384.from_base_addr m y_addr "r_point.y"
    u1 ← Uint256.from_var_name m ids "u1"
    u2 ← Uint256.from_var_name m ids "u2"
    let values = G.g_x ∷ G.g_y ∷ Uint384.pack x ∷ Uint384.pack y ∷ []
    let scalars = Uint256.pack u1 ∷ Uint256.pack u2 ∷ []
    fill_from_calldata 104 24 184 (G.msm_calldata_builder values scalars secp256k1)

  unfoldable pub ec_mul_msm_hints_and_fill_memory : Action S (Unit {0})
  unfolding Uint384.from_base_addr Uint384.pack Uint256.from_var_name Uint256.pack
      fill_from_calldata
  ec_mul_msm_hints_and_fill_memory = do
    p_addr ← reads (m.get_relocatable_from_var_name ids "p")
    x ← Uint384.from_base_addr m p_addr "p.x"
    y_addr ← lift (unwrap (m.add_usize p_addr 4))
    y ← Uint384.from_base_addr m y_addr "p.y"
    scalar ← Uint256.from_var_name m ids "scalar"
    let values = Uint384.pack x ∷ Uint384.pack y ∷ []
    fill_from_calldata 88 36 128 (G.msm_calldata_builder values (Uint256.pack scalar ∷ []) bn254)
