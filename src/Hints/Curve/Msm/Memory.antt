-- ===== src/Hints/Curve/Msm/Memory.antt =====
-- What the hints on multi-scalar multiplication leave in memory.
use mathlib.Core.Path.{subst}
use native.Mathlib.Nat.{mod-eq_of_lt}
use keth.Prelude.{
  ℕ, suc, ◌+◌, ◌^◌, ◌<◌, ◌≤◌, String, List, [], ◌∷◌, ◌++◌, map, Bool, true, false, ◌≡◌, refl, sym,
  ap, arith, inr, ok, All, Relocatable, length,
}
use keth.Prelude.Words.{add_usize}
use keth.Machine.{Felt252, Machine, Value, int}
use keth.HintUtils.Sequence.{write_collection_to_addr}
use keth.HintUtils.Uint384
use keth.HintUtils.Uint384.{Uint384}
use keth.HintUtils.Uint256
use keth.HintUtils.Uint256.{Uint256}
use keth.HintUtils.Memory.{Holds, write_arg-Holds, write_arg_keeps}
use keth.Hints.Curve.Msm.{
  Garaga, secp256k1, bn254, split_calldata, fill_cells, fill_from_calldata,
  build_msm_hints_and_fill_memory, ec_mul_msm_hints_and_fill_memory,
}
use keth.Hints.Curve.Msm.Arrays.{IsArray, encode, limbs_of, split_calldata_lem}

add_usize-fits : (checks : Bool) (a b : ℕ) → a + b < 2 ^ 64 → add_usize checks a b ≡ ok (a + b)
add_usize-fits true a b h = ground (arith, mod-eq_of_lt h)
add_usize-fits false a b h = ap ok (mod-eq_of_lt h)

-- The address some cells further on.
abbrev pub behind : Relocatable → ℕ → Relocatable
behind a n = record a { offset = a.offset + n }

abbrev pub felt_values : Felt252 → List ℕ → List Value
felt_values F xs = map (λ x. int (F.from x)) xs

length-felt_values : (F : Felt252) (xs : List ℕ) → length (felt_values F xs) ≡ length xs
length-felt_values F [] = refl
length-felt_values F (x ∷ xs) = ap suc (length-felt_values F xs)

-- Calldata of garaga_rs: a length, the limbs of six coordinates, four arrays with as many limbs as
-- expected, and anything behind.
pub record IsCalldata (expected : ℕ) (q : List ℕ) (arrays : List (ℕ × List ℕ)) (calldata : List ℕ)
    : Type 0 where
  pub total : ℕ
  pub tail : List ℕ
  pub layout : calldata ≡ total ∷ q ++ (encode arrays ++ tail)
  pub points : length q ≡ 24
  pub four : length arrays ≡ 4
  pub arrays_IsArray : All IsArray arrays
  pub count : length (limbs_of arrays) ≡ expected

module _ {S Ids : Type 0} (F : Felt252) (m : Machine S Ids) (G : Garaga) (checks : Bool)
    (ids : Ids) where
  -- Both lists can be written, one behind the other, at the pointer `range_check96_ptr`.
  pub record CanFill (memory_offset q_offset : ℕ) (q limbs : List ℕ) (ptr : Relocatable)
      (s mid s' : S) : Type 0 where
    pub found : m.get_ptr_from_var_name ids "range_check96_ptr" s ≡ ok ptr
    pub in_range : ptr.offset + memory_offset + q_offset + length q < 2 ^ 64
    pub limbs_written :
        m.write_arg (behind ptr memory_offset) (felt_values F limbs) s ≡ (ok tt, mid)
    pub q_written :
        m.write_arg (behind ptr (memory_offset + q_offset)) (felt_values F q) mid ≡ (ok tt, s')

  fill_cells_lem :
      (memory_offset q_offset : ℕ) (q limbs : List ℕ) (ptr : Relocatable) (s mid s' : S)
      → CanFill memory_offset q_offset q limbs ptr s mid s'
      → length limbs ≤ q_offset
      → (fill_cells F m G checks ids memory_offset q_offset (q, limbs) s ≡ (ok tt, s'))
        × Holds m s' (behind ptr memory_offset) (felt_values F limbs)
        × Holds m s' (behind ptr (memory_offset + q_offset)) (felt_values F q)
  unfolding fill_cells write_collection_to_addr
  fill_cells_lem memory_offset q_offset q limbs ptr s mid s' can apart =
      let short : length (felt_values F limbs) ≡ length limbs = length-felt_values F limbs in
      let long : length (felt_values F q) ≡ length q = length-felt_values F q in
      let first = behind ptr memory_offset in
      let second = behind ptr (memory_offset + q_offset) in
      let fits = can.in_range in
      let held : Holds m mid first (felt_values F limbs) =
        write_arg-Holds m s mid first (felt_values F limbs) (omega arith) can.limbs_written in
      (
        ground (
          arith,
          add_usize-fits checks ptr.offset memory_offset (omega arith),
          m.add_usize_lem ptr (memory_offset + q_offset) (omega arith),
          can.found,
          can.limbs_written,
          can.q_written,
        ),
        write_arg_keeps m mid s' second first (felt_values F q) (felt_values F limbs) (omega arith)
            can.q_written held,
        write_arg-Holds m mid s' second (felt_values F q) (omega arith) can.q_written,
      )

  fill_from_calldata_lem :
      (expected memory_offset q_offset : ℕ) (q calldata : List ℕ) (arrays : List (ℕ × List ℕ))
      (ptr : Relocatable) (s mid s' : S)
      → IsCalldata expected q arrays calldata
      → CanFill memory_offset q_offset q (limbs_of arrays) ptr s mid s'
      → expected ≤ q_offset
      → (fill_from_calldata F m G checks ids expected memory_offset q_offset (inr calldata) s
          ≡ (ok tt, s'))
        × Holds m s' (behind ptr memory_offset) (felt_values F (limbs_of arrays))
        × Holds m s' (behind ptr (memory_offset + q_offset)) (felt_values F q)
  unfolding fill_from_calldata
  fill_from_calldata_lem expected memory_offset q_offset q calldata arrays ptr s mid s' is can
        apart =
      let parts : split_calldata G checks expected calldata s ≡ (ok (q, limbs_of arrays), s) =
        subst (λ c. split_calldata G checks expected c s ≡ (ok (q, limbs_of arrays), s))
          (sym is.layout)
          (subst
            (λ (n : ℕ).
              split_calldata G checks n (is.total ∷ q ++ (encode arrays ++ is.tail)) s
              ≡ (ok (q, limbs_of arrays), s))
            is.count
            (split_calldata_lem G checks is.total q is.tail arrays s is.points is.four
              is.arrays_IsArray)) in
      let filled =
        fill_cells_lem memory_offset q_offset q (limbs_of arrays) ptr s mid s' can
          (omega (arith, is.count)) in
      (ground (arith, parts, filled.0), filled.1, filled.2)

  -- The variable at `addr` is a point with these coordinates.
  pub record ReadsPoint (name x_name y_name : String) (addr y_addr : Relocatable) (x y : Uint384)
      (s : S) : Type 0 where
    pub found : m.get_relocatable_from_var_name ids name s ≡ ok addr
    pub second : m.add_usize addr 4 ≡ ok y_addr
    pub x_read : Uint384.from_base_addr m addr x_name s ≡ (ok x, s)
    pub y_read : Uint384.from_base_addr m y_addr y_name s ≡ (ok y, s)

  -- If the point `r_point`, `u1` and `u2` can be read, the builder returns calldata for the
  -- generator and the point with a length, 24 limbs of points and four arrays with 104 limbs
  -- together, and both lists can be written: the hint succeeds, and memory then holds the limbs of
  -- the arrays from 24 cells behind `range_check96_ptr` on, and the limbs of the points from 208
  -- cells behind it on.
  pub build_msm_hints_and_fill_memory_lem :
      (addr y_addr ptr : Relocatable) (x y : Uint384) (u1 u2 : Uint256) (q calldata : List ℕ)
      (arrays : List (ℕ × List ℕ)) (s mid s' : S)
      → ReadsPoint "r_point" "r_point.x" "r_point.y" addr y_addr x y s
      → Uint256.from_var_name m ids "u1" s ≡ (ok u1, s)
      → Uint256.from_var_name m ids "u2" s ≡ (ok u2, s)
      → G.msm_calldata_builder
          (G.g_x ∷ G.g_y ∷ Uint384.pack x ∷ Uint384.pack y ∷ [])
          (Uint256.pack u1 ∷ Uint256.pack u2 ∷ [])
          secp256k1
        ≡ inr calldata
      → IsCalldata 104 q arrays calldata
      → CanFill 24 184 q (limbs_of arrays) ptr s mid s'
      → (build_msm_hints_and_fill_memory F m G checks ids s ≡ (ok tt, s'))
        × Holds m s' (behind ptr 24) (felt_values F (limbs_of arrays))
        × Holds m s' (behind ptr 208) (felt_values F q)
  unfolding build_msm_hints_and_fill_memory
  build_msm_hints_and_fill_memory_lem addr y_addr ptr x y u1 u2 q calldata arrays s mid s' point
        first second built is can =
      let filled =
        fill_from_calldata_lem 104 24 184 q calldata arrays ptr s mid s' is can (omega arith) in
      (
        ground (
          arith, point.found, point.second, point.x_read, point.y_read, first, second, built,
          filled.0,
        ),
        filled.1,
        filled.2,
      )

  -- If the point `p` and `scalar` can be read, the builder returns calldata for them with a length,
  -- 24 limbs of points and four arrays with 88 limbs together, and both lists can be written: the
  -- hint succeeds, and memory then holds the limbs of the arrays from 36 cells behind
  -- `range_check96_ptr` on, and the limbs of the points from 164 cells behind it on.
  pub ec_mul_msm_hints_and_fill_memory_lem :
      (addr y_addr ptr : Relocatable) (x y : Uint384) (scalar : Uint256) (q calldata : List ℕ)
      (arrays : List (ℕ × List ℕ)) (s mid s' : S)
      → ReadsPoint "p" "p.x" "p.y" addr y_addr x y s
      → Uint256.from_var_name m ids "scalar" s ≡ (ok scalar, s)
      → G.msm_calldata_builder
          (Uint384.pack x ∷ Uint384.pack y ∷ [])
          (Uint256.pack scalar ∷ [])
          bn254
        ≡ inr calldata
      → IsCalldata 88 q arrays calldata
      → CanFill 36 128 q (limbs_of arrays) ptr s mid s'
      → (ec_mul_msm_hints_and_fill_memory F m G checks ids s ≡ (ok tt, s'))
        × Holds m s' (behind ptr 36) (felt_values F (limbs_of arrays))
        × Holds m s' (behind ptr 164) (felt_values F q)
  unfolding ec_mul_msm_hints_and_fill_memory
  ec_mul_msm_hints_and_fill_memory_lem addr y_addr ptr x y scalar q calldata arrays s mid s' point
        read built is can =
      let filled =
        fill_from_calldata_lem 88 36 128 q calldata arrays ptr s mid s' is can (omega arith) in
      (
        ground
            (arith, point.found, point.second, point.x_read, point.y_read, read, built, filled.0),
        filled.1,
        filled.2,
      )
