-- ===== src/Tests/Msm.antt =====
-- The theorems on multi-scalar multiplication at concrete states, with calldata of the right form.
use keth.Prelude.{ℕ, List, [], ◌∷◌, ◌++◌, true, ◌≡◌, refl, arith, inr, replicate, ok}
use keth.Machine.{int, relocatable}
use keth.HintUtils.Memory.{Holds}
use keth.HintUtils.Uint256
use keth.HintUtils.Uint256.{Uint256}
use keth.HintUtils.Uint384
use keth.HintUtils.Uint384.{Uint384}
use keth.Hints.Curve.Msm.{
  Garaga, CurveId, secp256k1, bn254, build_msm_hints_and_fill_memory,
  ec_mul_msm_hints_and_fill_memory,
}
use keth.Hints.Curve.Msm.Arrays.{encode, limbs_of}
use keth.Hints.Curve.Msm.Memory.{
  IsCalldata, CanFill, ReadsPoint, felt_values, build_msm_hints_and_fill_memory_lem,
  ec_mul_msm_hints_and_fill_memory_lem,
}
use keth.Tests.Library.{felts, machine, Vm, Variables, at, vm_write}
use keth.Tests.Cells.{cells_of}

abbrev q : List ℕ
q = replicate 24 9

-- 22 elements in four arrays, and 26.
abbrev arrays_bn254 : List (ℕ × List ℕ)
arrays_bn254 = (10, replicate 40 1) ∷ (5, replicate 20 2) ∷ (7, replicate 28 3) ∷ (0, []) ∷ []

abbrev arrays_secp256k1 : List (ℕ × List ℕ)
arrays_secp256k1 =
    (10, replicate 40 1) ∷ (5, replicate 20 2) ∷ (7, replicate 28 3) ∷ (4, replicate 16 4) ∷ []

-- The length in front is not read.
abbrev calldata_for : CurveId → List ℕ
unfolding encode
calldata_for bn254 = 0 ∷ q ++ (encode arrays_bn254 ++ 5 ∷ [])
calldata_for secp256k1 = 0 ∷ q ++ (encode arrays_secp256k1 ++ 5 ∷ [])

abbrev garaga : Garaga
garaga = record {
  msm_calldata_builder = λ values scalars curve_id. inr (calldata_for curve_id);
  g_x = 3;
  g_y = 4;
  decimal = λ n. "";
}

abbrev variables : Variables
variables =
    ("p", at 2 0)
    ∷ ("r_point", at 2 0)
    ∷ ("scalar", at 1 0)
    ∷ ("u1", at 1 0)
    ∷ ("u2", at 1 1)
    ∷ ("range_check96_ptr", at 1 2)
    ∷ []

abbrev vm : Vm
vm = record {
  cells = cells_of (
      (at 1 0, relocatable (at 3 0))
      ∷ (at 1 1, relocatable (at 3 0))
      ∷ (at 1 2, relocatable (at 4 0))
      ∷ (at 2 0, int 1)
      ∷ (at 2 1, int 0)
      ∷ (at 2 2, int 0)
      ∷ (at 2 3, int 0)
      ∷ (at 2 4, int 2)
      ∷ (at 2 5, int 0)
      ∷ (at 2 6, int 0)
      ∷ (at 2 7, int 0)
      ∷ (at 3 0, int 11)
      ∷ (at 3 1, int 0)
      ∷ []);
  next_segment = 5;
  ap_register = at 1 7;
  fp_register = at 1 0;
}

abbrev x : Uint384
x = record { limbs = 1 ∷ 0 ∷ 0 ∷ 0 ∷ [] }

abbrev y : Uint384
y = record { limbs = 2 ∷ 0 ∷ 0 ∷ 0 ∷ [] }

abbrev eleven : Uint256
eleven = record { low = 11; high = 0 }

point : ReadsPoint felts machine garaga true variables "p" "p.x" "p.y" (at 2 0) (at 2 4) x y vm
unfolding Uint384.from_base_addr
point = record { found = refl; second = refl; x_read = refl; y_read = refl }

r_point :
    ReadsPoint felts machine garaga true variables "r_point" "r_point.x" "r_point.y"
      (at 2 0)
      (at 2 4)
      x
      y
      vm
unfolding Uint384.from_base_addr
r_point = record { found = refl; second = refl; x_read = refl; y_read = refl }

eleven_read : Uint256.from_var_name machine variables "scalar" vm ≡ (ok eleven, vm)
unfolding Uint256.from_var_name
eleven_read = refl

u1_read : Uint256.from_var_name machine variables "u1" vm ≡ (ok eleven, vm)
unfolding Uint256.from_var_name
u1_read = refl

u2_read : Uint256.from_var_name machine variables "u2" vm ≡ (ok eleven, vm)
unfolding Uint256.from_var_name
u2_read = refl

bn254_IsCalldata : IsCalldata 88 q arrays_bn254 (calldata_for bn254)
unfolding limbs_of calldata_for
bn254_IsCalldata = record {
  total = 0;
  tail = 5 ∷ [];
  layout = refl;
  points = refl;
  four = refl;
  arrays_IsArray = (
    (refl, omega arith),
    ((refl, omega arith), ((refl, omega arith), ((refl, omega arith), tt))),
  );
  count = refl;
}

secp256k1_IsCalldata : IsCalldata 104 q arrays_secp256k1 (calldata_for secp256k1)
unfolding limbs_of calldata_for
secp256k1_IsCalldata = record {
  total = 0;
  tail = 5 ∷ [];
  layout = refl;
  points = refl;
  four = refl;
  arrays_IsArray = (
    (refl, omega arith),
    ((refl, omega arith), ((refl, omega arith), ((refl, omega arith), tt))),
  );
  count = refl;
}

abbrev with_limbs : ℕ → List (ℕ × List ℕ) → Vm
with_limbs offset arrays = (vm_write (at 4 offset) (felt_values felts (limbs_of arrays)) vm).1

abbrev with_points : ℕ → ℕ → List (ℕ × List ℕ) → Vm
with_points offset q_offset arrays =
    (vm_write (at 4 q_offset) (felt_values felts q) (with_limbs offset arrays)).1

bn254_CanFill :
    CanFill felts machine garaga true variables 36 128 q
      (limbs_of arrays_bn254)
      (at 4 0)
      vm
      (with_limbs 36 arrays_bn254)
      (with_points 36 164 arrays_bn254)
unfolding limbs_of
bn254_CanFill = record {
  found = refl;
  in_range = omega arith;
  limbs_written = refl;
  q_written = refl;
}

secp256k1_CanFill :
    CanFill felts machine garaga true variables 24 184 q
      (limbs_of arrays_secp256k1)
      (at 4 0)
      vm
      (with_limbs 24 arrays_secp256k1)
      (with_points 24 208 arrays_secp256k1)
unfolding limbs_of
secp256k1_CanFill = record {
  found = refl;
  in_range = omega arith;
  limbs_written = refl;
  q_written = refl;
}

ec_mul_msm_hints_and_fill_memory_lem_example :
    (ec_mul_msm_hints_and_fill_memory felts machine garaga true variables vm
      ≡ (ok tt, with_points 36 164 arrays_bn254))
    × Holds machine
        (with_points 36 164 arrays_bn254)
        (at 4 36)
        (felt_values felts (limbs_of arrays_bn254))
    × Holds machine (with_points 36 164 arrays_bn254) (at 4 164) (felt_values felts q)
ec_mul_msm_hints_and_fill_memory_lem_example =
    ec_mul_msm_hints_and_fill_memory_lem felts machine garaga true variables (at 2 0) (at 2 4)
      (at 4 0) x y eleven q (calldata_for bn254) arrays_bn254 vm (with_limbs 36 arrays_bn254)
      (with_points 36 164 arrays_bn254) point eleven_read refl bn254_IsCalldata bn254_CanFill

build_msm_hints_and_fill_memory_lem_example :
    (build_msm_hints_and_fill_memory felts machine garaga true variables vm
      ≡ (ok tt, with_points 24 208 arrays_secp256k1))
    × Holds machine
        (with_points 24 208 arrays_secp256k1)
        (at 4 24)
        (felt_values felts (limbs_of arrays_secp256k1))
    × Holds machine (with_points 24 208 arrays_secp256k1) (at 4 208) (felt_values felts q)
build_msm_hints_and_fill_memory_lem_example =
    build_msm_hints_and_fill_memory_lem felts machine garaga true variables (at 2 0) (at 2 4)
      (at 4 0) x y eleven eleven q (calldata_for secp256k1) arrays_secp256k1 vm
      (with_limbs 24 arrays_secp256k1) (with_points 24 208 arrays_secp256k1) r_point u1_read u2_read
      refl secp256k1_IsCalldata secp256k1_CanFill
