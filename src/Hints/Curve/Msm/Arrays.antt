-- ===== src/Hints/Curve/Msm/Arrays.antt =====
-- The arrays in the calldata of garaga_rs, each with its count of elements in front: how the loop
-- takes them apart.
use mathlib.Core.List.{append_assoc}
use native.Mathlib.Nat.{mod-eq_of_lt}
use keth.Prelude.Words.{mul_usize}
use keth.Prelude.{
  ℕ, ◌*◌, ◌^◌, ◌<◌, min, List, lt→ltb, true, false, [], ◌∷◌, ◌++◌, Bool, ◌≡◌, refl, sym, ap, ◌∙◌,
  arith, ok, All, length, drop, take-append, length-append,
}
use keth.Hints.Curve.Msm.{Garaga, slice_from, slice_to, take_array, take_arrays, split_calldata}

-- An array with its count of elements, which have four limbs each.
abbrev pub IsArray : ℕ × List ℕ → Type 0
IsArray (array_len, limbs) = (length limbs ≡ array_len * 4) × (array_len * 4 < 2 ^ 64)

unfoldable pub encode : List (ℕ × List ℕ) → List ℕ
encode [] = []
encode ((array_len, limbs) ∷ arrays) = array_len ∷ limbs ++ encode arrays

unfoldable pub limbs_of : List (ℕ × List ℕ) → List ℕ
limbs_of [] = []
limbs_of ((array_len, limbs) ∷ arrays) = limbs ++ limbs_of arrays

drop-append : (xs ys : List ℕ) → drop (length xs) (xs ++ ys) ≡ ys
drop-append [] ys = refl
drop-append (x ∷ xs) ys = drop-append xs ys

mul_usize-fits : (checks : Bool) (n : ℕ) → n * 4 < 2 ^ 64 → mul_usize checks n 4 ≡ ok (n * 4)
mul_usize-fits true n h = ground (arith, mod-eq_of_lt h)
mul_usize-fits false n h = ap ok (mod-eq_of_lt h)

take_array_lem :
    (checks : Bool) (array_len : ℕ) (limbs rest : List ℕ)
    → IsArray (array_len, limbs)
    → take_array checks (array_len ∷ limbs ++ rest) ≡ ok (limbs, rest)
unfolding take_array
take_array_lem checks array_len limbs rest (whole, small) =
    let taken : min (array_len * 4) (length (limbs ++ rest)) ≡ length limbs =
      omega (arith, length-append limbs rest) in
    rw
      (
        lt→ltb array_len (2 ^ 64) (omega arith),
        mul_usize-fits checks array_len small,
        taken,
        take-append limbs rest,
        drop-append limbs rest,
      )
      refl

take_arrays-encode :
    {S : Type 0} (checks : Bool) (arrays : List (ℕ × List ℕ)) (tail : List ℕ) (s : S)
    → All IsArray arrays
    → take_arrays checks (length arrays) (encode arrays ++ tail) s ≡ (ok (limbs_of arrays), s)
unfolding take_arrays encode limbs_of
take_arrays-encode checks [] tail s h = refl
take_arrays-encode checks ((array_len, limbs) ∷ arrays) tail s (is, h) = ground (
  arith,
  append_assoc limbs (encode arrays) tail,
  take_array_lem checks array_len limbs (encode arrays ++ tail) is,
  take_arrays-encode checks arrays tail s h,
)

slice_to-append : (xs ys : List ℕ) → slice_to (length xs) (xs ++ ys) ≡ ok xs
slice_to-append xs ys = ground (arith, length-append xs ys, take-append xs ys)

slice_from-append : (xs ys : List ℕ) → slice_from (length xs) (xs ++ ys) ≡ ok ys
slice_from-append xs ys = ground (arith, length-append xs ys, drop-append xs ys)

-- Calldata with its length, 24 limbs of points, and four arrays: the points and the arrays' limbs,
-- if there are as many as expected.
pub split_calldata_lem :
    {S : Type 0} (G : Garaga) (checks : Bool) (total : ℕ) (q tail : List ℕ)
    (arrays : List (ℕ × List ℕ)) (s : S)
    → length q ≡ 24
    → length arrays ≡ 4
    → All IsArray arrays
    → split_calldata G checks (length (limbs_of arrays)) (total ∷ q ++ (encode arrays ++ tail)) s
      ≡ (ok (q, limbs_of arrays), s)
unfolding split_calldata
split_calldata_lem G checks total q tail arrays s points four h =
    let rest = encode arrays ++ tail in
    let taken : take_arrays checks 4 rest s ≡ (ok (limbs_of arrays), s) =
      ap (λ (n : ℕ). take_arrays checks n rest s) (sym four)
      ∙ take_arrays-encode checks arrays tail s h in
    let front : slice_to 24 (q ++ rest) ≡ ok q =
      ap (λ (n : ℕ). slice_to n (q ++ rest)) (sym points) ∙ slice_to-append q rest in
    let back : slice_from 24 (q ++ rest) ≡ ok rest =
      ap (λ (n : ℕ). slice_from n (q ++ rest)) (sym points) ∙ slice_from-append q rest in
    ground (arith, taken, front, back, slice_from-append (total ∷ []) (q ++ rest))
