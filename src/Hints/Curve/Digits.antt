-- ===== src/Hints/Curve/Digits.antt =====
-- The part of hint_definitions/curve.rs on scalars: the hint that writes a scalar's digits in base
-- minus three.
use native.Mathlib.Nat.{mod-eq_of_lt}
use keth.Prelude.{
  ℕ, zero, suc, ◌+◌, ◌-◌, ◌*◌, ◌^◌, ◌<◌, ◌≤◌, ℤ, pos, negsuc, String, List, [], ◌∷◌, ◌++◌, map, All,
  some, ◌≡◌, ◌⊎◌, inl, refl, ap, ◌∙◌, arith, leb, ltb, if◌then◌else◌, length, length-append,
  replicate, length-replicate, Relocatable, Result, ok, err, panic, Action, assert, lift, reads,
  ◌>>=◌, ◌>>◌,
}
use keth.Machine.{Felt252, Machine, Value, int}
use keth.HintUtils.Sequence.{write_result_to_ap}
use keth.HintUtils.Memory.{Holds, write_arg-Holds, insert_value-Holds}

-- What a digit adds and takes away.
abbrev pub plus : ℤ → ℕ
plus (pos n) = n
plus (negsuc n) = 0

abbrev pub minus : ℤ → ℕ
minus (pos n) = 0
minus (negsuc n) = n + 1

-- Σ digit * (-3)^i, the first digit the lowest: what is added and what is taken away
abbrev pub neg_3_value : List ℤ → ℕ × ℕ
neg_3_value [] = (0, 0)
neg_3_value (d ∷ ds) = (plus d + 3 * (neg_3_value ds).1, minus d + 3 * (neg_3_value ds).0)

abbrev pub IsDigit : ℤ → Type 0
IsDigit d = (d ≡ pos 0) ⊎ ((d ≡ pos 1) ⊎ (d ≡ negsuc 0))

-- `neg_3_base_le` of garaga_rs, with digits that are signed machine integers, and the conversion of
-- such a digit to a felt: with k digits every number up to half of 3 ^ k is reached, and no more
-- digits are returned than are needed.
pub record NegThree (F : Felt252) : Type 0 where
  pub neg_3_base_le : ℕ → List ℤ
  pub from_digit : ℤ → ℕ
  pub digits_lem : (n : ℕ) → All IsDigit (neg_3_base_le n)
  pub value_lem :
      (n : ℕ) → (neg_3_value (neg_3_base_le n)).0 ≡ n + (neg_3_value (neg_3_base_le n)).1
  pub length_lem : (n k : ℕ) → 0 < k → 2 * n < 3 ^ k → length (neg_3_base_le n) ≤ k
  pub from_digit_pos : (n : ℕ) → n < F.prime → from_digit (pos n) ≡ n
  pub from_digit_neg : (n : ℕ) → n + 1 < F.prime → from_digit (negsuc n) ≡ F.prime - (n + 1)

-- `digits.extend(vec![0; 82 - digits.len()])`: below zero the subtraction or the allocation panics.
abbrev pub pad : List ℤ → Result (List ℤ)
pad digits =
    if leb (length digits) 82 then ok (digits ++ replicate (82 - length digits) (pos 0)) else panic

-- `digits[0]`
abbrev pub first : List ℤ → Result ℤ
first [] = panic
first (d ∷ ds) = ok d

module _ {S Ids : Type 0} (F : Felt252) (m : Machine S Ids) (T : NegThree F) (ids : Ids) where
  abbrev pub digit_values : List ℤ → List Value
  digit_values digits = map (λ d. int (T.from_digit d)) digits

  -- `write_collection_from_var_name`, whose elements are digits here
  abbrev pub write_digits : String → List ℤ → Action S (Unit {0})
  write_digits name digits = do
    addr ← λ vm. elim (m.get_ptr_from_var_name ids name vm) [
      | ok addr ↦ (ok addr, vm)
      | err _ ↦ (m.get_relocatable_from_var_name ids name vm, vm)
      | panic ↦ (panic, vm)
    ]
    m.write_arg addr (digit_values digits)

  unfoldable pub decompose_scalar_to_neg3_base : Action S (Unit {0})
  unfolding write_result_to_ap
  decompose_scalar_to_neg3_base = do
    scalar ← reads (m.get_integer_from_var_name ids "scalar")
    assert (ltb scalar (2 ^ 128))
    digits ← lift (pad (T.neg_3_base_le scalar))
    write_digits "digits" digits
    d0 ← lift (first digits)
    m.insert_value_from_var_name ids "d0" (int (T.from_digit d0))
    write_result_to_ap F m ids 1 0

-- The scalar's digits with the zeros behind.
abbrev pub padded : {F : Felt252} → NegThree F → ℕ → List ℤ
padded T n = T.neg_3_base_le n ++ replicate (82 - length (T.neg_3_base_le n)) (pos 0)

zeros_value : (k : ℕ) → neg_3_value (replicate k (pos 0)) ≡ (0, 0)
zeros_value zero = refl
zeros_value (suc k) = rw (zeros_value k) refl

padded_value : (ds : List ℤ) (k : ℕ) → neg_3_value (ds ++ replicate k (pos 0)) ≡ neg_3_value ds
padded_value [] k = zeros_value k
padded_value (d ∷ ds) k = rw (padded_value ds k) refl

padded_digits : (ds : List ℤ) (k : ℕ) → All IsDigit ds → All IsDigit (ds ++ replicate k (pos 0))
padded_digits [] zero h = tt
padded_digits [] (suc k) h = (inl refl, padded_digits [] k tt)
padded_digits (d ∷ ds) k (is, h) = (is, padded_digits ds k h)

module _ {F : Felt252} (T : NegThree F) (n : ℕ) (small : n < 2 ^ 128) where
  digits_fit : length (T.neg_3_base_le n) ≤ 82
  digits_fit = T.length_lem n 82 (omega arith) (omega arith)

  padded_fits : pad (T.neg_3_base_le n) ≡ ok (padded T n)
  padded_fits = ground (arith, digits_fit)

  length-padded : length (padded T n) ≡ 82
  length-padded = omega (
    arith,
    digits_fit,
    length-append (T.neg_3_base_le n) (replicate (82 - length (T.neg_3_base_le n)) (pos 0)),
    length-replicate (82 - length (T.neg_3_base_le n)) (pos 0),
  )

module _ {S Ids : Type 0} (F : Felt252) (m : Machine S Ids) (T : NegThree F) (ids : Ids) where
  -- The variable `digits` points at memory where a scalar's digits can be written; the lowest one
  -- `d0` can then be written to its variable, and the result at the allocation pointer.
  pub record CanWrite (n : ℕ) (d0 : ℤ) (a b : Relocatable) (s t u s' : S) : Type 0 where
    pub found : m.get_ptr_from_var_name ids "digits" s ≡ ok a
    pub in_range : a.offset + 82 < 2 ^ 64
    pub digits_written : m.write_arg a (digit_values F m T ids (padded T n)) s ≡ (ok tt, t)
    pub lowest : first (padded T n) ≡ ok d0
    pub d0_found : m.get_relocatable_from_var_name ids "d0" t ≡ ok b
    pub d0_written : m.insert_value b (int (T.from_digit d0)) t ≡ (ok tt, u)
    pub result_written : m.insert_value (m.get_ap u) (int 1) u ≡ (ok tt, s')

  length-digit_values : (ds : List ℤ) → length (digit_values F m T ids ds) ≡ length ds
  length-digit_values [] = refl
  length-digit_values (d ∷ ds) = ap suc (length-digit_values ds)

  write_one :
      (u s' : S)
      → m.insert_value (m.get_ap u) (int 1) u ≡ (ok tt, s')
      → write_result_to_ap F m ids 1 0 u ≡ (ok tt, s')
  unfolding write_result_to_ap
  write_one u s' h =
      let one : F.from 1 ≡ 1 = F.from_lem 1 ∙ mod-eq_of_lt (omega (arith, F.prime_lem)) in
      let r = m.get_ap u in
      let here : m.sub_usize (m.get_ap u) 0 ≡ ok (m.get_ap u) =
        m.sub_usize_lem (m.get_ap u) 0 (omega arith)
        ∙ ap (λ (k : ℕ). ok (record r { offset = k })) (omega arith) in
      ground (arith, one, here, h)

  -- For a scalar below 2 ^ 128, where the digits can be written at the pointer `digits`, the lowest
  -- one to its variable and the result at `ap`: the hint succeeds, and the 82 cells hold digits
  -- from -1, 0 and 1 whose value in base -3 is the scalar; the variable holds the lowest digit, and
  -- the cell at `ap` holds 1.
  pub decompose_scalar_to_neg3_base_lem :
      (n : ℕ) (d0 : ℤ) (a b : Relocatable) (s t u s' : S)
      → m.get_integer_from_var_name ids "scalar" s ≡ ok n
      → n < 2 ^ 128
      → CanWrite n d0 a b s t u s'
      → (decompose_scalar_to_neg3_base F m T ids s ≡ (ok tt, s'))
        × (digits : List ℤ) × (length digits ≡ 82)
        × All IsDigit digits
        × ((neg_3_value digits).0 ≡ n + (neg_3_value digits).1)
        × Holds m s' a (digit_values F m T ids digits)
        × (m.get_maybe s' b ≡ some (int (T.from_digit d0)))
        × (m.get_maybe s' (m.get_ap u) ≡ some (int 1))
  unfolding decompose_scalar_to_neg3_base
  decompose_scalar_to_neg3_base_lem n d0 a b s t u s' read small can =
      let spare : ℕ = 82 - length (T.neg_3_base_le n) in
      let values = digit_values F m T ids (padded T n) in
      let held : Holds m t a values =
        write_arg-Holds m s t a values
          (omega (arith, can.in_range, length-digit_values (padded T n), length-padded T n small))
          can.digits_written in
      let kept : Holds m u a values =
        insert_value-Holds m t u b a (int (T.from_digit d0)) values can.d0_written held in
      (
        ground (
          arith,
          read,
          padded_fits T n small,
          can.found,
          can.digits_written,
          can.lowest,
          m.insert_value_from_var_name_lem t ids "d0" b (int (T.from_digit d0)) can.d0_found,
          can.d0_written,
          write_one u s' can.result_written,
        ),
        padded T n,
        length-padded T n small,
        padded_digits (T.neg_3_base_le n) spare (T.digits_lem n),
        rw (padded_value (T.neg_3_base_le n) spare) (T.value_lem n),
        insert_value-Holds m u s' (m.get_ap u) a (int 1) values can.result_written kept,
        m.insert_value_keeps u s' (m.get_ap u) b (int 1) (int (T.from_digit d0)) can.result_written
            (m.get_maybe-insert_value t u b (int (T.from_digit d0)) can.d0_written),
        m.get_maybe-insert_value u s' (m.get_ap u) (int 1) can.result_written,
      )
