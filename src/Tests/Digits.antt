-- ===== src/Tests/Digits.antt =====
-- Digits in base minus three with the behaviour that is assumed of them, and the theorem on the hint
-- that writes a scalar's digits at a concrete scalar.
use mathlib.Core.Path.{subst}
use native.Mathlib.Nat.{pow-suc}
use keth.Prelude.{
  ℕ, zero, suc, ◌+◌, ◌-◌, ◌*◌, ◌/◌, ◌%◌, ◌^◌, ◌<◌, ◌≤◌, ℤ, pos, negsuc, List, [], ◌∷◌, All, Bool,
  true, false, not, some, ◌≡◌, inl, inr, refl, sym, arith, ◌==◌, ==_iff, Bool-cases, if◌then◌else◌,
  length, ok,
}
use keth.Machine.{int, relocatable}
use keth.HintUtils.Memory.{Holds}
use keth.Hints.Curve.Digits.{
  plus, minus, neg_3_value, IsDigit, NegThree, CanWrite, digit_values, padded,
  decompose_scalar_to_neg3_base, decompose_scalar_to_neg3_base_lem,
}
use keth.Tests.Library.{felts, stark_prime, machine, Vm, Variables, at, vm_write, vm_insert}
use keth.Tests.Cells.{cells_of}

-- The lowest digit of `n`, or of `-n` where the flag is set.
unfoldable digit_of : Bool → ℕ → ℤ
digit_of negative n =
    if n % 3 == 0
    then pos 0
    else if (n % 3 == 1)
    then (if negative then negsuc 0 else pos 1)
    else (if negative then pos 1 else negsuc 0)

-- The digits of `n`, or of `-n`.
unfoldable digits_within : ℕ → Bool → ℕ → List ℤ
unfolding digit_of
digits_within zero negative n = []
digits_within (suc fuel) negative n =
    let rest = digits_within fuel (not negative) ((n + 1) / 3) in
    elim (n == 0) [ true ↦ [] | false ↦ digit_of negative n ∷ rest ]

digit_of-IsDigit : (negative : Bool) (n : ℕ) → IsDigit (digit_of negative n)
unfolding digit_of
digit_of-IsDigit true n = elim (Bool-cases (n % 3 == 0)) [
  | inl e ↦ rw e (inl refl)
  | inr e ↦ elim (Bool-cases (n % 3 == 1)) [
    | inl f ↦ rw (e, f) (inr (inr refl))
    | inr f ↦ rw (e, f) (inr (inl refl))
  ]
]
digit_of-IsDigit false n = elim (Bool-cases (n % 3 == 0)) [
  | inl e ↦ rw e (inl refl)
  | inr e ↦ elim (Bool-cases (n % 3 == 1)) [
    | inl f ↦ rw (e, f) (inr (inl refl))
    | inr f ↦ rw (e, f) (inr (inr refl))
  ]
]

-- The digit and three times what is left make up the number.
digit_of_value :
    (n : ℕ)
    → (n + minus (digit_of false n) ≡ 3 * ((n + 1) / 3) + plus (digit_of false n))
      × (n + plus (digit_of true n) ≡ 3 * ((n + 1) / 3) + minus (digit_of true n))
unfolding digit_of
digit_of_value n = elim (Bool-cases (n % 3 == 0)) [
  | inl e ↦ let f = (==_iff (n % 3) 0).0 e in rw (e) (omega arith, omega arith)
  | inr e ↦ elim (Bool-cases (n % 3 == 1)) [
    | inl f ↦ let g = (==_iff (n % 3) 1).0 f in rw (e, f) (omega arith, omega arith)
    | inr f ↦ let g : 2 ≡ n % 3 = ground arith in rw (e, f) (omega arith, omega arith)
  ]
]

digits_within_zero : (fuel : ℕ) (negative : Bool) → digits_within fuel negative 0 ≡ []
unfolding digits_within
digits_within_zero zero negative = refl
digits_within_zero (suc fuel) negative = refl

digits_within-suc :
    (fuel : ℕ) (negative : Bool) (n : ℕ)
    → 0 < n
    → digits_within (suc fuel) negative n
      ≡ digit_of negative n ∷ digits_within fuel (not negative) ((n + 1) / 3)
unfolding digits_within
digits_within-suc fuel negative n h = ground arith

digits_within-IsDigit :
    (fuel : ℕ) (negative : Bool) (n : ℕ) → All IsDigit (digits_within fuel negative n)
unfolding digits_within
digits_within-IsDigit zero negative n = tt
digits_within-IsDigit (suc fuel) negative zero = tt
digits_within-IsDigit (suc fuel) negative (suc n) =
    subst (All IsDigit) (sym (digits_within-suc fuel negative (suc n) (omega arith))) (
      digit_of-IsDigit negative (suc n),
      digits_within-IsDigit fuel (not negative) ((suc n + 1) / 3),
    )

digits_within_value :
    (fuel n : ℕ)
    → n ≤ fuel
    → ((neg_3_value (digits_within fuel false n)).0
        ≡ n + (neg_3_value (digits_within fuel false n)).1)
      × (n + (neg_3_value (digits_within fuel true n)).0
          ≡ (neg_3_value (digits_within fuel true n)).1)
digits_within_value fuel zero le =
    rw (digits_within_zero fuel false, digits_within_zero fuel true) (refl, refl)
digits_within_value zero (suc n) le = absurd (omega arith)
digits_within_value (suc fuel) (suc n) le =
    let (up, down) = digits_within_value fuel ((suc n + 1) / 3) (omega arith) in
    let (added, taken) = digit_of_value (suc n) in
    rw
      (
        digits_within-suc fuel false (suc n) (omega arith),
        digits_within-suc fuel true (suc n) (omega arith),
      )
      (omega (arith, up, down, added, taken), omega (arith, up, down, added, taken))

pow_odd : (k : ℕ) → 3 ^ k % 2 ≡ 1
pow_odd zero = refl
pow_odd (suc k) = omega (arith, pow-suc 3 k, pow_odd k)

length-digits_within :
    (fuel k n : ℕ) (negative : Bool) → 2 * n < 3 ^ k → length (digits_within fuel negative n) ≤ k
unfolding digits_within
length-digits_within fuel k zero negative h = rw (digits_within_zero fuel negative) (omega arith)
length-digits_within fuel zero (suc n) negative h = absurd (omega arith)
length-digits_within zero (suc k) (suc n) negative h = omega arith
length-digits_within (suc fuel) (suc k) (suc n) negative h =
    let rest =
      length-digits_within fuel k ((suc n + 1) / 3) (not negative)
        (omega (arith, pow-suc 3 k, pow_odd k)) in
    rw (digits_within-suc fuel negative (suc n) (omega arith)) (omega (arith, rest))

abbrev felt_of_digit : ℤ → ℕ
felt_of_digit (pos n) = n
felt_of_digit (negsuc n) = stark_prime - (n + 1)

abbrev neg_three : NegThree felts
neg_three = record {
  neg_3_base_le = λ n. digits_within n false n;
  from_digit = felt_of_digit;
  digits_lem = λ n. digits_within-IsDigit n false n;
  value_lem = λ n. (digits_within_value n n (omega arith)).0;
  length_lem = λ n k positive h. length-digits_within n k n false h;
  from_digit_pos = λ n h. refl;
  from_digit_neg = λ n h. refl;
}

-- The scalar 5 is -1 + 1 * -3 + 1 * 9.
abbrev variables : Variables
variables = ("scalar", at 1 0) ∷ ("digits", at 1 1) ∷ ("d0", at 1 2) ∷ []

abbrev vm : Vm
vm = record {
  cells = cells_of ((at 1 0, int 5) ∷ (at 1 1, relocatable (at 2 0)) ∷ []);
  next_segment = 3;
  ap_register = at 1 7;
  fp_register = at 1 0;
}

abbrev after_digits : Vm
after_digits =
    (vm_write (at 2 0) (digit_values felts machine neg_three variables (padded neg_three 5)) vm).1

abbrev after_d0 : Vm
after_d0 = (vm_insert (at 1 2) (int (stark_prime - 1)) after_digits).1

abbrev after_result : Vm
after_result = (vm_insert (at 1 7) (int 1) after_d0).1

five : digits_within 5 false 5 ≡ negsuc 0 ∷ pos 1 ∷ pos 1 ∷ []
unfolding digits_within
five = refl

can_write :
    CanWrite felts machine neg_three variables 5
      (negsuc 0)
      (at 2 0)
      (at 1 2)
      vm
      after_digits
      after_d0
      after_result
unfolding digits_within
can_write = record {
  found = refl;
  in_range = omega arith;
  digits_written = refl;
  lowest = refl;
  d0_found = refl;
  d0_written = refl;
  result_written = refl;
}

decompose_scalar_to_neg3_base_lem_example :
    (decompose_scalar_to_neg3_base felts machine neg_three variables vm ≡ (ok tt, after_result))
    × (digits : List ℤ) × (length digits ≡ 82)
    × All IsDigit digits
    × ((neg_3_value digits).0 ≡ 5 + (neg_3_value digits).1)
    × Holds machine after_result (at 2 0) (digit_values felts machine neg_three variables digits)
    × (machine.get_maybe after_result (at 1 2) ≡ some (int (neg_three.from_digit (negsuc 0))))
    × (machine.get_maybe after_result (machine.get_ap after_d0) ≡ some (int 1))
decompose_scalar_to_neg3_base_lem_example =
    decompose_scalar_to_neg3_base_lem felts machine neg_three variables 5 (negsuc 0) (at 2 0)
      (at 1 2) vm after_digits after_d0 after_result refl (omega arith) can_write
