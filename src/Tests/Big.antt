-- ===== src/Tests/Big.antt =====
-- Big numbers with the behaviour that is assumed of them, and the theorems on MODEXP at concrete
-- inputs.
use native.Mathlib.Nat.{pow-suc}
use native.Mathlib.Decide.{dec_lt}
use keth.Prelude.{
  ℕ, zero, suc, ◌+◌, ◌-◌, ◌*◌, ◌/◌, ◌%◌, ◌^◌, ◌<◌, ◌≤◌, List, [], ◌∷◌, length, ◌≡◌, refl, ap, ◌∙◌,
  arith, ◌==◌, ==_iff, Bool-cases, inl, inr, true, false,
}
use keth.Hints.Precompiles.{BigNumbers, be_value, modexp_result}
use keth.Hints.Precompiles.Modexp.{modexp_result_lem}

unfoldable bits_within : ℕ → ℕ → ℕ
bits_within zero n = 0
bits_within (suc fuel) n =
    let rest = bits_within fuel (n / 2) in elim (n == 0) [ true ↦ 0 | false ↦ 1 + rest ]

bits_within-zero : (fuel : ℕ) → bits_within fuel 0 ≡ 0
unfolding bits_within
bits_within-zero zero = refl
bits_within-zero (suc fuel) = refl

-- One round, on a number that is not zero.
bits_within-suc : (fuel n : ℕ) → 0 < n → bits_within (suc fuel) n ≡ 1 + bits_within fuel (n / 2)
unfolding bits_within
bits_within-suc fuel n h = ground arith

double_pow : (k : ℕ) → 0 < k → 2 ^ k ≡ 2 * 2 ^ (k - 1)
double_pow zero h = absurd (omega arith)
double_pow (suc k) h =
    let same : suc k - 1 ≡ k = omega arith in omega (arith, pow-suc 2 k, ap (λ (t : ℕ). 2 ^ t) same)

bits_within_bounds :
    (fuel n : ℕ)
    → n ≤ fuel
    → 0 < n
    → (2 ^ (bits_within fuel n - 1) ≤ n) × (n < 2 ^ bits_within fuel n) × (0 < bits_within fuel n)
bits_within_bounds zero n le h = absurd (omega arith)
bits_within_bounds (suc fuel) n le h = elim (Bool-cases (n / 2 == 0)) [
  | inl e ↦
      let none : n / 2 ≡ 0 = (==_iff (n / 2) 0).0 e in
      let one : bits_within (suc fuel) n ≡ 1 =
        bits_within-suc fuel n h
        ∙ ap (λ (t : ℕ). 1 + t) (ap (bits_within fuel) none ∙ bits_within-zero fuel) in
      rw one (omega arith, omega arith, omega arith)
  | inr e ↦
      let more : 0 < n / 2 = ground arith in
      let (low, high, pos) = bits_within_bounds fuel (n / 2) (omega arith) more in
      let k : ℕ = bits_within fuel (n / 2) in
      let up : 2 ^ (1 + k) ≡ 2 * 2 ^ k =
        double_pow (1 + k) (omega arith) ∙ ap (λ (t : ℕ). 2 * 2 ^ t) (omega arith) in
      let down : 2 ^ (1 + k - 1) ≡ 2 * 2 ^ (k - 1) =
        ap (λ (t : ℕ). 2 ^ t) (omega arith) ∙ double_pow k pos in
      rw (bits_within-suc fuel n h) (omega (arith, down), omega (arith, up), omega arith)
]

unfoldable bytes_within : ℕ → ℕ → List ℕ → List ℕ
bytes_within zero n acc = acc
bytes_within (suc fuel) n acc =
    let rest = bytes_within fuel (n / 256) (n % 256 ∷ acc) in
    elim (n / 256 == 0) [ true ↦ n ∷ acc | false ↦ rest ]

bytes_within_last : (fuel n : ℕ) (acc : List ℕ) → n < 256 → bytes_within (suc fuel) n acc ≡ n ∷ acc
unfolding bytes_within
bytes_within_last fuel n acc h = ground arith

bytes_within-suc :
    (fuel n : ℕ) (acc : List ℕ)
    → 256 ≤ n
    → bytes_within (suc fuel) n acc ≡ bytes_within fuel (n / 256) (n % 256 ∷ acc)
unfolding bytes_within
bytes_within-suc fuel n acc h = ground arith

be_value-bytes_within :
    (fuel n : ℕ) (acc : List ℕ) → n < fuel → be_value 0 (bytes_within fuel n acc) ≡ be_value n acc
unfolding bytes_within
be_value-bytes_within zero n acc h = absurd (omega arith)
be_value-bytes_within (suc fuel) n acc h = elim (dec_lt n 256) [
  | yes small ↦
      ap (be_value 0) (bytes_within_last fuel n acc small)
      ∙ ap (λ (t : ℕ). be_value t acc) (omega arith)
  | no large ↦
      ap (be_value 0) (bytes_within-suc fuel n acc (omega arith))
      ∙ (be_value-bytes_within fuel (n / 256) (n % 256 ∷ acc) (omega arith)
          ∙ ap (λ (t : ℕ). be_value t acc) (omega arith))
]

length-bytes_within :
    (fuel n k : ℕ) (acc : List ℕ)
    → 0 < k
    → n < 256 ^ k
    → length (bytes_within fuel n acc) ≤ k + length acc
unfolding bytes_within
length-bytes_within zero n k acc pos h = omega arith
length-bytes_within (suc fuel) n zero acc pos h = absurd (omega arith)
length-bytes_within (suc fuel) n (suc k) acc pos h = elim (dec_lt n 256) [
  | yes small ↦ rw (bytes_within_last fuel n acc small) (omega arith)
  | no large ↦ elim (dec_lt 0 k) [
    | yes more ↦
        let shorter =
          length-bytes_within fuel (n / 256) k (n % 256 ∷ acc) more
            (omega (arith, pow-suc 256 k)) in
        rw (bytes_within-suc fuel n acc (omega arith)) (omega (arith, shorter))
    | no none ↦
        let last : suc k ≡ 1 = omega arith in
        let one : 256 ^ suc k ≡ 256 ^ 1 = ap (λ (t : ℕ). 256 ^ t) last in
        absurd (omega (arith, one))
  ]
]

abbrev big : BigNumbers
big = record {
  bits = λ n. bits_within n n;
  modpow = λ b e n. b ^ e % n;
  from_bytes_be = λ bs. be_value 0 bs;
  to_bytes_be = λ n. bytes_within (suc n) n [];
  bits_zero = bits_within-zero 0;
  bits_bounds = λ n. bits_within_bounds n n (omega arith);
  modpow_lem = λ b e n h. refl;
  from_bytes_be_lem = λ bs. refl;
  to_bytes_be_value = λ n. be_value-bytes_within (suc n) n [] (omega arith);
  to_bytes_be_short = λ n k pos h. omega (arith, length-bytes_within (suc n) n k [] pos h);
}

modexp_result_lem_example :
    (length (modexp_result big (3 ∷ []) (5 ∷ []) (0 ∷ 7 ∷ [])) ≡ 2)
    × (be_value 0 (modexp_result big (3 ∷ []) (5 ∷ []) (0 ∷ 7 ∷ [])) ≡ 5)
modexp_result_lem_example =
    modexp_result_lem big (3 ∷ []) (5 ∷ []) (0 ∷ 7 ∷ []) (omega arith, (omega arith, tt))
