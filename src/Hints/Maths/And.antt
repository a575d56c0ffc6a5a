-- ===== src/Hints/Maths/And.antt =====
-- `felt252_bit_and`, limb by limb, is the bitwise and.
use mathlib.Core.Path.{ap₂}
use native.Mathlib.Nat.{mod-eq_of_lt}
use keth.Prelude.{
  ℕ, ◌+◌, ◌*◌, ◌/◌, ◌%◌, ◌^◌, ◌<◌, ◌≤◌, bit_and, [], ◌∷◌, ◌++◌, ◌≡◌, ap, ◌∙◌, arith, ok, err, ◌==◌,
  ==_iff, custom_hint, Bool-cases, inl, inr,
}
use keth.Prelude.Bits.{bit_and-split, bit_and-le, bit_and-zero, bit_and_mask}
use keth.Prelude.Bytes.{le_value, le_value-append, le_value-to_le_bytes}
use keth.Prelude.Words.{to_le_bytes}
use keth.Machine.{Felt252}
use keth.Hints.Maths.{to_limbs, felt252_bit_and}

-- The four limbs of a number, and the number of four limbs.
abbrev limb_0 : ℕ → ℕ
limb_0 x = x % 2 ^ 64

abbrev limb_1 : ℕ → ℕ
limb_1 x = x / 2 ^ 64 % 2 ^ 64

abbrev limb_2 : ℕ → ℕ
limb_2 x = x / 2 ^ 128 % 2 ^ 64

abbrev limb_3 : ℕ → ℕ
limb_3 x = x / 2 ^ 192 % 2 ^ 64

abbrev of_limbs : ℕ → ℕ → ℕ → ℕ → ℕ
of_limbs a b c d = a + 2 ^ 64 * (b + 2 ^ 64 * (c + 2 ^ 64 * d))

of_limbs_lem : (x : ℕ) → x < 2 ^ 256 → of_limbs (limb_0 x) (limb_1 x) (limb_2 x) (limb_3 x) ≡ x
of_limbs_lem x h = omega arith

-- The test on the leading bits of the top limb: they are zero below 2 ^ 251.
leading_bits :
    (x : ℕ) → x < 2 ^ 256 → bit_and (limb_3 x) 0xf800000000000000 ≡ 2 ^ 59 * (x / 2 ^ 251)
leading_bits x h =
    let low = x / 2 ^ 192 % 2 ^ 59 in
    let high = x / 2 ^ 251 in
    let parts : limb_3 x ≡ low + 2 ^ 59 * high = omega arith in
    ap (λ (t : ℕ). bit_and t 0xf800000000000000) parts
    ∙ (bit_and-split 59 low high 0 31 (omega arith) (omega arith)
        ∙ omega (arith, bit_and-zero low, bit_and_mask 5 high))

module _ (F : Felt252) where
  pub to_limbs_small :
      (x : ℕ) → x < 2 ^ 251 → to_limbs F x ≡ ok (limb_0 x ∷ limb_1 x ∷ limb_2 x ∷ limb_3 x ∷ [])
  unfolding to_limbs
  to_limbs_small x h = rw (F.to_le_digits_lem x (omega (arith, F.prime_lem))) (
      rw (
        (==_iff (bit_and (limb_3 x) 0xf800000000000000) 0).1
          (omega (arith, leading_bits x (omega arith)))))

  pub to_limbs_big :
      (x : ℕ)
      → 2 ^ 251 ≤ x
      → x < F.prime
      → to_limbs F x ≡ err (custom_hint "IntegerBiggerThanPowerOfTwo")
  unfolding to_limbs
  to_limbs_big x h below =
      let small : x < 2 ^ 256 = omega (arith, F.prime_lem) in
      rw (F.to_le_digits_lem x below)
        (elim (Bool-cases (bit_and (limb_3 x) 0xf800000000000000 == 0)) [
          | inl e ↦ absurd (
              omega (
                arith,
                (==_iff (bit_and (limb_3 x) 0xf800000000000000) 0).0 e,
                leading_bits x small,
              ))
          | inr e ↦ rw e
        ])

  -- Four limbs below 2 ^ 64, written as bytes and read back.
  limbs_value :
      (a b c d : ℕ)
      → a < 2 ^ 64
      → b < 2 ^ 64
      → c < 2 ^ 64
      → d < 2 ^ 64
      → le_value (to_le_bytes 8 a ++ (to_le_bytes 8 b ++ (to_le_bytes 8 c ++ to_le_bytes 8 d)))
        ≡ of_limbs a b c d
  unfolding to_le_bytes
  limbs_value a b c d ha hb hc hd = omega (
    arith,
    le_value-append (to_le_bytes 8 a) (to_le_bytes 8 b ++ (to_le_bytes 8 c ++ to_le_bytes 8 d)),
    le_value-append (to_le_bytes 8 b) (to_le_bytes 8 c ++ to_le_bytes 8 d),
    le_value-append (to_le_bytes 8 c) (to_le_bytes 8 d),
    le_value-to_le_bytes 8 a,
    le_value-to_le_bytes 8 b,
    le_value-to_le_bytes 8 c,
    le_value-to_le_bytes 8 d,
  )

  -- The bitwise and of the whole numbers is that of the limbs.
  and_of_limbs :
      (x y : ℕ)
      → x < 2 ^ 256
      → y < 2 ^ 256
      → of_limbs
          (bit_and (limb_0 x) (limb_0 y))
          (bit_and (limb_1 x) (limb_1 y))
          (bit_and (limb_2 x) (limb_2 y))
          (bit_and (limb_3 x) (limb_3 y))
        ≡ bit_and x y
  and_of_limbs x y hx hy = omega (
    arith,
    ap₂ bit_and (of_limbs_lem x hx) (of_limbs_lem y hy),
    bit_and-split 64 (limb_0 x) (limb_1 x + 2 ^ 64 * (limb_2 x + 2 ^ 64 * limb_3 x)) (limb_0 y)
        (limb_1 y + 2 ^ 64 * (limb_2 y + 2 ^ 64 * limb_3 y)) (omega arith) (omega arith),
    bit_and-split 64 (limb_1 x) (limb_2 x + 2 ^ 64 * limb_3 x) (limb_1 y)
        (limb_2 y + 2 ^ 64 * limb_3 y) (omega arith) (omega arith),
    bit_and-split 64 (limb_2 x) (limb_3 x) (limb_2 y) (limb_3 y) (omega arith) (omega arith),
  )

  felt252_bit_and_bytes :
      (x y : ℕ)
      → x < 2 ^ 251
      → y < 2 ^ 251
      → felt252_bit_and F x y
        ≡ ok (
            F.from_bytes_le_slice (
              to_le_bytes 8 (bit_and (limb_0 x) (limb_0 y))
              ++ (to_le_bytes 8 (bit_and (limb_1 x) (limb_1 y))
                  ++ (to_le_bytes 8 (bit_and (limb_2 x) (limb_2 y))
                      ++ to_le_bytes 8 (bit_and (limb_3 x) (limb_3 y))))))
  unfolding felt252_bit_and
  felt252_bit_and_bytes x y hx hy = ground (arith, to_limbs_small x hx, to_limbs_small y hy)

  -- On numbers below 2 ^ 251 `felt252_bit_and` succeeds and returns their bitwise and.
  pub felt252_bit_and_lem :
      (x y : ℕ) → x < 2 ^ 251 → y < 2 ^ 251 → felt252_bit_and F x y ≡ ok (bit_and x y)
  felt252_bit_and_lem x y hx hy =
      felt252_bit_and_bytes x y hx hy
      ∙ (ap ok (
          F.from_bytes_le_slice_lem _
          ∙ (ap (λ (t : ℕ). t % F.prime)
                (limbs_value (bit_and (limb_0 x) (limb_0 y)) (bit_and (limb_1 x) (limb_1 y))
                    (bit_and (limb_2 x) (limb_2 y)) (bit_and (limb_3 x) (limb_3 y))
                    (omega (arith, bit_and-le (limb_0 x) (limb_0 y)))
                    (omega (arith, bit_and-le (limb_1 x) (limb_1 y)))
                    (omega (arith, bit_and-le (limb_2 x) (limb_2 y)))
                    (omega (arith, bit_and-le (limb_3 x) (limb_3 y)))
                  ∙ and_of_limbs x y (omega arith) (omega arith))
              ∙ mod-eq_of_lt (omega (arith, F.prime_lem, bit_and-le x y)))))
