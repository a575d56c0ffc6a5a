-- ===== src/Hints/Curve/Root.antt =====
-- The square root that `compute_y_from_x_hint` returns.
use native.Mathlib.Nat.{add-mul-mod_self_left, mod-eq_of_lt}
use mathlib.Core.Path.{subst}
use keth.Prelude.{
  ℕ, zero, suc, ◌+◌, ◌-◌, ◌*◌, ◌%◌, ◌<◌, ◌≡◌, ◌≢◌, sym, ap, ◌∙◌, arith, ok, true, false, ◌==◌,
  Option-cases, Bool-cases, inl, inr,
}
use keth.Hints.Curve.{PrimeField, square_root}

-- Numbers that add up to the modulus have the same square.
neg_square : (d s : ℕ) → d * d % (d + s) ≡ s * s % (d + s)
neg_square d s =
    sym (add-mul-mod_self_left (d * d) (d + s) s)
    ∙ (ap (λ (t : ℕ). t % (d + s)) (omega arith) ∙ add-mul-mod_self_left (s * s) (d + s) d)

module _ (K : PrimeField) where
  -- The negative of a root is a root as well, and of the other parity, unless the root is zero.
  neg_root :
      (rhs r : ℕ)
      → r < K.order
      → r * r % K.order ≡ rhs
      → (K.neg r < K.order) × (K.neg r * K.neg r % K.order ≡ rhs) × (rhs ≢ 0 → K.neg r % 2 ≢ r % 2)
  neg_root rhs zero below squared =
      rw K.neg_zero (below, squared, λ nonzero. absurd (nonzero (sym squared ∙ mod-eq_of_lt below)))
  neg_root rhs (suc r) below squared =
      let whole : K.order - suc r + suc r ≡ K.order = omega arith in
      rw (K.neg_lem (suc r) (omega arith) below) (
        omega arith,
        subst (λ (t : ℕ). (K.order - suc r) * (K.order - suc r) % t ≡ suc r * suc r % t) whole
              (neg_square (K.order - suc r) (suc r))
            ∙ squared,
        λ _ same. omega (arith, K.order_odd),
      )

  -- For a right-hand side below the order that is the square of some number in the field: with the
  -- flag for points on the curve, `square_root` succeeds, and returns a number below the order
  -- whose square is the right-hand side and, unless that is zero, whose parity is that of `v`.
  pub square_root_lem :
      (rhs g v y : ℕ)
      → rhs < K.order
      → y * y % K.order ≡ rhs
      → (root : ℕ) × (square_root K rhs g v true ≡ ok root)
        × (root < K.order)
        × (root * root % K.order ≡ rhs)
        × (rhs ≢ 0 → root % 2 ≡ v % 2)
  unfolding square_root
  square_root_lem rhs g v y small square = elim (Option-cases (K.sqrt rhs)) [
    | inl e ↦ absurd (K.sqrt_found rhs y small square e)
    | inr ((r, s), e) ↦
        let (below, squared) = K.sqrt_square rhs r s small e in
        elim (Bool-cases (v % 2 == r % 2)) [
          | inl same ↦ (
            r,
            ground (arith, K.from_hex_unchecked_lem rhs small),
            below,
            squared,
            λ _. ground arith,
          )
          | inr other ↦
              let (below', squared', parity) = neg_root rhs r below squared in
              (
                K.neg r,
                ground (arith, K.from_hex_unchecked_lem rhs small),
                below',
                squared',
                λ nonzero. omega (arith, other_bit v r other, parity nonzero),
              )
        ]
  ]
    where
      other_bit : (v r : ℕ) → (v % 2 == r % 2) ≡ false → v % 2 ≢ r % 2
      other_bit v r h same = ground arith
