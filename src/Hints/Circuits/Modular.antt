-- ===== src/Hints/Circuits/Modular.antt =====
-- The modular tests, and the split of a felt, against arithmetic.
use native.Mathlib.Decide.{dec_lt}
use native.Mathlib.Nat.{add-mod, mod-lt, mod-eq_of_lt, mod-eq-sub-mod, mod_self}
use keth.Prelude.{
  zero, suc, ℕ, ◌+◌, ◌-◌, ◌*◌, ◌/◌, ◌%◌, ◌^◌, ◌<◌, ◌≡◌, refl, sym, ap, ◌∙◌, arith, Bool, true,
  false, ◌==◌, ok, panic, Bool-cases, inl, inr, ◌↔◌, if◌then◌else◌, [], ◌∷◌, ◌>>◌,
}
use keth.Machine.{Felt252, Machine, int}
use keth.HintUtils.Limbs.{split}
use keth.HintUtils.Round.{split_limb}
use keth.Hints.Circuits.{x_mod_p_eq_y_mod_p, x_is_neg_y_mod_p, felt_to_uint384_split_hint}

Bool_ext : (a b : Bool) → (a ≡ true) ↔ (b ≡ true) → a ≡ b
Bool_ext true true h = refl
Bool_ext true false h = sym (h.0 refl)
Bool_ext false true h = h.1 refl
Bool_ext false false h = refl

-- With residues `r` and `s` of a modulus `p`: their sum is divisible by `p` exactly if `r` is the
-- negative of `s`.
neg_zero : (r p : ℕ) → r < p → ((r + 0) % p ≡ 0) ↔ (r ≡ 0)
neg_zero r p h = (
  λ e. omega (arith, mod-eq_of_lt {n = r + 0} {m = p} (omega arith)),
  λ e. omega (arith, mod-eq_of_lt {n = r + 0} {m = p} (omega arith)),
)

neg_pos : (r s p : ℕ) → r < p → s < p → 0 < s → ((r + s) % p ≡ 0) ↔ (r ≡ (p - s) % p)
neg_pos r s p hr hs pos =
    let negative : (p - s) % p ≡ p - s = mod-eq_of_lt (omega arith) in
    (
      λ e. elim (dec_lt (r + s) p) [
        | yes small ↦ absurd (omega (arith, mod-eq_of_lt {n = r + s} {m = p} small))
        | no big ↦ omega (
          arith,
          mod-eq-sub-mod {n = r + s} {m = p} (omega arith),
          mod-eq_of_lt {n = r + s - p} {m = p} (omega arith),
        )
      ],
      λ e. let whole : r + s ≡ p = omega arith in ap (λ (t : ℕ). t % p) whole ∙ mod_self p,
    )

-- The test on residues.
abbrev neg_test : ℕ → ℕ → ℕ → Bool
neg_test r s p = r == (if s == 0 then s else (p - s) % p)

neg_test_lem : (r s p : ℕ) → r < p → s < p → neg_test r s p ≡ ((r + s) % p == 0)
neg_test_lem r zero p hr hs = Bool_ext (r == 0) ((r + 0) % p == 0) (ground (arith, neg_zero r p hr))
neg_test_lem r (suc s) p hr hs =
    Bool_ext (neg_test r (suc s) p) ((r + suc s) % p == 0)
      (ground (arith, neg_pos r (suc s) p hr hs (omega arith)))

x_is_neg_test :
    (x y p : ℕ)
    → x_is_neg_y_mod_p x y p ≡ (if p == 0 then panic else ok (neg_test (x % p) (y % p) p))
unfolding x_is_neg_y_mod_p
x_is_neg_test x y p = ground arith

-- For a positive modulus the hint's test holds exactly if `x + y` is divisible by it; a zero
-- modulus panics.
pub x_is_neg_y_mod_p_lem :
    (x y p : ℕ) → x_is_neg_y_mod_p x y p ≡ (if p == 0 then panic else ok ((x + y) % p == 0))
x_is_neg_y_mod_p_lem x y p = elim (Bool-cases (p == 0)) [
  | inl e ↦ ground (arith, x_is_neg_test x y p)
  | inr e ↦
      let pos : 0 < p = ground arith in
      ground (
        arith,
        x_is_neg_test x y p,
        neg_test_lem (x % p) (y % p) p (mod-lt x pos) (mod-lt y pos),
        add-mod x y p,
      )
]

-- The hint's test holds exactly if the residues agree; a zero modulus panics.
pub x_mod_p_eq_y_mod_p_lem :
    (x y p : ℕ) → x_mod_p_eq_y_mod_p x y p ≡ (if p == 0 then panic else ok (x % p == y % p))
unfolding x_mod_p_eq_y_mod_p
x_mod_p_eq_y_mod_p_lem x y p = ground arith

-- The limbs of a felt: three of 96 bits, and a fourth that is zero.
felt_limbs :
    (F : Felt252) (x : ℕ)
    → x < F.prime
    → split F x 4 96 ≡ x % 2 ^ 96 ∷ x / 2 ^ 96 % 2 ^ 96 ∷ x / 2 ^ 192 ∷ 0 ∷ []
unfolding split
felt_limbs F x h =
    rw
      (
        split_limb F x 96 (omega arith),
        split_limb F (x / 2 ^ 96) 96 (omega arith),
        split_limb F (x / 2 ^ 96 / 2 ^ 96) 96 (omega arith),
        split_limb F (x / 2 ^ 96 / 2 ^ 96 / 2 ^ 96) 96 (omega arith),
      )
      (ground (arith, F.prime_lem))

module _ {S Ids : Type 0} (F : Felt252) (m : Machine S Ids) (ids : Ids) where
  -- On a felt the hint does not panic: it writes three limbs below 2 ^ 96 which make up the felt.
  pub felt_to_uint384_split_lem :
      (x : ℕ) (vm : S)
      → m.get_integer_from_var_name ids "x" vm ≡ ok x
      → x < F.prime
      → (d0 d1 d2 : ℕ) × (felt_to_uint384_split_hint F m ids vm
          ≡ (m.insert_value_from_var_name ids "d0" (int d0)
                >> (m.insert_value_from_var_name ids "d1" (int d1)
                    >> m.insert_value_from_var_name ids "d2" (int d2)))
              vm)
        × (d0 < 2 ^ 96)
        × (d1 < 2 ^ 96)
        × (d2 < 2 ^ 96)
        × (x ≡ d0 + d1 * 2 ^ 96 + d2 * 2 ^ 192)
  unfolding felt_to_uint384_split_hint
  felt_to_uint384_split_lem x vm read below = (
    x % 2 ^ 96,
    x / 2 ^ 96 % 2 ^ 96,
    x / 2 ^ 192,
    ground (arith, felt_limbs F x below),
    omega arith,
    omega arith,
    omega (arith, F.prime_lem),
    omega arith,
  )
