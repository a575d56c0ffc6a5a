-- ===== src/Tests/Field.antt =====
-- The field of seven elements, and the square root in it.
use native.Mathlib.Nat.{add-mul-mod_self_left, mod-eq_of_lt, mod-add-div}
use keth.Prelude.{
  ℕ, zero, suc, ◌+◌, ◌-◌, ◌*◌, ◌/◌, ◌%◌, ◌<◌, ◌≡◌, ◌≢◌, refl, sym, ap, ◌∙◌, arith, ok, true, Option,
  some, none, ◌==◌, if◌then◌else◌,
}
use keth.Hints.Curve.{PrimeField, square_root}
use keth.Hints.Curve.Root.{square_root_lem}

abbrev sqrt_seven : ℕ → Option (ℕ × ℕ)
sqrt_seven a =
    if a == 0
    then some (0, 0)
    else if a == 1
    then some (1, 6)
    else if a == 2
    then some (3, 4)
    else if a == 4
    then some (2, 5)
    else none

sqrt_seven_square : (a r s : ℕ) → a < 7 → sqrt_seven a ≡ some (r, s) → (r < 7) × (r * r % 7 ≡ a)
sqrt_seven_square zero r s h e = ground arith
sqrt_seven_square (suc zero) r s h e = ground arith
sqrt_seven_square (suc (suc zero)) r s h e = ground arith
sqrt_seven_square (suc (suc (suc zero))) r s h e = ground arith
sqrt_seven_square (suc (suc (suc (suc zero)))) r s h e = ground arith
sqrt_seven_square (suc (suc (suc (suc (suc a))))) r s h e = ground arith

square_digit : (y : ℕ) → y * y % 7 ≡ (y % 7) * (y % 7) % 7
square_digit y =
    let q : ℕ = y / 7 in
    let r : ℕ = y % 7 in
    let parts : y ≡ r + 7 * q = sym (mod-add-div y 7) in
    ap (λ (t : ℕ). t * t % 7) parts
    ∙ (ap (λ (t : ℕ). t % 7) {x = (r + 7 * q) * (r + 7 * q)}
          {y = r * r + 7 * (2 * r * q + 7 * q * q)} (omega arith)
        ∙ add-mul-mod_self_left (r * r) 7 (2 * r * q + 7 * q * q))

digit_found : (a r : ℕ) → r < 7 → r * r % 7 ≡ a → sqrt_seven a ≢ none
digit_found a zero h e = ground arith
digit_found a (suc zero) h e = ground arith
digit_found a (suc (suc zero)) h e = ground arith
digit_found a (suc (suc (suc zero))) h e = ground arith
digit_found a (suc (suc (suc (suc zero)))) h e = ground arith
digit_found a (suc (suc (suc (suc (suc zero))))) h e = ground arith
digit_found a (suc (suc (suc (suc (suc (suc zero)))))) h e = ground arith
digit_found a (suc (suc (suc (suc (suc (suc (suc r))))))) h e = absurd (omega arith)

neg_seven : (a : ℕ) → 0 < a → a < 7 → (if a == 0 then 0 else 7 - a) ≡ 7 - a
neg_seven a pos h = ground arith

abbrev seven : PrimeField
seven = record {
  order = 7;
  from_hex_unchecked = λ n. n % 7;
  mul = λ a b. a * b % 7;
  neg = λ a. if a == 0 then 0 else 7 - a;
  sqrt = sqrt_seven;
  order_odd = refl;
  from_hex_unchecked_lem = λ n h. mod-eq_of_lt h;
  mul_lem = λ a b p q. refl;
  neg_zero = refl;
  neg_lem = neg_seven;
  sqrt_square = sqrt_seven_square;
  sqrt_found = λ a y h e. digit_found a (y % 7) (omega arith) (sym (square_digit y) ∙ e);
}

square_root_lem_example :
    (root : ℕ) × (square_root seven 2 3 0 true ≡ ok root)
    × (root < 7)
    × (root * root % 7 ≡ 2)
    × (◌≢◌ {A = ℕ} 2 0 → root % 2 ≡ 0 % 2)
square_root_lem_example = square_root_lem seven 2 3 0 4 (omega arith) refl
