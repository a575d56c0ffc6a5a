-- ===== src/Hints/Curve.antt =====
-- hint_definitions/curve.rs: the hints on single points of an elliptic curve.
pub mod Root
pub mod Msm
pub mod Builtins
pub mod Digits
use keth.Prelude.{
  ℕ, ◌+◌, ◌-◌, ◌*◌, ◌/◌, ◌%◌, ◌^◌, ◌<◌, ◌≢◌, ◌≡◌, List, [], ◌∷◌, Option, some, none, Bool, true,
  false, ◌||◌, ◌==◌, if◌then◌else◌, from_bool, Result, ok, err, panic, Action, assert, lift, reads,
  unwrap, pure, ◌>>=◌, ◌>>◌,
}
use keth.Prelude.Words.{checked_rem}
use keth.Machine.{Felt252, Machine, int}
use keth.HintUtils.Sequence.{write_collection_from_var_name}
use keth.HintUtils.Uint384
use keth.Hints.Precompiles.{BigNumbers}

-- A prime field of the library (`FieldElement`), its elements known by the numbers below the order
-- that stand for them (`element_to_biguint`).
pub record PrimeField : Type 0 where
  pub order : ℕ
  pub from_hex_unchecked : ℕ → ℕ
  pub mul : ℕ → ℕ → ℕ
  pub neg : ℕ → ℕ
  -- both square roots, if there are any
  pub sqrt : ℕ → Option (ℕ × ℕ)
  pub order_odd : order % 2 ≡ 1
  pub from_hex_unchecked_lem : (n : ℕ) → n < order → from_hex_unchecked n ≡ n
  pub mul_lem : (a b : ℕ) → a < order → b < order → mul a b ≡ a * b % order
  pub neg_zero : neg 0 ≡ 0
  pub neg_lem : (a : ℕ) → 0 < a → a < order → neg a ≡ order - a
  pub sqrt_square :
      (a r s : ℕ) → a < order → sqrt a ≡ some (r, s) → (r < order) × (r * r % order ≡ a)
  pub sqrt_found : (a y : ℕ) → a < order → y * y % order ≡ a → sqrt a ≢ none

unfoldable pub is_quad_residue : BigNumbers → ℕ → ℕ → Bool
is_quad_residue B a p = (a == 0) || ((a == 1) || (B.modpow a (p / 2) p == 1))

-- `rhs`, the right-hand side of the curve's equation
unfoldable pub curve_rhs : ℕ → ℕ → ℕ → ℕ → Result ℕ
curve_rhs a b x p = checked_rem (x ^ 3 + a * x + b) p

-- `square_root`: of the right-hand side with the parity of `v`, or of its product with `g`.
unfoldable pub square_root : PrimeField → ℕ → ℕ → ℕ → Bool → Result ℕ
square_root K rhs g v true = elim (K.sqrt (K.from_hex_unchecked rhs)) [
  | some roots ↦ ok (if v % 2 == roots.0 % 2 then roots.0 else K.neg roots.0)
  | none ↦ panic
]
square_root K rhs g v false =
    elim (K.sqrt (K.mul (K.from_hex_unchecked rhs) (K.from_hex_unchecked g))) [
      | some roots ↦ ok roots.0
      | none ↦ panic
    ]

-- The test of `is_point_on_curve` on the packed numbers.
unfoldable pub on_curve : ℕ → ℕ → ℕ → ℕ → ℕ → Result Bool
unfolding curve_rhs
on_curve x y a b modulus = elim (curve_rhs a b x modulus) [
  | ok rhs ↦ elim (checked_rem (y ^ 2) modulus) [
    | ok lhs ↦ ok (rhs == lhs)
    | err e ↦ err e
    | panic ↦ panic
  ]
  | err e ↦ err e
  | panic ↦ panic
]

module _ {S Ids : Type 0} (F : Felt252) (m : Machine S Ids) (B : BigNumbers)
    (secp256k1 bn254 : PrimeField) (ids : Ids) where
  -- What `compute_y_from_x_hint` does for one of the two fields.
  unfoldable pub write_root : PrimeField → ℕ → ℕ → ℕ → ℕ → Action S (Unit {0})
  unfolding is_quad_residue square_root Uint384.split Uint384.insert_from_var_name
      write_collection_from_var_name
  write_root K p rhs g v = do
    let is_on_curve = is_quad_residue B rhs p
    root ← lift (square_root K rhs g v is_on_curve)
    Uint384.insert_from_var_name m ids (Uint384.split F root) "y_try"
    write_collection_from_var_name F m ids "is_on_curve" (from_bool is_on_curve ∷ 0 ∷ 0 ∷ 0 ∷ [])

  unfoldable pub compute_y_from_x_hint : Action S (Unit {0})
  unfolding Uint384.from_var_name Uint384.pack curve_rhs write_root
  compute_y_from_x_hint = do
    a ← Uint384.from_var_name m ids "a"
    b ← Uint384.from_var_name m ids "b"
    p_limbs ← Uint384.from_var_name m ids "p"
    let p = Uint384.pack p_limbs
    g ← Uint384.from_var_name m ids "g"
    x ← Uint384.from_var_name m ids "x"
    v ← reads (m.get_integer_from_var_name ids "v")
    rhs ← lift (curve_rhs (Uint384.pack a) (Uint384.pack b) (Uint384.pack x) p)
    assert ((p == secp256k1.order) || (p == bn254.order))
    if p == secp256k1.order then write_root secp256k1 p rhs (Uint384.pack g) v else pure tt
    if p == bn254.order then write_root bn254 p rhs (Uint384.pack g) v else pure tt

  unfoldable pub is_point_on_curve : Action S (Unit {0})
  unfolding Uint384.from_base_addr Uint384.from_var_name Uint384.pack on_curve
  is_point_on_curve = do
    point_addr ← reads (m.get_relocatable_from_var_name ids "point")
    x ← Uint384.from_base_addr m point_addr "point.x"
    y_addr ← lift (unwrap (m.add_usize point_addr 4))
    y ← Uint384.from_base_addr m y_addr "point.y"
    a ← Uint384.from_var_name m ids "a"
    b ← Uint384.from_var_name m ids "b"
    modulus ← Uint384.from_var_name m ids "modulus"
    result ← lift (
        on_curve (Uint384.pack x) (Uint384.pack y) (Uint384.pack a) (Uint384.pack b)
          (Uint384.pack modulus))
    m.insert_value_from_var_name ids "is_on_curve" (int (from_bool result))
