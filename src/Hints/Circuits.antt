-- ===== src/Hints/Circuits.antt =====
-- hint_definitions/circuits.rs: tests on 384-bit numbers for the modular circuits.
pub mod Modular
use keth.Prelude.{
  ℕ, ◌+◌, ◌-◌, ◌*◌, ◌%◌, Bool, ◌==◌, leb, if◌then◌else◌, from_bool, Result, ok, err, panic, Action,
  lift, reads, get_or, assert, ◌>>=◌, ◌>>◌,
}
use keth.Prelude.Words.{checked_rem}
use keth.Machine.{Felt252, Machine, int}
use keth.HintUtils.Limbs.{split}
use keth.HintUtils.Uint384
use keth.HintUtils.Sequence.{write_result_to_ap}

-- The test of `x_mod_p_eq_y_mod_p_hint` on the packed numbers.
unfoldable pub x_mod_p_eq_y_mod_p : ℕ → ℕ → ℕ → Result Bool
x_mod_p_eq_y_mod_p x y p = elim (checked_rem x p) [
  | ok x_mod_p ↦ elim (checked_rem y p) [
    | ok y_mod_p ↦ ok (x_mod_p == y_mod_p)
    | err e ↦ err e
    | panic ↦ panic
  ]
  | err e ↦ err e
  | panic ↦ panic
]

-- The test of `x_is_neg_y_mod_p_hint` on the packed numbers, which are not negative.
unfoldable pub x_is_neg_y_mod_p : ℕ → ℕ → ℕ → Result Bool
x_is_neg_y_mod_p x y p = elim (checked_rem x p) [
  | ok x_mod_p ↦ elim (checked_rem y p) [
    | ok y_mod_p ↦
        let neg_y_mod_p = if y_mod_p == 0 then y_mod_p else (p - y_mod_p) % p in
        ok (x_mod_p == neg_y_mod_p)
    | err e ↦ err e
    | panic ↦ panic
  ]
  | err e ↦ err e
  | panic ↦ panic
]

module _ {S Ids : Type 0} (F : Felt252) (m : Machine S Ids) (ids : Ids) where
  unfoldable pub has_six_uint384_remaining_hint : Action S (Unit {0})
  unfolding write_result_to_ap
  has_six_uint384_remaining_hint = do
    elements_end ← reads (m.get_ptr_from_var_name ids "elements_end")
    elements ← reads (m.get_ptr_from_var_name ids "elements")
    elim (m.sub_ptr elements_end elements) [
      | ok elements_len ↦ reads (m.get_integer_from_var_name ids "N_LIMBS_HINT") >>= λ n_limbs.
          write_result_to_ap F m ids
            (from_bool (leb (F.mul (F.from 6) n_limbs) (F.from elements_len))) 1
      | err _ ↦ write_result_to_ap F m ids 0 1
      | panic ↦ lift panic
    ]

  unfoldable pub has_one_uint384_remaining_hint : Action S (Unit {0})
  unfolding write_result_to_ap
  has_one_uint384_remaining_hint = do
    elements_end ← reads (m.get_ptr_from_var_name ids "elements_end")
    elements ← reads (m.get_ptr_from_var_name ids "elements")
    elim (m.sub_ptr elements_end elements) [
      | ok elements_len ↦ reads (m.get_integer_from_var_name ids "N_LIMBS_HINT") >>= λ n_limbs.
          write_result_to_ap F m ids (from_bool (leb n_limbs (F.from elements_len))) 1
      | err _ ↦ write_result_to_ap F m ids 0 1
      | panic ↦ lift panic
    ]

  unfoldable pub felt_to_uint384_split_hint : Action S (Unit {0})
  felt_to_uint384_split_hint = do
    x ← reads (m.get_integer_from_var_name ids "x")
    let limbs = split F x 4 96
    assert (get_or limbs 3 0 == 0)
    m.insert_value_from_var_name ids "d0" (int (get_or limbs 0 0))
    m.insert_value_from_var_name ids "d1" (int (get_or limbs 1 0))
    m.insert_value_from_var_name ids "d2" (int (get_or limbs 2 0))

  unfoldable pub x_mod_p_eq_y_mod_p_hint : Action S (Unit {0})
  unfolding x_mod_p_eq_y_mod_p Uint384.from_var_name Uint384.pack write_result_to_ap
  x_mod_p_eq_y_mod_p_hint = do
    x ← Uint384.from_var_name m ids "x"
    y ← Uint384.from_var_name m ids "y"
    p ← Uint384.from_var_name m ids "p"
    result ← lift (x_mod_p_eq_y_mod_p (Uint384.pack x) (Uint384.pack y) (Uint384.pack p))
    write_result_to_ap F m ids (from_bool result) 1

  unfoldable pub x_is_neg_y_mod_p_hint : Action S (Unit {0})
  unfolding x_is_neg_y_mod_p Uint384.from_var_name Uint384.pack write_result_to_ap
  x_is_neg_y_mod_p_hint = do
    x ← Uint384.from_var_name m ids "x"
    y ← Uint384.from_var_name m ids "y"
    p ← Uint384.from_var_name m ids "p"
    result ← lift (x_is_neg_y_mod_p (Uint384.pack x) (Uint384.pack y) (Uint384.pack p))
    write_result_to_ap F m ids (from_bool result) 1
