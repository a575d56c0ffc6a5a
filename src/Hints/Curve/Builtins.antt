-- ===== src/Hints/Curve/Builtins.antt =====
-- The part of hint_definitions/curve.rs on the builtins for modular arithmetic: the hints that have
-- the virtual machine fill in the results of a batch of operations.
use keth.Prelude.{ℕ, Option, none, some, Relocatable, Result, ok, err, panic, Action}
use keth.Machine.{Machine}

-- `VirtualMachine::mod_builtin_fill_memory`: both pointers with their counts of operations, and the
-- size of a batch.
pub record ModBuiltins (S : Type 0) : Type 0 where
  pub mod_builtin_fill_memory :
      Option (Relocatable × ℕ) → Option (Relocatable × ℕ) → Option ℕ → Action S (Unit {0})

-- `.ok().map(|ptr| (ptr, n))`: an error is dropped, a panic is not.
abbrev pub ptr_with_count : Result Relocatable → ℕ → Result (Option (Relocatable × ℕ))
ptr_with_count (ok ptr) n = ok (some (ptr, n))
ptr_with_count (err _) n = ok none
ptr_with_count panic n = panic

module _ {S Ids : Type 0} (m : Machine S Ids) (M : ModBuiltins S) (ids : Ids) where
  abbrev pub fill_batch : ℕ → ℕ → Action S (Unit {0})
  fill_batch add_count mul_count vm =
      elim (ptr_with_count (m.get_ptr_from_var_name ids "add_mod_ptr" vm) add_count) [
        | ok add_mod_ptr ↦
            elim (ptr_with_count (m.get_ptr_from_var_name ids "mul_mod_ptr" vm) mul_count) [
              | ok mul_mod_ptr ↦ M.mod_builtin_fill_memory add_mod_ptr mul_mod_ptr (some 1) vm
              | err e ↦ (err e, vm)
              | panic ↦ (panic, vm)
            ]
        | err e ↦ (err e, vm)
        | panic ↦ (panic, vm)
      ]

  unfoldable pub fill_add_mod_mul_mod_builtin_batch_one : Action S (Unit {0})
  fill_add_mod_mul_mod_builtin_batch_one = fill_batch 1 1

  unfoldable pub fill_add_mod_mul_mod_builtin_batch_117_108 : Action S (Unit {0})
  fill_add_mod_mul_mod_builtin_batch_117_108 = fill_batch 117 108
