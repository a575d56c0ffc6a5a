-- ===== src/Runner.antt =====
-- runner.rs: the runner of cairo-vm as a Python object; its return values and its public memory.
pub mod Execute
pub mod Settings
pub mod View
pub mod Returns
pub mod Public
pub mod Disk
pub mod Files
pub mod Context
pub mod Fields
pub mod Program
pub mod ProofMode
use Prim.Native.String.{◌++◌}
use keth.Prelude.{
  ℕ, ◌+◌, ◌-◌, ◌^◌, ◌%◌, zero, suc, String, List, [], ◌∷◌, ◌++◌ as append, reverse, Option, some,
  none, Bool, true, false, ◌&&◌, if◌then◌else◌, ◌==◌, ltb, ◌≡◌, ◌↔◌, Relocatable, Result, ok, err,
  panic,
}
use keth.Machine.{Felt252, Machine}
use keth.Python.{
  Try, PyErr, PyResult, runtime_error, raise, success, failure, panicked, ◌>>=◌, map_failure,
  Display, from_library,
}

-- What the code uses of cairo-vm's builtin runners (`B`) and of their names (`Name`), on a machine
-- of type `S`. Errors of `final_stack` are given by their text.
pub record Builtins (S B Name : Type 0) : Type 0 where
  pub same_name : Name → Name → Bool
  pub display_name : Name → String
  pub name : B → Name
  pub included : B → Bool
  pub final_stack : B → S → Relocatable → Try String Relocatable × B
  -- A builtin of the program takes the cell below the pointer, any other takes none.
  pub final_stack_included :
      (b : B) (s : S) (p q : Relocatable)
      → included b ≡ true
      → (final_stack b s p).0 ≡ success q
      → (q.segment_index ≡ p.segment_index) × (p.offset ≡ q.offset + 1)
  pub final_stack_unused :
      (b : B) (s : S) (p : Relocatable) → included b ≡ false → (final_stack b s p).0 ≡ success p
  -- It sets the runner's stop pointer, which neither it nor the others read.
  pub name-final_stack : (b : B) (s : S) (p : Relocatable) → name (final_stack b s p).1 ≡ name b
  pub included-final_stack :
      (b : B) (s : S) (p : Relocatable) → included (final_stack b s p).1 ≡ included b
  pub final_stack-final_stack :
      (b : B) (s : S) (p q : Relocatable)
      → (final_stack (final_stack b s p).1 s q).0 ≡ (final_stack b s q).0

-- `PyCairoRunner`, with the fields of cairo-vm's runner that the code reads or sets.
pub record CairoRunner (S B Name : Type 0) : Type 0 where
  pub vm : S
  pub builtin_runners : List B
  pub initial_pc : Option Relocatable
  pub initial_ap : Option Relocatable
  pub initial_fp : Option Relocatable
  pub program_base : Option Relocatable
  pub execution_base : Option Relocatable
  pub execution_public_memory : Option (List ℕ)
  pub allow_missing_builtins : Bool
  pub ordered_builtins : List Name
  pub enable_traces : Bool

module _ {S B Name : Type 0} (lib : Builtins S B Name) where
  -- `final_stack` of the first runner with the name, if there is one
  unfoldable pub use_runner :
      Name → Relocatable → S → List B → Option (Try String Relocatable × List B)
  use_runner name pointer s [] = none
  use_runner name pointer s (b ∷ bs) =
      let rest = use_runner name pointer s bs in
      if lib.same_name (lib.name b) name
      then (let (r, b') = lib.final_stack b s pointer in some (r, b' ∷ bs))
      else elim rest [ none ↦ none | some used ↦ some (used.0, b ∷ used.1) ]

module _ {S Ids B Name : Type 0} (m : Machine S Ids) (d : Display) (lib : Builtins S B Name) where
  -- The cell of a builtin that the layout has not must hold 0.
  abbrev pub missing_builtin : Bool → Name → Relocatable → S → PyResult Relocatable
  missing_builtin false name pointer s =
      raise runtime_error ("Missing builtin: " ++ lib.display_name name)
  missing_builtin true name pointer s =
      let below : Relocatable = record pointer { offset = pointer.offset - 1 } in
      from_library d runtime_error (m.get_integer s below) >>= λ x.
      if x == 0
      then success below
      else raise runtime_error ("Missing builtin stop ptr not zero: " ++ lib.display_name name)

  -- One round of the loop of `_read_return_values`.
  unfoldable pub pop_builtin :
      Bool → Name → Relocatable → S → List B → PyResult Relocatable × List B
  unfolding use_runner
  pop_builtin allow name pointer s bs = elim (use_runner lib name pointer s bs) [
    | some used ↦ (map_failure used.0 (λ e. record { kind = runtime_error; message = e }), used.1)
    | none ↦ (missing_builtin allow name pointer s, bs)
  ]

  unfoldable pub pop_builtins :
      Bool → List Name → Relocatable → S → List B → PyResult Relocatable × List B
  unfolding pop_builtin
  pop_builtins allow [] pointer s bs = (success pointer, bs)
  pop_builtins allow (name ∷ names) pointer s bs =
      let (r, bs') = pop_builtin allow name pointer s bs in
      elim r [
        | success below ↦ pop_builtins allow names below s bs'
        | failure e ↦ (failure e, bs')
        | panicked ↦ (panicked, bs')
      ]

  unfoldable pub read_return_values :
      CairoRunner S B Name → ℕ → PyResult Relocatable × CairoRunner S B Name
  unfolding pop_builtins
  read_return_values r offset = elim (m.sub_usize (m.get_ap r.vm) offset) [
    | ok pointer ↦
        let (result, bs) =
          pop_builtins r.allow_missing_builtins (reverse r.ordered_builtins) pointer r.vm
            r.builtin_runners in
        (result, record r { builtin_runners = bs })
    | err e ↦ (panicked, r)
    | panic ↦ (panicked, r)
  ]

-- `a - b` of `usize`: a build with overflow checks panics below zero, one without wraps around.
unfoldable pub usize_sub : Bool → ℕ → ℕ → Result ℕ
usize_sub checks a b =
    if ltb a b then (if checks then panic else ok (a + 2 ^ 64 - b)) else ok (a - b)

-- `begin..begin + count`
abbrev pub range_from : ℕ → ℕ → List ℕ
range_from begin zero = []
range_from begin (suc count) = begin ∷ range_from (begin + 1) count

module _ {S Ids B Name : Type 0} (m : Machine S Ids) (checks : Bool) where
  -- `.extend(begin..end)` of the public memory, if there is one
  abbrev pub extend_public_memory :
      CairoRunner S B Name → ℕ → ℕ → PyResult (Unit {0}) × CairoRunner S B Name
  extend_public_memory r begin end = elim r.execution_public_memory [
    | none ↦ (raise runtime_error "No execution public memory available", r)
    | some memory ↦ (
      success tt,
      record r { execution_public_memory = some (append memory (range_from begin (end - begin))) },
    )
  ]

  unfoldable pub update_execution_public_memory :
      CairoRunner S B Name → Relocatable → ℕ → PyResult (Unit {0}) × CairoRunner S B Name
  unfolding usize_sub
  update_execution_public_memory r pointer first_return_data_offset = elim r.execution_base [
    | none ↦ (raise runtime_error "No execution base available", r)
    | some exec_base ↦ elim (usize_sub checks pointer.offset exec_base.offset) [
      | ok begin ↦ elim (usize_sub checks (m.get_ap r.vm).offset first_return_data_offset) [
        | ok end ↦ extend_public_memory r begin end
        | _ ↦ (panicked, r)
      ]
      | _ ↦ (panicked, r)
    ]
  ]
