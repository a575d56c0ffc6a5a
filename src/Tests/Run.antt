-- ===== src/Tests/Run.antt =====
-- A small library of builtin runners on which the assumed behaviour holds, and the theorems on the
-- runner at concrete inputs.
use keth.Prelude.{
  sym, ap, ltb→lt, Result, ℕ, ◌+◌, ◌-◌, ◌==◌, String, List, [], ◌∷◌, Option, some, none, Bool, true,
  false, if◌then◌else◌, ltb, ◌≡◌, ◌↔◌, refl, arith, Relocatable, ok, err, panic, Bool-cases, inl,
  inr,
}
use keth.Machine.{int, relocatable}
use keth.Python.{Try, success, failure, panicked}
use keth.Runner.{Builtins, CairoRunner, read_return_values, update_execution_public_memory}
use keth.Runner.View.{below}
use keth.Runner.Returns.{builtin_cells, IsReadable, read_return_values_iff}
use keth.Runner.Public.{Extends, public_memory-read_return_values}
use keth.Tests.Library.{machine, Vm, at}
use keth.Tests.Cells.{cells_of}
use keth.Processor.{execute_hint}
use keth.Runner.Execute.{Hints, run_processor, execute_hint-run_processor}
use keth.Tests.Ids.{display}
use keth.Tests.Sharing.{libraries, count_hint, stop_hint, count_data}

record Segment : Type 0 where
  number : ℕ
  included : Bool
  stop_ptr : Option ℕ

abbrev accepted : Result Relocatable → Relocatable → Try String Relocatable
accepted (ok r) p = success p
accepted (err e) p = failure "no stop pointer"
accepted panic p = panicked

accepted-success : (r : Result Relocatable) (p q : Relocatable) → accepted r p ≡ success q → p ≡ q
accepted-success (ok r) p q h = ground arith
accepted-success (err e) p q h = absurd (ground arith)
accepted-success panic p q h = absurd (ground arith)

-- The pointer below, if it is in the segment and holds an address.
abbrev stop_pointer : Bool → Vm → Relocatable → Try String Relocatable
stop_pointer false s p = success p
stop_pointer true s p =
    if ltb 0 p.offset
    then accepted (machine.get_relocatable s (below p 1)) (below p 1)
    else failure "no stop pointer"

stop_pointer-takes :
    (included : Bool) (s : Vm) (p q : Relocatable)
    → included ≡ true
    → stop_pointer included s p ≡ success q
    → (q.segment_index ≡ p.segment_index) × (p.offset ≡ q.offset + 1)
stop_pointer-takes true s p q e h = elim (Bool-cases (ltb 0 p.offset)) [
  | inl above ↦
      let same =
        accepted-success (machine.get_relocatable s (below p 1)) (below p 1) q (rw above at h) in
      (
        ap (λ (a : Relocatable). a.segment_index) (sym same),
        omega (arith, ltb→lt 0 p.offset above, ap (λ (a : Relocatable). a.offset) same),
      )
  | inr start ↦ absurd (ground (arith, rw start at h))
]
stop_pointer-takes false s p q e h = absurd (ground arith)

stop_pointer-unused :
    (included : Bool) (s : Vm) (p : Relocatable)
    → included ≡ false
    → stop_pointer included s p ≡ success p
stop_pointer-unused false s p e = refl
stop_pointer-unused true s p e = absurd (ground arith)

abbrev builtins : Builtins Vm Segment ℕ
builtins = record {
  same_name = λ a b. a == b;
  display_name = λ n. "builtin";
  name = λ b. b.number;
  included = λ b. b.included;
  final_stack = λ b s p. (stop_pointer b.included s p, record b { stop_ptr = some p.offset });
  final_stack_included = λ b s p q e h. stop_pointer-takes b.included s p q e h;
  final_stack_unused = λ b s p e. stop_pointer-unused b.included s p e;
  name-final_stack = λ b s p. refl;
  included-final_stack = λ b s p. refl;
  final_stack-final_stack = λ b s p q. refl;
}

abbrev final_vm : Vm
final_vm = record {
  cells = cells_of ((at 1 6, int 0) ∷ (at 1 7, relocatable (at 4 2)) ∷ []);
  next_segment = 5;
  ap_register = at 1 9;
  fp_register = at 1 9;
}

-- Builtin 3 is in use, 4 is not, and 5 is missing.
abbrev final_runner : CairoRunner Vm Segment ℕ
final_runner = record {
  vm = final_vm;
  builtin_runners =
      record { number = 3; included = true; stop_ptr = none }
      ∷ record { number = 4; included = false; stop_ptr = none }
      ∷ [];
  initial_pc = none;
  initial_ap = none;
  initial_fp = none;
  program_base = none;
  execution_base = some (at 1 0);
  execution_public_memory = some (0 ∷ 1 ∷ []);
  allow_missing_builtins = true;
  ordered_builtins = 5 ∷ 3 ∷ 4 ∷ [];
  enable_traces = false;
}

final_read : (read_return_values machine display builtins final_runner 1).0 ≡ success (at 1 6)
unfolding read_return_values
final_read = refl

read_return_values_iff_example :
    ((read_return_values machine display builtins final_runner 1).0 ≡ success (at 1 6)) ↔ (
      IsReadable machine builtins final_runner (at 1 8)
      × (at 1 6 ≡ below (at 1 9) (1 + builtin_cells builtins final_runner)))
read_return_values_iff_example =
    read_return_values_iff machine display builtins final_runner 1 (at 1 6) (omega arith)

public_memory-read_return_values_example :
    let r' = (read_return_values machine display builtins final_runner 1).1 in
    let updated = update_execution_public_memory machine true r' (at 1 6) 1 in
    (updated.0 ≡ success tt)
    × (memory' : List ℕ) × (updated.1.execution_public_memory ≡ some memory')
    × Extends (0 ∷ 1 ∷ []) (8 - builtin_cells builtins final_runner) 8 memory'
public_memory-read_return_values_example =
    public_memory-read_return_values machine display builtins true final_runner 1 (at 1 6) (at 1 0)
      (0 ∷ 1 ∷ []) (omega arith) refl refl refl final_read

abbrev pub example_hints : Hints ℕ ℕ ℕ ℕ
example_hints = record {
  loaded = none;
  default_resources = 0;
  hints = stop_hint ∷ [];
  tables = (count_hint ∷ []) ∷ (stop_hint ∷ []) ∷ [];
  generic = λ ids c w. (ok tt, 0);
}

execute_hint-run_processor_example :
    execute_hint libraries (run_processor example_hints final_runner 100) (some count_data) 0 4
    ≡ (ok tt, 7)
execute_hint-run_processor_example =
    execute_hint-run_processor example_hints libraries final_runner 100 (stop_hint ∷ [])
      (stop_hint ∷ []) count_hint count_data 0 4 refl (inl refl) refl (λ code h. cc)
