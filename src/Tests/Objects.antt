-- ===== src/Tests/Objects.antt =====
-- The theorems on Python's view of the variables, the memory and the dictionaries, at concrete
-- inputs.
use text.Mathlib.Text.{◌==◌ as str_eq}
use keth.Prelude.{String, [], ◌∷◌, some, none, false, if◌then◌else◌, ◌≡◌, refl, arith, library}
use keth.Machine.{int}
use keth.Python.{success, raise, runtime_error}
use keth.Python.Variables.{
  create_var_type, get_struct_info_from_identifiers, trim_end_stars, ends_with_star, pointer_type,
  pointer_layers, get, felt,
}
use keth.Python.Consts.{PyVmConst, PyObject, vm_const, number}
use keth.Python.Consts.Attributes.{getattr}
use keth.Python.ConstsDict.{
  Items, create_vm_consts_dict, get_variable, variable_object, locate, object_at, extract, setattr,
}
use keth.Python.ConstsDict.Assign.{variable_at, already_set, setattr_lem, setattr_failed}
use keth.Python.Address.{py_usize, extract_number, to_maybe_relocatable}
use keth.Python.ConstsDict.Build.{Creates, expected, create_vm_consts_dict_lem}
use keth.Python.ConstsDict.Reads.{
  IsVariable, IsMember, struct_variable_member, pointer_variable_member,
}
use keth.Tests.Library.{at, felts, Vm, vm_insert}
use keth.Tests.Ids.{typed_machine, references, display, structs, ids_data, typed_vm, pair_members}

variables_Creates : Creates references typed_machine structs ids_data tt typed_vm ids_data
unfolding variable_object locate object_at create_var_type ends_with_star pointer_type
    trim_end_stars get_struct_info_from_identifiers pointer_layers
variables_Creates = ((_, refl), ((_, refl), ((_, refl), tt)))

create_vm_consts_dict_lem_example :
    (items : Items) × (create_vm_consts_dict references typed_machine structs ids_data tt typed_vm
      ≡ success items)
    × ((name : String)
        → expected references typed_machine structs ids_data tt typed_vm name (get ids_data name)
          ≡ success (get items name))
create_vm_consts_dict_lem_example =
    create_vm_consts_dict_lem references typed_machine structs ids_data tt typed_vm
      (refl, (refl, (refl, tt))) variables_Creates

x_IsVariable : IsVariable references typed_machine ids_data tt typed_vm "x" "Pair" (at 1 0)
x_IsVariable = record {
  reference = ("Pair", at 1 0);
  found = refl;
  visible = refl;
  typed = refl;
  located = refl;
}

p_IsVariable : IsVariable references typed_machine ids_data tt typed_vm "p" "Pair*" (at 1 5)
p_IsVariable = record {
  reference = ("Pair*", at 1 5);
  found = refl;
  visible = refl;
  typed = refl;
  located = refl;
}

high_IsMember :
    IsMember structs "Pair" "high" pair_members 2 (record { offset = 1; cairo_type = "felt" })
unfolding get_struct_info_from_identifiers trim_end_stars
high_IsMember = record {
  info = refl;
  found = refl;
  typed = refl;
  not_felt = refl;
  not_address = refl;
}

pair_plain : ends_with_star "Pair" ≡ false
unfolding ends_with_star
pair_plain = refl

struct_variable_member_example :
    (items : Items) × (c : PyVmConst) × (create_vm_consts_dict references typed_machine structs
        ids_data tt typed_vm
      ≡ success items)
    × (get_variable display items "x" ≡ success (vm_const c))
    × (getattr typed_machine display c typed_vm "high" ≡ success (number 20))
struct_variable_member_example =
    struct_variable_member references typed_machine display structs ids_data tt typed_vm "x" "Pair"
      "high" (at 1 0) pair_members 2 (record { offset = 1; cairo_type = "felt" }) (int 20)
      (refl, (refl, (refl, tt))) variables_Creates x_IsVariable high_IsMember pair_plain refl
      (omega arith) refl

-- The struct at 2:0 has 88 in this member.
pointer_variable_member_example :
    (items : Items) × (c : PyVmConst) × (create_vm_consts_dict references typed_machine structs
        ids_data tt typed_vm
      ≡ success items)
    × (get_variable display items "p" ≡ success (vm_const c))
    × (getattr typed_machine display c typed_vm "high" ≡ success (number 77))
pointer_variable_member_example =
    pointer_variable_member references typed_machine display structs ids_data tt typed_vm "p" "Pair"
      "high" (at 1 5) (at 2 0) pair_members 2 (record { offset = 1; cairo_type = "felt" }) (int 77)
      (refl, (refl, (refl, tt))) variables_Creates p_IsVariable refl high_IsMember pair_plain
      (omega arith) refl

-- The variable `n` has no value yet.
abbrev unset : Items
unset = ("n", vm_const (variable_at "n" felt (some structs) (at 1 6) none)) ∷ []

abbrev assigned_five : Items
assigned_five = ("n", vm_const (variable_at "n" felt (some structs) (at 1 6) (some (int 5)))) ∷ []

abbrev written : Vm
written = (vm_insert (at 1 6) (int 5) typed_vm).1

extracted_five : extract display (number 5) ≡ success (py_usize 5)
unfolding extract extract_number
extracted_five = refl

setattr_lem_example :
    (setattr display felts typed_machine "n" (number 5) (unset, typed_vm)
      ≡ (success tt, assigned_five, written))
    × (written.cells (at 1 6) ≡ some (int 5))
    × ((n : String)
        → get assigned_five n ≡ (
            if str_eq "n" n
            then some (vm_const (variable_at "n" felt (some structs) (at 1 6) (some (int 5))))
            else get unset n))
    × ((object' : PyObject) (later : Vm)
        → setattr display felts typed_machine "n" object' (assigned_five, later)
          ≡ (already_set "n", assigned_five, later))
unfolding to_maybe_relocatable
setattr_lem_example =
    setattr_lem felts typed_machine display unset "n" "n" felt (some structs) (at 1 6) (number 5)
      (py_usize 5) typed_vm written refl extracted_five refl

-- A variable whose cell has another value already.
abbrev taken : Items
taken = ("n", vm_const (variable_at "n" felt (some structs) (at 1 0) none)) ∷ []

abbrev marked : Items
marked = ("n", vm_const (variable_at "n" felt (some structs) (at 1 0) (some (int 5)))) ∷ []

setattr_failed_example :
    (setattr display felts typed_machine "n" (number 5) (taken, typed_vm)
      ≡ (raise runtime_error "error", marked, typed_vm))
    × ((object' : PyObject) (later : Vm)
        → setattr display felts typed_machine "n" object' (marked, later)
          ≡ (already_set "n", marked, later))
unfolding to_maybe_relocatable
setattr_failed_example =
    setattr_failed felts typed_machine display taken "n" "n" felt (some structs) (at 1 0) (number 5)
      (py_usize 5) typed_vm typed_vm (library "inconsistent memory") refl extracted_five refl
