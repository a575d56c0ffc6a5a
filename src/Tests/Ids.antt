-- ===== src/Tests/Ids.antt =====
-- A hint's variables with types, on the small machine: references that hold a type and an address,
-- the program's structs, and a display.
use keth.Prelude.{String, List, [], ◌∷◌, some, Relocatable}
use keth.Machine.{Machine, int, relocatable}
use keth.Python.{Display}
use keth.Python.Manager.{KeyDisplay}
use keth.Python.Variables.{Identifiers, Member}
use keth.Python.ConstsDict.{References}
use keth.Tests.Library.{machine, Vm, Variables, at}
use keth.Tests.Cells.{cells_of}

abbrev pub Reference : Type 0
Reference = String × Relocatable

abbrev pub Ids : Type 0
Ids = List (String × Reference) × Unit {0}

abbrev pub addresses : List (String × Reference) → Variables
addresses [] = []
addresses ((name, (cairo_type, a)) ∷ rest) = (name, a) ∷ addresses rest

-- The same machine, for other variables.
abbrev pub machine_for : {S I J : Type 0} → (J → I) → Machine S I → Machine S J
machine_for f m = record {
  add_usize = m.add_usize;
  sub_usize = m.sub_usize;
  sub_ptr = m.sub_ptr;
  get_ap = m.get_ap;
  get_fp = m.get_fp;
  get_maybe = m.get_maybe;
  get_integer = m.get_integer;
  get_relocatable = m.get_relocatable;
  insert_value = m.insert_value;
  add_memory_segment = m.add_memory_segment;
  write_arg = m.write_arg;
  get_ptr_from_var_name = λ ids. m.get_ptr_from_var_name (f ids);
  get_relocatable_from_var_name = λ ids. m.get_relocatable_from_var_name (f ids);
  get_integer_from_var_name = λ ids. m.get_integer_from_var_name (f ids);
  get_maybe_relocatable_from_var_name = λ ids. m.get_maybe_relocatable_from_var_name (f ids);
  insert_value_from_var_name = λ ids. m.insert_value_from_var_name (f ids);
  insert_value_into_ap = m.insert_value_into_ap;
  add_usize_lem = m.add_usize_lem;
  sub_usize_lem = m.sub_usize_lem;
  get_integer_lem = m.get_integer_lem;
  get_relocatable_lem = m.get_relocatable_lem;
  add_memory_segment_lem = m.add_memory_segment_lem;
  get_maybe-insert_value = m.get_maybe-insert_value;
  insert_value_keeps = m.insert_value_keeps;
  write_arg_nil = m.write_arg_nil;
  write_arg_cons = m.write_arg_cons;
  insert_value_from_var_name_lem =
      λ s ids name a v h. m.insert_value_from_var_name_lem s (f ids) name a v h;
}

abbrev pub typed_machine : Machine Vm Ids
typed_machine = machine_for (λ ids. addresses ids.0) machine

abbrev pub references : References Vm Reference (Unit {0})
references = record {
  cairo_type = λ r. some r.0;
  get_maybe_relocatable_from_reference = λ s r t. s.cells r.1;
}

abbrev pub display : Display
display = record {
  address = λ a. "address";
  value = λ v. "value";
  error = λ e. "error";
  debug_value = λ v. "value";
  debug_path = λ p. "path";
  debug_address = λ a. "address";
  extract_error = "not extracted";
}

abbrev pub texts : KeyDisplay
texts = record { segment_index = λ j. "segment"; debug_maybe = λ v. "value" }

abbrev pub pair_members : List (String × Member)
pair_members =
    ("low", record { offset = 0; cairo_type = "felt" })
    ∷ ("high", record { offset = 1; cairo_type = "felt" })
    ∷ []

abbrev pub structs : Identifiers
structs = ("Pair", record { members = some pair_members; size = some 2 }) ∷ []

abbrev pub ids_data : List (String × Reference)
ids_data = ("x", ("Pair", at 1 0)) ∷ ("p", ("Pair*", at 1 5)) ∷ ("n", ("felt", at 1 6)) ∷ []

-- `p` points at a struct whose first cell holds an address.
abbrev pub typed_vm : Vm
typed_vm = record {
  cells = cells_of (
      (at 1 0, int 10)
      ∷ (at 1 1, int 20)
      ∷ (at 1 5, relocatable (at 2 0))
      ∷ (at 2 0, relocatable (at 3 0))
      ∷ (at 2 1, int 88)
      ∷ (at 3 1, int 77)
      ∷ []);
  next_segment = 4;
  ap_register = at 1 9;
  fp_register = at 1 9;
}
