-- ===== src/Python/Consts.antt =====
-- vm_consts.rs: `PyVmConst`, a Cairo variable as a Python object with attributes. The machine to
-- which it holds a pointer is an argument of its methods.
pub mod Attributes
pub mod Texts
use Prim.Native.Char.{Char, code}
use Prim.Native.String.{◌++◌}
use text.Mathlib.Text.{◌==◌ as str_eq}
use keth.Prelude.{
  ℕ, String, List, [], ◌∷◌, Option, some, none, Bool, true, false, ◌==◌, if◌then◌else◌, Relocatable,
  Result, ok, err, panic,
}
use keth.Machine.{Machine, Value, int, relocatable}
use keth.Python.{
  PyResult, attribute_error, runtime_error, type_error, raise, success, failure, panicked, ◌>>=◌,
  ok_or_else, map_failure, Display, from_library,
}
use keth.Python.Variables.{
  get, Member, Identifiers, CairoVarType, felt, relocatable_type, struct_type, pointer,
  get_struct_info_from_identifiers, create_var_type, display_dynamic,
}

pub record CairoVar : Type 0 where
  pub name : String
  pub value : Option Value
  pub address : Option Relocatable
  pub var_type : CairoVarType

pub record PyVmConst : Type 0 where
  pub var : CairoVar
  pub identifiers : Option Identifiers

-- The Python objects that the code makes and takes; `other` is any object that is neither an
-- unsigned number nor of the classes here, by its identity.
pub data PyObject : Type 0 where
  number : ℕ → PyObject
  address : Relocatable → PyObject
  vm_const : PyVmConst → PyObject
  other : ℕ → PyObject

abbrev pub load_members : Identifiers → CairoVarType → CairoVarType
load_members identifiers felt = felt
load_members identifiers relocatable_type = relocatable_type
load_members identifiers (struct_type name [] size) =
    elim (get_struct_info_from_identifiers identifiers name) [
      | some (new_members, new_size) ↦ struct_type name new_members new_size
      | none ↦ struct_type name [] size
    ]
load_members identifiers (struct_type name (member ∷ rest) size) =
    struct_type name (member ∷ rest) size
load_members identifiers (pointer pointee) = pointer (load_members identifiers pointee)

unfoldable pub load_struct_members : Option Identifiers → CairoVarType → CairoVarType
load_struct_members none var_type = var_type
load_struct_members (some identifiers) var_type = load_members identifiers var_type

-- `Some(RelocatableValue(rel))`
abbrev pub as_relocatable : Option Value → Option Relocatable
as_relocatable (some (relocatable rel)) = some rel
as_relocatable _ = none

module _ {S Ids : Type 0} (m : Machine S Ids) (d : Display) where
  abbrev expected_relocatable : Value → PyResult PyObject
  expected_relocatable value =
      raise attribute_error ("Expected relocatable value, got " ++ d.value value)

  -- What a member of this type and with this value is for Python.
  abbrev pub member_object :
      PyVmConst → String → Relocatable → Value → CairoVarType → PyResult PyObject
  member_object c name member_addr (int felt_value) felt = success (number felt_value)
  member_object c name member_addr (relocatable rel) felt = success (address rel)
  member_object c name member_addr (relocatable rel) relocatable_type = success (address rel)
  member_object c name member_addr (int x) relocatable_type = expected_relocatable (int x)
  member_object c name member_addr value member_type = success (
      vm_const (record c {
        var = record {
          name = name;
          value = some value;
          address = some member_addr;
          var_type = member_type;
        };
      }))

  unfoldable pub create_member_var :
      PyVmConst → S → String → String → Member → Relocatable → PyResult PyObject
  create_member_var c s parent_name member_name member member_addr = do
    identifiers ← ok_or_else c.identifiers (record {
      kind = attribute_error;
      message = "Identifiers missing when accessing member '" ++ member_name ++ "'";
    })
    value ← ok_or_else (m.get_maybe s member_addr) (record {
      kind = attribute_error;
      message = "Member '" ++ member_name ++ "' not found in memory at " ++ d.address member_addr;
    })
    member_type ← map_failure (create_var_type member.cairo_type identifiers) (λ e. record {
      kind = attribute_error;
      message = "Failed to create type: " ++ display_dynamic e;
    })
    member_object c (parent_name ++ "." ++ member_name) member_addr value member_type

  unfoldable pub get_address : PyVmConst → S → PyResult (Option Relocatable)
  get_address c s = elim c.var.var_type [
    | pointer pointee ↦ do
      addr ←
          ok_or_else c.var.address
            (record { kind = attribute_error; message = "Pointer has no address" })
      success (some (elim (m.get_relocatable s addr) [ ok r ↦ r | _ ↦ addr ]))
    | _ ↦ success c.var.address
  ]

  -- the getter `address_`
  unfoldable pub address_of : PyVmConst → S → PyResult PyObject
  unfolding get_address
  address_of c s = do
    found ← get_address c s
    addr ←
        ok_or_else found
          (record { kind = attribute_error; message = "This variable does not have an address" })
    success (address addr)

  -- `addr + member.offset`, with the message of `__getattr__`
  abbrev pub member_address : Relocatable → ℕ → PyResult Relocatable
  member_address addr offset = elim (m.add_usize addr offset) [
    | ok a ↦ success a
    | err e ↦ raise runtime_error ("Address calculation failed: " ++ d.error e)
    | panic ↦ panicked
  ]

  -- The member at its address: a `felt*` with a pointer in its cell is that pointer.
  abbrev pub read_member :
      PyVmConst → S → String → String → Member → Relocatable → PyResult PyObject
  read_member c s parent_name name member member_addr =
      let created = create_member_var c s parent_name name member member_addr in
      if str_eq member.cairo_type "felt*"
      then elim (as_relocatable (m.get_maybe s member_addr)) [
        | some rel ↦ success (address rel)
        | none ↦ created
      ]
      else created
