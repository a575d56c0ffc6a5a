-- ===== src/Python/Consts/Attributes.antt =====
-- vm_consts.rs: the attributes of a `PyVmConst` (`__getattr__`) and `deref`.
use Prim.Native.String.{◌++◌}
use text.Mathlib.Text.{◌==◌ as str_eq}
use keth.Prelude.{ℕ, String, List, Option, some, none, if◌then◌else◌}
use keth.Machine.{Machine, Value, int, relocatable}
use keth.Python.{
  PyResult, attribute_error, runtime_error, type_error, raise, success, ◌>>=◌, ok_or_else, Display,
}
use keth.Python.Variables.{get, Member, CairoVarType, felt, relocatable_type, struct_type, pointer}
use keth.Python.Consts.{
  PyVmConst, PyObject, number, address, vm_const, load_struct_members, get_address, address_of,
  member_address, read_member, as_relocatable,
}

module _ {S Ids : Type 0} (m : Machine S Ids) (d : Display) where
  abbrev felt_attribute : Option Value → PyResult PyObject
  felt_attribute (some (int x)) = success (number x)
  felt_attribute value = raise attribute_error ("Expected felt value, got " ++ d.debug_value value)

  abbrev relocatable_attribute : Option Value → PyResult PyObject
  relocatable_attribute (some (relocatable rel)) = success (address rel)
  relocatable_attribute value =
      raise attribute_error ("Expected relocatable value, got " ++ d.debug_value value)

  abbrev struct_attribute : PyVmConst → S → String → List (String × Member) → ℕ → PyResult PyObject
  struct_attribute c s name members size =
      let missing : PyResult PyObject =
        raise attribute_error ("Struct has no member '" ++ name ++ "' or no address") in
      if str_eq name "SIZE" then success (number size) else elim (get members name) [
        | none ↦ missing
        | some member ↦ elim c.var.address [
          | none ↦ missing
          | some addr ↦
              member_address m d addr member.offset >>= read_member m d c s c.var.name name member
        ]
      ]

  abbrev pointer_attribute : PyVmConst → S → String → CairoVarType → PyResult PyObject
  pointer_attribute c s name pointee = elim pointee [
    | struct_type struct_name members size ↦ do
      member ← ok_or_else (get members name) (record {
        kind = attribute_error;
        message = "Struct pointed to by '" ++ c.var.name ++ "' has no member '" ++ name ++ "'";
      })
      found ← get_address m d c s
      ptr_addr ←
          ok_or_else found (record { kind = attribute_error; message = "Pointer has no address" })
      member_addr ← member_address m d ptr_addr member.offset
      read_member m d c s ("(*" ++ c.var.name ++ ")") name member member_addr
    | _ ↦ raise attribute_error ("'" ++ c.var.name ++ "' is not a pointer to a struct")
  ]

  -- `__getattr__`
  unfoldable pub getattr : PyVmConst → S → String → PyResult PyObject
  unfolding address_of load_struct_members
  getattr c s name =
      if str_eq name "address_"
      then address_of m d c s
      else elim (load_struct_members c.identifiers c.var.var_type) [
        | felt ↦ felt_attribute c.var.value
        | relocatable_type ↦ relocatable_attribute c.var.value
        | struct_type struct_name members size ↦ struct_attribute c s name members size
        | pointer pointee ↦ pointer_attribute c s name pointee
      ]

  unfoldable pub deref : PyVmConst → S → PyResult PyObject
  deref c s = elim c.var.var_type [
    | pointer pointee ↦ do
      rel ← ok_or_else (as_relocatable c.var.value) (record {
        kind = type_error;
        message =
            "Cannot dereference '" ++ c.var.name ++ "': not a pointer with a relocatable value";
      })
      pointed_value ← ok_or_else (m.get_maybe s rel) (record {
        kind = runtime_error;
        message = "Could not dereference pointer at " ++ d.address rel;
      })
      success (
          vm_const (record c {
            var = record {
              name = "*" ++ c.var.name;
              value = some pointed_value;
              address = some rel;
              var_type = pointee;
            };
          }))
    | _ ↦ raise type_error ("Cannot dereference non-pointer '" ++ c.var.name ++ "'")
  ]
