-- ===== src/Python/ConstsDict/Assign.antt =====
-- Assignments to the variables of a hint.
use Prim.Native.String.{◌++◌}
use text.Mathlib.Text.{◌==◌ as str_eq}
use text.Mathlib.TextPositions.{eq_refl}
use keth.Prelude.{
  String, Option, some, none, if◌then◌else◌, ◌≡◌, refl, ◌∙◌, Relocatable, Result, ok, err,
  HintError,
}
use keth.Machine.{Felt252, Machine, Value}
use keth.Python.{PyResult, attribute_error, runtime_error, raise, success, Display, from_library}
use keth.Python.Address.{PyMaybeRelocatable, to_maybe_relocatable}
use keth.Python.Variables.{get, Identifiers, CairoVarType}
use keth.Python.Consts.{PyVmConst, PyObject, vm_const}
use keth.Python.ConstsDict.{Items, put, extract, setattr, assign_const, write_variable}
use keth.Python.ConstsDict.Build.{get-put}

-- The object of a variable at an address.
abbrev pub variable_at :
    String → CairoVarType → Option Identifiers → Relocatable → Option Value → PyVmConst
variable_at label var_type identifiers a value = record {
  var = record { name = label; value = value; address = some a; var_type = var_type };
  identifiers = identifiers;
}

-- The refusal of a second assignment.
abbrev pub already_set : String → PyResult (Unit {0})
already_set name = raise attribute_error ("Cannot set '" ++ name ++ "': already has a value")

module _ {S Ids : Type 0} (F : Felt252) (m : Machine S Ids) (d : Display) (items : Items)
    (name label : String) (var_type : CairoVarType) (identifiers : Option Identifiers)
    (a : Relocatable) (object : PyObject) (v : PyMaybeRelocatable) where
  -- The map after an assignment: the variable has its value.
  abbrev pub assigned : Items
  assigned =
      put name
        (vm_const (variable_at label var_type identifiers a (some (to_maybe_relocatable F v))))
        items

  setattr_step :
      (s s' : S) (r : Result (Unit {0}))
      → get items name ≡ some (vm_const (variable_at label var_type identifiers a none))
      → extract d object ≡ success v
      → m.insert_value a (to_maybe_relocatable F v) s ≡ (r, s')
      → setattr d F m name object (items, s) ≡ (from_library d runtime_error r, assigned, s')
  unfolding setattr
  setattr_step s s' r found extracted written =
      rw (setattr, found, assign_const, extracted, write_variable, written) refl

  setattr_again :
      (object' : PyObject) (s : S)
      → setattr d F m name object' (assigned, s) ≡ (already_set name, assigned, s)
  unfolding setattr
  setattr_again object' s =
      let value = variable_at label var_type identifiers a (some (to_maybe_relocatable F v)) in
      let here : get assigned name ≡ some (vm_const value) =
        get-put name name (vm_const value) items ∙ rw (eq_refl name) refl in
      rw (setattr, here) refl

  -- An assignment to a variable without a value, at an address that can be written, of a Python
  -- object that can be stored: it succeeds, the cell then holds the value, the variable's object
  -- has it, the other objects stay, and every later assignment to the variable is refused and
  -- changes nothing.
  pub setattr_lem :
      (s s' : S)
      → get items name ≡ some (vm_const (variable_at label var_type identifiers a none))
      → extract d object ≡ success v
      → m.insert_value a (to_maybe_relocatable F v) s ≡ (ok tt, s')
      → (setattr d F m name object (items, s) ≡ (success tt, assigned, s'))
        × (m.get_maybe s' a ≡ some (to_maybe_relocatable F v))
        × ((n : String)
            → get assigned n ≡ (
                if str_eq name n
                then some (
                    vm_const
                      (variable_at label var_type identifiers a (some (to_maybe_relocatable F v))))
                else get items n))
        × ((object' : PyObject) (later : S)
            → setattr d F m name object' (assigned, later) ≡ (already_set name, assigned, later))
  setattr_lem s s' found extracted written = (
    setattr_step s s' (ok tt) found extracted written,
    m.get_maybe-insert_value s s' a (to_maybe_relocatable F v) written,
    λ n. get-put name n _ items,
    setattr_again,
  )

  -- If the write to memory fails, the assignment raises an error, but the variable's object has the
  -- value all the same, and every later assignment to the variable is refused.
  pub setattr_failed :
      (s s' : S) (e : HintError)
      → get items name ≡ some (vm_const (variable_at label var_type identifiers a none))
      → extract d object ≡ success v
      → m.insert_value a (to_maybe_relocatable F v) s ≡ (err e, s')
      → (setattr d F m name object (items, s) ≡ (raise runtime_error (d.error e), assigned, s'))
        × ((object' : PyObject) (later : S)
            → setattr d F m name object' (assigned, later) ≡ (already_set name, assigned, later))
  setattr_failed s s' e found extracted written =
      (setattr_step s s' (err e) found extracted written, setattr_again)
