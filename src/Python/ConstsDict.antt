-- ===== src/Python/ConstsDict.antt =====
-- vm_consts.rs: `PyVmConstsDict`, the object `ids` of a Python hint, and how it is built from the
-- variables of the hint. Its items and the machine are passed as explicit state.
pub mod Build
pub mod Members
pub mod Reads
pub mod Assign
use Prim.Native.String.{◌++◌}
use text.Mathlib.Text.{◌==◌ as str_eq, starts_with}
use keth.Prelude.{
  ℕ, String, List, [], ◌∷◌, Option, some, none, if◌then◌else◌, Relocatable, Result, ok, err, panic,
  map,
}
use keth.Machine.{Felt252, Machine, Value, int, relocatable}
use keth.Python.{
  Try, PyResult, attribute_error, runtime_error, type_error, raise, success, failure, panicked,
  ◌>>=◌, ok_or_else, Display, from_library,
}
use keth.Python.Address.{
  PyMaybeRelocatable, py_relocatable, py_usize, py_big_uint, to_maybe_relocatable, extract_number,
}
use keth.Python.Variables.{
  get, Identifiers, CairoVarType, felt, DynamicHintError, unknown_variable_type, create_var_type,
  ends_with_star,
}
use keth.Python.Consts.{
  PyVmConst, CairoVar, PyObject, number, address, vm_const, other, as_relocatable,
}

abbrev pub Items : Type 0
Items = List (String × PyObject)

-- `insert` of a map
abbrev pub put : {A : Type 0} → String → A → List (String × A) → List (String × A)
put key a [] = (key, a) ∷ []
put key a ((k, b) ∷ rest) = if str_eq k key then (k, a) ∷ rest else (k, b) ∷ put key a rest

-- The map after a round of the loop: with the variable's object, if it has one.
abbrev pub inserted : String → Option PyObject → Items → Items
inserted name none items = items
inserted name (some o) items = put name o items

module _ (d : Display) where
  -- `value.extract::<PyMaybeRelocatable>(py)`: the variants in their order
  unfoldable pub extract : PyObject → PyResult PyMaybeRelocatable
  extract (address rel) = success (py_relocatable rel)
  extract (number n) = success (extract_number n)
  extract _ = raise type_error d.extract_error

  -- `__getattr__`, and `__getitem__` which calls it
  unfoldable pub get_variable : Items → String → PyResult PyObject
  get_variable items name =
      ok_or_else (get items name)
        (record { kind = attribute_error; message = "No variable '" ++ name ++ "'" })

  module _ {S Ids : Type 0} (F : Felt252) (m : Machine S Ids) where
    -- The assignment to a variable without a value, at its address.
    abbrev pub write_variable :
        String → Value → Option Relocatable → Items × S → PyResult (Unit {0}) × Items × S
    write_variable name value none (items, s) =
        (raise runtime_error ("No address for '" ++ name ++ "'"), items, s)
    write_variable name value (some addr) (items, s) =
        let (result, s') = m.insert_value addr value s in
        (from_library d runtime_error result, items, s')

    abbrev pub assign_const :
        String → PyObject → PyVmConst → Items × S → PyResult (Unit {0}) × Items × S
    assign_const name value c (items, s) = elim c.var.value [
      | some _ ↦
          (raise attribute_error ("Cannot set '" ++ name ++ "': already has a value"), items, s)
      | none ↦ elim (extract value) [
        | success v ↦
            let assigned = to_maybe_relocatable F v in
            let c' : PyVmConst = record c { var = record (c.var) { value = some assigned } } in
            write_variable name assigned c.var.address (put name (vm_const c') items, s)
        | failure e ↦ (failure e, items, s)
        | panicked ↦ (panicked, items, s)
      ]
    ]

    -- `__setattr__`
    unfoldable pub setattr : String → PyObject → Items × S → PyResult (Unit {0}) × Items × S
    unfolding extract
    setattr name value (items, s) = elim (get items name) [
      | none ↦ (raise attribute_error ("No variable '" ++ name ++ "' to set"), items, s)
      | some var ↦ elim var [
        | vm_const c ↦ assign_const name value c (items, s)
        | _ ↦ (raise attribute_error ("Variable '" ++ name ++ "' is not a VmConst"), items, s)
      ]
    ]

-- `set_item` and `keys`
unfoldable pub set_item : Items → String → PyObject → Items
set_item items key value = put key value items

unfoldable pub keys : Items → List String
keys items = map (λ item. item.0) items

-- What the code uses of a `HintReference` (`R`) and of the ap tracking (`T`).
pub record References (S R T : Type 0) : Type 0 where
  pub cairo_type : R → Option String
  pub get_maybe_relocatable_from_reference : S → R → T → Option Value

-- Where a variable is: at an address; a number that has none; or not to be found.
pub data Located : Type 0 where
  at_address : Relocatable → Located
  known : ℕ → Located
  skipped : Located

module _ {S R T : Type 0} (refs : References S R T) (m : Machine S (List (String × R) × T))
    (identifiers : Identifiers) (ids_data : List (String × R)) (ap_tracking : T) (s : S) where
  unfoldable pub locate : String → R → String → Located
  locate name reference cairo_type =
      elim (m.get_relocatable_from_var_name (ids_data, ap_tracking) name s) [
        | ok addr ↦ at_address addr
        | _ ↦ elim (refs.get_maybe_relocatable_from_reference s reference ap_tracking) [
          | none ↦ skipped
          | some value ↦ elim value [
            | relocatable rel ↦ at_address rel
            | int x ↦ if str_eq cairo_type "felt" then known x else skipped
          ]
        ]
      ]

  abbrev new_const : String → Option Value → Relocatable → CairoVarType → PyObject
  new_const name value addr var_type = vm_const (record {
    var = record { name = name; value = value; address = some addr; var_type = var_type };
    identifiers = some identifiers;
  })

  -- the object for a variable with an address, by its type
  unfoldable pub object_at : String → String → Relocatable → Try DynamicHintError PyObject
  object_at name cairo_type var_addr =
      let value = m.get_maybe s var_addr in
      if str_eq cairo_type "felt"
      then elim value [
        | some v ↦ elim v [ int x ↦ success (number x) | relocatable rel ↦ success (address rel) ]
        | none ↦ success (new_const name none var_addr felt)
      ]
      else if ends_with_star cairo_type
      then (let found = m.get_ptr_from_var_name (ids_data, ap_tracking) name s in
          let addr : Relocatable = elim found [ ok p ↦ p | _ ↦ var_addr ] in
          create_var_type cairo_type identifiers >>= λ var_type.
          let const = new_const name value addr var_type in
          if str_eq cairo_type "felt*"
          then elim (as_relocatable value) [
            | some rel ↦ success (address rel)
            | none ↦ success const
          ]
          else success const)
      else (create_var_type cairo_type identifiers >>= λ var_type.
          success (new_const name value var_addr var_type))

  -- One round of the loop of `create_vm_consts_dict`: the object to insert, if any.
  unfoldable pub variable_object : String → R → Try DynamicHintError (Option PyObject)
  unfolding locate object_at
  variable_object name reference = if starts_with name "__temp" then success none else (do
    cairo_type ←
        ok_or_else (refs.cairo_type reference)
          (unknown_variable_type ("No type for '" ++ name ++ "'"))
    elim (locate name reference cairo_type) [
      | skipped ↦ success none
      | known x ↦ success (some (number x))
      | at_address addr ↦ object_at name cairo_type addr >>= λ o. success (some o)
    ])

  unfoldable pub create_items : List (String × R) → Items → Try DynamicHintError Items
  create_items [] items = success items
  create_items ((name, reference) ∷ rest) items = elim (variable_object name reference) [
    | success object ↦ create_items rest (inserted name object items)
    | failure e ↦ failure e
    | panicked ↦ panicked
  ]

  unfoldable pub create_vm_consts_dict : Try DynamicHintError Items
  unfolding create_items
  create_vm_consts_dict = create_items ids_data []
