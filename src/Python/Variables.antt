-- ===== src/Python/Variables.antt =====
-- vm_consts.rs: the types of Cairo variables, by the names that the compiler gives them.
pub mod Stars
use Prim.Native.Char.{Char, code}
use Prim.Native.String.{◌++◌, len}
use text.Mathlib.Text.{◌==◌ as str_eq}
use keth.Prelude.{
  ℕ, zero, suc, ◌-◌, ◌==◌, String, List, [], ◌∷◌, Option, some, none, Bool, true, false, ◌&&◌,
  if◌then◌else◌,
}
use keth.Python.{Try, success, failure}

-- `get` of a map, which is a list of its entries.
abbrev pub get : {A : Type 0} → List (String × A) → String → Option A
get [] key = none
get ((k, a) ∷ rest) key = if str_eq k key then some a else get rest key

-- `Member` and `Identifier` of cairo-vm, as far as the code reads them.
pub record Member : Type 0 where
  pub offset : ℕ
  pub cairo_type : String

pub record Identifier : Type 0 where
  pub members : Option (List (String × Member))
  pub size : Option ℕ

abbrev pub Identifiers : Type 0
Identifiers = List (String × Identifier)

pub data CairoVarType : Type 0 where
  felt : CairoVarType
  relocatable_type : CairoVarType
  struct_type : String → List (String × Member) → ℕ → CairoVarType
  pointer : CairoVarType → CairoVarType

-- The errors of pythonic_hint.rs.
pub data DynamicHintError : Type 0 where
  python_init : String → DynamicHintError
  py_object_creation : String → DynamicHintError
  py_dict_set : String → DynamicHintError
  variable_access : String → DynamicHintError
  invalid_reference : String → DynamicHintError
  python_execution : String → DynamicHintError
  c_string_conversion : String → DynamicHintError
  unknown_variable_type : String → DynamicHintError
  memory_error : String → DynamicHintError

abbrev pub is_star : Char → Bool
is_star c = code c == 0x2a

abbrev pub is_empty : String → Bool
is_empty String.[] = true
is_empty (String.◌∷◌ c s) = false

-- `trim_end_matches('*')`, and `ends_with('*')`
unfoldable pub trim_end_stars : String → String
trim_end_stars String.[] = String.[]
trim_end_stars (String.◌∷◌ c s) =
    let rest = trim_end_stars s in
    if is_empty rest && is_star c then String.[] else String.◌∷◌ c rest

unfoldable pub ends_with_star : String → Bool
ends_with_star String.[] = false
ends_with_star (String.◌∷◌ c s) =
    let rest = ends_with_star s in if is_empty s then is_star c else rest

unfoldable pub get_struct_info_from_identifiers :
    Identifiers → String → Option (List (String × Member) × ℕ)
unfolding trim_end_stars
get_struct_info_from_identifiers identifiers type_name =
    elim (get identifiers (trim_end_stars type_name)) [
      | none ↦ none
      | some identifier ↦ elim identifier.members [
        | none ↦ none
        | some members ↦ some (members, elim identifier.size [ some size ↦ size | none ↦ 1 ])
      ]
    ]

-- the loop of `create_var_type` that adds the pointer layers
unfoldable pub pointer_layers : ℕ → CairoVarType → CairoVarType
pointer_layers zero inner_type = inner_type
pointer_layers (suc n) inner_type = pointer_layers n (pointer inner_type)

abbrev pub frame_type : String
frame_type = "(fp_val: felt, pc_val: felt*)"

-- The branch of `create_var_type` for a name that ends in stars.
unfoldable pub pointer_type : String → ℕ → Identifiers → Try DynamicHintError CairoVarType
pointer_type base_type asterisks_count identifiers =
    if str_eq base_type "felt"
    then success (pointer_layers asterisks_count relocatable_type)
    else elim (get_struct_info_from_identifiers identifiers base_type) [
      | some (members, size) ↦
          success (pointer_layers asterisks_count (struct_type base_type members size))
      | none ↦
          if str_eq base_type frame_type
          then success (struct_type base_type [] 2)
          else failure
              (unknown_variable_type ("Could not get struct info for type '" ++ base_type ++ "'"))
    ]

unfoldable pub create_var_type : String → Identifiers → Try DynamicHintError CairoVarType
create_var_type type_name identifiers =
    if str_eq type_name "felt"
    then success felt
    else if ends_with_star type_name
    then (let base_type = trim_end_stars type_name in
        pointer_type base_type (len type_name - len base_type) identifiers)
    else success (struct_type type_name [] 1)

-- How a `DynamicHintError` is printed.
unfoldable pub display_dynamic : DynamicHintError → String
display_dynamic (python_init e) = "Python initialization error: " ++ e
display_dynamic (py_object_creation e) = "Failed to create Python object: " ++ e
display_dynamic (py_dict_set e) = "Failed to set Python dictionary item: " ++ e
display_dynamic (variable_access e) = "Failed to get value from variable: " ++ e
display_dynamic (invalid_reference e) = "Invalid variable reference: " ++ e
display_dynamic (python_execution e) = "Python execution error: " ++ e
display_dynamic (c_string_conversion e) = "Failed to convert hint code to CString: " ++ e
display_dynamic (unknown_variable_type e) = "Unknown variable type: " ++ e
display_dynamic (memory_error e) = "Memory error: " ++ e
