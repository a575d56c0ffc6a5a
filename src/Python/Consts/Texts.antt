-- ===== src/Python/Consts/Texts.antt =====
-- vm_consts.rs: what a `PyVmConst` says of its type, and how it is printed.
use Prim.Native.Char.{Char, code}
use Prim.Native.String.{◌++◌}
use keth.Prelude.{String, List, [], ◌∷◌, Option, some, none, Bool, true, false, ◌==◌, if◌then◌else◌}
use keth.Python.{Display}
use keth.Python.Variables.{CairoVarType, felt, relocatable_type, struct_type, pointer}
use keth.Python.Consts.{PyVmConst}

-- A character in front of the first part.
abbrev push_front : Char → List String → List String
push_front c [] = String.◌∷◌ c String.[] ∷ []
push_front c (part ∷ rest) = String.◌∷◌ c part ∷ rest

-- `name.split('.')`
unfoldable pub split_dots : String → List String
split_dots String.[] = String.[] ∷ []
split_dots (String.◌∷◌ c s) =
    let rest = split_dots s in if code c == 0x2e then String.[] ∷ rest else push_front c rest

unfoldable pub type_path : PyVmConst → Option (List String)
unfolding split_dots
type_path c = elim c.var.var_type [
  | struct_type name members size ↦ some (split_dots name)
  | pointer pointee ↦ elim pointee [
    | struct_type name members size ↦ some (split_dots name)
    | _ ↦ none
  ]
  | _ ↦ none
]

unfoldable pub is_pointer : PyVmConst → Bool
is_pointer c = elim c.var.var_type [ pointer pointee ↦ true | _ ↦ false ]

abbrev type_name_of : CairoVarType → String
type_name_of felt = "felt"
type_name_of relocatable_type = "relocatable"
type_name_of (struct_type name members size) = name
type_name_of (pointer felt) = "felt*"
type_name_of (pointer relocatable_type) = "relocatable*"
type_name_of (pointer (struct_type name members size)) = name ++ "*"
type_name_of (pointer (pointer pointee)) = "pointer*"

unfoldable pub type_name : PyVmConst → String
type_name c = type_name_of c.var.var_type

module _ (d : Display) where
  -- `__str__` and `__repr__`
  unfoldable pub str : PyVmConst → String
  str c =
      let value : String = elim c.var.value [ none ↦ "None" | some v ↦ d.value v ] in
      elim c.var.var_type [
        | struct_type name members size ↦ name ++ "(" ++ c.var.name ++ ")"
        | pointer pointee ↦ elim pointee [
          | struct_type name members size ↦ name ++ "*(" ++ c.var.name ++ ")"
          | _ ↦ value
        ]
        | _ ↦ value
      ]

  unfoldable pub repr : PyVmConst → String
  unfolding type_path
  repr c =
      "VmConst(name='"
      ++ c.var.name
      ++ "', path="
      ++ d.debug_path (type_path c)
      ++ ", address="
      ++ d.debug_address c.var.address
      ++ ")"
