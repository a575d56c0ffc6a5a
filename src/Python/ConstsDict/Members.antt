-- ===== src/Python/ConstsDict/Members.antt =====
-- The members of a struct as attributes of the object for a variable: which cell is read.
use Prim.Native.String.{◌++◌}
use text.Mathlib.Text.{◌==◌ as str_eq}
use keth.Prelude.{
  ℕ, ◌+◌, ◌<◌, ◌^◌, String, List, [], ◌∷◌, Option, some, false, ◌≡◌, refl, Relocatable, ok,
}
use keth.Machine.{Machine, Value, int, relocatable}
use keth.Python.{success, Display}
use keth.Python.Variables.{
  get, Identifiers, Member, CairoVarType, struct_type, pointer, get_struct_info_from_identifiers,
  create_var_type,
}
use keth.Python.Consts.{
  PyVmConst, PyObject, number, address, load_members, member_address, get_address,
  create_member_var, read_member,
}
use keth.Python.Consts.Attributes.{getattr}

-- What Python sees of a cell of type `felt`.
abbrev pub as_object : Value → PyObject
as_object (int x) = number x
as_object (relocatable r) = address r

abbrev pub shifted : Relocatable → ℕ → Relocatable
shifted a offset = record a { offset = a.offset + offset }

module _ {S Ids : Type 0} (m : Machine S Ids) (d : Display) (identifiers : Identifiers)
    (s : S) where
  -- A member of type `felt`, read from the cell at its address.
  read_felt_member :
      (c : PyVmConst) (parent name : String) (member : Member) (a : Relocatable) (v : Value)
      → c.identifiers ≡ some identifiers
      → member.cairo_type ≡ "felt"
      → m.get_maybe s a ≡ some v
      → read_member m d c s parent name member a ≡ success (as_object v)
  unfolding create_member_var create_var_type
  read_felt_member c parent name member a (int x) known typed cell =
      rw (typed, create_member_var, known, cell) refl
  read_felt_member c parent name member a (relocatable r) known typed cell =
      rw (typed, create_member_var, known, cell) refl

  member_address_lem :
      (a : Relocatable) (n : ℕ)
      → a.offset + n < 2 ^ 64
      → member_address m d a n ≡ success (shifted a n)
  member_address_lem a n h = rw (m.add_usize_lem a n h, member_address) refl

  -- The members of a struct that has some are not loaded again.
  load_members-loaded :
      (type_name name : String) (members : List (String × Member)) (size : ℕ) (member : Member)
      → get members name ≡ some member
      → load_members identifiers (struct_type type_name members size)
        ≡ struct_type type_name members size
  load_members-loaded type_name name [] size member has = cc
  load_members-loaded type_name name (first ∷ rest) size member has = refl

  -- The address that the code takes a pointer for: what the cell at `p` holds, if it holds an
  -- address, and else `p`.
  abbrev pub target : Relocatable → Relocatable
  target p = elim (m.get_relocatable s p) [ ok r ↦ r | _ ↦ p ]

  -- The object of a variable.
  abbrev pub const : String → Option Value → Relocatable → CairoVarType → PyVmConst
  const variable value a var_type = record {
    var = record { name = variable; value = value; address = some a; var_type = var_type };
    identifiers = some identifiers;
  }

  module _ (variable type_name name : String) (value : Option Value)
      (members : List (String × Member)) (size : ℕ) (member : Member) (v : Value)
      (has : get members name ≡ some member) (typed : member.cairo_type ≡ "felt")
      (attribute : str_eq name "address_" ≡ false) where
    -- A struct, whose members are loaded when they are needed.
    pub getattr-struct :
        (a : Relocatable)
        → get_struct_info_from_identifiers identifiers type_name ≡ some (members, size)
        → str_eq name "SIZE" ≡ false
        → a.offset + member.offset < 2 ^ 64
        → m.get_maybe s (shifted a member.offset) ≡ some v
        → getattr m d (const variable value a (struct_type type_name [] 1)) s name
          ≡ success (as_object v)
    unfolding getattr
    getattr-struct a info not_size in_range cell =
        let c = const variable value a (struct_type type_name [] 1) in
        rw (attribute, info, not_size, has, member_address_lem a member.offset in_range)
          (read_felt_member c variable name member (shifted a member.offset) v refl typed cell)

    -- A pointer to a struct.
    pub getattr-pointer :
        (p : Relocatable)
        → (target p).offset + member.offset < 2 ^ 64
        → m.get_maybe s (shifted (target p) member.offset) ≡ some v
        → getattr m d (const variable value p (pointer (struct_type type_name members size))) s name
          ≡ success (as_object v)
    unfolding getattr get_address
    getattr-pointer p in_range cell =
        let c = const variable value p (pointer (struct_type type_name members size)) in
        rw
          (
            attribute,
            load_members-loaded type_name name members size member has,
            has,
            member_address_lem (target p) member.offset in_range,
          )
          (read_felt_member c ("(*" ++ variable ++ ")") name member
            (shifted (target p) member.offset) v refl typed cell)
