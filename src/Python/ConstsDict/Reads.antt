-- ===== src/Python/ConstsDict/Reads.antt =====
-- From a hint's variable to a member of its struct: the dictionary of the hint, the object for the
-- variable, and the attribute of that object.
use Prim.Native.String.{◌++◌}
use text.Mathlib.Text.{◌==◌ as str_eq, starts_with}
use text.Mathlib.TextEquality.{eq_iff}
use keth.Prelude.{
  ℕ, ◌+◌, ◌<◌, ◌^◌, String, List, [], some, false, ◌≡◌, refl, sym, ap, ◌∙◌, arith, Relocatable, ok,
  Bool-cases, inl, inr,
}
use keth.Machine.{Machine, Value}
use keth.Python.{success, Display}
use keth.Python.Variables.{
  get, Identifiers, Member, struct_type, pointer, trim_end_stars, get_struct_info_from_identifiers,
  create_var_type, ends_with_star,
}
use keth.Python.Variables.Stars.{
  stars, starred-struct, create_var_type-stars, trim_end_stars-append, starred-ne-felt,
  ends_with_star-append,
}
use keth.Python.Consts.{PyVmConst, PyObject, vm_const}
use keth.Python.Consts.Attributes.{getattr}
use keth.Python.ConstsDict.{
  Items, References, locate, object_at, variable_object, create_vm_consts_dict, get_variable,
}
use keth.Python.ConstsDict.Build.{Distinct, Creates, create_vm_consts_dict_lem}
use keth.Python.ConstsDict.Members.{
  as_object, shifted, target, const, getattr-struct, getattr-pointer,
}

-- The hint has a variable of this name and type, at this address.
pub record IsVariable {S R T : Type 0} (refs : References S R T)
    (m : Machine S (List (String × R) × T)) (ids_data : List (String × R)) (ap_tracking : T) (s : S)
    (name type_name : String) (a : Relocatable) : Type 0 where
  pub reference : R
  pub found : get ids_data name ≡ some reference
  pub visible : starts_with name "__temp" ≡ false
  pub typed : refs.cairo_type reference ≡ some type_name
  pub located : m.get_relocatable_from_var_name (ids_data, ap_tracking) name s ≡ ok a

-- The program has a struct of this name, with this member of type `felt`.
pub record IsMember (identifiers : Identifiers) (type_name attribute : String)
    (members : List (String × Member)) (size : ℕ) (member : Member) : Type 0 where
  pub info : get_struct_info_from_identifiers identifiers type_name ≡ some (members, size)
  pub found : get members attribute ≡ some member
  pub typed : member.cairo_type ≡ "felt"
  pub not_felt : str_eq type_name "felt" ≡ false
  pub not_address : str_eq attribute "address_" ≡ false

module _ {S R T : Type 0} (refs : References S R T) (m : Machine S (List (String × R) × T))
    (d : Display) (identifiers : Identifiers) (ids_data : List (String × R)) (ap_tracking : T)
    (s : S) where
  module _ (name type_name : String) (a : Relocatable)
      (var : IsVariable refs m ids_data ap_tracking s name type_name a) where
    variable_object-at :
        (o : PyObject)
        → object_at refs m identifiers ids_data ap_tracking s name type_name a ≡ success o
        → variable_object refs m identifiers ids_data ap_tracking s name var.reference
          ≡ success (some o)
    unfolding variable_object locate
    variable_object-at o made = rw (var.visible, var.typed, var.located, made) refl

    -- What the dictionary of the hint has under the name.
    get_variable_lem :
        (o : PyObject)
        → object_at refs m identifiers ids_data ap_tracking s name type_name a ≡ success o
        → Distinct ids_data
        → Creates refs m identifiers ids_data ap_tracking s ids_data
        → (items : Items) × (create_vm_consts_dict refs m identifiers ids_data ap_tracking s
            ≡ success items)
          × (get_variable d items name ≡ success o)
    unfolding get_variable
    get_variable_lem o made distinct creates =
        let (items, ran, entries) =
          create_vm_consts_dict_lem refs m identifiers ids_data ap_tracking s distinct creates in
        let entry = rw var.found at (entries name) in
        let here : get items name ≡ some o = cc (entry, variable_object-at o made) in
        (items, ran, rw (get_variable, here) refl)

  starred-ne-felt_pointer :
      (base : String)
      → ends_with_star base ≡ false
      → str_eq base "felt" ≡ false
      → str_eq (base ++ stars 1) "felt*" ≡ false
  unfolding trim_end_stars
  starred-ne-felt_pointer base plain other = elim (Bool-cases (str_eq (base ++ stars 1) "felt*")) [
    | inl same ↦
        let e = (eq_iff (base ++ stars 1) "felt*").0 same in
        let base_felt : base ≡ "felt" =
          sym (trim_end_stars-append base 1 plain) ∙ ap trim_end_stars e in
        ground (arith, (eq_iff base "felt").1 base_felt)
    | inr apart ↦ apart
  ]

  object_at-struct :
      (name type_name : String) (a : Relocatable)
      → str_eq type_name "felt" ≡ false
      → ends_with_star type_name ≡ false
      → object_at refs m identifiers ids_data ap_tracking s name type_name a
        ≡ success (
            vm_const
              (const m d identifiers s name (m.get_maybe s a) a (struct_type type_name [] 1)))
  unfolding object_at create_var_type
  object_at-struct name type_name a other plain = rw (other, plain) refl

  object_at-pointer :
      (name base : String) (a p : Relocatable) (members : List (String × Member)) (size : ℕ)
      → str_eq base "felt" ≡ false
      → ends_with_star base ≡ false
      → get_struct_info_from_identifiers identifiers base ≡ some (members, size)
      → m.get_ptr_from_var_name (ids_data, ap_tracking) name s ≡ ok p
      → object_at refs m identifiers ids_data ap_tracking s name (base ++ stars 1) a
        ≡ success (
            vm_const (
              const m d identifiers s name
                (m.get_maybe s a)
                p
                (pointer (struct_type base members size))))
  unfolding object_at
  object_at-pointer name base a p members size other plain info at =
      rw
        (
          starred-ne-felt base 0,
          ends_with_star-append base 0,
          create_var_type-stars identifiers base 0 plain,
          starred-ne-felt_pointer base plain other,
          starred-struct base 1 identifiers members size other info,
          at,
        )
        refl

  -- For a variable of a struct type of the program, not named `__temp…`, at a known address, and a
  -- member of type felt not named `SIZE` or `address_`: the dictionary `ids` is created and has an
  -- object for the variable, and the member's attribute is what the cell holds at the address plus
  -- the member's offset. It is assumed that every variable is created without an error, that names
  -- are distinct, and that the address is in range.
  pub struct_variable_member :
      (name type_name attribute : String) (a : Relocatable) (members : List (String × Member))
      (size : ℕ) (member : Member) (v : Value)
      → Distinct ids_data
      → Creates refs m identifiers ids_data ap_tracking s ids_data
      → IsVariable refs m ids_data ap_tracking s name type_name a
      → IsMember identifiers type_name attribute members size member
      → ends_with_star type_name ≡ false
      → str_eq attribute "SIZE" ≡ false
      → a.offset + member.offset < 2 ^ 64
      → m.get_maybe s (shifted a member.offset) ≡ some v
      → (items : Items) × (c : PyVmConst) × (create_vm_consts_dict refs m identifiers ids_data
            ap_tracking s
          ≡ success items)
        × (get_variable d items name ≡ success (vm_const c))
        × (getattr m d c s attribute ≡ success (as_object v))
  struct_variable_member name type_name attribute a members size member v distinct creates var has
        plain not_size in_range cell =
      let c = const m d identifiers s name (m.get_maybe s a) a (struct_type type_name [] 1) in
      let (items, ran, got) =
        get_variable_lem name type_name a var (vm_const c)
          (object_at-struct name type_name a has.not_felt plain) distinct creates in
      (
        items,
        c,
        ran,
        got,
        getattr-struct m d identifiers s name type_name attribute (m.get_maybe s a) members size
            member v has.found has.typed has.not_address a has.info not_size in_range cell,
      )

  -- For a variable whose type is a pointer to a struct of the program, with the pointer `p`, and a
  -- member of type felt not named `address_`: the dictionary is created, and the attribute is the
  -- cell at the member's offset, which is counted from the address that the cell at `p` holds, and
  -- only if it holds none from `p`. It is assumed that every variable is created without an error,
  -- that names are distinct, and that the address is in range.
  pub pointer_variable_member :
      (name base attribute : String) (a p : Relocatable) (members : List (String × Member))
      (size : ℕ) (member : Member) (v : Value)
      → Distinct ids_data
      → Creates refs m identifiers ids_data ap_tracking s ids_data
      → IsVariable refs m ids_data ap_tracking s name (base ++ stars 1) a
      → m.get_ptr_from_var_name (ids_data, ap_tracking) name s ≡ ok p
      → IsMember identifiers base attribute members size member
      → ends_with_star base ≡ false
      → (target m d identifiers s p).offset + member.offset < 2 ^ 64
      → m.get_maybe s (shifted (target m d identifiers s p) member.offset) ≡ some v
      → (items : Items) × (c : PyVmConst) × (create_vm_consts_dict refs m identifiers ids_data
            ap_tracking s
          ≡ success items)
        × (get_variable d items name ≡ success (vm_const c))
        × (getattr m d c s attribute ≡ success (as_object v))
  pointer_variable_member name base attribute a p members size member v distinct creates var at has
        plain in_range cell =
      let c =
        const m d identifiers s name (m.get_maybe s a) p
          (pointer (struct_type base members size)) in
      let (items, ran, got) =
        get_variable_lem name (base ++ stars 1) a var (vm_const c)
          (object_at-pointer name base a p members size has.not_felt plain has.info at) distinct
          creates in
      (
        items,
        c,
        ran,
        got,
        getattr-pointer m d identifiers s name base attribute (m.get_maybe s a) members size member
            v has.found has.typed has.not_address p in_range cell,
      )
