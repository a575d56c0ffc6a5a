-- ===== src/Python/Variables/Stars.antt =====
-- `create_var_type` on the names of pointer types: a base type and stars behind it.
use Prim.Native.String.{◌++◌, len}
use Prim.Native.String.append
use Prim.Native.String.len as len_clauses
use text.Mathlib.Text.{◌==◌ as str_eq}
use text.Mathlib.TextEquality.{eq_iff}
use text.Mathlib.TextPositions.{len-append}
use keth.Prelude.{
  ℕ, zero, suc, ◌-◌, String, Option, some, none, true, false, if◌then◌else◌, ◌≡◌, refl, sym, ap,
  ◌∙◌, arith, Bool-cases, Option-cases, inl, inr, List, [],
}
use keth.Python.{Try, success, failure}
use keth.Python.Variables.{
  Identifiers, Member, CairoVarType, relocatable_type, struct_type, pointer, DynamicHintError,
  unknown_variable_type, is_empty, trim_end_stars, ends_with_star, frame_type,
  get_struct_info_from_identifiers, pointer_layers, pointer_type, create_var_type,
}

abbrev pub stars : ℕ → String
stars zero = String.[]
stars (suc n) = String.◌∷◌ "*" (stars n)

len-stars : (n : ℕ) → len (stars n) ≡ n
len-stars zero = refl
len-stars (suc n) = rw len_clauses.cons (omega (arith, len-stars n))

trim_end_stars-stars : (n : ℕ) → trim_end_stars (stars n) ≡ String.[]
unfolding trim_end_stars
trim_end_stars-stars zero = refl
trim_end_stars-stars (suc n) = rw (trim_end_stars-stars n) refl

pub trim_end_stars-append :
    (base : String) (n : ℕ) → ends_with_star base ≡ false → trim_end_stars (base ++ stars n) ≡ base
unfolding trim_end_stars ends_with_star
trim_end_stars-append String.[] n h = rw append.nil (trim_end_stars-stars n)
trim_end_stars-append (String.◌∷◌ c String.[]) n h =
    rw (append.cons, append.nil, trim_end_stars-stars n, trim_end_stars, h) refl
trim_end_stars-append (String.◌∷◌ c (String.◌∷◌ d s)) n h =
    let ih = trim_end_stars-append (String.◌∷◌ d s) n h in rw (append.cons, ih) refl

is_empty-append : (base : String) (n : ℕ) → is_empty (base ++ stars (suc n)) ≡ false
is_empty-append String.[] n = rw append.nil
is_empty-append (String.◌∷◌ c s) n = rw append.cons

ends_with_star-stars : (n : ℕ) → ends_with_star (stars (suc n)) ≡ true
unfolding ends_with_star
ends_with_star-stars zero = refl
ends_with_star-stars (suc n) = ends_with_star-stars n

pub ends_with_star-append : (base : String) (n : ℕ) → ends_with_star (base ++ stars (suc n)) ≡ true
unfolding ends_with_star
ends_with_star-append String.[] n = rw append.nil (ends_with_star-stars n)
ends_with_star-append (String.◌∷◌ c s) n =
    rw (append.cons, is_empty-append s n) (ends_with_star-append s n)

-- Pointers around a type, the outermost first.
abbrev pub pointers : ℕ → CairoVarType → CairoVarType
pointers zero t = t
pointers (suc n) t = pointer (pointers n t)

pointer_layers-pointers :
    (n : ℕ) (t : CairoVarType) → pointer_layers n (pointer t) ≡ pointer (pointer_layers n t)
unfolding pointer_layers
pointer_layers-pointers zero t = refl
pointer_layers-pointers (suc n) t = pointer_layers-pointers n (pointer t)

pointer_layers_lem : (n : ℕ) (t : CairoVarType) → pointer_layers n t ≡ pointers n t
unfolding pointer_layers
pointer_layers_lem zero t = refl
pointer_layers_lem (suc n) t = pointer_layers-pointers n t ∙ ap pointer (pointer_layers_lem n t)

-- The type that a name without stars points to, if the program knows it.
abbrev pub base_type : String → Identifiers → Option CairoVarType
base_type base identifiers =
    if str_eq base "felt"
    then some relocatable_type
    else elim (get_struct_info_from_identifiers identifiers base) [
      | some (members, size) ↦ some (struct_type base members size)
      | none ↦ none
    ]

pub starred-ne-felt : (base : String) (n : ℕ) → str_eq (base ++ stars (suc n)) "felt" ≡ false
unfolding ends_with_star
starred-ne-felt base n = elim (Bool-cases (str_eq (base ++ stars (suc n)) "felt")) [
  | inl same ↦
      let e = (eq_iff (base ++ stars (suc n)) "felt").0 same in
      let ends : ends_with_star "felt" ≡ true =
        sym (ap ends_with_star e) ∙ ends_with_star-append base n in
      cc ends
  | inr other ↦ other
]

star_count : (base : String) (n : ℕ) → len (base ++ stars n) - len base ≡ n
star_count base n = omega (arith, len-append base (stars n), len-stars n)

-- What a name with so many stars behind this base stands for.
abbrev pub starred : String → ℕ → Identifiers → Try DynamicHintError CairoVarType
starred base n identifiers = elim (base_type base identifiers) [
  | some t ↦ success (pointers n t)
  | none ↦
      if str_eq base frame_type
      then success (struct_type base [] 2)
      else failure (unknown_variable_type ("Could not get struct info for type '" ++ base ++ "'"))
]

-- The stars behind the name of a struct.
pub starred-struct :
    (base : String) (n : ℕ) (identifiers : Identifiers) (members : List (String × Member))
    (size : ℕ)
    → str_eq base "felt" ≡ false
    → get_struct_info_from_identifiers identifiers base ≡ some (members, size)
    → starred base n identifiers ≡ success (pointers n (struct_type base members size))
starred-struct base n identifiers members size other info = ground arith

pointer_type_lem :
    (base : String) (n : ℕ) (identifiers : Identifiers)
    → pointer_type base n identifiers ≡ starred base n identifiers
unfolding pointer_type
pointer_type_lem base n identifiers =
    elim (Option-cases (get_struct_info_from_identifiers identifiers base)) [
      | inl e ↦ ground (arith, e, pointer_layers_lem n relocatable_type)
      | inr (info, e) ↦ ground (
        arith,
        e,
        pointer_layers_lem n relocatable_type,
        pointer_layers_lem n (struct_type base info.0 info.1),
      )
    ]

-- A name without a star at its end, with n + 1 stars behind it, is the type of n + 1 pointers
-- around the type of the name: `Relocatable` for felt, and the struct with the program's members
-- otherwise; the type of fp and pc, if it is no struct, gives a struct without pointers, and any
-- other name an error.
pub create_var_type-stars :
    (identifiers : Identifiers) (base : String) (n : ℕ)
    → ends_with_star base ≡ false
    → create_var_type (base ++ stars (suc n)) identifiers ≡ starred base (suc n) identifiers
unfolding create_var_type
create_var_type-stars identifiers base n h =
    rw
      (
        starred-ne-felt base n,
        ends_with_star-append base n,
        trim_end_stars-append base (suc n) h,
        star_count base (suc n),
      )
      (pointer_type_lem base (suc n) identifiers)
