-- ===== src/Runner/Settings.antt =====
-- layout.rs, builtins.rs and stripped_program.rs: what Python gives the runner, by names.
use Prim.Native.String.{◌++◌, count}
use Prim.Native.String.append
use Prim.Native.Char.{Char}
use text.Mathlib.Text.{◌==◌ as str_eq}
use text.Mathlib.TextEquality.{eq_iff}
use text.Mathlib.TextLemmas.{length-cons, length-append}
use text.Mathlib.TextPositions.{eq_refl}
use keth.Prelude.{
  ℕ, String, List, [], ◌∷◌, map, Option, some, none, if◌then◌else◌, ◌≡◌, refl, ap, ◌∙◌, arith,
  Bool-cases, inl, inr,
}
use keth.Machine.{Felt252, Value}
use keth.Python.{PyErr, PyResult, value_error, success, failure, panicked, ◌>>=◌, ok_or_else}
use keth.Python.Address.{PyMaybeRelocatable, from_maybe_relocatable, to_maybe_relocatable}

-- The layouts of cairo-vm that have a name here.
pub data LayoutName : Type 0 where
  plain : LayoutName
  small : LayoutName
  dex : LayoutName
  recursive : LayoutName
  starknet : LayoutName
  starknet_with_keccak : LayoutName
  recursive_large_output : LayoutName
  recursive_with_poseidon : LayoutName
  all_cairo : LayoutName
  all_solidity : LayoutName

-- The arms of the `match`, in their order.
abbrev pub layouts : List (String × LayoutName)
layouts =
    ("plain", plain)
    ∷ ("small", small)
    ∷ ("dex", dex)
    ∷ ("recursive", recursive)
    ∷ ("starknet", starknet)
    ∷ ("starknet_with_keccak", starknet_with_keccak)
    ∷ ("recursive_large_output", recursive_large_output)
    ∷ ("recursive_with_poseidon", recursive_with_poseidon)
    ∷ ("all_cairo", all_cairo)
    ∷ ("all_solidity", all_solidity)
    ∷ []

abbrev named : {A : Type 0} → List (String × A) → String → Option A
named [] key = none
named ((k, a) ∷ rest) key = if str_eq k key then some a else named rest key

unfoldable pub into_layout_name : String → PyResult LayoutName
into_layout_name layout =
    ok_or_else (named layouts layout)
      (record { kind = value_error; message = "Invalid layout name" })

-- `PyLayout::default`
abbrev pub default_layout : String
default_layout = "plain"

-- Names of builtins in cairo-vm: `from_str`, and `to_string`, which puts a suffix behind.
pub record BuiltinNames (Name : Type 0) : Type 0 where
  pub from_str : String → Option Name
  pub to_string : Name → String
  pub to_string-from_str :
      (s : String) (n : Name) → from_str s ≡ some n → to_string n ≡ s ++ "_builtin"

abbrev prepend : Char → Option String → Option String
prepend c none = none
prepend c (some s) = some (String.◌∷◌ c s)

-- `s.strip_suffix(suffix)`
unfoldable pub strip_suffix : String → String → Option String
strip_suffix String.[] suffix = if str_eq String.[] suffix then some String.[] else none
strip_suffix (String.◌∷◌ c s) suffix =
    let rest = strip_suffix s suffix in
    if str_eq (String.◌∷◌ c s) suffix then some String.[] else prepend c rest

pub record StrippedProgram (Name : Type 0) : Type 0 where
  pub program_data : List Value
  pub builtins : List Name
  pub main : ℕ

module _ {Name : Type 0} (names : BuiltinNames Name) where
  unfoldable pub into_builtin_names : List String → PyResult (List Name)
  into_builtin_names [] = success []
  into_builtin_names (s ∷ rest) =
      let others = into_builtin_names rest in
      ok_or_else (names.from_str s)
        (record { kind = value_error; message = "Invalid builtin name: " ++ s })
      >>= λ n. others >>= λ ns. success (n ∷ ns)

  unfoldable pub new_program :
      Felt252 → List PyMaybeRelocatable → List String → ℕ → PyResult (StrippedProgram Name)
  unfolding into_builtin_names
  new_program F values builtins main = into_builtin_names builtins >>= λ ns.
      success
        (record { program_data = map (to_maybe_relocatable F) values; builtins = ns; main = main })

  unfoldable pub program_values : StrippedProgram Name → List PyMaybeRelocatable
  program_values p = map from_maybe_relocatable p.program_data

  -- The getter; `unwrap` of a name without the suffix panics.
  unfoldable pub builtin_texts : List Name → PyResult (List String)
  unfolding strip_suffix
  builtin_texts [] = success []
  builtin_texts (n ∷ rest) = elim (strip_suffix (names.to_string n) "_builtin") [
    | none ↦ panicked
    | some s ↦ builtin_texts rest >>= λ texts. success (s ∷ texts)
  ]

  unfoldable pub set_builtins :
      StrippedProgram Name → List String → PyResult (Unit {0}) × StrippedProgram Name
  set_builtins p texts = elim (into_builtin_names texts) [
    | success ns ↦ (success tt, record p { builtins = ns })
    | failure e ↦ (failure e, p)
    | panicked ↦ (panicked, p)
  ]

  unfoldable pub set_main : StrippedProgram Name → ℕ → StrippedProgram Name
  set_main p main = record p { main = main }

strip_suffix-whole : (s : String) → strip_suffix s s ≡ some String.[]
unfolding strip_suffix
strip_suffix-whole String.[] = refl
strip_suffix-whole (String.◌∷◌ c s) = rw (eq_refl (String.◌∷◌ c s)) refl

strip_suffix-append : (s suffix : String) → strip_suffix (s ++ suffix) suffix ≡ some s
unfolding strip_suffix
strip_suffix-append String.[] suffix = rw append.nil (strip_suffix-whole suffix)
strip_suffix-append (String.◌∷◌ c s) suffix =
    rw append.cons (elim (Bool-cases (str_eq (String.◌∷◌ c (s ++ suffix)) suffix)) [
      | inl same ↦
          let lengths = ap count ((eq_iff (String.◌∷◌ c (s ++ suffix)) suffix).0 same) in
          absurd (omega (arith, lengths, length-cons c (s ++ suffix), length-append s suffix))
      | inr other ↦ rw (other, strip_suffix-append s suffix) refl
    ])

cons-success :
    {Name : Type 0} (o : Option Name) (e : PyErr) (r : PyResult (List Name)) (ns : List Name)
    → (ok_or_else o e >>= λ n. r >>= λ rest. success (n ∷ rest)) ≡ success ns
    → (n : Name) × (rest : List Name) × (o ≡ some n) × (r ≡ success rest) × (ns ≡ n ∷ rest)
cons-success (some n) e (success rest) ns h = (n, rest, refl, refl, ground arith)
cons-success (some n) e (failure x) ns h = absurd (ground arith)
cons-success (some n) e panicked ns h = absurd (ground arith)
cons-success none e r ns h = absurd (ground arith)

module _ {Name : Type 0} (names : BuiltinNames Name) where
  -- Names that were taken for builtins are read back as they were.
  pub builtin_texts-into_builtin_names :
      (texts : List String) (ns : List Name)
      → into_builtin_names names texts ≡ success ns
      → builtin_texts names ns ≡ success texts
  unfolding into_builtin_names builtin_texts
  builtin_texts-into_builtin_names [] ns h = let empty : [] ≡ ns = ground arith in rw⁻¹ empty refl
  builtin_texts-into_builtin_names (s ∷ texts) ns h =
      let (n, rest, first, others, whole) =
        cons-success (names.from_str s) _ (into_builtin_names names texts) ns h in
      let suffixed =
        ap (λ t. strip_suffix t "_builtin") (names.to_string-from_str s n first)
        ∙ strip_suffix-append s "_builtin" in
      rw (whole, builtin_texts, suffixed, builtin_texts-into_builtin_names texts rest others) refl
