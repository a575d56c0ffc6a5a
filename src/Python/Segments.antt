-- ===== src/Python/Segments.antt =====
-- memory_segments.rs: the memory and its segments as Python objects (`memory` and `segments` of a
-- Python hint).
use Prim.Native.String.{◌++◌}
use keth.Prelude.{
  ℕ, List, map, Option, some, none, ◌≡◌, refl, ap, Relocatable, ok, Action, Option-cases, inl, inr,
  arith,
}
use keth.Machine.{Felt252, Machine, Value}
use keth.Python.{
  PyResult, key_error, runtime_error, raise, success, ◌>>=◌, ok_or_else, Display, from_library,
}
use keth.Python.Address.{PyMaybeRelocatable, from_maybe_relocatable, to_maybe_relocatable}

-- What the classes call of cairo-vm's segments.
pub record Segments (S : Type 0) : Type 0 where
  pub add : S → Relocatable × S
  pub add_temporary_segment : S → Relocatable × S
  pub load_data : Relocatable → List Value → Action S Relocatable
  pub get_segment_used_size : S → ℕ → Option ℕ
  pub get_segment_size : S → ℕ → Option ℕ
  pub compute_effective_sizes : S → List ℕ × S
  pub gen_arg_value : Value → Action S Value
  pub gen_arg_values : List Value → Action S Value

pub data GenArgInput : Type 0 where
  single : PyMaybeRelocatable → GenArgInput
  multiple : List PyMaybeRelocatable → GenArgInput

-- `from_maybe_relocatable` in an optional cell
abbrev cell_to_python : Option Value → Option PyMaybeRelocatable
cell_to_python none = none
cell_to_python (some v) = some (from_maybe_relocatable v)

module _ {S Ids : Type 0} (F : Felt252) (m : Machine S Ids) (d : Display) where
  unfoldable pub get : S → Relocatable → Option PyMaybeRelocatable
  get s key = cell_to_python (m.get_maybe s key)

  unfoldable pub get_item : S → Relocatable → PyResult PyMaybeRelocatable
  get_item s key =
      ok_or_else (cell_to_python (m.get_maybe s key))
        (record { kind = key_error; message = "Memory address not found: " ++ d.address key })

  unfoldable pub set_item : Relocatable → PyMaybeRelocatable → S → PyResult (Unit {0}) × S
  set_item key value s = elim (m.get_maybe s key) [
    | some old ↦ (
      raise key_error ("Memory at key " ++ d.address key ++ " already has value: " ++ d.value old),
      s,
    )
    | none ↦
        let (result, s') = m.insert_value key (to_maybe_relocatable F value) s in
        (from_library d runtime_error result, s')
  ]

module _ {S : Type 0} (F : Felt252) (segments : Segments S) (d : Display) where
  unfoldable pub add : S → Relocatable × S
  add s = segments.add s

  unfoldable pub add_temporary_segment : S → Relocatable × S
  add_temporary_segment s = segments.add_temporary_segment s

  unfoldable pub get_segment_used_size : S → ℕ → Option ℕ
  get_segment_used_size s segment_index = segments.get_segment_used_size s segment_index

  unfoldable pub get_segment_size : S → ℕ → Option ℕ
  get_segment_size s segment_index = segments.get_segment_size s segment_index

  unfoldable pub compute_effective_sizes : S → List ℕ × S
  compute_effective_sizes s = segments.compute_effective_sizes s

  unfoldable pub load_data : Relocatable → List PyMaybeRelocatable → S → PyResult Relocatable × S
  load_data ptr values s =
      let (result, s') = segments.load_data ptr (map (to_maybe_relocatable F) values) s in
      (from_library d runtime_error result, s')

  abbrev value_to_python : PyResult Value → PyResult PyMaybeRelocatable
  value_to_python r = r >>= λ v. success (from_maybe_relocatable v)

  unfoldable pub gen_arg : GenArgInput → S → PyResult PyMaybeRelocatable × S
  gen_arg (single arg) s =
      let (result, s') = segments.gen_arg_value (to_maybe_relocatable F arg) s in
      (value_to_python (from_library d runtime_error result), s')
  gen_arg (multiple arg) s =
      let (result, s') = segments.gen_arg_values (map (to_maybe_relocatable F) arg) s in
      (value_to_python (from_library d runtime_error result), s')

module _ {S Ids : Type 0} (F : Felt252) (m : Machine S Ids) (d : Display) where
  set_item-taken :
      (key : Relocatable) (value : PyMaybeRelocatable) (s : S) (old : Value)
      → m.get_maybe s key ≡ some old
      → set_item F m d key value s ≡ (
        raise key_error
            ("Memory at key " ++ d.address key ++ " already has value: " ++ d.value old),
        s,
      )
  unfolding set_item
  set_item-taken key value s old e = rw (set_item, e) refl

  set_item-free :
      (key : Relocatable) (value : PyMaybeRelocatable) (s s' : S)
      → m.get_maybe s key ≡ none
      → set_item F m d key value s ≡ (success tt, s')
      → m.insert_value key (to_maybe_relocatable F value) s ≡ (ok tt, s')
  unfolding set_item
  set_item-free key value s s' e h = ground arith

  -- If an assignment to a cell of `memory` succeeds, the cell had no value before, it then reads as
  -- the value, a number taken modulo the prime, and every later assignment to it leaves the memory
  -- as it is.
  pub get_item-set_item :
      (key : Relocatable) (value : PyMaybeRelocatable) (s s' : S)
      → set_item F m d key value s ≡ (success tt, s')
      → (m.get_maybe s key ≡ none)
        × (get_item F m d s' key ≡ success (from_maybe_relocatable (to_maybe_relocatable F value)))
        × ((again : PyMaybeRelocatable) → (set_item F m d key again s').1 ≡ s')
  unfolding get_item
  get_item-set_item key value s s' h = elim (Option-cases (m.get_maybe s key)) [
    | inl free ↦
        let written = set_item-free key value s s' free h in
        let cell = m.get_maybe-insert_value s s' key (to_maybe_relocatable F value) written in
        (
          free,
          rw (get_item, cell) refl,
          λ again. ap (λ r. r.1) (set_item-taken key again s' (to_maybe_relocatable F value) cell),
        )
    | inr (old, taken) ↦ absurd (ground (arith, set_item-taken key value s old taken))
  ]
