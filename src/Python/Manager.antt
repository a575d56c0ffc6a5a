-- ===== src/Python/Manager.antt =====
-- dict_manager.rs: the dictionary manager and the trackers as Python objects. They share the
-- manager of the execution scopes with the hints; it is passed as explicit state.
pub mod View
pub mod Shared
use Prim.Native.String.{◌++◌}
use keth.Prelude.{
  ℤ, String, List, [], ◌∷◌, map, Option, some, none, Relocatable, Result, ok, err, panic,
}
use keth.Machine.{Felt252, Value}
use keth.Dicts.{
  DictKey, simple, compound, Dicts, DictManager, DictTracker, set_tracker, set_preimage, value_eq,
}
use keth.Python.{
  PyResult, PyErr, key_error, value_error, raise, success, failure, panicked, ok_or_else, Display,
  from_library,
}
use keth.Python.Address.{PyMaybeRelocatable, from_maybe_relocatable, to_maybe_relocatable}

pub data PyDictKey : Type 0 where
  py_simple : PyMaybeRelocatable → PyDictKey
  py_compound : List PyMaybeRelocatable → PyDictKey

unfoldable pub to_dict_key : Felt252 → PyDictKey → DictKey
to_dict_key F (py_simple val) = simple (to_maybe_relocatable F val)
to_dict_key F (py_compound vals) = compound (map (to_maybe_relocatable F) vals)

unfoldable pub from_dict_key : DictKey → PyDictKey
from_dict_key (simple val) = py_simple (from_maybe_relocatable val)
from_dict_key (compound vals) = py_compound (map from_maybe_relocatable vals)

-- What is printed of a segment's index, and of a Python cell with `{:?}`.
pub record KeyDisplay : Type 0 where
  pub segment_index : ℤ → String
  pub debug_maybe : PyMaybeRelocatable → String

abbrev not_found : KeyDisplay → ℤ → PyErr
not_found texts index = record {
  kind = key_error;
  message = "segment_index " ++ texts.segment_index index ++ " not found";
}

abbrev pub from_value : PyResult Value → PyResult PyMaybeRelocatable
from_value (success v) = success (from_maybe_relocatable v)
from_value (failure e) = failure e
from_value panicked = panicked

module _ {D : Type 0} (texts : KeyDisplay) where
  -- `__getitem__` and `__setitem__` of the trackers
  unfoldable pub get_item : DictManager D → ℤ → PyResult (DictTracker D)
  get_item g segment_index = ok_or_else (g.trackers segment_index) (not_found texts segment_index)

  unfoldable pub set_item : DictManager D → ℤ → DictTracker D → PyResult (Unit {0}) × DictManager D
  set_item g segment_index value = (success tt, set_tracker g segment_index value)

  unfoldable pub get_tracker : DictManager D → Relocatable → PyResult (DictTracker D)
  get_tracker g ptr = ok_or_else (g.trackers ptr.segment_index) (not_found texts ptr.segment_index)

  unfoldable pub insert : DictManager D → ℤ → DictTracker D → PyResult (Unit {0}) × DictManager D
  insert g segment_index value = elim (g.trackers segment_index) [
    | some _ ↦ (raise value_error "Segment index already exists", g)
    | none ↦ (success tt, set_tracker g segment_index value)
  ]

module _ {D : Type 0} (F : Felt252) (texts : KeyDisplay) where
  -- `__getitem__`, `__setitem__` and `update` of the preimages
  unfoldable pub get_preimage : DictManager D → PyMaybeRelocatable → PyResult PyDictKey
  get_preimage g key = elim (g.preimages (to_maybe_relocatable F key)) [
    | some preimage ↦ success (from_dict_key preimage)
    | none ↦ raise key_error ("key " ++ texts.debug_maybe key ++ " not found")
  ]

  unfoldable pub put_preimage : DictManager D → PyMaybeRelocatable → PyDictKey → DictManager D
  put_preimage g key value = set_preimage g (to_maybe_relocatable F key) (to_dict_key F value)

  -- The Python dictionary is the list of its entries, in the order in which they are yielded.
  unfoldable pub update : DictManager D → List (PyMaybeRelocatable × PyDictKey) → DictManager D
  unfolding put_preimage
  update g [] = g
  update g ((key, value) ∷ rest) = update (put_preimage g key value) rest

  -- the setter of `preimages`
  unfoldable pub set_preimages :
      DictManager D → List (PyMaybeRelocatable × PyDictKey) → DictManager D
  unfolding update
  set_preimages g value = update (record g { preimages = λ h. none }) value

module _ {S D : Type 0} (F : Felt252) (dicts : Dicts S D) (d : Display) where
  unfoldable pub get_value :
      DictManager D → ℤ → PyDictKey → PyResult PyMaybeRelocatable × DictManager D
  get_value g segment_index key = elim (g.trackers segment_index) [
    | none ↦ (raise value_error "Segment index not found", g)
    | some tracker ↦
        let (result, dict') = dicts.get_value tracker.dict (to_dict_key F key) in
        (
          from_value (from_library d value_error result),
          set_tracker g segment_index (record tracker { dict = dict' }),
        )
  ]

  unfoldable pub get_default_value : KeyDisplay → DictManager D → ℤ → PyResult PyMaybeRelocatable
  get_default_value texts g segment_index = elim (g.trackers segment_index) [
    | none ↦ panicked
    | some tracker ↦ elim (dicts.default_value tracker.dict) [
      | some v ↦ success (from_maybe_relocatable v)
      | none ↦
          raise value_error
            ("Default value not found for segment index " ++ texts.segment_index segment_index)
    ]
  ]

  abbrev to_entry : PyDictKey × PyMaybeRelocatable → DictKey × Value
  to_entry (k, v) = (to_dict_key F k, to_maybe_relocatable F v)

  -- a new tracker from Python, and its data for Python
  unfoldable pub new_tracker :
      List (PyDictKey × PyMaybeRelocatable)
      → Relocatable
      → Option PyMaybeRelocatable
      → DictTracker D
  new_tracker entries current_ptr none = record {
    current_ptr = current_ptr;
    dict = dicts.simple_dict (map to_entry entries);
  }
  new_tracker entries current_ptr (some default_value) = record {
    current_ptr = current_ptr;
    dict = dicts.default_dict (to_maybe_relocatable F default_value) (map to_entry entries);
  }

  unfoldable pub tracker_entries : DictTracker D → List (PyDictKey × PyMaybeRelocatable)
  tracker_entries tracker =
      map (λ entry. (from_dict_key entry.0, from_maybe_relocatable entry.1))
        (dicts.entries tracker.dict)
