-- ===== src/Tests/Sharing.antt =====
-- The theorems on the Python dictionary manager, the memory and the hint processor, at concrete
-- inputs.
use keth.Prelude.{
  ℕ, pos, ◌+◌, String, List, [], ◌∷◌, Option, some, none, false, ◌≡◌, refl, arith, ok, err, library,
  unknown_hint, Action,
}
use keth.Machine.{int}
use keth.Dicts.{DictManager, compound}
use keth.Hints.HashDict.{hashdict_write}
use keth.Python.{success}
use keth.Python.Address.{py_usize, from_maybe_relocatable, to_maybe_relocatable}
use keth.Python.Variables.{get}
use keth.Python.Manager.{get_value, get_preimage, from_dict_key, to_dict_key, py_compound}
use keth.Python.Manager.View.{IsRead, get_value-answer}
use keth.Python.Manager.Shared.{get_value-hashdict_write}
use keth.Python.Segments as Memory
use keth.Python.Segments.{get_item-set_item}
use keth.Processor.{Hint, HintFunc, HintProcessorData, HintProcessor, Libraries}
use keth.Tests.Library.{felts, machine, Vm, at, vm_insert}
use keth.Tests.Store.{Store, dict_lib}
use keth.Tests.Accesses.{
  variables, vm, elements, tracker, manager_of, world_of, vm_written, example_IsAccess,
}
use keth.Tests.Ids.{display, texts}

get_value-answer_example :
    IsRead felts dict_lib display
      (manager_of tracker)
      (pos 5)
      (to_dict_key felts (py_compound (py_usize 7 ∷ [])))
      (get_value felts dict_lib display
        (manager_of tracker)
        (pos 5)
        (py_compound (py_usize 7 ∷ [])))
get_value-answer_example =
    get_value-answer felts dict_lib display (manager_of tracker) (pos 5)
      (py_compound (py_usize 7 ∷ []))

get_value-hashdict_write_example :
    (g' : DictManager Store) × ((hashdict_write felts machine dict_lib variables
        (world_of tracker)).1.dict_manager
      ≡ some g')
    × ((get_value felts dict_lib display g' (pos 5) (from_dict_key (compound elements))).0
        ≡ success (from_maybe_relocatable (int 9)))
    × (get_preimage felts texts g' (from_maybe_relocatable (int 7))
        ≡ success (from_dict_key (compound elements)))
get_value-hashdict_write_example =
    get_value-hashdict_write felts machine dict_lib display texts variables (world_of tracker)
      (manager_of tracker) (at 5 6) (at 5 7) tracker elements 7 (int 9) (int 4) vm_written
      (example_IsAccess tracker refl) refl refl refl refl (omega arith) (omega arith)

abbrev after_set : Vm
after_set = (vm_insert (at 6 0) (int 3) vm).1

set_three : Memory.set_item felts machine display (at 6 0) (py_usize 3) vm ≡ (success tt, after_set)
unfolding Memory.set_item to_maybe_relocatable
set_three = refl

-- cairo-vm's processor, with the extra hints alone.
abbrev pub run_builtin :
    {W Ids C : Type 0}
    → List (String × HintFunc W Ids C)
    → Option (HintProcessorData Ids)
    → C
    → Action W (Unit {0})
run_builtin hints none c w = (err (library "wrong hint data"), w)
run_builtin hints (some hint) c w = elim (get hints hint.code) [
  | some func ↦ func hint.ids_data c w
  | none ↦ (err (unknown_hint hint.code), w)
]

pub run_builtin_extra :
    {W Ids C : Type 0} (hints : List (String × HintFunc W Ids C)) (hint : HintProcessorData Ids)
    (c : C) (w : W) (func : HintFunc W Ids C)
    → get hints hint.code ≡ some func
    → run_builtin hints (some hint) c w ≡ func hint.ids_data c w
run_builtin_extra hints hint c w func e = rw (e, run_builtin) refl

-- A processor on a counter, in place of the machine and the scopes.
abbrev pub libraries : Libraries ℕ ℕ ℕ
libraries = record {
  execute_builtin = run_builtin;
  set_hint_code = λ code w. w;
  display_error = λ e. "error";
  execute_builtin_extra = run_builtin_extra;
}

abbrev pub count_hint : Hint ℕ ℕ ℕ
count_hint = record { id = "count"; func = λ ids c w. (ok tt, w + ids) }

abbrev pub stop_hint : Hint ℕ ℕ ℕ
stop_hint = record { id = "stop"; func = λ ids c w. (err (library "stop"), w) }

abbrev empty_processor : HintProcessor ℕ ℕ ℕ ℕ
empty_processor = record {
  extra_hints = [];
  run_resources = 0;
  python_hints = ("count", "ids.n += 1") ∷ [];
  pythonic_hint_executor = none;
  enable_traces = false;
}

abbrev pub count_data : HintProcessorData ℕ
count_data = record { code = "count"; ids_data = 3 }
