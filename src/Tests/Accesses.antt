-- ===== src/Tests/Accesses.antt =====
-- The theorems on dictionaries at a concrete program state.
use keth.Prelude.{ℕ, pos, int_eq, List, [], ◌∷◌, ◌≡◌, refl, arith, some, none, ok, if◌then◌else◌}
use keth.Machine.{int, relocatable, Value}
use keth.Dicts.{DictKey, compound, DictManager, DictTracker, World, set_preimage, key_eq}
use keth.Dicts.Lookup.{lookup}
use keth.Hints.HashDict.{
  build_compound_key, compute_hash_key, hashdict_write, hashdict_read_from_key,
}
use keth.Hints.HashDict.Access.{IsAccess, accessed, hashdict_write_lem}
use keth.Hints.HashDict.RoundTrip.{hashdict_read_from_key-hashdict_write}
use keth.Tests.Library.{felts, machine, Vm, Variables, at, vm_insert, vm_insert_variable}
use keth.Tests.Cells.{cells_of}
use keth.Tests.Store.{Store, dict_lib}

abbrev pub variables : Variables
variables =
    ("dict_ptr", at 1 0)
    ∷ ("key", at 1 1)
    ∷ ("key_len", at 1 2)
    ∷ ("new_value", at 1 3)
    ∷ ("value", at 1 4)
    ∷ ("hash", at 1 5)
    ∷ []

-- The key is the one element 7, in segment 2; the dictionary's accesses stand in segment 5.
abbrev pub vm : Vm
vm = record {
  cells = cells_of (
      (at 1 0, relocatable (at 5 6))
      ∷ (at 1 1, relocatable (at 2 0))
      ∷ (at 1 2, int 1)
      ∷ (at 1 3, int 9)
      ∷ (at 2 0, int 7)
      ∷ []);
  next_segment = 8;
  ap_register = at 0 0;
  fp_register = at 0 0;
}

abbrev pub elements : List Value
elements = int 7 ∷ []

abbrev pub tracker : DictTracker Store
tracker = record {
  current_ptr = at 5 6;
  dict = record { items = (compound elements, int 4) ∷ []; fallback = none };
}

abbrev empty_tracker : DictTracker Store
empty_tracker = record { current_ptr = at 5 6; dict = record { items = []; fallback = none } }

abbrev pub manager_of : DictTracker Store → DictManager Store
manager_of t = record {
  trackers = λ j. if int_eq (pos 5) j then some t else none;
  preimages = λ h. none;
}

abbrev pub world_of : DictTracker Store → World Vm Store
world_of t = record { vm = vm; dict_manager = some (manager_of t) }

key_cells : build_compound_key felts machine (at 2 0) 1 vm ≡ (ok (compound elements), vm)
unfolding build_compound_key
key_cells = refl

key_hash : compute_hash_key dict_lib.poseidon_hash_many (compound elements) 1 ≡ ok 7
unfolding compute_hash_key
key_hash = refl

pub example_IsAccess :
    (t : DictTracker Store)
    → t.current_ptr ≡ at 5 6
    → IsAccess felts machine dict_lib variables (world_of t) (manager_of t) (at 5 6) t elements 7
example_IsAccess t pointer = record {
  key_ptr = at 2 0;
  key_len = 1;
  manager = refl;
  pointer = refl;
  tracker = refl;
  at_pointer = pointer;
  key = refl;
  len = refl;
  in_range = omega arith;
  cells = key_cells;
  hash = key_hash;
}

-- The memory after the value was written to its variable.
abbrev vm_read : Vm
vm_read = (vm_insert_variable variables "value" (int 4) vm).1

abbrev pub vm_written : Vm
vm_written = (vm_insert (at 5 7) (int 4) vm).1

hashdict_write_lem_example :
    (dict : Store) × (hashdict_write felts machine dict_lib variables (world_of tracker) ≡ (
      ok tt,
      record {
        vm = vm_written;
        dict_manager = some (
            accessed felts machine dict_lib variables
              (manager_of tracker)
              (at 5 6)
              tracker
              dict
              elements
              7);
      },
    ))
    × ((j : DictKey)
        → lookup dict_lib dict j
          ≡ (if key_eq (compound elements) j then some (int 9) else lookup dict_lib tracker.dict j))
hashdict_write_lem_example =
    hashdict_write_lem felts machine dict_lib variables (world_of tracker) (manager_of tracker)
      (at 5 6) tracker elements 7 (example_IsAccess tracker refl) (int 9) (int 4) (at 5 7)
      vm_written refl refl refl refl

-- The read by hash: other variables, in a machine that has gone on.
abbrev later_variables : Variables
later_variables = ("key", at 3 0) ∷ ("dict_ptr_stop", at 3 1) ∷ ("value", at 3 2) ∷ []

abbrev later_vm : ℕ → Vm
later_vm offset = record vm {
  cells = cells_of ((at 3 0, int 7) ∷ (at 3 1, relocatable (at 5 offset)) ∷ []);
}

abbrev hashed_manager : DictManager Store
hashed_manager = set_preimage (manager_of tracker) (int 7) (compound elements)

abbrev later_world : World Vm Store
later_world = record {
  vm = later_vm 9;
  dict_manager =
      (hashdict_write felts machine dict_lib variables (world_of tracker)).1.dict_manager;
}

hashdict_read_from_key-hashdict_write_example :
    ((hashdict_write felts machine dict_lib variables (world_of tracker)).0 ≡ ok tt)
    × ((hashdict_read_from_key felts machine dict_lib later_variables later_world).0 ≡ ok tt)
    × ((hashdict_read_from_key felts machine dict_lib later_variables later_world).1.vm
        ≡ (vm_insert (at 3 2) (int 9) (later_vm 9)).1)
hashdict_read_from_key-hashdict_write_example =
    hashdict_read_from_key-hashdict_write felts machine dict_lib variables later_variables
      (world_of tracker) later_world (manager_of tracker) (at 5 6) (at 5 7) tracker elements 7
      (int 9) (int 4) vm_written ((vm_insert (at 3 2) (int 9) (later_vm 9)).1)
      (example_IsAccess tracker refl) refl refl refl refl refl refl refl refl
