-- ===== src/Tests/Trackers.antt =====
-- The theorems on trackers of dictionaries, and on sequences in memory, at concrete states.
use keth.Prelude.{
  ℕ, pos, int_eq, List, [], ◌∷◌, ◌≡◌, refl, arith, some, none, ok, Relocatable, if◌then◌else◌,
}
use keth.Machine.{int, relocatable}
use keth.Dicts.{DictKey, compound, DictManager, DictTracker, World, set_tracker, set_preimage, find}
use keth.Dicts.Lookup.{lookup}
use keth.HintUtils.Sequence.{serialize_sequence, deserialize_sequence}
use keth.HintUtils.Uint384
use keth.HintUtils.Uint384.{Uint384}
use keth.HintUtils.Memory.{serialize_sequence-deserialize_sequence}
use keth.Hints.Dict.{merge_dict_tracker_with_parent}
use keth.Hints.Dict.Merge.{or_else, merge_dict_tracker_with_parent_lem}
use keth.Hints.Ethereum.{bytes_of}
use keth.Hints.Utils.Jumpdest.{initialize_jumpdests}
use keth.Hints.Utils.Jumpdest.Scan.{IsJumpdest}
use keth.Hints.Utils.Jumpdest.Init.{position_key, initialize_jumpdests_lem}
use keth.Tests.Library.{felts, machine, Vm, Variables, at, vm_insert}
use keth.Tests.Store.{Store, dict_lib}
use keth.Tests.Cells.{cells_of}

abbrev variables : Variables
variables =
    ("dict_ptr", at 1 0)
    ∷ ("parent_dict_end", at 1 1)
    ∷ ("current_tracker_ptr", at 1 0)
    ∷ ("new_tracker_ptr", at 1 2)
    ∷ ("far", at 1 3)
    ∷ ("new_dict_ptr", at 1 4)
    ∷ ("bytecode", at 1 5)
    ∷ ("x", at 1 6)
    ∷ ("d0", at 1 7)
    ∷ ("d1", at 1 8)
    ∷ ("d2", at 1 9)
    ∷ []

-- The child's pointer, the parent's pointer, and a pointer further on in the child's segment.
abbrev vm_of : Relocatable → Vm
vm_of moved = record {
  cells = cells_of (
      (at 1 0, relocatable (at 5 6))
      ∷ (at 1 1, relocatable (at 6 3))
      ∷ (at 1 2, relocatable moved)
      ∷ (at 1 5, relocatable (at 2 0))
      ∷ (at 1 6, int 1000)
      ∷ (at 2 0, relocatable (at 3 0))
      ∷ (at 2 1, int 2)
      ∷ (at 3 0, int 0x5b)
      ∷ (at 3 1, int 0)
      ∷ []);
  next_segment = 8;
  ap_register = at 0 0;
  fp_register = at 0 0;
}

abbrev vm : Vm
vm = vm_of (at 5 9)

abbrev key : ℕ → DictKey
key n = compound (int n ∷ [])

abbrev child : DictTracker Store
child = record {
  current_ptr = at 5 6;
  dict = record { items = (key 1, int 10) ∷ (key 2, int 20) ∷ []; fallback = none };
}

abbrev parent : DictTracker Store
parent = record {
  current_ptr = at 6 3;
  dict = record { items = (key 2, int 2) ∷ []; fallback = some (int 0) };
}

abbrev manager : DictManager Store
manager = record {
  trackers =
      λ j. if int_eq (pos 5) j then some child else if int_eq (pos 6) j then some parent else none;
  preimages = λ h. none;
}

abbrev world_of : Relocatable → World Vm Store
world_of moved = record { vm = vm_of moved; dict_manager = some manager }

merge_dict_tracker_with_parent_lem_example :
    (dict : Store) × (merge_dict_tracker_with_parent machine dict_lib variables (world_of (at 5 9))
      ≡ (
        ok tt,
        record (world_of (at 5 9)) {
          dict_manager = some (set_tracker manager (pos 6) (record parent { dict = dict }));
        },
      ))
    × ((k : DictKey)
        → lookup dict_lib dict k
          ≡ or_else (find k child.dict.items) (lookup dict_lib parent.dict k))
merge_dict_tracker_with_parent_lem_example =
    merge_dict_tracker_with_parent_lem machine dict_lib variables (world_of (at 5 9)) manager
      (at 5 6) (at 6 3) child parent refl refl refl refl refl refl refl (refl, (refl, tt))

abbrev vm_copied : Vm
vm_copied = record vm { next_segment = 9 }

abbrev manager_copied : DictManager Store
manager_copied = set_tracker manager (pos 8) (record { current_ptr = at 8 0; dict = parent.dict })

abbrev bytecode : List ℕ
bytecode = 0x5b ∷ 0 ∷ []

-- The memory after two numbers were written; and a variable that points at them.
abbrev vm_stored : Vm
vm_stored =
    (deserialize_sequence felts machine variables bytecode
      (record vm { cells = cells_of ((at 1 0, relocatable (at 8 0)) ∷ []) })).1

stored :
    deserialize_sequence felts machine variables bytecode
      (record vm { cells = cells_of ((at 1 0, relocatable (at 8 0)) ∷ []) })
    ≡ (ok (at 8 0), vm_stored)
unfolding deserialize_sequence
stored = refl

points : machine.get_ptr_from_var_name variables "dict_ptr" vm_stored ≡ ok (at 8 0)
unfolding deserialize_sequence
points = refl

serialize_sequence-deserialize_sequence_example :
    serialize_sequence felts machine variables "dict_ptr" vm_stored ≡ (ok bytecode, vm_stored)
serialize_sequence-deserialize_sequence_example =
    serialize_sequence-deserialize_sequence machine felts variables variables "dict_ptr" bytecode
      (record vm { cells = cells_of ((at 1 0, relocatable (at 8 0)) ∷ []) }) vm_stored (at 8 0)
      (omega arith, (omega arith, tt)) (omega arith) stored points

bytecode_read : serialize_sequence felts machine variables "bytecode" vm ≡ (ok bytecode, vm)
unfolding serialize_sequence keth.HintUtils.Sequence.read_integers
bytecode_read = refl

bytes_read : bytes_of felts bytecode ≡ ok bytecode
unfolding bytes_of
bytes_read = refl

abbrev vm_jumpdests : Vm
vm_jumpdests = (vm_insert (at 0 0) (relocatable (at 8 0)) vm_copied).1

initialize_jumpdests_lem_example :
    (dict : Store) × (initialize_jumpdests felts machine dict_lib variables (world_of (at 5 9)) ≡ (
      ok tt,
      record {
        vm = vm_jumpdests;
        dict_manager =
            some (set_tracker manager (pos 8) (record { current_ptr = at 8 0; dict = dict }));
      },
    ))
    × ((p : ℕ) → IsJumpdest bytecode p → lookup dict_lib dict (position_key p) ≡ some (int 1))
    × ((p : ℕ) → ¬ IsJumpdest bytecode p → lookup dict_lib dict (position_key p) ≡ some (int 0))
initialize_jumpdests_lem_example =
    initialize_jumpdests_lem felts machine dict_lib variables (world_of (at 5 9)) manager bytecode
      bytecode (at 8 0) vm_copied vm_jumpdests bytecode_read bytes_read (omega arith) refl refl refl
      refl

abbrev copy_variables : Variables
copy_variables = ("source_ptr_stop", at 1 0) ∷ ("dest_ptr", at 1 1) ∷ ("source_key", at 3 1) ∷ []

abbrev hashed_manager : DictManager Store
hashed_manager = set_preimage manager (int 0) (key 1)

abbrev hashed_world : World Vm Store
hashed_world = record { vm = vm; dict_manager = some hashed_manager }

abbrev number : Uint384
number = record { limbs = 1 ∷ 2 ∷ 3 ∷ 4 ∷ [] }

abbrev number_variables : Variables
number_variables = ("number", at 4 0) ∷ []

abbrev vm_number : Vm
vm_number = (Uint384.insert_from_var_name machine number_variables number "number" vm).1

number_written :
    Uint384.insert_from_var_name machine number_variables number "number" vm ≡ (ok tt, vm_number)
unfolding Uint384.insert_from_var_name
number_written = refl
