-- ===== src/Hints/Dict.antt =====
-- hint_definitions/dict.rs: creating, copying, merging and moving the trackers of dictionaries.
pub mod Merge
use keth.Prelude.{
  ℕ, List, [], ◌∷◌, Option, some, none, Relocatable, Result, ok, err, panic, Action, lift, pure,
  reads, ◌>>=◌, ◌>>◌,
}
use keth.Machine.{Machine, Value, int, relocatable}
use keth.Dicts.{
  Dicts, DictKey, DictManager, DictTracker, World, in_vm, get_dict_manager, set_dict_manager,
  set_tracker,
}

module _ {S D : Type 0} (dicts : Dicts S D) where
  -- `dict_manager.new_dict(vm, data)?` on the manager and the machine of the world
  abbrev pub new_dict : List (DictKey × Value) → Action (World S D) Relocatable
  new_dict entries w = elim w.dict_manager [
    | none ↦ (err dicts.get_dict_manager_error, w)
    | some g ↦
        let (r, vm', g') = dicts.new_dict w.vm g entries in
        (r, record { vm = vm'; dict_manager = some g' })
  ]

  abbrev pub new_default_dict : Value → List (DictKey × Value) → Action (World S D) Relocatable
  new_default_dict default entries w = elim w.dict_manager [
    | none ↦ (err dicts.get_dict_manager_error, w)
    | some g ↦
        let (r, vm', g') = dicts.new_default_dict w.vm g default entries in
        (r, record { vm = vm'; dict_manager = some g' })
  ]

  -- the loop of `merge_dict_tracker_with_parent` over the copied entries
  unfoldable pub insert_entries : List (DictKey × Value) → D → D
  insert_entries [] parent = parent
  insert_entries ((key, value) ∷ rest) parent =
      insert_entries rest (dicts.insert_value parent key value)

module _ {S Ids D : Type 0} (m : Machine S Ids) (dicts : Dicts S D) (ids : Ids) where
  unfoldable pub dict_new_empty : Action (World S D) (Unit {0})
  dict_new_empty = do base ← new_dict dicts []; in_vm (m.insert_value_into_ap (relocatable base))

  unfoldable pub dict_squash : Action (World S D) (Unit {0})
  dict_squash = do
    dict_accesses_end ← in_vm (reads (m.get_ptr_from_var_name ids "dict_accesses_end"))
    dict_manager ← get_dict_manager dicts
    tracker ← lift (dicts.get_tracker dict_manager dict_accesses_end)
    base ← new_dict dicts (dicts.entries tracker.dict)
    in_vm (m.insert_value_into_ap (relocatable base))

  -- The two arms of the `match` on the default value.
  unfoldable pub copy_dict : Option Value → List (DictKey × Value) → Action (World S D) (Unit {0})
  copy_dict (some default) copied_data = do
    new_dict_ptr ← new_default_dict dicts default copied_data
    in_vm (m.insert_value_from_var_name ids "new_dict_ptr" (relocatable new_dict_ptr))
  copy_dict none copied_data = do
    new_dict_ptr ← new_dict dicts copied_data
    in_vm (m.insert_value_from_var_name ids "new_dict_ptr" (relocatable new_dict_ptr))

  unfoldable pub copy_tracker_to_new_ptr : Action (World S D) (Unit {0})
  unfolding copy_dict
  copy_tracker_to_new_ptr = do
    original_dict_ptr ← in_vm (reads (m.get_ptr_from_var_name ids "parent_dict_end"))
    dict_manager ← get_dict_manager dicts
    tracker ← lift (dicts.get_tracker dict_manager original_dict_ptr)
    copy_dict (dicts.default_value tracker.dict) (dicts.entries tracker.dict)

  unfoldable pub merge_dict_tracker_with_parent : Action (World S D) (Unit {0})
  unfolding insert_entries
  merge_dict_tracker_with_parent = do
    dict_ptr ← in_vm (reads (m.get_ptr_from_var_name ids "dict_ptr"))
    parent_dict_end ← in_vm (reads (m.get_ptr_from_var_name ids "parent_dict_end"))
    dict_manager ← get_dict_manager dicts
    tracker ← lift (dicts.get_tracker dict_manager dict_ptr)
    parent_tracker ← lift (dicts.get_tracker dict_manager parent_dict_end)
    let merged = insert_entries dicts (dicts.entries tracker.dict) parent_tracker.dict
    set_dict_manager (
        set_tracker dict_manager parent_dict_end.segment_index
          (record parent_tracker { dict = merged }))

  unfoldable pub update_dict_tracker : Action (World S D) (Unit {0})
  update_dict_tracker = do
    current_tracker_ptr ← in_vm (reads (m.get_ptr_from_var_name ids "current_tracker_ptr"))
    new_tracker_ptr ← in_vm (reads (m.get_ptr_from_var_name ids "new_tracker_ptr"))
    dict_manager ← get_dict_manager dicts
    tracker ← lift (dicts.get_tracker dict_manager current_tracker_ptr)
    set_dict_manager (
        set_tracker dict_manager current_tracker_ptr.segment_index
          (record tracker { current_ptr = new_tracker_ptr }))
