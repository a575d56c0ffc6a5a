-- ===== src/Hints/Invariant/Reach.antt =====
-- Every state that a run reaches by the program's own steps and by the hints on dictionaries.
use keth.Prelude.{
  ℤ, ◌≡◌, refl, sym, arith, Relocatable, Result, ok, err, panic, custom_hint, reads, ◌>>=◌, ◌>>◌,
  lift, Action, map, some, none,
}
use mathlib.Core.Path.{subst}
use keth.Machine.{Felt252, Machine, int, relocatable}
use keth.Dicts.{
  Dicts, DictManager, DictTracker, World, in_vm, get_dict_manager, set_dict_manager, set_tracker,
}
use keth.HintUtils.Sequence.{serialize_sequence}
use keth.Hints.Ethereum.{bytes_of}
use keth.Hints.Dict.{
  dict_new_empty, dict_squash, copy_tracker_to_new_ptr, merge_dict_tracker_with_parent,
  update_dict_tracker,
}
use keth.Hints.HashDict.{
  hashdict_read, hashdict_write, hashdict_read_from_key, copy_hashdict_tracker_entry,
  get_preimage_for_key, get_keys_for_address_prefix, get_storage_keys_for_address,
  matching_preimages, storage_preimages,
}
use keth.Hints.Utils.Jumpdest.{initialize_jumpdests, jumpdest_entry, get_valid_jump_destinations}
use keth.Hints.Invariant.{
  IsConsistent, Keeps, IsPlaced-set_tracker, Keeps-in_vm, Keeps-lift, Keeps-vm, Keeps-manager,
  Keeps-store, Keeps-tracker, Keeps-set_dict_manager,
}
use keth.Hints.Invariant.Hashed.{
  hashdict_read-Keeps, hashdict_write-Keeps, hashdict_read_from_key-Keeps,
  copy_hashdict_tracker_entry-Keeps, get_preimage_for_key-Keeps, list_keys-Keeps,
}
use keth.Hints.Invariant.Trackers.{
  dict_new_empty-Keeps, dict_squash-Keeps, copy_tracker_to_new_ptr-Keeps,
  merge_dict_tracker_with_parent-Keeps,
}

module _ {S Ids D : Type 0} (F : Felt252) (m : Machine S Ids) (dicts : Dicts S D) where
  initialize_jumpdests-Keeps :
      (ids : Ids) → Keeps (λ _. Unit {0}) (initialize_jumpdests F m dicts ids)
  unfolding initialize_jumpdests
  initialize_jumpdests-Keeps ids = Keeps-vm (serialize_sequence F m ids "bytecode") _ λ values.
      Keeps-vm (lift (bytes_of F values)) _ λ bytecode.
        let entries = map (jumpdest_entry F) (get_valid_jump_destinations bytecode) in
        Keeps-vm (λ vm. (ok (m.add_memory_segment vm).0, (m.add_memory_segment vm).1)) _
          λ base. Keeps-manager dicts _ λ g placed.
            let tracker : DictTracker D = record {
              current_ptr = base;
              dict = dicts.default_dict (int 0) entries;
            } in
            let updated = set_tracker g base.segment_index tracker in
            elim (g.trackers base.segment_index)
              as (λ o.
                Keeps (λ _. Unit {0})
                  (elim o as (λ _. Action (World S D) (Unit {0})) [
                    | some _ ↦
                        lift (err (custom_hint "Segment already exists in dict_manager.trackers"))
                    | none ↦
                        set_dict_manager updated
                        >> in_vm (m.insert_value_into_ap (relocatable base))
                  ])) [
                    | some t ↦
                        Keeps-lift _
                          (err (custom_hint "Segment already exists in dict_manager.trackers"))
                          (λ a _. tt)
                    | none ↦
                        Keeps-store updated _
                          (IsPlaced-set_tracker g base.segment_index tracker placed refl)
                          (Keeps-in_vm (m.insert_value_into_ap (relocatable base)))
                  ]

  -- The hints on dictionaries but `update_dict_tracker`.
  pub data IsDictHint : Action (World S D) (Unit {0}) → Type 0 where
    read : (ids : Ids) → IsDictHint (hashdict_read F m dicts ids)
    write : (ids : Ids) → IsDictHint (hashdict_write F m dicts ids)
    read_from_key : (ids : Ids) → IsDictHint (hashdict_read_from_key F m dicts ids)
    copy_entry : (ids : Ids) → IsDictHint (copy_hashdict_tracker_entry F m dicts ids)
    preimage : (ids : Ids) → IsDictHint (get_preimage_for_key F m dicts ids)
    prefix_keys : (ids : Ids) → IsDictHint (get_keys_for_address_prefix F m dicts ids)
    storage_keys : (ids : Ids) → IsDictHint (get_storage_keys_for_address F m dicts ids)
    new_empty : (ids : Ids) → IsDictHint (dict_new_empty m dicts ids)
    squash : (ids : Ids) → IsDictHint (dict_squash m dicts ids)
    copy : (ids : Ids) → IsDictHint (copy_tracker_to_new_ptr m dicts ids)
    merge : (ids : Ids) → IsDictHint (merge_dict_tracker_with_parent m dicts ids)
    jumpdests : (ids : Ids) → IsDictHint (initialize_jumpdests F m dicts ids)

  IsDictHint-Keeps : {h : Action (World S D) (Unit {0})} → IsDictHint h → Keeps (λ _. Unit {0}) h
  unfolding get_keys_for_address_prefix get_storage_keys_for_address
  IsDictHint-Keeps (read ids) = hashdict_read-Keeps F m dicts ids
  IsDictHint-Keeps (write ids) = hashdict_write-Keeps F m dicts ids
  IsDictHint-Keeps (read_from_key ids) = hashdict_read_from_key-Keeps F m dicts ids
  IsDictHint-Keeps (copy_entry ids) = copy_hashdict_tracker_entry-Keeps F m dicts ids
  IsDictHint-Keeps (preimage ids) = get_preimage_for_key-Keeps F m dicts ids
  IsDictHint-Keeps (prefix_keys ids) = list_keys-Keeps F m dicts ids matching_preimages
  IsDictHint-Keeps (storage_keys ids) = list_keys-Keeps F m dicts ids storage_preimages
  IsDictHint-Keeps (new_empty ids) = dict_new_empty-Keeps m dicts ids
  IsDictHint-Keeps (squash ids) = dict_squash-Keeps m dicts ids
  IsDictHint-Keeps (copy ids) = copy_tracker_to_new_ptr-Keeps m dicts ids
  IsDictHint-Keeps (merge ids) = merge_dict_tracker_with_parent-Keeps m dicts ids
  IsDictHint-Keeps (jumpdests ids) = initialize_jumpdests-Keeps ids

  -- The pointer to which `update_dict_tracker` moves a tracker is in the segment of the old one.
  abbrev pub MovesInSegment : Ids → S → Type 0
  MovesInSegment ids vm =
      (p q : Relocatable)
      → m.get_ptr_from_var_name ids "current_tracker_ptr" vm ≡ ok p
      → m.get_ptr_from_var_name ids "new_tracker_ptr" vm ≡ ok q
      → q.segment_index ≡ p.segment_index

  -- One step of a run: of the machine, which does not touch the dictionaries, or of a hint,
  -- whether the hint succeeds or fails.
  pub data Step (w w' : World S D) : Type 0 where
    run : (vm' : S) → w' ≡ record w { vm = vm' } → Step w w'
    hint : (h : Action (World S D) (Unit {0})) → IsDictHint h → w' ≡ (h w).1 → Step w w'
    move :
        (ids : Ids)
        → MovesInSegment ids w.vm
        → w' ≡ (update_dict_tracker m dicts ids w).1
        → Step w w'

  pub data Reach (w : World S D) : World S D → Type 0 where
    here : Reach w w
    next : {u v : World S D} → Reach w u → Step u v → Reach w v

  after_read :
      {A : Type 0} (r : Result A) (f : A → Action (World S D) (Unit {0})) (w : World S D)
      → IsConsistent w
      → ((a : A) → r ≡ ok a → IsConsistent (f a w).1)
      → IsConsistent ((lift r >>= f) w).1
  after_read (ok a) f w h k = k a refl
  after_read (err e) f w h k = h
  after_read panic f w h k = h

  -- What `update_dict_tracker` does with the two pointers.
  abbrev move_tracker : Relocatable → Relocatable → Action (World S D) (Unit {0})
  move_tracker p q = do
    dict_manager ← get_dict_manager dicts
    tracker ← lift (dicts.get_tracker dict_manager p)
    set_dict_manager (set_tracker dict_manager p.segment_index (record tracker { current_ptr = q }))

  move_tracker-Keeps :
      (p q : Relocatable)
      → q.segment_index ≡ p.segment_index
      → Keeps (λ _. Unit {0}) (move_tracker p q)
  move_tracker-Keeps p q same = Keeps-manager dicts _ λ g placed. Keeps-tracker dicts g p _ λ t at.
      let moved : DictTracker D = record t { current_ptr = q } in
      Keeps-set_dict_manager (set_tracker g p.segment_index moved)
        (IsPlaced-set_tracker g p.segment_index moved placed same)

  update_dict_tracker-IsConsistent :
      (ids : Ids) (w : World S D)
      → MovesInSegment ids w.vm
      → IsConsistent w
      → IsConsistent (update_dict_tracker m dicts ids w).1
  unfolding update_dict_tracker
  update_dict_tracker-IsConsistent ids w moves h =
      after_read (m.get_ptr_from_var_name ids "current_tracker_ptr" w.vm)
        (λ p. in_vm (reads (m.get_ptr_from_var_name ids "new_tracker_ptr")) >>= move_tracker p) w h
        λ p at_p.
          after_read (m.get_ptr_from_var_name ids "new_tracker_ptr" w.vm) (move_tracker p) w h
            λ q at_q. (move_tracker-Keeps p q (moves p q at_p at_q)).state w h

  Step-IsConsistent : {w w' : World S D} → Step w w' → IsConsistent w → IsConsistent w'
  Step-IsConsistent (run vm' e) h = rw e h
  Step-IsConsistent {w} (hint k is e) h = rw e ((IsDictHint-Keeps is).state w h)
  Step-IsConsistent {w} (move ids moves e) h = rw e (update_dict_tracker-IsConsistent ids w moves h)

  Reach-IsConsistent : {w w' : World S D} → IsConsistent w → Reach w w' → IsConsistent w'
  Reach-IsConsistent h here = h
  Reach-IsConsistent h (next r step) = Step-IsConsistent step (Reach-IsConsistent h r)

  -- On every run from a manager without trackers, by steps of the machine, by the hints on
  -- dictionaries, whether they succeed or fail, and by moves of a tracker within its segment: each
  -- tracker stands under the segment of its pointer, and is found at its pointer.
  pub reached_trackers_found :
      (w w' : World S D) (g g' : DictManager D) (j : ℤ) (t : DictTracker D)
      → w.dict_manager ≡ some g
      → ((k : ℤ) → g.trackers k ≡ none)
      → Reach w w'
      → w'.dict_manager ≡ some g'
      → g'.trackers j ≡ some t
      → (t.current_ptr.segment_index ≡ j) × (dicts.get_tracker g' t.current_ptr ≡ ok t)
  reached_trackers_found w w' g g' j t manager fresh reach manager' found =
      let start : IsConsistent w = λ h at k u e. absurd (ground (arith, fresh k)) in
      let placed = Reach-IsConsistent start reach g' manager' j t found in
      (
        placed,
        dicts.get_tracker_found g' t.current_ptr t
            (subst (λ k. g'.trackers k ≡ some t) (sym placed) found) refl,
      )
