-- ===== src/Hints/Invariant/Hashed.antt =====
-- The hints on hashed dictionaries keep the invariant.
use Prim.Native.String.{◌++◌ as append}
use keth.Prelude.{
  pure, length, custom_hint, unknown_memory_cell, ℕ, String, Relocatable, ok, ok_or, map_err,
  felt_to_usize, reads, ◌>>=◌, ◌>>◌, Action, List,
}
use keth.Machine.{Felt252, Machine, Value, int, relocatable}
use keth.Dicts.{compound, simple, DictKey, Dicts, World, in_vm, set_tracker, set_preimage}
use keth.Hints.HashDict.{
  insert_cells, read_cells, list_keys, write_keys, get_preimage_for_key, hashdict_read,
  hashdict_write, hashdict_read_from_key, copy_hashdict_tracker_entry, pointer_and_len, advance,
  build_compound_key, compute_hash_key, get_preimage_for_hashed_key,
}
use keth.Hints.Invariant.{
  IsPlaced, Keeps, IsPlaced-set_tracker, Keeps-in_vm, Keeps-lift, Keeps-bind,
  Keeps-set_dict_manager, Keeps-vm, Keeps-result, Keeps-manager, Keeps-tracker, Keeps-store,
}

module _ {S Ids D : Type 0} (F : Felt252) (m : Machine S Ids) (dicts : Dicts S D) (ids : Ids) where
  -- Reading a pointer and a length first.
  pub Keeps-pointer_and_len :
      {B : Type 0} (name len_name : String) (f : Relocatable × ℕ → Action (World S D) B)
      → ((key : Relocatable × ℕ) → Keeps (λ _. Unit {0}) (f key))
      → Keeps (λ _. Unit {0}) (pointer_and_len F m dicts ids name len_name >>= f)
  Keeps-pointer_and_len name len_name f rest =
      Keeps-bind (λ _. Unit {0}) _ (pointer_and_len F m dicts ids name len_name) f
        (Keeps-vm (reads (m.get_ptr_from_var_name ids name)) _ λ ptr.
          Keeps-vm (reads (m.get_integer_from_var_name ids len_name)) _ λ len_felt.
            Keeps-result (ok_or (F.try_usize len_felt) (felt_to_usize len_felt)) _
              λ len. Keeps-lift _ (ok (ptr, len)) (λ a _. tt))
        (λ a _. rest a)

  pub hashdict_read-Keeps : Keeps (λ _. Unit {0}) (hashdict_read F m dicts ids)
  unfolding hashdict_read
  hashdict_read-Keeps = Keeps-vm (reads (m.get_ptr_from_var_name ids "dict_ptr")) _ λ dict_ptr.
      Keeps-manager dicts _ λ g placed. Keeps-tracker dicts g dict_ptr _ λ found here.
        let j = dict_ptr.segment_index in
        let tracker = advance dicts.dict_access_size found in
        Keeps-store (set_tracker g j tracker) _ (IsPlaced-set_tracker g j tracker placed here) (
          Keeps-pointer_and_len "key" "key_len" _ λ key.
            Keeps-vm (build_compound_key F m key.0 key.1) _ λ dict_key.
              let read = record tracker { dict = (dicts.get_value tracker.dict dict_key).1 } in
              let updated = set_tracker g j read in
              let updated_placed : IsPlaced updated = IsPlaced-set_tracker g j read placed here in
              Keeps-store updated _ updated_placed (
                Keeps-result (dicts.get_value found.dict dict_key).0 _ λ value.
                  Keeps-vm (m.insert_value_from_var_name ids "value" value) _ λ _.
                    Keeps-result (compute_hash_key dicts.poseidon_hash_many dict_key key.1) _
                      λ hashed_key.
                        Keeps-set_dict_manager (set_preimage updated (int hashed_key) dict_key)
                          updated_placed))

  pub hashdict_write-Keeps : Keeps (λ _. Unit {0}) (hashdict_write F m dicts ids)
  unfolding hashdict_write
  hashdict_write-Keeps = Keeps-vm (reads (m.get_ptr_from_var_name ids "dict_ptr")) _ λ dict_ptr.
      Keeps-manager dicts _ λ g placed. Keeps-tracker dicts g dict_ptr _ λ found here.
        let j = dict_ptr.segment_index in
        let tracker = advance dicts.dict_access_size found in
        Keeps-store (set_tracker g j tracker) _ (IsPlaced-set_tracker g j tracker placed here) (
          Keeps-pointer_and_len "key" "key_len" _ λ key.
            Keeps-vm (build_compound_key F m key.0 key.1) _ λ dict_key.
              Keeps-vm (reads (m.get_maybe_relocatable_from_var_name ids "new_value")) _
                λ new_value. Keeps-result (m.add_usize dict_ptr 1) _ λ prev.
                  let read = record tracker { dict = (dicts.get_value tracker.dict dict_key).1 } in
                  Keeps-store (set_tracker g j read) _ (IsPlaced-set_tracker g j read placed here) (
                    Keeps-result (dicts.get_value found.dict dict_key).0 _ λ value.
                      Keeps-vm
                        (λ vm. (
                          map_err (m.insert_value prev value vm).0 (unknown_memory_cell prev),
                          (m.insert_value prev value vm).1,
                        ))
                        _
                        λ _.
                          let written = record tracker {
                            dict = dicts.insert_value read.dict dict_key new_value;
                          } in
                          let updated = set_tracker g j written in
                          let updated_placed : IsPlaced updated =
                            IsPlaced-set_tracker g j written placed here in
                          Keeps-store updated _ updated_placed (
                            Keeps-result (compute_hash_key dicts.poseidon_hash_many dict_key key.1)
                              _
                              λ hashed_key.
                                Keeps-set_dict_manager
                                  (set_preimage updated (int hashed_key) dict_key) updated_placed)))

  pub hashdict_read_from_key-Keeps : Keeps (λ _. Unit {0}) (hashdict_read_from_key F m dicts ids)
  unfolding hashdict_read_from_key
  hashdict_read_from_key-Keeps =
      Keeps-vm (reads (m.get_integer_from_var_name ids "key")) _ λ hashed_key.
        Keeps-vm (reads (m.get_ptr_from_var_name ids "dict_ptr_stop")) _ λ dict_ptr.
          Keeps-manager dicts _ λ g placed. Keeps-tracker dicts g dict_ptr _ λ found here.
            let key : DictKey =
              elim (get_preimage_for_hashed_key dicts (int hashed_key) g.preimages)
                as (λ _. DictKey) [ ok key ↦ key | _ ↦ simple (int hashed_key) ] in
            let read = record found { dict = (dicts.get_value found.dict key).1 } in
            Keeps-store (set_tracker g dict_ptr.segment_index read) _
              (IsPlaced-set_tracker g dict_ptr.segment_index read placed here)
              (Keeps-result
                (map_err (dicts.get_value found.dict key).0
                  (custom_hint (append "No value found for preimage " (dicts.display_key key))))
                _ λ value. Keeps-in_vm (m.insert_value_from_var_name ids "value" value))

  pub copy_hashdict_tracker_entry-Keeps :
      Keeps (λ _. Unit {0}) (copy_hashdict_tracker_entry F m dicts ids)
  unfolding copy_hashdict_tracker_entry
  copy_hashdict_tracker_entry-Keeps =
      Keeps-vm (reads (m.get_ptr_from_var_name ids "source_ptr_stop")) _ λ p.
        Keeps-vm (reads (m.get_ptr_from_var_name ids "dest_ptr")) _ λ q.
          Keeps-manager dicts _ λ g placed. Keeps-tracker dicts g p _ λ source here.
            Keeps-vm (reads (m.get_integer_from_var_name ids "source_key")) _ λ h.
              Keeps-result (get_preimage_for_hashed_key dicts (int h) g.preimages) _ λ key.
                let read = record source { dict = (dicts.get_value source.dict key).1 } in
                let updated = set_tracker g p.segment_index read in
                let updated_placed : IsPlaced updated =
                  IsPlaced-set_tracker g p.segment_index read placed here in
                Keeps-store updated _ updated_placed (
                  Keeps-result
                    (map_err (dicts.get_value source.dict key).0
                      (custom_hint (append "No value found for preimage " (dicts.display_key key))))
                    _
                    λ value. Keeps-tracker dicts updated q _ λ found there.
                      let dest = advance dicts.dict_access_size found in
                      let filled = record dest { dict = dicts.insert_value dest.dict key value } in
                      Keeps-set_dict_manager (set_tracker updated q.segment_index filled)
                        (IsPlaced-set_tracker updated q.segment_index filled updated_placed there))

  pub get_preimage_for_key-Keeps : Keeps (λ _. Unit {0}) (get_preimage_for_key F m dicts ids)
  unfolding get_preimage_for_key
  get_preimage_for_key-Keeps =
      Keeps-vm (reads (m.get_integer_from_var_name ids "key")) _ λ hashed_key.
        Keeps-manager dicts _ λ g placed.
          Keeps-result (get_preimage_for_hashed_key dicts (int hashed_key) g.preimages) _ λ key.
            Keeps-vm (reads (m.get_ptr_from_var_name ids "preimage_data")) _ λ data_ptr.
              elim key
                as (λ k.
                  Keeps (λ _. Unit {0})
                    (elim k as (λ _. Action (World S D) (Unit {0})) [
                      | simple _ ↦ pure tt
                      | compound values ↦
                          in_vm (insert_cells F m data_ptr 0 values)
                          >> in_vm (
                              m.insert_value_from_var_name ids "preimage_len"
                                (int (F.from (length values))))
                    ])) [
                      | simple _ ↦ Keeps-lift _ (ok tt) (λ a _. tt)
                      | compound values ↦ Keeps-vm (insert_cells F m data_ptr 0 values) _ λ _.
                          Keeps-in_vm (
                            m.insert_value_from_var_name ids "preimage_len"
                              (int (F.from (length values))))
                    ]

  pub list_keys-Keeps :
      (select : List Value → List (DictKey × Value) → List (List Value))
      → Keeps (λ _. Unit {0}) (list_keys F m dicts ids select)
  unfolding list_keys
  list_keys-Keeps select = Keeps-vm (reads (m.get_ptr_from_var_name ids "dict_ptr")) _ λ dict_ptr.
      Keeps-manager dicts _ λ g placed. Keeps-tracker dicts g dict_ptr _ λ found here.
        Keeps-pointer_and_len "prefix" "prefix_len" _ λ prefix_ptr.
          Keeps-vm (read_cells F m prefix_ptr.0 0 prefix_ptr.1) _ λ prefix.
            let matching = select prefix (dicts.entries found.dict) in
            Keeps-vm (λ vm. (ok (m.add_memory_segment vm).0, (m.add_memory_segment vm).1)) _
              λ base. Keeps-vm (write_keys F m dicts ids base 0 matching) _ λ _.
                Keeps-vm
                  (m.insert_value_from_var_name ids "keys_len" (int (F.from (length matching)))) _
                  λ _. Keeps-in_vm (m.insert_value_from_var_name ids "keys" (relocatable base))
