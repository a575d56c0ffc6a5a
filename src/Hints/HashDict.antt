-- ===== src/Hints/HashDict.antt =====
-- hint_definitions/hashdict.rs: dictionaries whose keys are sequences of felts. The program sees
-- the hash of a key; the manager keeps the preimage of each hash.
pub mod Access
pub mod RoundTrip
pub mod Listing
pub mod Copy
use Prim.Native.String.{◌++◌ as append}
use keth.Prelude.{
  ℕ, zero, suc, ◌+◌, ◌-◌, ◌%◌, ◌^◌, String, List, [], ◌∷◌, Option, some, none, Bool, true, false,
  ◌&&◌, ◌==◌, not, leb, ltb, if◌then◌else◌, Relocatable, Result, ok, err, panic, Action, lift, pure,
  reads, ◌>>=◌, ◌>>◌, ok_or, map_err, HintError, custom_hint, unknown_memory_cell, felt_to_usize,
  length, take, get_elem?,
}
use keth.Machine.{Felt252, Machine, Value, int, relocatable}
use keth.Dicts.{
  Dicts, DictKey, simple, compound, DictManager, DictTracker, World, in_vm, get_dict_manager,
  set_dict_manager, set_tracker, set_preimage, values_eq,
}

module _ {S Ids : Type 0} (F : Felt252) (m : Machine S Ids) where
  -- The cells in a row, from index `i` on: the loop of `build_compound_key`, and that which builds
  -- a prefix.
  unfoldable pub read_cells : Relocatable → ℕ → ℕ → Action S (List Value)
  read_cells key i zero = pure []
  read_cells key i (suc left) = do
    mem_addr ← lift (m.add_usize key i)
    value ← reads (λ vm. ok_or (m.get_maybe vm mem_addr) (unknown_memory_cell mem_addr))
    rest ← read_cells key (i + 1) left
    pure (value ∷ rest)

  unfoldable pub build_compound_key : Relocatable → ℕ → Action S DictKey
  unfolding read_cells
  build_compound_key key key_len = do values ← read_cells key 0 key_len; pure (compound values)

  -- `preimage[1..]` written from `base` on, and other rows of cells
  unfoldable pub insert_cells : Relocatable → ℕ → List Value → Action S (Unit {0})
  insert_cells base i [] = pure tt
  insert_cells base i (value ∷ values) = do
    addr ← lift (m.add_usize base i)
    m.insert_value addr value
    insert_cells base (i + 1) values

-- `v.get_int().unwrap()`
abbrev pub get_int : Value → Result ℕ
get_int (int x) = ok x
get_int (relocatable _) = panic

unfoldable pub get_ints : List Value → Result (List ℕ)
get_ints [] = ok []
get_ints (v ∷ vs) =
    let rest = get_ints vs in
    elim (get_int v) [ ok x ↦ elim rest [ ok xs ↦ ok (x ∷ xs) | _ ↦ panic ] | _ ↦ panic ]

-- The key's integer, if it has one element; `values[0]` panics on the empty key.
abbrev pub single_int : DictKey → Result ℕ
single_int (compound []) = panic
single_int (compound (v ∷ vs)) = get_int v
single_int (simple v) = get_int v

abbrev pub many_ints : (List ℕ → ℕ) → DictKey → Result ℕ
many_ints hash (compound values) = elim (get_ints values) [ ok ints ↦ ok (hash ints) | _ ↦ panic ]
many_ints hash (simple _) = panic

unfoldable pub compute_hash_key : (List ℕ → ℕ) → DictKey → ℕ → Result ℕ
unfolding get_ints
compute_hash_key poseidon dict_key key_len =
    if not (key_len == 1) then many_ints poseidon dict_key else single_int dict_key

-- The key's elements, if it is compound and begins with the prefix.
unfoldable pub matching_key : List Value → DictKey → Option (List Value)
matching_key prefix (simple _) = none
matching_key prefix (compound values) =
    if leb (length prefix) (length values) && values_eq (take (length prefix) values) prefix
    then some values
    else none

-- The matching keys, in the order of the map's entries.
unfoldable pub matching_preimages : List Value → List (DictKey × Value) → List (List Value)
unfolding matching_key
matching_preimages prefix [] = []
matching_preimages prefix ((key, value) ∷ entries) =
    let rest = matching_preimages prefix entries in
    elim (matching_key prefix key) [ some values ↦ values ∷ rest | none ↦ rest ]

-- Whether a value is the integer zero.
abbrev pub is_zero_int : Value → Bool
is_zero_int (int x) = x == 0
is_zero_int (relocatable _) = false

-- The same for `get_storage_keys_for_address`, which skips the keys whose value is zero.
unfoldable pub storage_preimages : List Value → List (DictKey × Value) → List (List Value)
unfolding matching_key
storage_preimages prefix [] = []
storage_preimages prefix ((key, value) ∷ entries) =
    let rest = storage_preimages prefix entries in
    elim (matching_key prefix key) [
      | some values ↦ if is_zero_int value then rest else values ∷ rest
      | none ↦ rest
    ]

-- `tracker.current_ptr.offset += DICT_ACCESS_SIZE`, which wraps around past the range of `usize`; a
-- build with overflow checks panics there.
abbrev pub advance : {D : Type 0} → ℕ → DictTracker D → DictTracker D
advance size t = record t {
  current_ptr = record (t.current_ptr) { offset = (t.current_ptr.offset + size) % 2 ^ 64 };
}

-- `_get_preimage_for_hashed_key`
unfoldable pub get_preimage_for_hashed_key :
    {S D : Type 0} → Dicts S D → Value → (Value → Option DictKey) → Result DictKey
get_preimage_for_hashed_key dicts hashed_key preimages =
    ok_or (preimages hashed_key)
      (custom_hint (append "No preimage found for hashed key " (dicts.display_value hashed_key)))

module _ {S Ids D : Type 0} (F : Felt252) (m : Machine S Ids) (dicts : Dicts S D) (ids : Ids) where
  -- `key` and `key_len` (or `prefix` and `prefix_len`): the pointer and the length as a `usize`
  abbrev pub pointer_and_len : String → String → Action (World S D) (Relocatable × ℕ)
  pointer_and_len name len_name = do
    ptr ← in_vm (reads (m.get_ptr_from_var_name ids name))
    len_felt ← in_vm (reads (m.get_integer_from_var_name ids len_name))
    len ← lift (ok_or (F.try_usize len_felt) (felt_to_usize len_felt))
    pure (ptr, len)

  unfoldable pub hashdict_read : Action (World S D) (Unit {0})
  unfolding build_compound_key compute_hash_key
  hashdict_read = do
    dict_ptr ← in_vm (reads (m.get_ptr_from_var_name ids "dict_ptr"))
    dict_manager ← get_dict_manager dicts
    found ← lift (dicts.get_tracker dict_manager dict_ptr)
    let tracker = advance dicts.dict_access_size found
    set_dict_manager (set_tracker dict_manager dict_ptr.segment_index tracker)
    key ← pointer_and_len "key" "key_len"
    dict_key ← in_vm (build_compound_key F m key.0 key.1)
    let read = dicts.get_value tracker.dict dict_key
    let updated = set_tracker dict_manager dict_ptr.segment_index (record tracker { dict = read.1 })
    set_dict_manager updated
    value ← lift read.0
    in_vm (m.insert_value_from_var_name ids "value" value)
    hashed_key ← lift (compute_hash_key dicts.poseidon_hash_many dict_key key.1)
    set_dict_manager (set_preimage updated (int hashed_key) dict_key)

  unfoldable pub hashdict_write : Action (World S D) (Unit {0})
  unfolding build_compound_key compute_hash_key
  hashdict_write = do
    dict_ptr ← in_vm (reads (m.get_ptr_from_var_name ids "dict_ptr"))
    dict_manager ← get_dict_manager dicts
    found ← lift (dicts.get_tracker dict_manager dict_ptr)
    let tracker = advance dicts.dict_access_size found
    set_dict_manager (set_tracker dict_manager dict_ptr.segment_index tracker)
    key ← pointer_and_len "key" "key_len"
    dict_key ← in_vm (build_compound_key F m key.0 key.1)
    new_value ← in_vm (reads (m.get_maybe_relocatable_from_var_name ids "new_value"))
    dict_ptr_prev_value ← lift (m.add_usize dict_ptr 1)
    let read = dicts.get_value tracker.dict dict_key
    set_dict_manager
        (set_tracker dict_manager dict_ptr.segment_index (record tracker { dict = read.1 }))
    value ← lift read.0
    in_vm λ vm.
        let (r, vm') = m.insert_value dict_ptr_prev_value value vm in
        (map_err r (unknown_memory_cell dict_ptr_prev_value), vm')
    let written = dicts.insert_value read.1 dict_key new_value
    let updated =
        set_tracker dict_manager dict_ptr.segment_index (record tracker { dict = written })
    set_dict_manager updated
    hashed_key ← lift (compute_hash_key dicts.poseidon_hash_many dict_key key.1)
    set_dict_manager (set_preimage updated (int hashed_key) dict_key)

  unfoldable pub hashdict_read_from_key : Action (World S D) (Unit {0})
  unfolding get_preimage_for_hashed_key
  hashdict_read_from_key = do
    hashed_key ← in_vm (reads (m.get_integer_from_var_name ids "key"))
    dict_ptr ← in_vm (reads (m.get_ptr_from_var_name ids "dict_ptr_stop"))
    dict_manager ← get_dict_manager dicts
    tracker ← lift (dicts.get_tracker dict_manager dict_ptr)
    let preimage =
        elim (get_preimage_for_hashed_key dicts (int hashed_key) dict_manager.preimages)
          as (λ _. DictKey) [ ok key ↦ key | _ ↦ simple (int hashed_key) ]
    let read = dicts.get_value tracker.dict preimage
    set_dict_manager
        (set_tracker dict_manager dict_ptr.segment_index (record tracker { dict = read.1 }))
    value ← lift (
        map_err read.0
          (custom_hint (append "No value found for preimage " (dicts.display_key preimage))))
    in_vm (m.insert_value_from_var_name ids "value" value)

  unfoldable pub get_preimage_for_key : Action (World S D) (Unit {0})
  unfolding get_preimage_for_hashed_key insert_cells
  get_preimage_for_key = do
    hashed_key ← in_vm (reads (m.get_integer_from_var_name ids "key"))
    dict_manager ← get_dict_manager dicts
    preimage ← lift (get_preimage_for_hashed_key dicts (int hashed_key) dict_manager.preimages)
    preimage_data_ptr ← in_vm (reads (m.get_ptr_from_var_name ids "preimage_data"))
    elim preimage [
      | simple _ ↦ pure tt
      | compound values ↦
          in_vm (insert_cells F m preimage_data_ptr 0 values)
          >> in_vm (m.insert_value_from_var_name ids "preimage_len" (int (F.from (length values))))
    ]

  unfoldable pub copy_hashdict_tracker_entry : Action (World S D) (Unit {0})
  unfolding get_preimage_for_hashed_key
  copy_hashdict_tracker_entry = do
    source_ptr_stop ← in_vm (reads (m.get_ptr_from_var_name ids "source_ptr_stop"))
    dest_ptr ← in_vm (reads (m.get_ptr_from_var_name ids "dest_ptr"))
    dict_manager ← get_dict_manager dicts
    source_tracker ← lift (dicts.get_tracker dict_manager source_ptr_stop)
    key_hash ← in_vm (reads (m.get_integer_from_var_name ids "source_key"))
    preimage ← lift (get_preimage_for_hashed_key dicts (int key_hash) dict_manager.preimages)
    let read = dicts.get_value source_tracker.dict preimage
    let updated =
        set_tracker dict_manager source_ptr_stop.segment_index
          (record source_tracker { dict = read.1 })
    set_dict_manager updated
    value ← lift (
        map_err read.0
          (custom_hint (append "No value found for preimage " (dicts.display_key preimage))))
    found ← lift (dicts.get_tracker updated dest_ptr)
    let dest_tracker = advance dicts.dict_access_size found
    set_dict_manager (
        set_tracker updated dest_ptr.segment_index
          (record dest_tracker { dict = dicts.insert_value dest_tracker.dict preimage value }))

  -- What is written for one key: its first element, and a pointer to the others. `preimage[1..]`
  -- panics on the empty key.
  unfoldable pub write_key : Relocatable → Relocatable → List Value → Action S (Unit {0})
  unfolding insert_cells
  write_key ptr bytes32_base [] = lift panic
  write_key ptr bytes32_base (first ∷ others) = do
    insert_cells F m bytes32_base 0 others
    m.insert_value ptr first
    second_addr ← lift (m.add_usize ptr 1)
    m.insert_value second_addr (relocatable bytes32_base)

  -- the loop over the matching keys, from index `i` on
  unfoldable pub write_keys : Relocatable → ℕ → List (List Value) → Action S (Unit {0})
  unfolding write_key
  write_keys base i [] = pure tt
  write_keys base i (preimage ∷ preimages) = do
    ptr ← λ vm. let (b, vm') = m.add_memory_segment vm in (ok b, vm')
    bytes32_base ← λ vm. let (b, vm') = m.add_memory_segment vm in (ok b, vm')
    write_key ptr bytes32_base preimage
    addr ← lift (m.add_usize base i)
    m.insert_value addr (relocatable ptr)
    write_keys base (i + 1) preimages

  -- Both listing hints, by how they select the keys.
  unfoldable pub list_keys :
      (List Value → List (DictKey × Value) → List (List Value)) → Action (World S D) (Unit {0})
  unfolding read_cells write_keys
  list_keys select = do
    dict_ptr ← in_vm (reads (m.get_ptr_from_var_name ids "dict_ptr"))
    dict_manager ← get_dict_manager dicts
    tracker ← lift (dicts.get_tracker dict_manager dict_ptr)
    prefix_ptr ← pointer_and_len "prefix" "prefix_len"
    prefix ← in_vm (read_cells F m prefix_ptr.0 0 prefix_ptr.1)
    let matching = select prefix (dicts.entries tracker.dict)
    base ← in_vm (λ vm. let (b, vm') = m.add_memory_segment vm in (ok b, vm'))
    in_vm (write_keys base 0 matching)
    in_vm (m.insert_value_from_var_name ids "keys_len" (int (F.from (length matching))))
    in_vm (m.insert_value_from_var_name ids "keys" (relocatable base))

  unfoldable pub get_keys_for_address_prefix : Action (World S D) (Unit {0})
  unfolding list_keys matching_preimages
  get_keys_for_address_prefix = list_keys matching_preimages

  unfoldable pub get_storage_keys_for_address : Action (World S D) (Unit {0})
  unfolding list_keys storage_preimages
  get_storage_keys_for_address = list_keys storage_preimages
