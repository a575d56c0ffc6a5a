-- ===== src/Hints/HashDict/Access.antt =====
-- Reads and writes of a hashed dictionary, against what the dictionary answers.
use keth.Prelude.{
  ◌+◌, ◌%◌, ℕ, ◌^◌, ◌<◌, List, some, none, if◌then◌else◌, ◌≡◌, ◌∙◌, ap, lt→ltb, arith, Relocatable,
  ok, err, HintError,
}
use keth.Machine.{Felt252, Machine, Value, int}
use keth.Dicts.{
  DictKey, compound, Dicts, DictManager, DictTracker, World, key_eq, set_tracker, set_preimage,
}
use keth.Dicts.Lookup.{lookup, lookup-insert_value, get_value-lookup, get_value_none_lem}
use keth.Hints.HashDict.{
  advance, build_compound_key, compute_hash_key, hashdict_read, hashdict_write,
  hashdict_read_from_key, get_preimage_for_hashed_key,
}

-- In the world `w`, the hint's variables name the tracker `t` at its pointer `p`, and a key with
-- these elements and this hash.
pub record IsAccess {S Ids D : Type 0} (F : Felt252) (m : Machine S Ids) (dicts : Dicts S D)
    (ids : Ids) (w : World S D) (g : DictManager D) (p : Relocatable) (t : DictTracker D)
    (values : List Value) (h : ℕ) : Type 0 where
  pub key_ptr : Relocatable
  pub key_len : ℕ
  pub manager : w.dict_manager ≡ some g
  pub pointer : m.get_ptr_from_var_name ids "dict_ptr" w.vm ≡ ok p
  pub tracker : g.trackers p.segment_index ≡ some t
  pub at_pointer : t.current_ptr ≡ p
  pub key : m.get_ptr_from_var_name ids "key" w.vm ≡ ok key_ptr
  pub len : m.get_integer_from_var_name ids "key_len" w.vm ≡ ok key_len
  pub in_range : key_len < 2 ^ 64
  pub cells : build_compound_key F m key_ptr key_len w.vm ≡ (ok (compound values), w.vm)
  pub hash : compute_hash_key dicts.poseidon_hash_many (compound values) key_len ≡ ok h

module _ {S Ids D : Type 0} (F : Felt252) (m : Machine S Ids) (dicts : Dicts S D) (ids : Ids) where
  -- The manager after an access: the pointer is moved on, the data is `dict`, the hash is known.
  abbrev pub accessed :
      DictManager D → Relocatable → DictTracker D → D → List Value → ℕ → DictManager D
  accessed g p t dict values h =
      set_preimage
        (set_tracker g p.segment_index (record t {
          dict = dict;
          current_ptr = record (t.current_ptr) {
            offset = (t.current_ptr.offset + dicts.dict_access_size) % 2 ^ 64;
          };
        }))
        (int h) (compound values)

  try_usize_small : (n : ℕ) → n < 2 ^ 64 → F.try_usize n ≡ some n
  try_usize_small n lt =
      F.try_usize_lem n ∙ ap (λ b. if b then some n else none) (lt→ltb n (2 ^ 64) lt)

  module _ (w : World S D) (g : DictManager D) (p : Relocatable) (t : DictTracker D)
      (values : List Value) (h : ℕ) (a : IsAccess F m dicts ids w g p t values h) where
    -- A read of a key that has a value, in a tracker at its pointer, if the variable `value` can be
    -- written: it writes the value there, moves the tracker on, records the hash's preimage, and
    -- changes no answer of the dictionary.
    pub hashdict_read_lem :
        (v : Value) (vm' : S)
        → lookup dicts t.dict (compound values) ≡ some v
        → m.insert_value_from_var_name ids "value" v w.vm ≡ (ok tt, vm')
        → (dict : D) × (hashdict_read F m dicts ids w
            ≡ (ok tt, record { vm = vm'; dict_manager = some (accessed g p t dict values h) }))
          × ((j : DictKey) → lookup dicts dict j ≡ lookup dicts t.dict j)
    unfolding hashdict_read
    hashdict_read_lem v vm' found written =
        let (dict, got, same) = get_value-lookup dicts t.dict (compound values) v found in
        (
          dict,
          ground (
            arith,
            dicts.get_tracker_found g p t a.tracker a.at_pointer,
            try_usize_small a.key_len a.in_range,
          ),
          same,
        )

    -- A read of a key without a value or a default, in a tracker at its pointer, fails, and leaves
    -- the tracker moved on all the same: its data and the memory are as before, and no preimage is
    -- recorded.
    pub hashdict_read_missing :
        lookup dicts t.dict (compound values) ≡ none
        → (e : HintError) × (hashdict_read F m dicts ids w ≡ (
          err e,
          record w {
            dict_manager = some (set_tracker g p.segment_index (advance dicts.dict_access_size t));
          },
        ))
    unfolding hashdict_read
    hashdict_read_missing missing =
        let (e, failed) = get_value_none_lem dicts t.dict (compound values) missing in
        (
          e,
          ground (
            arith,
            dicts.get_tracker_found g p t a.tracker a.at_pointer,
            try_usize_small a.key_len a.in_range,
          ),
        )

    -- A write under a key that has a value, to a tracker at its pointer, if the previous value can
    -- be stored in the cell after the pointer: it stores it there, moves the tracker on, records
    -- the hash's preimage, and changes the answer at its key alone, to the new value.
    pub hashdict_write_lem :
        (v old : Value) (q : Relocatable) (vm' : S)
        → m.get_maybe_relocatable_from_var_name ids "new_value" w.vm ≡ ok v
        → m.add_usize p 1 ≡ ok q
        → lookup dicts t.dict (compound values) ≡ some old
        → m.insert_value q old w.vm ≡ (ok tt, vm')
        → (dict : D) × (hashdict_write F m dicts ids w
            ≡ (ok tt, record { vm = vm'; dict_manager = some (accessed g p t dict values h) }))
          × ((j : DictKey)
              → lookup dicts dict j
                ≡ (if key_eq (compound values) j then some v else lookup dicts t.dict j))
    unfolding hashdict_write
    hashdict_write_lem v old q vm' new prev found written =
        let (dict, got, same) = get_value-lookup dicts t.dict (compound values) old found in
        (
          dicts.insert_value dict (compound values) v,
          ground (
            arith,
            dicts.get_tracker_found g p t a.tracker a.at_pointer,
            try_usize_small a.key_len a.in_range,
          ),
          λ j.
              lookup-insert_value dicts dict j (compound values) v
              ∙ ap (λ o. if key_eq (compound values) j then some v else o) (same j),
        )

  -- A read by a hash whose preimage is known, of a key that has a value, in a tracker at its
  -- pointer, succeeds if the variable `value` can be written: it writes the value there, changes no
  -- answer of the dictionary, and leaves the tracker's pointer and the preimages.
  pub hashdict_read_from_key_lem :
      (w : World S D) (g : DictManager D) (p : Relocatable) (t : DictTracker D) (key : DictKey)
      (h : ℕ) (v : Value) (vm' : S)
      → w.dict_manager ≡ some g
      → m.get_integer_from_var_name ids "key" w.vm ≡ ok h
      → m.get_ptr_from_var_name ids "dict_ptr_stop" w.vm ≡ ok p
      → g.trackers p.segment_index ≡ some t
      → t.current_ptr ≡ p
      → g.preimages (int h) ≡ some key
      → lookup dicts t.dict key ≡ some v
      → m.insert_value_from_var_name ids "value" v w.vm ≡ (ok tt, vm')
      → (dict : D) × (hashdict_read_from_key F m dicts ids w ≡ (
        ok tt,
        record {
          vm = vm';
          dict_manager = some (set_tracker g p.segment_index (record t { dict = dict }));
        },
      ))
        × ((j : DictKey) → lookup dicts dict j ≡ lookup dicts t.dict j)
  unfolding hashdict_read_from_key get_preimage_for_hashed_key
  hashdict_read_from_key_lem w g p t key h v vm' manager hashed pointer tracker at known found
        written =
      let (dict, got, same) = get_value-lookup dicts t.dict key v found in
      (dict, ground (arith, dicts.get_tracker_found g p t tracker at), same)
