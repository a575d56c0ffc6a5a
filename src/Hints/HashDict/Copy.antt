-- ===== src/Hints/HashDict/Copy.antt =====
-- Copying an entry from one hashed dictionary to another.
use keth.Prelude.{int_eq, ℕ, some, false, ◌≡◌, arith, Relocatable, ok, if◌then◌else◌}
use keth.Machine.{Felt252, Machine, Value, int}
use keth.Dicts.{DictKey, Dicts, DictManager, DictTracker, World, key_eq, set_tracker}
use keth.Dicts.Lookup.{lookup, lookup-insert_value, get_value-lookup}
use keth.Hints.HashDict.{advance, copy_hashdict_tracker_entry, get_preimage_for_hashed_key}

module _ {S Ids D : Type 0} (F : Felt252) (m : Machine S Ids) (dicts : Dicts S D) (ids : Ids) where
  -- Two trackers of different segments at their pointers, a hash whose preimage is known, and a
  -- value for that key in the source: the hint succeeds and leaves the machine, the preimages and
  -- the other trackers as they are; the destination answers that value at the key and what it
  -- answered elsewhere, and its pointer is moved on; the source's pointer and answers stay.
  pub copy_hashdict_tracker_entry_lem :
      (w : World S D) (g : DictManager D) (p q : Relocatable) (source dest : DictTracker D)
      (key : DictKey) (h : ℕ) (v : Value)
      → w.dict_manager ≡ some g
      → m.get_ptr_from_var_name ids "source_ptr_stop" w.vm ≡ ok p
      → m.get_ptr_from_var_name ids "dest_ptr" w.vm ≡ ok q
      → m.get_integer_from_var_name ids "source_key" w.vm ≡ ok h
      → int_eq p.segment_index q.segment_index ≡ false
      → g.trackers p.segment_index ≡ some source
      → source.current_ptr ≡ p
      → g.trackers q.segment_index ≡ some dest
      → dest.current_ptr ≡ q
      → g.preimages (int h) ≡ some key
      → lookup dicts source.dict key ≡ some v
      → (from to : D) × (copy_hashdict_tracker_entry F m dicts ids w ≡ (
        ok tt,
        record w {
          dict_manager = some (
              set_tracker
                (set_tracker g p.segment_index (record source { dict = from }))
                q.segment_index
                (record (advance dicts.dict_access_size dest) { dict = to }));
        },
      ))
        × ((j : DictKey) → lookup dicts from j ≡ lookup dicts source.dict j)
        × ((j : DictKey)
            → lookup dicts to j ≡ (if key_eq key j then some v else lookup dicts dest.dict j))
  unfolding copy_hashdict_tracker_entry get_preimage_for_hashed_key
  copy_hashdict_tracker_entry_lem w g p q source dest key h v manager from_ptr to_ptr hashed apart
        tracked at tracked' at' known found =
      let (from, got, same) = get_value-lookup dicts source.dict key v found in
      let updated = set_tracker g p.segment_index (record source { dict = from }) in
      let there : updated.trackers q.segment_index ≡ some dest = rw apart tracked' in
      (
        from,
        dicts.insert_value dest.dict key v,
        ground (
          arith,
          dicts.get_tracker_found g p source tracked at,
          dicts.get_tracker_found updated q dest there at',
        ),
        same,
        λ j. lookup-insert_value dicts dest.dict j key v,
      )
