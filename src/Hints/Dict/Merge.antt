-- ===== src/Hints/Dict/Merge.antt =====
-- What merging, copying and moving trackers does to the answers of the dictionaries.
use keth.Prelude.{
  ℤ, int_eq, int_eq_iff, List, [], ◌∷◌, Option, some, none, false, ◌≡◌, refl, sym, ◌∙◌, ap, arith,
  inl, inr, Bool-cases, Relocatable, ok,
}
use keth.Machine.{Machine, Value, relocatable}
use keth.Dicts.{DictKey, Dicts, DictManager, DictTracker, World, key_eq, find, set_tracker}
use keth.Dicts.Lookup.{lookup, lookup-insert_value, key_eq_iff}
use keth.Hints.Dict.{
  insert_entries, merge_dict_tracker_with_parent, update_dict_tracker, copy_tracker_to_new_ptr,
}

-- No key stands twice: the entries of a map.
abbrev pub HasUniqueKeys : List (DictKey × Value) → Type 0
HasUniqueKeys [] = Unit
HasUniqueKeys ((k, v) ∷ rest) = (find k rest ≡ none) × HasUniqueKeys rest

abbrev pub or_else : Option Value → Option Value → Option Value
or_else (some v) o = some v
or_else none o = o

module _ {S D : Type 0} (dicts : Dicts S D) where
  -- Inserting the entries one by one: where they have a value it counts, else the old answer.
  insert_entries-lookup :
      (entries : List (DictKey × Value)) (d : D) (k : DictKey)
      → HasUniqueKeys entries
      → lookup dicts (insert_entries dicts entries d) k
        ≡ or_else (find k entries) (lookup dicts d k)
  unfolding insert_entries
  insert_entries-lookup [] d k u = refl
  insert_entries-lookup ((j, v) ∷ rest) d k (fresh, u) =
      insert_entries-lookup rest (dicts.insert_value d j v) k u
      ∙ (ap (or_else (find k rest)) (lookup-insert_value dicts d k j v)
          ∙ elim (Bool-cases (key_eq j k)) [
            | inl e ↦ rw (e, sym (ap (λ t. find t rest) ((key_eq_iff j k).0 e)) ∙ fresh)
            | inr e ↦ rw e
          ])

module _ {S Ids D : Type 0} (m : Machine S Ids) (dicts : Dicts S D) (ids : Ids) where
  -- If both pointers are those of their trackers and no key stands twice in the child's data,
  -- merging succeeds, leaves the machine as it is and replaces the parent's tracker alone: at every
  -- key that the child's data holds, the parent answers the child's value, and elsewhere as before.
  -- The parent's pointer stays.
  pub merge_dict_tracker_with_parent_lem :
      (w : World S D) (g : DictManager D) (p q : Relocatable) (child parent : DictTracker D)
      → w.dict_manager ≡ some g
      → m.get_ptr_from_var_name ids "dict_ptr" w.vm ≡ ok p
      → m.get_ptr_from_var_name ids "parent_dict_end" w.vm ≡ ok q
      → g.trackers p.segment_index ≡ some child
      → child.current_ptr ≡ p
      → g.trackers q.segment_index ≡ some parent
      → parent.current_ptr ≡ q
      → HasUniqueKeys (dicts.entries child.dict)
      → (dict : D) × (merge_dict_tracker_with_parent m dicts ids w ≡ (
        ok tt,
        record w {
          dict_manager = some (set_tracker g q.segment_index (record parent { dict = dict }));
        },
      ))
        × ((k : DictKey)
            → lookup dicts dict k
              ≡ or_else (find k (dicts.entries child.dict)) (lookup dicts parent.dict k))
  unfolding merge_dict_tracker_with_parent
  merge_dict_tracker_with_parent_lem w g p q child parent manager ptr end at_p child_ptr at_q
        parent_ptr unique =
      (
        insert_entries dicts (dicts.entries child.dict) parent.dict,
        ground (
          arith,
          dicts.get_tracker_found g p child at_p child_ptr,
          dicts.get_tracker_found g q parent at_q parent_ptr,
        ),
        λ k. insert_entries-lookup dicts (dicts.entries child.dict) parent.dict k unique,
      )

  -- A tracker at its pointer `p` is moved to `q`: the hint succeeds, leaves the machine and the
  -- other segments' trackers as they are, and if `q` is in the same segment, the tracker is found
  -- at `q` with its data unchanged.
  pub update_dict_tracker_lem :
      (w : World S D) (g : DictManager D) (p q : Relocatable) (t : DictTracker D)
      → w.dict_manager ≡ some g
      → m.get_ptr_from_var_name ids "current_tracker_ptr" w.vm ≡ ok p
      → m.get_ptr_from_var_name ids "new_tracker_ptr" w.vm ≡ ok q
      → g.trackers p.segment_index ≡ some t
      → t.current_ptr ≡ p
      → (g' : DictManager D) × (update_dict_tracker m dicts ids w
          ≡ (ok tt, record w { dict_manager = some g' }))
        × (q.segment_index ≡ p.segment_index
            → dicts.get_tracker g' q ≡ ok (record t { current_ptr = q }))
        × ((j : ℤ) → int_eq p.segment_index j ≡ false → g'.trackers j ≡ g.trackers j)
  unfolding update_dict_tracker
  update_dict_tracker_lem w g p q t manager ptr new at_p t_ptr =
      let moved : DictTracker D = record t { current_ptr = q } in
      let g' : DictManager D = set_tracker g p.segment_index moved in
      (
        g',
        ground (arith, dicts.get_tracker_found g p t at_p t_ptr),
        λ same.
            dicts.get_tracker_found g' q moved
              (rw ((int_eq_iff p.segment_index q.segment_index).1 (sym same))) refl,
        λ j other. rw other,
      )

  -- A tracker that is moved to a pointer `q` of another segment, which has no tracker, stays under
  -- its old segment: the hint succeeds, but no read at `q` finds a tracker, and none at the old
  -- pointer does.
  pub update_dict_tracker_elsewhere :
      (w : World S D) (g : DictManager D) (p q : Relocatable) (t u : DictTracker D)
      → w.dict_manager ≡ some g
      → m.get_ptr_from_var_name ids "current_tracker_ptr" w.vm ≡ ok p
      → m.get_ptr_from_var_name ids "new_tracker_ptr" w.vm ≡ ok q
      → g.trackers p.segment_index ≡ some t
      → t.current_ptr ≡ p
      → int_eq p.segment_index q.segment_index ≡ false
      → g.trackers q.segment_index ≡ none
      → (g' : DictManager D) × (update_dict_tracker m dicts ids w
          ≡ (ok tt, record w { dict_manager = some g' }))
        × (¬ (dicts.get_tracker g' q ≡ ok u))
        × (¬ (dicts.get_tracker g' p ≡ ok u))
  unfolding update_dict_tracker
  update_dict_tracker_elsewhere w g p q t u manager ptr new at_p t_ptr other empty =
      let moved : DictTracker D = record t { current_ptr = q } in
      let g' : DictManager D = set_tracker g p.segment_index moved in
      (
        g',
        ground (arith, dicts.get_tracker_found g p t at_p t_ptr),
        λ found. ground (arith, dicts.get_tracker_inv g' q u found),
        λ found. ground (
          arith,
          dicts.get_tracker_inv g' p u found,
          int_eq_iff p.segment_index p.segment_index,
          int_eq_iff p.segment_index q.segment_index,
        ),
      )

  -- A copy of a tracker with a default, at its pointer, if the library creates the new dictionary
  -- and the variable `new_dict_ptr` can be written: the new tracker stands at the pointer that is
  -- written there, answers at every key what the original answers, and no tracker of another
  -- segment has changed, nor any preimage.
  pub copy_tracker_to_new_ptr_lem :
      (w : World S D) (g g' : DictManager D) (p base : Relocatable) (t : DictTracker D) (v : Value)
      (s u : S)
      → w.dict_manager ≡ some g
      → m.get_ptr_from_var_name ids "parent_dict_end" w.vm ≡ ok p
      → g.trackers p.segment_index ≡ some t
      → t.current_ptr ≡ p
      → dicts.default_value t.dict ≡ some v
      → dicts.new_default_dict w.vm g v (dicts.entries t.dict) ≡ (ok base, s, g')
      → m.insert_value_from_var_name ids "new_dict_ptr" (relocatable base) s ≡ (ok tt, u)
      → (dict : D) × (copy_tracker_to_new_ptr m dicts ids w
          ≡ (ok tt, record { vm = u; dict_manager = some g' }))
        × (dicts.get_tracker g' base ≡ ok (record { current_ptr = base; dict = dict }))
        × ((k : DictKey) → lookup dicts dict k ≡ lookup dicts t.dict k)
        × ((j : ℤ) → int_eq base.segment_index j ≡ false → g'.trackers j ≡ g.trackers j)
        × (g'.preimages ≡ g.preimages)
  unfolding copy_tracker_to_new_ptr
  copy_tracker_to_new_ptr_lem w g g' p base t v s u manager ptr at_p t_ptr default made written =
      let (_, placed, others, same_preimages) =
        dicts.new_default_dict_lem w.vm s g g' v (dicts.entries t.dict) base made in
      let dict = dicts.default_dict v (dicts.entries t.dict) in
      (
        dict,
        ground (arith, dicts.get_tracker_found g p t at_p t_ptr),
        dicts.get_tracker_found g' base (record { current_ptr = base; dict = dict }) placed refl,
        λ k. ground (
          arith,
          dicts.find-default_dict k v (dicts.entries t.dict),
          dicts.default_value-default_dict v (dicts.entries t.dict),
        ),
        others,
        same_preimages,
      )
