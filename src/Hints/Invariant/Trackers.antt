-- ===== src/Hints/Invariant/Trackers.antt =====
-- The hints that create, copy and merge dictionaries keep the invariant.
use mathlib.Core.Path.{subst}
use keth.Prelude.{
  ℤ, int_eq, int_eq_iff, ◌≡◌, refl, sym, ap, ◌∙◌, arith, false, Relocatable, Result, ok, err, panic,
  reads, ◌>>=◌, Action, List, [], Option, some, none, Option-cases, Bool-cases, inl, inr,
}
use keth.Machine.{Machine, Value, relocatable}
use keth.Dicts.{DictKey, Dicts, DictManager, World, set_tracker}
use keth.Hints.Dict.{
  new_dict, new_default_dict, insert_entries, dict_new_empty, dict_squash, copy_dict,
  copy_tracker_to_new_ptr, merge_dict_tracker_with_parent,
}
use keth.Hints.Invariant.{
  IsPlaced, IsConsistent, Keeps, IsPlaced-set_tracker, Keeps-in_vm, Keeps-bind,
  Keeps-set_dict_manager, Keeps-vm, Keeps-manager, Keeps-tracker,
}

module _ {D : Type 0} where
  -- A manager with one more tracker, at its own segment.
  IsPlaced-of-new :
      (g g' : DictManager D) (base : Relocatable) (d : D)
      → IsPlaced g
      → g'.trackers base.segment_index ≡ some (record { current_ptr = base; dict = d })
      → ((j : ℤ) → int_eq base.segment_index j ≡ false → g'.trackers j ≡ g.trackers j)
      → IsPlaced g'
  IsPlaced-of-new g g' base d placed new other j t e =
      elim (Bool-cases (int_eq base.segment_index j)) [
        | inl same ↦
            let at : base.segment_index ≡ j = (int_eq_iff base.segment_index j).0 same in
            let eq = sym new ∙ (ap g'.trackers at ∙ e) in
            let found : record { current_ptr = base; dict = d } ≡ t = cc eq in
            ap (λ u. u.current_ptr.segment_index) (sym found) ∙ at
        | inr apart ↦ placed j t (sym (other j apart) ∙ e)
      ]

module _ {S D : Type 0} (dicts : Dicts S D) where
  new_dict-IsPlaced :
      (s : S) (g : DictManager D) (l : List (DictKey × Value)) (r : Result Relocatable)
      → (dicts.new_dict s g l).0 ≡ r
      → IsPlaced g
      → IsPlaced (dicts.new_dict s g l).2
  new_dict-IsPlaced s g l (ok base) e placed =
      let after = dicts.new_dict s g l in
      let (free, new, other, _) =
        dicts.new_dict_lem s after.1 g after.2 l base (ap (λ r. (r, after.1, after.2)) e) in
      IsPlaced-of-new g after.2 base (dicts.simple_dict l) placed new other
  new_dict-IsPlaced s g l (err x) e placed =
      subst IsPlaced (sym (dicts.new_dict_failed s g l (λ base k. ground (arith, e, k)))) placed
  new_dict-IsPlaced s g l panic e placed =
      subst IsPlaced (sym (dicts.new_dict_failed s g l (λ base k. ground (arith, e, k)))) placed

  new_default_dict-IsPlaced :
      (s : S) (g : DictManager D) (v : Value) (l : List (DictKey × Value)) (r : Result Relocatable)
      → (dicts.new_default_dict s g v l).0 ≡ r
      → IsPlaced g
      → IsPlaced (dicts.new_default_dict s g v l).2
  new_default_dict-IsPlaced s g v l (ok base) e placed =
      let after = dicts.new_default_dict s g v l in
      let (free, new, other, _) =
        dicts.new_default_dict_lem s after.1 g after.2 v l base
          (ap (λ r. (r, after.1, after.2)) e) in
      IsPlaced-of-new g after.2 base (dicts.default_dict v l) placed new other
  new_default_dict-IsPlaced s g v l (err x) e placed =
      subst IsPlaced (sym (dicts.new_default_dict_failed s g v l (λ base k. ground (arith, e, k))))
        placed
  new_default_dict-IsPlaced s g v l panic e placed =
      subst IsPlaced (sym (dicts.new_default_dict_failed s g v l (λ base k. ground (arith, e, k))))
        placed

  -- Which manager a world has after a new dictionary was asked for.
  new_dict_manager :
      (l : List (DictKey × Value)) (w : World S D) (g' : DictManager D)
      → IsConsistent w
      → (new_dict dicts l w).1.dict_manager ≡ some g'
      → IsPlaced g'
  new_dict_manager l w g' h e = elim (Option-cases w.dict_manager) [
    | inl k ↦ h g' (ground (arith, k, e))
    | inr (g, k) ↦
        let same : (dicts.new_dict w.vm g l).2 ≡ g' = ground (arith, k, e) in
        subst IsPlaced same (new_dict-IsPlaced w.vm g l (dicts.new_dict w.vm g l).0 refl (h g k))
  ]

  new_default_dict_manager :
      (v : Value) (l : List (DictKey × Value)) (w : World S D) (g' : DictManager D)
      → IsConsistent w
      → (new_default_dict dicts v l w).1.dict_manager ≡ some g'
      → IsPlaced g'
  new_default_dict_manager v l w g' h e = elim (Option-cases w.dict_manager) [
    | inl k ↦ h g' (ground (arith, k, e))
    | inr (g, k) ↦
        let same : (dicts.new_default_dict w.vm g v l).2 ≡ g' = ground (arith, k, e) in
        subst IsPlaced same
          (new_default_dict-IsPlaced w.vm g v l (dicts.new_default_dict w.vm g v l).0 refl (h g k))
  ]

  Keeps-new_dict :
      {B : Type 0} (l : List (DictKey × Value)) (f : Relocatable → Action (World S D) B)
      → ((base : Relocatable) → Keeps (λ _. Unit {0}) (f base))
      → Keeps (λ _. Unit {0}) (new_dict dicts l >>= f)
  Keeps-new_dict l f rest =
      Keeps-bind (λ _. Unit {0}) _ (new_dict dicts l) f
        (record { state = λ w h g' e. new_dict_manager l w g' h e; result = λ w h a e. tt })
        (λ base _. rest base)

  Keeps-new_default_dict :
      {B : Type 0} (v : Value) (l : List (DictKey × Value)) (f : Relocatable → Action (World S D) B)
      → ((base : Relocatable) → Keeps (λ _. Unit {0}) (f base))
      → Keeps (λ _. Unit {0}) (new_default_dict dicts v l >>= f)
  Keeps-new_default_dict v l f rest =
      Keeps-bind (λ _. Unit {0}) _ (new_default_dict dicts v l) f
        (record {
          state = λ w h g' e. new_default_dict_manager v l w g' h e;
          result = λ w h a e. tt;
        })
        (λ base _. rest base)

module _ {S Ids D : Type 0} (m : Machine S Ids) (dicts : Dicts S D) (ids : Ids) where
  pub dict_new_empty-Keeps : Keeps (λ _. Unit {0}) (dict_new_empty m dicts ids)
  unfolding dict_new_empty
  dict_new_empty-Keeps =
      Keeps-new_dict dicts [] _ λ base. Keeps-in_vm (m.insert_value_into_ap (relocatable base))

  pub dict_squash-Keeps : Keeps (λ _. Unit {0}) (dict_squash m dicts ids)
  unfolding dict_squash
  dict_squash-Keeps = Keeps-vm (reads (m.get_ptr_from_var_name ids "dict_accesses_end")) _ λ p.
      Keeps-manager dicts _ λ g placed. Keeps-tracker dicts g p _ λ t here.
        Keeps-new_dict dicts (dicts.entries t.dict) _
          λ base. Keeps-in_vm (m.insert_value_into_ap (relocatable base))

  copy_dict-Keeps :
      (default : Option Value) (l : List (DictKey × Value))
      → Keeps (λ _. Unit {0}) (copy_dict m dicts ids default l)
  unfolding copy_dict
  copy_dict-Keeps (some v) l =
      Keeps-new_default_dict dicts v l _
        λ base. Keeps-in_vm (m.insert_value_from_var_name ids "new_dict_ptr" (relocatable base))
  copy_dict-Keeps none l =
      Keeps-new_dict dicts l _
        λ base. Keeps-in_vm (m.insert_value_from_var_name ids "new_dict_ptr" (relocatable base))

  pub copy_tracker_to_new_ptr-Keeps : Keeps (λ _. Unit {0}) (copy_tracker_to_new_ptr m dicts ids)
  unfolding copy_tracker_to_new_ptr
  copy_tracker_to_new_ptr-Keeps =
      Keeps-vm (reads (m.get_ptr_from_var_name ids "parent_dict_end")) _ λ p.
        Keeps-manager dicts _ λ g placed.
          Keeps-tracker dicts g p _
            λ t here. copy_dict-Keeps (dicts.default_value t.dict) (dicts.entries t.dict)

  pub merge_dict_tracker_with_parent-Keeps :
      Keeps (λ _. Unit {0}) (merge_dict_tracker_with_parent m dicts ids)
  unfolding merge_dict_tracker_with_parent
  merge_dict_tracker_with_parent-Keeps =
      Keeps-vm (reads (m.get_ptr_from_var_name ids "dict_ptr")) _ λ p.
        Keeps-vm (reads (m.get_ptr_from_var_name ids "parent_dict_end")) _ λ q.
          Keeps-manager dicts _ λ g placed. Keeps-tracker dicts g p _ λ child here.
            Keeps-tracker dicts g q _ λ parent there.
              let merged = record parent {
                dict = insert_entries dicts (dicts.entries child.dict) parent.dict;
              } in
              Keeps-set_dict_manager (set_tracker g q.segment_index merged)
                (IsPlaced-set_tracker g q.segment_index merged placed there)
