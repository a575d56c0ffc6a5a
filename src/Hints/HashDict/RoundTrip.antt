-- ===== src/Hints/HashDict/RoundTrip.antt =====
-- A value that was written under a key is read back by the hash of the key.
use keth.Prelude.{
  ℕ, int_eq, int_eq_iff, List, some, true, ◌≡◌, refl, sym, ◌∙◌, ap, arith, Relocatable, ok,
  if◌then◌else◌,
}
use keth.Machine.{Felt252, Machine, Value}
use keth.Dicts.{compound, Dicts, DictManager, DictTracker, World}
use keth.Dicts.Lookup.{lookup, key_eq_refl}
use keth.Hints.HashDict.{advance, hashdict_write, hashdict_read_from_key}
use keth.Hints.HashDict.Access.{IsAccess, accessed, hashdict_write_lem, hashdict_read_from_key_lem}

module _ {S Ids D : Type 0} (F : Felt252) (m : Machine S Ids) (dicts : Dicts S D) where
  -- If `hashdict_write` stores `v` under a key that has a value, and the cell for the previous
  -- value can be written, then it succeeds; and `hashdict_read_from_key` with the hash of the key
  -- and the pointer moved on then succeeds and writes `v` to its variable `value`, if that write
  -- succeeds. The machine may have gone on in between (`w'`); the dictionary manager is the one
  -- that the write left.
  pub hashdict_read_from_key-hashdict_write :
      (ids ids' : Ids) (w w' : World S D) (g : DictManager D) (p q : Relocatable)
      (t : DictTracker D) (values : List Value) (h : ℕ) (v old : Value) (vm' vm'' : S)
      → IsAccess F m dicts ids w g p t values h
      → m.get_maybe_relocatable_from_var_name ids "new_value" w.vm ≡ ok v
      → m.add_usize p 1 ≡ ok q
      → lookup dicts t.dict (compound values) ≡ some old
      → m.insert_value q old w.vm ≡ (ok tt, vm')
      → w'.dict_manager ≡ (hashdict_write F m dicts ids w).1.dict_manager
      → m.get_integer_from_var_name ids' "key" w'.vm ≡ ok h
      → m.get_ptr_from_var_name ids' "dict_ptr_stop" w'.vm
        ≡ ok (advance dicts.dict_access_size t).current_ptr
      → m.insert_value_from_var_name ids' "value" v w'.vm ≡ (ok tt, vm'')
      → ((hashdict_write F m dicts ids w).0 ≡ ok tt)
        × ((hashdict_read_from_key F m dicts ids' w').0 ≡ ok tt)
        × ((hashdict_read_from_key F m dicts ids' w').1.vm ≡ vm'')
  hashdict_read_from_key-hashdict_write ids ids' w w' g p q t values h v old vm' vm'' a new prev
        found stored same_manager hashed pointer written =
      let (dict, wrote, answers) =
        hashdict_write_lem F m dicts ids w g p t values h a v old q vm' new prev found stored in
      let moved = advance dicts.dict_access_size t in
      let answer : lookup dicts dict (compound values) ≡ some v =
        answers (compound values)
        ∙ ap (λ b. if b then some v else lookup dicts t.dict (compound values))
            (key_eq_refl (compound values)) in
      let segment : int_eq p.segment_index moved.current_ptr.segment_index ≡ true =
        (int_eq_iff p.segment_index moved.current_ptr.segment_index).1
          (ap (λ r. r.segment_index) (sym a.at_pointer)) in
      let (dict', read, _) =
        hashdict_read_from_key_lem F m dicts ids' w' (accessed F m dicts ids g p t dict values h)
          moved.current_ptr (record moved { dict = dict }) (compound values) h v vm''
          (same_manager ∙ ap (λ r. r.1.dict_manager) wrote) hashed pointer (rw segment) refl
          (ground arith) answer written in
      (ap (λ r. r.0) wrote, ap (λ r. r.0) read, ap (λ r. r.1.vm) read)
