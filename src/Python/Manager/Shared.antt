-- ===== src/Python/Manager/Shared.antt =====
-- The hints of the program and the Python hints share one dictionary manager: what a hint of the
-- program writes is what Python reads.
use mathlib.Core.Path.{subst}
use keth.Prelude.{
  ℕ, ℤ, ◌<◌, All, List, some, if◌then◌else◌, int_eq_iff, ◌≡◌, refl, ap, ◌∙◌, Relocatable, ok,
}
use keth.Machine.{Felt252, Machine, Value, int}
use keth.Dicts.{compound, DictKey, Dicts, DictManager, DictTracker, World}
use keth.Dicts.Lookup.{lookup, key_eq_refl, value_eq_iff}
use keth.Hints.HashDict.{advance, hashdict_write}
use keth.Hints.HashDict.Access.{IsAccess, accessed, hashdict_write_lem}
use keth.Python.{success, Display}
use keth.Python.Address.{from_maybe_relocatable}
use keth.Python.Manager.{KeyDisplay, from_dict_key, to_dict_key, get_value, get_preimage}
use keth.Python.Manager.View.{
  IsFelt, to-from_maybe_relocatable, to-from_dict_key, answer, answer_of, Reads, get_value-answer,
}

module _ {S Ids D : Type 0} (F : Felt252) (m : Machine S Ids) (dicts : Dicts S D) (d : Display)
    (texts : KeyDisplay) where
  -- A key whose answer is known, and a hash whose preimage is known, as Python reads them.
  get_value-known :
      (g : DictManager D) (segment : ℤ) (k : DictKey) (v : Value)
      → to_dict_key F (from_dict_key k) ≡ k
      → answer F dicts d g segment k ≡ some v
      → (get_value F dicts d g segment (from_dict_key k)).0 ≡ success (from_maybe_relocatable v)
  get_value-known g segment k v same known =
      let read = (get_value-answer F dicts d g segment (from_dict_key k)).0 in
      let at : answer F dicts d g segment (to_dict_key F (from_dict_key k)) ≡ some v =
        ap (answer F dicts d g segment) same ∙ known in
      subst (Reads F dicts d (get_value F dicts d g segment (from_dict_key k)).0) at read

  get_preimage-known :
      (g : DictManager D) (h : ℕ) (k : DictKey)
      → h < F.prime
      → g.preimages (int h) ≡ some k
      → get_preimage F texts g (from_maybe_relocatable (int h)) ≡ success (from_dict_key k)
  unfolding get_preimage
  get_preimage-known g h k small known =
      rw (get_preimage, to-from_maybe_relocatable F (int h) small, known) refl

  -- A value that `hashdict_write` stores under a key of felts that has a value, where the cell for
  -- the previous value can be written, is what a Python hint then reads by the segment and the key;
  -- and the preimage of the key's hash, a felt, is the key.
  pub get_value-hashdict_write :
      (ids : Ids) (w : World S D) (g : DictManager D) (p q : Relocatable) (t : DictTracker D)
      (values : List Value) (h : ℕ) (v old : Value) (vm' : S)
      → IsAccess F m dicts ids w g p t values h
      → m.get_maybe_relocatable_from_var_name ids "new_value" w.vm ≡ ok v
      → m.add_usize p 1 ≡ ok q
      → lookup dicts t.dict (compound values) ≡ some old
      → m.insert_value q old w.vm ≡ (ok tt, vm')
      → All (IsFelt F) values
      → h < F.prime
      → (g' : DictManager D) × ((hashdict_write F m dicts ids w).1.dict_manager ≡ some g')
        × ((get_value F dicts d g' p.segment_index (from_dict_key (compound values))).0
            ≡ success (from_maybe_relocatable v))
        × (get_preimage F texts g' (from_maybe_relocatable (int h))
            ≡ success (from_dict_key (compound values)))
  get_value-hashdict_write ids w g p q t values h v old vm' a new prev found stored felts small =
      let (dict, wrote, answers) =
        hashdict_write_lem F m dicts ids w g p t values h a v old q vm' new prev found stored in
      let g' = accessed F m dicts ids g p t dict values h in
      let here : answer F dicts d g' p.segment_index (compound values) ≡ some v =
        let moved : DictTracker D = record (advance dicts.dict_access_size t) { dict = dict } in
        ap
          (λ b.
            answer_of F dicts d (if b then some moved else g.trackers p.segment_index)
              (compound values))
          ((int_eq_iff p.segment_index p.segment_index).1 refl)
        ∙ answers (compound values)
        ∙ ap (λ b. if b then some v else lookup dicts t.dict (compound values))
            (key_eq_refl (compound values)) in
      let known : g'.preimages (int h) ≡ some (compound values) =
        rw ((value_eq_iff (int h) (int h)).1 refl) refl in
      (
        g',
        ap (λ r. r.1.dict_manager) wrote,
        get_value-known g' p.segment_index (compound values) v
            (to-from_dict_key F (compound values) felts) here,
        get_preimage-known g' h (compound values) small known,
      )
