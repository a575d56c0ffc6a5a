-- ===== src/Python/Manager/View.antt =====
-- What the dictionary manager answers, as Python sees it: reads through `PyDictManager` against the
-- answers of the dictionaries, and keys on their way to Python and back.
use keth.Prelude.{
  ℤ, ◌<◌, int_eq, int_eq_iff, List, [], ◌∷◌, map, Option, some, none, if◌then◌else◌, ◌≡◌, refl, sym,
  ap, ◌∙◌, All, Option-cases, Bool-cases, inl, inr,
}
use mathlib.Core.Path.{subst}
use native.Mathlib.Nat.{mod-eq_of_lt}
use keth.Machine.{Felt252, Value, int, relocatable}
use keth.Dicts.{DictKey, simple, compound, Dicts, DictManager, DictTracker, set_tracker}
use keth.Dicts.Lookup.{lookup, get_value-lookup, get_value_none_lem}
use keth.Python.{PyResult, PyErr, success, failure, value_error, Display, from_library}
use keth.Python.Address.{PyMaybeRelocatable, from_maybe_relocatable, to_maybe_relocatable}
use keth.Python.Manager.{PyDictKey, to_dict_key, from_dict_key, get_value, from_value}

module _ (F : Felt252) where
  -- The numbers in a cell, and in a key, are felts.
  abbrev pub IsFelt : Value → Type 0
  IsFelt (int x) = x < F.prime
  IsFelt (relocatable r) = Unit {0}

  abbrev pub IsFeltKey : DictKey → Type 0
  IsFeltKey (simple v) = IsFelt v
  IsFeltKey (compound vs) = All IsFelt vs

  pub to-from_maybe_relocatable :
      (v : Value) → IsFelt v → to_maybe_relocatable F (from_maybe_relocatable v) ≡ v
  unfolding from_maybe_relocatable to_maybe_relocatable
  to-from_maybe_relocatable (int x) h = ap int (F.from_lem x ∙ mod-eq_of_lt h)
  to-from_maybe_relocatable (relocatable r) h = refl

  map-to-from :
      (vs : List Value)
      → All IsFelt vs
      → map (to_maybe_relocatable F) (map from_maybe_relocatable vs) ≡ vs
  map-to-from [] h = refl
  map-to-from (v ∷ vs) (h, hs) = cc (to-from_maybe_relocatable v h, map-to-from vs hs)

  pub to-from_dict_key : (k : DictKey) → IsFeltKey k → to_dict_key F (from_dict_key k) ≡ k
  unfolding to_dict_key from_dict_key
  to-from_dict_key (simple v) h = ap simple (to-from_maybe_relocatable v h)
  to-from_dict_key (compound vs) h = ap compound (map-to-from vs h)

module _ {S D : Type 0} (F : Felt252) (dicts : Dicts S D) (d : Display) where
  -- What the dictionary of a segment answers.
  abbrev pub answer_of : Option (DictTracker D) → DictKey → Option Value
  answer_of none k = none
  answer_of (some t) k = lookup dicts t.dict k

  abbrev pub answer : DictManager D → ℤ → DictKey → Option Value
  answer g segment k = answer_of (g.trackers segment) k

  abbrev pub Reads : PyResult PyMaybeRelocatable → Option Value → Type 0
  Reads r (some v) = r ≡ success (from_maybe_relocatable v)
  Reads r none = (e : PyErr) × (r ≡ failure e)

  -- A result and a new manager agree with what the manager answers; no answer has changed.
  abbrev pub IsRead :
      DictManager D → ℤ → DictKey → PyResult PyMaybeRelocatable × DictManager D → Type 0
  IsRead g segment k r =
      Reads r.0 (answer g segment k)
      × ((j : ℤ) (k' : DictKey) → answer r.1 j k' ≡ answer g j k')
      × (r.1.preimages ≡ g.preimages)

  answer-set_tracker :
      (g : DictManager D) (segment : ℤ) (t t' : DictTracker D)
      → g.trackers segment ≡ some t
      → ((k : DictKey) → lookup dicts t'.dict k ≡ lookup dicts t.dict k)
      → (j : ℤ) (k : DictKey) → answer (set_tracker g segment t') j k ≡ answer g j k
  answer-set_tracker g segment t t' found same j k = elim (Bool-cases (int_eq segment j)) [
    | inl here ↦
        let at : g.trackers j ≡ some t =
          ap g.trackers (sym ((int_eq_iff segment j).0 here)) ∙ found in
        ap (λ b. answer_of (if b then some t' else g.trackers j) k) here
        ∙ same k
        ∙ ap (λ o. answer_of o k) (sym at)
    | inr other ↦ ap (λ b. answer_of (if b then some t' else g.trackers j) k) other
  ]

  get_value-some :
      (g : DictManager D) (segment : ℤ) (key : PyDictKey) (t : DictTracker D)
      → g.trackers segment ≡ some t
      → get_value F dicts d g segment key ≡ (
        from_value (from_library d value_error (dicts.get_value t.dict (to_dict_key F key)).0),
        set_tracker g segment (record t { dict = (dicts.get_value t.dict (to_dict_key F key)).1 }),
      )
  unfolding get_value
  get_value-some g segment key t e = rw (get_value, e) refl

  -- A read in the dictionary of a tracker.
  IsRead-tracker :
      (g : DictManager D) (segment : ℤ) (k : DictKey) (t : DictTracker D) (o : Option Value)
      → g.trackers segment ≡ some t
      → lookup dicts t.dict k ≡ o
      → IsRead g segment k (
        from_value (from_library d value_error (dicts.get_value t.dict k).0),
        set_tracker g segment (record t { dict = (dicts.get_value t.dict k).1 }),
      )
  IsRead-tracker g segment k t (some v) e found =
      let (dict, got, same) = get_value-lookup dicts t.dict k v found in
      let at : answer g segment k ≡ some v = ap (λ u. answer_of u k) e ∙ found in
      (
        subst (Reads _) (sym at) (rw got refl),
        answer-set_tracker g segment t _ e (rw got same),
        refl,
      )
  IsRead-tracker g segment k t none e missing =
      let (x, failed) = get_value_none_lem dicts t.dict k missing in
      let at : answer g segment k ≡ none = ap (λ u. answer_of u k) e ∙ missing in
      (
        subst (Reads _) (sym at)
            (record { kind = value_error; message = d.error x }, rw failed refl),
        answer-set_tracker g segment t _ e (rw failed (λ j. refl)),
        refl,
      )

  -- For every manager, segment and key, a read by the Python dictionary manager returns what the
  -- manager answers there, and raises an exception where it answers nothing; it changes no answer
  -- and no preimage.
  pub get_value-answer :
      (g : DictManager D) (segment : ℤ) (key : PyDictKey)
      → IsRead g segment (to_dict_key F key) (get_value F dicts d g segment key)
  unfolding get_value
  get_value-answer g segment key = elim (Option-cases (g.trackers segment)) [
    | inl e ↦
        let missing : PyErr = record { kind = value_error; message = "Segment index not found" } in
        let at : answer g segment (to_dict_key F key) ≡ none =
          ap (λ u. answer_of u (to_dict_key F key)) e in
        let failed : get_value F dicts d g segment key ≡ (failure missing, g) =
          rw (get_value, e) refl in
        subst (IsRead g segment (to_dict_key F key)) (sym failed)
          (subst (Reads (failure missing)) (sym at) (missing, refl), λ j k. refl, refl)
    | inr (t, e) ↦
        subst (IsRead g segment (to_dict_key F key)) (sym (get_value-some g segment key t e))
          (IsRead-tracker g segment (to_dict_key F key) t _ e refl)
  ]
