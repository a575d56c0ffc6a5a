-- ===== src/Tests/Store.antt =====
-- A small dictionary library on which the assumed behaviour holds.
use keth.Prelude.{
  ℤ, pos, ◌+◌, int_eq, true, false, Option, some, none, List, [], ◌∷◌, ◌≡◌, ◌≢◌, refl, sym, ap, ◌∙◌,
  arith, if◌then◌else◌, Relocatable, Result, ok, err, HintError, library, Bool-cases, inl, inr,
  Option-cases,
}
use keth.Machine.{Value}
use keth.Dicts.{DictKey, Dicts, DictManager, DictTracker, find, relocatable_eq, set_tracker}
use keth.Dicts.Lookup.{relocatable_eq_iff}
use keth.Tests.Library.{Vm, at}

-- A dictionary: its entries, the newest first, and the default value.
pub record Store : Type 0 where
  pub items : List (DictKey × Value)
  pub fallback : Option Value

abbrev pub store_insert : Store → DictKey → Value → Store
store_insert d k v = record d { items = (k, v) ∷ d.items }

abbrev pub store_get : Store → DictKey → Result Value × Store
store_get d k = elim (find k d.items) [
  | some v ↦ (ok v, d)
  | none ↦ elim d.fallback [
    | some v ↦ (ok v, store_insert d k v)
    | none ↦ (err (library "no value for the key"), d)
  ]
]

abbrev pub store_tracker : DictManager Store → Relocatable → Result (DictTracker Store)
store_tracker g p = elim (g.trackers p.segment_index) [
  | none ↦ err (library "no tracker")
  | some t ↦
      if relocatable_eq t.current_ptr p then ok t else err (library "the pointer does not match")
]

abbrev pub store_new : Store → Vm → DictManager Store → Result Relocatable × Vm × DictManager Store
store_new d s g = elim (g.trackers (pos s.next_segment)) [
  | some t ↦ (err (library "a tracker exists"), s, g)
  | none ↦ (
    ok (at s.next_segment 0),
    record s { next_segment = s.next_segment + 1 },
    set_tracker g (pos s.next_segment) (record { current_ptr = at s.next_segment 0; dict = d }),
  )
]

pub store_get_found :
    (d : Store) (k : DictKey) (v : Value) → find k d.items ≡ some v → store_get d k ≡ (ok v, d)
store_get_found d k v h = rw (h, store_get) refl

pub store_get_default :
    (d : Store) (k : DictKey) (v : Value)
    → find k d.items ≡ none
    → d.fallback ≡ some v
    → store_get d k ≡ (ok v, store_insert d k v)
store_get_default d k v h e = ground arith

pub store_get_missing :
    (d : Store) (k : DictKey)
    → find k d.items ≡ none
    → d.fallback ≡ none
    → (e : HintError) × (store_get d k ≡ (err e, d))
store_get_missing d k h e = (library "no value for the key", ground arith)

pub store_tracker_found :
    (g : DictManager Store) (p : Relocatable) (t : DictTracker Store)
    → g.trackers p.segment_index ≡ some t
    → t.current_ptr ≡ p
    → store_tracker g p ≡ ok t
store_tracker_found g p t h e = ground (arith, (relocatable_eq_iff t.current_ptr p).1 e)

pub store_tracker_inv :
    (g : DictManager Store) (p : Relocatable) (t : DictTracker Store)
    → store_tracker g p ≡ ok t
    → (g.trackers p.segment_index ≡ some t) × (t.current_ptr ≡ p)
store_tracker_inv g p t h = elim (Option-cases (g.trackers p.segment_index)) [
  | inl e ↦ ground arith
  | inr (u, e) ↦ elim (Bool-cases (relocatable_eq u.current_ptr p)) [
    | inl same ↦
        let here : ok u ≡ ok t = sym (go u e same) ∙ h in
        let eq : u ≡ t = cc here in
        (
          e ∙ ap some eq,
          ap (λ x. x.current_ptr) (sym eq) ∙ (relocatable_eq_iff u.current_ptr p).0 same,
        )
    | inr other ↦ ground arith
  ]
]
  where
    go :
        (u : DictTracker Store)
        → g.trackers p.segment_index ≡ some u
        → relocatable_eq u.current_ptr p ≡ true
        → store_tracker g p ≡ ok u
    go u e same = ground arith

pub store_new_lem :
    (d : Store) (s s' : Vm) (g g' : DictManager Store) (base : Relocatable)
    → store_new d s g ≡ (ok base, s', g')
    → (g.trackers base.segment_index ≡ none)
      × (g'.trackers base.segment_index ≡ some (record { current_ptr = base; dict = d }))
      × ((j : ℤ) → int_eq base.segment_index j ≡ false → g'.trackers j ≡ g.trackers j)
      × (g'.preimages ≡ g.preimages)
store_new_lem d s s' g g' base h = elim (Option-cases (g.trackers (pos s.next_segment))) [
  | inl e ↦
      let ends = sym (go e) ∙ h in
      let here : at s.next_segment 0 ≡ base = cc ends in
      let after = ap (λ r. r.2) ends in
      (
        ap (λ r. g.trackers r.segment_index) (sym here) ∙ e,
        ap (λ t. t.trackers base.segment_index) (sym after)
            ∙ ap
                (λ r.
                  (set_tracker g (pos s.next_segment)
                      (record { current_ptr = r; dict = d })).trackers
                    base.segment_index)
                here
            ∙ ground (arith, ap (λ r. r.segment_index) here),
        λ j other.
            ap (λ t. t.trackers j) (sym after)
            ∙ ground (arith, ap (λ r. int_eq r.segment_index j) here),
        ap (λ t. t.preimages) (sym after),
      )
  | inr (u, e) ↦ ground arith
]
  where
    go :
        g.trackers (pos s.next_segment) ≡ none
        → store_new d s g ≡ (
          ok (at s.next_segment 0),
          record s { next_segment = s.next_segment + 1 },
          set_tracker g
              (pos s.next_segment)
              (record { current_ptr = at s.next_segment 0; dict = d }),
        )
    go e = ground arith

pub store_new_failed :
    (d : Store) (s : Vm) (g : DictManager Store)
    → ((base : Relocatable) → (store_new d s g).0 ≢ ok base)
    → (store_new d s g).2 ≡ g
store_new_failed d s g failed = elim (Option-cases (g.trackers (pos s.next_segment))) [
  | inl e ↦ absurd (failed (at s.next_segment 0) (ground arith))
  | inr (u, e) ↦ ground arith
]

abbrev pub dict_lib : Dicts Vm Store
dict_lib = record {
  get_value = store_get;
  insert_value = store_insert;
  entries = λ d. d.items;
  default_value = λ d. d.fallback;
  simple_dict = λ l. record { items = l; fallback = none };
  default_dict = λ v l. record { items = l; fallback = some v };
  get_tracker = store_tracker;
  new_dict = λ s g l. store_new (record { items = l; fallback = none }) s g;
  new_default_dict = λ s g v l. store_new (record { items = l; fallback = some v }) s g;
  get_dict_manager_error = library "no dictionary manager";
  dict_access_size = 3;
  poseidon_hash_many = λ l. elim l [ [] ↦ 0 | x ∷ _ ↦ x ];
  display_key = λ k. "key";
  display_value = λ v. "value";
  get_value_found = store_get_found;
  get_value_default = store_get_default;
  get_value_missing = store_get_missing;
  find-insert_value = λ d j k v. refl;
  default_value-insert_value = λ d k v. refl;
  find-simple_dict = λ k l. refl;
  default_value-simple_dict = λ l. refl;
  find-default_dict = λ k v l. refl;
  default_value-default_dict = λ v l. refl;
  new_dict_lem = λ s s' g g' l. store_new_lem (record { items = l; fallback = none }) s s' g g';
  new_default_dict_lem =
      λ s s' g g' v l. store_new_lem (record { items = l; fallback = some v }) s s' g g';
  new_dict_failed = λ s g l. store_new_failed (record { items = l; fallback = none }) s g;
  new_default_dict_failed =
      λ s g v l. store_new_failed (record { items = l; fallback = some v }) s g;
  get_tracker_found = store_tracker_found;
  get_tracker_inv = store_tracker_inv;
}
