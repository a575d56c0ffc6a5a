-- ===== src/Dicts/Lookup.antt =====
-- What a dictionary answers at a key: the abstract view of a tracker's data, in which the default
-- counts and it does not matter whether it has been stored.
use keth.Prelude.{
  int_eq_iff, List, [], ◌∷◌, Option, some, none, true, if◌then◌else◌, ◌≡◌, ◌↔◌, refl, sym, ◌∙◌, ap,
  inl, inr, Bool-cases, Option-cases, arith, Relocatable, ok, err, HintError,
}
use keth.Machine.{Value, int, relocatable}
use keth.Dicts.{DictKey, simple, compound, Dicts, find, relocatable_eq, value_eq, values_eq, key_eq}

pub relocatable_eq_iff : (a b : Relocatable) → (relocatable_eq a b ≡ true) ↔ (a ≡ b)
relocatable_eq_iff a b = ground (arith, int_eq_iff a.segment_index b.segment_index)

pub value_eq_iff : (a b : Value) → (value_eq a b ≡ true) ↔ (a ≡ b)
value_eq_iff (int a) (int b) = ground arith
value_eq_iff (relocatable a) (relocatable b) = ground (arith, relocatable_eq_iff a b)
value_eq_iff (int a) (relocatable b) = ground arith
value_eq_iff (relocatable a) (int b) = ground arith

pub values_eq_iff : (a b : List Value) → (values_eq a b ≡ true) ↔ (a ≡ b)
values_eq_iff [] [] = ground arith
values_eq_iff (a ∷ as') (b ∷ bs) = ground (arith, value_eq_iff a b, values_eq_iff as' bs)
values_eq_iff [] (b ∷ bs) = ground arith
values_eq_iff (a ∷ as') [] = ground arith

pub key_eq_iff : (a b : DictKey) → (key_eq a b ≡ true) ↔ (a ≡ b)
key_eq_iff (simple a) (simple b) = ground (arith, value_eq_iff a b)
key_eq_iff (compound a) (compound b) = ground (arith, values_eq_iff a b)
key_eq_iff (simple a) (compound b) = ground arith
key_eq_iff (compound a) (simple b) = ground arith

pub key_eq_refl : (k : DictKey) → key_eq k k ≡ true
key_eq_refl k = (key_eq_iff k k).1 refl

abbrev or_default : Option Value → Option Value → Option Value
or_default (some v) d = some v
or_default none d = d

module _ {S D : Type 0} (dicts : Dicts S D) where
  abbrev pub lookup : D → DictKey → Option Value
  lookup d k = or_default (find k (dicts.entries d)) (dicts.default_value d)

  -- A write changes the answer at its key alone.
  pub lookup-insert_value :
      (d : D) (j k : DictKey) (v : Value)
      → lookup (dicts.insert_value d k v) j ≡ (if key_eq k j then some v else lookup d j)
  lookup-insert_value d j k v = elim (Bool-cases (key_eq k j)) [
    | inl e ↦ rw (dicts.find-insert_value d j k v, e)
    | inr e ↦ rw (dicts.find-insert_value d j k v, e, dicts.default_value-insert_value d k v)
  ]

  pub lookup-insert_value_self :
      (d : D) (k : DictKey) (v : Value) → lookup (dicts.insert_value d k v) k ≡ some v
  lookup-insert_value_self d k v = rw (lookup-insert_value d k k v, key_eq_refl k)

  -- A read returns the answer, and changes none.
  pub get_value-lookup :
      (d : D) (k : DictKey) (v : Value)
      → lookup d k ≡ some v
      → (d' : D) × (dicts.get_value d k ≡ (ok v, d')) × ((j : DictKey) → lookup d' j ≡ lookup d j)
  get_value-lookup d k v h = elim (Option-cases (find k (dicts.entries d))) [
    | inr (u, e) ↦ (d, dicts.get_value_found d k v (e ∙ (rw e at h)), λ j. refl)
    | inl e ↦
        let default : dicts.default_value d ≡ some v = (rw e at h) in
        (
          dicts.insert_value d k v,
          dicts.get_value_default d k v e default,
          λ j. lookup-insert_value d j k v ∙ same j,
        )
  ]
    where
      same : (j : DictKey) → (if key_eq k j then some v else lookup d j) ≡ lookup d j
      same j = elim (Bool-cases (key_eq k j)) [
        | inl e ↦ rw e (sym h ∙ ap (lookup d) ((key_eq_iff k j).0 e))
        | inr e ↦ rw e
      ]

  -- Where there is no answer, a read is an error and changes nothing.
  pub get_value_none_lem :
      (d : D) (k : DictKey)
      → lookup d k ≡ none
      → (e : HintError) × (dicts.get_value d k ≡ (err e, d))
  get_value_none_lem d k h = elim (Option-cases (find k (dicts.entries d))) [
    | inl e ↦ dicts.get_value_missing d k e (rw e at h)
    | inr (u, e) ↦ ground (arith, (rw e at h))
  ]
