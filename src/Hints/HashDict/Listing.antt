-- ===== src/Hints/HashDict/Listing.antt =====
-- Which keys the two listing hints select.
use keth.Prelude.{
  if◌then◌else◌, List, [], ◌∷◌, ◌++◌, some, none, Bool, true, false, not, ◌≡◌, ◌↔◌, refl, sym, ◌∙◌,
  ap, arith, ◌⊎◌, inl, inr, In, Bool-cases, Option-cases, length, take, drop, take-append-drop,
  take-append, length-append,
}
use keth.Machine.{Value}
use keth.Dicts.{DictKey, simple, compound}
use keth.Dicts.Lookup.{values_eq_iff}
use keth.Hints.HashDict.{matching_key, matching_preimages, storage_preimages, is_zero_int}

-- The key is stored, with a value on which `keep` holds, and begins with the prefix.
pub record IsListed (keep : Value → Bool) (prefix : List Value) (entries : List (DictKey × Value))
    (values : List Value) : Type 0 where
  pub rest : List Value
  pub value : Value
  pub begins : values ≡ prefix ++ rest
  pub stored : In (compound values, value) entries
  pub kept : keep value ≡ true

-- A key matches if it is compound and extends the prefix.
matching_key_inv :
    (prefix values : List Value) (key : DictKey)
    → matching_key prefix key ≡ some values
    → (key ≡ compound values) × (values ≡ prefix ++ drop (length prefix) values)
unfolding matching_key
matching_key_inv prefix values (simple v) h = cc
matching_key_inv prefix values (compound vs) h =
    ground
      (arith, values_eq_iff (take (length prefix) vs) prefix, take-append-drop (length prefix) vs)

matching_key-append :
    (prefix rest : List Value)
    → matching_key prefix (compound (prefix ++ rest)) ≡ some (prefix ++ rest)
unfolding matching_key
matching_key-append prefix rest = ground (
  arith,
  take-append prefix rest,
  values_eq_iff (take (length prefix) (prefix ++ rest)) prefix,
  length-append prefix rest,
)

-- One walk over the entries, by what is kept.
select : (Value → Bool) → List Value → List (DictKey × Value) → List (List Value)
select keep prefix [] = []
select keep prefix ((key, value) ∷ entries) =
    let rest = select keep prefix entries in
    elim (matching_key prefix key) [
      | some values ↦ if keep value then values ∷ rest else rest
      | none ↦ rest
    ]

matching_preimages-eq-select :
    (prefix : List Value) (entries : List (DictKey × Value))
    → matching_preimages prefix entries ≡ select (λ _. true) prefix entries
unfolding matching_preimages select
matching_preimages-eq-select prefix [] = refl
matching_preimages-eq-select prefix ((key, value) ∷ entries) =
    ground (arith, matching_preimages-eq-select prefix entries)

storage_preimages-eq-select :
    (prefix : List Value) (entries : List (DictKey × Value))
    → storage_preimages prefix entries ≡ select (λ value. not (is_zero_int value)) prefix entries
unfolding storage_preimages select
storage_preimages-eq-select prefix [] = refl
storage_preimages-eq-select prefix ((key, value) ∷ entries) =
    ground (arith, storage_preimages-eq-select prefix entries)

module _ (keep : Value → Bool) (prefix values : List Value) where
  IsListed-cons :
      (e : DictKey × Value) (entries : List (DictKey × Value))
      → IsListed keep prefix entries values
      → IsListed keep prefix (e ∷ entries) values
  IsListed-cons e entries l = record {
    rest = l.rest;
    value = l.value;
    begins = l.begins;
    stored = inr l.stored;
    kept = l.kept;
  }

  select-none :
      (key : DictKey) (value : Value) (entries : List (DictKey × Value))
      → matching_key prefix key ≡ none
      → select keep prefix ((key, value) ∷ entries) ≡ select keep prefix entries
  unfolding select
  select-none key value entries e = ground arith

  select-keep :
      (key : DictKey) (value : Value) (entries : List (DictKey × Value)) (vs : List Value)
      → matching_key prefix key ≡ some vs
      → keep value ≡ true
      → select keep prefix ((key, value) ∷ entries) ≡ vs ∷ select keep prefix entries
  unfolding select
  select-keep key value entries vs e k = ground arith

  select-drop :
      (key : DictKey) (value : Value) (entries : List (DictKey × Value)) (vs : List Value)
      → matching_key prefix key ≡ some vs
      → keep value ≡ false
      → select keep prefix ((key, value) ∷ entries) ≡ select keep prefix entries
  unfolding select
  select-drop key value entries vs e k = ground arith

  select-IsListed :
      (entries : List (DictKey × Value))
      → In values (select keep prefix entries)
      → IsListed keep prefix entries values
  select-IsListed [] h = absurd (unfold select in h)
  select-IsListed ((key, value) ∷ entries) h = elim (Option-cases (matching_key prefix key)) [
    | inl e ↦ IsListed-cons (key, value) entries (select-IsListed entries (skip e))
    | inr (vs, e) ↦ elim (Bool-cases (keep value)) [
      | inl k ↦ elim (first vs e k) [
        | inl same ↦
            let (is_key, begins) = matching_key_inv prefix vs key e in
            record {
              rest = drop (length prefix) vs;
              value = value;
              begins = same ∙ begins;
              stored = inl (ap (λ l. (l, value)) (ap compound same ∙ sym is_key));
              kept = k;
            }
        | inr later ↦ IsListed-cons (key, value) entries (select-IsListed entries later)
      ]
      | inr k ↦ IsListed-cons (key, value) entries (select-IsListed entries (drop_it vs e k))
    ]
  ]
    where
      skip : matching_key prefix key ≡ none → In values (select keep prefix entries)
      skip e = rw (select-none key value entries e) at h

      first :
          (vs : List Value)
          → matching_key prefix key ≡ some vs
          → keep value ≡ true
          → (values ≡ vs) ⊎ In values (select keep prefix entries)
      first vs e k = rw (select-keep key value entries vs e k) at h

      drop_it :
          (vs : List Value)
          → matching_key prefix key ≡ some vs
          → keep value ≡ false
          → In values (select keep prefix entries)
      drop_it vs e k = rw (select-drop key value entries vs e k) at h

  select_finds :
      (value : Value) (entries : List (DictKey × Value))
      → matching_key prefix (compound values) ≡ some values
      → keep value ≡ true
      → In (compound values, value) entries
      → In values (select keep prefix entries)
  select_finds value [] m k h = absurd h
  select_finds value ((key, v) ∷ entries) m k (inl e) =
      let key_is : key ≡ compound values = ap (λ t. t.0) (sym e) in
      let value_is : v ≡ value = ap (λ t. t.1) (sym e) in
      rw
        (select-keep key v entries values (ap (matching_key prefix) key_is ∙ m)
          (ap keep value_is ∙ k))
        (inl refl)
  select_finds value ((key, v) ∷ entries) m k (inr h) =
      elim (Option-cases (matching_key prefix key)) [
        | inl e ↦ rw (select-none key v entries e) (select_finds value entries m k h)
        | inr (vs, e) ↦ elim (Bool-cases (keep v)) [
          | inl kept ↦
              rw (select-keep key v entries vs e kept) (inr (select_finds value entries m k h))
          | inr dropped ↦
              rw (select-drop key v entries vs e dropped) (select_finds value entries m k h)
        ]
      ]

  select_iff :
      (entries : List (DictKey × Value))
      → In values (select keep prefix entries) ↔ IsListed keep prefix entries values
  select_iff entries = (
    select-IsListed entries,
    λ l.
        select_finds l.value entries
          (ap (matching_key prefix) (ap compound l.begins)
            ∙ (matching_key-append prefix l.rest ∙ ap some (sym l.begins)))
          l.kept l.stored,
  )

-- `get_keys_for_address_prefix` selects exactly the stored compound keys that extend the prefix.
pub matching_preimages_iff :
    (prefix values : List Value) (entries : List (DictKey × Value))
    → In values (matching_preimages prefix entries) ↔ IsListed (λ _. true) prefix entries values
matching_preimages_iff prefix values entries =
    rw (matching_preimages-eq-select prefix entries) (select_iff (λ _. true) prefix values entries)

-- `get_storage_keys_for_address` selects exactly the stored compound keys that extend the prefix
-- and have an entry whose value is not the integer 0.
pub storage_preimages_iff :
    (prefix values : List Value) (entries : List (DictKey × Value))
    → In values (storage_preimages prefix entries)
      ↔ IsListed (λ value. not (is_zero_int value)) prefix entries values
storage_preimages_iff prefix values entries =
    rw (storage_preimages-eq-select prefix entries)
      (select_iff (λ value. not (is_zero_int value)) prefix values entries)
