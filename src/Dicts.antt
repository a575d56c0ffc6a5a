-- ===== src/Dicts.antt =====
-- The dictionaries of cairo-vm (`DictManager`, `DictTracker`, `DictKey`), as far as the hints use
-- them. A dictionary's contents are a type `D` of the library, with the methods that the hints
-- call; the fields that the hints name are fields here. A `HashMap` that the code looks up is a
-- function; one that it walks is a list of its entries, in the order in which the map yields them.
pub mod Lookup
use keth.Prelude.{
  ℕ, ℤ, int_eq, String, List, [], ◌∷◌, Option, some, none, Bool, true, false, ◌&&◌, ◌==◌,
  if◌then◌else◌, ◌≡◌, ◌≢◌, Relocatable, Result, ok, err, HintError, Action, custom_hint, library,
  length, refl, arith,
}
use keth.Machine.{Value, int, relocatable}

pub data DictKey : Type 0 where
  simple : Value → DictKey
  compound : List Value → DictKey

-- `==` on addresses, cells and keys
abbrev pub relocatable_eq : Relocatable → Relocatable → Bool
relocatable_eq a b = int_eq a.segment_index b.segment_index && a.offset == b.offset

abbrev pub value_eq : Value → Value → Bool
value_eq (int a) (int b) = a == b
value_eq (relocatable a) (relocatable b) = relocatable_eq a b
value_eq _ _ = false

abbrev pub values_eq : List Value → List Value → Bool
values_eq [] [] = true
values_eq (a ∷ as') (b ∷ bs) = value_eq a b && values_eq as' bs
values_eq _ _ = false

abbrev pub key_eq : DictKey → DictKey → Bool
key_eq (simple a) (simple b) = value_eq a b
key_eq (compound a) (compound b) = values_eq a b
key_eq _ _ = false

-- The value that a map with these entries has at a key.
abbrev pub find : DictKey → List (DictKey × Value) → Option Value
find k [] = none
find k ((j, v) ∷ rest) = if key_eq j k then some v else find k rest

pub record DictTracker (D : Type 0) : Type 0 where
  pub current_ptr : Relocatable
  pub dict : D

pub record DictManager (D : Type 0) : Type 0 where
  pub trackers : ℤ → Option (DictTracker D)
  pub preimages : Value → Option DictKey

-- The virtual machine with the dictionary manager of the execution scopes, if there is one.
pub record World (S D : Type 0) : Type 0 where
  pub vm : S
  pub dict_manager : Option (DictManager D)

-- The methods of the library.
pub record Dicts (S D : Type 0) : Type 0 where
  pub get_value : D → DictKey → Result Value × D
  pub insert_value : D → DictKey → Value → D
  pub entries : D → List (DictKey × Value)
  pub default_value : D → Option Value
  -- `new_with_initial` and `new_default_dict` of a tracker
  pub simple_dict : List (DictKey × Value) → D
  pub default_dict : Value → List (DictKey × Value) → D
  -- `get_tracker` and `get_tracker_mut` of the manager
  pub get_tracker : DictManager D → Relocatable → Result (DictTracker D)
  -- `new_dict` and `new_default_dict` of the manager: a new segment, and a tracker for it
  pub new_dict : S → DictManager D → List (DictKey × Value) → Result Relocatable × S × DictManager D
  pub new_default_dict :
      S → DictManager D → Value → List (DictKey × Value) → Result Relocatable × S × DictManager D
  pub get_dict_manager_error : HintError
  -- `DICT_ACCESS_SIZE`, and the hash `poseidon_hash_many` of starknet-crypto
  pub dict_access_size : ℕ
  pub poseidon_hash_many : List ℕ → ℕ
  -- how a key and a cell are printed
  pub display_key : DictKey → String
  pub display_value : Value → String
  -- a value that is set is found; a default is stored on the first read; else there is an error
  pub get_value_found :
      (d : D) (k : DictKey) (v : Value) → find k (entries d) ≡ some v → get_value d k ≡ (ok v, d)
  pub get_value_default :
      (d : D) (k : DictKey) (v : Value)
      → find k (entries d) ≡ none
      → default_value d ≡ some v
      → get_value d k ≡ (ok v, insert_value d k v)
  pub get_value_missing :
      (d : D) (k : DictKey)
      → find k (entries d) ≡ none
      → default_value d ≡ none
      → (e : HintError) × (get_value d k ≡ (err e, d))
  pub find-insert_value :
      (d : D) (j k : DictKey) (v : Value)
      → find j (entries (insert_value d k v)) ≡ (if key_eq k j then some v else find j (entries d))
  pub default_value-insert_value :
      (d : D) (k : DictKey) (v : Value) → default_value (insert_value d k v) ≡ default_value d
  pub find-simple_dict :
      (k : DictKey) (l : List (DictKey × Value)) → find k (entries (simple_dict l)) ≡ find k l
  pub default_value-simple_dict :
      (l : List (DictKey × Value)) → default_value (simple_dict l) ≡ none
  pub find-default_dict :
      (k : DictKey) (v : Value) (l : List (DictKey × Value))
      → find k (entries (default_dict v l)) ≡ find k l
  pub default_value-default_dict :
      (v : Value) (l : List (DictKey × Value)) → default_value (default_dict v l) ≡ some v
  -- a new dictionary stands in a segment without a tracker, and is the only one that changes
  pub new_dict_lem :
      (s s' : S) (g g' : DictManager D) (l : List (DictKey × Value)) (base : Relocatable)
      → new_dict s g l ≡ (ok base, s', g')
      → (g.trackers base.segment_index ≡ none)
        × (g'.trackers base.segment_index
            ≡ some (record { current_ptr = base; dict = simple_dict l }))
        × ((j : ℤ) → int_eq base.segment_index j ≡ false → g'.trackers j ≡ g.trackers j)
        × (g'.preimages ≡ g.preimages)
  pub new_default_dict_lem :
      (s s' : S) (g g' : DictManager D) (v : Value) (l : List (DictKey × Value))
      (base : Relocatable)
      → new_default_dict s g v l ≡ (ok base, s', g')
      → (g.trackers base.segment_index ≡ none)
        × (g'.trackers base.segment_index
            ≡ some (record { current_ptr = base; dict = default_dict v l }))
        × ((j : ℤ) → int_eq base.segment_index j ≡ false → g'.trackers j ≡ g.trackers j)
        × (g'.preimages ≡ g.preimages)
  -- where no dictionary is created, the manager is as before
  pub new_dict_failed :
      (s : S) (g : DictManager D) (l : List (DictKey × Value))
      → ((base : Relocatable) → (new_dict s g l).0 ≢ ok base)
      → (new_dict s g l).2 ≡ g
  pub new_default_dict_failed :
      (s : S) (g : DictManager D) (v : Value) (l : List (DictKey × Value))
      → ((base : Relocatable) → (new_default_dict s g v l).0 ≢ ok base)
      → (new_default_dict s g v l).2 ≡ g
  -- the tracker of the pointer's segment, which must stand at the pointer
  pub get_tracker_found :
      (g : DictManager D) (p : Relocatable) (t : DictTracker D)
      → g.trackers p.segment_index ≡ some t
      → t.current_ptr ≡ p
      → get_tracker g p ≡ ok t
  pub get_tracker_inv :
      (g : DictManager D) (p : Relocatable) (t : DictTracker D)
      → get_tracker g p ≡ ok t
      → (g.trackers p.segment_index ≡ some t) × (t.current_ptr ≡ p)

-- An entry of the map `trackers` is replaced.
abbrev pub set_tracker : {D : Type 0} → DictManager D → ℤ → DictTracker D → DictManager D
set_tracker g segment t = record g {
  trackers = λ j. if int_eq segment j then some t else g.trackers j;
}

-- An entry of the map `preimages` is replaced.
abbrev pub set_preimage : {D : Type 0} → DictManager D → Value → DictKey → DictManager D
set_preimage g hash key = record g {
  preimages = λ j. if value_eq hash j then some key else g.preimages j;
}

module _ {S D A : Type 0} where
  -- A step of the virtual machine alone.
  abbrev pub in_vm : Action S A → Action (World S D) A
  in_vm step w = let (r, vm') = step w.vm in (r, record w { vm = vm' })

module _ {S D : Type 0} (dicts : Dicts S D) where
  -- `exec_scopes.get_dict_manager()?`
  abbrev pub get_dict_manager : Action (World S D) (DictManager D)
  get_dict_manager w = elim w.dict_manager [
    | none ↦ (err dicts.get_dict_manager_error, w)
    | some g ↦ (ok g, w)
  ]

-- What was changed through the `RefCell` of the manager.
abbrev pub set_dict_manager : {S D : Type 0} → DictManager D → Action (World S D) (Unit {0})
set_dict_manager g w = (ok tt, record w { dict_manager = some g })
