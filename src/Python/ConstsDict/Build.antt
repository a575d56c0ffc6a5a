-- ===== src/Python/ConstsDict/Build.antt =====
-- What `create_vm_consts_dict` puts under each name.
use text.Mathlib.Text.{◌==◌ as str_eq}
use text.Mathlib.TextEquality.{eq_iff}
use text.Mathlib.TextPositions.{eq_refl}
use mathlib.Core.Path.{subst}
use keth.Prelude.{
  String, List, [], ◌∷◌, Option, some, none, false, Bool-cases, inl, inr, if◌then◌else◌, ◌≡◌, refl,
  sym, ap, ◌∙◌, arith,
}
use keth.Machine.{Machine}
use keth.Python.{Try, success}
use keth.Python.Variables.{get, Identifiers, DynamicHintError}
use keth.Python.Consts.{PyObject}
use keth.Python.ConstsDict.{
  Items, put, inserted, References, variable_object, create_items, create_vm_consts_dict,
}

module _ {A : Type 0} where
  pub get-put :
      (key name : String) (a : A) (l : List (String × A))
      → get (put key a l) name ≡ (if str_eq key name then some a else get l name)
  get-put key name a [] = refl
  get-put key name a ((k, b) ∷ rest) =
      ground (arith, get-put key name a rest, eq_iff k key, eq_iff k name, eq_iff key name)

  -- No name stands twice: the list is the list of the entries of a map.
  abbrev pub Distinct : List (String × A) → Type 0
  Distinct [] = Unit {0}
  Distinct ((k, a) ∷ rest) = (get rest k ≡ none) × Distinct rest

-- What the map has at a name after a round.
abbrev pub after : Option PyObject → Option PyObject → Option PyObject
after none old = old
after (some o) old = some o

module _ {S R T : Type 0} (refs : References S R T) (m : Machine S (List (String × R) × T))
    (identifiers : Identifiers) (ids_data : List (String × R)) (ap_tracking : T) (s : S) where
  abbrev pub object_of : String → R → Try DynamicHintError (Option PyObject)
  object_of = variable_object refs m identifiers ids_data ap_tracking s

  -- Each of the variables gets an object, or is left out without an error.
  abbrev pub Creates : List (String × R) → Type 0
  Creates [] = Unit {0}
  Creates ((name, r) ∷ rest) =
      ((o : Option PyObject) × (object_of name r ≡ success o)) × Creates rest

  -- What a name has in the map after the loop, from what it had before.
  abbrev Entry : Items → Items → String → Option R → Type 0
  Entry items items' name none = get items' name ≡ get items name
  Entry items items' name (some r) =
      (o : Option PyObject) × (object_of name r ≡ success o)
      × (get items' name ≡ after o (get items name))

  get-inserted :
      (name : String) (o : Option PyObject) (items : Items)
      → get (inserted name o items) name ≡ after o (get items name)
  get-inserted name none items = refl
  get-inserted name (some o) items = get-put name name o items ∙ rw (eq_refl name) refl

  get-inserted_other :
      (key name : String) (o : Option PyObject) (items : Items)
      → str_eq key name ≡ false
      → get (inserted key o items) name ≡ get items name
  get-inserted_other key name none items h = refl
  get-inserted_other key name (some o) items h = get-put key name o items ∙ rw h refl

  Entry-before :
      (items items' mid : Items) (name : String) (r : Option R)
      → get mid name ≡ get items name
      → Entry mid items' name r
      → Entry items items' name r
  Entry-before items items' mid name none same e = e ∙ same
  Entry-before items items' mid name (some r) same (o, made, e) = (o, made, e ∙ ap (after o) same)

  create_items_lem :
      (l : List (String × R)) (items : Items)
      → Distinct l
      → Creates l
      → (items' : Items) × (create_items refs m identifiers ids_data ap_tracking s l items
          ≡ success items')
        × ((name : String) → Entry items items' name (get l name))
  unfolding create_items
  create_items_lem [] items distinct creates = (items, refl, λ name. refl)
  create_items_lem ((k, r) ∷ rest) items (fresh, distinct) ((o, made), creates) =
      let (items', ran, entries) = create_items_lem rest (inserted k o items) distinct creates in
      (
        items',
        rw (made, create_items) ran,
        λ name. elim (Bool-cases (str_eq k name)) [
          | inl same ↦
              let e = (eq_iff k name).0 same in
              let gone : get rest name ≡ none = subst (λ n. get rest n ≡ none) e fresh in
              let kept : get items' name ≡ get (inserted k o items) name =
                subst (Entry (inserted k o items) items' name) gone (entries name) in
              rw same (
                o,
                subst (λ n. object_of n r ≡ success o) e made,
                kept
                    ∙ subst (λ n. get (inserted n o items) name ≡ after o (get items name)) (sym e)
                        (get-inserted name o items),
              )
          | inr apart ↦ rw apart (
              Entry-before items items' (inserted k o items) name (get rest name)
                (get-inserted_other k name o items apart) (entries name))
        ],
      )

  -- The object of a variable, and none for a name that is no variable.
  abbrev pub expected : String → Option R → Try DynamicHintError (Option PyObject)
  expected name none = success none
  expected name (some r) = object_of name r

  Entry-expected :
      (items : Items) (name : String) (r : Option R)
      → Entry [] items name r
      → expected name r ≡ success (get items name)
  Entry-expected items name none e = ap success (sym e)
  Entry-expected items name (some r) (none, made, e) = made ∙ ap success (sym e)
  Entry-expected items name (some r) (some o, made, e) = made ∙ ap success (sym e)

  -- If no two variables have one name and each gives an object or is left out without an error, the
  -- dictionary `ids` is created, and has under each variable's name the object of that variable, if
  -- it is not left out, and nothing under any other name.
  pub create_vm_consts_dict_lem :
      Distinct ids_data
      → Creates ids_data
      → (items : Items) × (create_vm_consts_dict refs m identifiers ids_data ap_tracking s
          ≡ success items)
        × ((name : String) → expected name (get ids_data name) ≡ success (get items name))
  unfolding create_vm_consts_dict
  create_vm_consts_dict_lem distinct creates =
      let (items, ran, entries) = create_items_lem ids_data [] distinct creates in
      (items, ran, λ name. Entry-expected items name (get ids_data name) (entries name))
