-- ===== src/Processor/Registry.antt =====
-- Which function a code has after hints were registered.
use text.Mathlib.Text.{◌==◌ as str_eq}
use keth.Prelude.{
  String, List, [], ◌∷◌, ◌++◌, Option, some, none, if◌then◌else◌, ◌≡◌, refl, sym, ap, ◌∙◌,
}
use mathlib.Core.List.{append_assoc}
use keth.Python.Variables.{get}
use keth.Python.ConstsDict.{put}
use keth.Python.ConstsDict.Build.{get-put}
use keth.Processor.{HintFunc, Hint, HintProcessor, add_names, add_hint, with_hints}

-- The last function under a code in a list of registrations, and `old` if there is none.
abbrev pub last : {A : Type 0} → String → List (String × A) → Option A → Option A
last code [] old = old
last code ((k, func) ∷ rest) old = last code rest (if str_eq k code then some func else old)

module _ {W Ids C : Type 0} where
  -- The names of a hint: its id, and its Python code if there is one.
  abbrev pub names_of : Hint W Ids C → Option String → List (String × HintFunc W Ids C)
  names_of hint none = (hint.id, hint.func) ∷ []
  names_of hint (some code) = (hint.id, hint.func) ∷ (code, hint.func) ∷ []

  abbrev pub registrations :
      List (String × String) → List (Hint W Ids C) → List (String × HintFunc W Ids C)
  registrations python_hints [] = []
  registrations python_hints (hint ∷ hints) =
      names_of hint (get python_hints hint.id) ++ registrations python_hints hints

  get-add_names :
      (hint : Hint W Ids C) (python : Option String) (hints : List (String × HintFunc W Ids C))
      (code : String)
      → get (add_names hint python hints) code ≡ last code (names_of hint python) (get hints code)
  get-add_names hint none hints code = get-put hint.id code hint.func hints
  get-add_names hint (some python) hints code =
      get-put python code hint.func (put hint.id hint.func hints)
      ∙ ap (λ o. if str_eq python code then some hint.func else o)
          (get-put hint.id code hint.func hints)

pub last-append :
    {A : Type 0} (code : String) (xs ys : List (String × A)) (old : Option A)
    → last code (xs ++ ys) old ≡ last code ys (last code xs old)
last-append code [] ys old = refl
last-append code ((k, f) ∷ xs) ys old = last-append code xs ys _

module _ {W Ids C : Type 0} where
  pub registrations-append :
      (python_hints : List (String × String)) (xs ys : List (Hint W Ids C))
      → registrations python_hints (xs ++ ys)
        ≡ registrations python_hints xs ++ registrations python_hints ys
  registrations-append python_hints [] ys = refl
  registrations-append python_hints (x ∷ xs) ys =
      ap (λ l. names_of x (get python_hints x.id) ++ l) (registrations-append python_hints xs ys)
      ∙ sym (append_assoc (names_of x (get python_hints x.id)) _ _)

module _ {W Ids C Run : Type 0} where
  pub get-with_hints :
      (p : HintProcessor W Ids C Run) (hints : List (Hint W Ids C)) (code : String)
      → get (with_hints p hints).extra_hints code
        ≡ last code (registrations p.python_hints hints) (get p.extra_hints code)
  unfolding with_hints add_hint
  get-with_hints p [] code = refl
  get-with_hints p (hint ∷ hints) code =
      get-with_hints (add_hint p hint) hints code
      ∙ ap (last code (registrations p.python_hints hints))
          (get-add_names hint (get p.python_hints hint.id) p.extra_hints code)
      ∙ sym (
          last-append code (names_of hint (get p.python_hints hint.id))
            (registrations p.python_hints hints) (get p.extra_hints code))
