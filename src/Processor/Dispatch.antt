-- ===== src/Processor/Dispatch.antt =====
-- Which function runs for a hint, and what becomes of a hint that is not known.
use text.Mathlib.Text.{◌==◌ as str_eq}
use text.Mathlib.TextEquality.{eq_iff}
use keth.Prelude.{
  String, List, [], ◌∷◌, ◌++◌, Option, some, none, Bool, not, ◌&&◌, ◌≡◌, ◌≢◌, ◌⊎◌, inl, inr, refl,
  ap, ◌∙◌, arith, Bool-cases, unknown_hint, Result, ok, err, panic,
}
use keth.Python.Variables.{get}
use keth.Processor.{
  HintFunc, Hint, HintProcessorData, HintProcessor, Libraries, with_hints, is_trace, wrapped,
  run_unknown, execute_unknown, finish, execute_hint,
}
use keth.Processor.Registry.{
  last, names_of, registrations, last-append, registrations-append, get-with_hints,
}

module _ {A : Type 0} (code : String) where
  last-some : (l : List (String × A)) (a : A) → (b : A) × (last code l (some a) ≡ some b)
  last-some [] a = (a, refl)
  last-some ((k, f) ∷ rest) a = elim (Bool-cases (str_eq k code)) [
    | inl same ↦ rw same (last-some rest f)
    | inr other ↦ rw other (last-some rest a)
  ]

  -- Where the code is not registered, what was there before stays.
  last-unregistered :
      (l : List (String × A)) (old : Option A) → last code l none ≡ none → last code l old ≡ old
  last-unregistered [] old h = refl
  last-unregistered ((k, f) ∷ rest) old h = elim (Bool-cases (str_eq k code)) [
    | inl same ↦ absurd (ground (arith, last-some rest f, same))
    | inr other ↦ rw other (last-unregistered rest old (rw other at h))
  ]

module _ {W Ids C : Type 0} where
  last-names_of :
      (hint : Hint W Ids C) (python : Option String) (code : String)
      (old : Option (HintFunc W Ids C))
      → (code ≡ hint.id) ⊎ (python ≡ some code)
      → last code (names_of hint python) old ≡ some hint.func
  last-names_of hint none code old (inl e) = ground (arith, eq_iff hint.id code)
  last-names_of hint none code old (inr e) = absurd (ground arith)
  last-names_of hint (some python) code old (inl e) =
      ground (arith, eq_iff hint.id code, eq_iff python code)
  last-names_of hint (some python) code old (inr e) =
      ground (arith, eq_iff hint.id code, eq_iff python code)

module _ {W Ids C : Type 0} (lib : Libraries W Ids C) where
  wrapped-known_error :
      (code unknown : String) (r : Result (Unit {0}))
      → wrapped lib.display_error code r ≢ err (unknown_hint unknown)
  wrapped-known_error code unknown (ok u) = λ h. cc
  wrapped-known_error code unknown (err e) = λ h. ground arith
  wrapped-known_error code unknown panic = λ h. cc

  execute_unknown-known_error :
      (traces : Bool) (executor : Option (HintFunc W Ids C))
      (hint_data : Option (HintProcessorData Ids)) (c : C) (w : W) (unknown : String)
      → (run_unknown lib traces executor hint_data c w).0 ≢ err (unknown_hint unknown)
  execute_unknown-known_error traces none hint_data c w unknown = λ h. cc
  execute_unknown-known_error traces (some executor) none c w unknown = λ h. ground arith
  execute_unknown-known_error traces (some executor) (some hint) c w unknown =
      elim (Bool-cases (is_trace hint.code && not traces)) [
        | inl skip ↦ rw skip (λ h. cc)
        | inr on ↦ rw on (wrapped-known_error hint.code unknown _)
      ]

module _ {W Ids C Run : Type 0} where
  pub get-registered :
      (p : HintProcessor W Ids C Run) (before after : List (Hint W Ids C)) (hint : Hint W Ids C)
      (code : String)
      → (code ≡ hint.id) ⊎ (get p.python_hints hint.id ≡ some code)
      → last code (registrations p.python_hints after) none ≡ none
      → get (with_hints p (before ++ hint ∷ after)).extra_hints code ≡ some hint.func
  get-registered p before after hint code named unregistered =
      let names = names_of hint (get p.python_hints hint.id) in
      let first = registrations p.python_hints before in
      let later = registrations p.python_hints after in
      let old = last code first (get p.extra_hints code) in
      get-with_hints p (before ++ hint ∷ after) code
      ∙ ap (λ l. last code l (get p.extra_hints code))
          (registrations-append p.python_hints before (hint ∷ after))
      ∙ last-append code first (names ++ later) (get p.extra_hints code)
      ∙ last-append code names later old
      ∙ last-unregistered code later (last code names old) unregistered
      ∙ last-names_of hint (get p.python_hints hint.id) code old named

  module _ (lib : Libraries W Ids C) where
    -- A result that is no `UnknownHint` is handed on.
    pub finish-known :
        (p : HintProcessor W Ids C Run) (hint_data : Option (HintProcessorData Ids)) (c : C)
        (r : Result (Unit {0}) × W)
        → ((code : String) → r.0 ≢ err (unknown_hint code))
        → finish lib p hint_data c r ≡ r
    finish-known p hint_data c (ok u, w) known = refl
    finish-known p hint_data c (err (unknown_hint code), w) known = absurd (known code refl)
    finish-known p hint_data c (err e, w) known = refl
    finish-known p hint_data c (panic, w) known = refl

    -- After hints were registered, a hint whose code is the id of one of them or that one's Python
    -- code, with no later one registered under that code, is run by that one's function: the result
    -- and the state are the function's, unless it returns `UnknownHint`.
    pub execute_hint-with_hints :
        (p : HintProcessor W Ids C Run) (before after : List (Hint W Ids C)) (hint : Hint W Ids C)
        (data_of : HintProcessorData Ids) (c : C) (w : W)
        → (data_of.code ≡ hint.id) ⊎ (get p.python_hints hint.id ≡ some data_of.code)
        → last data_of.code (registrations p.python_hints after) none ≡ none
        → ((code : String) → (hint.func data_of.ids_data c w).0 ≢ err (unknown_hint code))
        → execute_hint lib (with_hints p (before ++ hint ∷ after)) (some data_of) c w
          ≡ hint.func data_of.ids_data c w
    unfolding execute_hint
    execute_hint-with_hints p before after hint data_of c w named unregistered known =
        let q = with_hints p (before ++ hint ∷ after) in
        ap (finish lib q (some data_of) c) (
          lib.execute_builtin_extra q.extra_hints data_of c w hint.func
            (get-registered p before after hint data_of.code named unregistered))
        ∙ finish-known q (some data_of) c (hint.func data_of.ids_data c w) known

    finish-known_error :
        (p : HintProcessor W Ids C Run) (hint_data : Option (HintProcessorData Ids)) (c : C)
        (r : Result (Unit {0}) × W) (unknown : String)
        → (finish lib p hint_data c r).0 ≢ err (unknown_hint unknown)
    unfolding execute_unknown
    finish-known_error p hint_data c (ok u, w) unknown = λ h. cc
    finish-known_error p hint_data c (err (unknown_hint code), w) unknown =
        execute_unknown-known_error lib p.enable_traces p.pythonic_hint_executor hint_data c w
          unknown
    finish-known_error p hint_data c (err e, w) unknown = λ h. ground arith
    finish-known_error p hint_data c (panic, w) unknown = λ h. cc

    -- The hint processor never returns the error `UnknownHint`, whatever the hint, the executor for
    -- Python hints and the state.
    pub execute_hint-known_error :
        (p : HintProcessor W Ids C Run) (hint_data : Option (HintProcessorData Ids)) (c : C) (w : W)
        (unknown : String)
        → (execute_hint lib p hint_data c w).0 ≢ err (unknown_hint unknown)
    unfolding execute_hint
    execute_hint-known_error p hint_data c w unknown =
        finish-known_error p hint_data c (lib.execute_builtin p.extra_hints hint_data c w) unknown
