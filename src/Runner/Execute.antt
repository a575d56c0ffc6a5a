-- ===== src/Runner/Execute.antt =====
-- `run_until_pc`: the run of a program with the hint processor that the runner sets up for it.
use keth.Prelude.{
  String, List, [], ◌∷◌, ◌++◌, Option, some, none, Bool, false, ◌≡◌, ◌≢◌, ◌⊎◌, ap, ◌∙◌, Relocatable,
  err, unknown_hint,
}
use keth.Python.{Try, PyResult, runtime_error, raise, success, failure, panicked}
use keth.Python.Variables.{get}
use keth.Processor.{
  HintFunc, Hint, HintProcessorData, HintProcessor, Libraries, new, with_hints, with_run_resources,
  with_dynamic_python_hints, build, default, extend_all, execute_hint, finish,
}
use keth.Processor.Registry.{last, registrations}
use keth.Processor.Dispatch.{get-registered, finish-known}
use keth.Runner.{CairoRunner}

-- What the run calls of cairo-vm's runner, with a hint processor that it changes; errors by text.
pub record Execution (S P : Type 0) : Type 0 where
  pub run_until_pc : Relocatable → P × S → Try String (Unit {0}) × P × S
  pub end_run : Bool → Bool → P × S → Try String (Unit {0}) × P × S

-- What the hint processor is made from: the hints for Python that were loaded, the default
-- resources, the two hints of hints.rs and the tables, and the function of `generic_python_hint`.
pub record Hints (W Ids C Run : Type 0) : Type 0 where
  pub loaded : Option (List (String × String))
  pub default_resources : Run
  pub hints : List (Hint W Ids C)
  pub tables : List (List (Hint W Ids C))
  pub generic : HintFunc W Ids C

-- The Python code of the hints, by id, as far as it was loaded.
abbrev pub python_code : {W Ids C Run : Type 0} → Hints W Ids C Run → List (String × String)
python_code h = elim h.loaded [ some hints ↦ hints | none ↦ [] ]

module _ {W Ids C Run S B Name : Type 0} (h : Hints W Ids C Run) where
  -- the processor of a run
  unfoldable pub run_processor : CairoRunner S B Name → Run → HintProcessor W Ids C Run
  unfolding default with_run_resources with_dynamic_python_hints build
  run_processor r resources = build (
      with_dynamic_python_hints
        (with_run_resources (default h.loaded h.default_resources h.hints h.tables) resources)
        h.generic r.enable_traces)

  unfoldable pub run_until_pc :
      Execution S (HintProcessor W Ids C Run)
      → CairoRunner S B Name
      → Relocatable
      → Run
      → PyResult (Unit {0}) × CairoRunner S B Name
  unfolding run_processor
  run_until_pc calls r address resources =
      let (ran, p, vm) = calls.run_until_pc address (run_processor r resources, r.vm) in
      elim ran [
        | success u ↦
            let (ended, p', vm') = calls.end_run false false (p, vm) in
            (
              elim ended [
                | success u ↦ success tt
                | failure e ↦ raise runtime_error e
                | panicked ↦ panicked
              ],
              record r { vm = vm' },
            )
        | failure e ↦ (raise runtime_error e, record r { vm = vm })
        | panicked ↦ (panicked, record r { vm = vm })
      ]

  -- The processor of a run, whatever its resources and with traces enabled or not, runs a hint of
  -- the tables, called by its id or by its loaded Python code, with no later one of the tables
  -- under that code, by its function: the result and the state are the function's, unless it
  -- returns `UnknownHint`.
  pub execute_hint-run_processor :
      (lib : Libraries W Ids C) (r : CairoRunner S B Name) (resources : Run)
      (before after : List (Hint W Ids C)) (hint : Hint W Ids C) (data_of : HintProcessorData Ids)
      (c : C) (w : W)
      → extend_all h.hints h.tables ≡ before ++ hint ∷ after
      → (data_of.code ≡ hint.id) ⊎ (get (python_code h) hint.id ≡ some data_of.code)
      → last data_of.code (registrations (python_code h) after) none ≡ none
      → ((code : String) → (hint.func data_of.ids_data c w).0 ≢ err (unknown_hint code))
      → execute_hint lib (run_processor r resources) (some data_of) c w
        ≡ hint.func data_of.ids_data c w
  unfolding execute_hint run_processor new
  execute_hint-run_processor lib r resources before after hint data_of c w listed named unregistered
        known =
      let p = new h.loaded h.default_resources in
      let q = run_processor r resources in
      let at : get q.extra_hints data_of.code ≡ some hint.func =
        ap (λ (l : List (Hint W Ids C)). get (with_hints p l).extra_hints data_of.code) listed
        ∙ get-registered p before after hint data_of.code named unregistered in
      ap (finish lib q (some data_of) c)
        (lib.execute_builtin_extra q.extra_hints data_of c w hint.func at)
      ∙ finish-known lib q (some data_of) c (hint.func data_of.ids_data c w) known
