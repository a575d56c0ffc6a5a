-- ===== src/Processor.antt =====
-- hints.rs: the hint processor. It registers the hints by their id and by their Python code, hands
-- a hint to cairo-vm's processor, and what that does not know to the executor of Python hints.
pub mod Registry
pub mod Dispatch
pub mod Loader
use Prim.Native.String.{◌++◌}
use text.Mathlib.Text.{find?}
use keth.Prelude.{
  String, List, [], ◌∷◌, ◌++◌ as append, Option, some, none, Bool, true, false, not, ◌&&◌,
  if◌then◌else◌, ◌≡◌, HintError, unknown_hint, custom_hint, Result, ok, err, panic, Action,
}
use keth.Python.Variables.{get}
use keth.Python.ConstsDict.{put}

-- A hint's function, on the machine and the scopes (`W`), from the hint's variables (`Ids`) and the
-- constants (`C`).
abbrev pub HintFunc : Type 0 → Type 0 → Type 0 → Type 0
HintFunc W Ids C = Ids → C → Action W (Unit {0})

pub record Hint (W Ids C : Type 0) : Type 0 where
  pub id : String
  pub func : HintFunc W Ids C

-- `HintProcessorData` of cairo-vm
pub record HintProcessorData (Ids : Type 0) : Type 0 where
  pub code : String
  pub ids_data : Ids

-- `extra_hints` of cairo-vm's processor, and the fields of the source. `Run` is `RunResources`.
pub record HintProcessor (W Ids C Run : Type 0) : Type 0 where
  pub extra_hints : List (String × HintFunc W Ids C)
  pub run_resources : Run
  pub python_hints : List (String × String)
  pub pythonic_hint_executor : Option (HintFunc W Ids C)
  pub enable_traces : Bool

-- What the code uses of the libraries: `BuiltinHintProcessor.execute_hint`, which runs an extra hint
-- by its code; the entry `__hint_code__` of the scopes; and how errors are printed. The data of a
-- hint is `none` where it is of another type than `HintProcessorData`.
pub record Libraries (W Ids C : Type 0) : Type 0 where
  pub execute_builtin :
      List (String × HintFunc W Ids C) → Option (HintProcessorData Ids) → C → Action W (Unit {0})
  pub set_hint_code : String → W → W
  pub display_error : HintError → String
  pub execute_builtin_extra :
      (hints : List (String × HintFunc W Ids C)) (hint : HintProcessorData Ids) (c : C) (w : W)
      (func : HintFunc W Ids C)
      → get hints hint.code ≡ some func
      → execute_builtin hints (some hint) c w ≡ func hint.ids_data c w

-- `code.contains("logger.trace")`
abbrev pub is_trace : String → Bool
is_trace code = elim (find? code "logger.trace") [ some i ↦ true | none ↦ false ]

-- `extend_from_slice` of each table
abbrev pub extend_all : {A : Type 0} → List A → List (List A) → List A
extend_all hints [] = hints
extend_all hints (table ∷ rest) = extend_all (append hints table) rest

-- An error of a Python hint, with the code of the hint.
abbrev pub wrapped : (HintError → String) → String → Result (Unit {0}) → Result (Unit {0})
wrapped display_error code (err e) = err (
    custom_hint
      ("Dynamic hint execution failed for hint: '" ++ code ++ "'. Error: " ++ display_error e))
wrapped display_error code r = r

module _ {W Ids C : Type 0} where
  -- `add_hint` of cairo-vm's processor under the id, and under the Python code if there is one
  abbrev pub add_names :
      Hint W Ids C
      → Option String
      → List (String × HintFunc W Ids C)
      → List (String × HintFunc W Ids C)
  add_names hint none hints = put hint.id hint.func hints
  add_names hint (some hint_code) hints = put hint_code hint.func (put hint.id hint.func hints)

module _ {W Ids C : Type 0} (lib : Libraries W Ids C) where
  abbrev pub run_unknown :
      Bool → Option (HintFunc W Ids C) → Option (HintProcessorData Ids) → C → Action W (Unit {0})
  run_unknown enable_traces none hint_data constants w = (ok tt, w)
  run_unknown enable_traces (some executor) none constants w =
      (err (custom_hint "Failed to downcast hint_data to HintProcessorData"), w)
  run_unknown enable_traces (some executor) (some hint) constants w =
      let (r, w') = executor hint.ids_data constants (lib.set_hint_code hint.code w) in
      if is_trace hint.code && not enable_traces
      then (ok tt, w)
      else (wrapped lib.display_error hint.code r, w')

module _ {W Ids C Run : Type 0} where
  -- `new`, with what `load_python_hints` returned (`none` for an error)
  unfoldable pub new : Option (List (String × String)) → Run → HintProcessor W Ids C Run
  new loaded run_resources = record {
    extra_hints = [];
    run_resources = run_resources;
    python_hints = elim loaded [ some hints ↦ hints | none ↦ [] ];
    pythonic_hint_executor = none;
    enable_traces = false;
  }

  -- One round of `with_hints`.
  unfoldable pub add_hint : HintProcessor W Ids C Run → Hint W Ids C → HintProcessor W Ids C Run
  add_hint p hint = record p {
    extra_hints = add_names hint (get p.python_hints hint.id) p.extra_hints;
  }

  unfoldable pub with_hints :
      HintProcessor W Ids C Run → List (Hint W Ids C) → HintProcessor W Ids C Run
  with_hints p [] = p
  with_hints p (hint ∷ hints) = with_hints (add_hint p hint) hints

  unfoldable pub with_run_resources : HintProcessor W Ids C Run → Run → HintProcessor W Ids C Run
  with_run_resources p run_resources = record p { run_resources = run_resources }

  -- The function is that of `generic_python_hint`.
  unfoldable pub with_dynamic_python_hints :
      HintProcessor W Ids C Run → HintFunc W Ids C → Bool → HintProcessor W Ids C Run
  with_dynamic_python_hints p generic enable_traces = record p {
    pythonic_hint_executor = some generic;
    enable_traces = enable_traces;
  }

  unfoldable pub build : HintProcessor W Ids C Run → HintProcessor W Ids C Run
  build p = record {
    extra_hints = p.extra_hints;
    run_resources = p.run_resources;
    python_hints = p.python_hints;
    pythonic_hint_executor = p.pythonic_hint_executor;
    enable_traces = p.enable_traces;
  }

  -- `default`, from the two hints of this file and the tables of hint_definitions/
  unfoldable pub default :
      Option (List (String × String))
      → Run
      → List (Hint W Ids C)
      → List (List (Hint W Ids C))
      → HintProcessor W Ids C Run
  unfolding new with_hints
  default loaded run_resources hints tables =
      with_hints (new loaded run_resources) (extend_all hints tables)

  module _ (lib : Libraries W Ids C) where
    -- What happens to a hint that cairo-vm's processor does not know.
    unfoldable pub execute_unknown :
        HintProcessor W Ids C Run → Option (HintProcessorData Ids) → C → Action W (Unit {0})
    execute_unknown p hint_data constants w =
        run_unknown lib p.enable_traces p.pythonic_hint_executor hint_data constants w

    -- The match on the result of cairo-vm's processor.
    abbrev pub finish :
        HintProcessor W Ids C Run
        → Option (HintProcessorData Ids)
        → C
        → Result (Unit {0}) × W
        → Result (Unit {0}) × W
    finish p hint_data constants (ok u, w) = (ok tt, w)
    finish p hint_data constants (err (unknown_hint code), w) =
        execute_unknown p hint_data constants w
    finish p hint_data constants (err e, w) = (err e, w)
    finish p hint_data constants (panic, w) = (panic, w)

    unfoldable pub execute_hint :
        HintProcessor W Ids C Run → Option (HintProcessorData Ids) → C → Action W (Unit {0})
    unfolding execute_unknown
    execute_hint p hint_data constants w =
        finish p hint_data constants (lib.execute_builtin p.extra_hints hint_data constants w)
