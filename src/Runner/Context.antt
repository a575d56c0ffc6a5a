-- ===== src/Runner/Context.antt =====
-- runner.rs: the scopes and the context that a run is prepared with, and the new runner.
use Prim.Native.String.{◌++◌}
use keth.Prelude.{String, List, [], ◌∷◌, Option, some, none}
use keth.Python.{PyErr, PyResult, runtime_error, raise, success, failure, panicked, ◌>>=◌}
use keth.Python.Variables.{Identifiers}
use keth.Runner.Files.{and_then}
use keth.Runner.Settings.{BuiltinNames, strip_suffix}

-- The entries of the scopes that the code sets: a dictionary manager (`M`), the program's
-- identifiers and a dictionary of Python (`C`).
pub record Scopes (M C : Type 0) : Type 0 where
  pub dict_manager : Option M
  pub program_identifiers : Option Identifiers
  pub context : Option C

-- What the code uses of pyo3 and of the interpreter (`X`) to prepare a context, with objects `O`.
pub record Preparing (X M C O : Type 0) : Type 0 where
  pub new_dict_manager : M
  pub new_dict : X → C × X
  pub empty_dict : X → O × X
  pub set_entry : C → String → O → X → PyResult (Unit {0}) × X
  pub run : String → C → X → PyResult (Unit {0}) × X
  pub display_exception : PyErr → String

abbrev pub setup_code : String
setup_code =
    "\ntry:\n    from cairo_addons.hints.injected import prepare_context\n"
    ++ "    prepare_context(lambda: globals())\nexcept Exception as e:\n"
    ++ "    print(f\"Warning: Error during initialization: {e}\")\n"

-- `.map_err(|e| PyErr::new::<PyRuntimeError, _>(e.to_string()))` on an exception
abbrev pub as_runtime_error : {A : Type 0} → (PyErr → String) → PyResult A → PyResult A
as_runtime_error display (success a) = success a
as_runtime_error display (failure e) = raise runtime_error (display e)
as_runtime_error display panicked = panicked

module _ {X M C O : Type 0} (py : Preparing X M C O) where
  -- The context with the entries that `set` puts into it, after the initialization code, in scopes
  -- that have all three entries.
  unfoldable pub prepare_scopes :
      Identifiers → (C → X → PyResult (Unit {0}) × X) → X → PyResult (Scopes M C) × X
  prepare_scopes identifiers set x =
      let (context, x') = py.new_dict x in
      and_then (set context x') λ u x''.
        let (r, x3) = py.run setup_code context x'' in
        and_then
          (
            as_runtime_error
                (λ e. "Failed to initialize Python globals: " ++ py.display_exception e) r,
            x3,
          )
          λ v x4. (
            success (record {
              dict_manager = some py.new_dict_manager;
              program_identifiers = some identifiers;
              context = some context;
            }),
            x4,
          )

  -- The entry of the new runner's context.
  abbrev pub set_identifiers : Option O → C → X → PyResult (Unit {0}) × X
  set_identifiers none context x = (success tt, x)
  set_identifiers (some py_identifiers) context x =
      let (r, x') = py.set_entry context "py_identifiers" py_identifiers x in
      (as_runtime_error py.display_exception r, x')

  -- The entries of the context in proof mode.
  abbrev pub set_inputs : O → C → X → PyResult (Unit {0}) × X
  set_inputs program_inputs context x =
      and_then (py.set_entry context "program_inputs" program_inputs x) λ u x'.
        let (identifiers, x'') = py.empty_dict x' in
        let (r, x3) = py.set_entry context "py_identifiers" identifiers x'' in
        (as_runtime_error py.display_exception r, x3)

-- `BuiltinName::from_str(name.strip_suffix("_ptr").unwrap()).unwrap()` for each name
abbrev pub ordered_names : {Name : Type 0} → BuiltinNames Name → List String → PyResult (List Name)
ordered_names names [] = success []
ordered_names names (text ∷ texts) = elim (strip_suffix text "_ptr") [
  | none ↦ panicked
  | some stripped ↦ elim (names.from_str stripped) [
    | none ↦ panicked
    | some name ↦ ordered_names names texts >>= λ rest. success (name ∷ rest)
  ]
]
