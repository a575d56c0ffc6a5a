-- ===== src/Python/Executor.antt =====
-- pythonic_hint.rs: the executor of Python hints, the object `context` that their code runs in, and
-- the run of that code.
pub mod Once
pub mod Context
pub mod Prepared
pub mod Unknown
pub mod Processed
use Prim.Native.Char.{code}
use Prim.Native.String.{◌++◌}
use keth.Prelude.{
  ℕ, String, List, [], ◌∷◌, ◌++◌ as append, Option, some, none, Bool, true, false, ◌||◌, ◌==◌,
  if◌then◌else◌, ◌≡◌, Relocatable, HintError, custom_hint, Result, ok, err, panic, Action, lift,
  ◌>>=◌, ◌>>◌,
}
use keth.Machine.{Machine}
use keth.Python.{Try, success, failure, panicked, map_failure}
use keth.Python.Variables.{
  Identifiers, DynamicHintError, display_dynamic, python_init, py_object_creation, py_dict_set,
  variable_access, invalid_reference, python_execution, c_string_conversion, unknown_variable_type,
  memory_error,
}
use keth.Python.ConstsDict.{Items, References, create_vm_consts_dict}
use keth.Python.Injector.{dynamic, full_hint_code, to_c_string}
use keth.Processor.{HintFunc}

-- The match on the entry with the program's identifiers.
abbrev pub identifiers_of : Try String Identifiers → Result Identifiers
identifiers_of (success identifiers) = ok identifiers
identifiers_of (failure e) =
    err (custom_hint ("No program identifiers found in execution scope: " ++ e))
identifiers_of panicked = panic

-- The objects that the executor wraps for Python, and what it puts into the context.
pub data Wrapper (M : Type 0) : Type 0 where
  memory_wrapper : Wrapper M
  segments_wrapper : Wrapper M
  dict_manager_wrapper : M → Wrapper M

pub data ContextValue (O : Type 0) : Type 0 where
  object : O → ContextValue O
  register : Relocatable → ContextValue O
  vm_consts : Items → ContextValue O

-- The virtual machine, the scopes (`E`) and the interpreter (`X`).
pub record Env (S E X : Type 0) : Type 0 where
  pub vm : S
  pub scopes : E
  pub interpreter : X

-- What the code uses of pyo3, of the interpreter and of the scopes; the text of an error stands for
-- it. `C` are dictionaries, `O` objects, and `M` shared references to dictionary managers.
pub record Python (S E X C O M : Type 0) : Type 0 where
  pub get_pc : S → Relocatable
  -- the entries of the scopes
  pub get_context : E → Try String C
  pub get_dict_manager : E → Try String M
  pub get_program_identifiers : E → Try String Identifiers
  pub get_hint_code : E → Try String String
  pub set_hint_code : String → E → E
  -- `import sys` with its attribute `path`, and `append`
  pub import_path : X → Try String (Unit {0}) × X
  pub append_path : String → X → Try String (Unit {0}) × X
  -- `Py::new`, and a dictionary's items
  pub py_new : Wrapper M → X → Try String O × X
  pub set_item : C → String → ContextValue O → X → Try String (Unit {0}) × X
  pub get_item : X → C → String → Option (ContextValue O)
  -- code that runs with a dictionary for its globals
  pub run : String → C → Env S E X → Try String (Unit {0}) × Env S E X
  -- the errors of `CString::new`, by the text, and of `lock`
  pub nul_error : String → String
  pub poison_error : String
  pub get_hint_code_lem :
      (code : String) (e : E) → get_hint_code (set_hint_code code e) ≡ success code

-- `PythonicHintExecutor`
pub record PythonicHintExecutor : Type 0 where
  pub initialized : Bool
  pub python_path : Option String

unfoldable pub new : PythonicHintExecutor
new = record { initialized = false; python_path = none }

abbrev pub is_panic : Result (Unit {0}) → Bool
is_panic panic = true
is_panic _ = false

-- The executor stands in a static variable behind a mutex, which a panic poisons.
pub record World (S E X : Type 0) : Type 0 where
  pub env : Env S E X
  pub executor : PythonicHintExecutor
  pub poisoned : Bool

-- One call on the interpreter after the other.
infixl 5 ◌then◌
abbrev pub ◌then◌ :
    {X : Type 0}
    → (X → Try String (Unit {0}) × X)
    → (X → Try String (Unit {0}) × X)
    → X
    → Try String (Unit {0}) × X
◌then◌ first second x =
    let (r, x') = first x in
    elim r [ success u ↦ second x' | failure e ↦ (failure e, x') | panicked ↦ (panicked, x') ]

module _ {S E X C O M : Type 0} (py : Python S E X C O M) where
  -- What is appended to the path.
  unfoldable pub append_paths : Option String → X → Try String (Unit {0}) × X
  append_paths python_path = py.import_path then py.append_path "." then elim python_path [
    | some custom_path ↦ py.append_path custom_path
    | none ↦ λ x. (success tt, x)
  ]

  -- What is left of a first attempt.
  abbrev pub attempted :
      PythonicHintExecutor
      → Try String (Unit {0}) × X
      → Try String (Unit {0}) × PythonicHintExecutor × X
  attempted self (success u, x) = (success tt, record self { initialized = true }, x)
  attempted self (failure e, x) = (failure e, self, x)
  attempted self (panicked, x) = (panicked, self, x)

  unfoldable pub ensure_initialized :
      PythonicHintExecutor × X → Try String (Unit {0}) × PythonicHintExecutor × X
  unfolding append_paths
  ensure_initialized (self, x) =
      if self.initialized
      then (success tt, self, x)
      else attempted self (append_paths self.python_path x)

  -- A call on the interpreter alone.
  abbrev pub call :
      {A : Type 0} → (String → DynamicHintError) → (X → Try String A × X) → Action (Env S E X) A
  call variant f w =
      let (r, x') = f w.interpreter in (dynamic variant r, record w { interpreter = x' })

  abbrev pub put_item : C → String → ContextValue O → Action (Env S E X) (Unit {0})
  put_item context name value = call py_dict_set (py.set_item context name value)

  abbrev pub put_object : C → String → Wrapper M → Action (Env S E X) (Unit {0})
  put_object context name wrapper = do
    made ← call py_object_creation (py.py_new wrapper)
    put_item context name (object made)

module _ {S E X C O M R T : Type 0} (py : Python S E X C O M) (refs : References S R T)
    (m : Machine S (List (String × R) × T)) where
  abbrev pub registers : C → Action (Env S E X) (Unit {0})
  registers context w =
      (put_item py context "ap" (register (m.get_ap w.vm))
          >> put_item py context "pc" (register (py.get_pc w.vm))
          >> put_item py context "fp" (register (m.get_fp w.vm)))
        w

  -- the entry `ids`
  abbrev pub put_ids : C → List (String × R) × T → Action (Env S E X) (Unit {0})
  put_ids context (ids_data, ap_tracking) = do
    identifiers ← λ w. (identifiers_of (py.get_program_identifiers w.scopes), w)
    items ← λ w. (
      dynamic py_object_creation (
          map_failure (create_vm_consts_dict refs m identifiers ids_data ap_tracking w.vm)
            display_dynamic),
      w,
    )
    put_item py context "ids" (vm_consts items)

  -- What the code of the hint finds in the context.
  unfoldable pub prepare_context : C → List (String × R) × T → Action (Env S E X) (Unit {0})
  unfolding display_dynamic create_vm_consts_dict
  prepare_context context ids = do
    put_object py context "memory" memory_wrapper
    put_object py context "segments" segments_wrapper
    dict_manager ← λ w. (dynamic py_object_creation (py.get_dict_manager w.scopes), w)
    put_object py context "dict_manager" (dict_manager_wrapper dict_manager)
    registers context
    put_ids context ids

  -- `execute_hint`, once the interpreter is initialized
  unfoldable pub run_in_context : String → List (String × R) × T → Action (Env S E X) (Unit {0})
  unfolding prepare_context full_hint_code
  run_in_context hint_code ids = do
    context ← λ w. (dynamic py_object_creation (py.get_context w.scopes), w)
    prepare_context context ids
    lift (to_c_string py.nul_error (full_hint_code hint_code))
    λ w.
        let (r, w') = py.run (full_hint_code hint_code) context w in
        (dynamic python_execution r, w')

  -- The code runs once the interpreter is initialized.
  abbrev pub once_initialized :
      String
      → List (String × R) × T
      → Env S E X
      → Try String (Unit {0}) × PythonicHintExecutor × X
      → Result (Unit {0}) × (PythonicHintExecutor × Env S E X)
  once_initialized hint_code ids w (r, self, x) =
      let (ran, w') = run_in_context hint_code ids (record w { interpreter = x }) in
      elim (dynamic python_init r) [
        | ok u ↦ (ran, (self, w'))
        | err e ↦ (err e, (self, record w { interpreter = x }))
        | panic ↦ (panic, (self, record w { interpreter = x }))
      ]

  unfoldable pub execute_hint :
      String → List (String × R) × T → Action (PythonicHintExecutor × Env S E X) (Unit {0})
  unfolding ensure_initialized run_in_context
  execute_hint hint_code ids (self, w) =
      once_initialized hint_code ids w (ensure_initialized py (self, w.interpreter))

  abbrev pub locked : String → List (String × R) × T → Action (World S E X) (Unit {0})
  locked hint_code ids w =
      let (r, (executor, env)) = execute_hint hint_code ids (w.executor, w.env) in
      if w.poisoned
      then (err (custom_hint ("Failed to lock executor: " ++ py.poison_error)), w)
      else (r, record w { executor = executor; env = env; poisoned = is_panic r })

  -- The match on the entry with the hint's code.
  abbrev pub with_code : List (String × R) × T → Try String String → Action (World S E X) (Unit {0})
  with_code ids (success hint_code) w = locked hint_code ids w
  with_code ids (failure e) w =
      (err (custom_hint ("No hint code found in execution scope: " ++ e)), w)
  with_code ids panicked w = (panic, w)

  -- the function of the hint that `generic_python_hint` makes
  unfoldable pub generic_python_hint :
      {K : Type 0} → HintFunc (World S E X) (List (String × R) × T) K
  unfolding execute_hint
  generic_python_hint ids constants w = with_code ids (py.get_hint_code w.env.scopes) w
