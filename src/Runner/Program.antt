-- ===== src/Runner/Program.antt =====
-- program.rs, run_resources.rs and relocated_trace.rs: a program that is read from JSON, the limits of
-- a run, and an entry of its trace.
use keth.Prelude.{ℕ, String, List, [], ◌∷◌, map, ◌++◌, Option, some, none}
use keth.Machine.{Felt252, Value, int}
use keth.Python.{Try, PyErr, PyResult, runtime_error, success, failure, panicked, ◌>>=◌}
use keth.Runner.Files.{or_raise}
use keth.Runner.Context.{as_runtime_error}
use keth.Runner.Settings.{BuiltinNames, into_builtin_names, builtin_texts}

-- What the code calls of cairo-vm on programs in JSON, texts (`Json`) and programs `P`; errors by their text.
pub record Programs (Json P Name : Type 0) : Type 0 where
  pub deserialize_program_json : List ℕ → Try String Json
  pub program_data : Json → List Value
  pub with_data : Json → List Value → Json
  pub parse_program_json : Json → Option String → Try String P
  pub builtins : P → List Name
  pub with_builtins : P → List Name → P
  pub display_exception : PyErr → String

module _ {Json P Name : Type 0} (programs : Programs Json P Name) where
  -- `jmp rel 0`, in two cells behind the program's data
  unfoldable pub push_loop : Felt252 → Json → Json
  push_loop F program_json =
      programs.with_data program_json
        (programs.program_data program_json ++ int (F.from 0x10780017FFF7FFF) ∷ int (F.from 0) ∷ [])

  unfoldable pub from_bytes : Felt252 → List ℕ → Option String → PyResult P
  unfolding push_loop
  from_bytes F program_bytes entrypoint =
      or_raise runtime_error (programs.deserialize_program_json program_bytes) >>= λ program_json.
      or_raise runtime_error (programs.parse_program_json (push_loop F program_json) entrypoint)

  unfoldable pub program_builtins : BuiltinNames Name → P → PyResult (List String)
  unfolding builtin_texts
  program_builtins names self = builtin_texts names (programs.builtins self)

  abbrev with_names : P → PyResult (List Name) → PyResult (Unit {0}) × P
  with_names self (success ns) = (success tt, programs.with_builtins self ns)
  with_names self (failure e) = (failure e, self)
  with_names self panicked = (panicked, self)

  unfoldable pub set_program_builtins :
      BuiltinNames Name → P → List String → PyResult (Unit {0}) × P
  unfolding into_builtin_names
  set_program_builtins names self texts =
      with_names self (as_runtime_error programs.display_exception (into_builtin_names names texts))

-- `RunResources` of cairo-vm, and `PyRunResources`
pub record Resources (Run : Type 0) : Type 0 where
  pub limited : ℕ → Run
  pub unlimited : Run
  pub get_n_steps : Run → Option ℕ

unfoldable pub new_resources : {Run : Type 0} → Resources Run → Option ℕ → Run
new_resources resources (some n_steps) = resources.limited n_steps
new_resources resources none = resources.unlimited

-- `RelocatedTraceEntry`
pub record RelocatedTraceEntry : Type 0 where
  pub pc : ℕ
  pub ap : ℕ
  pub fp : ℕ

-- The columns `pc`, `ap` and `fp` of `trace_df`; without a trace they are empty.
unfoldable pub trace_columns : Option (List RelocatedTraceEntry) → List ℕ × List ℕ × List ℕ
trace_columns none = ([], [], [])
trace_columns (some entries) = (
  map (λ entry. entry.pc) entries,
  map (λ entry. entry.ap) entries,
  map (λ entry. entry.fp) entries,
)
