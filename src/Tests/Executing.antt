-- ===== src/Tests/Executing.antt =====
-- A small interpreter on which the assumed behaviour holds, and the theorems on the executor of
-- Python hints at concrete hints. Code that runs is only noted down.
use text.Mathlib.Text.{◌==◌ as str_eq}
use keth.Prelude.{
  ℕ, custom_hint, err, panic, String, List, [], ◌∷◌, ◌++◌ as append, Option, some, none, true,
  false, if◌then◌else◌, ◌≡◌, refl,
}
use keth.Python.{Try, success, failure, panicked}
use keth.Python.Consts.{number}
use keth.Python.ConstsDict.{Items, create_vm_consts_dict, variable_object, locate, object_at}
use keth.Python.Injector.{full_hint_code, injected, has_nul}
use keth.Processor.{HintFunc, HintProcessorData, HintProcessor, Libraries}
use keth.Processor
use keth.Python.Executor.{
  Python, Env, World, Wrapper, memory_wrapper, segments_wrapper, dict_manager_wrapper, ContextValue,
  PythonicHintExecutor, ensure_initialized, append_paths, new, run_in_context, generic_python_hint,
}
use keth.Python.Executor.Once.{execute_hints, run_all, with_executor, execute_hints-once}
use keth.Python.Executor.Context.{overlay, Allocates}
use keth.Python.Executor.Prepared.{CanPrepare, entries_of, outcome, run_in_context_lem}
use keth.Python.Executor.Unknown.{RunsPython, with_hint_code}
use keth.Python.Executor.Processed.{
  python_error, execute_hint-run_in_context, execute_hint-poisoned,
}
use keth.Tests.Sharing.{run_builtin, run_builtin_extra}
use keth.Tests.Library.{Vm, at}
use keth.Tests.Ids.{typed_machine, references, structs, typed_vm, Ids}

-- The paths, the items of the only context, and the code that ran.
record Interpreter : Type 0 where
  paths : List String
  items : String → Option (ContextValue (Wrapper ℕ))
  ran : List String

abbrev append_path : String → Interpreter → Try String (Unit {0}) × Interpreter
append_path path x = (success tt, record x { paths = append x.paths (path ∷ []) })

abbrev run :
    String
    → Unit {0}
    → Env Vm String Interpreter
    → Try String (Unit {0}) × Env Vm String Interpreter
run code context w = (
  success tt,
  record w { interpreter = record w.interpreter { ran = append w.interpreter.ran (code ∷ []) } },
)

-- The scopes are the code of the hint; an object is what it wraps.
abbrev python : Python Vm String Interpreter (Unit {0}) (Wrapper ℕ) ℕ
python = record {
  get_pc = λ s. at 0 0;
  get_context = λ e. success tt;
  get_dict_manager = λ e. success 7;
  get_program_identifiers = λ e. success structs;
  get_hint_code = λ e. success e;
  set_hint_code = λ code e. code;
  import_path = λ x. (success tt, x);
  append_path = append_path;
  py_new = λ wrapper x. (success wrapper, x);
  set_item = λ context name value x.
      (success tt, record x { items = λ n. if str_eq name n then some value else x.items n });
  get_item = λ x context name. x.items name;
  run = run;
  nul_error = λ code. "nul byte found";
  poison_error = "poisoned";
  get_hint_code_lem = λ code e. refl;
}

allocates : Allocates python
allocates = record {
  wraps = λ o. o;
  py_new_lem = λ wrapper x. (wrapper, x, refl, refl, λ context name. refl);
  set_item_lem = λ context name value x. (_, refl, λ n. refl);
}

abbrev ids : Ids
ids = (("n", ("felt", at 1 0)) ∷ [], tt)

abbrev fresh : Interpreter
fresh = record { paths = "lib" ∷ []; items = λ n. none; ran = [] }

abbrev env : Env Vm String Interpreter
env = record { vm = typed_vm; scopes = ""; interpreter = fresh }

abbrev with_paths : Interpreter
with_paths = record fresh { paths = "lib" ∷ "." ∷ [] }

paths_appended : append_paths python new.python_path fresh ≡ (success tt, with_paths)
unfolding append_paths new
paths_appended = refl

not_initialized : new.initialized ≡ false
unfolding new
not_initialized = refl

execute_hints-once_example :
    execute_hints python references typed_machine (("a", ids) ∷ ("b", ids) ∷ []) (new, env)
    ≡ with_executor python references typed_machine
        (record new { initialized = true })
        (run_all python references typed_machine
          (("a", ids) ∷ ("b", ids) ∷ [])
          (record env { interpreter = with_paths }))
execute_hints-once_example =
    execute_hints-once python references typed_machine "a" ids (("b", ids) ∷ []) new env with_paths
      not_initialized paths_appended

abbrev items : Items
items = ("n", number 10) ∷ []

can_prepare : CanPrepare python references typed_machine allocates tt ids 7 structs items env
unfolding create_vm_consts_dict variable_object locate object_at
can_prepare = record {
  context_found = refl;
  dict_manager_found = refl;
  identifiers_found = refl;
  items_created = refl;
}

no_nul : has_nul (full_hint_code "x = ids.n") ≡ false
unfolding full_hint_code injected
no_nul = refl

run_in_context_lem_example :
    (memory : Wrapper ℕ) × (segments : Wrapper ℕ) × (dict_manager : Wrapper ℕ) × (x : Interpreter)
    × (allocates.wraps memory ≡ memory_wrapper)
    × (allocates.wraps segments ≡ segments_wrapper)
    × (allocates.wraps dict_manager ≡ dict_manager_wrapper 7)
    × ((name : String)
        → x.items name
          ≡ overlay
              (entries_of python references typed_machine allocates tt typed_vm items memory
                segments dict_manager)
              fresh.items
              name)
    × (run_in_context python references typed_machine "x = ids.n" ids env
        ≡ outcome (run (full_hint_code "x = ids.n") tt (record env { interpreter = x })))
run_in_context_lem_example =
    run_in_context_lem python references typed_machine allocates tt "x = ids.n" ids 7 structs items
      env can_prepare no_nul

-- The same interpreter, on which all code ends in the same way.
abbrev ending : Try String (Unit {0}) → Python Vm String Interpreter (Unit {0}) (Wrapper ℕ) ℕ
ending r = record python { run = λ code context w. (r, (run code context w).1) }

allocates_ending : (r : Try String (Unit {0})) → Allocates (ending r)
allocates_ending r = record {
  wraps = λ o. o;
  py_new_lem = λ wrapper x. (wrapper, x, refl, refl, λ context name. refl);
  set_item_lem = λ context name value x. (_, refl, λ n. refl);
}

abbrev world : World Vm String Interpreter
world = record { env = env; executor = new; poisoned = false }

abbrev libraries : Libraries (World Vm String Interpreter) Ids ℕ
libraries = record {
  execute_builtin = run_builtin;
  set_hint_code = λ code w. record w { env = with_hint_code python code w.env };
  display_error = λ e. elim e [ custom_hint text ↦ text | _ ↦ "error" ];
  execute_builtin_extra = run_builtin_extra;
}

abbrev processor : Try String (Unit {0}) → HintProcessor (World Vm String Interpreter) Ids ℕ ℕ
processor r = record {
  extra_hints = [];
  run_resources = 0;
  python_hints = [];
  pythonic_hint_executor = some (generic_python_hint (ending r) references typed_machine);
  enable_traces = false;
}

runs_python :
    (r : Try String (Unit {0}))
    → RunsPython (ending r) references typed_machine libraries (processor r)
runs_python r = record { enabled = refl; set_hint_code_lem = λ code w. refl }

abbrev hint : HintProcessorData Ids
hint = record { code = "x = ids.n"; ids_data = ids }

abbrev raising : Try String (Unit {0})
raising = failure "division by zero"

abbrev initialized : PythonicHintExecutor
initialized = record new { initialized = true }

executor_initialized :
    ensure_initialized (ending raising) (new, fresh) ≡ (success tt, initialized, with_paths)
unfolding ensure_initialized append_paths new
executor_initialized = refl

abbrev noted : Interpreter → Env Vm String Interpreter
noted x = record env { scopes = "x = ids.n"; interpreter = x }

raising_ready :
    CanPrepare
      (ending raising)
      references
      typed_machine
      (allocates_ending raising)
      tt
      ids
      7
      structs
      items
      (noted with_paths)
unfolding create_vm_consts_dict variable_object locate object_at
raising_ready = record {
  context_found = refl;
  dict_manager_found = refl;
  identifiers_found = refl;
  items_created = refl;
}

execute_hint-run_in_context_example :
    (memory : Wrapper ℕ) × (segments : Wrapper ℕ) × (dict_manager : Wrapper ℕ) × (x : Interpreter)
    × ((allocates_ending raising).wraps memory ≡ memory_wrapper)
    × ((allocates_ending raising).wraps segments ≡ segments_wrapper)
    × ((allocates_ending raising).wraps dict_manager ≡ dict_manager_wrapper 7)
    × ((name : String)
        → x.items name
          ≡ overlay
              (entries_of
                (ending raising)
                references
                typed_machine
                (allocates_ending raising)
                tt
                typed_vm
                items
                memory
                segments
                dict_manager)
              fresh.items
              name)
    × (Processor.execute_hint libraries (processor raising) (some hint) 0 world ≡ (
      err (
          python_error libraries.display_error "x = ids.n"
            (custom_hint "Python execution error: division by zero")),
      record {
        env = (run (full_hint_code "x = ids.n") tt (noted x)).1;
        executor = initialized;
        poisoned = false;
      },
    ))
execute_hint-run_in_context_example =
    execute_hint-run_in_context (ending raising) references typed_machine libraries
      (processor raising) (runs_python raising) (allocates_ending raising) tt hint 0 world
      "x = ids.n" initialized with_paths 7 structs items refl refl refl executor_initialized
      raising_ready no_nul

abbrev after_panic : World Vm String Interpreter
after_panic = (Processor.execute_hint libraries (processor panicked) (some hint) 0 world).1

first_panics : (Processor.execute_hint libraries (processor panicked) (some hint) 0 world).0 ≡ panic
unfolding Processor.execute_hint generic_python_hint new variable_object
first_panics = refl

abbrev next_hint : HintProcessorData Ids
next_hint = record { code = "y = ids.n"; ids_data = ids }

execute_hint-poisoned_example :
    Processor.execute_hint libraries (processor panicked) (some next_hint) 0 after_panic ≡ (
      err (
          python_error libraries.display_error "y = ids.n"
            (custom_hint "Failed to lock executor: poisoned")),
      record after_panic { env = with_hint_code python "y = ids.n" after_panic.env },
    )
execute_hint-poisoned_example =
    execute_hint-poisoned (ending panicked) references typed_machine libraries (processor panicked)
      (runs_python panicked) hint next_hint 0 0 world "x = ids.n" "y = ids.n" refl refl refl
      first_panics refl refl
