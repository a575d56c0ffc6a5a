-- ===== src/Python/Executor/Processed.antt =====
-- pythonic_hint.rs under the hint processor: what a Python hint runs in, what becomes of its result,
-- and what is left after a panic.
use Prim.Native.String.{◌++◌}
use keth.Prelude.{
  String, List, some, Bool, true, false, not, ◌&&◌, if◌then◌else◌, ◌≡◌, refl, sym, ap, ◌∙◌, Result,
  ok, err, panic, HintError, unknown_hint, custom_hint,
}
use keth.Machine.{Machine}
use keth.Python.{Try, success, failure, panicked}
use keth.Python.Variables.{Identifiers}
use keth.Python.ConstsDict.{Items, References}
use keth.Python.Injector.{full_hint_code, has_nul, hint_error}
use keth.Processor
use keth.Processor.{
  HintProcessorData, HintProcessor, Libraries, is_trace, wrapped, run_unknown, finish,
  execute_unknown,
}
use keth.Python.Executor.{
  Python, Env, PythonicHintExecutor, World, memory_wrapper, segments_wrapper, dict_manager_wrapper,
  is_panic, ensure_initialized, execute_hint,
}
use keth.Python.Executor.Once.{with_executor, execute_hint-ensured}
use keth.Python.Executor.Context.{overlay, Allocates}
use keth.Python.Executor.Prepared.{CanPrepare, entries_of, outcome, run_in_context_lem}
use keth.Python.Executor.Unknown.{
  RunsPython, dynamic_result, with_hint_code, execute_hint-generic_python_hint, wrapped_first,
  execute_hint-locked,
}

-- The error of a Python hint, as the hint processor reports it.
abbrev pub python_error : (HintError → String) → String → HintError → HintError
python_error display hint_code e =
    custom_hint
      ("Dynamic hint execution failed for hint: '" ++ hint_code ++ "'. Error: " ++ display e)

-- What is reported of code that ran to its end, raised an exception or panicked, with the executor
-- and the environment afterwards.
abbrev pub reported :
    {S E X : Type 0}
    → (HintError → String)
    → String
    → World S E X
    → PythonicHintExecutor
    → Try String (Unit {0}) × Env S E X
    → Result (Unit {0}) × World S E X
reported display hint_code w self (success u, env) =
    (ok tt, record w { env = env; executor = self; poisoned = false })
reported display hint_code w self (failure e, env) = (
  err (python_error display hint_code (custom_hint ("Python execution error: " ++ e))),
  record w { env = env; executor = self; poisoned = false },
)
reported display hint_code w self (panicked, env) =
    (panic, record w { env = env; executor = self; poisoned = true })

module _ {S E X C O M R T K Run : Type 0} (py : Python S E X C O M) (refs : References S R T)
    (m : Machine S (List (String × R) × T))
    (lib : Libraries (World S E X) (List (String × R) × T) K)
    (p : HintProcessor (World S E X) (List (String × R) × T) K Run)
    (runs : RunsPython py refs m lib p) where
  reported-outcome :
      (hint_code : String) (w : World S E X) (self : PythonicHintExecutor)
      (r : Try String (Unit {0}) × Env S E X)
      → dynamic_result lib hint_code w (with_executor py refs m self (outcome r))
        ≡ reported lib.display_error hint_code w self r
  unfolding hint_error
  reported-outcome hint_code w self (success u, env) = refl
  reported-outcome hint_code w self (failure e, env) = refl
  reported-outcome hint_code w self (panicked, env) = refl

  -- A hint that cairo-vm's processor does not know, which is not skipped as a trace, where Python
  -- hints are enabled, the executor's lock is not poisoned, the executor is or can be initialized,
  -- what the context is prepared from is there, the interpreter has the memory for new objects and
  -- items, and the code has no zero character: the hint processor runs the injected code and the
  -- hint's code in the context, which has wrappers of the memory, the segments and the dictionary
  -- manager, the current registers and the current `ids`, and otherwise what it had. Code that ends
  -- is a success; an exception is an error with the hint's code and the exception's text; a panic
  -- is a panic, and only it poisons the lock. The executor is then initialized, and the machine,
  -- the scopes and the interpreter are as the code left them.
  pub execute_hint-run_in_context :
      (alloc : Allocates py) (context : C) (hint : HintProcessorData (List (String × R) × T))
      (c : K) (w : World S E X) (code : String) (self : PythonicHintExecutor) (x : X) (d : M)
      (identifiers : Identifiers) (items : Items)
      → lib.execute_builtin p.extra_hints (some hint) c w ≡ (err (unknown_hint code), w)
      → is_trace hint.code && not p.enable_traces ≡ false
      → w.poisoned ≡ false
      → ensure_initialized py (w.executor, w.env.interpreter) ≡ (success tt, self, x)
      → CanPrepare py refs m alloc context hint.ids_data d identifiers items
          (record w.env { scopes = py.set_hint_code hint.code w.env.scopes; interpreter = x })
      → has_nul (full_hint_code hint.code) ≡ false
      → (memory : O) × (segments : O) × (dict_manager : O) × (x' : X) × (alloc.wraps memory
          ≡ memory_wrapper)
        × (alloc.wraps segments ≡ segments_wrapper)
        × (alloc.wraps dict_manager ≡ dict_manager_wrapper d)
        × ((name : String)
            → py.get_item x' context name
              ≡ overlay
                  (entries_of py refs m alloc context w.env.vm items memory segments dict_manager)
                  (py.get_item x context)
                  name)
        × (Processor.execute_hint lib p (some hint) c w
            ≡ reported lib.display_error hint.code w self (
                py.run (full_hint_code hint.code) context (record w.env {
                  scopes = py.set_hint_code hint.code w.env.scopes;
                  interpreter = x';
                })))
  execute_hint-run_in_context alloc context hint c w code self x d identifiers items unknown on free
        ready can no_nul =
      let env : Env S E X = record w.env { scopes = py.set_hint_code hint.code w.env.scopes } in
      let (a, b, e, x', wraps_a, wraps_b, wraps_e, has, ran) =
        run_in_context_lem py refs m alloc context hint.code hint.ids_data d identifiers items
          (record env { interpreter = x }) can no_nul in
      (
        a,
        b,
        e,
        x',
        wraps_a,
        wraps_b,
        wraps_e,
        has,
        execute_hint-generic_python_hint py refs m lib p hint c w code runs unknown on free
            ∙ ap (dynamic_result lib hint.code w) (
                execute_hint-ensured py refs m hint.code hint.ids_data w.executor self env x ready
                ∙ ap (with_executor py refs m self) ran)
            ∙ reported-outcome hint.code w self
                (py.run (full_hint_code hint.code) context (record env { interpreter = x' })),
      )

  wrapped-panic :
      (hint_code : String) (r : Result (Unit {0}))
      → wrapped lib.display_error hint_code r ≡ panic
      → is_panic r ≡ true
  wrapped-panic hint_code (ok u) h = cc
  wrapped-panic hint_code (err e) h = cc
  wrapped-panic hint_code panic h = refl

  -- A Python hint where the lock is poisoned.
  execute_hint-refused :
      (hint : HintProcessorData (List (String × R) × T)) (c : K) (w : World S E X) (code : String)
      → lib.execute_builtin p.extra_hints (some hint) c w ≡ (err (unknown_hint code), w)
      → is_trace hint.code && not p.enable_traces ≡ false
      → w.poisoned ≡ true
      → Processor.execute_hint lib p (some hint) c w ≡ (
        err (
            python_error lib.display_error hint.code
              (custom_hint ("Failed to lock executor: " ++ py.poison_error))),
        record w { env = with_hint_code py hint.code w.env },
      )
  execute_hint-refused hint c w code unknown on held =
      let w' : World S E X = record w { env = with_hint_code py hint.code w.env } in
      let (r, (executor, env)) =
        execute_hint py refs m hint.code hint.ids_data (w'.executor, w'.env) in
      let after : World S E X = record w' {
        executor = executor;
        env = env;
        poisoned = is_panic r;
      } in
      let refused : Result (Unit {0}) × World S E X =
        (err (custom_hint ("Failed to lock executor: " ++ py.poison_error)), w') in
      execute_hint-locked py refs m lib p hint c w code runs unknown on
      ∙ ap (λ (b : Bool). wrapped_first lib hint.code (if b then refused else (r, after))) held

  -- After a Python hint that cairo-vm's processor does not know and that panics, where Python hints
  -- are enabled and the executor's lock was not poisoned: the hint processor refuses every further
  -- Python hint that cairo-vm's processor does not know and that is not skipped as a trace, with
  -- the error of the lock and the code of that hint; it runs no code, and notes only the hint's
  -- code in the scopes.
  pub execute_hint-poisoned :
      (first second : HintProcessorData (List (String × R) × T)) (c c' : K) (w : World S E X)
      (code code' : String)
      → let w' = (Processor.execute_hint lib p (some first) c w).1 in
        lib.execute_builtin p.extra_hints (some first) c w ≡ (err (unknown_hint code), w)
        → is_trace first.code && not p.enable_traces ≡ false
        → w.poisoned ≡ false
        → (Processor.execute_hint lib p (some first) c w).0 ≡ panic
        → lib.execute_builtin p.extra_hints (some second) c' w' ≡ (err (unknown_hint code'), w')
        → is_trace second.code && not p.enable_traces ≡ false
        → Processor.execute_hint lib p (some second) c' w' ≡ (
          err (
              python_error lib.display_error second.code
                (custom_hint ("Failed to lock executor: " ++ py.poison_error))),
          record w' { env = with_hint_code py second.code w'.env },
        )
  execute_hint-poisoned first second c c' w code code' unknown on free panics unknown' on' =
      let ran =
        execute_hint-generic_python_hint py refs m lib p first c w code runs unknown on free in
      execute_hint-refused second c' (Processor.execute_hint lib p (some first) c w).1 code'
        unknown' on'
        (ap (λ r. r.1.poisoned) ran
          ∙ wrapped-panic first.code
              (execute_hint py refs m first.code first.ids_data
                (w.executor, with_hint_code py first.code w.env)).0
              (sym (ap (λ r. r.0) ran) ∙ panics))
