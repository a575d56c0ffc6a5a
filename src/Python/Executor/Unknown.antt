-- ===== src/Python/Executor/Unknown.antt =====
-- What the hint processor does with a hint that it does not know.
use Prim.Native.String.{◌++◌}
use keth.Prelude.{
  String, List, some, Bool, false, not, ◌&&◌, if◌then◌else◌, ◌≡◌, ap, ◌∙◌, Result, ok, err,
  unknown_hint, custom_hint,
}
use keth.Machine.{Machine}
use keth.Python.ConstsDict.{References}
use keth.Processor
use keth.Processor.{
  HintFunc, HintProcessorData, HintProcessor, Libraries, is_trace, wrapped, run_unknown, finish,
  execute_unknown,
}
use keth.Python.Executor.{
  Python, Env, PythonicHintExecutor, World, is_panic, execute_hint, locked, with_code,
  generic_python_hint,
}

-- What the executor returns, with the error of a Python hint wrapped.
abbrev pub dynamic_result :
    {S E X Ids K : Type 0}
    → Libraries (World S E X) Ids K
    → String
    → World S E X
    → Result (Unit {0}) × (PythonicHintExecutor × Env S E X)
    → Result (Unit {0}) × World S E X
dynamic_result lib hint_code w (r, (executor, env)) = (
  wrapped lib.display_error hint_code r,
  record w { executor = executor; env = env; poisoned = is_panic r },
)

abbrev pub wrapped_first :
    {W Ids K : Type 0} → Libraries W Ids K → String → Result (Unit {0}) × W → Result (Unit {0}) × W
wrapped_first lib hint_code (r, w) = (wrapped lib.display_error hint_code r, w)

module _ {S E X C O M : Type 0} (py : Python S E X C O M) where
  -- The environment when the code of a hint was noted in the scopes.
  abbrev pub with_hint_code : String → Env S E X → Env S E X
  with_hint_code hint_code w = record w { scopes = py.set_hint_code hint_code w.scopes }

  -- The processor has the executor's hint for hints that it does not know, and its library notes
  -- their code in the scopes.
  pub record RunsPython {R T K Run : Type 0} (refs : References S R T)
      (m : Machine S (List (String × R) × T))
      (lib : Libraries (World S E X) (List (String × R) × T) K)
      (p : HintProcessor (World S E X) (List (String × R) × T) K Run) : Type 0 where
    pub enabled : p.pythonic_hint_executor ≡ some (generic_python_hint py refs m)
    pub set_hint_code_lem :
        (hint_code : String) (w : World S E X)
        → lib.set_hint_code hint_code w ≡ record w { env = with_hint_code hint_code w.env }

module _ {S E X C O M R T K Run : Type 0} (py : Python S E X C O M) (refs : References S R T)
    (m : Machine S (List (String × R) × T))
    (lib : Libraries (World S E X) (List (String × R) × T) K)
    (p : HintProcessor (World S E X) (List (String × R) × T) K Run) where
  generic_python_hint_lem :
      (hint_code : String) (ids : List (String × R) × T) (c : K) (w : World S E X)
      → generic_python_hint py refs m {K = K} ids c
          (record w { env = with_hint_code py hint_code w.env })
        ≡ locked py refs m hint_code ids (record w { env = with_hint_code py hint_code w.env })
  unfolding generic_python_hint
  generic_python_hint_lem hint_code ids c w =
      ap (λ t. with_code py refs m ids t (record w { env = with_hint_code py hint_code w.env }))
        (py.get_hint_code_lem hint_code w.env.scopes)

  -- With the executor's lock, on the hint's code.
  pub execute_hint-locked :
      (hint : HintProcessorData (List (String × R) × T)) (c : K) (w : World S E X) (code : String)
      → RunsPython py refs m lib p
      → lib.execute_builtin p.extra_hints (some hint) c w ≡ (err (unknown_hint code), w)
      → is_trace hint.code && not p.enable_traces ≡ false
      → Processor.execute_hint lib p (some hint) c w
        ≡ wrapped_first lib hint.code (
            locked py refs m hint.code hint.ids_data
              (record w { env = with_hint_code py hint.code w.env }))
  unfolding Processor.execute_hint execute_unknown
  execute_hint-locked hint c w code runs unknown on =
      let func = generic_python_hint py refs m {K = K} hint.ids_data c in
      let wrap = wrapped_first lib hint.code in
      ap (finish lib p (some hint) c) unknown
      ∙ ap (λ e. run_unknown lib p.enable_traces e (some hint) c w) runs.enabled
      ∙ ap (λ (b : Bool). if b then (ok tt, w) else wrap (func (lib.set_hint_code hint.code w))) on
      ∙ ap (λ v. wrap (func v)) (runs.set_hint_code_lem hint.code w)
      ∙ ap wrap (generic_python_hint_lem hint.code hint.ids_data c w)

  -- The state and the lock are as the execution left them, and an error is wrapped.
  pub execute_hint-generic_python_hint :
      (hint : HintProcessorData (List (String × R) × T)) (c : K) (w : World S E X) (code : String)
      → RunsPython py refs m lib p
      → lib.execute_builtin p.extra_hints (some hint) c w ≡ (err (unknown_hint code), w)
      → is_trace hint.code && not p.enable_traces ≡ false
      → w.poisoned ≡ false
      → Processor.execute_hint lib p (some hint) c w
        ≡ dynamic_result lib hint.code w (
            execute_hint py refs m hint.code hint.ids_data
              (w.executor, with_hint_code py hint.code w.env))
  execute_hint-generic_python_hint hint c w code runs unknown on free =
      let w' : World S E X = record w { env = with_hint_code py hint.code w.env } in
      let (r, (executor, env)) =
        execute_hint py refs m hint.code hint.ids_data (w'.executor, w'.env) in
      let after : World S E X = record w' {
        executor = executor;
        env = env;
        poisoned = is_panic r;
      } in
      let refused : Result (Unit {0}) × World S E X =
        (err (custom_hint ("Failed to lock executor: " ++ py.poison_error)), w') in
      execute_hint-locked hint c w code runs unknown on
      ∙ ap (λ (b : Bool). wrapped_first lib hint.code (if b then refused else (r, after))) free
