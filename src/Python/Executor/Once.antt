-- ===== src/Python/Executor/Once.antt =====
-- The interpreter is initialized once, by the first hint.
use keth.Prelude.{
  String, List, [], ◌∷◌, Bool, true, false, ◌≡◌, refl, sym, ap, ◌∙◌, if◌then◌else◌, Result, ok, err,
  panic, Action, pure, ◌>>◌,
}
use keth.Machine.{Machine}
use keth.Python.{success}
use keth.Python.ConstsDict.{References}
use keth.Python.Executor.{
  Python, Env, PythonicHintExecutor, append_paths, attempted, ensure_initialized, once_initialized,
  run_in_context, execute_hint,
}

module _ {S E X C O M R T : Type 0} (py : Python S E X C O M) (refs : References S R T)
    (m : Machine S (List (String × R) × T)) where
  -- The hints of a program one after the other, up to the first that fails: by the executor, and
  -- their code alone.
  abbrev pub execute_hints :
      List (String × (List (String × R) × T)) → Action (PythonicHintExecutor × Env S E X) (Unit {0})
  execute_hints [] = pure tt
  execute_hints ((hint_code, ids) ∷ rest) =
      execute_hint py refs m hint_code ids >> execute_hints rest

  abbrev pub run_all : List (String × (List (String × R) × T)) → Action (Env S E X) (Unit {0})
  run_all [] = pure tt
  run_all ((hint_code, ids) ∷ rest) = run_in_context py refs m hint_code ids >> run_all rest

  abbrev pub with_executor :
      PythonicHintExecutor
      → Result (Unit {0}) × Env S E X
      → Result (Unit {0}) × (PythonicHintExecutor × Env S E X)
  with_executor self (r, w) = (r, (self, w))

  ensure_initialized-again :
      (self : PythonicHintExecutor) (x : X)
      → self.initialized ≡ true
      → ensure_initialized py (self, x) ≡ (success tt, self, x)
  unfolding ensure_initialized
  ensure_initialized-again self x h = rw h refl

  ensure_initialized-first :
      (self : PythonicHintExecutor) (x x' : X)
      → self.initialized ≡ false
      → append_paths py self.python_path x ≡ (success tt, x')
      → ensure_initialized py (self, x) ≡ (success tt, record self { initialized = true }, x')
  unfolding ensure_initialized
  ensure_initialized-first self x x' h appended =
      ap
        (λ (b : Bool).
          if b
          then (success tt, self, x)
          else attempted py self (append_paths py self.python_path x))
        h
      ∙ ap (attempted py self) appended

  pub execute_hint-ensured :
      (hint_code : String) (ids : List (String × R) × T) (self self' : PythonicHintExecutor)
      (w : Env S E X) (x' : X)
      → ensure_initialized py (self, w.interpreter) ≡ (success tt, self', x')
      → execute_hint py refs m hint_code ids (self, w)
        ≡ with_executor self'
            (run_in_context py refs m hint_code ids (record w { interpreter = x' }))
  unfolding execute_hint
  execute_hint-ensured hint_code ids self self' w x' h =
      ap (once_initialized py refs m hint_code ids w) h

  -- A result of a first hint, and what comes after it.
  abbrev after :
      {W : Type 0} → (W → Result (Unit {0}) × W) → Result (Unit {0}) × W → Result (Unit {0}) × W
  after rest (ok u, w) = rest w
  after rest (err e, w) = (err e, w)
  after rest (panic, w) = (panic, w)

  bind-after :
      {W : Type 0} (first rest : Action W (Unit {0})) (w : W)
      → (first >> rest) w ≡ after rest (first w)
  bind-after {W} first rest w = go (first w)
    where
      go : (r : Result (Unit {0}) × W) → ((λ (v : W). r) >> rest) w ≡ after rest r
      go (ok u, w') = refl
      go (err e, w') = refl
      go (panic, w') = refl

  after-with_executor :
      (rest : Action (Env S E X) (Unit {0}))
      (later : Action (PythonicHintExecutor × Env S E X) (Unit {0})) (self : PythonicHintExecutor)
      (r : Result (Unit {0}) × Env S E X)
      → ((w : Env S E X) → later (self, w) ≡ with_executor self (rest w))
      → after later (with_executor self r) ≡ with_executor self (after rest r)
  after-with_executor rest later self (ok u, w) h = h w
  after-with_executor rest later self (err e, w) h = refl
  after-with_executor rest later self (panic, w) h = refl

  execute_hints-initialized :
      (hints : List (String × (List (String × R) × T))) (self : PythonicHintExecutor)
      (w : Env S E X)
      → self.initialized ≡ true
      → execute_hints hints (self, w) ≡ with_executor self (run_all hints w)
  execute_hints-initialized [] self w h = refl
  execute_hints-initialized ((hint_code, ids) ∷ rest) self w h =
      bind-after (execute_hint py refs m hint_code ids) (execute_hints rest) (self, w)
      ∙ ap (after (execute_hints rest)) (
          execute_hint-ensured hint_code ids self self w w.interpreter
            (ensure_initialized-again self w.interpreter h))
      ∙ after-with_executor (run_all rest) (execute_hints rest) self
          (run_in_context py refs m hint_code ids w) (λ v. execute_hints-initialized rest self v h)
      ∙ ap (with_executor self)
          (sym (bind-after (run_in_context py refs m hint_code ids) (run_all rest) w))

  -- Python hints one after the other, up to the first that fails, from an executor that is not
  -- initialized, if its paths can be appended: the result and the state are those of running the
  -- code of all the hints after the paths were appended once, and the executor is then initialized.
  pub execute_hints-once :
      (hint_code : String) (ids : List (String × R) × T)
      (rest : List (String × (List (String × R) × T))) (self : PythonicHintExecutor) (w : Env S E X)
      (x' : X)
      → self.initialized ≡ false
      → append_paths py self.python_path w.interpreter ≡ (success tt, x')
      → execute_hints ((hint_code, ids) ∷ rest) (self, w)
        ≡ with_executor
            (record self { initialized = true })
            (run_all ((hint_code, ids) ∷ rest) (record w { interpreter = x' }))
  execute_hints-once hint_code ids rest self w x' h appended =
      let self' : PythonicHintExecutor = record self { initialized = true } in
      let w' : Env S E X = record w { interpreter = x' } in
      bind-after (execute_hint py refs m hint_code ids) (execute_hints rest) (self, w)
      ∙ ap (after (execute_hints rest)) (
          execute_hint-ensured hint_code ids self self' w x'
            (ensure_initialized-first self w.interpreter x' h appended))
      ∙ after-with_executor (run_all rest) (execute_hints rest) self'
          (run_in_context py refs m hint_code ids w')
          (λ v. execute_hints-initialized rest self' v refl)
      ∙ ap (with_executor self')
          (sym (bind-after (run_in_context py refs m hint_code ids) (run_all rest) w'))
