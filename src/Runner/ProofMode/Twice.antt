-- ===== src/Runner/ProofMode/Twice.antt =====
-- A second run in proof mode in one process.
use keth.Prelude.{Bool, true, if◌then◌else◌, ◌≡◌, refl, ap, ◌∙◌, Bool-cases, inl, inr}
use keth.Python.{PyResult, runtime_error, success, failure, panicked}
use keth.Processor.{HintProcessor}
use keth.Runner.Execute.{Hints}
use keth.Runner.Context.{Scopes, Preparing, prepare_scopes, set_inputs}
use keth.Runner.Disk.{Disk}
use keth.Runner.Files.{Finished, or_raise, and_then}
use keth.Runner.ProofMode.{
  Proving, Process, unwrapped, cairo_run_config, proof_processor, on_files, write_results,
  after_run, run_program, prepare_and_run, load_and_run, read_and_run, run_proof_mode,
  ProofArguments,
}

module _ {D X : Type 0} where
  -- The subscriber is set afterwards.
  abbrev Keeps : {A : Type 0} → PyResult A × Process D X → Type 0
  Keeps r = r.1.subscribed ≡ true

  and_then-Keeps :
      {A B : Type 0} (r : PyResult A × Process D X)
      (next : A → Process D X → PyResult B × Process D X)
      → Keeps r
      → ((a : A) (w : Process D X) → w.subscribed ≡ true → Keeps (next a w))
      → Keeps (and_then r next)
  and_then-Keeps (success a, w) next h keeps = keeps a w h
  and_then-Keeps (failure e, w) next h keeps = h
  and_then-Keeps (panicked, w) next h keeps = h

module _ {D X P A I Q R M C O W Ids K Run : Type 0} (disk : Disk D) (finished : Finished D A R)
    (proving : Proving X P (HintProcessor W Ids K Run) A I Q (Scopes M C)) (py : Preparing X M C O)
    (hints : Hints W Ids K Run) where
  after_run-Keeps :
      (args : ProofArguments O) (runner : A) (w : Process D X)
      → w.subscribed ≡ true
      → Keeps (after_run disk finished proving py hints args runner w)
  after_run-Keeps args runner w set =
      and_then-Keeps (unwrapped (proving.execution_resources runner), w)
        (λ resources v.
          on_files disk finished proving py hints v
            (write_results disk finished proving py hints args args.stwo_proof runner v.files))
        set (λ resources v h. h)

  read_and_run-Keeps :
      (args : ProofArguments O) (w : Process D X)
      → w.subscribed ≡ true
      → Keeps (read_and_run disk finished proving py hints args w)
  read_and_run-Keeps args w set =
      and_then-Keeps (or_raise runtime_error (disk.read w.files args.compiled_program_path), w)
        (load_and_run disk finished proving py hints args) set
        λ content w1 h1.
          and_then-Keeps (or_raise runtime_error (proving.from_bytes content args.entrypoint), w1)
            (prepare_and_run disk finished proving py hints args) h1
            λ program w2 h2.
              let prepared =
                prepare_scopes py (proving.iter_identifiers program)
                  (set_inputs py args.program_inputs) w2.interpreter in
              and_then-Keeps (prepared.0, record w2 { interpreter = prepared.1 })
                (run_program disk finished proving py hints args program) h2
                λ scopes w3 h3.
                  let ran =
                    proving.run program (cairo_run_config args.entrypoint) (proof_processor hints)
                      scopes w3.interpreter in
                  and_then-Keeps (unwrapped ran.0, record w3 { interpreter = ran.1 })
                    (after_run disk finished proving py hints args) h3 (after_run-Keeps args)

  run_proof_mode-subscribed :
      (args : ProofArguments O) (w : Process D X)
      → w.subscribed ≡ true
      → run_proof_mode disk finished proving py hints args w ≡ (panicked, w)
  unfolding run_proof_mode
  run_proof_mode-subscribed args w set =
      let fresh =
        read_and_run disk finished proving py hints args (record w { subscribed = true }) in
      ap (λ (b : Bool). if b then (panicked, w) else fresh) set

  run_proof_mode-Keeps :
      (args : ProofArguments O) (w : Process D X)
      → Keeps (run_proof_mode disk finished proving py hints args w)
  unfolding run_proof_mode
  run_proof_mode-Keeps args w =
      let subscribed : Process D X = record w { subscribed = true } in
      let fresh = read_and_run disk finished proving py hints args subscribed in
      elim (Bool-cases w.subscribed) [
        | inl set ↦ ap (λ r. r.1.subscribed) (run_proof_mode-subscribed args w set) ∙ set
        | inr unset ↦
            ap (λ (b : Bool). (if b then (panicked, w) else fresh).1.subscribed) unset
            ∙ read_and_run-Keeps args subscribed refl
      ]

  -- After a call of `run_proof_mode` with any arguments, in any process and whatever its result, a
  -- second call in the same process panics and changes nothing.
  pub run_proof_mode-again :
      (first second : ProofArguments O) (w : Process D X)
      → let w' = (run_proof_mode disk finished proving py hints first w).1 in
        run_proof_mode disk finished proving py hints second w' ≡ (panicked, w')
  run_proof_mode-again first second w =
      run_proof_mode-subscribed second (run_proof_mode disk finished proving py hints first w).1
        (run_proof_mode-Keeps first w)
