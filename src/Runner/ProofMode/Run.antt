-- ===== src/Runner/ProofMode/Run.antt =====
-- A whole run in proof mode, from the program's file to the files with the outputs or the proof.
use keth.Prelude.{
  length, ◌<◌, ℕ, String, List, false, if◌then◌else◌, Bool, some, true, ◌≡◌, refl, ap, ◌∙◌,
}
use keth.Python.{runtime_error, success, panicked}
use keth.Processor.{HintProcessor}
use keth.Runner.Execute.{Hints}
use keth.Runner.Context.{Scopes, Preparing, prepare_scopes, set_inputs}
use keth.Runner.Disk.{Disk}
use keth.Runner.Disk.Written.{Works, concat}
use keth.Runner.Files.{Finished, or_raise, and_then, canonical}
use keth.Runner.ProofMode.{
  Proving, Process, unwrapped, cairo_run_config, proof_processor, on_files, write_results,
  after_run, run_program, prepare_and_run, load_and_run, read_and_run, run_proof_mode, verify_if,
  ProofArguments,
}
use keth.Runner.ProofMode.Outputs.{OutputPaths, HasRoom, HasOutputs, write_outputs_lem}
use keth.Runner.ProofMode.Proof.{proof_path_of, write_proof_lem}

module _ {D X P A I Q R M C O W Ids K Run : Type 0} (disk : Disk D) (finished : Finished D A R)
    (proving : Proving X P (HintProcessor W Ids K Run) A I Q (Scopes M C)) (py : Preparing X M C O)
    (hints : Hints W Ids K Run) where
  -- The steps up to the results, in a process without a subscriber.
  run_proof_mode-write_results :
      (args : ProofArguments O) (w : Process D X) (content : List ℕ) (program : P)
      (scopes : Scopes M C) (x x' : X) (runner : A)
      → w.subscribed ≡ false
      → disk.read w.files args.compiled_program_path ≡ success content
      → proving.from_bytes content args.entrypoint ≡ success program
      → prepare_scopes py
          (proving.iter_identifiers program)
          (set_inputs py args.program_inputs)
          w.interpreter
        ≡ (success scopes, x)
      → proving.run program (cairo_run_config args.entrypoint) (proof_processor hints) scopes x
        ≡ (success runner, x')
      → proving.execution_resources runner ≡ success tt
      → run_proof_mode disk finished proving py hints args w
        ≡ on_files disk finished proving py hints
            (record { subscribed = true; files = w.files; interpreter = x' })
            (write_results disk finished proving py hints args args.stwo_proof runner w.files)
  unfolding run_proof_mode
  run_proof_mode-write_results args w content program scopes x x' runner unset read parsed prepared
        ran counted =
      let v : Process D X = record w { subscribed = true } in
      let v' : Process D X = record v { interpreter = x' } in
      ap
        (λ (b : Bool).
          if b then (panicked, w) else read_and_run disk finished proving py hints args v)
        unset
      ∙ ap
          (λ t.
            and_then (or_raise runtime_error t, v)
              (load_and_run disk finished proving py hints args))
          read
      ∙ ap
          (λ t.
            and_then (or_raise runtime_error t, v)
              (prepare_and_run disk finished proving py hints args))
          parsed
      ∙ ap
          (λ r.
            and_then (r.0, record v { interpreter = r.1 })
              (run_program disk finished proving py hints args program))
          prepared
      ∙ ap
          (λ r.
            and_then (unwrapped r.0, record v { interpreter = r.1 })
              (after_run disk finished proving py hints args))
          ran
      ∙ ap
          (λ t.
            and_then (unwrapped t, v')
              λ u v''. on_files disk finished proving py hints v'' (
                write_results disk finished proving py hints args args.stwo_proof runner v''.files))
          counted

  -- In a process without a subscriber, where no proof is asked for, the program's file can be read
  -- and parsed, the context can be prepared, and the run and the count of its resources succeed;
  -- the paths of the four files, as joined to the directory for outputs, can be used on the disk
  -- and are different, and there is room for the items and the texts; and where the runner has a
  -- trace, its trace and memory are written item by item by cairo-vm, and it has both texts in
  -- JSON: `run_proof_mode` succeeds. The files `trace.bin` and `memory.bin` then hold the items one
  -- after the other, whatever of them passed through the buffer, and the two JSON files hold the
  -- texts, the second made from the canonical paths of the first two files, taken when these are
  -- complete.
  pub run_proof_mode_lem :
      {Used : String → Type 0} (works : Works disk Used) (args : ProofArguments O) (w : Process D X)
      (content : List ℕ) (program : P) (scopes : Scopes M C) (x x' : X) (runner : A)
      (trace memory : List (List ℕ)) (public : String) (private : String → String → String)
      (most : ℕ)
      → w.subscribed ≡ false
      → args.stwo_proof ≡ false
      → disk.read w.files args.compiled_program_path ≡ success content
      → proving.from_bytes content args.entrypoint ≡ success program
      → prepare_scopes py
          (proving.iter_identifiers program)
          (set_inputs py args.program_inputs)
          w.interpreter
        ≡ (success scopes, x)
      → proving.run program (cairo_run_config args.entrypoint) (proof_processor hints) scopes x
        ≡ (success runner, x')
      → proving.execution_resources runner ≡ success tt
      → OutputPaths disk Used args.output_dir
      → HasRoom disk works args.output_dir trace memory public private most w.files
      → HasOutputs disk finished runner trace memory public private
      → let path : String → String = disk.join args.output_dir in
        (before : D) × (d' : D) × (run_proof_mode disk finished proving py hints args w
          ≡ (success tt, record { subscribed = true; files = d'; interpreter = x' }))
        × (works.contents before (path "trace.bin") ≡ some (concat trace))
        × (works.contents before (path "memory.bin") ≡ some (concat memory))
        × (works.contents d' (path "trace.bin") ≡ some (concat trace))
        × (works.contents d' (path "memory.bin") ≡ some (concat memory))
        × (works.contents d' (path "air_public_input.json") ≡ some (disk.as_bytes public))
        × (works.contents d' (path "air_private_input.json")
            ≡ some (
                disk.as_bytes (
                  private
                    (canonical disk before (path "trace.bin"))
                    (canonical disk before (path "memory.bin")))))
  run_proof_mode_lem works args w content program scopes x x' runner trace memory public private
        most unset outputs read parsed prepared ran counted paths room has =
      let v : Process D X = record { subscribed = true; files = w.files; interpreter = x' } in
      let (
        before, d', wrote, trace_then, memory_then, trace_now, memory_now, public_now, private_now,
      ) =
        write_outputs_lem works finished args.output_dir runner trace memory public private most
          w.files paths room has in
      (
        before,
        d',
        run_proof_mode-write_results args w content program scopes x x' runner unset read parsed
              prepared ran counted
            ∙ ap
                (λ b.
                  on_files disk finished proving py hints v
                    (write_results disk finished proving py hints args b runner w.files))
                outputs
            ∙ ap (on_files disk finished proving py hints v) wrote,
        trace_then,
        memory_then,
        trace_now,
        memory_now,
        public_now,
        private_now,
      )

  -- The verification changes no file.
  verify_if_lem :
      (verify : Bool) (proof : Q) (d : D)
      → verify_if disk proving verify proof d
        ≡ ((if verify then or_raise runtime_error (proving.verify proof) else success tt), d)
  verify_if_lem true proof d = refl
  verify_if_lem false proof d = refl

  -- In a process without a subscriber, where a proof is asked for, the program's file can be read
  -- and parsed, the context can be prepared, and the run and the count of its resources succeed;
  -- the path for the proof can be used on the disk, and there is room for its text; and where the
  -- prover takes the runner and returns a proof that has a text: the file at the given path, or at
  -- `proof.json` in the directory for outputs, holds the text, and the result of `run_proof_mode`
  -- is that of the verification, or success if none is asked for. The file stays if the
  -- verification fails.
  pub run_proof_mode-write_proof :
      {Used : String → Type 0} (works : Works disk Used) (args : ProofArguments O) (w : Process D X)
      (content : List ℕ) (program : P) (scopes : Scopes M C) (x x' : X) (runner : A) (input : I)
      (proof : Q) (json : String)
      → w.subscribed ≡ false
      → args.stwo_proof ≡ true
      → disk.read w.files args.compiled_program_path ≡ success content
      → proving.from_bytes content args.entrypoint ≡ success program
      → prepare_scopes py
          (proving.iter_identifiers program)
          (set_inputs py args.program_inputs)
          w.interpreter
        ≡ (success scopes, x)
      → proving.run program (cairo_run_config args.entrypoint) (proof_processor hints) scopes x
        ≡ (success runner, x')
      → proving.execution_resources runner ≡ success tt
      → proving.adapt runner ≡ success input
      → proving.prove input ≡ success proof
      → proving.proof_json proof ≡ success json
      → Used (proof_path_of disk args.output_dir args.proof_path)
      → length (disk.as_bytes json) < works.room w.files
      → (d' : D) × (run_proof_mode disk finished proving py hints args w ≡ (
        (if args.verify then or_raise runtime_error (proving.verify proof) else success tt),
        record { subscribed = true; files = d'; interpreter = x' },
      ))
        × (works.contents d' (proof_path_of disk args.output_dir args.proof_path)
            ≡ some (disk.as_bytes json))
  run_proof_mode-write_proof works args w content program scopes x x' runner input proof json unset
        proofs read parsed prepared ran counted adapted proved encoded ours enough =
      let v : Process D X = record { subscribed = true; files = w.files; interpreter = x' } in
      let (d', wrote, held) =
        write_proof_lem works proving args.output_dir args.proof_path args.verify runner input proof
          json w.files adapted proved encoded ours enough in
      (
        d',
        run_proof_mode-write_results args w content program scopes x x' runner unset read parsed
              prepared ran counted
            ∙ ap
                (λ b.
                  on_files disk finished proving py hints v
                    (write_results disk finished proving py hints args b runner w.files))
                proofs
            ∙ ap (on_files disk finished proving py hints v) wrote
            ∙ ap (on_files disk finished proving py hints v) (verify_if_lem args.verify proof d'),
        held,
      )
