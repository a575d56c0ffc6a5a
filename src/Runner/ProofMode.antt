-- ===== src/Runner/ProofMode.antt =====
-- runner.rs: `run_proof_mode`, a run of a program whose outputs or proof are written to files.
pub mod Outputs
pub mod Twice
pub mod Proof
pub mod Run
use keth.Prelude.{ℕ, ◌*◌, String, List, Option, some, none, Bool, true, false, if◌then◌else◌}
use keth.Python.{Try, PyResult, runtime_error, os_error, raise, success, failure, panicked}
use keth.Python.Variables.{Identifiers}
use keth.Processor.{HintProcessor, default, with_dynamic_python_hints, build}
use keth.Runner.Execute.{Hints}
use keth.Runner.Context.{Scopes, Preparing, prepare_scopes, set_inputs}
use keth.Runner.Settings.{LayoutName, all_cairo}
use keth.Runner.Disk.{Disk, write_file}
use keth.Runner.Files.{
  Finished, or_raise, and_then, write_through, flush_and_drop, write_json, canonical,
}

-- `CairoRunConfig`, as far as the code sets it
pub record CairoRunConfig : Type 0 where
  pub entrypoint : String
  pub trace_enabled : Bool
  pub relocate_mem : Bool
  pub layout : LayoutName
  pub proof_mode : Bool
  pub secure_run : Option Bool
  pub allow_missing_builtins : Option Bool

abbrev pub cairo_run_config : String → CairoRunConfig
cairo_run_config entrypoint = record {
  entrypoint = entrypoint;
  trace_enabled = true;
  relocate_mem = true;
  layout = all_cairo;
  proof_mode = true;
  secure_run = some true;
  allow_missing_builtins = some false;
}

-- What the function calls of cairo-vm, with programs `P`, a hint processor `H` and a finished runner
-- `A`, and of the prover, with inputs `I` and proofs `Q`; errors by their text.
pub record Proving (X P H A I Q S : Type 0) : Type 0 where
  pub from_bytes : List ℕ → String → Try String P
  pub iter_identifiers : P → Identifiers
  pub run : P → CairoRunConfig → H → S → X → Try String A × X
  pub execution_resources : A → Try String (Unit {0})
  pub adapt : A → Try String I
  pub prove : I → Try String Q
  pub proof_json : Q → Try String String
  pub verify : Q → Try String (Unit {0})

-- The arguments of `run_proof_mode`
pub record ProofArguments (O : Type 0) : Type 0 where
  pub entrypoint : String
  pub program_inputs : O
  pub compiled_program_path : String
  pub output_dir : String
  pub stwo_proof : Bool
  pub proof_path : Option String
  pub verify : Bool

-- What a call works on: whether a subscriber for tracing is set in the process, the files, and the
-- interpreter.
pub record Process (D X : Type 0) : Type 0 where
  pub subscribed : Bool
  pub files : D
  pub interpreter : X

abbrev pub unwrapped : {A : Type 0} → Try String A → PyResult A
unwrapped (success a) = success a
unwrapped _ = panicked

module _ {D : Type 0} (disk : Disk D) where
  module _ {A R : Type 0} (finished : Finished D A R) where
    -- The four files with the outputs, from the last one on.
    abbrev pub private_output : String → A → D → PyResult (Unit {0}) × D
    private_output output_dir runner d =
        let trace_path = canonical disk d (disk.join output_dir "trace.bin") in
        let memory_path = canonical disk d (disk.join output_dir "memory.bin") in
        write_json disk os_error (disk.join output_dir "air_private_input.json")
          (finished.air_private_input runner trace_path memory_path) d

    abbrev pub public_output : String → A → D → PyResult (Unit {0}) × D
    public_output output_dir runner d =
        and_then
          (write_json disk runtime_error (disk.join output_dir "air_public_input.json")
            (finished.air_public_input runner) d)
          λ u. private_output output_dir runner

    abbrev pub memory_output : String → A → D → PyResult (Unit {0}) × D
    memory_output output_dir runner d =
        and_then
          (write_through disk runtime_error (flush_and_drop disk os_error)
            (disk.join output_dir "memory.bin") (5 * 1024 * 1024)
            (finished.write_encoded_memory runner) d)
          λ u. public_output output_dir runner

    abbrev pub trace_output : String → A → Option R → D → PyResult (Unit {0}) × D
    trace_output output_dir runner none d = (raise runtime_error "Trace not relocated", d)
    trace_output output_dir runner (some relocated_trace) d =
        and_then
          (write_through disk runtime_error (flush_and_drop disk os_error)
            (disk.join output_dir "trace.bin") (3 * 1024 * 1024)
            (finished.write_encoded_trace relocated_trace) d)
          λ u. memory_output output_dir runner

    unfoldable pub write_outputs : String → A → D → PyResult (Unit {0}) × D
    unfolding write_through write_json
    write_outputs output_dir runner d =
        trace_output output_dir runner (finished.relocated_trace runner) d

  module _ {X P H A I Q S : Type 0} (proving : Proving X P H A I Q S) where
    abbrev pub verify_if : Bool → Q → D → PyResult (Unit {0}) × D
    verify_if true proof d = (or_raise runtime_error (proving.verify proof), d)
    verify_if false proof d = (success tt, d)

    -- The proof, which is written before it is verified; the steps from the last one on.
    abbrev pub save_proof : String → Option String → Bool → Q → String → D → PyResult (Unit {0}) × D
    save_proof output_dir proof_path verify proof json d =
        let path : String = elim proof_path [
          | some p ↦ p
          | none ↦ disk.join output_dir "proof.json"
        ] in
        let (r, d') = write_file disk path (disk.as_bytes json) d in
        and_then (or_raise os_error r, d') λ u. verify_if verify proof

    abbrev pub encode_proof : String → Option String → Bool → Q → D → PyResult (Unit {0}) × D
    encode_proof output_dir proof_path verify proof d =
        and_then (or_raise runtime_error (proving.proof_json proof), d)
          (save_proof output_dir proof_path verify proof)

    abbrev pub make_proof : String → Option String → Bool → I → D → PyResult (Unit {0}) × D
    make_proof output_dir proof_path verify input d =
        and_then (or_raise runtime_error (proving.prove input), d)
          (encode_proof output_dir proof_path verify)

    unfoldable pub write_proof : String → Option String → Bool → A → D → PyResult (Unit {0}) × D
    unfolding write_file
    write_proof output_dir proof_path verify runner d =
        and_then (or_raise runtime_error (proving.adapt runner), d)
          (make_proof output_dir proof_path verify)

-- The hint processor of the run.
unfoldable pub proof_processor :
    {W Ids C Run : Type 0} → Hints W Ids C Run → HintProcessor W Ids C Run
unfolding default with_dynamic_python_hints build
proof_processor h = build (
    with_dynamic_python_hints (default h.loaded h.default_resources h.hints h.tables) h.generic
      false)

module _ {D X P A I Q R M C O W Ids K Run : Type 0} (disk : Disk D) (finished : Finished D A R)
    (proving : Proving X P (HintProcessor W Ids K Run) A I Q (Scopes M C)) (py : Preparing X M C O)
    (hints : Hints W Ids K Run) where
  -- A step on the files alone.
  abbrev pub on_files : Process D X → PyResult (Unit {0}) × D → PyResult (Unit {0}) × Process D X
  on_files w (r, d) = (r, record w { files = d })

  abbrev pub write_results : ProofArguments O → Bool → A → D → PyResult (Unit {0}) × D
  write_results args true runner d =
      write_proof disk proving args.output_dir args.proof_path args.verify runner d
  write_results args false runner d = write_outputs disk finished args.output_dir runner d

  -- The steps of the function, from the last one on.
  abbrev pub after_run : ProofArguments O → A → Process D X → PyResult (Unit {0}) × Process D X
  after_run args runner w =
      and_then (unwrapped (proving.execution_resources runner), w)
        λ resources v. on_files v (write_results args args.stwo_proof runner v.files)

  abbrev pub run_program :
      ProofArguments O → P → Scopes M C → Process D X → PyResult (Unit {0}) × Process D X
  run_program args program exec_scopes w =
      let (ran, x) =
        proving.run program (cairo_run_config args.entrypoint) (proof_processor hints) exec_scopes
          w.interpreter in
      and_then (unwrapped ran, record w { interpreter = x }) (after_run args)

  abbrev pub prepare_and_run :
      ProofArguments O → P → Process D X → PyResult (Unit {0}) × Process D X
  prepare_and_run args program w =
      let (prepared, x) =
        prepare_scopes py (proving.iter_identifiers program) (set_inputs py args.program_inputs)
          w.interpreter in
      and_then (prepared, record w { interpreter = x }) (run_program args program)

  abbrev pub load_and_run :
      ProofArguments O → List ℕ → Process D X → PyResult (Unit {0}) × Process D X
  load_and_run args program_content w =
      and_then (or_raise runtime_error (proving.from_bytes program_content args.entrypoint), w)
        (prepare_and_run args)

  abbrev pub read_and_run : ProofArguments O → Process D X → PyResult (Unit {0}) × Process D X
  read_and_run args w =
      and_then (or_raise runtime_error (disk.read w.files args.compiled_program_path), w)
        (load_and_run args)

  -- `init` of the subscriber panics where there is one.
  unfoldable pub run_proof_mode : ProofArguments O → Process D X → PyResult (Unit {0}) × Process D X
  unfolding proof_processor prepare_scopes write_outputs write_proof
  run_proof_mode args w =
      let subscribed : Process D X = record w { subscribed = true } in
      if w.subscribed then (panicked, w) else read_and_run args subscribed
