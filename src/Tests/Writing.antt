-- ===== src/Tests/Writing.antt =====
-- A disk on which everything succeeds, and the theorems on runs in proof mode at concrete runs.
use Prim.Native.String.{◌++◌ as joined}
use text.Mathlib.Text.{◌==◌ as str_eq, find?}
use text.Mathlib.TextEquality.{eq_iff}
use text.Mathlib.TextPositions.{eq_refl}
use keth.Prelude.{
  zero, ◌≤◌, ◌-◌, ◌+◌, leb, ℕ, String, List, [], ◌∷◌, ◌++◌, Option, some, none, true, false,
  if◌then◌else◌, length, ◌≡◌, ◌≢◌, refl, sym, ap, ◌∙◌, arith, Bool-cases, inl, inr,
}
use keth.Python.{Try, runtime_error, raise, success, failure, panicked}
use keth.Processor.{HintProcessor}
use keth.Runner.Context.{Scopes, Preparing, prepare_scopes}
use keth.Runner.Disk.{Disk, write_items}
use keth.Runner.Disk.Written.{Works}
use keth.Runner.Files.{Finished, write_binary_trace}
use keth.Runner.Files.Unflushed.{write_binary_trace_unflushed}
use keth.Runner.ProofMode.{Proving, Process, ProofArguments, run_proof_mode}
use keth.Runner.ProofMode.Outputs.{OutputPaths, HasOutputs}
use keth.Runner.ProofMode.Run.{run_proof_mode_lem, run_proof_mode-write_proof}
use keth.Runner.ProofMode.Twice.{run_proof_mode-again}
use keth.Tests.Run.{example_hints}

-- What the files hold, and how many bytes can still be written.
record Files : Type 0 where
  held : String → Option (List ℕ)
  free : ℕ

abbrev set_file : String → List ℕ → Files → Files
set_file path bytes d = record d {
  held = λ other. if str_eq path other then some bytes else d.held other;
}

abbrev write_to : String → List ℕ → Files → Option (List ℕ) → Try String (Unit {0}) × ℕ × Files
write_to path bytes d none = (failure "not created", 0, d)
write_to path bytes d (some held) =
    if leb (length bytes) d.free
    then (
      success tt,
      length bytes,
      record (set_file path (held ++ bytes) d) { free = d.free - length bytes },
    )
    else (failure "no space", 0, d)

abbrev write_all : String → List ℕ → Files → Try String (Unit {0}) × ℕ × Files
write_all path bytes d = write_to path bytes d (d.held path)

-- An absolute path replaces the directory.
abbrev join : String → String → String
join dir name = elim (find? name "/") [ some zero ↦ name | _ ↦ joined dir (joined "/" name) ]

abbrev disk : Disk Files
disk = record {
  create = λ path d. (success tt, set_file path [] d);
  write_all = write_all;
  read = λ d path. elim (d.held path) [ some bytes ↦ success bytes | none ↦ failure "no file" ];
  canonicalize = λ d path. none;
  join = join;
  as_bytes = λ text. 123 ∷ 125 ∷ [];
  encode_error = λ e n. e;
  item_error = λ i e. e;
}

set_file_here :
    (path : String) (bytes : List ℕ) (d : Files) → (set_file path bytes d).held path ≡ some bytes
set_file_here path bytes d = rw (eq_refl path) refl

set_file_other :
    (path other : String) (bytes : List ℕ) (d : Files)
    → other ≢ path
    → (set_file path bytes d).held other ≡ d.held other
set_file_other path other bytes d apart = elim (Bool-cases (str_eq path other)) [
  | inl same ↦ absurd (apart (sym ((eq_iff path other).0 same)))
  | inr differ ↦ rw differ refl
]

write_all_works :
    (path : String) (bytes held : List ℕ) (d : Files)
    → d.held path ≡ some held
    → length bytes ≤ d.free
    → (after : Files) × (write_all path bytes d ≡ (success tt, length bytes, after))
      × (after.held path ≡ some (held ++ bytes))
      × (d.free ≤ length bytes + after.free)
      × ((other : String) → other ≢ path → after.held other ≡ d.held other)
write_all_works path bytes held d h fits =
    let within : leb (length bytes) d.free ≡ true = ground arith in
    (
      record (set_file path (held ++ bytes) d) { free = d.free - length bytes },
      ap (write_to path bytes d) h ∙ rw within refl,
      set_file_here path (held ++ bytes) d,
      omega arith,
      λ other apart. set_file_other path other (held ++ bytes) d apart,
    )

-- Every path can be used.
abbrev Used : String → Type 0
Used path = Unit {0}

abbrev works : Works disk Used
works = record {
  contents = λ d path. d.held path;
  room = λ d. d.free;
  create_lem = λ path d u more. (
    set_file path [] d,
    refl,
    set_file_here path [] d,
    omega arith,
    λ other v apart. set_file_other path other [] d apart,
  );
  write_all_lem = λ path bytes held d u h fits.
      let (after, ran, now, taken, others) = write_all_works path bytes held d h fits in
      (after, ran, now, taken, λ other v apart. others other apart);
}

names_differ : (a b : String) → str_eq a b ≡ false → a ≢ b
names_differ a b h = λ same. ground (arith, h, (eq_iff a b).1 same)

paths : OutputPaths disk Used "out"
paths = record {
  trace_used = tt;
  memory_used = tt;
  public_used = tt;
  private_used = tt;
  trace_memory = names_differ _ _ refl;
  trace_public = names_differ _ _ refl;
  trace_private = names_differ _ _ refl;
  memory_public = names_differ _ _ refl;
  memory_private = names_differ _ _ refl;
  public_private = names_differ _ _ refl;
}

-- A finished runner is its trace and its memory.
abbrev Items : Type 0
Items = List (List ℕ)

abbrev finished : Finished Files (Items × Items) Items
finished = record {
  relocated_trace = λ runner. some runner.0;
  write_encoded_trace = λ trace w files. write_items disk 0 trace w files;
  write_encoded_memory = λ runner w files. write_items disk 0 runner.1 w files;
  air_public_input = λ runner. success "{}";
  air_private_input = λ runner trace memory. success trace;
}

abbrev no_files : Files
no_files = record { held = λ path. none; free = 10 }

abbrev trace_items : Items
trace_items = (1 ∷ 2 ∷ []) ∷ (3 ∷ []) ∷ []

abbrev memory_items : Items
memory_items = (4 ∷ 5 ∷ []) ∷ []

outputs :
    HasOutputs disk finished (trace_items, memory_items) trace_items memory_items "{}" (λ t m. t)
outputs = record {
  entries = trace_items;
  traced = refl;
  trace_written = λ w files. refl;
  memory_written = λ w files. refl;
  public_made = refl;
  private_made = λ t m. refl;
}

abbrev proving : Proving ℕ ℕ (HintProcessor ℕ ℕ ℕ ℕ) (Items × Items) ℕ ℕ (Scopes ℕ ℕ)
proving = record {
  from_bytes = λ bytes entrypoint. success 0;
  iter_identifiers = λ program. [];
  run = λ program config processor scopes x. (success (trace_items, memory_items), x);
  execution_resources = λ runner. success tt;
  adapt = λ runner. success 0;
  prove = λ input. success 0;
  proof_json = λ proof. success "{}";
  verify = λ proof. success tt;
}

abbrev preparing : Preparing ℕ ℕ ℕ ℕ
preparing = record {
  new_dict_manager = 0;
  new_dict = λ x. (0, x);
  empty_dict = λ x. (0, x);
  set_entry = λ context name value x. (success tt, x);
  run = λ code context x. (success tt, x);
  display_exception = λ e. "error";
}

abbrev scopes : Scopes ℕ ℕ
scopes = record { dict_manager = some 0; program_identifiers = some []; context = some 0 }

abbrev arguments : ProofArguments ℕ
arguments = record {
  entrypoint = "main";
  program_inputs = 0;
  compiled_program_path = "program.json";
  output_dir = "out";
  stwo_proof = false;
  proof_path = none;
  verify = false;
}

abbrev process : Process Files ℕ
process = record {
  subscribed = false;
  files = set_file "program.json" (123 ∷ 125 ∷ []) no_files;
  interpreter = 0;
}

run_proof_mode_lem_example :
    (before : Files) × (after : Files) × (run_proof_mode disk finished proving preparing
        example_hints arguments process
      ≡ (success tt, record { subscribed = true; files = after; interpreter = 0 }))
    × (before.held "out/trace.bin" ≡ some (1 ∷ 2 ∷ 3 ∷ []))
    × (before.held "out/memory.bin" ≡ some (4 ∷ 5 ∷ []))
    × (after.held "out/trace.bin" ≡ some (1 ∷ 2 ∷ 3 ∷ []))
    × (after.held "out/memory.bin" ≡ some (4 ∷ 5 ∷ []))
    × (after.held "out/air_public_input.json" ≡ some (123 ∷ 125 ∷ []))
    × (after.held "out/air_private_input.json" ≡ some (123 ∷ 125 ∷ []))
unfolding prepare_scopes
run_proof_mode_lem_example =
    run_proof_mode_lem disk finished proving preparing example_hints works arguments process
      (123 ∷ 125 ∷ []) 0 scopes 0 0 (trace_items, memory_items) trace_items memory_items "{}"
      (λ t m. t) 2 refl refl refl refl refl refl refl paths (λ e. omega arith, omega arith) outputs

run_proof_mode-again_example :
    let after =
      (run_proof_mode disk finished proving preparing example_hints arguments process).1 in
    run_proof_mode disk finished proving preparing example_hints arguments after ≡ (panicked, after)
run_proof_mode-again_example =
    run_proof_mode-again disk finished proving preparing example_hints arguments arguments process

abbrev failing : Proving ℕ ℕ (HintProcessor ℕ ℕ ℕ ℕ) (Items × Items) ℕ ℕ (Scopes ℕ ℕ)
failing = record proving { verify = λ proof. failure "not valid" }

abbrev proof_arguments : ProofArguments ℕ
proof_arguments = record arguments { stwo_proof = true; verify = true }

run_proof_mode-write_proof_example :
    (after : Files) × (run_proof_mode disk finished failing preparing example_hints proof_arguments
        process
      ≡ (
        raise runtime_error "not valid",
        record { subscribed = true; files = after; interpreter = 0 },
      ))
    × (after.held "out/proof.json" ≡ some (123 ∷ 125 ∷ []))
unfolding prepare_scopes
run_proof_mode-write_proof_example =
    run_proof_mode-write_proof disk finished failing preparing example_hints works proof_arguments
      process (123 ∷ 125 ∷ []) 0 scopes 0 0 (trace_items, memory_items) 0 0 "{}" refl refl refl refl
      refl refl refl refl refl refl tt (omega arith)

-- A disk that takes no bytes: the trace is lost without an error.
abbrev full : Files
full = record no_files { free = 0 }

write_binary_trace_unflushed_example :
    write_binary_trace disk finished (trace_items, memory_items) "trace.bin" full
    ≡ (success tt, set_file "trace.bin" [] full)
write_binary_trace_unflushed_example =
    write_binary_trace_unflushed disk finished (trace_items, memory_items) trace_items trace_items
      "trace.bin" full (set_file "trace.bin" [] full) refl (λ w d. refl) (omega arith) refl
