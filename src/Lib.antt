-- ===== src/Lib.antt =====
-- The hints of the Rust crate crates/cairo-addons: the functions that the Cairo virtual machine
-- calls while it runs the Ethereum client of this repository (cairo/). A hint reads variables of
-- the Cairo program and cells of its memory, computes what the program cannot compute itself, and
-- writes it back to variables or cells; some also change the dictionaries of the execution
-- scopes.
--
-- Parts, with paths below crates/cairo-addons/src/vm/:
-- - Prelude: lists, results, words and bytes. A fallible step returns `Result` (`ok`, `err` with
--   the error, `panic` for an `unwrap` or an assertion that fails); a hint is an `Action` on a
--   state, in do notation, which passes the state on along every path, errors included.
-- - Machine: what the hints use of `Felt252` and of cairo-vm's `VirtualMachine`, as records of
--   operations with their documented behaviour; Dicts: the same for `DictManager` and
--   `DictTracker`, with what a dictionary answers at a key in Dicts/Lookup.
-- - HintUtils (hint_utils/mod.rs): `serialize_sequence` and `deserialize_sequence` in Sequence,
--   `split` and `pack` in Limbs, `Uint384` and `Uint256` in files of their names. Proofs are in
--   Round (limbs), Uint256/Round, and Memory (sequences).
-- - Hints, one file for each file of hint_definitions/: Maths (maths.rs), BytesHints
--   (bytes_hints.rs), Ethereum (ethereum.rs), Circuits (circuits.rs), Curve (curve.rs, with the
--   hints on multi-scalar multiplication in Curve/Msm, those on modulo builtins in Curve/Builtins
--   and those on the digits of a scalar in Curve/Digits), Precompiles (precompiles.rs), Dict
--   (dict.rs), HashDict (hashdict.rs), Utils (utils.rs; its analysis of jump destinations is
--   Utils/Jumpdest). A hint has the name of its function; the other child modules hold the
--   proofs. Utils/Jumpdest/Fuel is on the rounds of the scan. Hints/Invariant is on all the hints
--   that change dictionaries together: `Step` is a step of the machine or a hint, and `Reach` a
--   run.
-- - Processor (hints.rs): the hint processor, which registers the hints under their ids and their
--   Python code, hands a hint to cairo-vm's processor, and what that does not know to Python.
--   Loader (hint_loader.rs) runs the Python code that lists the hints.
-- - Runner (runner.rs): how the runner reads the return values past the cells of the builtins,
--   and which positions it adds to the public memory; Context is a new runner with its scopes,
--   Fields what Python reads and sets, Execute a run with its hint processor, Disk the writer
--   with its buffer, Files the files of a trace and a memory, ProofMode the function
--   `run_proof_mode`. Settings has the layouts, builtins and stripped programs (layout.rs,
--   builtins.rs, stripped_program.rs), Program the programs, resources and entries of a trace
--   (program.rs, run_resources.rs, relocated_trace.rs).
-- - Python: what a Python hint sees. Exceptions and how errors are printed are in the file
--   itself; Address (relocatable.rs, maybe_relocatable.rs), Segments (memory_segments.rs),
--   Manager (dict_manager.rs, over the same dictionaries as the hints), and vm_consts.rs in
--   Variables (the types), Consts (the object of a variable) and ConstsDict (the dictionary
--   `ids`). Variables also has the errors of pythonic_hint.rs; its code is in Injector (the
--   generic hint) and Executor (the interpreter's context and the code that runs in it).
-- - Atlantic (crates/atlantic/src/): the versions of the prover and the request that submits a
--   run; Endpoints the URLs (endpoints.rs).
-- - Tests: a small machine, field, dictionary library, program, processor and runner on which all
--   assumed behaviour holds, and the theorems at concrete inputs.
--
-- How the parts meet: the processor runs a hint of Hints or a Python hint; both work on one
-- machine and on one dictionary manager, and the preimages that a hint records are those that
-- Python reads. The generic Python hint is one more hint of the processor; a run of the runner
-- builds a processor, hands it to cairo-vm, and writes the files of the finished run.
--
-- Numbers: a felt is the number below the prime that stands for it, and a big integer is a
-- number. A `usize` or `u128` that can overflow is written out, with a flag that tells a build
-- with overflow checks from one without where the two differ. `usize` has 64 bits.
--
-- Fuel: only the scan of the bytecode (`scan`) has fuel, as many rounds as the code has bytes.
-- Each round moves on by at least one byte, so this is enough, and the theorem on
-- `get_valid_jump_destinations` holds for every code. All other loops are structural.
--
-- A hint that fails keeps the state that it had reached: a tracker that was moved on stays moved.
-- The same holds of the Python classes: an exception keeps what was changed before it. A
-- `HashMap` that the code walks is the list of its entries in the order in which it yields them.
--
-- What the models take from outside: the operations of the machine, of dictionaries, of segments
-- (`Segments`), of builtin runners (`Builtins`), of references (`References`), of cairo-vm's hint
-- processor (`Libraries`) and run (`Execution`), and how the libraries print errors, cells and
-- keys (`Display`, `KeyDisplay`); the Python interpreter and its objects; garaga_rs's calldata and
-- digits, and cairo-vm's filling of modulo builtins; files and directories (`Disk`), what a
-- finished run holds and how cairo-vm writes its trace and memory to a writer, and the prover;
-- the network and URLs. A Python object is a number, an address, a variable's object, or another
-- one on which the code only fails. The classes share the machine by a raw pointer; it is passed
-- as explicit state.
--
-- Not modelled: the hashes of addresses and the printed forms of the classes on dictionaries;
-- spans for tracing; the data models of crates/atlantic, which serde reads; the crates that the
-- code calls (cairo-vm, revm_precompile, nybbles, num_bigint, garaga_rs, the prover), which are
-- parameters; the programs in cairo/ and the Python tools, which are in other languages.
pub mod Prelude
pub mod Machine
pub mod HintUtils
pub mod Dicts
pub mod Hints
pub mod Python
pub mod Processor
pub mod Atlantic
pub mod Runner
pub mod Tests
