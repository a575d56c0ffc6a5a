-- ===== src/Runner/Files.antt =====
-- runner.rs: the files that a finished run is written to.
pub mod Unflushed
pub mod Writes
use keth.Prelude.{ℕ, ◌*◌, String, List, [], Option, some, none}
use keth.Python.{
  Try, PyErrKind, PyResult, runtime_error, os_error, raise, success, failure, panicked,
}
use keth.Runner.Disk.{Disk, FileWriter, new_writer, flush, drop_writer, write_file}

-- What the code calls of a runner that has finished (`A`), with its trace (`R`): what is written with
-- a writer, and the texts in JSON; errors by their text.
pub record Finished (D A R : Type 0) : Type 0 where
  pub relocated_trace : A → Option R
  pub write_encoded_trace : R → FileWriter → D → Try String (Unit {0}) × FileWriter × D
  pub write_encoded_memory : A → FileWriter → D → Try String (Unit {0}) × FileWriter × D
  pub air_public_input : A → Try String String
  -- from the paths of the trace and of the memory
  pub air_private_input : A → String → String → Try String String

-- `.map_err(|e| PyErr::new::<…>(e.to_string()))?`
abbrev pub or_raise : {A : Type 0} → PyErrKind → Try String A → PyResult A
or_raise kind (success a) = success a
or_raise kind (failure e) = raise kind e
or_raise kind panicked = panicked

-- One step after another, which raises the error of the first.
abbrev pub and_then : {A B D : Type 0} → PyResult A × D → (A → D → PyResult B × D) → PyResult B × D
and_then (success a, d) next = next a d
and_then (failure e, d) next = (failure e, d)
and_then (panicked, d) next = (panicked, d)

module _ {D : Type 0} (disk : Disk D) where
  -- The file is written through a buffer; `last` is what is done with the writer at the end.
  abbrev pub then_last :
      PyErrKind
      → (FileWriter → D → PyResult (Unit {0}) × D)
      → Try String (Unit {0}) × FileWriter × D
      → PyResult (Unit {0}) × D
  then_last kind last (success u, w, d) = last w d
  then_last kind last (failure e, w, d) = (raise kind e, drop_writer disk w d)
  then_last kind last (panicked, w, d) = (panicked, drop_writer disk w d)

  abbrev pub flush_and_drop : PyErrKind → FileWriter → D → PyResult (Unit {0}) × D
  flush_and_drop kind w d =
      let (r, w', d') = flush disk w d in (or_raise kind r, drop_writer disk w' d')

  abbrev pub only_drop : FileWriter → D → PyResult (Unit {0}) × D
  only_drop w d = (success tt, drop_writer disk w d)

  unfoldable pub write_through :
      PyErrKind
      → (FileWriter → D → PyResult (Unit {0}) × D)
      → String
      → ℕ
      → (FileWriter → D → Try String (Unit {0}) × FileWriter × D)
      → D
      → PyResult (Unit {0}) × D
  unfolding new_writer drop_writer flush
  write_through kind last path capacity encode d =
      let (r, d') = disk.create path d in
      and_then (or_raise os_error r, d')
        λ u d''.
          then_last kind last
            (encode (new_writer (record { path = path; buffer = []; capacity = capacity })) d'')

  -- A text in JSON, if there is no error, to a file.
  unfoldable pub write_json : PyErrKind → String → Try String String → D → PyResult (Unit {0}) × D
  unfolding write_file
  write_json kind path (success json) d =
      let (r, d') = write_file disk path (disk.as_bytes json) d in (or_raise kind r, d')
  write_json kind path (failure e) d = (raise runtime_error e, d)
  write_json kind path panicked d = (panicked, d)

  -- `path.canonicalize().unwrap_or(path)`
  abbrev pub canonical : D → String → String
  canonical d path = elim (disk.canonicalize d path) [ some p ↦ p | none ↦ path ]

  module _ {A R : Type 0} (finished : Finished D A R) (inner : A) where
    abbrev pub write_trace : String → Option R → D → PyResult (Unit {0}) × D
    write_trace file_path none d = (raise runtime_error "No relocated trace available", d)
    write_trace file_path (some trace_entries) d =
        write_through os_error only_drop file_path (3 * 1024 * 1024)
          (finished.write_encoded_trace trace_entries) d

    unfoldable pub write_binary_trace : String → D → PyResult (Unit {0}) × D
    unfolding write_through
    write_binary_trace file_path d = write_trace file_path (finished.relocated_trace inner) d

    unfoldable pub write_binary_memory : String → ℕ → D → PyResult (Unit {0}) × D
    unfolding write_through
    write_binary_memory file_path capacity d =
        write_through os_error (flush_and_drop os_error) file_path capacity
          (finished.write_encoded_memory inner) d

    unfoldable pub write_binary_air_public_input : String → D → PyResult (Unit {0}) × D
    unfolding write_json
    write_binary_air_public_input file_path d =
        write_json os_error file_path (finished.air_public_input inner) d

    unfoldable pub write_binary_air_private_input :
        String → String → String → D → PyResult (Unit {0}) × D
    unfolding write_json
    write_binary_air_private_input trace_path memory_path file_path d =
        write_json os_error file_path
          (finished.air_private_input inner (canonical d trace_path) (canonical d memory_path)) d
