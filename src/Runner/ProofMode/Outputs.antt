-- ===== src/Runner/ProofMode/Outputs.antt =====
-- What the files hold after a run in proof mode.
use keth.Prelude.{ℕ, ◌+◌, ◌*◌, String, List, some, length, ◌≡◌, ◌≢◌, ◌<◌, ◌≤◌, ap, ◌∙◌, arith}
use keth.Python.{runtime_error, os_error, success}
use keth.Runner.Disk.{Disk, FileWriter, write_items}
use keth.Runner.Disk.Written.{Works, concat}
use keth.Runner.Files.{Finished, and_then, flush_and_drop, write_through, write_json, canonical}
use keth.Runner.Files.Writes.{write_through-Writes, write_json-Writes}
use keth.Runner.ProofMode.{
  trace_output, memory_output, public_output, private_output, write_outputs,
}

-- The paths of the four files in a directory can be used, and are different.
pub record OutputPaths {D : Type 0} (disk : Disk D) (Used : String → Type 0) (dir : String)
    : Type 0 where
  pub trace_used : Used (disk.join dir "trace.bin")
  pub memory_used : Used (disk.join dir "memory.bin")
  pub public_used : Used (disk.join dir "air_public_input.json")
  pub private_used : Used (disk.join dir "air_private_input.json")
  pub trace_memory : disk.join dir "trace.bin" ≢ disk.join dir "memory.bin"
  pub trace_public : disk.join dir "trace.bin" ≢ disk.join dir "air_public_input.json"
  pub trace_private : disk.join dir "trace.bin" ≢ disk.join dir "air_private_input.json"
  pub memory_public : disk.join dir "memory.bin" ≢ disk.join dir "air_public_input.json"
  pub memory_private : disk.join dir "memory.bin" ≢ disk.join dir "air_private_input.json"
  pub public_private :
      disk.join dir "air_public_input.json" ≢ disk.join dir "air_private_input.json"

-- What is written of a runner with a trace: the items of the trace and of the memory, which cairo-vm
-- writes one after the other, and both texts.
pub record HasOutputs {D A R : Type 0} (disk : Disk D) (finished : Finished D A R) (runner : A)
    (trace memory : List (List ℕ)) (public : String) (private : String → String → String)
    : Type 0 where
  pub entries : R
  pub traced : finished.relocated_trace runner ≡ some entries
  pub trace_written :
      (w : FileWriter) (d : D)
      → finished.write_encoded_trace entries w d ≡ write_items disk 0 trace w d
  pub memory_written :
      (w : FileWriter) (d : D)
      → finished.write_encoded_memory runner w d ≡ write_items disk 0 memory w d
  pub public_made : finished.air_public_input runner ≡ success public
  pub private_made : (t m : String) → finished.air_private_input runner t m ≡ success (private t m)

-- The room that the files take: `most` bounds the text that is made from the two paths.
abbrev pub HasRoom :
    {D : Type 0} {Used : String → Type 0} (disk : Disk D)
    → Works disk Used
    → String
    → List (List ℕ)
    → List (List ℕ)
    → String
    → (String → String → String)
    → ℕ
    → D
    → Type 0
HasRoom {D} disk works dir trace memory public private most d =
    ((e : D)
      → length (
          disk.as_bytes (
            private (canonical disk e (disk.join dir "trace.bin"))
              (canonical disk e (disk.join dir "memory.bin"))))
        ≤ most)
    × (length (concat trace) + length (concat memory) + length (disk.as_bytes public) + most
        < works.room d)

module _ {D A R : Type 0} {disk : Disk D} {Used : String → Type 0} (works : Works disk Used)
    (finished : Finished D A R) where
  -- The four files one after the other.
  write_outputs-Writes :
      (dir : String) (runner : A) (trace memory : List (List ℕ)) (public : String)
      (private : String → String → String) (d d1 d2 d3 d4 : D)
      (has : HasOutputs disk finished runner trace memory public private)
      → write_through disk runtime_error
          (flush_and_drop disk os_error)
          (disk.join dir "trace.bin")
          (3 * 1024 * 1024)
          (finished.write_encoded_trace has.entries)
          d
        ≡ (success tt, d1)
      → write_through disk runtime_error
          (flush_and_drop disk os_error)
          (disk.join dir "memory.bin")
          (5 * 1024 * 1024)
          (finished.write_encoded_memory runner)
          d1
        ≡ (success tt, d2)
      → write_json disk runtime_error (disk.join dir "air_public_input.json") (success public) d2
        ≡ (success tt, d3)
      → write_json disk os_error
          (disk.join dir "air_private_input.json")
          (success (
            private
              (canonical disk d3 (disk.join dir "trace.bin"))
              (canonical disk d3 (disk.join dir "memory.bin"))))
          d3
        ≡ (success tt, d4)
      → write_outputs disk finished dir runner d ≡ (success tt, d4)
  unfolding write_outputs
  write_outputs-Writes dir runner trace memory public private d d1 d2 d3 d4 has ran1 ran2 ran3
        ran4 =
      let p = disk.join dir "air_public_input.json" in
      let q = disk.join dir "air_private_input.json" in
      ap (λ o. trace_output disk finished dir runner o d) has.traced
      ∙ ap (λ r. and_then r λ u. memory_output disk finished dir runner) ran1
      ∙ ap (λ r. and_then r λ u. public_output disk finished dir runner) ran2
      ∙ ap
          (λ j.
            and_then (write_json disk runtime_error p j d2)
              λ u. private_output disk finished dir runner)
          has.public_made
      ∙ ap (λ r. and_then r λ u. private_output disk finished dir runner) ran3
      ∙ ap (λ j. write_json disk os_error q j d3)
          (has.private_made (canonical disk d3 (disk.join dir "trace.bin"))
            (canonical disk d3 (disk.join dir "memory.bin")))
      ∙ ran4

  -- The four files after the outputs are written, and what a state before holds.
  pub write_outputs_lem :
      (dir : String) (runner : A) (trace memory : List (List ℕ)) (public : String)
      (private : String → String → String) (most : ℕ) (d : D)
      → OutputPaths disk Used dir
      → HasRoom disk works dir trace memory public private most d
      → HasOutputs disk finished runner trace memory public private
      → (before : D) × (d' : D) × (write_outputs disk finished dir runner d ≡ (success tt, d'))
        × (works.contents before (disk.join dir "trace.bin") ≡ some (concat trace))
        × (works.contents before (disk.join dir "memory.bin") ≡ some (concat memory))
        × (works.contents d' (disk.join dir "trace.bin") ≡ some (concat trace))
        × (works.contents d' (disk.join dir "memory.bin") ≡ some (concat memory))
        × (works.contents d' (disk.join dir "air_public_input.json") ≡ some (disk.as_bytes public))
        × (works.contents d' (disk.join dir "air_private_input.json")
            ≡ some (
                disk.as_bytes (
                  private
                    (canonical disk before (disk.join dir "trace.bin"))
                    (canonical disk before (disk.join dir "memory.bin")))))
  write_outputs_lem dir runner trace memory public private most d paths (short, enough) has =
      let t = disk.join dir "trace.bin" in
      let m = disk.join dir "memory.bin" in
      let p = disk.join dir "air_public_input.json" in
      let q = disk.join dir "air_private_input.json" in
      let (d1, ran1, now1, room1, same1) =
        write_through-Writes works runtime_error os_error t (3 * 1024 * 1024) trace
          (finished.write_encoded_trace has.entries) d has.trace_written paths.trace_used
          (omega (arith, enough)) in
      let (d2, ran2, now2, room2, same2) =
        write_through-Writes works runtime_error os_error m (5 * 1024 * 1024) memory
          (finished.write_encoded_memory runner) d1 has.memory_written paths.memory_used
          (omega (arith, enough, room1)) in
      let (d3, ran3, now3, room3, same3) =
        write_json-Writes works runtime_error p public d2 paths.public_used
          (omega (arith, enough, room1, room2)) in
      let (d4, ran4, now4, room4, same4) =
        write_json-Writes works os_error q (private (canonical disk d3 t) (canonical disk d3 m)) d3
          paths.private_used (omega (arith, enough, room1, room2, room3, short d3)) in
      let trace_kept =
        same3 t paths.trace_used paths.trace_public
        ∙ same2 t paths.trace_used paths.trace_memory
        ∙ now1 in
      let memory_kept = same3 m paths.memory_used paths.memory_public ∙ now2 in
      (
        d3,
        d4,
        write_outputs-Writes dir runner trace memory public private d d1 d2 d3 d4 has ran1 ran2 ran3
            ran4,
        trace_kept,
        memory_kept,
        same4 t paths.trace_used paths.trace_private ∙ trace_kept,
        same4 m paths.memory_used paths.memory_private ∙ memory_kept,
        same4 p paths.public_used paths.public_private ∙ now3,
        now4,
      )
