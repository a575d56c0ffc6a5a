-- ===== src/Runner/Files/Unflushed.antt =====
-- The trace is written without a flush: the error of the last write is lost.
use mathlib.Core.List.{append_assoc, append-nil}
use keth.Prelude.{
  ℕ, suc, ◌+◌, ◌-◌, ◌*◌, ◌<◌, String, List, [], ◌∷◌, some, length, ◌≡◌, refl, sym, ap, ◌∙◌, arith,
  lt→ltb, length-append,
}
use keth.Python.{Try, success, os_error}
use keth.Runner.Disk.{
  Disk, BufWriter, FileWriter, push_bytes, new_writer, flush_buf, buffered_write, write, counted,
  after_item, write_items, drop_writer,
}
use keth.Runner.Disk.Written.{concat}
use keth.Runner.Files.{
  Finished, or_raise, and_then, then_last, only_drop, write_through, write_trace,
  write_binary_trace,
}

module _ {D : Type 0} (disk : Disk D) where
  buffered_write-push :
      (bytes : List ℕ) (w : BufWriter) (d : D)
      → length bytes < w.capacity - length w.buffer
      → buffered_write disk bytes w d ≡ (success tt, push_bytes w bytes, d)
  unfolding buffered_write
  buffered_write-push bytes w d h = rw (lt→ltb (length bytes) (w.capacity - length w.buffer) h) refl

  -- Items that fit into the buffer do not reach the disk.
  write_items-push :
      (i : ℕ) (items : List (List ℕ)) (w : BufWriter) (count : ℕ) (d : D)
      → length w.buffer + length (concat items) < w.capacity
      → (n : ℕ) × (write_items disk i items (record { buf_writer = w; bytes_written = count }) d
          ≡ (success tt, record { buf_writer = push_bytes w (concat items); bytes_written = n }, d))
  unfolding write_items write
  write_items-push i [] w count d h =
      let end : List ℕ → Try String (Unit {0}) × FileWriter × D = λ b.
        (success tt, record { buf_writer = record w { buffer = b }; bytes_written = count }, d) in
      (count, ap end (sym (append-nil w.buffer)))
  write_items-push i (item ∷ items) w count d h =
      let more = length-append item (concat items) in
      let pushed = buffered_write-push item w d (omega (arith, more)) in
      let (n, rest) =
        write_items-push (suc i) items (push_bytes w item) (count + length item) d
          (omega (arith, more, length-append w.buffer item)) in
      let end : List ℕ → Try String (Unit {0}) × FileWriter × D =
        λ b. (success tt, record { buf_writer = record w { buffer = b }; bytes_written = n }, d) in
      (
        n,
        ap (λ r. after_item disk i (write_items disk (suc i) items) (counted disk item count r))
              pushed
            ∙ rest
            ∙ ap end (append_assoc w.buffer item (concat items)),
      )

  -- If the runner has a trace, which cairo-vm writes item by item, of fewer bytes than the buffer
  -- holds, and the file can be created: `write_binary_trace` succeeds whatever comes of writing the
  -- bytes to the file, which is tried only when the writer is dropped.
  pub write_binary_trace_unflushed :
      {A R : Type 0} (finished : Finished D A R) (inner : A) (entries : R) (items : List (List ℕ))
      (path : String) (d d' : D)
      → finished.relocated_trace inner ≡ some entries
      → ((w : FileWriter) (d : D)
          → finished.write_encoded_trace entries w d ≡ write_items disk 0 items w d)
      → length (concat items) < 3 * 1024 * 1024
      → disk.create path d ≡ (success tt, d')
      → write_binary_trace disk finished inner path d
        ≡ (success tt, (disk.write_all path (concat items) d').2)
  unfolding write_binary_trace write_through new_writer drop_writer flush_buf
  write_binary_trace_unflushed finished inner entries items path d d' traced encodes small created =
      let w : BufWriter = record { path = path; buffer = []; capacity = 3 * 1024 * 1024 } in
      let fresh : FileWriter = record { buf_writer = w; bytes_written = 0 } in
      let encode = finished.write_encoded_trace entries in
      let (n, pushed) = write_items-push 0 items w 0 d' (omega arith) in
      ap (λ t. write_trace disk finished inner path t d) traced
      ∙ ap
          (λ r.
            and_then (or_raise os_error r.0, r.1)
              λ u t. then_last disk os_error (only_drop disk) (encode fresh t))
          created
      ∙ ap (then_last disk os_error (only_drop disk)) (encodes fresh d' ∙ pushed)
