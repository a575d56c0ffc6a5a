-- ===== src/Runner/Files/Writes.antt =====
-- What a file holds after it was written, through a buffer or at once.
use mathlib.Core.Path.{subst}
use mathlib.Core.List.{append-nil}
use keth.Prelude.{
  ℕ, ◌+◌, String, List, [], some, length, ◌≡◌, ◌≢◌, ◌<◌, ◌≤◌, refl, sym, ap, ◌∙◌, arith,
}
use keth.Python.{Try, PyErrKind, PyResult, os_error, success}
use keth.Runner.Disk.{
  Disk, BufWriter, FileWriter, new_writer, flush, write_items, drop_writer, write_file,
}
use keth.Runner.Disk.Written.{Works, Holds, concat, write_items-Holds, flush_buf-Holds}
use keth.Runner.Files.{or_raise, and_then, then_last, flush_and_drop, write_through, write_json}

module _ {D : Type 0} {disk : Disk D} {Used : String → Type 0} (works : Works disk Used) where
  -- After a step that succeeds the file holds the bytes, no other file changed, and no more room
  -- was taken than the bytes need.
  abbrev pub Writes : String → List ℕ → D → PyResult (Unit {0}) × D → Type 0
  Writes path bytes d r =
      (d' : D) × (r ≡ (success tt, d'))
      × (works.contents d' path ≡ some bytes)
      × (works.room d ≤ length bytes + works.room d')
      × ((other : String)
          → Used other
          → other ≢ path
          → works.contents d' other ≡ works.contents d other)

  drop_writer-Holds :
      (start : D) (w : FileWriter) (d : D) (bytes : List ℕ)
      → Holds works start w.buf_writer d bytes
      → length bytes ≤ works.room start
      → Holds works start (record (w.buf_writer) { buffer = [] }) (drop_writer disk w d) bytes
  unfolding drop_writer
  drop_writer-Holds start w d bytes h enough =
      let (d', ran, now) = flush_buf-Holds works start w.buf_writer d bytes h enough in
      subst (λ t. Holds works start (record (w.buf_writer) { buffer = [] }) t bytes)
        (sym (ap (λ r. r.2) ran)) now

  flush_and_drop-Writes :
      (kind : PyErrKind) (start : D) (w : FileWriter) (d : D) (bytes : List ℕ)
      → Holds works start w.buf_writer d bytes
      → length bytes ≤ works.room start
      → Writes w.buf_writer.path bytes start (flush_and_drop disk kind w d)
  unfolding flush
  flush_and_drop-Writes kind start w d bytes h enough =
      let (d', ran, now) = flush_buf-Holds works start w.buf_writer d bytes h enough in
      let w' : FileWriter = record w { buf_writer = record (w.buf_writer) { buffer = [] } } in
      let last = drop_writer-Holds start w' d' bytes now enough in
      (
        drop_writer disk w' d',
        ap (λ r. (or_raise kind r.0, drop_writer disk (record w { buf_writer = r.1 }) r.2)) ran,
        last.at_path ∙ ap some (sym (append-nil last.held) ∙ last.whole),
        omega (arith, last.left),
        last.others,
      )

  pub write_through-Writes :
      (kind flush_kind : PyErrKind) (path : String) (capacity : ℕ) (items : List (List ℕ))
      (encode : FileWriter → D → Try String (Unit {0}) × FileWriter × D) (d : D)
      → ((w : FileWriter) (d : D) → encode w d ≡ write_items disk 0 items w d)
      → Used path
      → length (concat items) < works.room d
      → Writes path
          (concat items)
          d
          (write_through disk kind (flush_and_drop disk flush_kind) path capacity encode d)
  unfolding write_through new_writer
  write_through-Writes kind flush_kind path capacity items encode d encodes ours enough =
      let w : BufWriter = record { path = path; buffer = []; capacity = capacity } in
      let (d1, created, empty, room, same) = works.create_lem path d ours (omega (arith, enough)) in
      let start : Holds works d w d1 [] = record {
        held = [];
        at_path = empty;
        whole = refl;
        fits = omega arith;
        path_used = ours;
        left = omega (arith, room);
        others = same;
      } in
      let (buffer, d2, wrote, held) =
        write_items-Holds works d 0 items w 0 d1 [] start (omega (arith, enough)) in
      let w' : FileWriter = record {
        buf_writer = record w { buffer = buffer };
        bytes_written = 0 + length (concat items);
      } in
      let (d3, flushed, now, taken, others) =
        flush_and_drop-Writes flush_kind d w' d2 (concat items) held (omega (arith, enough)) in
      let last = flush_and_drop disk flush_kind in
      (
        d3,
        ap
              (λ r.
                and_then (or_raise os_error r.0, r.1)
                  λ u t.
                    then_last disk kind last
                      (encode (record { buf_writer = w; bytes_written = 0 }) t))
              created
            ∙ ap (then_last disk kind last)
                (encodes (record { buf_writer = w; bytes_written = 0 }) d1 ∙ wrote)
            ∙ flushed,
        now,
        taken,
        others,
      )

  pub write_file-Writes :
      (path : String) (bytes : List ℕ) (d : D)
      → Used path
      → length bytes < works.room d
      → (d' : D) × (write_file disk path bytes d ≡ (success tt, d'))
        × (works.contents d' path ≡ some bytes)
        × (works.room d ≤ length bytes + works.room d')
        × ((other : String)
            → Used other
            → other ≢ path
            → works.contents d' other ≡ works.contents d other)
  unfolding write_file
  write_file-Writes path bytes d ours enough =
      let (d1, created, empty, room, same) = works.create_lem path d ours (omega (arith, enough)) in
      let (d2, wrote, now, taken, others) =
        works.write_all_lem path bytes [] d1 ours empty (omega (arith, enough, room)) in
      (
        d2,
        ground (arith, created, wrote),
        now,
        omega (arith, room, taken),
        λ other u apart. others other u apart ∙ same other u apart,
      )

  pub write_json-Writes :
      (kind : PyErrKind) (path json : String) (d : D)
      → Used path
      → length (disk.as_bytes json) < works.room d
      → Writes path (disk.as_bytes json) d (write_json disk kind path (success json) d)
  unfolding write_json
  write_json-Writes kind path json d ours enough =
      let (d', wrote, now, taken, others) =
        write_file-Writes path (disk.as_bytes json) d ours enough in
      (d', ap (λ r. (or_raise kind r.0, r.1)) wrote, now, taken, others)
