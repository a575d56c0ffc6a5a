-- ===== src/Runner/Disk.antt =====
-- Files, as runner.rs writes them: the standard library's buffered writer, and `FileWriter`.
pub mod Written
use keth.Prelude.{
  ℕ, suc, ◌+◌, ◌-◌, String, List, [], ◌∷◌, ◌++◌ as append, Option, Bool, if◌then◌else◌, ltb, leb,
  length, drop,
}
use keth.Python.{Try, success, failure, panicked}

-- What the code uses of `std::fs` and `std::path`, with the text of an error. `write_all` appends
-- to a file that was created, and says how many bytes it wrote, also where it fails.
pub record Disk (D : Type 0) : Type 0 where
  pub create : String → D → Try String (Unit {0}) × D
  pub write_all : String → List ℕ → D → Try String (Unit {0}) × ℕ × D
  pub read : D → String → Try String (List ℕ)
  pub canonicalize : D → String → Option String
  pub join : String → String → String
  -- the bytes of a text
  pub as_bytes : String → List ℕ
  -- how bincode prints an error with the count of bytes before it, and cairo-vm that of an item
  pub encode_error : String → ℕ → String
  pub item_error : ℕ → String → String

-- `std::io::BufWriter`
pub record BufWriter : Type 0 where
  pub path : String
  pub buffer : List ℕ
  pub capacity : ℕ

-- `FileWriter`
pub record FileWriter : Type 0 where
  pub buf_writer : BufWriter
  pub bytes_written : ℕ

abbrev pub push_bytes : BufWriter → List ℕ → BufWriter
push_bytes w bytes = record w { buffer = append w.buffer bytes }

unfoldable pub new_writer : BufWriter → FileWriter
new_writer buf_writer = record { buf_writer = buf_writer; bytes_written = 0 }

module _ {D : Type 0} (disk : Disk D) where
  -- `flush_buf`, which leaves in the buffer what was not written
  unfoldable pub flush_buf : BufWriter → D → Try String (Unit {0}) × BufWriter × D
  flush_buf w d =
      let (r, written, d') = disk.write_all w.path w.buffer d in
      (r, record w { buffer = drop written w.buffer }, d')

  -- The bytes behind the buffer, or past it if they are as many as it can hold.
  abbrev pub write_or_push : List ℕ → BufWriter → D → Try String (Unit {0}) × BufWriter × D
  write_or_push bytes w d =
      let (r, written, d') = disk.write_all w.path bytes d in
      if leb w.capacity (length bytes) then (r, w, d') else (success tt, push_bytes w bytes, d)

  abbrev pub flushed :
      List ℕ → Try String (Unit {0}) × BufWriter × D → Try String (Unit {0}) × BufWriter × D
  flushed bytes (success u, w, d) = write_or_push bytes w d
  flushed bytes (failure e, w, d) = (failure e, w, d)
  flushed bytes (panicked, w, d) = (panicked, w, d)

  -- `write_all` of the buffered writer
  unfoldable pub buffered_write : List ℕ → BufWriter → D → Try String (Unit {0}) × BufWriter × D
  unfolding flush_buf
  buffered_write bytes w d =
      let spare = w.capacity - length w.buffer in
      if ltb (length bytes) spare
      then (success tt, push_bytes w bytes, d)
      else if ltb spare (length bytes)
      then flushed bytes (flush_buf w d)
      else write_or_push bytes w d

  abbrev pub counted :
      List ℕ → ℕ → Try String (Unit {0}) × BufWriter × D → Try String (Unit {0}) × FileWriter × D
  counted bytes count (success u, w, d) =
      (success tt, record { buf_writer = w; bytes_written = count + length bytes }, d)
  counted bytes count (failure e, w, d) =
      (failure (disk.encode_error e count), record { buf_writer = w; bytes_written = count }, d)
  counted bytes count (panicked, w, d) =
      (panicked, record { buf_writer = w; bytes_written = count }, d)

  -- `write` of the file writer
  unfoldable pub write : List ℕ → FileWriter → D → Try String (Unit {0}) × FileWriter × D
  unfolding buffered_write
  write bytes w d = counted bytes w.bytes_written (buffered_write bytes w.buf_writer d)

  -- `flush` of the file writer
  unfoldable pub flush : FileWriter → D → Try String (Unit {0}) × FileWriter × D
  unfolding flush_buf
  flush w d = let (r, b, d') = flush_buf w.buf_writer d in (r, record w { buf_writer = b }, d')

  abbrev pub after_item :
      ℕ
      → (FileWriter → D → Try String (Unit {0}) × FileWriter × D)
      → Try String (Unit {0}) × FileWriter × D
      → Try String (Unit {0}) × FileWriter × D
  after_item i rest (success u, w, d) = rest w d
  after_item i rest (failure e, w, d) = (failure (disk.item_error i e), w, d)
  after_item i rest (panicked, w, d) = (panicked, w, d)

  -- What cairo-vm does with a writer: it writes the encoded items one after the other.
  unfoldable pub write_items :
      ℕ → List (List ℕ) → FileWriter → D → Try String (Unit {0}) × FileWriter × D
  unfolding write
  write_items i [] w d = (success tt, w, d)
  write_items i (item ∷ items) w d = after_item i (write_items (suc i) items) (write item w d)

  -- A buffered writer that goes out of scope writes its buffer, and drops an error.
  unfoldable pub drop_writer : FileWriter → D → D
  unfolding flush_buf
  drop_writer w d = (flush_buf w.buf_writer d).2

  -- `std::fs::write`
  unfoldable pub write_file : String → List ℕ → D → Try String (Unit {0}) × D
  write_file path bytes d =
      let (r, d') = disk.create path d in
      elim r [
        | success u ↦ let (r', written, d'') = disk.write_all path bytes d' in (r', d'')
        | failure e ↦ (failure e, d')
        | panicked ↦ (panicked, d')
      ]
