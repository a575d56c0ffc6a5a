-- ===== src/Runner/Disk/Written.antt =====
-- What a buffered writer leaves in its file.
use mathlib.Core.Path.{subst}
use mathlib.Core.List.{append_assoc, append-nil}
use keth.Prelude.{
  ℕ, suc, ◌+◌, ◌-◌, ◌<◌, ◌≤◌, String, List, [], ◌∷◌, ◌++◌, Option, some, Bool-cases, inl, inr, ltb,
  leb, length, drop, ◌≡◌, ◌≢◌, refl, sym, ap, ◌∙◌, arith, length-append,
}
use keth.Python.{Try, success}
use keth.Runner.Disk.{
  Disk, BufWriter, FileWriter, push_bytes, flush_buf, write_or_push, flushed, buffered_write,
  counted, write, after_item, write_items,
}

abbrev pub concat : List (List ℕ) → List ℕ
concat [] = []
concat (item ∷ items) = item ++ concat items

-- A disk on which some paths can be used: no two of them name one file, and there is room for some
-- bytes. It says what their files hold, and that a write changes no other of them.
pub record Works {D : Type 0} (disk : Disk D) (Used : String → Type 0) : Type 0 where
  pub contents : D → String → Option (List ℕ)
  -- how many bytes can be written at least; none where a file cannot be created
  pub room : D → ℕ
  pub create_lem :
      (path : String) (d : D)
      → Used path
      → 0 < room d
      → (d' : D) × (disk.create path d ≡ (success tt, d'))
        × (contents d' path ≡ some [])
        × (room d ≤ room d')
        × ((other : String) → Used other → other ≢ path → contents d' other ≡ contents d other)
  pub write_all_lem :
      (path : String) (bytes held : List ℕ) (d : D)
      → Used path
      → contents d path ≡ some held
      → length bytes ≤ room d
      → (d' : D) × (disk.write_all path bytes d ≡ (success tt, length bytes, d'))
        × (contents d' path ≡ some (held ++ bytes))
        × (room d ≤ length bytes + room d')
        × ((other : String) → Used other → other ≢ path → contents d' other ≡ contents d other)

drop_all : (xs : List ℕ) → drop (length xs) xs ≡ []
drop_all [] = refl
drop_all (x ∷ xs) = drop_all xs

length_zero : (xs : List ℕ) → length xs ≡ 0 → xs ≡ []
length_zero [] h = refl
length_zero (x ∷ xs) h = absurd (omega arith)

module _ {D : Type 0} {disk : Disk D} {Used : String → Type 0} (works : Works disk Used)
    (start : D) where
  -- The file holds the bytes, less those in the buffer, which it has room for; the other files are
  -- as at the start.
  pub record Holds (w : BufWriter) (d : D) (bytes : List ℕ) : Type 0 where
    pub held : List ℕ
    pub at_path : works.contents d w.path ≡ some held
    pub whole : held ++ w.buffer ≡ bytes
    pub fits : length w.buffer ≤ w.capacity
    pub path_used : Used w.path
    pub left : works.room start + length w.buffer ≤ works.room d + length bytes
    pub others :
        (other : String)
        → Used other
        → other ≢ w.path
        → works.contents d other ≡ works.contents start other

  -- A step of the writer that succeeds, after which the file and the buffer hold the bytes.
  abbrev pub Succeeds : BufWriter → Try String (Unit {0}) × BufWriter × D → List ℕ → Type 0
  Succeeds w r bytes =
      (buffer : List ℕ) × (d' : D) × (r ≡ (success tt, record w { buffer = buffer }, d'))
      × Holds (record w { buffer = buffer }) d' bytes

  -- Bytes past the empty buffer.
  direct-Holds :
      (w : BufWriter) (d : D) (bytes more : List ℕ)
      → Holds w d bytes
      → w.buffer ≡ []
      → length bytes + length more ≤ works.room start
      → (d' : D) × (disk.write_all w.path more d ≡ (success tt, length more, d'))
        × Holds w d' (bytes ++ more)
  direct-Holds w d bytes more h empty enough =
      let none : length w.buffer ≡ 0 = ap length empty in
      let (d', ran, now, taken, same) =
        works.write_all_lem w.path more h.held d h.path_used h.at_path
          (omega (arith, h.left, enough, none)) in
      let held : h.held ≡ bytes =
        sym (append-nil h.held) ∙ ap (λ b. h.held ++ b) (sym empty) ∙ h.whole in
      (
        d',
        ran,
        record {
          held = h.held ++ more;
          at_path = now;
          whole =
              ap (λ b. (h.held ++ more) ++ b) empty
              ∙ append-nil (h.held ++ more)
              ∙ ap (λ b. b ++ more) held;
          fits = h.fits;
          path_used = h.path_used;
          left = omega (arith, h.left, taken, length-append bytes more);
          others = λ other u apart. same other u apart ∙ h.others other u apart;
        },
      )

  pub flush_buf-Holds :
      (w : BufWriter) (d : D) (bytes : List ℕ)
      → Holds w d bytes
      → length bytes ≤ works.room start
      → (d' : D) × (flush_buf disk w d ≡ (success tt, record w { buffer = [] }, d'))
        × Holds (record w { buffer = [] }) d' bytes
  unfolding flush_buf
  flush_buf-Holds w d bytes h enough =
      let (d', ran, now, taken, same) =
        works.write_all_lem w.path w.buffer h.held d h.path_used h.at_path
          (omega (arith, h.left, enough)) in
      (
        d',
        ap (λ r. (r.0, record w { buffer = drop r.1 w.buffer }, r.2)) ran
            ∙ ap (λ b. (success tt, record w { buffer = b }, d')) (drop_all w.buffer),
        record {
          held = h.held ++ w.buffer;
          at_path = now;
          whole = append-nil (h.held ++ w.buffer) ∙ h.whole;
          fits = omega arith;
          path_used = h.path_used;
          left = omega (arith, h.left, taken);
          others = λ other u apart. same other u apart ∙ h.others other u apart;
        },
      )

  push-Holds :
      (w : BufWriter) (d : D) (bytes more : List ℕ)
      → Holds w d bytes
      → length w.buffer + length more ≤ w.capacity
      → Holds (push_bytes w more) d (bytes ++ more)
  push-Holds w d bytes more h fits = record {
    held = h.held;
    at_path = h.at_path;
    whole = sym (append_assoc h.held w.buffer more) ∙ ap (λ t. t ++ more) h.whole;
    fits = omega (arith, length-append w.buffer more);
    path_used = h.path_used;
    left = omega (arith, h.left, length-append w.buffer more, length-append bytes more);
    others = h.others;
  }

  write_or_push-Succeeds :
      (w : BufWriter) (d : D) (bytes more : List ℕ)
      → Holds w d bytes
      → (w.capacity ≤ length more → w.buffer ≡ [])
      → (length more < w.capacity → length w.buffer + length more ≤ w.capacity)
      → length bytes + length more ≤ works.room start
      → Succeeds w (write_or_push disk more w d) (bytes ++ more)
  write_or_push-Succeeds w d bytes more h empty fits enough =
      elim (Bool-cases (leb w.capacity (length more))) [
        | inl big ↦
            let (d', ran, now) = direct-Holds w d bytes more h (empty (ground arith)) enough in
            (w.buffer, d', rw big (ap (λ r. (r.0, w, r.2)) ran), now)
        | inr small ↦
            (w.buffer ++ more, d, rw small refl, push-Holds w d bytes more h (fits (ground arith)))
      ]

  buffered_write-Succeeds :
      (w : BufWriter) (d : D) (bytes more : List ℕ)
      → Holds w d bytes
      → length bytes + length more ≤ works.room start
      → Succeeds w (buffered_write disk more w d) (bytes ++ more)
  unfolding buffered_write
  buffered_write-Succeeds w d bytes more h enough =
      let spare : ℕ = w.capacity - length w.buffer in
      let empty : BufWriter = record w { buffer = [] } in
      elim (Bool-cases (ltb (length more) spare)) [
        | inl fits ↦ (
          w.buffer ++ more,
          d,
          rw fits refl,
          push-Holds w d bytes more h (ground (arith, h.fits)),
        )
        | inr full ↦ elim (Bool-cases (ltb spare (length more))) [
          | inl over ↦
              let (d', ran, now) = flush_buf-Holds w d bytes h (omega (arith, enough)) in
              let (buffer, d'', wrote, then_held) =
                write_or_push-Succeeds empty d' bytes more now (λ big. refl) (λ small. omega arith)
                  enough in
              (buffer, d'', rw (full, over) (ap (flushed disk more) ran ∙ wrote), then_held)
          | inr exact ↦
              let same : length more ≡ spare = ground arith in
              let (buffer, d', wrote, then_held) =
                write_or_push-Succeeds w d bytes more h
                  (λ big. length_zero w.buffer (omega (arith, h.fits)))
                  (λ small. omega (arith, h.fits)) enough in
              (buffer, d', rw (full, exact) wrote, then_held)
        ]
      ]

  -- Items that are written one after the other.
  pub write_items-Holds :
      (i : ℕ) (items : List (List ℕ)) (w : BufWriter) (count : ℕ) (d : D) (bytes : List ℕ)
      → Holds w d bytes
      → length bytes + length (concat items) ≤ works.room start
      → (buffer : List ℕ) × (d' : D) × (write_items disk i items
            (record { buf_writer = w; bytes_written = count })
            d
          ≡ (
            success tt,
            record {
              buf_writer = record w { buffer = buffer };
              bytes_written = count + length (concat items);
            },
            d',
          ))
        × Holds (record w { buffer = buffer }) d' (bytes ++ concat items)
  unfolding write_items write
  write_items-Holds i [] w count d bytes h enough =
      let same : FileWriter → Try String (Unit {0}) × FileWriter × D = λ f. (success tt, f, d) in
      (
        w.buffer,
        d,
        ap (λ (n : ℕ). same (record { buf_writer = w; bytes_written = n })) (omega arith),
        subst (Holds w d) (sym (append-nil bytes)) h,
      )
  write_items-Holds i (item ∷ items) w count d bytes h enough =
      let more = length-append item (concat items) in
      let (buffer, d', wrote, now) =
        buffered_write-Succeeds w d bytes item h (omega (arith, enough, more)) in
      let w' : BufWriter = record w { buffer = buffer } in
      let (buffer', d'', rest, then_held) =
        write_items-Holds (suc i) items w' (count + length item) d' (bytes ++ item) now
          (omega (arith, enough, more, length-append bytes item)) in
      let w'' : BufWriter = record w { buffer = buffer' } in
      let end : ℕ → Try String (Unit {0}) × FileWriter × D =
        λ n. (success tt, record { buf_writer = w''; bytes_written = n }, d'') in
      (
        buffer',
        d'',
        ap (λ r. after_item disk i (write_items disk (suc i) items) (counted disk item count r))
              wrote
            ∙ rest
            ∙ ap end (omega (arith, length-append item (concat items))),
        subst (Holds w'' d'') (append_assoc bytes item (concat items)) then_held,
      )
