-- ===== src/HintUtils/Memory.antt =====
-- A sequence that was written to memory is read back.
use mathlib.Core.Path.{subst, ap₂}
use native.Mathlib.Nat.{mod-eq_of_lt}
use keth.Prelude.{
  pure, >>=-eq-ok, ℕ, suc, ◌+◌, ◌^◌, ◌<◌, String, List, [], ◌∷◌, map, ◌≡◌, refl, sym, ap, ◌∙◌,
  arith, some, Relocatable, ok, ◌>>◌, length, All,
}
use keth.Machine.{Felt252, Machine, Value, int, relocatable}
use keth.HintUtils.Sequence.{read_integers, serialize_sequence, deserialize_sequence}

module _ {S Ids : Type 0} (m : Machine S Ids) where
  -- The cells in a row from `a` on hold the values.
  abbrev pub Holds : S → Relocatable → List Value → Type 0
  Holds vm a [] = Unit
  Holds vm a (v ∷ vs) =
      (m.get_maybe vm a ≡ some v) × Holds vm (record a { offset = a.offset + 1 }) vs

  -- A write that succeeds keeps what is held.
  pub insert_value-Holds :
      (s s' : S) (b a : Relocatable) (v : Value) (vs : List Value)
      → m.insert_value b v s ≡ (ok tt, s')
      → Holds s a vs
      → Holds s' a vs
  insert_value-Holds s s' b a v [] h held = tt
  insert_value-Holds s s' b a v (u ∷ vs) h held = (
    m.insert_value_keeps s s' b a v u h held.0,
    insert_value-Holds s s' b (record a { offset = a.offset + 1 }) v vs h held.1,
  )

  -- Writing a list keeps what is held.
  pub write_arg_keeps :
      (s s' : S) (b a : Relocatable) (us : List Value) (vs : List Value)
      → b.offset + length us < 2 ^ 64
      → m.write_arg b us s ≡ (ok tt, s')
      → Holds s a vs
      → Holds s' a vs
  write_arg_keeps s s' b a [] vs fits h held =
      subst (λ t. Holds t a vs) (ap (λ r. r.1) (sym (m.write_arg_nil s b) ∙ h)) held
  write_arg_keeps s s' b a (u ∷ us) vs fits h held =
      let step = m.write_arg_cons s s' b u us (omega arith) h in
      write_arg_keeps step.0 s' (record b { offset = b.offset + 1 }) a us vs (omega arith) step.2
        (insert_value-Holds s step.0 b a u vs step.1 held)

  -- A list that was written is held.
  pub write_arg-Holds :
      (s s' : S) (a : Relocatable) (vs : List Value)
      → a.offset + length vs < 2 ^ 64
      → m.write_arg a vs s ≡ (ok tt, s')
      → Holds s' a vs
  write_arg-Holds s s' a [] fits h = tt
  write_arg-Holds s s' a (v ∷ vs) fits h =
      let step = m.write_arg_cons s s' a v vs (omega arith) h in
      let next : Relocatable = record a { offset = a.offset + 1 } in
      (
        (write_arg_keeps step.0 s' next a vs (v ∷ []) (omega arith) step.2
            (m.get_maybe-insert_value s step.0 a v step.1, tt)).0,
        write_arg-Holds step.0 s' next vs (omega arith) step.2,
      )

  -- The loop that reads integers returns what the cells hold.
  read_integers-Holds :
      (F : Felt252) (ids : Ids) (s : S) (a : Relocatable) (i : ℕ) (xs : List ℕ)
      → a.offset + i + length xs < 2 ^ 64
      → Holds s (record a { offset = a.offset + i }) (map int xs)
      → read_integers F m ids a i (length xs) s ≡ (ok xs, s)
  unfolding read_integers
  read_integers-Holds F ids s a i [] fits held = refl
  read_integers-Holds F ids s a i (x ∷ xs) fits held =
      let shift : a.offset + i + 1 ≡ a.offset + (i + 1) = omega arith in
      ground (
        arith,
        m.add_usize_lem a i (omega arith),
        m.get_integer_lem s (record a { offset = a.offset + i }) x held.0,
        read_integers-Holds F ids s a (i + 1) xs (omega arith)
            (subst (λ (t : ℕ). Holds s (record a { offset = t }) (map int xs)) shift held.1),
      )

  -- A variable that points at a cell with the pointer to the data and a cell with the length, with
  -- addresses in range, is read as the list of the data that the cells hold; the reading changes
  -- nothing.
  pub serialize_sequence-Holds :
      (F : Felt252) (ids : Ids) (name : String) (s : S) (base start : Relocatable) (xs : List ℕ)
      → m.get_ptr_from_var_name ids name s ≡ ok base
      → base.offset + 1 < 2 ^ 64
      → start.offset + length xs < 2 ^ 64
      → Holds s base (relocatable start ∷ int (length xs) ∷ [])
      → Holds s start (map int xs)
      → serialize_sequence F m ids name s ≡ (ok xs, s)
  unfolding serialize_sequence
  serialize_sequence-Holds F ids name s base start [] pointer fits short head held = ground (
    arith,
    m.add_usize_lem base 1 fits,
    m.get_integer_lem s (record base { offset = base.offset + 1 }) 0 head.1.0,
    F.try_usize_lem 0,
  )
  serialize_sequence-Holds F ids name s base start (x ∷ xs) pointer fits short head held =
      let shift : start.offset ≡ start.offset + 0 = omega arith in
      ground (
        arith,
        m.add_usize_lem base 1 fits,
        m.get_integer_lem s (record base { offset = base.offset + 1 }) (length (x ∷ xs)) head.1.0,
        m.get_relocatable_lem s base start head.0,
        F.try_usize_lem (length (x ∷ xs)),
        read_integers-Holds F ids s start 0 (x ∷ xs) (omega arith) (
            subst (λ (t : ℕ). Holds s (record start { offset = t }) (map int (x ∷ xs))) shift held),
      )

  from_felts :
      (F : Felt252) (xs : List ℕ)
      → All (λ x. x < F.prime) xs
      → map (λ value. int (F.from value)) xs ≡ map int xs
  from_felts F [] h = refl
  from_felts F (x ∷ xs) h = ap₂ ◌∷◌ (ap int (F.from_lem x ∙ mod-eq_of_lt h.0)) (from_felts F xs h.1)

  length-map_int : (xs : List ℕ) → length (map int xs) ≡ length xs
  length-map_int [] = refl
  length-map_int (x ∷ xs) = ap suc (length-map_int xs)

  -- A list of felts, shorter than 2 ^ 64 - 1, that `deserialize_sequence` wrote is what
  -- `serialize_sequence` reads back from a variable that holds the returned pointer; the reading
  -- changes nothing.
  pub serialize_sequence-deserialize_sequence :
      (F : Felt252) (ids ids' : Ids) (name : String) (xs : List ℕ) (s s' : S) (base : Relocatable)
      → All (λ x. x < F.prime) xs
      → length xs + 1 < 2 ^ 64
      → deserialize_sequence F m ids xs s ≡ (ok base, s')
      → m.get_ptr_from_var_name ids' name s' ≡ ok base
      → serialize_sequence F m ids' name s' ≡ (ok xs, s')
  unfolding deserialize_sequence
  serialize_sequence-deserialize_sequence F ids ids' name xs s s' base felts short wrote pointer =
      let (b, t) = m.add_memory_segment s in
      let (d, u) = m.add_memory_segment t in
      let values : List Value = map (λ value. int (F.from value)) xs in
      let head : List Value = relocatable d ∷ int (F.from (length xs)) ∷ [] in
      let (_, mid, data_written, rest) =
        >>=-eq-ok (m.write_arg d values) (λ _. m.write_arg b head >> pure b) u s' base wrote in
      let (_, last, head_written, ends) =
        >>=-eq-ok (m.write_arg b head) (λ _. pure b) mid s' base rest in
      let same_base : b ≡ base = cc (ends) in
      let written : m.write_arg b head mid ≡ (ok tt, s') =
        head_written ∙ ap (λ r. (ok tt, r.1)) ends in
      let b_zero : b.offset ≡ 0 = m.add_memory_segment_lem s in
      let d_zero : d.offset ≡ 0 = m.add_memory_segment_lem t in
      let long : length values ≡ length xs =
        ap length (from_felts F xs felts) ∙ length-map_int xs in
      let count : F.from (length xs) ≡ length xs =
        F.from_lem (length xs) ∙ mod-eq_of_lt (omega (arith, F.prime_lem)) in
      let held : Holds s' d values =
        write_arg_keeps mid s' b d head values (omega arith) written
          (write_arg-Holds u mid d values (omega arith) data_written) in
      let headed : Holds s' b head = write_arg-Holds mid s' b head (omega arith) written in
      serialize_sequence-Holds F ids' name s' b d xs (pointer ∙ ap ok (sym same_base)) (omega arith)
        (omega arith) (subst (λ (t : ℕ). Holds s' b (relocatable d ∷ int t ∷ [])) count headed)
        (subst (Holds s' d) (from_felts F xs felts) held)
