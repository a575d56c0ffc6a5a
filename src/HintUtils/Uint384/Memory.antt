-- ===== src/HintUtils/Uint384/Memory.antt =====
-- A `Uint384` that was written to memory is read back.
use mathlib.Core.Path.{subst}
use keth.Prelude.{
  ℕ, ◌+◌, ◌^◌, ◌<◌, List, [], ◌∷◌, map, String, ◌≡◌, refl, sym, ap, ◌∙◌, arith, Relocatable, ok,
  ◌>>◌, >>=-eq-ok, length,
}
use keth.Machine.{Machine, Value, int}
use keth.HintUtils.Memory.{Holds, insert_value-Holds}
use keth.HintUtils.Uint384.{Uint384, insert_limbs, read_limbs, from_base_addr, insert_from_var_name}

module _ {S Ids : Type 0} (m : Machine S Ids) where
  -- One round of the loop, at an address in range.
  insert_limbs-cons :
      (s : S) (a : Relocatable) (i x : ℕ) (xs : List ℕ)
      → a.offset + i < 2 ^ 64
      → insert_limbs m a i (x ∷ xs) s
        ≡ (m.insert_value (record a { offset = a.offset + i }) (int x)
              >> insert_limbs m a (i + 1) xs)
            s
  unfolding insert_limbs
  insert_limbs-cons s a i x xs fits = ground (arith, m.add_usize_lem a i fits)

  -- The two steps of a round that succeeds.
  insert_limbs-cons_inv :
      (s s' : S) (a : Relocatable) (i x : ℕ) (xs : List ℕ)
      → a.offset + i < 2 ^ 64
      → insert_limbs m a i (x ∷ xs) s ≡ (ok tt, s')
      → (_ : Unit {0}) × (mid : S) × (m.insert_value (record a { offset = a.offset + i }) (int x) s
          ≡ (ok tt, mid))
        × (insert_limbs m a (i + 1) xs mid ≡ (ok tt, s'))
  insert_limbs-cons_inv s s' a i x xs fits h =
      >>=-eq-ok (m.insert_value (record a { offset = a.offset + i }) (int x))
        (λ _. insert_limbs m a (i + 1) xs) s s' tt (sym (insert_limbs-cons s a i x xs fits) ∙ h)

  insert_limbs_keeps :
      (s s' : S) (a b : Relocatable) (i : ℕ) (xs : List ℕ) (vs : List Value)
      → a.offset + i + length xs < 2 ^ 64
      → insert_limbs m a i xs s ≡ (ok tt, s')
      → Holds m s b vs
      → Holds m s' b vs
  unfolding insert_limbs
  insert_limbs_keeps s s' a b i [] vs fits h held =
      subst (λ t. Holds m t b vs) (ap (λ r. r.1) h) held
  insert_limbs_keeps s s' a b i (x ∷ xs) vs fits h held =
      let (_, mid, wrote, rest) = insert_limbs-cons_inv s s' a i x xs (omega arith) h in
      insert_limbs_keeps mid s' a b (i + 1) xs vs (omega arith) rest
        (insert_value-Holds m s mid (record a { offset = a.offset + i }) b (int x) vs wrote held)

  insert_limbs-Holds :
      (s s' : S) (a : Relocatable) (i : ℕ) (xs : List ℕ)
      → a.offset + i + length xs < 2 ^ 64
      → insert_limbs m a i xs s ≡ (ok tt, s')
      → Holds m s' (record a { offset = a.offset + i }) (map int xs)
  insert_limbs-Holds s s' a i [] fits h = tt
  insert_limbs-Holds s s' a i (x ∷ xs) fits h =
      let (_, mid, wrote, rest) = insert_limbs-cons_inv s s' a i x xs (omega arith) h in
      let here : Relocatable = record a { offset = a.offset + i } in
      let shift : a.offset + (i + 1) ≡ a.offset + i + 1 = omega arith in
      (
        (insert_limbs_keeps mid s' a here (i + 1) xs (int x ∷ []) (omega arith) rest
            (m.get_maybe-insert_value s mid here (int x) wrote, tt)).0,
        subst (λ (t : ℕ). Holds m s' (record a { offset = t }) (map int xs)) shift
            (insert_limbs-Holds mid s' a (i + 1) xs (omega arith) rest),
      )

  read_limbs-Holds :
      (s : S) (a : Relocatable) (name : String) (i : ℕ) (xs : List ℕ)
      → a.offset + i + length xs < 2 ^ 64
      → Holds m s (record a { offset = a.offset + i }) (map int xs)
      → read_limbs m a name i (length xs) s ≡ (ok xs, s)
  unfolding read_limbs
  read_limbs-Holds s a name i [] fits held = refl
  read_limbs-Holds s a name i (x ∷ xs) fits held =
      let shift : a.offset + i + 1 ≡ a.offset + (i + 1) = omega arith in
      ground (
        arith,
        m.add_usize_lem a i (omega arith),
        m.get_integer_lem s (record a { offset = a.offset + i }) x held.0,
        read_limbs-Holds s a name (i + 1) xs (omega arith)
            (subst (λ (t : ℕ). Holds m s (record a { offset = t }) (map int xs)) shift held.1),
      )

  -- Four limbs that `insert_from_var_name` wrote, with success, at a variable's address with four
  -- cells in range are what `from_base_addr` reads back there; the reading changes nothing.
  pub from_base_addr-insert_from_var_name :
      (ids : Ids) (u : Uint384) (var_name name : String) (s s' : S) (a : Relocatable)
      → length u.limbs ≡ 4
      → m.get_relocatable_from_var_name ids var_name s ≡ ok a
      → a.offset + 4 < 2 ^ 64
      → insert_from_var_name m ids u var_name s ≡ (ok tt, s')
      → from_base_addr m a name s' ≡ (ok u, s')
  unfolding insert_from_var_name from_base_addr
  from_base_addr-insert_from_var_name ids u var_name name s s' a four found fits wrote =
      let limbs : insert_limbs m a 0 u.limbs s ≡ (ok tt, s') = ground arith in
      let held = insert_limbs-Holds s s' a 0 u.limbs (omega arith) limbs in
      let read : read_limbs m a name 0 4 s' ≡ (ok (u.limbs), s') =
        ap (λ (n : ℕ). read_limbs m a name 0 n s') (sym four)
        ∙ read_limbs-Holds s' a name 0 u.limbs (omega arith) held in
      ground arith
