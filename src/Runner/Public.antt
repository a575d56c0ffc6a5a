-- ===== src/Runner/Public.antt =====
-- `update_execution_public_memory`: the positions that it adds, and those of the builtins' cells
-- that `read_return_values` passed over.
use keth.Prelude.{
  ℕ, zero, suc, ◌+◌, ◌-◌, ◌≤◌, ◌<◌, List, ◌++◌, reverse, some, Bool, ltb, ◌≡◌, ◌↔◌, ◌⊎◌, inl, inr,
  refl, ap, ◌∙◌, arith, Bool-cases, In, In-append, In-append_left, In-append_right, length,
  length-append, Relocatable, ok,
}
use mathlib.Core.Path.{subst}
use keth.Machine.{Machine}
use keth.Python.{success, Display}
use keth.Runner.{
  Builtins, CairoRunner, read_return_values, pop_builtins, range_from, usize_sub,
  extend_public_memory, update_execution_public_memory,
}
use keth.Runner.View.{below}
use keth.Runner.Returns.{builtin_cells, read_return_values_iff}

length-range_from : (begin count : ℕ) → length (range_from begin count) ≡ count
length-range_from begin zero = refl
length-range_from begin (suc count) = ap suc (length-range_from (begin + 1) count)

In-range_from :
    (x begin count : ℕ) → In x (range_from begin count) → (begin ≤ x) × (x < begin + count)
In-range_from x begin zero h = absurd h
In-range_from x begin (suc count) (inl e) = (omega arith, omega arith)
In-range_from x begin (suc count) (inr h) =
    let (low, high) = In-range_from x (begin + 1) count h in (omega arith, omega arith)

range_from-In : (x begin count : ℕ) → begin ≤ x → x < begin + count → In x (range_from begin count)
range_from-In x begin zero low high = absurd (omega arith)
range_from-In x begin (suc count) low high = elim (Bool-cases (ltb begin x)) [
  | inl after ↦ inr (range_from-In x (begin + 1) count (ground arith) (omega arith))
  | inr here ↦ inl (ground arith)
]

-- A list with a range behind it.
module _ (memory : List ℕ) (begin end : ℕ) where
  extended_iff :
      (x : ℕ)
      → In x (memory ++ range_from begin (end - begin)) ↔ (In x memory ⊎ ((begin ≤ x) × (x < end)))
  extended_iff x = (
    λ h. elim (In-append x memory (range_from begin (end - begin)) h) [
      | inl old ↦ inl old
      | inr new ↦
          let (low, high) = In-range_from x begin (end - begin) new in inr (low, omega arith)
    ],
    λ h. elim h [
      | inl old ↦ In-append_left x memory (range_from begin (end - begin)) old
      | inr new ↦
          In-append_right x memory (range_from begin (end - begin))
            (range_from-In x begin (end - begin) new.0 (omega (arith, new)))
    ],
  )

-- The second list has the positions of the first, and those from `begin` on before `end`, each
-- once more.
unfoldable pub Extends : List ℕ → ℕ → ℕ → List ℕ → Type 0
Extends memory begin end memory' =
    ((x : ℕ) → In x memory' ↔ (In x memory ⊎ ((begin ≤ x) × (x < end))))
    × (length memory' ≡ length memory + (end - begin))

extended-Extends :
    (memory : List ℕ) (begin end : ℕ)
    → Extends memory begin end (memory ++ range_from begin (end - begin))
unfolding Extends
extended-Extends memory begin end = (
  extended_iff memory begin end,
  length-append memory (range_from begin (end - begin))
      ∙ ap (λ n. length memory + n) (length-range_from begin (end - begin)),
)

usize_sub-fits : (checks : Bool) (a b : ℕ) → b ≤ a → usize_sub checks a b ≡ ok (a - b)
unfolding usize_sub
usize_sub-fits checks a b h = ground arith

module _ {S Ids B Name : Type 0} (m : Machine S Ids) (d : Display) (lib : Builtins S B Name)
    (checks : Bool) where
  extend_lem :
      (r : CairoRunner S B Name) (begin end : ℕ) (memory : List ℕ)
      → r.execution_public_memory ≡ some memory
      → extend_public_memory m checks r begin end ≡ (
        success tt,
        record r { execution_public_memory = some (memory ++ range_from begin (end - begin)) },
      )
  extend_lem r begin end memory public = rw public refl

  -- The call adds the positions from the pointer to the return values' end, if both are in range.
  update_lem :
      (r : CairoRunner S B Name) (pointer exec_base : Relocatable) (offset : ℕ) (memory : List ℕ)
      → r.execution_base ≡ some exec_base
      → r.execution_public_memory ≡ some memory
      → exec_base.offset ≤ pointer.offset
      → offset ≤ (m.get_ap r.vm).offset
      → let updated = update_execution_public_memory m checks r pointer offset in
        (updated.0 ≡ success tt)
        × (memory' : List ℕ) × (updated.1.execution_public_memory ≡ some memory')
        × Extends memory
            (pointer.offset - exec_base.offset)
            ((m.get_ap r.vm).offset - offset)
            memory'
  unfolding update_execution_public_memory
  update_lem r pointer exec_base offset memory based public after inside =
      let begin = pointer.offset - exec_base.offset in
      let end = (m.get_ap r.vm).offset - offset in
      let reached : update_execution_public_memory m checks r pointer offset
          ≡ extend_public_memory m checks r begin end =
        simp (
          update_execution_public_memory,
          based,
          usize_sub-fits checks pointer.offset exec_base.offset after,
          usize_sub-fits checks (m.get_ap r.vm).offset offset inside,
        ) in
      let run = reached ∙ extend_lem r begin end memory public in
      (
        ap (λ u. u.0) run,
        memory ++ range_from begin (end - begin),
        ap (λ u. u.1.execution_public_memory) run,
        extended-Extends memory begin end,
      )

  read-keeps :
      (r : CairoRunner S B Name) (offset : ℕ)
      → offset ≤ (m.get_ap r.vm).offset
      → (bs : List B) × ((read_return_values m d lib r offset).1
          ≡ record r { builtin_runners = bs })
  unfolding read_return_values
  read-keeps r offset inside = (
    (pop_builtins m d lib r.allow_missing_builtins (reverse r.ordered_builtins)
        (below (m.get_ap r.vm) offset) r.vm r.builtin_runners).1,
    rw (read_return_values, m.sub_usize_lem (m.get_ap r.vm) offset inside) refl,
  )

  -- If reading the return values succeeds, the execution segment begins at offset 0, there is a
  -- public memory and the offset is at most that of `ap`: an update with the pointer and the same
  -- offset succeeds, with overflow checks or without, and adds to the public memory exactly the
  -- positions of the cells that the builtins took below the return values, each once.
  pub public_memory-read_return_values :
      (r : CairoRunner S B Name) (offset : ℕ) (q exec_base : Relocatable) (memory : List ℕ)
      → offset ≤ (m.get_ap r.vm).offset
      → r.execution_base ≡ some exec_base
      → exec_base.offset ≡ 0
      → r.execution_public_memory ≡ some memory
      → (read_return_values m d lib r offset).0 ≡ success q
      → let r' = (read_return_values m d lib r offset).1 in
        let updated = update_execution_public_memory m checks r' q offset in
        let end = (m.get_ap r.vm).offset - offset in
        (updated.0 ≡ success tt)
        × (memory' : List ℕ) × (updated.1.execution_public_memory ≡ some memory')
        × Extends memory (end - builtin_cells lib r) end memory'
  public_memory-read_return_values r offset q exec_base memory inside based start public h =
      let (bs, kept) = read-keeps r offset inside in
      let there = ((read_return_values_iff m d lib r offset q inside).0 h).1 in
      let end = (m.get_ap r.vm).offset - offset in
      let first : q.offset - exec_base.offset ≡ end - builtin_cells lib r =
        omega (arith, ap (λ (a : Relocatable). a.offset) there) in
      let (done, memory', stored, extends) =
        update_lem (record r { builtin_runners = bs }) q exec_base offset memory based public
          (omega arith) inside in
      rw kept (done, memory', stored, subst (λ n. Extends memory n end memory') first extends)
