-- ===== src/Runner/Returns.antt =====
-- `_read_return_values`: which cells it reads, and where the return values end.
use keth.Prelude.{
  ℕ, ◌+◌, ◌≤◌, List, [], ◌∷◌, reverse, Option, some, none, Bool, true, if◌then◌else◌, ◌==◌, ◌≡◌,
  ◌↔◌, refl, sym, ap, ◌∙◌, arith, Bool-cases, inl, inr, Relocatable, Result, ok, err, panic,
}
use keth.Machine.{Machine}
use keth.Python.{
  Try, PyErr, PyResult, runtime_error, success, failure, panicked, ◌>>=◌, map_failure, Display,
  from_library,
}
use keth.Runner.View.{View, cells, below, relocatable_eq, view, view-takes, Used, use_runner-view}
use keth.Runner.{
  Builtins, CairoRunner, missing_builtin, pop_builtin, pop_builtins, read_return_values,
}

-- The cells of some builtins together.
unfoldable pub total : {Name : Type 0} → (Name → Option View) → List Name → ℕ
total at [] = 0
total at (name ∷ names) = cells (at name) + total at names

module _ {S Ids : Type 0} (m : Machine S Ids) (s : S) (allow : Bool) where
  -- The cell of a builtin is as it must be: a stop pointer that `final_stack` accepts, or 0 for a
  -- builtin that the layout has not, if such are allowed.
  abbrev pub HasStop : Option View → Relocatable → Type 0
  HasStop none p = (allow ≡ true) × (m.get_integer s (below p 1) ≡ ok 0)
  HasStop (some v) p = (q : Relocatable) × (v.1 p ≡ success q)

  -- So are the cells of all builtins, the last one's first.
  unfoldable pub Readable :
      {Name : Type 0} → (Name → Option View) → List Name → Relocatable → Type 0
  Readable at [] p = Unit {0}
  Readable at (name ∷ names) p = HasStop (at name) p × Readable at names (below p (cells (at name)))

module _ {S Ids B Name : Type 0} (m : Machine S Ids) (lib : Builtins S B Name)
    (r : CairoRunner S B Name) where
  -- The cells below the return values are readable, for the builtins of the entry point in their
  -- order.
  unfoldable pub IsReadable : Relocatable → Type 0
  unfolding Readable
  IsReadable base =
      Readable m r.vm r.allow_missing_builtins (view lib r.vm r.builtin_runners)
        (reverse r.ordered_builtins) base

module _ {S B Name : Type 0} (lib : Builtins S B Name) (r : CairoRunner S B Name) where
  -- How many cells they take.
  unfoldable pub builtin_cells : ℕ
  unfolding total
  builtin_cells = total (view lib r.vm r.builtin_runners) (reverse r.ordered_builtins)

success_unique : {E A : Type 0} (a b : A) (r : Try E A) → r ≡ success a → r ≡ success b → a ≡ b
success_unique a b r e h = ground arith

-- The test that a cell holds 0.
zero-success :
    (d : Display) (r : Result ℕ) (b q : Relocatable) (e : PyErr)
    → (from_library d runtime_error r >>= λ x. if x == 0 then success b else failure e) ≡ success q
    → (r ≡ ok 0) × (q ≡ b)
zero-success d (ok x) b q e h = elim (Bool-cases (x == 0)) [
  | inl is_zero ↦ (ground arith, ground arith)
  | inr other ↦ absurd (ground arith)
]
zero-success d (err x) b q e h = absurd (ground arith)
zero-success d panic b q e h = absurd (ground arith)

module _ {S Ids B Name : Type 0} (m : Machine S Ids) (d : Display) (lib : Builtins S B Name) (s : S)
    (allow : Bool) where
  popped : Option View → Name → Relocatable → PyResult Relocatable
  popped none name p = missing_builtin m d lib allow name p s
  popped (some v) name p = map_failure (v.1 p) (λ e. record { kind = runtime_error; message = e })

  pop_builtin-Used :
      (name : Name) (p : Relocatable) (bs : List B) (o : Option View)
      → Used lib s name p bs o
      → view lib s bs name ≡ o
      → ((pop_builtin m d lib allow name p s bs).0 ≡ popped o name p)
        × ((k : Name) → view lib s (pop_builtin m d lib allow name p s bs).1 k ≡ view lib s bs k)
  unfolding Used pop_builtin popped
  pop_builtin-Used name p bs none used e =
      (rw (pop_builtin, used) refl, rw (pop_builtin, used) (λ k. refl))
  pop_builtin-Used name p bs (some v) (bs', used, same) e =
      (rw (pop_builtin, used) refl, rw (pop_builtin, used) same)

  missing-success :
      (name : Name) (p q : Relocatable)
      → missing_builtin m d lib allow name p s ≡ success q
      → HasStop m s allow none p × (q ≡ below p 1)
  missing-success name p q h = elim (Bool-cases allow) [
    | inl e ↦
        let (zero_cell, there) =
          zero-success d (m.get_integer s (below p 1)) (below p 1) q _ (rw e at h) in
        ((e, zero_cell), there)
    | inr e ↦ absurd (ground (arith, rw e at h))
  ]

  popped-success :
      (name : Name) (p q : Relocatable) (o : Option View)
      → popped o name p ≡ success q
      → HasStop m s allow o p
  unfolding popped
  popped-success name p q none h = (missing-success name p q h).0
  popped-success name p q (some v) h = (q, ground arith)

  popped-stop :
      (name : Name) (p : Relocatable) (bs : List B) (o : Option View)
      → view lib s bs name ≡ o
      → HasStop m s allow o p
      → popped o name p ≡ success (below p (cells o))
  unfolding popped cells
  popped-stop name p bs none e (allowed, zero_cell) = rw (allowed, zero_cell) refl
  popped-stop name p bs (some v) e (q, h) = rw h (ap success (view-takes lib s bs name v p q e h))

  pop_builtin-view :
      (name : Name) (p : Relocatable) (bs : List B)
      → ((pop_builtin m d lib allow name p s bs).0 ≡ popped (view lib s bs name) name p)
        × ((k : Name) → view lib s (pop_builtin m d lib allow name p s bs).1 k ≡ view lib s bs k)
  pop_builtin-view name p bs =
      pop_builtin-Used name p bs (view lib s bs name) (use_runner-view lib s name p bs) refl

  pop_builtins-cons :
      (name : Name) (names : List Name) (p q : Relocatable) (bs : List B)
      → (pop_builtin m d lib allow name p s bs).0 ≡ success q
      → (pop_builtins m d lib allow (name ∷ names) p s bs).0
        ≡ (pop_builtins m d lib allow names q s (pop_builtin m d lib allow name p s bs).1).0
  unfolding pop_builtins
  pop_builtins-cons name names p q bs h = rw (pop_builtins, h) refl

  pop_builtins-success :
      (at : Name → Option View) (names : List Name) (p : Relocatable) (bs : List B)
      → ((k : Name) → view lib s bs k ≡ at k)
      → Readable m s allow at names p
      → (pop_builtins m d lib allow names p s bs).0 ≡ success (below p (total at names))
  unfolding Readable pop_builtins total
  pop_builtins-success at [] p bs same readable = ap success (relocatable_eq p _ refl (omega arith))
  pop_builtins-success at (name ∷ names) p bs same (stop, readable) =
      let (result, kept) = pop_builtin-view name p bs in
      let popped_one =
        result
        ∙ ap (λ o. popped o name p) (same name)
        ∙ popped-stop name p bs (at name) (same name) stop in
      pop_builtins-cons name names p _ bs popped_one
      ∙ pop_builtins-success at names (below p (cells (at name))) _ (λ k. kept k ∙ same k) readable
      ∙ ap success (relocatable_eq _ _ refl (omega arith))

  first-success :
      (r : PyResult Relocatable) (bs : List B) (names : List Name) (q : Relocatable)
      → (elim r as (λ _. PyResult Relocatable × List B) [
        | success a ↦ pop_builtins m d lib allow names a s bs
        | failure e ↦ (failure e, bs)
        | panicked ↦ (panicked, bs)
      ]).0
        ≡ success q
      → (a : Relocatable) × (r ≡ success a)
  first-success (success a) bs names q h = (a, refl)
  first-success (failure e) bs names q h = absurd (ground arith)
  first-success panicked bs names q h = absurd (ground arith)

  pop_builtins-first :
      (name : Name) (names : List Name) (p q : Relocatable) (bs : List B)
      → (pop_builtins m d lib allow (name ∷ names) p s bs).0 ≡ success q
      → (a : Relocatable) × ((pop_builtin m d lib allow name p s bs).0 ≡ success a)
  unfolding pop_builtins
  pop_builtins-first name names p q bs h =
      first-success (pop_builtin m d lib allow name p s bs).0
        (pop_builtin m d lib allow name p s bs).1 names q h

  pop_builtins-Readable :
      (at : Name → Option View) (names : List Name) (p q : Relocatable) (bs : List B)
      → ((k : Name) → view lib s bs k ≡ at k)
      → (pop_builtins m d lib allow names p s bs).0 ≡ success q
      → Readable m s allow at names p
  unfolding Readable
  pop_builtins-Readable at [] p q bs same h = tt
  pop_builtins-Readable at (name ∷ names) p q bs same h =
      let (a, first) = pop_builtins-first name names p q bs h in
      let (result, kept) = pop_builtin-view name p bs in
      let seen : popped (at name) name p ≡ (pop_builtin m d lib allow name p s bs).0 =
        sym (result ∙ ap (λ o. popped o name p) (same name)) in
      let stop = popped-success name p a (at name) (seen ∙ first) in
      let one = sym seen ∙ popped-stop name p bs (at name) (same name) stop in
      (
        stop,
        pop_builtins-Readable at names _ q _ (λ k. kept k ∙ same k)
            (sym (pop_builtins-cons name names p _ bs one) ∙ h),
      )

module _ {S Ids B Name : Type 0} (m : Machine S Ids) (d : Display) (lib : Builtins S B Name) where
  -- Where the offset is at most that of `ap`: reading the return values succeeds exactly if, from
  -- the return values down and from the last builtin of the entry point to the first, each
  -- builtin's cell is accepted by its runner, or holds 0 if no runner has its name and such
  -- builtins are allowed; the pointer then is `ap` less the offset and a cell for each builtin in
  -- use or missing.
  pub read_return_values_iff :
      (r : CairoRunner S B Name) (offset : ℕ) (q : Relocatable)
      → offset ≤ (m.get_ap r.vm).offset
      → ((read_return_values m d lib r offset).0 ≡ success q) ↔ (
          IsReadable m lib r (below (m.get_ap r.vm) offset)
          × (q ≡ below (m.get_ap r.vm) (offset + builtin_cells lib r)))
  unfolding read_return_values IsReadable builtin_cells
  read_return_values_iff r offset q inside =
      let base = below (m.get_ap r.vm) offset in
      let at = view lib r.vm r.builtin_runners in
      let names = reverse r.ordered_builtins in
      let allow = r.allow_missing_builtins in
      let run : (read_return_values m d lib r offset).0
          ≡ (pop_builtins m d lib allow names base r.vm r.builtin_runners).0 =
        rw (read_return_values, m.sub_usize_lem (m.get_ap r.vm) offset inside) refl in
      let forth : Readable m r.vm allow at names base
          → (read_return_values m d lib r offset).0
            ≡ success (below (m.get_ap r.vm) (offset + total at names)) =
        λ readable.
          run
          ∙ pop_builtins-success m d lib r.vm allow at names base r.builtin_runners (λ k. refl)
              readable
          ∙ ap success (relocatable_eq _ _ refl (omega arith)) in
      (
        λ h.
            let readable =
              pop_builtins-Readable m d lib r.vm allow at names base q r.builtin_runners (λ k. refl)
                (sym run ∙ h) in
            (readable, success_unique q _ _ h (forth readable)),
        λ (readable, there). forth readable ∙ ap success (sym there),
      )
