-- ===== src/Runner/View.antt =====
-- What `_read_return_values` sees of the builtin runners, and that using one changes none of it.
use keth.Prelude.{
  ℕ, ◌-◌, String, List, [], ◌∷◌, Option, some, none, Bool, false, if◌then◌else◌, ◌≡◌, refl, ap,
  arith, Bool-cases, inl, inr, Relocatable,
}
use mathlib.Core.Path.{subst}
use keth.Python.{Try, success}
use keth.Runner.{Builtins, use_runner}

-- What the reading sees of a runner: whether the program uses the builtin, and what `final_stack`
-- gives.
abbrev pub View : Type 0
View = Bool × (Relocatable → Try String Relocatable)

-- How many cells a builtin takes below the return values: none, if it is not in use.
unfoldable pub cells : Option View → ℕ
cells none = 1
cells (some v) = if v.0 then 1 else 0

abbrev pub below : Relocatable → ℕ → Relocatable
below p n = record p { offset = p.offset - n }

pub relocatable_eq :
    (p q : Relocatable) → p.segment_index ≡ q.segment_index → p.offset ≡ q.offset → p ≡ q
relocatable_eq p q e h = λ i. record { segment_index = e i; offset = h i }

or_else : View → Option View → View
or_else v none = v
or_else v (some u) = u

module _ {S B Name : Type 0} (lib : Builtins S B Name) (s : S) where
  unfoldable pub view : List B → Name → Option View
  view [] name = none
  view (b ∷ bs) name =
      if lib.same_name (lib.name b) name
      then some (lib.included b, λ p. (lib.final_stack b s p).0)
      else view bs name

  -- A runner that was used looks as before.
  view-used :
      (b : B) (bs : List B) (p : Relocatable) (k : Name)
      → view ((lib.final_stack b s p).1 ∷ bs) k ≡ view (b ∷ bs) k
  unfolding view
  view-used b bs p k =
      rw (lib.name-final_stack b s p, lib.included-final_stack b s p)
        (ap
          (λ (f : Relocatable → Try String Relocatable).
            if lib.same_name (lib.name b) k then some (lib.included b, f) else view bs k)
          (λ i q. lib.final_stack-final_stack b s p q i))

  -- What `use_runner` gives: the view's result, and runners that look the same.
  unfoldable pub Used : Name → Relocatable → List B → Option View → Type 0
  Used name p bs none = use_runner lib name p s bs ≡ none
  Used name p bs (some v) =
      (bs' : List B) × (use_runner lib name p s bs ≡ some (v.1 p, bs'))
      × ((k : Name) → view bs' k ≡ view bs k)

  -- A runner with another name is passed over.
  Used-skip :
      (name : Name) (p : Relocatable) (b : B) (bs : List B) (o : Option View)
      → lib.same_name (lib.name b) name ≡ false
      → Used name p bs o
      → Used name p (b ∷ bs) o
  unfolding Used use_runner view
  Used-skip name p b bs none other used = rw (use_runner, other, used) refl
  Used-skip name p b bs (some v) other (bs', used, same) = (
    b ∷ bs',
    rw (use_runner, other, used) refl,
    λ k.
        ap
          (λ (o : Option View).
            if lib.same_name (lib.name b) k
            then some (lib.included b, λ q. (lib.final_stack b s q).0)
            else o)
          (same k),
  )

  pub use_runner-view :
      (name : Name) (p : Relocatable) (bs : List B) → Used name p bs (view bs name)
  unfolding view Used use_runner
  use_runner-view name p [] = refl
  use_runner-view name p (b ∷ bs) = elim (Bool-cases (lib.same_name (lib.name b) name)) [
    | inl same ↦
        rw same ((lib.final_stack b s p).1 ∷ bs, rw (use_runner, same) refl, view-used b bs p)
    | inr other ↦ rw other (Used-skip name p b bs (view bs name) other (use_runner-view name p bs))
  ]

  runner-takes :
      (b : B) (p q : Relocatable)
      → (lib.final_stack b s p).0 ≡ success q
      → q ≡ below p (if lib.included b then 1 else 0)
  runner-takes b p q h = elim (Bool-cases (lib.included b)) [
    | inl used ↦
        let (seg, off) = lib.final_stack_included b s p q used h in
        rw used (relocatable_eq q (below p 1) seg (omega arith))
    | inr unused ↦ rw unused (
        relocatable_eq q (below p 0) (ground (arith, lib.final_stack_unused b s p unused))
          (ground (arith, lib.final_stack_unused b s p unused)))
  ]

  -- What a builtin takes.
  pub view-takes :
      (bs : List B) (name : Name) (v : View) (p q : Relocatable)
      → view bs name ≡ some v
      → v.1 p ≡ success q
      → q ≡ below p (cells (some v))
  unfolding view cells or_else
  view-takes [] name v p q e h = absurd (ground arith)
  view-takes (b ∷ bs) name v p q e h = elim (Bool-cases (lib.same_name (lib.name b) name)) [
    | inl same ↦
        let found = ap (or_else v) (rw same at e) in
        subst (λ (u : View). u.1 p ≡ success q → q ≡ below p (if u.0 then 1 else 0)) found
          (runner-takes b p q) h
    | inr other ↦ view-takes bs name v p q (rw other at e) h
  ]
