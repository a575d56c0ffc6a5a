-- ===== src/Prelude/Outcome.antt =====
-- What a call comes back with: a value, a `HintError`, or a panic (`unwrap`, `assert!`, an index out
-- of range). A call that works on `&mut` state gives the state back in all three cases, since what
-- was written before an error stays written.
use Prim.Native.Nat.{ℕ}
use Prim.Native.String.{String}
use mathlib.Core.Bool.{Bool, true, false}
use mathlib.Core.Option.{Option, none, some}
use mathlib.Core.Path.{◌≡◌, refl, ap}
use native.Mathlib.Omega.{arith}
use keth.Prelude.Int.{ℤ}

-- `Relocatable` of the virtual machine: the segment's index (an `isize`) and the
-- offset in it.
pub record Relocatable : Type 0 where
  pub segment_index : ℤ
  pub offset : ℕ

-- The errors that the source builds; `library` is one that a called library built, by its text.
pub data HintError : Type 0 where
  custom_hint : String → HintError
  unknown_memory_cell : Relocatable → HintError
  felt_to_usize : ℕ → HintError
  identifier_has_no_member : String → String → HintError
  fixed_size_array_fail : ℕ → HintError
  unknown_hint : String → HintError
  library : String → HintError

pub data Result {ℓ} (A : Type ℓ) : Type ℓ where
  ok : A → Result A
  err : HintError → Result A
  panic : Result A

-- A computation on a mutable state.
abbrev pub Action : Type 0 → Type 0 → Type 0
Action S A = S → Result A × S

module _ {S A : Type 0} where
  abbrev pub pure : A → Action S A
  pure a s = (ok a, s)

  abbrev pub fail : HintError → Action S A
  fail e s = (err e, s)

  -- A result that does not touch the state.
  abbrev pub lift : Result A → Action S A
  lift r s = (r, s)

  -- A computation that only reads the state.
  abbrev pub reads : (S → Result A) → Action S A
  reads f s = (f s, s)

module _ {A : Type 0} where
  -- `.ok_or_else(|| e)?`
  abbrev pub ok_or : Option A → HintError → Result A
  ok_or none e = err e
  ok_or (some a) e = ok a

  -- `.unwrap()`
  abbrev pub unwrap : Result A → Result A
  unwrap (ok a) = ok a
  unwrap (err e) = panic
  unwrap panic = panic

  -- `.map_err(|_| e)`
  abbrev pub map_err : Result A → HintError → Result A
  map_err (ok a) e = ok a
  map_err (err _) e = err e
  map_err panic e = panic

infixl 5 ◌>>=◌ ◌>>◌
abbrev pub ◌>>=◌ : {S A B : Type 0} → Action S A → (A → Action S B) → Action S B
◌>>=◌ m f s =
    let (r, s') = m s in elim r [ ok a ↦ f a s' | err e ↦ (err e, s') | panic ↦ (panic, s') ]

abbrev pub ◌>>◌ : {S B : Type 0} → Action S (Unit {0}) → Action S B → Action S B
m >> k = m >>= λ _. k

-- `assert!`
abbrev pub assert : {S : Type 0} → Bool → Action S (Unit {0})
assert true s = (ok tt, s)
assert false s = (panic, s)

-- The two steps of a bind that succeeds.
pub >>=-eq-ok :
    {S A B : Type 0} (m : Action S A) (f : A → Action S B) (s s' : S) (b : B)
    → (m >>= f) s ≡ (ok b, s')
    → (a : A) × (mid : S) × (m s ≡ (ok a, mid)) × (f a mid ≡ (ok b, s'))
>>=-eq-ok {S} {A} {B} m f s s' b h = go (m s) refl h
  where
    go :
        (r : Result A × S)
        → m s ≡ r
        → elim r.0 as (λ _. Result B × S) [
          | ok a ↦ f a r.1
          | err e ↦ (err e, r.1)
          | panic ↦ (panic, r.1)
        ]
          ≡ (ok b, s')
        → (a : A) × (mid : S) × (m s ≡ (ok a, mid)) × (f a mid ≡ (ok b, s'))
    go (ok a, mid) e k = (a, mid, e, k)
    go (err x, mid) e k = absurd (ground arith)
    go (panic, mid) e k = absurd (ground arith)

-- A first step that succeeds.
pub >>=-ok :
    {S A B : Type 0} (m : Action S A) (k : A → Action S B) (s s' : S) (a : A)
    → m s ≡ (ok a, s')
    → (m >>= k) s ≡ k a s'
>>=-ok {S} m k s s' a h = ap (λ r. ((λ (t : S). r) >>= k) s) h

pub >>-ok :
    {S B : Type 0} (m : Action S (Unit {0})) (k : Action S B) (s s' : S)
    → m s ≡ (ok tt, s')
    → (m >> k) s ≡ k s'
>>-ok m k s s' h = >>=-ok m (λ u. k) s s' tt h
