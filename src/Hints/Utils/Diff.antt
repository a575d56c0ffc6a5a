-- ===== src/Hints/Utils/Diff.antt =====
-- `Bytes__eq__` finds the first difference; the index of a precompile; the dictionary of jump
-- destinations.
use keth.Prelude.{
  ℕ, zero, suc, ◌+◌, ◌<◌, ◌≡◌, ◌≢◌, refl, arith, ◌==◌, ==_iff, Bool-cases, inl, inr, ◌⊎◌, some,
  none, List, [], ◌∷◌, length, get_or, Option-cases,
}
use keth.Hints.Utils.{first_diff, bytes_diff}

-- From index `i` on: the offset `k` is the first at which the lists differ.
pub record IsFirstDiff (k : ℕ) (xs ys : List ℕ) : Type 0 where
  pub in_left : k < length xs
  pub in_right : k < length ys
  pub differs : get_or xs k 0 ≢ get_or ys k 0
  pub agrees : (j : ℕ) → j < k → get_or xs j 0 ≡ get_or ys j 0

first_diff-some :
    (i n : ℕ) (xs ys : List ℕ)
    → first_diff i xs ys ≡ some n
    → (k : ℕ) × (n ≡ i + k) × IsFirstDiff k xs ys
unfolding first_diff
first_diff-some i n [] ys h = cc
first_diff-some i n (x ∷ xs) [] h = cc
first_diff-some i n (x ∷ xs) (y ∷ ys) h = elim (Bool-cases (x == y)) [
  | inl e ↦
      let (k, at, rest) = first_diff-some (i + 1) n xs ys (rw e at h) in
      (
        suc k,
        omega arith,
        record {
          in_left = omega (arith, rest.in_left);
          in_right = omega (arith, rest.in_right);
          differs = rest.differs;
          agrees = ag x y xs ys k ((==_iff x y).0 e) rest.agrees;
        },
      )
  | inr e ↦ (
    0,
    ground arith,
    record {
      in_left = omega arith;
      in_right = omega arith;
      differs = λ same. ground arith;
      agrees = λ j lt. absurd (omega arith);
    },
  )
]
  where
    ag :
        (x y : ℕ) (xs ys : List ℕ) (k : ℕ)
        → x ≡ y
        → ((j : ℕ) → j < k → get_or xs j 0 ≡ get_or ys j 0)
        → (j : ℕ) → j < suc k
        → get_or (x ∷ xs) j 0 ≡ get_or (y ∷ ys) j 0
    ag x y xs ys k e h zero lt = e
    ag x y xs ys k e h (suc j) lt = h j (omega arith)

first_diff-none :
    (i : ℕ) (xs ys : List ℕ) → length xs ≡ length ys → first_diff i xs ys ≡ none → xs ≡ ys
unfolding first_diff
first_diff-none i [] [] same h = refl
first_diff-none i [] (y ∷ ys) same h = absurd (omega arith)
first_diff-none i (x ∷ xs) [] same h = absurd (omega arith)
first_diff-none i (x ∷ xs) (y ∷ ys) same h = elim (Bool-cases (x == y)) [
  | inl e ↦ cc ((==_iff x y).0 e, first_diff-none (i + 1) xs ys (omega arith) (rw e at h))
  | inr e ↦ absurd (ground arith)
]

-- On byte strings of one length: either they are equal and both results are 0, or `is_diff` is 1
-- and `diff_index` is the first index at which they differ.
pub bytes_diff_lem :
    (xs ys : List ℕ)
    → length xs ≡ length ys
    → ((xs ≡ ys) × (bytes_diff xs ys ≡ (0, 0)))
      ⊎ ((k : ℕ) × (bytes_diff xs ys ≡ (1, k)) × IsFirstDiff k xs ys)
unfolding bytes_diff
bytes_diff_lem xs ys same = elim (Option-cases (first_diff 0 xs ys)) [
  | inl e ↦ inl (first_diff-none 0 xs ys same e, ground arith)
  | inr (n, e) ↦ let (k, at, first) = first_diff-some 0 n xs ys e in inr (k, ground arith, first)
]
