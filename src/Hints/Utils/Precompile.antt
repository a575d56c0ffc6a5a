-- ===== src/Hints/Utils/Precompile.antt =====
-- The index of a precompiled contract: which felts are addresses of the table.
use mathlib.Core.Path.{ap₂}
use keth.Prelude.{
  ◌/◌, ℕ, zero, suc, ◌+◌, ◌-◌, ◌*◌, ◌%◌, ◌^◌, ◌<◌, ◌≤◌, ◌≡◌, refl, ap, ◌∙◌, arith, ◌==◌, ◌↔◌,
  Option, some, none, List, [], ◌∷◌, ◌++◌, All, length, take, replicate, if◌then◌else◌, length-take,
}
use keth.Prelude.Bytes.{le_value, le_value-take}
use keth.Machine.{Felt252}
use keth.Hints.Utils.{bytes_eq, PrecompileAddresses, precompile_indices, precompile_index}

-- Byte strings of one length are equal exactly if they stand for one number.
bytes_eq_value :
    (xs ys : List ℕ)
    → length xs ≡ length ys
    → All (λ b. b < 256) xs
    → All (λ b. b < 256) ys
    → bytes_eq xs ys ≡ (le_value xs == le_value ys)
bytes_eq_value [] [] same hx hy = refl
bytes_eq_value [] (y ∷ ys) same hx hy = absurd (omega arith)
bytes_eq_value (x ∷ xs) [] same hx hy = absurd (omega arith)
bytes_eq_value (x ∷ xs) (y ∷ ys) same hx hy =
    ground (arith, bytes_eq_value xs ys (omega arith) hx.1 hy.1)

All-take : (n : ℕ) (xs : List ℕ) → All (λ b. b < 256) xs → All (λ b. b < 256) (take n xs)
All-take zero xs h = tt
All-take (suc n) [] h = tt
All-take (suc n) (x ∷ xs) h = (h.0, All-take n xs h.1)

address_value : (k : ℕ) → le_value (replicate 19 0 ++ (k ∷ [])) ≡ k * 256 ^ 19
address_value k = omega arith

module _ (F : Felt252) (P : PrecompileAddresses) (a : ℕ) (felt : a < F.prime) where
  abbrev low_bytes : List ℕ
  low_bytes = take 20 (F.to_bytes_le a)

  low_bytes-value : le_value low_bytes ≡ a % 256 ^ 20
  low_bytes-value =
      le_value-take 20 (F.to_bytes_le a) (F.to_bytes_le-bytes a)
      ∙ ap (λ (t : ℕ). t % 256 ^ 20) (F.le_value-to_bytes_le a felt)

  -- The felt's bytes are those of contract `k` exactly if its low 160 bits are `k`, shifted to the
  -- top byte.
  is_address : (k : ℕ) → k < 256 → bytes_eq (P.address k) low_bytes ≡ (k * 256 ^ 19 == a % 256 ^ 20)
  is_address k small =
      ap (λ l. bytes_eq l low_bytes) (P.address_lem k small)
      ∙ (bytes_eq_value (replicate 19 0 ++ (k ∷ [])) low_bytes
            (omega (arith, length-take 20 (F.to_bytes_le a), F.length-to_bytes_le a)) (omega arith)
            (All-take 20 (F.to_bytes_le a) (F.to_bytes_le-bytes a))
          ∙ ap₂ (λ (s t : ℕ). s == t) (address_value k) low_bytes-value)

  abbrev ladder : ℕ → Option ℕ
  ladder v =
      if 1 * 256 ^ 19 == v
      then some 0
      else if 2 * 256 ^ 19 == v
      then some 3
      else if 3 * 256 ^ 19 == v
      then some 6
      else if 4 * 256 ^ 19 == v
      then some 9
      else if 5 * 256 ^ 19 == v
      then some 12
      else if 6 * 256 ^ 19 == v
      then some 15
      else if 7 * 256 ^ 19 == v
      then some 18
      else if 8 * 256 ^ 19 == v
      then some 21
      else if 9 * 256 ^ 19 == v
      then some 24
      else if 10 * 256 ^ 19 == v
      then some 27
      else none

  precompile_index-ladder : precompile_index F P a ≡ ladder (a % 256 ^ 20)
  unfolding precompile_index precompile_indices
  precompile_index-ladder = rw (
    is_address 1 (omega arith),
    is_address 2 (omega arith),
    is_address 3 (omega arith),
    is_address 4 (omega arith),
    is_address 5 (omega arith),
    is_address 6 (omega arith),
    is_address 7 (omega arith),
    is_address 8 (omega arith),
    is_address 9 (omega arith),
    is_address 10 (omega arith),
  )

  -- A felt has the index `n` exactly if `n` is three times `k - 1` for a contract `k` from 1 to 10
  -- and the felt's low 160 bits are `k` in the top byte, the other bytes zero.
  pub precompile_index_iff :
      (n : ℕ)
      → (precompile_index F P a ≡ some n)
        ↔ ((k : ℕ) × (1 ≤ k) × (k ≤ 10) × (a % 256 ^ 20 ≡ k * 256 ^ 19) × (n ≡ 3 * (k - 1)))
  precompile_index_iff n = (
    λ e. (
      n / 3 + 1,
      ground (arith, precompile_index-ladder),
      ground (arith, precompile_index-ladder),
      ground (arith, precompile_index-ladder),
      ground (arith, precompile_index-ladder),
    ),
    λ r. ground (arith, precompile_index-ladder),
  )
