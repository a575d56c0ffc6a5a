-- ===== src/Hints/Precompiles/Modexp.antt =====
-- The output and the gas of MODEXP.
use native.Mathlib.Nat.{mod-lt, pow-suc}
use keth.Prelude.{
  ℕ, zero, suc, ◌+◌, ◌-◌, ◌*◌, ◌%◌, ◌^◌, ◌<◌, ◌≤◌, ◌≡◌, refl, ap, ◌∙◌, arith, List, [], ◌∷◌, ◌++◌,
  All, length, replicate, length-append, length-replicate, ltb, ◌==◌, if◌then◌else◌, Bool-cases,
  inl, inr, ◌⊎◌,
}
use keth.Hints.Precompiles.{be_value, BigNumbers, modexp_result}

be_value-zeros : (k : ℕ) (bs : List ℕ) → be_value 0 (replicate k 0 ++ bs) ≡ be_value 0 bs
be_value-zeros zero bs = refl
be_value-zeros (suc k) bs = be_value-zeros k bs

be_value-replicate : (k : ℕ) → be_value 0 (replicate k 0) ≡ 0
be_value-replicate zero = refl
be_value-replicate (suc k) = be_value-replicate k

be_value-lt :
    (acc : ℕ) (bs : List ℕ) → All (λ b. b < 256) bs → be_value acc bs < (acc + 1) * 256 ^ length bs
be_value-lt acc [] h = omega arith
be_value-lt acc (b ∷ bs) h =
    let digits : 256 ^ suc (length bs) ≡ 256 * 256 ^ length bs =
      omega (arith, pow-suc 256 (length bs)) in
    let room : acc * 256 + b + 1 ≤ (acc + 1) * 256 = omega (arith, h.0) in
    let wide : (acc * 256 + b + 1) * 256 ^ length bs ≤ (acc + 1) * 256 * 256 ^ length bs =
      grind arith in
    omega (arith, be_value-lt (acc * 256 + b) bs h.1, wide, ap (λ (t : ℕ). (acc + 1) * t) digits)

module _ (B : BigNumbers) where
  -- The bytes before the padding.
  abbrev power_bytes : ℕ → ℕ → ℕ → List ℕ
  power_bytes b e n = B.to_bytes_be (B.modpow b e n)

  power_bytes-short :
      (b e : ℕ) (mod_bytes : List ℕ)
      → All (λ b. b < 256) mod_bytes
      → 0 < be_value 0 mod_bytes
      → length (power_bytes b e (be_value 0 mod_bytes)) ≤ length mod_bytes
  power_bytes-short b e [] bytes positive = absurd (omega arith)
  power_bytes-short b e (x ∷ xs) bytes positive =
      let n = be_value 0 (x ∷ xs) in
      B.to_bytes_be_short (B.modpow b e n) (length (x ∷ xs)) (omega arith) (
        omega (
          arith,
          B.modpow_lem b e n positive,
          mod-lt (b ^ e) positive,
          be_value-lt 0 (x ∷ xs) bytes,
        ))

  pad :
      (bytes : List ℕ) (n : ℕ)
      → length bytes ≤ n
      → let padded =
          if ltb (length bytes) n then replicate (n - length bytes) 0 ++ bytes else bytes in
        (length padded ≡ n) × (be_value 0 padded ≡ be_value 0 bytes)
  pad bytes n short = elim (Bool-cases (ltb (length bytes) n)) [
    | inl e ↦ rw e (
      omega (
        arith,
        length-append (replicate (n - length bytes) 0) bytes,
        length-replicate {A = ℕ} (n - length bytes) 0,
      ),
      be_value-zeros (n - length bytes) bytes,
    )
    | inr e ↦ rw e (ground arith, refl)
  ]

  -- Where the modulus is given by bytes, the output has the length of the modulus, and stands for
  -- base ^ exp modulo the modulus; for a modulus of zero it stands for zero.
  pub modexp_result_lem :
      (base_bytes exp_bytes mod_bytes : List ℕ)
      → All (λ b. b < 256) mod_bytes
      → let n = be_value 0 mod_bytes in
        let result = modexp_result B base_bytes exp_bytes mod_bytes in
        (length result ≡ length mod_bytes)
        × (be_value 0 result
            ≡ (if n == 0 then 0 else be_value 0 base_bytes ^ be_value 0 exp_bytes % n))
  unfolding modexp_result
  modexp_result_lem base_bytes exp_bytes mod_bytes bytes =
      let n = be_value 0 mod_bytes in
      let b = be_value 0 base_bytes in
      let e = be_value 0 exp_bytes in
      rw
        (
          B.from_bytes_be_lem mod_bytes,
          B.from_bytes_be_lem base_bytes,
          B.from_bytes_be_lem exp_bytes,
        )
        (elim (Bool-cases (n == 0)) [
          | inl z ↦
              rw z (length-replicate (length mod_bytes) 0, be_value-replicate (length mod_bytes))
          | inr z ↦
              let positive : 0 < n = ground arith in
              let padded =
                pad (power_bytes b e n) (length mod_bytes)
                  (power_bytes-short b e mod_bytes bytes positive) in
              rw z (
                padded.0,
                padded.1 ∙ (B.to_bytes_be_value (B.modpow b e n) ∙ B.modpow_lem b e n positive),
              )
        ])

  -- `k` is the position of the highest bit of `n`, and 0 for zero.
  abbrev pub IsHighestBit : ℕ → ℕ → Type 0
  IsHighestBit k n = ((n ≡ 0) × (k ≡ 0)) ⊎ ((2 ^ k ≤ n) × (n < 2 ^ (k + 1)))
