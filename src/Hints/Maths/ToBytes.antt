-- ===== src/Hints/Maths/ToBytes.antt =====
-- Which bytes `felt252_to_bytes_le` and `felt252_to_bytes_be` write, in each build.
use native.Mathlib.Nat.{mod-eq_of_lt, mod-lt, mod-mod, mod-le, pow-le-pow_right}
use keth.Prelude.{
  Bool-cases, inl, inr, leb→le, ℕ, ◌-◌, ◌*◌, ◌%◌, ◌^◌, ◌<◌, ◌≤◌, List, reverse, ◌≡◌, refl, sym, ap,
  ◌∙◌, arith, length, take, drop, Result, ok, err, panic, Bool, true, false, length-take, leb,
  if◌then◌else◌,
}
use keth.Prelude.Arith.{pow-pos}
use keth.Prelude.Bits.{bit_and_mask}
use keth.Prelude.Bytes.{le_value, le_value-take, pow-256, drop-reverse}
use keth.Machine.{Felt252}
use keth.HintUtils.Round.{from_small}
use keth.Hints.Maths.{felt252_bit_and, truncate_value, bytes_le, bytes_be}
use keth.Hints.Maths.And.{felt252_bit_and_lem}

module _ (F : Felt252) where
  -- A mask of `k` bits keeps the low `k` bits of the value.
  mask_lem :
      (value k : ℕ)
      → value < 2 ^ 251
      → k ≤ 250
      → felt252_bit_and F value (F.from (2 ^ k - 1)) ≡ ok (value % 2 ^ k)
  mask_lem value k small h =
      let fits : 2 ^ k ≤ 2 ^ 250 = pow-le-pow_right {n = 2} (omega arith) h in
      ap (felt252_bit_and F value) (from_small F (2 ^ k - 1) (omega arith))
      ∙ (felt252_bit_and_lem F value (2 ^ k - 1) small (omega arith) ∙ ap ok (bit_and_mask k value))

  truncate_small :
      (checks : Bool) (value len : ℕ)
      → value < 2 ^ 251
      → len ≤ 15
      → truncate_value F checks value len ≡ ok (value % 2 ^ (len * 8))
  unfolding truncate_value
  truncate_small checks value len small h =
      let bits : len * 8 % 128 ≡ len * 8 = omega arith in
      ground (arith, mask_lem value (len * 8) small (omega arith), ap (λ (t : ℕ). 2 ^ t) bits)

  truncate_release :
      (value len : ℕ)
      → value < 2 ^ 251
      → len < 32
      → truncate_value F false value len ≡ ok (value % 2 ^ (len * 8 % 128))
  unfolding truncate_value
  truncate_release value len small h =
      ground (arith, mask_lem value (len * 8 % 128) small (omega arith))

  cut-lt-prime : (value k : ℕ) → value < 2 ^ 251 → value % k < F.prime
  cut-lt-prime value k small = omega (arith, F.prime_lem, mod-le value k)

  -- The bytes of a value that was cut to `k` bits.
  taken :
      (len cut : ℕ)
      → len ≤ 32
      → cut < F.prime
      → (length (take len (F.to_bytes_le cut)) ≡ len)
        × (le_value (take len (F.to_bytes_le cut)) ≡ cut % 256 ^ len)
  taken len cut h below = (
    omega (arith, length-take len (F.to_bytes_le cut), F.length-to_bytes_le cut),
    le_value-take len (F.to_bytes_le cut) (F.to_bytes_le-bytes cut)
        ∙ ap (λ (t : ℕ). t % 256 ^ len) (F.le_value-to_bytes_le cut below),
  )

  -- Up to 15 bytes, with overflow checks or without, a value below 2 ^ 251 gives exactly `len`
  -- bytes that stand for the value modulo 256 ^ len, the lowest byte first.
  pub bytes_le_lem :
      (checks : Bool) (value len : ℕ)
      → value < 2 ^ 251
      → len ≤ 15
      → (bytes : List ℕ) × (bytes_le F checks value len ≡ ok bytes)
        × (length bytes ≡ len)
        × (le_value bytes ≡ value % 256 ^ len)
  unfolding bytes_le
  bytes_le_lem checks value len small h =
      let cut = value % 2 ^ (len * 8) in
      let below : cut < F.prime = cut-lt-prime value (2 ^ (len * 8)) small in
      let (long, stands) = taken len cut (omega arith) below in
      (
        take len (F.to_bytes_le cut),
        ground (arith, truncate_small checks value len small h),
        long,
        stands ∙ (ap (λ (t : ℕ). value % t % 256 ^ len) (pow-256 len) ∙ mod-mod value (256 ^ len)),
      )

  -- From 16 to 31 bytes, a build with overflow checks panics on every value, since the mask is
  -- shifted out of its 128 bits.
  pub bytes_le_panics : (value len : ℕ) → 16 ≤ len → len < 32 → bytes_le F true value len ≡ panic
  unfolding bytes_le truncate_value
  bytes_le_panics value len low high = ground arith

  -- From 16 to 31 bytes, a build without overflow checks gives `len` bytes which stand for the low
  -- `len * 8 - 128` bits of a value below 2 ^ 251.
  pub bytes_le_release :
      (value len : ℕ)
      → value < 2 ^ 251
      → 16 ≤ len
      → len < 32
      → (bytes : List ℕ) × (bytes_le F false value len ≡ ok bytes)
        × (length bytes ≡ len)
        × (le_value bytes ≡ value % 2 ^ (len * 8 - 128))
  unfolding bytes_le
  bytes_le_release value len small low high =
      let cut = value % 2 ^ (len * 8 % 128) in
      let kept : len * 8 % 128 ≡ len * 8 - 128 = omega arith in
      let narrower : 2 ^ (len * 8 % 128) ≤ 2 ^ (len * 8) =
        pow-le-pow_right {n = 2} (omega arith) (omega arith) in
      let (long, stands) =
        taken len cut (omega arith) (cut-lt-prime value (2 ^ (len * 8 % 128)) small) in
      (
        take len (F.to_bytes_le cut),
        ground (arith, truncate_release value len small high),
        long,
        stands
            ∙ (mod-eq_of_lt
                  (omega (arith, mod-lt value (pow-pos (len * 8 % 128)), pow-256 len, narrower))
                ∙ ap (λ (t : ℕ). value % 2 ^ t) kept),
      )

  -- From 16 to 31 bytes, on a value below 2 ^ 251, a build with overflow checks panics, since the
  -- mask is shifted out of its 128 bits, and a build without gives `len` bytes which stand for the
  -- low `len * 8 - 128` bits of the value.
  pub bytes_le_wide :
      (value len : ℕ)
      → value < 2 ^ 251
      → 16 ≤ len
      → len < 32
      → (bytes_le F true value len ≡ panic)
        × ((bytes : List ℕ) × (bytes_le F false value len ≡ ok bytes)
            × (length bytes ≡ len)
            × (le_value bytes ≡ value % 2 ^ (len * 8 - 128)))
  bytes_le_wide value len small low high =
      (bytes_le_panics value len low high, bytes_le_release value len small low high)

  reversed :
      (len cut : ℕ)
      → len ≤ 32
      → drop (32 - len) (F.to_bytes_be cut) ≡ reverse (take len (F.to_bytes_le cut))
  reversed len cut h =
      ap (drop (32 - len)) (F.to_bytes_be_lem cut)
      ∙ (ap (λ (t : ℕ). drop (t - len) (reverse (F.to_bytes_le cut)))
            (sym (F.length-to_bytes_le cut))
          ∙ drop-reverse len (F.to_bytes_le cut) (omega (arith, F.length-to_bytes_le cut)))

  abbrev pub reverse_result : Result (List ℕ) → Result (List ℕ)
  reverse_result (ok bytes) = ok (reverse bytes)
  reverse_result (err e) = err e
  reverse_result panic = panic

  result_bytes :
      (len : ℕ) (r : Result ℕ)
      → elim r as (λ _. Result (List ℕ)) [
        | ok cut ↦ if leb len 32 then ok (drop (32 - len) (F.to_bytes_be cut)) else panic
        | err e ↦ err e
        | panic ↦ panic
      ]
        ≡ reverse_result (elim r as (λ _. Result (List ℕ)) [
          | ok cut ↦ if leb len 32 then ok (take len (F.to_bytes_le cut)) else panic
          | err e ↦ err e
          | panic ↦ panic
        ])
  result_bytes len (ok cut) = elim (Bool-cases (leb len 32)) [
    | inl e ↦ rw e (ap ok (reversed len cut (leb→le len 32 e)))
    | inr e ↦ rw e
  ]
  result_bytes len (err e) = refl
  result_bytes len panic = refl

  -- On every input the big-endian bytes are the little-endian ones reversed, and the conversions
  -- fail alike.
  pub bytes_be-eq-reverse :
      (checks : Bool) (value len : ℕ)
      → bytes_be F checks value len ≡ reverse_result (bytes_le F checks value len)
  unfolding bytes_le bytes_be
  bytes_be-eq-reverse checks value len = result_bytes len (truncate_value F checks value len)
