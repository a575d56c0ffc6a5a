-- ===== src/Hints/Utils/Jumpdest/Scan.antt =====
-- What the scan of the bytecode finds: the JUMPDEST bytes at which an instruction begins.
use keth.Prelude.{
  ◌⊎◌, ◌-◌, leb, ◌&&◌, In, In-append, In-append_left, In-append_right, true, false, ℕ, zero, suc,
  ◌+◌, ◌≤◌, ◌<◌, List, [], ◌∷◌, ◌++◌, ◌≡◌, refl, inl, inr, ◌↔◌, arith, Bool-cases, ==_iff, ltb→lt,
  lt→ltb, if◌then◌else◌, length, get_or, ltb, ◌==◌, ap, sym, ◌∙◌,
}
use mathlib.Core.Path.{subst}
use keth.Hints.Utils.Jumpdest.{advance_by, scan, get_valid_jump_destinations}

-- An instruction of `n` bytes: the opcodes from 0x60 to 0x7f push from 1 to 32 bytes, which
-- follow; every other opcode is one byte.
abbrev pub HasSize : ℕ → ℕ → Type 0
HasSize op n =
    ((n ≡ 1) × ((op < 0x60) ⊎ (0x7f < op)))
    ⊎ ((k : ℕ) × (1 ≤ k) × (k ≤ 32) × (op ≡ 0x5f + k) × (n ≡ 1 + k))

-- An instruction begins at position 0, and behind each instruction inside the code.
pub data BeginsAt (code : List ℕ) : ℕ → Type 0 where
  first : BeginsAt code 0
  after :
      (i n : ℕ)
      → BeginsAt code i
      → i < length code
      → HasSize (get_or code i 0) n
      → BeginsAt code (i + n)

-- A valid jump destination: a JUMPDEST byte inside the code, where an instruction begins.
abbrev pub IsJumpdest : List ℕ → ℕ → Type 0
IsJumpdest code p = BeginsAt code p × (p < length code) × (get_or code p 0 ≡ 0x5b)

-- From instruction boundary `i` of the code, the boundary `p` is reached.
pub data Reach (code : List ℕ) (p : ℕ) : ℕ → Type 0 where
  here : (i : ℕ) → i ≡ p → Reach code p i
  next :
      (i : ℕ) → i < length code → Reach code p (i + advance_by (get_or code i 0)) → Reach code p i

-- The same in the steps that the scan takes.
abbrev IsFound : List ℕ → ℕ → Type 0
IsFound code p = Reach code p 0 × (p < length code) × (get_or code p 0 ≡ 0x5b)

-- Boundaries compose.
pub Reach-trans :
    {code : List ℕ} {p q : ℕ} (i : ℕ) → Reach code p i → Reach code q p → Reach code q i
Reach-trans {code} {q} i (here _ e) r = subst (Reach code q) (sym e) r
Reach-trans i (next _ lt rest) r = next i lt (Reach-trans _ rest r)

-- A boundary is reached from below.
pub Reach-le : {code : List ℕ} {p : ℕ} (i : ℕ) → Reach code p i → i ≤ p
Reach-le i (here _ e) = omega arith
Reach-le i (next _ lt rest) = omega (arith, Reach-le _ rest)

pub advance_by-pos : (op : ℕ) → 1 ≤ advance_by op
unfolding advance_by
advance_by-pos op = ground arith

HasSize-advance_by : (op : ℕ) → HasSize op (advance_by op)
unfolding advance_by
HasSize-advance_by op = elim (Bool-cases (leb 0x60 op && leb op 0x7f)) [
  | inl push ↦ inr (op - 0x5f, ground arith, ground arith, ground arith, ground arith)
  | inr other ↦ inl (ground arith, ground arith)
]

HasSize-eq : (op n : ℕ) → HasSize op n → n ≡ advance_by op
unfolding advance_by
HasSize-eq op n (inl (one, other)) = ground arith
HasSize-eq op n (inr (k, low, high, push, size)) = ground arith

BeginsAt-Reach : (code : List ℕ) (p : ℕ) → BeginsAt code p → Reach code p 0
BeginsAt-Reach code p first = here 0 refl
BeginsAt-Reach code p (after i n begins inside size) =
    Reach-trans 0 (BeginsAt-Reach code i begins)
      (next i inside (here _ (ap (λ (t : ℕ). i + t) (sym (HasSize-eq _ n size)))))

pub Reach-BeginsAt : (code : List ℕ) (p i : ℕ) → BeginsAt code i → Reach code p i → BeginsAt code p
Reach-BeginsAt code p i begins (here _ e) = subst (BeginsAt code) e begins
Reach-BeginsAt code p i begins (next _ inside rest) =
    Reach-BeginsAt code p _ (after i _ begins inside (HasSize-advance_by (get_or code i 0))) rest

-- A JUMPDEST byte is no PUSH: the scan moves on by one.
advance_by-jumpdest : advance_by 0x5b ≡ 1
unfolding advance_by
advance_by-jumpdest = refl

module _ (code : List ℕ) where
  -- What one round does: with fuel left, inside the code.
  pub scan-suc :
      (fuel i : ℕ) (found : List ℕ)
      → i < length code
      → scan code (suc fuel) i found
        ≡ scan code fuel
            (i + advance_by (get_or code i 0))
            (if get_or code i 0 == 0x5b then found ++ (i ∷ []) else found)
  unfolding scan
  scan-suc fuel i found h = elim (Bool-cases (get_or code i 0 == 0x5b)) [
    | inl e ↦ rw (
      lt→ltb i (length code) h,
      e,
      ap advance_by ((==_iff (get_or code i 0) 0x5b).0 e) ∙ advance_by-jumpdest,
    )
    | inr e ↦ rw (lt→ltb i (length code) h, e)
  ]

  abbrev pub collect : ℕ → List ℕ → List ℕ
  collect i found = if get_or code i 0 == 0x5b then found ++ (i ∷ []) else found

  pub scan_end : (fuel i : ℕ) (found : List ℕ) → length code ≤ i → scan code fuel i found ≡ found
  unfolding scan
  scan_end zero i found h = refl
  scan_end (suc fuel) i found h = ground arith

  -- What is collected stays collected.
  scan_keeps : (fuel i p : ℕ) (found : List ℕ) → In p found → In p (scan code fuel i found)
  scan_keeps zero i p found h = unfold scan in h
  scan_keeps (suc fuel) i p found h = elim (Bool-cases (ltb i (length code))) [
    | inl inside ↦ rw (scan-suc fuel i found (ltb→lt _ _ inside)) (
        scan_keeps fuel (i + advance_by (get_or code i 0)) p (collect i found)
          (elim (get_or code i 0 == 0x5b) as (λ b. In p (if b then found ++ (i ∷ []) else found)) [
            | true ↦ In-append_left p found (i ∷ []) h
            | false ↦ h
          ]))
    | inr outside ↦ rw (scan_end (suc fuel) i found (ground arith)) h
  ]

  collect-IsFound :
      (i p : ℕ) (found : List ℕ)
      → i < length code
      → Reach code i 0
      → (In p found → IsFound code p)
      → In p (collect i found)
      → IsFound code p
  collect-IsFound i p found inside reached old h = elim (Bool-cases (get_or code i 0 == 0x5b)) [
    | inl e ↦ elim (In-append p found (i ∷ []) (rw e at h)) [
      | inl before ↦ old before
      | inr now ↦ elim now [
        | inl same ↦ rw same (reached, inside, (==_iff (get_or code i 0) 0x5b).0 e)
        | inr none ↦ absurd none
      ]
    ]
    | inr e ↦ old (rw e at h)
  ]

  scan-IsFound :
      (fuel i p : ℕ) (found : List ℕ)
      → Reach code i 0
      → (In p found → IsFound code p)
      → In p (scan code fuel i found)
      → IsFound code p
  scan-IsFound zero i p found reached old h = old (unfold scan in h)
  scan-IsFound (suc fuel) i p found reached old h = elim (Bool-cases (ltb i (length code))) [
    | inl inside ↦
        let lt : i < length code = ltb→lt _ _ inside in
        scan-IsFound fuel (i + advance_by (get_or code i 0)) p (collect i found)
          (Reach-trans 0 reached (next i lt (here _ refl)))
          (collect-IsFound i p found lt reached old) (rw (scan-suc fuel i found lt) at h)
    | inr outside ↦ old (rw (scan_end (suc fuel) i found (ground arith)) at h)
  ]

  scan_finds :
      (fuel i p : ℕ) (found : List ℕ)
      → length code ≤ i + fuel
      → Reach code p i
      → p < length code
      → get_or code p 0 ≡ 0x5b
      → In p (scan code fuel i found)
  scan_finds zero i p found enough rest inside op = absurd (omega (arith, Reach-le i rest))
  scan_finds (suc fuel) i p found enough (here _ e) inside op =
      let lt : i < length code = omega arith in
      let op_here : get_or code i 0 ≡ 0x5b = ap (λ (t : ℕ). get_or code t 0) e ∙ op in
      rw (scan-suc fuel i found lt) (
        scan_keeps fuel (i + advance_by (get_or code i 0)) p (collect i found) (
          rw ((==_iff (get_or code i 0) 0x5b).1 op_here)
            (In-append_right p found (i ∷ []) (inl (sym e)))))
  scan_finds (suc fuel) i p found enough (next _ lt rest) inside op =
      rw (scan-suc fuel i found lt) (
        scan_finds fuel (i + advance_by (get_or code i 0)) p (collect i found)
          (omega (arith, advance_by-pos (get_or code i 0))) rest inside op)

-- For every code and position: the scan returns the position exactly if it is inside the code,
-- holds the byte JUMPDEST, and an instruction begins there, counting from position 0 and past the
-- data of each PUSH.
pub get_valid_jump_destinations_iff :
    (code : List ℕ) (p : ℕ) → In p (get_valid_jump_destinations code) ↔ IsJumpdest code p
unfolding get_valid_jump_destinations
get_valid_jump_destinations_iff code p = (
  λ h.
      let (reached, inside, op) =
        scan-IsFound code (length code) 0 p [] (here 0 refl) (λ none. absurd none) h in
      (Reach-BeginsAt code p 0 first reached, inside, op),
  λ h. scan_finds code (length code) 0 p [] (omega arith) (BeginsAt-Reach code p h.0) h.1 h.2,
)
