-- ===== src/Hints/Utils/Jumpdest/Fuel.antt =====
-- The loop of `get_valid_jump_destinations`: how many rounds it takes.
use keth.Prelude.{
  ℕ, zero, suc, ◌+◌, ◌≤◌, List, [], ◌≡◌, sym, ◌∙◌, arith, Bool-cases, inl, inr, ltb, ltb→lt, length,
  get_or, length-append, ◌∷◌, ◌==◌,
}
use keth.Hints.Utils.Jumpdest.{advance_by, scan, get_valid_jump_destinations}
use keth.Hints.Utils.Jumpdest.Scan.{scan-suc, scan_end, collect, advance_by-pos}

module _ (code : List ℕ) where
  -- From a position, any two amounts of rounds that reach the end give the same.
  scan_fuel :
      (fuel more i : ℕ) (found : List ℕ)
      → length code ≤ i + fuel
      → length code ≤ i + more
      → scan code fuel i found ≡ scan code more i found
  scan_fuel zero more i found enough enough' =
      scan_end code zero i found (omega arith) ∙ sym (scan_end code more i found (omega arith))
  scan_fuel (suc fuel) zero i found enough enough' =
      scan_end code (suc fuel) i found (omega arith)
      ∙ sym (scan_end code zero i found (omega arith))
  scan_fuel (suc fuel) (suc more) i found enough enough' = elim (Bool-cases (ltb i (length code))) [
    | inl inside ↦
        let lt = ltb→lt i (length code) inside in
        let rest =
          scan_fuel fuel more (i + advance_by (get_or code i 0)) (collect code i found)
            (omega (arith, advance_by-pos (get_or code i 0)))
            (omega (arith, advance_by-pos (get_or code i 0))) in
        scan-suc code fuel i found lt ∙ rest ∙ sym (scan-suc code more i found lt)
    | inr outside ↦
        scan_end code (suc fuel) i found (ground arith)
        ∙ sym (scan_end code (suc more) i found (ground arith))
  ]

  length-collect : (i : ℕ) (found : List ℕ) → length (collect code i found) ≤ length found + 1
  length-collect i found = elim (Bool-cases (get_or code i 0 == 0x5b)) [
    | inl e ↦ rw e (omega (arith, length-append found (i ∷ [])))
    | inr e ↦ rw e (omega arith)
  ]

  -- Each round collects at most one position.
  length-scan :
      (fuel i : ℕ) (found : List ℕ) → length (scan code fuel i found) ≤ length found + fuel
  unfolding scan
  length-scan zero i found = omega arith
  length-scan (suc fuel) i found = elim (Bool-cases (ltb i (length code))) [
    | inl inside ↦ rw (scan-suc code fuel i found (ltb→lt _ _ inside)) (
        omega (
          arith,
          length-scan fuel (i + advance_by (get_or code i 0)) (collect code i found),
          length-collect i found,
        ))
    | inr outside ↦ rw (scan_end code (suc fuel) i found (ground arith)) (omega arith)
  ]

-- The scan of a code ends within as many rounds as the code has bytes: more rounds give the same
-- positions, and there are at most as many as bytes.
pub scan_enough_fuel :
    (code : List ℕ) (fuel : ℕ)
    → length code ≤ fuel
    → (scan code fuel 0 [] ≡ get_valid_jump_destinations code)
      × (length (scan code fuel 0 []) ≤ length code)
unfolding get_valid_jump_destinations
scan_enough_fuel code fuel enough =
    let same = scan_fuel code fuel (length code) 0 [] (omega arith) (omega arith) in
    (same, rw same (omega (arith, length-scan code (length code) 0 [])))
