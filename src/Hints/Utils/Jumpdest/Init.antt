-- ===== src/Hints/Utils/Jumpdest/Init.antt =====
-- The dictionary that `initialize_jumpdests` sets up.
use native.Mathlib.Nat.{mod-eq_of_lt}
use keth.Prelude.{
  ℕ, ◌<◌, ◌≡◌, refl, sym, ◌∙◌, arith, inl, inr, some, none, List, [], ◌∷◌, map, length, In, ok,
  Relocatable, All,
}
use keth.Machine.{Felt252, Machine, int, relocatable}
use keth.Dicts.{DictKey, compound, Dicts, DictManager, World, find, set_tracker}
use keth.Dicts.Lookup.{lookup}
use keth.HintUtils.Sequence.{serialize_sequence}
use keth.Hints.Ethereum.{bytes_of}
use keth.Hints.Utils.Jumpdest.{jumpdest_entry, get_valid_jump_destinations, initialize_jumpdests}
use keth.Hints.Utils.Jumpdest.Scan.{IsJumpdest, get_valid_jump_destinations_iff}

-- The key of a position in the code.
abbrev pub position_key : ℕ → DictKey
position_key p = compound (int p ∷ [])

module _ (F : Felt252) where
  find_dest :
      (p : ℕ) (dests : List ℕ)
      → All (λ d. d < F.prime) dests
      → In p dests
      → find (position_key p) (map (jumpdest_entry F) dests) ≡ some (int 1)
  find_dest p [] felts h = absurd h
  find_dest p (d ∷ dests) felts (inl e) =
      let same : F.from d ≡ p = F.from_lem d ∙ (mod-eq_of_lt felts.0 ∙ sym e) in ground arith
  find_dest p (d ∷ dests) felts (inr h) = ground (arith, find_dest p dests felts.1 h)

  find_other :
      (p : ℕ) (dests : List ℕ)
      → All (λ d. d < F.prime) dests
      → ¬ In p dests
      → find (position_key p) (map (jumpdest_entry F) dests) ≡ none
  find_other p [] felts h = refl
  find_other p (d ∷ dests) felts h =
      let same : F.from d ≡ d = F.from_lem d ∙ mod-eq_of_lt felts.0 in
      let ne : ¬ (d ≡ p) = λ e. h (inl (sym e)) in
      ground (arith, find_other p dests felts.1 (λ i. h (inr i)), ne)

  All-of_In : (dests : List ℕ) → ((p : ℕ) → In p dests → p < F.prime) → All (λ d. d < F.prime) dests
  All-of_In [] h = tt
  All-of_In (d ∷ dests) h = (h d (inl refl), All-of_In dests (λ p i. h p (inr i)))

module _ {S Ids D : Type 0} (F : Felt252) (m : Machine S Ids) (dicts : Dicts S D) (ids : Ids) where
  -- For code that is read from memory, of fewer bytes than the prime, if the new segment has no
  -- tracker and its pointer can be written to the cell at `ap`: the hint succeeds, writes the
  -- pointer there, and sets up a tracker at the new segment, which answers 1 at the valid jump
  -- destinations of the code and 0 at every other position; the other trackers stay.
  pub initialize_jumpdests_lem :
      (w : World S D) (g : DictManager D) (values code : List ℕ) (base : Relocatable) (t u : S)
      → serialize_sequence F m ids "bytecode" w.vm ≡ (ok values, w.vm)
      → bytes_of F values ≡ ok code
      → length code < F.prime
      → m.add_memory_segment w.vm ≡ (base, t)
      → w.dict_manager ≡ some g
      → g.trackers base.segment_index ≡ none
      → m.insert_value_into_ap (relocatable base) t ≡ (ok tt, u)
      → (dict : D) × (initialize_jumpdests F m dicts ids w ≡ (
        ok tt,
        record {
          vm = u;
          dict_manager =
              some (set_tracker g base.segment_index (record { current_ptr = base; dict = dict }));
        },
      ))
        × ((p : ℕ) → IsJumpdest code p → lookup dicts dict (position_key p) ≡ some (int 1))
        × ((p : ℕ) → ¬ IsJumpdest code p → lookup dicts dict (position_key p) ≡ some (int 0))
  unfolding initialize_jumpdests
  initialize_jumpdests_lem w g values code base t u read bytes short fresh manager free written =
      let dests = get_valid_jump_destinations code in
      let entries = map (jumpdest_entry F) dests in
      let felts : All (λ d. d < F.prime) dests =
        All-of_In F dests (λ p i. below p ((get_valid_jump_destinations_iff code p).0 i)) in
      (
        dicts.default_dict (int 0) entries,
        ground arith,
        λ p valid. ground (
          arith,
          dicts.find-default_dict (position_key p) (int 0) entries,
          find_dest F p dests felts ((get_valid_jump_destinations_iff code p).1 valid),
        ),
        λ p invalid. ground (
          arith,
          dicts.find-default_dict (position_key p) (int 0) entries,
          dicts.default_value-default_dict (int 0) entries,
          find_other F p dests felts (λ i. invalid ((get_valid_jump_destinations_iff code p).0 i)),
        ),
      )
    where
      below : (p : ℕ) → IsJumpdest code p → p < F.prime
      below p valid = omega (arith, valid.1)
