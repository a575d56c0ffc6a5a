-- ===== src/Hints/Ethereum.antt =====
-- hint_definitions/ethereum.rs: nibbles of trie keys.
use keth.Prelude.{
  ℕ, ◌/◌, ◌%◌, List, [], ◌∷◌, some, none, Result, ok, panic, Action, lift, ◌>>=◌, ◌≡◌,
}
use keth.Machine.{Felt252, Machine, int, relocatable}
use keth.HintUtils.Sequence.{serialize_sequence, deserialize_sequence}

-- The two functions of the crate `nybbles` that the hints call.
pub record Nybbles : Type 0 where
  pub common_prefix_length : List ℕ → List ℕ → ℕ
  pub unpack : List ℕ → List ℕ
  -- the high and the low nibble of each byte
  pub unpack_nil : unpack [] ≡ []
  pub unpack_cons : (b : ℕ) (bs : List ℕ) → unpack (b ∷ bs) ≡ b / 16 ∷ b % 16 ∷ unpack bs

-- `.map(|b| b.try_into().unwrap()).collect::<Vec<u8>>()`
unfoldable pub bytes_of : Felt252 → List ℕ → Result (List ℕ)
bytes_of F [] = ok []
bytes_of F (b ∷ bs) =
    let rest = bytes_of F bs in
    elim (F.try_u8 b) [ none ↦ panic | some byte ↦ elim rest [ ok r ↦ ok (byte ∷ r) | _ ↦ panic ] ]

module _ {S Ids : Type 0} (F : Felt252) (m : Machine S Ids) (nybbles : Nybbles) (ids : Ids) where
  unfoldable pub common_prefix_length_hint : Action S (Unit {0})
  unfolding serialize_sequence bytes_of
  common_prefix_length_hint = do
    a ← serialize_sequence F m ids "a"
    a_bytes ← lift (bytes_of F a)
    b ← serialize_sequence F m ids "b"
    b_bytes ← lift (bytes_of F b)
    m.insert_value_from_var_name ids "result"
        (int (F.from (nybbles.common_prefix_length a_bytes b_bytes)))

  unfoldable pub bytes_to_nibble_list_hint : Action S (Unit {0})
  unfolding serialize_sequence deserialize_sequence bytes_of
  bytes_to_nibble_list_hint = do
    values ← serialize_sequence F m ids "bytes_"
    bytes_ ← lift (bytes_of F values)
    base ← deserialize_sequence F m ids (nybbles.unpack bytes_)
    m.insert_value_from_var_name ids "result" (relocatable base)
