-- ===== src/HintUtils/Sequence.antt =====
-- Sequences of felts in memory: a cell with the pointer to the data, then a cell with the length.
-- Also the writes of results and collections.
use keth.Prelude.{
  ℕ, zero, suc, ◌+◌, String, List, [], ◌∷◌, map, ◌==◌, if◌then◌else◌, Relocatable, ok, err, panic,
  Action, pure, lift, reads, unwrap, map_err, ok_or, ◌>>=◌, ◌>>◌, length, custom_hint,
  felt_to_usize,
}
use keth.Machine.{Felt252, Machine, int, relocatable}

module _ {S Ids : Type 0} (F : Felt252) (m : Machine S Ids) (ids : Ids) where
  -- `(0..len).map(|i| vm.get_integer(data + i)).collect()`, from index `i` on
  unfoldable pub read_integers : Relocatable → ℕ → ℕ → Action S (List ℕ)
  read_integers start i zero = pure []
  read_integers start i (suc left) = do
    value_addr ← lift (m.add_usize start i)
    value ← reads (λ vm. m.get_integer vm value_addr)
    rest ← read_integers start (i + 1) left
    pure (value ∷ rest)

  unfoldable pub serialize_sequence : String → Action S (List ℕ)
  serialize_sequence name = do
    ptr ← reads (m.get_ptr_from_var_name ids name)
    len_addr ← lift (m.add_usize ptr 1)
    len_felt ← reads (λ vm. m.get_integer vm len_addr)
    len ← lift (ok_or (F.try_usize len_felt) (felt_to_usize len_felt))
    if len == 0 then pure [] else do
      start ← reads (λ vm. m.get_relocatable vm ptr)
      values ← λ vm. (ok (read_integers start 0 len vm).0, vm)
      lift (map_err values (custom_hint "Could not serialize sequence"))

  -- The elements are the integers that their `Felt252` stands for.
  unfoldable pub deserialize_sequence : List ℕ → Action S Relocatable
  deserialize_sequence sequence = do
    base ← λ vm. let (b, vm') = m.add_memory_segment vm in (ok b, vm')
    data_ptr ← λ vm. let (b, vm') = m.add_memory_segment vm in (ok b, vm')
    m.write_arg data_ptr (map (λ value. int (F.from value)) sequence)
    m.write_arg base (relocatable data_ptr ∷ int (F.from (length sequence)) ∷ [])
    pure base

  unfoldable pub write_result_to_ap : ℕ → ℕ → Action S (Unit {0})
  write_result_to_ap result ap_offset = do
    addr ← reads (λ vm. unwrap (m.sub_usize (m.get_ap vm) ap_offset))
    m.insert_value addr (int (F.from result))

  unfoldable pub write_collection_to_addr : Relocatable → List ℕ → Action S (Unit {0})
  write_collection_to_addr addr collection = m.write_arg addr (map (λ x. int (F.from x)) collection)

  -- The pointer that the variable holds, or the variable's own address.
  unfoldable pub write_collection_from_var_name : String → List ℕ → Action S (Unit {0})
  unfolding write_collection_to_addr
  write_collection_from_var_name var_name collection = do
    addr ← λ vm. elim (m.get_ptr_from_var_name ids var_name vm) [
      | ok addr ↦ (ok addr, vm)
      | err _ ↦ (m.get_relocatable_from_var_name ids var_name vm, vm)
      | panic ↦ (panic, vm)
    ]
    write_collection_to_addr addr collection
