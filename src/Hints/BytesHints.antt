-- ===== src/Hints/BytesHints.antt =====
-- hint_definitions/bytes_hints.rs: how many bytes of a sequence are left, in groups of eight.
use keth.Prelude.{ℕ, Bool, ltb, leb, from_bool, Action, lift, reads, ◌>>=◌}
use keth.Prelude.Words.{mul_usize}
use keth.Machine.{Felt252, Machine, int}

-- `remaining_bytes_len`, a difference of felts
unfoldable pub remaining_bytes_len : Felt252 → ℕ → ℕ → ℕ
remaining_bytes_len F bytes_len processed_bytes_len = F.sub bytes_len (F.from processed_bytes_len)

module _ {S Ids : Type 0} (F : Felt252) (m : Machine S Ids) (ids : Ids) where
  unfoldable pub bytes_len_less_than_8 : Action S (Unit {0})
  bytes_len_less_than_8 = do
    bytes_len ← reads (m.get_integer_from_var_name ids "bytes_len")
    m.insert_value_from_var_name ids "less_than_8" (int (from_bool (ltb bytes_len (F.from 8))))

module _ {S Ids : Type 0} (F : Felt252) (m : Machine S Ids) (overflow_checks : Bool)
    (ids : Ids) where
  unfoldable pub remaining_bytes_greater_than_8 : Action S (Unit {0})
  unfolding remaining_bytes_len
  remaining_bytes_greater_than_8 = do
    bytes_len ← reads (m.get_integer_from_var_name ids "bytes_len")
    bytes8 ← reads (m.get_ptr_from_var_name ids "bytes8")
    dst_addr ← reads (λ vm. m.sub_usize (m.get_fp vm) 5)
    dst ← reads (λ vm. m.get_relocatable vm dst_addr)
    written ← lift (m.sub_ptr bytes8 dst)
    processed_bytes_len ← lift (mul_usize overflow_checks written 8)
    m.insert_value_from_var_name ids "continue_loop"
        (int (from_bool (leb (F.from 8) (remaining_bytes_len F bytes_len processed_bytes_len))))

  unfoldable pub remaining_bytes_jmp_offset : Action S (Unit {0})
  unfolding remaining_bytes_len
  remaining_bytes_jmp_offset = do
    bytes_len ← reads (m.get_integer_from_var_name ids "bytes_len")
    bytes8 ← reads (m.get_ptr_from_var_name ids "bytes8")
    dst_addr ← reads (λ vm. m.sub_usize (m.get_fp vm) 5)
    dst ← reads (λ vm. m.get_relocatable vm dst_addr)
    written ← lift (m.sub_ptr bytes8 dst)
    processed_bytes_len ← lift (mul_usize overflow_checks written 8)
    m.insert_value_from_var_name ids "remaining_offset"
        (int (F.add (F.mul (remaining_bytes_len F bytes_len processed_bytes_len) (F.from 2)) 1))
