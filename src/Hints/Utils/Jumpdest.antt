-- ===== src/Hints/Utils/Jumpdest.antt =====
-- The part of hint_definitions/utils.rs on jump destinations: the scan of the bytecode, the test
-- on the 32 bytes before a destination, and the hints on top of them.
pub mod Scan
pub mod Fuel
pub mod Push
pub mod Init
use keth.Prelude.{
  ℕ, zero, suc, ◌+◌, ◌-◌, List, [], ◌∷◌, ◌++◌, map, reverse, Option, some, none, Bool, true, false,
  not, ◌&&◌, ◌||◌, ◌==◌, leb, ltb, if◌then◌else◌, from_bool, Result, ok, err, panic, Action, lift,
  reads, unwrap, ok_or, ◌>>=◌, ◌>>◌, custom_hint, felt_to_usize, take, drop, get_or, length, min,
  Relocatable,
}
use keth.Machine.{Felt252, Machine, Value, int, relocatable}
use keth.HintUtils.Sequence.{serialize_sequence}
use keth.Hints.Ethereum.{bytes_of}
use keth.Dicts.{
  Dicts, DictKey, compound, DictManager, DictTracker, World, in_vm, get_dict_manager,
  set_dict_manager, set_tracker,
}

-- How far the scan moves on from an instruction: past the data of a PUSH.
unfoldable pub advance_by : ℕ → ℕ
advance_by op = if leb 0x60 op && leb op 0x7f then op - 0x60 + 1 + 1 else 1

-- The loop: each round moves on by at least one byte, so `fuel` rounds are enough for `fuel` bytes.
unfoldable pub scan : List ℕ → ℕ → ℕ → List ℕ → List ℕ
unfolding advance_by
scan code zero i valid_jumpdest = valid_jumpdest
scan code (suc fuel) i valid_jumpdest =
    let op = get_or code i 0 in
    let at_dest = scan code fuel (i + 1) (valid_jumpdest ++ (i ∷ [])) in
    let after = scan code fuel (i + advance_by op) valid_jumpdest in
    if ltb i (length code) then (if op == 0x5b then at_dest else after) else valid_jumpdest

unfoldable pub get_valid_jump_destinations : List ℕ → List ℕ
unfolding scan
get_valid_jump_destinations code = scan code (length code) 0 []

-- Whether a byte, from index `i` on, is a PUSH that reaches over the destination. The sum
-- `0x60 + i as u8` is at most 0x7f, since there are at most 32 bytes.
unfoldable pub any_push : ℕ → List ℕ → Bool
any_push i [] = false
any_push i (byte ∷ rest) = (leb (0x60 + i) byte && leb byte 0x7f) || any_push (i + 1) rest

-- `is_no_push_case`, for the key of a destination; slicing past the end panics.
unfoldable pub is_no_push_case : List ℕ → ℕ → Result Bool
unfolding any_push
is_no_push_case bytecode key =
    let max_len = min key 32 in
    if leb key (length bytecode)
    then ok (not (any_push 0 (reverse (take max_len (drop (key - max_len) bytecode)))))
    else panic

module _ {S Ids : Type 0} (F : Felt252) (m : Machine S Ids) (ids : Ids) where
  unfoldable pub jumpdest_check_push_last_32_bytes : Action S (Unit {0})
  unfolding serialize_sequence bytes_of is_no_push_case
  jumpdest_check_push_last_32_bytes = do
    values ← serialize_sequence F m ids "bytecode"
    bytecode ← lift (bytes_of F values)
    valid_jumpdest_addr ← reads (m.get_ptr_from_var_name ids "valid_jumpdest")
    key_felt ← reads (λ vm. m.get_integer vm valid_jumpdest_addr)
    valid_jumpdest_key ← lift (unwrap (ok_or (F.try_usize key_felt) (felt_to_usize key_felt)))
    no_push ← lift (is_no_push_case bytecode valid_jumpdest_key)
    m.insert_value_from_var_name ids "is_no_push_case" (int (from_bool no_push))

  unfoldable pub jumpdest_continue_general_case : Action S (Unit {0})
  jumpdest_continue_general_case = do
    i ← reads (m.get_integer_from_var_name ids "i")
    valid_jumpdest_addr ← reads (m.get_ptr_from_var_name ids "valid_jumpdest")
    valid_jumpdest_key ← reads (λ vm. m.get_integer vm valid_jumpdest_addr)
    m.insert_value_from_var_name ids "cond" (int (if ltb i valid_jumpdest_key then 1 else 0))

  unfoldable pub jumpdest_continue_no_push_case : Action S (Unit {0})
  jumpdest_continue_no_push_case = do
    offset ← reads (m.get_integer_from_var_name ids "offset")
    valid_jumpdest_addr ← reads (m.get_ptr_from_var_name ids "valid_jumpdest")
    valid_jumpdest_key ← reads (λ vm. m.get_integer vm valid_jumpdest_addr)
    m.insert_value_from_var_name ids "cond"
        (int (if ltb (F.from 32) offset || ltb valid_jumpdest_key offset then 0 else 1))

-- The entry of a valid destination in the new dictionary.
abbrev pub jumpdest_entry : Felt252 → ℕ → DictKey × Value
jumpdest_entry F dest = (compound (int (F.from dest) ∷ []), int 1)

module _ {S Ids D : Type 0} (F : Felt252) (m : Machine S Ids) (dicts : Dicts S D) (ids : Ids) where
  unfoldable pub initialize_jumpdests : Action (World S D) (Unit {0})
  initialize_jumpdests = do
    values ← in_vm (serialize_sequence F m ids "bytecode")
    bytecode ← in_vm (lift (bytes_of F values))
    let entries = map (jumpdest_entry F) (get_valid_jump_destinations bytecode)
    base ← in_vm (λ vm. let (b, vm') = m.add_memory_segment vm in (ok b, vm'))
    dict_manager ← get_dict_manager dicts
    elim (dict_manager.trackers base.segment_index) [
      | some _ ↦ lift (err (custom_hint "Segment already exists in dict_manager.trackers"))
      | none ↦
          set_dict_manager (
            set_tracker dict_manager base.segment_index
              (record { current_ptr = base; dict = dicts.default_dict (int 0) entries }))
          >> in_vm (m.insert_value_into_ap (relocatable base))
    ]
