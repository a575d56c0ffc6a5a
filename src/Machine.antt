-- ===== src/Machine.antt =====
-- What the hints use of the libraries that they call and that the repository does not contain:
-- `Felt252` (starknet-types-core) and the virtual machine of cairo-vm (`VirtualMachine`, the
-- variables of a hint). Each is a record of operations with the behaviour that is documented for
-- them; the hints take it as a parameter. A `Felt252` is known by the integer that stands for it
-- (`to_biguint`), which is below `prime`.
use keth.Prelude.{
  All, reverse, ℕ, ◌+◌, ◌-◌, ◌*◌, ◌/◌, ◌%◌, ◌^◌, ◌<◌, ◌≤◌, String, ◌≡◌, Option, none, some, List,
  [], ◌∷◌, ltb, if◌then◌else◌, Relocatable, Result, ok, Action, length,
}
use keth.Prelude.Bytes.{le_value}

pub record Felt252 : Type 0 where
  pub prime : ℕ
  -- `Felt252::from` of an unsigned number
  pub from : ℕ → ℕ
  pub add : ℕ → ℕ → ℕ
  pub sub : ℕ → ℕ → ℕ
  pub mul : ℕ → ℕ → ℕ
  -- `try_into` for `usize` and `u8`
  pub try_usize : ℕ → Option ℕ
  pub try_u8 : ℕ → Option ℕ
  pub to_bytes_le : ℕ → List ℕ
  pub to_bytes_be : ℕ → List ℕ
  -- the four `u64` limbs, the lowest first; and the number that 32 bytes stand for
  pub to_le_digits : ℕ → List ℕ
  pub from_bytes_le_slice : List ℕ → ℕ
  -- quotient and remainder
  pub div_rem : ℕ → ℕ → ℕ × ℕ
  pub prime_lem : prime ≡ 2 ^ 251 + 17 * 2 ^ 192 + 1
  pub from_lem : (n : ℕ) → from n ≡ n % prime
  pub add_lem : (a b : ℕ) → add a b ≡ (a + b) % prime
  pub sub_lem : (a b : ℕ) → a < prime → b < prime → sub a b ≡ (a + prime - b) % prime
  pub mul_lem : (a b : ℕ) → mul a b ≡ a * b % prime
  pub to_le_digits_lem :
      (a : ℕ)
      → a < prime
      → to_le_digits a
        ≡ a % 2 ^ 64 ∷ a / 2 ^ 64 % 2 ^ 64 ∷ a / 2 ^ 128 % 2 ^ 64 ∷ a / 2 ^ 192 % 2 ^ 64 ∷ []
  pub from_bytes_le_slice_lem : (bs : List ℕ) → from_bytes_le_slice bs ≡ le_value bs % prime
  pub div_rem_lem : (a b : ℕ) → 0 < b → div_rem a b ≡ (a / b, a % b)
  pub try_usize_lem : (a : ℕ) → try_usize a ≡ (if ltb a (2 ^ 64) then some a else none)
  pub try_u8_lem : (a : ℕ) → try_u8 a ≡ (if ltb a 256 then some a else none)
  pub length-to_bytes_le : (a : ℕ) → length (to_bytes_le a) ≡ 32
  pub to_bytes_le-bytes : (a : ℕ) → All (λ b. b < 256) (to_bytes_le a)
  pub le_value-to_bytes_le : (a : ℕ) → a < prime → le_value (to_bytes_le a) ≡ a
  pub to_bytes_be_lem : (a : ℕ) → to_bytes_be a ≡ reverse (to_bytes_le a)

-- `MaybeRelocatable`: what a memory cell holds.
pub data Value : Type 0 where
  int : ℕ → Value
  relocatable : Relocatable → Value

-- `S` is the type of `VirtualMachine`, and `Ids` that of the pair of `ids_data` and `ap_tracking`,
-- which the hints only hand on.
pub record Machine (S Ids : Type 0) : Type 0 where
  -- arithmetic on addresses
  pub add_usize : Relocatable → ℕ → Result Relocatable
  pub sub_usize : Relocatable → ℕ → Result Relocatable
  pub sub_ptr : Relocatable → Relocatable → Result ℕ
  -- registers
  pub get_ap : S → Relocatable
  pub get_fp : S → Relocatable
  -- memory
  pub get_maybe : S → Relocatable → Option Value
  pub get_integer : S → Relocatable → Result ℕ
  pub get_relocatable : S → Relocatable → Result Relocatable
  pub insert_value : Relocatable → Value → Action S (Unit {0})
  pub add_memory_segment : S → Relocatable × S
  pub write_arg : Relocatable → List Value → Action S (Unit {0})
  -- the variables of the hint
  pub get_ptr_from_var_name : Ids → String → S → Result Relocatable
  pub get_relocatable_from_var_name : Ids → String → S → Result Relocatable
  pub get_integer_from_var_name : Ids → String → S → Result ℕ
  pub get_maybe_relocatable_from_var_name : Ids → String → S → Result Value
  pub insert_value_from_var_name : Ids → String → Value → Action S (Unit {0})
  pub insert_value_into_ap : Value → Action S (Unit {0})
  -- addition stays in the segment, and fails only past the range of `usize`
  pub add_usize_lem :
      (a : Relocatable) (n : ℕ)
      → a.offset + n < 2 ^ 64
      → add_usize a n ≡ ok (record a { offset = a.offset + n })
  -- subtraction fails only below the segment's start
  pub sub_usize_lem :
      (a : Relocatable) (n : ℕ)
      → n ≤ a.offset
      → sub_usize a n ≡ ok (record a { offset = a.offset - n })
  pub get_integer_lem :
      (s : S) (a : Relocatable) (x : ℕ) → get_maybe s a ≡ some (int x) → get_integer s a ≡ ok x
  pub get_relocatable_lem :
      (s : S) (a r : Relocatable)
      → get_maybe s a ≡ some (relocatable r)
      → get_relocatable s a ≡ ok r
  -- a new segment is written from its first cell on
  pub add_memory_segment_lem : (s : S) → (add_memory_segment s).0.offset ≡ 0
  -- a write that succeeds can be read back, and leaves every cell that is set as it is
  pub get_maybe-insert_value :
      (s s' : S) (a : Relocatable) (v : Value)
      → insert_value a v s ≡ (ok tt, s')
      → get_maybe s' a ≡ some v
  pub insert_value_keeps :
      (s s' : S) (a b : Relocatable) (v w : Value)
      → insert_value a v s ≡ (ok tt, s')
      → get_maybe s b ≡ some w
      → get_maybe s' b ≡ some w
  -- `write_arg` of a list that succeeds writes its elements to the cells in a row
  pub write_arg_nil : (s : S) (a : Relocatable) → write_arg a [] s ≡ (ok tt, s)
  pub write_arg_cons :
      (s s' : S) (a : Relocatable) (v : Value) (vs : List Value)
      → a.offset + 1 < 2 ^ 64
      → write_arg a (v ∷ vs) s ≡ (ok tt, s')
      → (mid : S) × (insert_value a v s ≡ (ok tt, mid))
        × (write_arg (record a { offset = a.offset + 1 }) vs mid ≡ (ok tt, s'))
  -- a variable is written at its address
  pub insert_value_from_var_name_lem :
      (s : S) (ids : Ids) (name : String) (a : Relocatable) (v : Value)
      → get_relocatable_from_var_name ids name s ≡ ok a
      → insert_value_from_var_name ids name v s ≡ insert_value a v s
