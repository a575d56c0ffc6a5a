-- ===== src/HintUtils/Uint256.antt =====
-- The struct `Uint256`: a low and a high half of 128 bits.
pub mod Round
use keth.Prelude.{
  ℕ, ◌+◌, ◌-◌, ◌*◌, ◌/◌, ◌^◌, bit_and, String, Relocatable, Result, ok, err, panic, Action, pure,
  lift, reads, map_err, ◌>>=◌, ◌>>◌, identifier_has_no_member,
}
use keth.Machine.{Felt252, Machine, int}

pub record Uint256 : Type 0 where
  pub low : ℕ
  pub high : ℕ

unfoldable pub pack : Uint256 → ℕ
pack self = self.high * 2 ^ 128 + self.low

-- The mask is `u128::MAX`.
unfoldable pub split : Felt252 → ℕ → Uint256
split F num = record { low = F.from (bit_and num (2 ^ 128 - 1)); high = F.from (num / 2 ^ 128) }

-- `impl From<Felt252>`
unfoldable pub from_felt : Felt252 → ℕ → Uint256
from_felt F value = let (high, low) = F.div_rem value (2 ^ 128) in record { low = low; high = high }

module _ {S Ids : Type 0} (m : Machine S Ids) where
  unfoldable pub from_base_addr : Relocatable → String → Action S Uint256
  from_base_addr addr name = do
    low ← reads (λ vm. map_err (m.get_integer vm addr) (identifier_has_no_member name "low"))
    high_addr ← lift (m.add_usize addr 1)
    high ← reads (λ vm. map_err (m.get_integer vm high_addr) (identifier_has_no_member name "high"))
    pure (record { low = low; high = high })

module _ {S Ids : Type 0} (m : Machine S Ids) (ids : Ids) where
  unfoldable pub from_var_name : String → Action S Uint256
  unfolding from_base_addr
  from_var_name name vm = elim (m.get_ptr_from_var_name ids name vm) [
    | ok addr ↦ from_base_addr m addr name vm
    | err _ ↦
        (reads (m.get_relocatable_from_var_name ids name) >>= λ base_addr.
        from_base_addr m base_addr name)
          vm
    | panic ↦ (panic, vm)
  ]

  unfoldable pub insert_from_var_name : Uint256 → String → Action S (Unit {0})
  insert_from_var_name self var_name = do
    addr ← reads (m.get_relocatable_from_var_name ids var_name)
    m.insert_value addr (int self.low)
    high_addr ← lift (m.add_usize addr 1)
    m.insert_value high_addr (int self.high)
