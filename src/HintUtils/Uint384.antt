-- ===== src/HintUtils/Uint384.antt =====
-- The struct `Uint384`: four limbs of 96 bits.
pub mod Memory
use keth.Prelude.{
  ℕ, zero, suc, ◌+◌, String, List, [], ◌∷◌, ◌==◌, if◌then◌else◌, Relocatable, ok, err, panic,
  Action, pure, lift, reads, map_err, fail, ◌>>=◌, ◌>>◌, length, identifier_has_no_member,
  fixed_size_array_fail,
}
use keth.Machine.{Felt252, Machine, int}
use keth.HintUtils.Limbs

-- An array of four felts.
pub record Uint384 : Type 0 where
  pub limbs : List ℕ

-- `format!("d{}", i)` for a limb's index
abbrev pub limb_name : ℕ → String
limb_name zero = "d0"
limb_name (suc zero) = "d1"
limb_name (suc (suc zero)) = "d2"
limb_name _ = "d3"

unfoldable pub pack : Uint384 → ℕ
pack self = Limbs.pack self.limbs 96

unfoldable pub split : Felt252 → ℕ → Uint384
split F num = record { limbs = Limbs.split F num 4 96 }

module _ {S Ids : Type 0} (m : Machine S Ids) where
  -- the loop of `from_base_addr`, from limb `i` on
  unfoldable pub read_limbs : Relocatable → String → ℕ → ℕ → Action S (List ℕ)
  read_limbs addr name i zero = pure []
  read_limbs addr name i (suc left) = do
    limb_addr ← lift (m.add_usize addr i)
    limb ←
        reads
          λ vm. map_err (m.get_integer vm limb_addr) (identifier_has_no_member name (limb_name i))
    rest ← read_limbs addr name (i + 1) left
    pure (limb ∷ rest)

  unfoldable pub from_base_addr : Relocatable → String → Action S Uint384
  unfolding read_limbs
  from_base_addr addr name = do
    limbs ← read_limbs addr name 0 4
    if length limbs == 4 then pure (record { limbs = limbs }) else fail (fixed_size_array_fail 4)

  -- the loop of `insert_from_var_name`
  unfoldable pub insert_limbs : Relocatable → ℕ → List ℕ → Action S (Unit {0})
  insert_limbs addr i [] = pure tt
  insert_limbs addr i (limb ∷ limbs) = do
    limb_addr ← lift (m.add_usize addr i)
    m.insert_value limb_addr (int limb)
    insert_limbs addr (i + 1) limbs

module _ {S Ids : Type 0} (m : Machine S Ids) (ids : Ids) where
  unfoldable pub from_var_name : String → Action S Uint384
  unfolding from_base_addr
  from_var_name name vm = elim (m.get_ptr_from_var_name ids name vm) [
    | ok addr ↦ from_base_addr m addr name vm
    | err _ ↦
        (reads (m.get_relocatable_from_var_name ids name) >>= λ base_addr.
        from_base_addr m base_addr name)
          vm
    | panic ↦ (panic, vm)
  ]

  unfoldable pub insert_from_var_name : Uint384 → String → Action S (Unit {0})
  unfolding insert_limbs
  insert_from_var_name self var_name = do
    addr ← reads (m.get_relocatable_from_var_name ids var_name)
    insert_limbs m addr 0 self.limbs
