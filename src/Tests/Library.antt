-- ===== src/Tests/Library.antt =====
-- A small virtual machine, field and dictionary library on which the assumed behaviour holds.
use native.Mathlib.Nat.{mod-eq_of_lt}
use text.Mathlib.Text.{◌==◌ as str_eq}
use keth.Prelude.{
  >>=-eq-ok, ◌≤◌, ℕ, pos, int_eq, zero, suc, ◌+◌, ◌-◌, ◌*◌, ◌/◌, ◌%◌, ◌^◌, ◌<◌, String, Option,
  some, none, List, [], ◌∷◌, reverse, ◌≡◌, refl, sym, ap, ◌∙◌, arith, ltb, if◌then◌else◌,
  Relocatable, Result, ok, err, panic, library, Action, ◌>>◌, ok_or, All, Bool-cases, inl, inr,
  Option-cases,
}
use keth.Prelude.Bytes.{le_value, le_value-to_le_bytes, length-to_le_bytes}
use keth.Prelude.Words.{to_le_bytes}
use keth.Machine.{Felt252, Machine, Value, int, relocatable}
use keth.Dicts.{relocatable_eq}
use keth.Dicts.Lookup.{relocatable_eq_iff}

abbrev pub stark_prime : ℕ
stark_prime = 2 ^ 251 + 17 * 2 ^ 192 + 1

pub to_le_bytes-bytes : (width n : ℕ) → All (λ b. b < 256) (to_le_bytes width n)
unfolding to_le_bytes
to_le_bytes-bytes zero n = tt
to_le_bytes-bytes (suc width) n = (omega arith, to_le_bytes-bytes width (n / 256))

pub le_value_felt : (a : ℕ) → a < stark_prime → le_value (to_le_bytes 32 a) ≡ a
le_value_felt a h = le_value-to_le_bytes 32 a ∙ mod-eq_of_lt (omega arith)

abbrev pub felts : Felt252
felts = record {
  prime = stark_prime;
  from = λ n. n % stark_prime;
  add = λ a b. (a + b) % stark_prime;
  sub = λ a b. (a + stark_prime - b) % stark_prime;
  mul = λ a b. a * b % stark_prime;
  try_usize = λ a. if ltb a (2 ^ 64) then some a else none;
  try_u8 = λ a. if ltb a 256 then some a else none;
  to_bytes_le = λ a. to_le_bytes 32 a;
  to_bytes_be = λ a. reverse (to_le_bytes 32 a);
  to_le_digits =
      λ a. a % 2 ^ 64 ∷ a / 2 ^ 64 % 2 ^ 64 ∷ a / 2 ^ 128 % 2 ^ 64 ∷ a / 2 ^ 192 % 2 ^ 64 ∷ [];
  from_bytes_le_slice = λ bs. le_value bs % stark_prime;
  div_rem = λ a b. (a / b, a % b);
  prime_lem = refl;
  from_lem = λ n. refl;
  add_lem = λ a b. refl;
  sub_lem = λ a b p q. refl;
  mul_lem = λ a b. refl;
  to_le_digits_lem = λ a h. refl;
  from_bytes_le_slice_lem = λ bs. refl;
  div_rem_lem = λ a b h. refl;
  try_usize_lem = λ a. refl;
  try_u8_lem = λ a. refl;
  length-to_bytes_le = length-to_le_bytes 32;
  to_bytes_le-bytes = to_le_bytes-bytes 32;
  le_value-to_bytes_le = le_value_felt;
  to_bytes_be_lem = λ a. refl;
}

-- The machine: the cells, the next free segment, and the two registers.
pub record Vm : Type 0 where
  pub cells : Relocatable → Option Value
  pub next_segment : ℕ
  pub ap_register : Relocatable
  pub fp_register : Relocatable

-- Each variable's address.
abbrev pub Variables : Type 0
Variables = List (String × Relocatable)

abbrev pub at : ℕ → ℕ → Relocatable
at segment offset = record { segment_index = pos segment; offset = offset }

abbrev pub vm_insert : Relocatable → Value → Action Vm (Unit {0})
vm_insert a v s = elim (s.cells a) [
  | some _ ↦ (err (library "inconsistent memory"), s)
  | none ↦ (ok tt, record s { cells = λ b. if relocatable_eq a b then some v else s.cells b })
]

abbrev pub vm_write : Relocatable → List Value → Action Vm (Unit {0})
vm_write a [] s = (ok tt, s)
vm_write a (v ∷ vs) s = (vm_insert a v >> vm_write (record a { offset = a.offset + 1 }) vs) s

abbrev pub vm_address : Variables → String → Result Relocatable
vm_address [] name = err (library "unknown identifier")
vm_address ((n, a) ∷ ids) name = if str_eq n name then ok a else vm_address ids name

abbrev pub vm_cell : Variables → String → Vm → Result Value
vm_cell ids name s = elim (vm_address ids name) [
  | ok a ↦ ok_or (s.cells a) (library "unknown cell")
  | err e ↦ err e
  | panic ↦ panic
]

abbrev pub as_int : Result Value → Result ℕ
as_int (ok (int x)) = ok x
as_int (ok (relocatable _)) = err (library "not an integer")
as_int (err e) = err e
as_int panic = panic

abbrev pub as_ptr : Result Value → Result Relocatable
as_ptr (ok (relocatable r)) = ok r
as_ptr (ok (int _)) = err (library "not a pointer")
as_ptr (err e) = err e
as_ptr panic = panic

pub vm_insert-get :
    (s s' : Vm) (a : Relocatable) (v : Value) → vm_insert a v s ≡ (ok tt, s') → s'.cells a ≡ some v
vm_insert-get s s' a v h = elim (Option-cases (s.cells a)) [
  | inl e ↦
      let after : s' ≡ record s { cells = λ b. if relocatable_eq a b then some v else s.cells b } =
        ap (λ r. r.1) (sym h) ∙ ap (λ r. r.1) (go e) in
      ap (λ t. t.cells a) after
      ∙ ap (λ b. if b then some v else s.cells a) ((relocatable_eq_iff a a).1 refl)
  | inr (u, e) ↦ ground arith
]
  where
    go :
        s.cells a ≡ none
        → vm_insert a v s
          ≡ (ok tt, record s { cells = λ b. if relocatable_eq a b then some v else s.cells b })
    go e = ground arith

pub vm_insert_keeps :
    (s s' : Vm) (a b : Relocatable) (v w : Value)
    → vm_insert a v s ≡ (ok tt, s')
    → s.cells b ≡ some w
    → s'.cells b ≡ some w
vm_insert_keeps s s' a b v w h set = elim (Option-cases (s.cells a)) [
  | inl e ↦
      let after : s' ≡ record s { cells = λ b. if relocatable_eq a b then some v else s.cells b } =
        ap (λ r. r.1) (sym h) ∙ ap (λ r. r.1) (go e) in
      ap (λ t. t.cells b) after ∙ apart e
  | inr (u, e) ↦ ground arith
]
  where
    go :
        s.cells a ≡ none
        → vm_insert a v s
          ≡ (ok tt, record s { cells = λ b. if relocatable_eq a b then some v else s.cells b })
    go e = ground arith

    apart : s.cells a ≡ none → (if relocatable_eq a b then some v else s.cells b) ≡ some w
    apart e = elim (Bool-cases (relocatable_eq a b)) [
      | inl same ↦ absurd (ground (arith, ap s.cells ((relocatable_eq_iff a b).0 same)))
      | inr other ↦ rw other set
    ]

abbrev pub vm_add_usize : Relocatable → ℕ → Result Relocatable
vm_add_usize a n =
    if ltb (a.offset + n) (2 ^ 64)
    then ok (record a { offset = a.offset + n })
    else err (library "offset too large")

abbrev pub vm_sub_usize : Relocatable → ℕ → Result Relocatable
vm_sub_usize a n =
    if ltb a.offset n
    then err (library "offset below zero")
    else ok (record a { offset = a.offset - n })

abbrev pub vm_sub_ptr : Relocatable → Relocatable → Result ℕ
vm_sub_ptr a b =
    if int_eq a.segment_index b.segment_index
    then (if ltb a.offset b.offset
        then err (library "negative distance")
        else ok (a.offset - b.offset))
    else err (library "different segments")

-- A write to a variable: at its address, or the error of the address.
abbrev pub vm_insert_variable : Variables → String → Value → Action Vm (Unit {0})
vm_insert_variable ids name v s = elim (vm_address ids name) [
  | ok a ↦ vm_insert a v s
  | err e ↦ (err e, s)
  | panic ↦ (panic, s)
]

pub vm_add_usize_lem :
    (a : Relocatable) (n : ℕ)
    → a.offset + n < 2 ^ 64
    → vm_add_usize a n ≡ ok (record a { offset = a.offset + n })
vm_add_usize_lem a n h = ground arith

pub vm_sub_usize_lem :
    (a : Relocatable) (n : ℕ)
    → n ≤ a.offset
    → vm_sub_usize a n ≡ ok (record a { offset = a.offset - n })
vm_sub_usize_lem a n h = ground arith

pub vm_integer_lem :
    (s : Vm) (a : Relocatable) (x : ℕ)
    → s.cells a ≡ some (int x)
    → as_int (ok_or (s.cells a) (library "unknown cell")) ≡ ok x
vm_integer_lem s a x h = rw h refl

pub vm_relocatable_lem :
    (s : Vm) (a r : Relocatable)
    → s.cells a ≡ some (relocatable r)
    → as_ptr (ok_or (s.cells a) (library "unknown cell")) ≡ ok r
vm_relocatable_lem s a r h = rw h refl

pub vm_variable_lem :
    (s : Vm) (ids : Variables) (name : String) (a : Relocatable) (v : Value)
    → vm_address ids name ≡ ok a
    → vm_insert_variable ids name v s ≡ vm_insert a v s
vm_variable_lem s ids name a v h = rw (h, vm_insert_variable) refl

abbrev pub machine : Machine Vm Variables
machine = record {
  add_usize = vm_add_usize;
  sub_usize = vm_sub_usize;
  sub_ptr = vm_sub_ptr;
  get_ap = λ s. s.ap_register;
  get_fp = λ s. s.fp_register;
  get_maybe = λ s a. s.cells a;
  get_integer = λ s a. as_int (ok_or (s.cells a) (library "unknown cell"));
  get_relocatable = λ s a. as_ptr (ok_or (s.cells a) (library "unknown cell"));
  insert_value = vm_insert;
  add_memory_segment = λ s. (at s.next_segment 0, record s { next_segment = s.next_segment + 1 });
  write_arg = vm_write;
  get_ptr_from_var_name = λ ids name s. as_ptr (vm_cell ids name s);
  get_relocatable_from_var_name = λ ids name s. vm_address ids name;
  get_integer_from_var_name = λ ids name s. as_int (vm_cell ids name s);
  get_maybe_relocatable_from_var_name = λ ids name s. vm_cell ids name s;
  insert_value_from_var_name = vm_insert_variable;
  insert_value_into_ap = λ v s. vm_insert s.ap_register v s;
  add_usize_lem = vm_add_usize_lem;
  sub_usize_lem = vm_sub_usize_lem;
  get_integer_lem = vm_integer_lem;
  get_relocatable_lem = vm_relocatable_lem;
  add_memory_segment_lem = λ s. refl;
  get_maybe-insert_value = vm_insert-get;
  insert_value_keeps = vm_insert_keeps;
  write_arg_nil = λ s a. refl;
  write_arg_cons = λ s s' a v vs fits h.
      let rest : Action Vm (Unit {0}) = vm_write (record a { offset = a.offset + 1 }) vs in
      let (u, mid, first, second) = >>=-eq-ok (vm_insert a v) (λ u. rest) s s' tt h in
      (mid, first, second);
  insert_value_from_var_name_lem = vm_variable_lem;
}
