-- ===== src/Python/Address.antt =====
-- relocatable.rs and maybe_relocatable.rs: addresses and cells as Python objects.
use Prim.Native.String.{◌++◌}
use keth.Prelude.{
  String, ◌==◌, ℕ, ℤ, pos, negsuc, Bool, true, false, ◌&&◌, ◌||◌, ltb, leb, int_eq, Relocatable,
  ◌^◌, if◌then◌else◌,
}
use keth.Machine.{Felt252, Machine, Value, int, relocatable}
use keth.Python.{PyResult, value_error, success, ◌>>=◌, Display, from_library}

-- `PyMaybeRelocatable`; its variants for numbers are those below 2 ^ 64, and all.
pub data PyMaybeRelocatable : Type 0 where
  py_relocatable : Relocatable → PyMaybeRelocatable
  py_usize : ℕ → PyMaybeRelocatable
  py_big_uint : ℕ → PyMaybeRelocatable

-- The second argument of `__sub__`.
pub data PyRelocatableSub : Type 0 where
  sub_relocatable : Relocatable → PyRelocatableSub
  sub_int : ℕ → PyRelocatableSub

unfoldable pub from_maybe_relocatable : Value → PyMaybeRelocatable
from_maybe_relocatable (int x) = py_big_uint x
from_maybe_relocatable (relocatable r) = py_relocatable r

unfoldable pub to_maybe_relocatable : Felt252 → PyMaybeRelocatable → Value
to_maybe_relocatable F (py_usize x) = int (F.from x)
to_maybe_relocatable F (py_relocatable r) = relocatable r
to_maybe_relocatable F (py_big_uint x) = int (F.from x)

-- What a Python number becomes: the first variant that takes it.
unfoldable pub extract_number : ℕ → PyMaybeRelocatable
extract_number n = if ltb n (2 ^ 64) then py_usize n else py_big_uint n

-- The order on addresses: by the segment, and in it by the offset.
abbrev pub int_lt : ℤ → ℤ → Bool
int_lt (pos a) (pos b) = ltb a b
int_lt (negsuc a) (negsuc b) = ltb b a
int_lt (negsuc a) (pos b) = true
int_lt (pos a) (negsuc b) = false

unfoldable pub lt : Relocatable → Relocatable → Bool
lt a b =
    int_lt a.segment_index b.segment_index
    || int_eq a.segment_index b.segment_index && ltb a.offset b.offset

unfoldable pub le : Relocatable → Relocatable → Bool
le a b =
    int_lt a.segment_index b.segment_index
    || int_eq a.segment_index b.segment_index && leb a.offset b.offset

unfoldable pub gt : Relocatable → Relocatable → Bool
unfolding lt
gt a b = lt b a

unfoldable pub ge : Relocatable → Relocatable → Bool
unfolding le
ge a b = le b a

unfoldable pub eq : Relocatable → Relocatable → Bool
eq a b = int_eq a.segment_index b.segment_index && a.offset == b.offset

-- `__str__` and `__repr__`, from how the standard library prints numbers
unfoldable pub str : (ℤ → String) → (ℕ → String) → Relocatable → String
str display_int display a = display_int a.segment_index ++ ":" ++ display a.offset

unfoldable pub repr : (ℤ → String) → (ℕ → String) → Relocatable → String
repr display_int display a =
    "Relocatable(segment_index="
    ++ display_int a.segment_index
    ++ ", offset="
    ++ display a.offset
    ++ ")"

module _ {S Ids : Type 0} (F : Felt252) (m : Machine S Ids) (d : Display) where
  unfoldable pub add : Relocatable → ℕ → PyResult Relocatable
  add a other = from_library d value_error (m.add_usize a other)

  unfoldable pub sub : Relocatable → PyRelocatableSub → PyResult PyMaybeRelocatable
  unfolding from_maybe_relocatable
  sub a (sub_int x) = do
    result ← from_library d value_error (m.sub_usize a x)
    success (from_maybe_relocatable (relocatable result))
  sub a (sub_relocatable x) = do
    result ← from_library d value_error (m.sub_ptr a x)
    success (from_maybe_relocatable (int (F.from result)))
