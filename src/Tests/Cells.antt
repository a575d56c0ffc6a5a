-- ===== src/Tests/Cells.antt =====
-- Memory given by a list of its cells.
use keth.Prelude.{List, [], ◌∷◌, Option, some, none, Relocatable, if◌then◌else◌}
use keth.Machine.{Value}
use keth.Dicts.{relocatable_eq}

abbrev pub cells_of : List (Relocatable × Value) → Relocatable → Option Value
cells_of [] a = none
cells_of ((b, v) ∷ rest) a = if relocatable_eq b a then some v else cells_of rest a
