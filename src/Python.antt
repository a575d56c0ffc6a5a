-- ===== src/Python.antt =====
-- The classes of crates/cairo-addons/src/vm for Python, and what they share: results, exceptions,
-- and what the code uses of cairo-vm and pyo3 to print values and errors.
pub mod Variables
pub mod Address
pub mod Consts
pub mod ConstsDict
pub mod Manager
pub mod Segments
pub mod Injector
pub mod Executor
use keth.Prelude.{String, Option, some, none, List, Relocatable, HintError, Result, ok, err, panic}
use keth.Machine.{Value}

-- The classes of exceptions that the code raises.
pub data PyErrKind : Type 0 where
  attribute_error : PyErrKind
  runtime_error : PyErrKind
  type_error : PyErrKind
  value_error : PyErrKind
  key_error : PyErrKind
  -- with its subclasses, `PyIOError` included
  os_error : PyErrKind

pub record PyErr : Type 0 where
  pub kind : PyErrKind
  pub message : String

-- `Result` with errors of any type, and panics.
pub data Try (E A : Type 0) : Type 0 where
  success : A → Try E A
  failure : E → Try E A
  panicked : Try E A

abbrev pub PyResult : Type 0 → Type 0
PyResult A = Try PyErr A

abbrev pub raise : {A : Type 0} → PyErrKind → String → PyResult A
raise kind message = failure (record { kind = kind; message = message })

infixl 5 ◌>>=◌
abbrev pub ◌>>=◌ : {E A B : Type 0} → Try E A → (A → Try E B) → Try E B
success a >>= f = f a
failure e >>= f = failure e
panicked >>= f = panicked

module _ {E A : Type 0} where
  -- `.ok_or_else(|| e)?`
  abbrev pub ok_or_else : Option A → E → Try E A
  ok_or_else none e = failure e
  ok_or_else (some a) e = success a

-- `.map_err(|e| …)?`
abbrev pub map_failure : {E F A : Type 0} → Try E A → (E → F) → Try F A
map_failure (success a) f = success a
map_failure (failure e) f = failure (f e)
map_failure panicked f = panicked

-- How cairo-vm prints addresses, cells and errors (`Display`), how the standard library prints
-- what is formatted with `{:?}`, and the message of pyo3 for a value that it cannot convert.
pub record Display : Type 0 where
  pub address : Relocatable → String
  pub value : Value → String
  pub error : HintError → String
  pub debug_value : Option Value → String
  pub debug_path : Option (List String) → String
  pub debug_address : Option Relocatable → String
  pub extract_error : String

-- `.map_err(|e| PyErr::new::<…>(e.to_string()))?` on what cairo-vm returns
abbrev pub from_library : {A : Type 0} → Display → PyErrKind → Result A → PyResult A
from_library d kind (ok a) = success a
from_library d kind (err e) = raise kind (d.error e)
from_library d kind panic = panicked
