-- ===== src/Python/Injector.antt =====
-- pythonic_hint.rs: the code that stands in front of that of a Python hint, and the errors.
use Prim.Native.Char.{code}
use Prim.Native.String.{◌++◌}
use keth.Prelude.{
  String, List, [], ◌∷◌, ◌++◌ as append, Bool, false, ◌||◌, ◌==◌, if◌then◌else◌, HintError,
  custom_hint, Result, ok, err, panic,
}
use keth.Python.{Try, success, failure, panicked}
use keth.Python.Variables.{DynamicHintError, display_dynamic, c_string_conversion}

-- `impl From<DynamicHintError> for HintError`
unfoldable pub hint_error : DynamicHintError → HintError
unfolding display_dynamic
hint_error e = custom_hint (display_dynamic e)

-- `.map_err(|e| variant(e.to_string()))?` on a result whose error is known by its text.
abbrev pub dynamic : {A : Type 0} → (String → DynamicHintError) → Try String A → Result A
dynamic variant (success a) = ok a
dynamic variant (failure e) = err (hint_error (variant e))
dynamic variant panicked = panic

-- `PythonCodeInjector`
pub record PythonCodeInjector : Type 0 where
  pub code_parts : List String

abbrev pub push : PythonCodeInjector → String → PythonCodeInjector
push self part = record { code_parts = append self.code_parts (part ∷ []) }

unfoldable pub new_injector : PythonCodeInjector
new_injector = record { code_parts = [] }

unfoldable pub with_base_imports : PythonCodeInjector → PythonCodeInjector
with_base_imports self = push self "from functools import partial"

-- The text is trimmed here.
unfoldable pub with_serialize : PythonCodeInjector → PythonCodeInjector
with_serialize self = push self (
    "serialize = partial(serialize, segments=segments, program_identifiers=py_identifiers, "
    ++ "dict_manager=dict_manager)")

unfoldable pub with_gen_arg : PythonCodeInjector → PythonCodeInjector
with_gen_arg self = push self "gen_arg = partial(_gen_arg, dict_manager, segments)"

-- `join("\n")`
abbrev pub join_lines : List String → String
join_lines [] = ""
join_lines (part ∷ []) = part
join_lines (part ∷ next ∷ rest) = part ++ "\n" ++ join_lines (next ∷ rest)

unfoldable pub build : PythonCodeInjector → String
build self = join_lines self.code_parts

-- `injected_py_code`
unfoldable pub injected : String
unfolding new_injector with_base_imports with_serialize with_gen_arg build
injected = build (with_gen_arg (with_serialize (with_base_imports new_injector)))

-- `full_hint_code`
unfoldable pub full_hint_code : String → String
unfolding injected
full_hint_code hint_code = injected ++ "\n" ++ hint_code

abbrev pub has_nul : String → Bool
has_nul String.[] = false
has_nul (String.◌∷◌ c s) = (code c == 0) || has_nul s

-- `CString::new`, with the text of its error
abbrev pub to_c_string : (String → String) → String → Result (Unit {0})
to_c_string nul_error full =
    if has_nul full then err (hint_error (c_string_conversion (nul_error full))) else ok tt
