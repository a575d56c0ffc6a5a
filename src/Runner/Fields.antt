-- ===== src/Runner/Fields.antt =====
-- runner.rs: the runner's construction, its fields for Python, and what it hands to cairo-vm.
use keth.Prelude.{
  ℕ, String, List, [], ◌∷◌, map, Option, some, none, Bool, true, false, Relocatable, pos, Result,
}
use keth.Machine.{Felt252, Machine, Value, int, relocatable}
use keth.Python.{
  Try, PyResult, runtime_error, success, failure, panicked, ◌>>=◌, Display, from_library,
}
use keth.Python.Address.{PyMaybeRelocatable, to_maybe_relocatable}
use keth.Python.Segments.{Segments}
use keth.Python.ConstsDict.{put}
use keth.Python.Variables.{Identifiers}
use keth.Runner.{Builtins, CairoRunner}
use keth.Runner.Files.{or_raise, and_then}
use keth.Runner.Settings.{LayoutName, into_layout_name, default_layout, BuiltinNames}
use keth.Runner.Context.{Scopes, Preparing, prepare_scopes, set_identifiers, ordered_names}

-- What the code calls of cairo-vm's runner, made for a program (`P`); errors by their text.
pub record Inner (P S B Name : Type 0) : Type 0 where
  pub iter_identifiers : P → Identifiers
  pub new_runner : P → LayoutName → Bool → Bool → Bool → Try String (CairoRunner S B Name)
  pub initialize_builtins :
      Bool → CairoRunner S B Name → Try String (Unit {0}) × CairoRunner S B Name
  pub initialize_segments : CairoRunner S B Name → CairoRunner S B Name
  pub initialize_vm : CairoRunner S B Name → Try String (Unit {0}) × CairoRunner S B Name
  -- a builtin for modular arithmetic sets up its segment of zeros; another is left as it is
  pub initialize_zero_segment : B → S → B × S
  pub initial_stack : B → List Value
  pub base : B → ℕ
  -- the checks after a run
  pub verify_auto_deductions : S → Try String (Unit {0})
  pub verify_secure_runner : CairoRunner S B Name → Try String (Unit {0})
  pub relocate : CairoRunner S B Name → Try String (Unit {0}) × CairoRunner S B Name
  pub finalize_segments : CairoRunner S B Name → Try String (Unit {0}) × CairoRunner S B Name

abbrev pub layout_text : Option String → String
layout_text none = default_layout
layout_text (some layout) = layout

module _ {P S B Name X M C O : Type 0} (inner : Inner P S B Name) where
  unfoldable pub new :
      Preparing X M C O
      → BuiltinNames Name
      → P
      → Option O
      → Option String
      → Bool
      → Bool
      → Bool
      → List String
      → X
      → PyResult (CairoRunner S B Name × Scopes M C) × X
  unfolding into_layout_name prepare_scopes
  new py names program py_identifiers layout proof_mode allow_missing_builtins enable_traces
        ordered_builtins x =
      let made = into_layout_name (layout_text layout) >>= λ layout_name.
      ordered_names names ordered_builtins >>= λ ordered.
      or_raise runtime_error (inner.new_runner program layout_name proof_mode true proof_mode)
      >>= λ r. success (record r {
        allow_missing_builtins = allow_missing_builtins;
        ordered_builtins = ordered;
        enable_traces = enable_traces;
      }) in
      and_then (made, x)
        λ r x'.
          and_then
            (prepare_scopes py (inner.iter_identifiers program) (set_identifiers py py_identifiers)
              x')
            λ scopes x''. (success (r, scopes), x'')

module _ {P S B Name : Type 0} (inner : Inner P S B Name) where
  abbrev raised :
      Try String (Unit {0}) × CairoRunner S B Name → PyResult (Unit {0}) × CairoRunner S B Name
  raised (r, runner) = (or_raise runtime_error r, runner)

  unfoldable pub initialize_segments :
      CairoRunner S B Name → PyResult (Unit {0}) × CairoRunner S B Name
  initialize_segments self =
      and_then (raised (inner.initialize_builtins self.allow_missing_builtins self))
        λ u r. (success tt, inner.initialize_segments r)

  -- the loop over the builtin runners
  unfoldable pub zero_segments : List B → S → List B × S
  zero_segments [] vm = ([], vm)
  zero_segments (b ∷ rest) vm =
      let (b', vm') = inner.initialize_zero_segment b vm in
      let (rest', vm'') = zero_segments rest vm' in (b' ∷ rest', vm'')

  unfoldable pub initialize_vm : CairoRunner S B Name → PyResult (Unit {0}) × CairoRunner S B Name
  unfolding zero_segments
  initialize_vm self =
      let (builtins, vm) = zero_segments self.builtin_runners self.vm in
      raised (inner.initialize_vm (record self { builtin_runners = builtins; vm = vm }))

  unfoldable pub verify_auto_deductions : CairoRunner S B Name → PyResult (Unit {0})
  verify_auto_deductions self = or_raise runtime_error (inner.verify_auto_deductions self.vm)

  unfoldable pub verify_secure_runner : CairoRunner S B Name → PyResult (Unit {0})
  verify_secure_runner self = or_raise runtime_error (inner.verify_secure_runner self)

  unfoldable pub relocate : CairoRunner S B Name → PyResult (Unit {0}) × CairoRunner S B Name
  relocate self = raised (inner.relocate self)

  unfoldable pub finalize_segments :
      CairoRunner S B Name → PyResult (Unit {0}) × CairoRunner S B Name
  finalize_segments self = raised (inner.finalize_segments self)

module _ {S B Name : Type 0} where
  -- the setters
  unfoldable pub set_initial_pc : CairoRunner S B Name → Option Relocatable → CairoRunner S B Name
  set_initial_pc self value = record self { initial_pc = value }

  unfoldable pub set_initial_ap : CairoRunner S B Name → Option Relocatable → CairoRunner S B Name
  set_initial_ap self value = record self { initial_ap = value }

  unfoldable pub set_initial_fp : CairoRunner S B Name → Option Relocatable → CairoRunner S B Name
  set_initial_fp self value = record self { initial_fp = value }

  unfoldable pub set_program_base : CairoRunner S B Name → Option Relocatable → CairoRunner S B Name
  set_program_base self value = record self { program_base = value }

  unfoldable pub set_execution_base :
      CairoRunner S B Name → Option Relocatable → CairoRunner S B Name
  set_execution_base self value = record self { execution_base = value }

  unfoldable pub set_execution_public_memory :
      CairoRunner S B Name → Option (List ℕ) → CairoRunner S B Name
  set_execution_public_memory self value = record self { execution_public_memory = value }

  module _ (segments : Segments S) (d : Display) where
    abbrev loaded :
        CairoRunner S B Name → Result Relocatable × S → PyResult (Unit {0}) × CairoRunner S B Name
    loaded self (r, vm) =
        (from_library d runtime_error r >>= λ end. success tt, record self { vm = vm })

    unfoldable pub load_data :
        Felt252
        → CairoRunner S B Name
        → Relocatable
        → List PyMaybeRelocatable
        → PyResult (Unit {0}) × CairoRunner S B Name
    load_data F self base values =
        loaded self (segments.load_data base (map (to_maybe_relocatable F) values) self.vm)

    -- The data is that of the runner's program.
    unfoldable pub load_program_data :
        List Value → CairoRunner S B Name → Relocatable → PyResult (Unit {0}) × CairoRunner S B Name
    load_program_data program_data self base =
        loaded self (segments.load_data base program_data self.vm)

-- An entry of the dictionary of builtin runners.
pub record RunnerEntry : Type 0 where
  pub included : Bool
  pub base : Relocatable
  pub name : String
  pub initial_stack : List Relocatable
  pub final_stack : List Relocatable

-- `x.try_into().unwrap()` for each element
abbrev pub addresses : List Value → PyResult (List Relocatable)
addresses [] = success []
addresses (relocatable a ∷ rest) = addresses rest >>= λ others. success (a ∷ others)
addresses (int x ∷ rest) = panicked

-- `into_iter()` of a result
abbrev pub into_list : Try String Relocatable → List Relocatable
into_list (success a) = a ∷ []
into_list _ = []

module _ {P S B Name : Type 0} (inner : Inner P S B Name) (lib : Builtins S B Name) (vm : S)
    (ap : Relocatable) where
  -- The final stack of a builtin that is not included, and the builtin after the call.
  abbrev pub unused_stack : Bool → B → List Relocatable × B
  unused_stack true b = ([], b)
  unused_stack false b = let (r, b') = lib.final_stack b vm ap in (into_list r, b')

  -- The entries, and the builtins after the calls up to one that panics.
  unfoldable pub runner_entries :
      List B → List (String × RunnerEntry) → PyResult (List (String × RunnerEntry)) × List B
  runner_entries [] dict = (success dict, [])
  runner_entries (b ∷ rest) dict =
      let (final_stack, b') = unused_stack (lib.included b) b in
      elim (addresses (inner.initial_stack b)) [
        | success initial_stack ↦
            let entry : RunnerEntry = record {
              included = lib.included b;
              base = record { segment_index = pos (inner.base b'); offset = 0 };
              name = lib.display_name (lib.name b);
              initial_stack = initial_stack;
              final_stack = final_stack;
            } in
            let (r, rest') = runner_entries rest (put (lib.display_name (lib.name b)) entry dict) in
            (r, b' ∷ rest')
        | failure e ↦ (failure e, b ∷ rest)
        | panicked ↦ (panicked, b ∷ rest)
      ]

unfoldable pub builtin_runners :
    {P S B Name Ids : Type 0}
    → Machine S Ids
    → Inner P S B Name
    → Builtins S B Name
    → CairoRunner S B Name
    → PyResult (List (String × RunnerEntry)) × CairoRunner S B Name
unfolding runner_entries
builtin_runners m inner lib self =
    let (r, builtins) =
      runner_entries inner lib self.vm (m.get_ap self.vm) self.builtin_runners [] in
    (r, record self { builtin_runners = builtins })
