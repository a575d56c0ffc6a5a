-- ===== src/Python/Executor/Prepared.antt =====
-- The code of a Python hint runs with the current variables, registers and wrappers in its context.
use keth.Prelude.{
  String, List, [], ◌∷◌, ◌++◌, false, ◌≡◌, ap, ◌∙◌, arith, Action, Result, ◌>>◌, ◌>>=◌, >>=-ok,
}
use keth.Machine.{Machine}
use keth.Python.{Try, success}
use keth.Python.Variables.{Identifiers, python_execution, py_object_creation}
use keth.Python.ConstsDict.{Items, References, create_vm_consts_dict}
use keth.Python.Injector.{dynamic, full_hint_code, has_nul}
use keth.Python.Executor.{
  Python, Env, memory_wrapper, segments_wrapper, dict_manager_wrapper, ContextValue, object,
  register, vm_consts, put_item, put_object, registers, put_ids, prepare_context, run_in_context,
}
use keth.Python.Executor.Context.{overlay, Allocates, Adds, Adds->>, put_item-Adds, put_object-Adds}

-- What becomes of the result of the code.
abbrev pub outcome :
    {S E X : Type 0} → Try String (Unit {0}) × Env S E X → Result (Unit {0}) × Env S E X
outcome (r, w) = (dynamic python_execution r, w)

module _ {S E X C O M R T : Type 0} (py : Python S E X C O M) (refs : References S R T)
    (m : Machine S (List (String × R) × T)) (alloc : Allocates py) (context : C) where
  registers-Adds :
      (w : Env S E X)
      → Adds py context (registers py refs m context) w (
          ("fp", register (m.get_fp w.vm))
          ∷ ("pc", register (py.get_pc w.vm))
          ∷ ("ap", register (m.get_ap w.vm))
          ∷ [])
  registers-Adds w =
      let set_ap = put_item py context "ap" (register (m.get_ap w.vm)) in
      let set_pc = put_item py context "pc" (register (py.get_pc w.vm)) in
      let set_fp = put_item py context "fp" (register (m.get_fp w.vm)) in
      let aps = put_item-Adds py alloc context "ap" (register (m.get_ap w.vm)) w in
      let pcs =
        Adds->> py context set_ap set_pc w (("ap", register (m.get_ap w.vm)) ∷ [])
          (("pc", register (py.get_pc w.vm)) ∷ []) aps
          (put_item-Adds py alloc context "pc" (register (py.get_pc w.vm))
            (record w { interpreter = aps.0 })) in
      Adds->> py context (set_ap >> set_pc) set_fp w
        (("pc", register (py.get_pc w.vm)) ∷ ("ap", register (m.get_ap w.vm)) ∷ [])
        (("fp", register (m.get_fp w.vm)) ∷ []) pcs
        (put_item-Adds py alloc context "fp" (register (m.get_fp w.vm))
          (record w { interpreter = pcs.0 }))

  put_ids-Adds :
      (ids : List (String × R) × T) (identifiers : Identifiers) (items : Items) (w : Env S E X)
      → py.get_program_identifiers w.scopes ≡ success identifiers
      → create_vm_consts_dict refs m identifiers ids.0 ids.1 w.vm ≡ success items
      → Adds py context (put_ids py refs m context ids) w (("ids", vm_consts items) ∷ [])
  put_ids-Adds (ids_data, ap_tracking) identifiers items w known created =
      let (x', ran, has) = put_item-Adds py alloc context "ids" (vm_consts items) w in
      (x', ground (arith, known, created, ran), has)

  -- The entries of the context: the newest first.
  abbrev pub entries_of : S → Items → O → O → O → List (String × ContextValue O)
  entries_of vm items memory segments dict_manager =
      ("ids", vm_consts items)
      ∷ ("fp", register (m.get_fp vm))
      ∷ ("pc", register (py.get_pc vm))
      ∷ ("ap", register (m.get_ap vm))
      ∷ ("dict_manager", object dict_manager)
      ∷ ("segments", object segments)
      ∷ ("memory", object memory)
      ∷ []

  -- What the executor looks up is there: the context, the dictionary manager and the program's
  -- identifiers among the scopes, and an object for each variable of the hint that gets one.
  pub record CanPrepare (ids : List (String × R) × T) (dict_manager : M) (identifiers : Identifiers)
      (items : Items) (w : Env S E X) : Type 0 where
    pub context_found : py.get_context w.scopes ≡ success context
    pub dict_manager_found : py.get_dict_manager w.scopes ≡ success dict_manager
    pub identifiers_found : py.get_program_identifiers w.scopes ≡ success identifiers
    pub items_created : create_vm_consts_dict refs m identifiers ids.0 ids.1 w.vm ≡ success items

  prepare_context-Adds :
      (ids : List (String × R) × T) (d : M) (identifiers : Identifiers) (items : Items)
      (w : Env S E X)
      → CanPrepare ids d identifiers items w
      → (memory : O) × (segments : O) × (dict_manager : O) × (alloc.wraps memory ≡ memory_wrapper)
        × (alloc.wraps segments ≡ segments_wrapper)
        × (alloc.wraps dict_manager ≡ dict_manager_wrapper d)
        × Adds py context
            (prepare_context py refs m context ids)
            w
            (entries_of w.vm items memory segments dict_manager)
  unfolding prepare_context
  prepare_context-Adds ids d identifiers items w can =
      let found : Action (Env S E X) M =
        λ w. (dynamic py_object_creation (py.get_dict_manager w.scopes), w) in
      let last = registers py refs m context >> put_ids py refs m context ids in
      let with_manager : M → Action (Env S E X) (Unit {0}) =
        λ d. put_object py context "dict_manager" (dict_manager_wrapper d) >> last in
      let (a, wraps_a, added_a) = put_object-Adds py alloc context "memory" memory_wrapper w in
      let w1 : Env S E X = record w { interpreter = added_a.0 } in
      let (b, wraps_b, added_b) = put_object-Adds py alloc context "segments" segments_wrapper w1 in
      let w2 : Env S E X = record w { interpreter = added_b.0 } in
      let (c, wraps_c, added_c) =
        put_object-Adds py alloc context "dict_manager" (dict_manager_wrapper d) w2 in
      let w3 : Env S E X = record w { interpreter = added_c.0 } in
      let set : String → O → List (String × ContextValue O) = λ name o. (name, object o) ∷ [] in
      let registers_set : List (String × ContextValue O) =
        ("fp", register (m.get_fp w.vm))
        ∷ ("pc", register (py.get_pc w.vm))
        ∷ ("ap", register (m.get_ap w.vm))
        ∷ [] in
      let last_set = ("ids", vm_consts items) ∷ registers_set in
      let added_d = registers-Adds w3 in
      let added_ids =
        put_ids-Adds ids identifiers items (record w { interpreter = added_d.0 })
          can.identifiers_found can.items_created in
      let added_last =
        Adds->> py context (registers py refs m context) (put_ids py refs m context ids) w3
          registers_set (("ids", vm_consts items) ∷ []) added_d added_ids in
      let added_third =
        Adds->> py context (put_object py context "dict_manager" (dict_manager_wrapper d)) last w2
          (set "dict_manager" c) last_set added_c added_last in
      let manager = ap (λ r. (dynamic py_object_creation r, w2)) can.dict_manager_found in
      let added_bound : Adds py context (found >>= with_manager) w2
          (last_set ++ set "dict_manager" c) =
        (added_third.0, >>=-ok found with_manager w2 w2 d manager ∙ added_third.1, added_third.2) in
      let added_second =
        Adds->> py context (put_object py context "segments" segments_wrapper)
          (found >>= with_manager) w1 (set "segments" b) (last_set ++ set "dict_manager" c) added_b
          added_bound in
      (
        a,
        b,
        c,
        wraps_a,
        wraps_b,
        wraps_c,
        Adds->> py context (put_object py context "memory" memory_wrapper)
            (put_object py context "segments" segments_wrapper >> (found >>= with_manager)) w
            (set "memory" a) ((last_set ++ set "dict_manager" c) ++ set "segments" b) added_a
            added_second,
      )

  -- If the scopes have the context, a dictionary manager and the program's identifiers, an object
  -- is made for the hint's variables, the interpreter has the memory for new objects and items, and
  -- the code has no zero character: the injected code and the hint's code run in that context, on
  -- the same machine and scopes. The context then has wrappers of the memory, the segments and the
  -- dictionary manager, the current registers and the current `ids`, and otherwise what it had. An
  -- error of the code becomes a hint error.
  pub run_in_context_lem :
      (hint_code : String) (ids : List (String × R) × T) (d : M) (identifiers : Identifiers)
      (items : Items) (w : Env S E X)
      → CanPrepare ids d identifiers items w
      → has_nul (full_hint_code hint_code) ≡ false
      → (memory : O) × (segments : O) × (dict_manager : O) × (x : X) × (alloc.wraps memory
          ≡ memory_wrapper)
        × (alloc.wraps segments ≡ segments_wrapper)
        × (alloc.wraps dict_manager ≡ dict_manager_wrapper d)
        × ((name : String)
            → py.get_item x context name
              ≡ overlay
                  (entries_of w.vm items memory segments dict_manager)
                  (py.get_item w.interpreter context)
                  name)
        × (run_in_context py refs m hint_code ids w
            ≡ outcome (py.run (full_hint_code hint_code) context (record w { interpreter = x })))
  unfolding run_in_context
  run_in_context_lem hint_code ids d identifiers items w can no_nul =
      let (a, b, c, wraps_a, wraps_b, wraps_c, (x, ran, has)) =
        prepare_context-Adds ids d identifiers items w can in
      (a, b, c, x, wraps_a, wraps_b, wraps_c, has, ground (arith, can.context_found, ran, no_nul))
