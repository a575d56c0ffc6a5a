-- ===== src/Python/Executor/Context.antt =====
-- What the code of a Python hint finds in its context.
use text.Mathlib.Text.{◌==◌ as str_eq}
use keth.Prelude.{
  String, List, [], ◌∷◌, ◌++◌, Option, some, if◌then◌else◌, ◌≡◌, refl, sym, ap, ◌∙◌, ok, Action,
  ◌>>◌, >>-ok, >>=-ok,
}
use keth.Python.{success}
use keth.Python.Variables.{py_object_creation}
use keth.Python.Injector.{dynamic}
use keth.Python.Executor.{Python, Env, Wrapper, ContextValue, object, call, put_item, put_object}

-- A dictionary with entries in front of those it had.
abbrev pub overlay : {A : Type 0} → List (String × A) → (String → Option A) → String → Option A
overlay [] before name = before name
overlay ((n, a) ∷ rest) before name = if str_eq n name then some a else overlay rest before name

overlay-append :
    {A : Type 0} (xs ys : List (String × A)) (before : String → Option A) (name : String)
    → overlay (xs ++ ys) before name ≡ overlay xs (overlay ys before) name
overlay-append [] ys before name = refl
overlay-append ((n, a) ∷ xs) ys before name =
    ap (λ o. if str_eq n name then some a else o) (overlay-append xs ys before name)

overlay_before :
    {A : Type 0} (xs : List (String × A)) (f g : String → Option A) (name : String)
    → ((name : String) → f name ≡ g name)
    → overlay xs f name ≡ overlay xs g name
overlay_before [] f g name h = h name
overlay_before ((n, a) ∷ xs) f g name h =
    ap (λ o. if str_eq n name then some a else o) (overlay_before xs f g name h)

module _ {S E X C O M : Type 0} (py : Python S E X C O M) where
  -- An interpreter that has the memory for new objects and items, and what an object wraps.
  pub record Allocates : Type 0 where
    pub wraps : O → Wrapper M
    pub py_new_lem :
        (wrapper : Wrapper M) (x : X)
        → (o : O) × (x' : X) × (py.py_new wrapper x ≡ (success o, x'))
          × (wraps o ≡ wrapper)
          × ((context : C) (name : String)
              → py.get_item x' context name ≡ py.get_item x context name)
    pub set_item_lem :
        (context : C) (name : String) (value : ContextValue O) (x : X)
        → (x' : X) × (py.set_item context name value x ≡ (success tt, x'))
          × ((n : String)
              → py.get_item x' context n
                ≡ (if str_eq name n then some value else py.get_item x context n))

  -- The action succeeds and changes only the interpreter, where the context gets the entries.
  abbrev pub Adds :
      C → Action (Env S E X) (Unit {0}) → Env S E X → List (String × ContextValue O) → Type 0
  Adds context action w entries =
      (x' : X) × (action w ≡ (ok tt, record w { interpreter = x' }))
      × ((n : String)
          → py.get_item x' context n ≡ overlay entries (py.get_item w.interpreter context) n)

  pub Adds->> :
      (context : C) (first second : Action (Env S E X) (Unit {0})) (w : Env S E X)
      (entries later : List (String × ContextValue O))
      → (a : Adds context first w entries)
      → Adds context second (record w { interpreter = a.0 }) later
      → Adds context (first >> second) w (later ++ entries)
  Adds->> context first second w entries later (x, ran, has) (x', ran', has') = (
    x',
    >>-ok first second w (record w { interpreter = x }) ran ∙ ran',
    λ n.
        has' n
        ∙ overlay_before later (py.get_item x context)
            (overlay entries (py.get_item w.interpreter context)) n has
        ∙ sym (overlay-append later entries (py.get_item w.interpreter context) n),
  )

  module _ (alloc : Allocates) (context : C) where
    pub put_item-Adds :
        (name : String) (value : ContextValue O) (w : Env S E X)
        → Adds context (put_item py context name value) w ((name, value) ∷ [])
    put_item-Adds name value w =
        let (x', ran, has) = alloc.set_item_lem context name value w.interpreter in
        (x', rw ran refl, has)

    pub put_object-Adds :
        (name : String) (wrapper : Wrapper M) (w : Env S E X)
        → (o : O) × (alloc.wraps o ≡ wrapper)
          × Adds context (put_object py context name wrapper) w ((name, object o) ∷ [])
    put_object-Adds name wrapper w =
        let (o, x, made, wraps, same) = alloc.py_new_lem wrapper w.interpreter in
        let (x', ran, has) = put_item-Adds name (object o) (record w { interpreter = x }) in
        (
          o,
          wraps,
          (
            x',
            >>=-ok (call py py_object_creation (py.py_new wrapper))
                  (λ made. put_item py context name (object made)) w (record w { interpreter = x })
                  o
                  (ap (λ r. (dynamic py_object_creation r.0, record w { interpreter = r.1 })) made)
                ∙ ran,
            λ n. has n ∙ ap (λ v. if str_eq name n then some (object o) else v) (same context n),
          ),
        )
