-- ===== src/Hints/Invariant.antt =====
-- The invariant of the dictionary manager that the hints keep, on every path: each tracker stands
-- under the segment of its pointer.
pub mod Hashed
pub mod Trackers
pub mod Reach
use keth.Prelude.{
  ℕ, ℤ, int_eq, int_eq_iff, Option, some, none, true, false, ◌≡◌, refl, sym, ap, ◌∙◌, arith,
  Bool-cases, inl, inr, ◌⊎◌, Option-cases, Relocatable, Result, ok, err, panic, HintError, Action,
  lift, pure, ◌>>=◌, ◌>>◌, if◌then◌else◌, List,
}
use mathlib.Core.Path.{subst}
use keth.Machine.{Value}
use keth.Dicts.{
  DictKey, Dicts, DictManager, DictTracker, World, in_vm, get_dict_manager, set_dict_manager,
  set_tracker, set_preimage,
}

abbrev pub IsPlaced : {D : Type 0} → DictManager D → Type 0
IsPlaced {D} g =
    (j : ℤ) (t : DictTracker D) → g.trackers j ≡ some t → t.current_ptr.segment_index ≡ j

abbrev pub IsConsistent : {S D : Type 0} → World S D → Type 0
IsConsistent {D} w = (g : DictManager D) → w.dict_manager ≡ some g → IsPlaced g

-- On every path the action keeps the invariant, and what it returns has the property `Q`.
pub record Keeps {S D A : Type 0} (Q : A → Type 0) (m : Action (World S D) A) : Type 0 where
  pub state : (w : World S D) → IsConsistent w → IsConsistent (m w).1
  pub result : (w : World S D) → IsConsistent w → (a : A) → (m w).0 ≡ ok a → Q a

pub IsPlaced-set_tracker :
    {D : Type 0} (g : DictManager D) (j : ℤ) (t : DictTracker D)
    → IsPlaced g
    → t.current_ptr.segment_index ≡ j
    → IsPlaced (set_tracker g j t)
IsPlaced-set_tracker g j t placed here k u e = elim (Bool-cases (int_eq j k)) [
  | inl same ↦ ground (arith, int_eq_iff j k)
  | inr other ↦ placed k u (ground arith)
]

module _ {S D : Type 0} where
  module _ {A : Type 0} where
    pub Keeps-in_vm : (step : Action S A) → Keeps {D = D} (λ _. Unit {0}) (in_vm step)
    Keeps-in_vm step = record { state = λ w h. h; result = λ w h a e. tt }

    pub Keeps-lift :
        (Q : A → Type 0) (r : Result A)
        → ((a : A) → r ≡ ok a → Q a)
        → Keeps {S = S} {D = D} Q (lift r)
    Keeps-lift Q r q = record { state = λ w h. h; result = λ w h a e. q a e }

  get_dict_manager-cases :
      (dicts : Dicts S D) (w : World S D)
      → (get_dict_manager dicts w ≡ (err dicts.get_dict_manager_error, w))
        ⊎ ((g : DictManager D) × (w.dict_manager ≡ some g) × (get_dict_manager dicts w ≡ (ok g, w)))
  get_dict_manager-cases dicts w = elim (Option-cases w.dict_manager) [
    | inl e ↦ inl (ground arith)
    | inr (g, e) ↦ inr (g, e, ground arith)
  ]

  pub Keeps-get_dict_manager : (dicts : Dicts S D) → Keeps IsPlaced (get_dict_manager dicts)
  Keeps-get_dict_manager dicts = record {
    state =
        λ w h. elim (get_dict_manager-cases dicts w) [ inl e ↦ rw e h | inr (g, at, e) ↦ rw e h ];
    result = λ w h a k. elim (get_dict_manager-cases dicts w) [
      | inl e ↦ absurd (ground arith)
      | inr (g, at, e) ↦ h a (at ∙ ap some (ground arith))
    ];
  }

  pub Keeps-set_dict_manager :
      (g : DictManager D) → IsPlaced g → Keeps (λ _. Unit {0}) (set_dict_manager {S = S} g)
  Keeps-set_dict_manager g placed = record {
    state = λ w h g' e. let same : g ≡ g' = cc e in subst IsPlaced same placed;
    result = λ w h a e. tt;
  }

  -- What follows a step whose outcome is known.
  abbrev continue :
      {A B : Type 0} → (A → Action (World S D) B) → Result A × World S D → Result B × World S D
  continue {B} f r = elim r.0 as (λ _. Result B × World S D) [
    | ok a ↦ f a r.1
    | err e ↦ (err e, r.1)
    | panic ↦ (panic, r.1)
  ]

  pub Keeps-bind :
      {A B : Type 0} (Q : A → Type 0) (R : B → Type 0) (m : Action (World S D) A)
      (f : A → Action (World S D) B)
      → Keeps Q m
      → ((a : A) → Q a → Keeps R (f a))
      → Keeps R (m >>= f)
  Keeps-bind {A} {B} Q R m f km kf = record {
    state = λ w h. after (m w) (km.state w h) (km.result w h);
    result = λ w h. returns (m w) (km.state w h) (km.result w h);
  }
    where
      after :
          (r : Result A × World S D)
          → IsConsistent r.1
          → ((a : A) → r.0 ≡ ok a → Q a)
          → IsConsistent (continue f r).1
      after (ok a, w) h q = (kf a (q a refl)).state w h
      after (err e, w) h q = h
      after (panic, w) h q = h

      returns :
          (r : Result A × World S D)
          → IsConsistent r.1
          → ((a : A) → r.0 ≡ ok a → Q a)
          → (b : B) → (continue f r).0 ≡ ok b
          → R b
      returns (ok a, w) h q b e = (kf a (q a refl)).result w h b e
      returns (err x, w) h q b e = absurd (ground arith)
      returns (panic, w) h q b e = absurd (ground arith)

-- The rules by which the proofs for the hints go down a `do` block: the first step, and the rest.
module _ {S D : Type 0} where
  module _ {B : Type 0} where
    pub Keeps-vm :
        {A : Type 0} (step : Action S A) (f : A → Action (World S D) B)
        → ((a : A) → Keeps (λ _. Unit {0}) (f a))
        → Keeps (λ _. Unit {0}) (in_vm step >>= f)
    Keeps-vm step f rest =
        Keeps-bind (λ _. Unit {0}) _ (in_vm step) f (Keeps-in_vm step) (λ a _. rest a)

    pub Keeps-result :
        {A : Type 0} (r : Result A) (f : A → Action (World S D) B)
        → ((a : A) → Keeps (λ _. Unit {0}) (f a))
        → Keeps (λ _. Unit {0}) (lift r >>= f)
    Keeps-result r f rest =
        Keeps-bind (λ _. Unit {0}) _ (lift r) f (Keeps-lift _ r (λ a _. tt)) (λ a _. rest a)

    pub Keeps-manager :
        (dicts : Dicts S D) (f : DictManager D → Action (World S D) B)
        → ((g : DictManager D) → IsPlaced g → Keeps (λ _. Unit {0}) (f g))
        → Keeps (λ _. Unit {0}) (get_dict_manager dicts >>= f)
    Keeps-manager dicts f rest =
        Keeps-bind IsPlaced _ (get_dict_manager dicts) f (Keeps-get_dict_manager dicts) rest

    pub Keeps-tracker :
        (dicts : Dicts S D) (g : DictManager D) (p : Relocatable)
        (f : DictTracker D → Action (World S D) B)
        → ((t : DictTracker D)
            → t.current_ptr.segment_index ≡ p.segment_index
            → Keeps (λ _. Unit {0}) (f t))
        → Keeps (λ _. Unit {0}) (lift (dicts.get_tracker g p) >>= f)
    Keeps-tracker dicts g p f rest =
        Keeps-bind (λ t. t.current_ptr.segment_index ≡ p.segment_index) _
          (lift (dicts.get_tracker g p)) f
          (Keeps-lift _ (dicts.get_tracker g p)
            (λ t e. ap (λ q. q.segment_index) (dicts.get_tracker_inv g p t e).1))
          rest

    pub Keeps-store :
        (g : DictManager D) (f : Action (World S D) B)
        → IsPlaced g
        → Keeps (λ _. Unit {0}) f
        → Keeps (λ _. Unit {0}) (set_dict_manager g >> f)
    Keeps-store g f placed rest =
        Keeps-bind (λ _. Unit {0}) _ (set_dict_manager g) (λ _. f) (Keeps-set_dict_manager g placed)
          (λ _ _. rest)
