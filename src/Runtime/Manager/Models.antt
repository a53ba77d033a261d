-- ===== src/Runtime/Manager/Models.antt =====
-- ListModels.
use mantlerd.Base.{
  ◌≡◌, refl, sym, subst, ap, ◌∙◌, ◌↔◌, ◌⊎◌, inl, inr, false, String, List, [], ◌∷◌, Memᴰ, text_le,
  sort-perm, Memᴰ-perm, elem, elem-Memᴰ, str_eq, trim_space, Bool-cases, if◌then◌else◌,
}
use mathlib.Core.List.Permᴰ
use mantlerd.Runtime.Driver.{Driver, Result, ok, err}
use mantlerd.Runtime.Manager.{
  Manager, driver_for, installed_runtimes, add_models, collect_models, list_models,
}

abbrev pub IsNamed : String → Type 0
IsNamed model = str_eq (trim_space model) "" ≡ false

-- One round of the loop over a driver's models.
add_model : String → List String → List String
add_model model set =
    if str_eq (trim_space model) "" then set else (if elem model set then set else model ∷ set)

add_model_sound :
    (a model : String) (set : List String)
    → Memᴰ a (add_model model set)
    → ((a ≡ model) × IsNamed model) ⊎ Memᴰ a set
unfolding add_model
add_model_sound a model set k = elim (Bool-cases (str_eq (trim_space model) "")) [
  | inl blank ↦ inr (rw blank at k)
  | inr named ↦ elim (Bool-cases (elem model set)) [
    | inl old ↦ inr (rw (named, old) at k)
    | inr new ↦ first named (rw (named, new) at k)
  ]
]
  where
    first : IsNamed model → Memᴰ a (model ∷ set) → ((a ≡ model) × IsNamed model) ⊎ Memᴰ a set
    first named (Memᴰ.head e) = inl (e, named)
    first named (Memᴰ.tail t) = inr t

add_model-keeps :
    {a : String} (model : String) (set : List String) → Memᴰ a set → Memᴰ a (add_model model set)
unfolding add_model
add_model-keeps model set k = elim (Bool-cases (str_eq (trim_space model) "")) [
  | inl blank ↦ rw blank k
  | inr named ↦ elim (Bool-cases (elem model set)) [
    | inl old ↦ rw (named, old) k
    | inr new ↦ rw (named, new) (Memᴰ.tail k)
  ]
]

add_model-adds :
    (model : String) (set : List String) → IsNamed model → Memᴰ model (add_model model set)
unfolding add_model
add_model-adds model set named = elim (Bool-cases (elem model set)) [
  | inl old ↦ rw (named, old) (elem-Memᴰ model set old)
  | inr new ↦ rw (named, new) (Memᴰ.head refl)
]

add_models_sound :
    (a : String) (models set : List String)
    → Memᴰ a (add_models models set)
    → (Memᴰ a models × IsNamed a) ⊎ Memᴰ a set
unfolding add_models add_model
add_models_sound a [] set k = inr k
add_models_sound a (model ∷ models) set k = elim (add_models_sound a models _ k) [
  | inl (later, named) ↦ inl (Memᴰ.tail later, named)
  | inr before ↦ elim (add_model_sound a model set before) [
    | inl (e, named) ↦ inl (Memᴰ.head e, subst IsNamed (sym e) named)
    | inr old ↦ inr old
  ]
]

add_models-keeps :
    {a : String} (models set : List String) → Memᴰ a set → Memᴰ a (add_models models set)
unfolding add_models add_model
add_models-keeps [] set k = k
add_models-keeps (model ∷ models) set k = add_models-keeps models _ (add_model-keeps model set k)

add_models-adds :
    (a : String) (models set : List String)
    → IsNamed a
    → Memᴰ a models
    → Memᴰ a (add_models models set)
unfolding add_models add_model
add_models-adds a [] set named k = elim k [ ]
add_models-adds a (model ∷ models) set named (Memᴰ.head e) = add_models-keeps models _ (
    subst (λ x. Memᴰ x (add_model model set)) (sym e)
      (add_model-adds model set (subst IsNamed e named)))
add_models-adds a (model ∷ models) set named (Memᴰ.tail k) = add_models-adds a models _ named k

module _ {W : Type 0} (m : Manager W) (w : W) where
  -- The driver of one of some runtimes lists the model, and its name is not blank.
  abbrev pub IsListedBy : List String → String → Type 0
  IsListedBy names model =
      (name : String) × (d : Driver W) × Memᴰ name names
      × (driver_for m name ≡ ok d)
      × Memᴰ model (d.list_models w)
      × IsNamed model

  collect_sound :
      (a : String) (names set : List String)
      → Memᴰ a (collect_models m w names set)
      → IsListedBy names a ⊎ Memᴰ a set
  unfolding collect_models
  collect_sound a [] set k = inr k
  collect_sound a (name ∷ names) set k = elim (collect_sound a names _ k) [
    | inl (n, d, p, q, r, s) ↦ inl (n, d, Memᴰ.tail p, q, r, s)
    | inr before ↦ go (driver_for m name) refl before
  ]
    where
      go :
          (r : Result (Driver W))
          → driver_for m name ≡ r
          → Memᴰ a (elim r [ ok d ↦ add_models (d.list_models w) set | err e ↦ set ])
          → IsListedBy (name ∷ names) a ⊎ Memᴰ a set
      go (err x) e k = inr k
      go (ok d) e k = elim (add_models_sound a (d.list_models w) set k) [
        | inl (listed, named) ↦ inl (name, d, Memᴰ.head refl, e, listed, named)
        | inr old ↦ inr old
      ]

  collect-keeps :
      {a : String} (names set : List String) → Memᴰ a set → Memᴰ a (collect_models m w names set)
  unfolding collect_models
  collect-keeps [] set k = k
  collect-keeps {a} (name ∷ names) set k = collect-keeps names _ (go (driver_for m name))
    where
      go :
          (r : Result (Driver W))
          → Memᴰ a (elim r [ ok d ↦ add_models (d.list_models w) set | err e ↦ set ])
      go (err x) = k
      go (ok d) = add_models-keeps (d.list_models w) set k

  collect-adds :
      (a : String) (names set : List String)
      → IsListedBy names a
      → Memᴰ a (collect_models m w names set)
  unfolding collect_models
  collect-adds a [] set (n, d, k, _, _, _) = elim k [ ]
  collect-adds a (name ∷ names) set (n, d, Memᴰ.tail k, e, l, s) =
      collect-adds a names _ (n, d, k, e, l, s)
  collect-adds a (name ∷ names) set (n, d, Memᴰ.head k, e, l, s) =
      collect-keeps names _
        (rw (ap (driver_for m) (sym k) ∙ e) (add_models-adds a (d.list_models w) set s l))

  -- ListModels lists exactly the models of a name that is not blank which the driver of some
  -- installed runtime lists.
  pub list_models_iff :
      (model : String) → Memᴰ model (list_models m w) ↔ IsListedBy (installed_runtimes m w) model
  unfolding list_models
  list_models_iff model = (
    λ k.
        elim (collect_sound model (installed_runtimes m w) [] (Memᴰ-perm (sort-perm text_le _) k)) [
          | inl l ↦ l
          | inr none_before ↦ elim none_before [ ]
        ],
    λ l.
        Memᴰ-perm (Permᴰ.symm (sort-perm text_le _))
          (collect-adds model (installed_runtimes m w) [] l),
  )
