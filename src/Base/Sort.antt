-- ===== src/Base/Sort.antt =====
-- Sorting by a Boolean order: the result of package sort, where the order leaves one result.
use mathlib.Core.Path.{◌≡◌, refl, sym, ◌∙◌}
use mathlib.Core.Logic.{◌⊎◌, inl, inr}
use mathlib.Core.Bool.{Bool, true, false}
use mathlib.Core.List.{List, [], ◌∷◌, Permᴰ}
use mathlib.Core.List.Permᴰ
use native.Mathlib.Omega.{arith}
use mantlerd.Base.Tests.{if◌then◌else◌, Bool-cases}
use mantlerd.Base.Lists.{All}

-- What the laws below need of an order.
pub record IsOrder {ℓ} {A : Type ℓ} (le : A → A → Bool) : Type ℓ where
  pub total : (a b : A) → (le a b ≡ true) ⊎ (le b a ≡ true)
  pub trans : (a b c : A) → le a b ≡ true → le b c ≡ true → le a c ≡ true

module _ {ℓ} {A : Type ℓ} (le : A → A → Bool) where
  insert_sorted : A → List A → List A
  insert_sorted a [] = a ∷ []
  insert_sorted a (x ∷ xs) =
      let rest = insert_sorted a xs in if le a x then a ∷ x ∷ xs else x ∷ rest

  unfoldable pub sort : List A → List A
  unfolding insert_sorted
  sort [] = []
  sort (x ∷ xs) = insert_sorted x (sort xs)

  abbrev pub IsSorted : List A → Type ℓ
  IsSorted [] = Unit
  IsSorted (x ∷ xs) = All (λ y. le x y ≡ true) xs × IsSorted xs

  insert_sorted-perm : (a : A) (xs : List A) → Permᴰ (insert_sorted a xs) (a ∷ xs)
  unfolding insert_sorted
  insert_sorted-perm a [] = Permᴰ.refl (a ∷ [])
  insert_sorted-perm a (x ∷ xs) = elim (Bool-cases (le a x)) [
    | inl e ↦ rw e (Permᴰ.refl (a ∷ x ∷ xs))
    | inr e ↦ rw e (Permᴰ.trans (Permᴰ.cons refl (insert_sorted-perm a xs)) (Permᴰ.swap refl refl))
  ]

  -- Sorting rearranges.
  pub sort-perm : (xs : List A) → Permᴰ (sort xs) xs
  unfolding sort
  sort-perm [] = Permᴰ.nil
  sort-perm (x ∷ xs) = Permᴰ.trans (insert_sorted-perm x (sort xs)) (Permᴰ.cons refl (sort-perm xs))

  module _ (o : IsOrder le) where
    All-le :
        (a b : A) (xs : List A)
        → le a b ≡ true
        → All (λ y. le b y ≡ true) xs
        → All (λ y. le a y ≡ true) xs
    All-le a b [] h k = tt
    All-le a b (x ∷ xs) h k = (o.trans a b x h k.0, All-le a b xs h k.1)

    All-insert_sorted :
        (a b : A) (xs : List A)
        → le b a ≡ true
        → All (λ y. le b y ≡ true) xs
        → All (λ y. le b y ≡ true) (insert_sorted a xs)
    unfolding insert_sorted
    All-insert_sorted a b [] h k = (h, tt)
    All-insert_sorted a b (x ∷ xs) h k = elim (Bool-cases (le a x)) [
      | inl e ↦ rw e (h, k)
      | inr e ↦ rw e (k.0, All-insert_sorted a b xs h k.1)
    ]

    le_of_not : (a b : A) → le a b ≡ false → le b a ≡ true
    le_of_not a b h = elim (o.total a b) [ inl k ↦ cc | inr k ↦ k ]

    insert_sorted-IsSorted : (a : A) (xs : List A) → IsSorted xs → IsSorted (insert_sorted a xs)
    unfolding insert_sorted
    insert_sorted-IsSorted a [] h = (tt, tt)
    insert_sorted-IsSorted a (x ∷ xs) h = elim (Bool-cases (le a x)) [
      | inl e ↦ rw e ((e, All-le a x xs e h.0), h)
      | inr e ↦
          rw e (All-insert_sorted a x xs (le_of_not a x e) h.0, insert_sorted-IsSorted a xs h.1)
    ]

    -- Sorting puts in order.
    pub sort-IsSorted : (xs : List A) → IsSorted (sort xs)
    unfolding sort
    sort-IsSorted [] = tt
    sort-IsSorted (x ∷ xs) = insert_sorted-IsSorted x (sort xs) (sort-IsSorted xs)

    module _ (antisymm : (a b : A) → le a b ≡ true → le b a ≡ true → a ≡ b) where
      insert_sorted_comm :
          (a b : A) (xs : List A)
          → insert_sorted a (insert_sorted b xs) ≡ insert_sorted b (insert_sorted a xs)
      unfolding insert_sorted
      insert_sorted_comm a b [] = let t = o.total a b in let s = antisymm a b in ground arith
      insert_sorted_comm a b (x ∷ xs) =
          let ih = insert_sorted_comm a b xs in
          ground (arith, o.total a b, antisymm a b, o.trans a b x, o.trans b a x)

      -- The result depends on the entries alone, not on the order in which they come.
      pub sort-eq_of_perm : {xs ys : List A} → Permᴰ xs ys → sort xs ≡ sort ys
      unfolding sort
      sort-eq_of_perm Permᴰ.nil = refl
      sort-eq_of_perm (Permᴰ.cons e p) = let ih = sort-eq_of_perm p in cc
      sort-eq_of_perm (Permᴰ.swap {a = a} {b = b} {l = l} e f) =
          rw (sym e, sym f) (insert_sorted_comm a b (sort l))
      sort-eq_of_perm (Permᴰ.trans p q) = sort-eq_of_perm p ∙ sort-eq_of_perm q
