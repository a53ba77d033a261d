-- ===== src/Transfer/Store/Choice.antt =====
-- Which file the loops over the disk choose.
use mantlerd.Base.{
  ℕ, ◌≤◌, ◌≡◌, refl, sym, subst, ◌⊎◌, inl, inr, true, false, String, List, [], ◌∷◌, Memᴰ, Option,
  none, some, arith, ltb→lt, ltb, str_eq, eq_iff, Bool-cases, if◌then◌else◌,
}
use mantlerd.Transfer.Server.{ModelFile}
use mantlerd.Transfer.Store.{Disk, largest, digest_of, find_ollama_via_filesystem}

-- An entry of the list, or the entry that the loop starts from, with no smaller value than any of these.
abbrev pub IsLargest : List (String × ℕ) → String × ℕ → String × ℕ → Type 0
IsLargest files best r =
    ((r ≡ best) ⊎ Memᴰ r files) × (best.1 ≤ r.1) × ((e : String × ℕ) → Memᴰ e files → e.1 ≤ r.1)

replaced :
    {files : List (String × ℕ)} {x best r : String × ℕ}
    → ltb best.1 x.1 ≡ true
    → IsLargest files x r
    → IsLargest (x ∷ files) best r
replaced {files = files} {x = x} {best = best} {r = r} larger (from, above, all) = (
  inr (elim from [ inl e ↦ Memᴰ.head e | inr m ↦ Memᴰ.tail m ]),
  ground (arith, ltb→lt best.1 x.1),
  cover,
)
  where
    cover : (e : String × ℕ) → Memᴰ e (x ∷ files) → e.1 ≤ r.1
    cover e (Memᴰ.head same) = subst (λ (y : String × ℕ). y.1 ≤ r.1) (sym same) above
    cover e (Memᴰ.tail m) = all e m

kept :
    {files : List (String × ℕ)} {x best r : String × ℕ}
    → ltb best.1 x.1 ≡ false
    → IsLargest files best r
    → IsLargest (x ∷ files) best r
kept {files = files} {x = x} {best = best} {r = r} smaller (from, above, all) =
    (elim from [ inl e ↦ inl e | inr m ↦ inr (Memᴰ.tail m) ], above, cover)
  where
    below : x.1 ≤ r.1
    below = ground arith

    cover : (e : String × ℕ) → Memᴰ e (x ∷ files) → e.1 ≤ r.1
    cover e (Memᴰ.head same) = subst (λ (y : String × ℕ). y.1 ≤ r.1) (sym same) below
    cover e (Memᴰ.tail m) = all e m

largest_larger :
    (x best : String × ℕ) (files : List (String × ℕ))
    → ltb best.1 x.1 ≡ true
    → largest files x ≡ largest (x ∷ files) best
unfolding largest
largest_larger (path, size) best files h = rw h refl

largest_smaller :
    (x best : String × ℕ) (files : List (String × ℕ))
    → ltb best.1 x.1 ≡ false
    → largest files best ≡ largest (x ∷ files) best
unfolding largest
largest_smaller (path, size) best files h = rw h refl

largest-IsLargest :
    (files : List (String × ℕ)) (best : String × ℕ) → IsLargest files best (largest files best)
unfolding largest
largest-IsLargest [] best = (inl refl, omega arith, λ e m. elim m [ ])
largest-IsLargest (x ∷ files) best = elim (Bool-cases (ltb best.1 x.1)) [
  | inl larger ↦
      subst (IsLargest (x ∷ files) best) (largest_larger x best files larger)
        (replaced larger (largest-IsLargest files x))
  | inr smaller ↦
      subst (IsLargest (x ∷ files) best) (largest_smaller x best files smaller)
        (kept smaller (largest-IsLargest files best))
]

module _ (d : Disk) where
  -- If the search of Ollama's blobs finds a file, then the file is one of the blobs, with its size and its
  -- SHA-256 digest, and no blob is larger.
  pub find_ollama-IsLargest :
      (f : ModelFile)
      → find_ollama_via_filesystem d ≡ some f
      → (files : List (String × ℕ)) × (d.blobs ≡ some files)
        × Memᴰ (f.path, f.size) files
        × (d.sha256 f.path ≡ some f.digest)
        × ((e : String × ℕ) → Memᴰ e files → e.1 ≤ f.size)
  unfolding find_ollama_via_filesystem digest_of
  find_ollama-IsLargest f h = go d.blobs refl h
    where
      hashed :
          (files : List (String × ℕ)) (best : String × ℕ)
          → d.blobs ≡ some files
          → str_eq best.0 "" ≡ false
          → IsLargest files ("", 0) best
          → (o : Option String) → d.sha256 best.0 ≡ o
          → (elim o [
            | none ↦ none
            | some digest ↦ some (record { path = best.0; digest = digest; size = best.1 })
          ])
            ≡ some f
          → (fs : List (String × ℕ)) × (d.blobs ≡ some fs)
            × Memᴰ (f.path, f.size) fs
            × (d.sha256 f.path ≡ some f.digest)
            × ((e : String × ℕ) → Memᴰ e fs → e.1 ≤ f.size)
      hashed files best e named l none s k = absurd (cc k)
      hashed files best e named (inl same, above, all) (some digest) s k =
          let empty : best.0 ≡ "" = cc same in absurd (cc (named, (eq_iff best.0 "").1 empty))
      hashed files best e named (inr m, above, all) (some digest) s k =
          let found : record { path = best.0; digest = digest; size = best.1 } ≡ f = cc k in
          subst
            (λ (x : ModelFile).
              (fs : List (String × ℕ)) × (d.blobs ≡ some fs)
              × Memᴰ (x.path, x.size) fs
              × (d.sha256 x.path ≡ some x.digest)
              × ((y : String × ℕ) → Memᴰ y fs → y.1 ≤ x.size))
            found (files, e, m, s, all)

      go :
          (o : Option (List (String × ℕ)))
          → d.blobs ≡ o
          → (elim o [
            | none ↦ none
            | some files ↦
                let best = largest files ("", 0) in
                if str_eq best.0 "" then none else digest_of d best
          ])
            ≡ some f
          → (fs : List (String × ℕ)) × (d.blobs ≡ some fs)
            × Memᴰ (f.path, f.size) fs
            × (d.sha256 f.path ≡ some f.digest)
            × ((e : String × ℕ) → Memᴰ e fs → e.1 ≤ f.size)
      go none e k = absurd (cc k)
      go (some files) e k = elim (Bool-cases (str_eq (largest files ("", 0)).0 "")) [
        | inl nameless ↦ absurd (nope (rw nameless at k))
        | inr named ↦
            let best = largest files ("", 0) in
            hashed files best e named (largest-IsLargest files ("", 0)) (d.sha256 best.0) refl
              (rw named at k)
      ]
        where
          nope : none ≡ some f → ⊥
          nope q = cc q
