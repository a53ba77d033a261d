-- ===== src/Explore/Files/Restored.antt =====
-- The files of a plan can be taken back.
use mantlerd.Base.{
  ◌≡◌, refl, sym, ap, ◌∙◌, inl, inr, Bool, String, List, [], ◌∷◌, Option, none, some, str_eq,
  eq_iff, trim_space, Bool-cases, if-holds,
}
use mantlerd.Explore.Paths.{Sanitized, sanitized, refused, sanitize_runtime_plan_path}
use mantlerd.Explore.Files.{
  RuntimePlanFile, Files, write_file, Read, missing, read_failed, found, found_or_missing, Restore,
  restore_file, restore_all, Round, skipped, failing, writing, Applied, applied, failed, read_file,
  content_of, replace_round, content_round, sanitized_round, round, apply_files,
  apply_runtime_plan_files,
}

-- Writing what a path held takes a change of it back.
restore-at :
    (p content q : String) (original : Option String) (files : Files)
    → files p ≡ original
    → restore_file (record { path = p; original = original }) (write_file p content files) q
      ≡ files q
restore-at p content q none files h = elim (Bool-cases (str_eq q p)) [
  | inl e ↦ rw e (sym h ∙ ap files (sym ((eq_iff q p).0 e)))
  | inr e ↦ rw e refl
]
restore-at p content q (some c) files h = elim (Bool-cases (str_eq q p)) [
  | inl e ↦ rw e (sym h ∙ ap files (sym ((eq_iff q p).0 e)))
  | inr e ↦ rw e refl
]

pub restore-write :
    (r : Restore) (content : String) (files : Files)
    → files r.path ≡ r.original
    → restore_file r (write_file r.path content files) ≡ files
restore-write r content files h i q = restore-at r.path content q r.original files h i

module _ (unreadable writable : String → Bool) where
  -- A round that writes has read what its destination holds.
  abbrev HasOriginal : Files → Round → Type 0
  HasOriginal files skipped = Unit
  HasOriginal files (failing e) = Unit
  HasOriginal files (writing r content) = files r.path ≡ r.original

  -- What a file was found to hold.
  abbrev pub Finds : Option String → Read → Type 0
  Finds o read_failed = Unit
  Finds o missing = o ≡ none
  Finds o (found content) = o ≡ some content

  pub read_file-Finds :
      (path : String) (files : Files)
      → Finds (files path) (read_file unreadable writable path files)
  read_file-Finds path files =
      if-holds (Finds (files path)) (unreadable path) (λ e. tt) (λ e. go (files path))
    where
      go : (o : Option String) → Finds o (found_or_missing o)
      go none = refl
      go (some c) = refl

  replace-HasOriginal :
      (path content : String) (files : Files) (o : Read)
      → Finds (files path) o
      → HasOriginal files (replace_round unreadable writable path content o)
  replace-HasOriginal path content files read_failed h = tt
  replace-HasOriginal path content files missing h =
      if-holds (HasOriginal files) (writable path) (λ e. h) (λ e. tt)
  replace-HasOriginal path content files (found c) h =
      if-holds (HasOriginal files) (writable path) (λ e. h) (λ e. tt)

  content-HasOriginal :
      (path : String) (files : Files) (o : Read)
      → HasOriginal files (content_round unreadable writable path files o)
  content-HasOriginal path files missing = tt
  content-HasOriginal path files read_failed = tt
  content-HasOriginal path files (found content) =
      if-holds (HasOriginal files) (str_eq content "") (λ e. tt)
        (λ e. replace-HasOriginal path content files _ (read_file-Finds path files))

  sanitized-HasOriginal :
      (file : RuntimePlanFile) (files : Files) (o : Sanitized)
      → HasOriginal files (sanitized_round unreadable writable file files o)
  sanitized-HasOriginal file files (refused e) = tt
  sanitized-HasOriginal file files (sanitized path) =
      content-HasOriginal path files (content_of unreadable writable file files)

  round-HasOriginal :
      (file : RuntimePlanFile) (files : Files)
      → HasOriginal files (round unreadable writable file files)
  unfolding round
  round-HasOriginal file files =
      if-holds (HasOriginal files) (str_eq (trim_space file.destination) "") (λ e. tt)
        (λ e.
          sanitized-HasOriginal file files
            (sanitize_runtime_plan_path (trim_space file.destination)))

  -- Restoring after all leads to the same files as restoring before.
  abbrev Restores : List Restore → Files → Applied × Files → Type 0
  Restores before files (applied restores, files') =
      restore_all restores files' ≡ restore_all before files
  Restores before files (failed e, files') = Unit

  apply-Restores :
      (plan : List RuntimePlanFile) (before : List Restore) (files : Files)
      → Restores before files (apply_files unreadable writable plan before files)
  unfolding apply_files
  apply-Restores [] before files = refl
  apply-Restores (file ∷ rest) before files =
      go (apply-Restores rest) (round unreadable writable file files) (round-HasOriginal file files)
    where
      after : Round → Applied × Files
      after o = elim o [
        | skipped ↦ apply_files unreadable writable rest before files
        | failing e ↦ (failed e, files)
        | writing r content ↦
            apply_files unreadable writable rest (r ∷ before) (write_file r.path content files)
      ]

      written :
          (r : Restore) (content : String) (o : Applied × Files)
          → files r.path ≡ r.original
          → Restores (r ∷ before) (write_file r.path content files) o
          → Restores before files o
      written r content (failed e, files') h k = tt
      written r content (applied restores, files') h k =
          k ∙ unfold restore_all in ap (restore_all before) (restore-write r content files h)

      go :
          ((b : List Restore) (fs : Files)
            → Restores b fs (apply_files unreadable writable rest b fs))
          → (o : Round) → HasOriginal files o
          → Restores before files (after o)
      go later skipped h = later before files
      go later (failing e) h = tt
      go later (writing r content) h =
          written r content _ h (later (r ∷ before) (write_file r.path content files))

  -- Where the files of a plan are applied without an error, calling the function that was returned gives
  -- every path on the host what it held before, also if the plan writes one path several times.
  pub apply-restore :
      (plan : List RuntimePlanFile) (files : Files) (restores : List Restore)
      → (apply_runtime_plan_files unreadable writable plan files).0 ≡ applied restores
      → restore_all restores (apply_runtime_plan_files unreadable writable plan files).1 ≡ files
  unfolding apply_runtime_plan_files
  apply-restore plan files restores h =
      go (apply_files unreadable writable plan [] files) h (apply-Restores plan [] files)
    where
      go :
          (o : Applied × Files)
          → o.0 ≡ applied restores
          → Restores [] files o
          → restore_all restores o.1 ≡ files
      go (failed e, files') k v = absurd (cc k)
      go (applied rs, files') k v =
          let same : rs ≡ restores = cc k in
          ap (λ l. restore_all l files') (sym same) ∙ v ∙ unfold restore_all in refl
