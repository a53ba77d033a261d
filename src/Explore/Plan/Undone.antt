-- ===== src/Explore/Plan/Undone.antt =====
-- A plan that was applied can be taken back.
use mantlerd.Base.{
  ◌≡◌, refl, ◌∙◌, ap, subst, arith, Bool, false, ◌+◌, List, [], ◌∷◌, ◌++◌, Option, none, some,
  String, if-holds, if◌then◌else◌, to_lower, trim_space,
}
use mantlerd.Base.Dict.{Dict}
use mantlerd.Commands.EnvFile.{Quoting}
use mantlerd.Explore.Files.{
  Files, Read, missing, read_failed, found, Restore, restore_all, Applied, applied, failed,
  apply_runtime_plan_files,
}
use mantlerd.Explore.Files.Restored.{restore-write, Finds, read_file-Finds, apply-restore}
use mantlerd.Explore.Plan.{
  RuntimePlan, EnvKeys, keys_of, Undo, Host, done, restarted, undo, is_nil, needs_restart,
  write_env, rewrite_env, apply_env, finish, after_files, after_env, apply_explore_runtime_plan,
}

restore_all-append :
    (rs ss : List Restore) (files : Files)
    → restore_all (rs ++ ss) files ≡ restore_all ss (restore_all rs files)
unfolding restore_all
restore_all-append [] ss files = refl
restore_all-append (r ∷ rs) ss files = restore_all-append rs ss _

module _ (q : Quoting) (unreadable writable : String → Bool) where
  -- Restoring gives the files of before.
  abbrev Restores : Files → Applied × Files → Type 0
  Restores files (applied restores, files') = restore_all restores files' ≡ files
  Restores files (failed e, files') = Unit

  write-Restores :
      (path : String) (original : Option String) (values : Dict String) (files : Files)
      → files path ≡ original
      → Restores files (write_env q unreadable writable path original values files)
  unfolding restore_all
  write-Restores path original values files h =
      if-holds (Restores files) (is_nil values) (λ e. refl)
        (λ e. if-holds (Restores files) (writable path) (λ w. restore-write _ _ files h) (λ w. tt))

  rewrite-Restores :
      (k : EnvKeys) (runtime : String) (plan : RuntimePlan) (files : Files) (o : Read)
      → Finds unreadable writable (files k.path) o
      → Restores files (rewrite_env q unreadable writable k runtime plan files o)
  rewrite-Restores k runtime plan files read_failed h = tt
  rewrite-Restores k runtime plan files missing h = write-Restores k.path none _ files h
  rewrite-Restores k runtime plan files (found raw) h = write-Restores k.path (some raw) _ files h

  env-Restores :
      (o : Option EnvKeys) (runtime : String) (plan : RuntimePlan) (files : Files)
      → Restores files (apply_env q unreadable writable o runtime plan files)
  unfolding restore_all
  env-Restores none runtime plan files = refl
  env-Restores (some k) runtime plan files =
      rewrite-Restores k runtime plan files _ (read_file-Finds unreadable writable k.path files)

  -- Taking the plan back restores the files, and restarts ollama exactly if applying it did.
  abbrev pub IsUndone : Host → Undo → Host → Type 0
  IsUndone before u after =
      ((undo u after).files ≡ before.files)
      × ((undo u after).restarts ≡ (if u.restarts then before.restarts + 2 else before.restarts))

  finish-IsUndone :
      (needed : Bool) (restores : List Restore) (h : Host) (files : Files) (u : Undo)
      → restore_all restores files ≡ h.files
      → (finish q unreadable writable needed restores h.restarts files).0 ≡ done u
      → IsUndone h u (finish q unreadable writable needed restores h.restarts files).1
  unfolding undo
  finish-IsUndone needed restores h files u k e =
      let restarting = if is_nil restores then false else needed in
      let same : record { restores = restores; restarts = restarting } ≡ u = cc in
      subst
        (λ v. IsUndone h v (restarted restarting (record { files = files; restarts = h.restarts })))
        same (k, twice restarting)
    where
      twice :
          (b : Bool)
          → (let once = if b then h.restarts + 1 else h.restarts in if b then once + 1 else once)
            ≡ (if b then h.restarts + 2 else h.restarts)
      twice b = ground arith

  -- Where a plan is applied without an error, calling the function that was returned gives every path on the
  -- host what it held before.
  pub plan-IsUndone :
      (runtime_name : String) (plan : RuntimePlan) (h : Host) (u : Undo)
      → (apply_explore_runtime_plan q unreadable writable runtime_name plan h).0 ≡ done u
      → IsUndone h u (apply_explore_runtime_plan q unreadable writable runtime_name plan h).1
  unfolding apply_explore_runtime_plan
  plan-IsUndone runtime_name plan h u =
      let runtime = to_lower (trim_space runtime_name) in
      enved (apply_env q unreadable writable (keys_of runtime) runtime plan h.files)
        (env-Restores (keys_of runtime) runtime plan h.files)
    where
      needed : Bool
      needed = needs_restart (to_lower (trim_space runtime_name)) plan

      filed :
          (before : List Restore) (files : Files) (o : Applied × Files)
          → ((restores : List Restore) → o.0 ≡ applied restores → restore_all restores o.1 ≡ files)
          → restore_all before files ≡ h.files
          → (after_files q unreadable writable needed before h.restarts o).0 ≡ done u
          → IsUndone h u (after_files q unreadable writable needed before h.restarts o).1
      filed before files (failed e, files') f k d = cc
      filed before files (applied restores, files') f k d =
          finish-IsUndone needed (restores ++ before) h files' u
            (restore_all-append restores before files'
              ∙ ap (restore_all before) (f restores refl)
              ∙ k)
            d

      enved :
          (o : Applied × Files)
          → Restores h.files o
          → (after_env q unreadable writable needed plan h.restarts o).0 ≡ done u
          → IsUndone h u (after_env q unreadable writable needed plan h.restarts o).1
      enved (failed e, files) k d = cc
      enved (applied before, files) k d =
          filed before files (apply_runtime_plan_files unreadable writable plan.files files)
            (λ restores e. apply-restore unreadable writable plan.files files restores e) k d
