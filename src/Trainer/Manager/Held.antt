-- ===== src/Trainer/Manager/Held.antt =====
-- Which jobs are active, under every interleaving of the manager's sections.
use native.Mathlib.Omega.{arith}
use Prim.Native.String.{◌++◌ as concat}
use mantlerd.Base.{
  ℕ, ◌≡◌, refl, sym, ◌∙◌, ap, subst, ◌⊎◌, inl, inr, Bool, true, false, String, List, ◌∷◌, ◌++◌,
  Option, none, some, Memᴰ, Memᴰ-append_left, Memᴰ-append_right, append-Memᴰ, str_eq, eq_iff,
  str_eq_refl, trim_space, to_lower, if-holds, if◌then◌else◌,
}
use mantlerd.Base.Dict.{Dict, lookup, put, values, lookup-put}
use mantlerd.Trainer.Job.{JobRecord, TrainingProgress, is_active_job_status}
use mantlerd.Trainer.Status.{TrainerRecord, Manager, derived_trainer_status, refresh_trainer_status}
use mantlerd.Trainer.Manager.{
  Run, State, Outcome, may_start, begun, run_of, normalized_type, job_of, or_job, put_job,
  persist_jobs, known_record, resolve_trainer, install_begin, install_end, Installed, installed,
  install_failed, uninstall_end, TrainingRequest, new_job, start_begin, on_progress, Trained,
  trained, training_failed, ended_job, start_end, stop_begin, stop_found, stop_end, export_end,
}

-- One section. A driver reports progress, and returns, only for a run that it has been given; nothing is
-- assumed of what it reports, of the order, or of the record that a section works on.
pub data Step : State → State → Type 0 where
  resolved : (s : State) (trainer_type : String) → Step s (resolve_trainer trainer_type s).1
  installing : (s : State) (t : TrainerRecord) → Step s (install_begin t s)
  install_ended :
      (s : State) (trainer_id : String) (r : Installed) → Step s (install_end trainer_id r s)
  uninstalled :
      (s : State) (trainer_id : String) (e : Option String) → Step s (uninstall_end trainer_id e s)
  began :
      (s : State) (now : String) (req : TrainingRequest) (t : TrainerRecord)
      → Step s (start_begin now req t s).1
  progressed :
      (s : State) (p : TrainingProgress) (run : Run)
      → Memᴰ run s.runs
      → Step s (on_progress p run s)
  ended :
      (s : State) (now : String) (r : Trained) (run : Run) (before after : List Run)
      → s.runs ≡ before ++ run ∷ after
      → Step s (start_end now r run (before ++ after) s)
  stopping : (s : State) (command_id : String) → Step s (stop_begin command_id s).1
  stopped : (s : State) (now command_id : String) → Step s (stop_end now command_id s)
  exported :
      (s : State) (command_id artifacts : String) → Step s (export_end command_id artifacts s)

pub data Steps : State → State → Type 0 where
  start : (s : State) → Steps s s
  next : (s t u : State) → Steps s t → Step t u → Steps s u

abbrev pub IsActive : String → State → Type 0
IsActive id s =
    (job : JobRecord) × (lookup id s.manager.jobs ≡ some job)
    × (is_active_job_status job.status ≡ true)

abbrev pub IsRun : String → State → Type 0
IsRun id s = (run : Run) × Memᴰ run s.runs × (run.command_id ≡ id)

-- An active job is one whose driver is training it, or was active at the beginning.
abbrev pub Held : State → State → Type 0
Held s0 s = (id : String) → IsActive id s → IsRun id s ⊎ IsActive id s0

-- A section that changes neither the jobs nor the runs.
same-Held :
    (s0 s t : State) → t.manager.jobs ≡ s.manager.jobs → t.runs ≡ s.runs → Held s0 s → Held s0 t
same-Held s0 s t jobs runs h id (job, found, active) =
    elim (h id (job, ap (lookup id) (sym jobs) ∙ found, active)) [
      | inl (run, m, e) ↦ inl (run, subst (λ l. Memᴰ run l) (sym runs) m, e)
      | inr old ↦ inr old
    ]

some-injective : (a b : JobRecord) → some a ≡ some b → a ≡ b
some-injective a b e = ap (λ o. or_job o) e

-- What a job that is put for an ID is, where it is found under some ID.
found_put :
    (s : State) (k id : String) (new job : JobRecord)
    → lookup id (put k new s.manager.jobs) ≡ some job
    → ((k ≡ id) × (new ≡ job)) ⊎ ((str_eq k id ≡ false) × (lookup id s.manager.jobs ≡ some job))
found_put s k id new job h = go (str_eq k id) refl (sym (lookup-put k id new s.manager.jobs) ∙ h)
  where
    go :
        (b : Bool)
        → str_eq k id ≡ b
        → (if b then some new else lookup id s.manager.jobs) ≡ some job
        → ((k ≡ id) × (new ≡ job)) ⊎ ((str_eq k id ≡ false) × (lookup id s.manager.jobs ≡ some job))
    go true e f = inl ((eq_iff k id).0 e, some-injective new job f)
    go false e f = inr (e, f)

-- A section that puts an inactive job, and may take away runs of its ID.
inactive-Held :
    (s0 s t : State) (k : String) (new : JobRecord)
    → t.manager.jobs ≡ put k new s.manager.jobs
    → is_active_job_status new.status ≡ false
    → ((id : String) → IsRun id s → IsRun id t ⊎ (k ≡ id))
    → Held s0 s
    → Held s0 t
inactive-Held s0 s t k new jobs idle runs h id (job, found, active) =
    elim (found_put s k id new job (ap (lookup id) (sym jobs) ∙ found)) [
      | inl (e, f) ↦ absurd (
          let busy = ap (λ j. is_active_job_status j.status) f ∙ active in
          ground (arith, idle, busy))
      | inr (e, old) ↦ elim (h id (job, old, active)) [
        | inl r ↦ elim (runs id r) [
          | inl u ↦ inl u
          | inr q ↦ absurd (let p = (eq_iff k id).1 q in ground (arith, p, e))
        ]
        | inr o ↦ inr o
      ]
    ]

-- A section that puts any job for the ID of a run.
active-Held :
    (s0 s t : State) (k : String) (new : JobRecord)
    → t.manager.jobs ≡ put k new s.manager.jobs
    → IsRun k t
    → ((id : String) → IsRun id s → IsRun id t)
    → Held s0 s
    → Held s0 t
active-Held s0 s t k new jobs here runs h id (job, found, active) =
    elim (found_put s k id new job (ap (lookup id) (sym jobs) ∙ found)) [
      | inl (e, f) ↦ inl (subst (λ i. IsRun i t) e here)
      | inr (e, old) ↦ elim (h id (job, old, active)) [ inl r ↦ inl (runs id r) | inr o ↦ inr o ]
    ]

put-has : (k : String) (new : JobRecord) (m : Dict JobRecord) → lookup k (put k new m) ≡ some new
put-has k new m =
    lookup-put k k new m ∙ ap (λ b. if b then some new else lookup k m) (str_eq_refl k)

-- Without one run, the runs of other IDs are left.
rest-IsRun :
    (run other : Run) (before after : List Run)
    → Memᴰ other (before ++ run ∷ after)
    → Memᴰ other (before ++ after) ⊎ (run.command_id ≡ other.command_id)
rest-IsRun run other before after m = elim (append-Memᴰ before (run ∷ after) m) [
  | inl k ↦ inl (Memᴰ-append_left after k)
  | inr (Memᴰ.head e) ↦ inr (ap (λ r. r.command_id) (sym e))
  | inr (Memᴰ.tail k) ↦ inl (Memᴰ-append_right before k)
]

idle_words : (is_active_job_status "failed" ≡ false) × (is_active_job_status "success" ≡ false)
unfolding is_active_job_status trim_space to_lower
idle_words = (refl, refl)

ended_job-idle :
    (now : String) (r : Trained) (job : JobRecord)
    → is_active_job_status (ended_job now r job).status ≡ false
ended_job-idle now (training_failed e) job = idle_words.0
ended_job-idle now (trained d a) job = idle_words.1

refresh-jobs :
    (trainer_id : String) (m : Manager) → (refresh_trainer_status trainer_id m).jobs ≡ m.jobs
unfolding refresh_trainer_status
refresh-jobs trainer_id m = go (lookup trainer_id m.trainers)
  where
    after : Option TrainerRecord → Manager
    after none = m
    after (some t) = record m {
      trainers = put trainer_id (derived_trainer_status (values m.jobs) t) m.trainers;
    }

    go : (o : Option TrainerRecord) → (after o).jobs ≡ m.jobs
    go none = refl
    go (some t) = refl

ended-Held :
    (s0 s : State) (now : String) (r : Trained) (run : Run) (before after : List Run)
    → s.runs ≡ before ++ run ∷ after
    → Held s0 s
    → Held s0 (start_end now r run (before ++ after) s)
unfolding start_end
ended-Held s0 s now r run before after runs =
    inactive-Held s0 s (start_end now r run (before ++ after) s) run.command_id
      (ended_job now r (job_of run.command_id s)) (refresh-jobs run.trainer_id _)
      (ended_job-idle now r (job_of run.command_id s))
      (λ id (other, m, e).
        elim (rest-IsRun run other before after (subst (λ l. Memᴰ other l) runs m)) [
          | inl k ↦ inl (other, k, e)
          | inr q ↦ inr (q ∙ e)
        ])

began-Held :
    (s0 s : State) (now : String) (req : TrainingRequest) (t : TrainerRecord)
    → Held s0 s
    → Held s0 (start_begin now req t s).1
unfolding start_begin
began-Held s0 s now req t h =
    if-holds {A = Outcome Run × State} (λ r. Held s0 r.1) (may_start t.status)
      (λ e.
        active-Held s0 s (begun now req t (run_of req t s) s) req.command_id (new_job now req t)
          refl (run_of req t s, Memᴰ.head refl, refl) (λ id (run, m, e). (run, Memᴰ.tail m, e)) h)
      (λ e. h)

progressed-Held :
    (s0 s : State) (p : TrainingProgress) (run : Run)
    → Memᴰ run s.runs
    → Held s0 s
    → Held s0 (on_progress p run s)
unfolding on_progress
progressed-Held s0 s p run m =
    active-Held s0 s (on_progress p run s) run.command_id _ refl (run, m, refl) (λ id r. r)

stopped-Held :
    (s0 s : State) (now command_id : String) → Held s0 s → Held s0 (stop_end now command_id s)
unfolding stop_end
stopped-Held s0 s now command_id =
    inactive-Held s0 s (stop_end now command_id s) command_id _ refl idle_words.0 (λ id r. inl r)

-- A section that puts a job with the status of the one before.
kept-Held :
    (s0 s t : State) (k : String) (old new : JobRecord)
    → lookup k s.manager.jobs ≡ some old
    → old.status ≡ new.status
    → t.manager.jobs ≡ put k new s.manager.jobs
    → t.runs ≡ s.runs
    → Held s0 s
    → Held s0 t
kept-Held s0 s t k old new was status jobs runs h id (job, found, active) =
    elim (found_put s k id new job (ap (lookup id) (sym jobs) ∙ found)) [
      | inl (e, f) ↦ moved (
          h id (
            old,
            ap (λ i. lookup i s.manager.jobs) (sym e) ∙ was,
            ap is_active_job_status (status ∙ ap (λ j. j.status) f) ∙ active,
          ))
      | inr (e, before) ↦ moved (h id (job, before, active))
    ]
  where
    moved : IsRun id s ⊎ IsActive id s0 → IsRun id t ⊎ IsActive id s0
    moved (inl (run, m, e)) = inl (run, subst (λ l. Memᴰ run l) (sym runs) m, e)
    moved (inr o) = inr o

exported-Held :
    (s0 s : State) (command_id artifacts : String)
    → Held s0 s
    → Held s0 (export_end command_id artifacts s)
unfolding export_end
exported-Held s0 s command_id artifacts h = go (lookup command_id s.manager.jobs) refl
  where
    after : Option JobRecord → State
    after none = s
    after (some job) = persist_jobs (put_job command_id (record job { artifacts = artifacts }) s)

    go : (o : Option JobRecord) → lookup command_id s.manager.jobs ≡ o → Held s0 (after o)
    go none e = h
    go (some job) e =
        kept-Held s0 s (after (some job)) command_id job (record job { artifacts = artifacts }) e
          refl refl refl h

resolved-Held :
    (s0 s : State) (trainer_type : String) → Held s0 s → Held s0 (resolve_trainer trainer_type s).1
unfolding resolve_trainer
resolved-Held s0 s trainer_type h =
    let name = normalized_type trainer_type in
    if-holds {A = Outcome TrainerRecord × State} (λ r. Held s0 r.1) (s.has_driver name)
      (λ e. known name (lookup (concat "trainer-" name) s.manager.trainers)) (λ e. h)
  where
    known : (name : String) (o : Option TrainerRecord) → Held s0 (known_record name o s).1
    known name none = h
    known name (some t) = h

stopping-Held :
    (s0 s : State) (command_id : String) → Held s0 s → Held s0 (stop_begin command_id s).1
unfolding stop_begin
stopping-Held s0 s command_id h =
    go (lookup command_id s.cancels) (lookup command_id s.manager.jobs)
  where
    go : (c : Option ℕ) (j : Option JobRecord) → Held s0 (stop_found c j s).1
    go none none = h
    go none (some j) = h
    go (some c) none = h
    go (some c) (some j) = h

step-Held : (s0 s t : State) → Step s t → Held s0 s → Held s0 t
unfolding install_begin install_end uninstall_end
step-Held s0 _ _ (resolved s trainer_type) h = resolved-Held s0 s trainer_type h
step-Held s0 _ _ (installing s t) h = h
step-Held s0 _ _ (install_ended s trainer_id (install_failed e)) h = h
step-Held s0 _ _ (install_ended s trainer_id (installed version)) h = h
step-Held s0 _ _ (uninstalled s trainer_id (some e)) h = h
step-Held s0 _ _ (uninstalled s trainer_id none) h = h
step-Held s0 _ _ (began s now req t) h = began-Held s0 s now req t h
step-Held s0 _ _ (progressed s p run m) h = progressed-Held s0 s p run m h
step-Held s0 _ _ (ended s now r run before after e) h = ended-Held s0 s now r run before after e h
step-Held s0 _ _ (stopping s command_id) h = stopping-Held s0 s command_id h
step-Held s0 _ _ (stopped s now command_id) h = stopped-Held s0 s now command_id h
step-Held s0 _ _ (exported s command_id artifacts) h = exported-Held s0 s command_id artifacts h

-- Under every interleaving of the manager's sections and whatever the drivers report: a job whose status is
-- pending, in progress or running is the job of a call of StartTraining whose driver has not returned, or
-- it was already in such a status at the beginning.
pub steps-Held : (s0 s : State) → Steps s0 s → Held s0 s
steps-Held _ _ (start s) = λ id a. inr a
steps-Held s0 _ (next s t u steps step) = step-Held s0 t u step (steps-Held s t steps)
