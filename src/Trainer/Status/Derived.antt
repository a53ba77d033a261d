-- ===== src/Trainer/Status/Derived.antt =====
-- When a trainer counts as training.
use mantlerd.Base.{
  ◌≡◌, refl, sym, ap, ◌∙◌, ◌↔◌, ◌⊎◌, inl, inr, true, false, String, List, [], ◌∷◌, Memᴰ, Permᴰ,
  Memᴰ-perm, Option, none, some, Bool-cases, if◌then◌else◌,
}
use mathlib.Core.List.Permᴰ
use mantlerd.Trainer.Job.{JobRecord}
use mantlerd.Trainer.Status.{
  TrainerStatus, not_installed, installing, ready, training, failed, TrainerRecord, is_training,
  runs_on, running_job, set_ready, derived_trainer_status,
}

-- Some job of the list runs on the trainer.
abbrev pub IsBusy : String → List JobRecord → Type 0
IsBusy trainer_id jobs = (job : JobRecord) × Memᴰ job jobs × (runs_on trainer_id job ≡ true)

running_job_sound :
    (trainer_id : String) (jobs : List JobRecord) (job : JobRecord)
    → running_job trainer_id jobs ≡ some job
    → IsBusy trainer_id jobs
unfolding running_job
running_job_sound trainer_id [] job h = absurd (cc h)
running_job_sound trainer_id (x ∷ jobs) job h = elim (Bool-cases (runs_on trainer_id x)) [
  | inl e ↦ (x, Memᴰ.head refl, e)
  | inr e ↦ let (y, m, r) = running_job_sound trainer_id jobs job (rw e at h) in (y, Memᴰ.tail m, r)
]

running_job_complete :
    (trainer_id : String) (jobs : List JobRecord)
    → running_job trainer_id jobs ≡ none
    → ¬ IsBusy trainer_id jobs
unfolding running_job
running_job_complete trainer_id [] h (job, m, r) = elim m [ ]
running_job_complete trainer_id (x ∷ jobs) h (job, m, r) =
    elim (Bool-cases (runs_on trainer_id x)) [
      | inl e ↦ some-none (rw e at h)
      | inr e ↦ later (running_job_complete trainer_id jobs) e (rw e at h) m
    ]
  where
    some-none : some x ≡ none → ⊥
    some-none q = cc q

    later :
        (running_job trainer_id jobs ≡ none → ¬ IsBusy trainer_id jobs)
        → runs_on trainer_id x ≡ false
        → running_job trainer_id jobs ≡ none
        → Memᴰ job (x ∷ jobs)
        → ⊥
    later ih e k (Memᴰ.head same) = cc (r, e, ap (runs_on trainer_id) same)
    later ih e k (Memᴰ.tail n) = ih k (job, n, r)

-- The status of a trainer on which no job runs.
idle_status : TrainerStatus → TrainerStatus
idle_status training = ready
idle_status s = s

idle_status_lem :
    (t : TrainerRecord)
    → (if is_training t.status then set_ready t else t).status ≡ idle_status t.status
unfolding idle_status
idle_status_lem t = go t.status refl
  where
    go :
        (s : TrainerStatus)
        → t.status ≡ s
        → (if is_training t.status then set_ready t else t).status ≡ idle_status t.status
    go training e = rw e refl
    go not_installed e = rw e refl
    go installing e = rw e refl
    go ready e = rw e refl
    go failed e = rw e refl

idle_status_other : (s : TrainerStatus) → idle_status s ≡ training → ⊥
unfolding idle_status
idle_status_other training h = cc h
idle_status_other not_installed h = cc h
idle_status_other installing h = cc h
idle_status_other ready h = cc h
idle_status_other failed h = cc h

-- The status shown is training and some job runs on the trainer, or it is the idle one and none does.
derived_cases :
    (jobs : List JobRecord) (t : TrainerRecord)
    → ((derived_trainer_status jobs t).status ≡ training × IsBusy t.id jobs)
      ⊎ ((derived_trainer_status jobs t).status ≡ idle_status t.status × (¬ IsBusy t.id jobs))
unfolding derived_trainer_status
derived_cases jobs t = go (running_job t.id jobs) refl
  where
    go :
        (o : Option JobRecord)
        → running_job t.id jobs ≡ o
        → ((derived_trainer_status jobs t).status ≡ training × IsBusy t.id jobs)
          ⊎ ((derived_trainer_status jobs t).status ≡ idle_status t.status × (¬ IsBusy t.id jobs))
    go none e =
        inr (rw (e, derived_trainer_status) (idle_status_lem t), running_job_complete t.id jobs e)
    go (some job) e = inl (rw (e, derived_trainer_status) refl, running_job_sound t.id jobs job e)

-- A trainer is shown as training exactly while a job that is pending, in progress or running is on it.
pub derived-training :
    (jobs : List JobRecord) (t : TrainerRecord)
    → ((derived_trainer_status jobs t).status ≡ training) ↔ IsBusy t.id jobs
derived-training jobs t = elim (derived_cases jobs t) [
  | inl c ↦ (λ h. c.1, λ b. c.0)
  | inr c ↦ (λ h. absurd (idle_status_other t.status (sym c.0 ∙ h)), λ b. absurd (c.1 b))
]

-- The status does not depend on the order in which the map of the jobs is iterated.
pub derived-eq_of_perm :
    (jobs jobs' : List JobRecord) (t : TrainerRecord)
    → Permᴰ jobs jobs'
    → (derived_trainer_status jobs t).status ≡ (derived_trainer_status jobs' t).status
derived-eq_of_perm jobs jobs' t p = elim (derived_cases jobs t) [
  | inl c ↦
      let (job, m, r) = c.1 in c.0 ∙ sym ((derived-training jobs' t).1 (job, Memᴰ-perm p m, r))
  | inr c ↦ elim (derived_cases jobs' t) [
    | inl d ↦ let (job, m, r) = d.1 in absurd (c.1 (job, Memᴰ-perm (Permᴰ.symm p) m, r))
    | inr d ↦ c.0 ∙ sym d.0
  ]
]
