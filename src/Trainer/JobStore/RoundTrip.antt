-- ===== src/Trainer/JobStore/RoundTrip.antt =====
-- Reading what was written.
use mantlerd.Base.{
  ℕ, ◌≡◌, refl, ap, ◌∙◌, subst, ◌⊎◌, inl, inr, false, String, List, [], ◌∷◌, Memᴰ, some, str_eq,
  eq_iff, trim_space, Bool-cases, if◌then◌else◌,
}
use mantlerd.Base.Dict.{Dict, lookup, put, lookup-put}
use mantlerd.Trainer.Job.{JobRecord}
use mantlerd.Trainer.JobStore.{Clock, saved, load_jobs, text, Json, load, save}

-- The job is the only one of the list with its ID.
abbrev pub IsOnly : JobRecord → List JobRecord → Type 0
IsOnly job jobs =
    (other : JobRecord) → Memᴰ other jobs → other.command_id ≡ job.command_id → other ≡ job

abbrev with_job : JobRecord → Dict JobRecord → Dict JobRecord
with_job job result =
    if str_eq (trim_space job.command_id) "" then result else put job.command_id job result

module _ (job : JobRecord) (named : str_eq (trim_space job.command_id) "" ≡ false) where
  with_job-found : (d : Dict JobRecord) → lookup job.command_id (with_job job d) ≡ some job
  with_job-found d = rw named (
      lookup-put job.command_id job.command_id job d
      ∙ rw ((eq_iff job.command_id job.command_id).1 refl) refl)

  with_job-kept :
      (other : JobRecord) (d : Dict JobRecord)
      → (other.command_id ≡ job.command_id → other ≡ job)
      → lookup job.command_id d ≡ some job
      → lookup job.command_id (with_job other d) ≡ some job
  with_job-kept other d only h = elim (Bool-cases (str_eq (trim_space other.command_id) "")) [
    | inl blank ↦ rw blank h
    | inr e ↦ rw e (elim (Bool-cases (str_eq other.command_id job.command_id)) [
      | inl same ↦
          lookup-put other.command_id job.command_id other d
          ∙ rw same (ap some (only ((eq_iff _ _).0 same)))
      | inr differs ↦ lookup-put other.command_id job.command_id other d ∙ rw differs h
    ])
  ]

  load_jobs-found :
      (jobs : List JobRecord) (d : Dict JobRecord)
      → IsOnly job jobs
      → Memᴰ job jobs ⊎ (lookup job.command_id d ≡ some job)
      → lookup job.command_id (load_jobs jobs d) ≡ some job
  unfolding load_jobs
  load_jobs-found [] d only (inl m) = elim m [ ]
  load_jobs-found [] d only (inr h) = h
  load_jobs-found (other ∷ jobs) d only (inl (Memᴰ.head e)) =
      load_jobs-found jobs (with_job other d) (λ x m. only x (Memᴰ.tail m))
        (inr (subst (λ x. lookup job.command_id (with_job x d) ≡ some job) e (with_job-found d)))
  load_jobs-found (other ∷ jobs) d only (inl (Memᴰ.tail k)) =
      load_jobs-found jobs (with_job other d) (λ x m. only x (Memᴰ.tail m)) (inl k)
  load_jobs-found (other ∷ jobs) d only (inr h) =
      load_jobs-found jobs (with_job other d) (λ x m. only x (Memᴰ.tail m))
        (inr (with_job-kept other d (only other (Memᴰ.head refl)) h))

-- What encoding/json documents: what it wrote it reads again, and it writes no empty text.
pub record IsJson (json : Json) : Type 0 where
  pub unmarshal-marshal :
      (jobs : List JobRecord) (s : String)
      → json.marshal jobs ≡ some s
      → json.unmarshal s ≡ some jobs
  pub marshal-filled :
      (jobs : List JobRecord) (s : String) → json.marshal jobs ≡ some s → str_eq s "" ≡ false

-- When the text that Save wrote is loaded, there is no error, and each job that was written, has an ID
-- that is not blank and is the only one with it, stands under its ID again.
pub load-save :
    (json : Json)
    → IsJson json
    → (clock : Clock) (now : ℕ) (jobs : Dict JobRecord) (s : String) (job : JobRecord)
    → save json clock now jobs ≡ some s
    → Memᴰ job (saved clock now jobs)
    → IsOnly job (saved clock now jobs)
    → str_eq (trim_space job.command_id) "" ≡ false
    → (result : Dict JobRecord) × (load json (text s) ≡ some result)
      × (lookup job.command_id result ≡ some job)
unfolding save load
load-save json laws clock now jobs s job written m only named = (
  load_jobs (saved clock now jobs) [],
  rw
      (
        laws.marshal-filled (saved clock now jobs) s written,
        laws.unmarshal-marshal (saved clock now jobs) s written,
      )
      refl,
  load_jobs-found job named (saved clock now jobs) [] only (inl m),
)
