-- ===== src/Trainer/Status.antt =====
-- internal/trainer/manager.go: the status of a trainer, as its jobs show it.
pub mod Derived
use mantlerd.Base.{
  ℕ, Bool, true, false, not, ◌&&◌, ◌||◌, String, List, [], ◌∷◌, Option, none, some, str_eq,
  trim_space, to_lower, map, if◌then◌else◌,
}
use mantlerd.Base.Dict.{Dict, lookup, put, values, has_key}
use mantlerd.Trainer.Job.{JobRecord, is_active_job_status}

pub data TrainerStatus : Type 0 where
  not_installed installing ready training failed : TrainerStatus

pub record TrainerRecord : Type 0 where
  pub id : String
  pub trainer_type : String
  pub name : String
  pub status : TrainerStatus
  pub version : String
  pub detail : String

abbrev pub is_training : TrainerStatus → Bool
is_training training = true
is_training _ = false

-- Whether a job runs on a trainer.
abbrev pub runs_on : String → JobRecord → Bool
runs_on trainer_id job = str_eq job.trainer_id trainer_id && is_active_job_status job.status

-- The first job that runs on the trainer, in the order in which the map is iterated.
unfoldable pub running_job : String → List JobRecord → Option JobRecord
running_job trainer_id [] = none
running_job trainer_id (job ∷ jobs) =
    let rest = running_job trainer_id jobs in if runs_on trainer_id job then some job else rest

abbrev pub set_ready : TrainerRecord → TrainerRecord
set_ready t =
    let said = trim_space t.detail in
    record t {
      status = ready;
      detail =
          if str_eq said "" || str_eq (to_lower said) "training in progress"
          then "Trainer ready"
          else t.detail;
    }

unfoldable pub derived_trainer_status : List JobRecord → TrainerRecord → TrainerRecord
derived_trainer_status jobs t = elim (running_job t.id jobs) [
  | some job ↦ record t {
    status = training;
    detail = if str_eq (trim_space job.detail) "" then "Training in progress" else job.detail;
  }
  | none ↦ if is_training t.status then set_ready t else t
]

unfoldable pub has_active_jobs : List JobRecord → Bool
has_active_jobs [] = false
has_active_jobs (job ∷ jobs) =
    let rest = has_active_jobs jobs in if is_active_job_status job.status then true else rest

-- The status of the trainers and of the jobs, as the manager holds them.
pub record Manager : Type 0 where
  pub trainers : Dict TrainerRecord
  pub jobs : Dict JobRecord

unfoldable pub refresh_trainer_status : String → Manager → Manager
refresh_trainer_status trainer_id m = elim (lookup trainer_id m.trainers) [
  | none ↦ m
  | some t ↦ record m {
    trainers = put trainer_id (derived_trainer_status (values m.jobs) t) m.trainers;
  }
]
