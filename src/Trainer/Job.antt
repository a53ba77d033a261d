-- ===== src/Trainer/Job.antt =====
-- internal/trainer/manager.go: the record of a training job.
use mantlerd.Base.{Bool, String, str_eq, ◌||◌, trim_space, to_lower}

-- TrainingProgress: the text of its numbers is one field.
pub record TrainingProgress : Type 0 where
  pub status : String
  pub detail : String
  pub figures : String

-- The artifacts, which are only carried along, are one text.
pub record JobRecord : Type 0 where
  pub command_id : String
  pub trainer_id : String
  pub trainer_type : String
  pub status : String
  pub detail : String
  pub progress : TrainingProgress
  pub artifacts : String
  pub error : String
  pub started_at : String
  pub completed_at : String

unfoldable pub is_active_job_status : String → Bool
is_active_job_status status =
    let normalized = trim_space (to_lower status) in
    str_eq normalized "pending" || str_eq normalized "in_progress" || str_eq normalized "running"
