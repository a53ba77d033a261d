-- ===== src/Trainer/Manager.antt =====
-- internal/trainer/manager.go: the operations of the manager. Each section that the code runs under its lock is
-- a function; what a driver does between two sections is an argument of the second. A context is its
-- number, and `runs` has the calls of StartTraining whose driver has not returned.
pub mod Held
use Prim.Native.String.{◌++◌ as concat}
use mantlerd.Base.{
  ℕ, ◌+◌, Bool, true, false, not, ◌&&◌, ◌||◌, String, List, [], ◌∷◌, ◌++◌, map, Option, none, some,
  sort, text_le, str_eq, trim_space, to_lower, if◌then◌else◌,
}
use mantlerd.Base.Dict.{Dict, lookup, put, delete, values}
use mantlerd.Trainer.Job.{JobRecord, TrainingProgress}
use mantlerd.Trainer.JobStore.{Clock, later_first}
use mantlerd.Trainer.Status.{
  TrainerStatus, not_installed, installing, ready, training, failed, TrainerRecord,
  derived_trainer_status, Manager, refresh_trainer_status,
}

-- A call of StartTraining between its two sections.
pub record Run : Type 0 where
  pub command_id : String
  pub trainer_id : String
  pub context : ℕ

pub record State : Type 0 where
  -- the keys of the registry of drivers
  pub has_driver : String → Bool
  pub manager : Manager
  pub cancels : Dict ℕ
  -- the jobs that were last handed to the store
  pub persisted : Dict JobRecord
  pub runs : List Run
  pub cancelled : List ℕ
  pub next_context : ℕ

pub data TrainerError : Type 0 where
  unsupported_trainer unknown_command not_found : String → TrainerError
  not_ready : String → TrainerStatus → TrainerError
  driver_error : String → TrainerError

pub data Outcome {ℓ} (A : Type ℓ) : Type ℓ where
  done : A → Outcome A
  error : TrainerError → Outcome A

unfoldable pub first_non_empty : List String → String
first_non_empty [] = ""
first_non_empty (value ∷ values) =
    let rest = first_non_empty values in
    if str_eq (trim_space value) "" then rest else trim_space value

abbrev pub non_empty : String → String → String
non_empty value fallback = if str_eq (trim_space value) "" then fallback else value

unfoldable pub display_name_from_type : String → String
display_name_from_type t =
    if str_eq t "unsloth"
    then "Unsloth"
    else if str_eq t "axolotl"
    then "Axolotl"
    else if str_eq t "trl"
    then "TRL"
    else if str_eq t "llamafactory"
    then "LLaMA-Factory"
    else trim_space t

abbrev pub no_progress : TrainingProgress
no_progress = record { status = ""; detail = ""; figures = "" }

-- The zero values, which a map gives for a missing key. The code sets another status wherever it reads the
-- zero trainer, so that the empty status needs no constructor.
abbrev pub no_job : JobRecord
no_job = record {
  command_id = "";
  trainer_id = "";
  trainer_type = "";
  status = "";
  detail = "";
  progress = no_progress;
  artifacts = "";
  error = "";
  started_at = "";
  completed_at = "";
}

abbrev pub no_trainer : TrainerRecord
no_trainer = record {
  id = "";
  trainer_type = "";
  name = "";
  status = failed;
  version = "";
  detail = "";
}

abbrev pub or_job : Option JobRecord → JobRecord
or_job none = no_job
or_job (some job) = job

abbrev pub or_trainer : Option TrainerRecord → TrainerRecord
or_trainer none = no_trainer
or_trainer (some t) = t

abbrev pub job_of : String → State → JobRecord
job_of command_id s = or_job (lookup command_id s.manager.jobs)

abbrev pub trainer_of : String → State → TrainerRecord
trainer_of trainer_id s = or_trainer (lookup trainer_id s.manager.trainers)

abbrev pub put_job : String → JobRecord → State → State
put_job command_id job s = record s {
  manager = record s.manager { jobs = put command_id job s.manager.jobs };
}

abbrev pub put_trainer : String → TrainerRecord → State → State
put_trainer trainer_id t s = record s {
  manager = record s.manager { trainers = put trainer_id t s.manager.trainers };
}

abbrev pub persist_jobs : State → State
persist_jobs s = record s { persisted = s.manager.jobs }

abbrev pub refreshed : String → State → State
refreshed trainer_id s = record s { manager = refresh_trainer_status trainer_id s.manager }

unfoldable pub normalized_type : String → String
normalized_type trainer_type =
    let name = to_lower (trim_space trainer_type) in if str_eq name "" then "unsloth" else name

abbrev pub new_record : String → TrainerRecord
new_record name = record {
  id = concat "trainer-" name;
  trainer_type = name;
  name = display_name_from_type name;
  status = not_installed;
  version = "";
  detail = "Trainer not installed";
}

abbrev pub known_record : String → Option TrainerRecord → State → Outcome TrainerRecord × State
known_record name (some t) s = (done t, s)
known_record name none s =
    (done (new_record name), put_trainer (concat "trainer-" name) (new_record name) s)

unfoldable pub resolve_trainer : String → State → Outcome TrainerRecord × State
resolve_trainer trainer_type s =
    let name = normalized_type trainer_type in
    if s.has_driver name
    then known_record name (lookup (concat "trainer-" name) s.manager.trainers) s
    else (error (unsupported_trainer trainer_type), s)

-- The sections of Install after resolveTrainer, before and after the driver's call.
unfoldable pub install_begin : TrainerRecord → State → State
install_begin t s =
    put_trainer t.id (record t { status = installing; detail = "Installing trainer" }) s

-- What a driver's Install gives: a version, or the text of its error.
pub data Installed : Type 0 where
  installed install_failed : String → Installed

unfoldable pub install_end : String → Installed → State → State
install_end trainer_id (install_failed e) s =
    put_trainer trainer_id (record (trainer_of trainer_id s) { status = failed; detail = e }) s
install_end trainer_id (installed version) s =
    put_trainer trainer_id
      (record (trainer_of trainer_id s) {
        status = ready;
        version = version;
        detail = "Trainer ready";
      })
      s

unfoldable pub uninstall_end : String → Option String → State → State
uninstall_end trainer_id (some e) s =
    put_trainer trainer_id (record (trainer_of trainer_id s) { status = failed; detail = e }) s
uninstall_end trainer_id none s =
    put_trainer trainer_id
      (record (trainer_of trainer_id s) {
        status = not_installed;
        detail = "Trainer not installed";
      })
      s

pub record TrainingRequest : Type 0 where
  pub command_id : String
  pub trainer_type : String
  pub base_model : String

abbrev pub may_start : TrainerStatus → Bool
may_start ready = true
may_start training = true
may_start _ = false

unfoldable pub new_job : String → TrainingRequest → TrainerRecord → JobRecord
new_job now req t = record no_job {
  command_id = req.command_id;
  trainer_id = t.id;
  trainer_type = t.trainer_type;
  status = "in_progress";
  detail = concat "Training " req.base_model;
  started_at = now;
}

-- The state in which a run has begun.
abbrev pub begun : String → TrainingRequest → TrainerRecord → Run → State → State
begun now req t run s = persist_jobs (
    put_trainer t.id (record t { status = training; detail = concat "Training " req.base_model })
      (put_job req.command_id (new_job now req t) (record s {
        cancels = put req.command_id run.context s.cancels;
        runs = run ∷ s.runs;
        next_context = s.next_context + 1;
      })))

abbrev pub run_of : TrainingRequest → TrainerRecord → State → Run
run_of req t s = record { command_id = req.command_id; trainer_id = t.id; context = s.next_context }

-- The first section of StartTraining, with the record that resolveTrainer gave.
unfoldable pub start_begin : String → TrainingRequest → TrainerRecord → State → Outcome Run × State
start_begin now req t s =
    if may_start t.status
    then (done (run_of req t s), begun now req t (run_of req t s) s)
    else (error (not_ready t.trainer_type t.status), s)

-- What the driver calls while it trains.
unfoldable pub on_progress : TrainingProgress → Run → State → State
on_progress progress run s =
    let job = job_of run.command_id s in
    persist_jobs (
      put_job run.command_id
        (record job {
          progress = progress;
          status = first_non_empty (progress.status ∷ "in_progress" ∷ []);
          detail = first_non_empty (progress.detail ∷ job.detail ∷ []);
        })
        s)

-- What a driver's StartTraining gives: the detail and artifacts of its result, or the text of its error.
pub data Trained : Type 0 where
  trained : String → String → Trained
  training_failed : String → Trained

abbrev pub ended_job : String → Trained → JobRecord → JobRecord
ended_job now (training_failed e) job = record job {
  status = "failed";
  error = e;
  detail = e;
  completed_at = now;
}
ended_job now (trained detail artifacts) job = record job {
  status = "success";
  detail = detail;
  artifacts = artifacts;
  completed_at = now;
}

abbrev pub ended_trainer : Trained → TrainerRecord → TrainerRecord
ended_trainer (training_failed e) t = record t { status = failed; detail = e }
ended_trainer (trained detail artifacts) t = record t {
  status = ready;
  detail = detail;
  version = non_empty t.version "unknown";
}

-- The last section of StartTraining, where `others` are the other runs.
unfoldable pub start_end : String → Trained → Run → List Run → State → State
start_end now result run others s = refreshed run.trainer_id (
    persist_jobs (
      put_trainer run.trainer_id (ended_trainer result (trainer_of run.trainer_id s)) (
        put_job run.command_id (ended_job now result (job_of run.command_id s))
          (record s { cancels = delete run.command_id s.cancels; runs = others }))))

-- What StopTraining does before it calls the driver.
pub data Stopping : Type 0 where
  unknown_training : Stopping
  -- the error is nil, and no driver is called
  nothing_more : Stopping
  asks_driver : String → Stopping

abbrev pub cancelled_by : Option ℕ → State → State
cancelled_by none s = s
cancelled_by (some context) s = record s { cancelled = context ∷ s.cancelled }

abbrev pub driver_of_trainer : Option TrainerRecord → State → Stopping
driver_of_trainer none s = nothing_more
driver_of_trainer (some t) s =
    let name = to_lower (trim_space t.trainer_type) in
    if s.has_driver name then asks_driver name else nothing_more

abbrev pub stopping_of : Option JobRecord → State → Stopping
stopping_of job s =
    if str_eq (or_job job).trainer_id ""
    then nothing_more
    else driver_of_trainer (lookup (or_job job).trainer_id s.manager.trainers) s

abbrev pub stop_found : Option ℕ → Option JobRecord → State → Stopping × State
stop_found none none s = (unknown_training, s)
stop_found cancel job s = (stopping_of job s, cancelled_by cancel s)

unfoldable pub stop_begin : String → State → Stopping × State
stop_begin command_id s =
    stop_found (lookup command_id s.cancels) (lookup command_id s.manager.jobs) s

-- The last section of StopTraining, after the driver has stopped the training.
unfoldable pub stop_end : String → String → State → State
stop_end now command_id s = persist_jobs (
    put_job command_id
      (record (job_of command_id s) {
        status = "failed";
        detail = "training stopped";
        error = "stopped by user";
        completed_at = now;
      })
      s)

abbrev pub progress_of : JobRecord → TrainingProgress
progress_of job = record job.progress {
  detail = first_non_empty (job.progress.detail ∷ job.detail ∷ []);
  status = first_non_empty (job.progress.status ∷ job.status ∷ []);
}

unfoldable pub get_job_status : String → State → Option TrainingProgress
get_job_status command_id s = elim (lookup command_id s.manager.jobs) [
  | none ↦ none
  | some job ↦ some (progress_of job)
]

-- The type whose driver ExportCheckpoint calls.
unfoldable pub export_type : String → String → State → String
export_type command_id trainer_type s =
    let of_job = to_lower (trim_space (job_of command_id s).trainer_type) in
    if str_eq of_job "" then trim_space (to_lower trainer_type) else of_job

unfoldable pub export_begin : String → String → State → Outcome String
export_begin command_id trainer_type s =
    let name = export_type command_id trainer_type s in
    if str_eq name ""
    then error (not_found command_id)
    else if s.has_driver name
    then done name
    else error (unsupported_trainer name)

unfoldable pub export_end : String → String → State → State
export_end command_id artifacts s = elim (lookup command_id s.manager.jobs) [
  | none ↦ s
  | some job ↦ persist_jobs (put_job command_id (record job { artifacts = artifacts }) s)
]

abbrev pub listed_job : Option JobRecord → List JobRecord
listed_job none = []
listed_job (some job) = job ∷ []

unfoldable pub jobs_of : Clock → String → State → List JobRecord
jobs_of clock command_id s =
    if str_eq command_id ""
    then sort (later_first clock) (values s.manager.jobs)
    else listed_job (lookup command_id s.manager.jobs)

abbrev pub by_type : TrainerRecord → TrainerRecord → Bool
by_type a b =
    if str_eq a.trainer_type b.trainer_type
    then text_le a.id b.id
    else text_le a.trainer_type b.trainer_type

unfoldable pub installed_trainers : State → List TrainerRecord
installed_trainers s =
    sort by_type (map (derived_trainer_status (values s.manager.jobs)) (values s.manager.trainers))
