-- ===== src/Trainer/JobStore.antt =====
-- internal/trainer/job_store.go: writing the jobs to a file and reading them again.
pub mod Kept
pub mod RoundTrip
use mantlerd.Base.{
  ℕ, zero, suc, ◌-◌, Bool, true, false, not, ◌||◌, String, List, [], ◌∷◌, Option, none, some, take,
  length, keep, sort, ltb, leb, ◌==◌, str_eq, trim_space, if◌then◌else◌,
}
use mantlerd.Base.Dict.{Dict, put, values}
use mantlerd.Trainer.Job.{JobRecord, is_active_job_status}

-- Package time: the seconds of a timestamp in RFC 3339 from the zero time on.
abbrev pub Clock : Type 0
Clock = String → Option ℕ

abbrev pub max_entries : ℕ
max_entries = 50

-- 30 days, in seconds
abbrev pub max_age : ℕ
max_age = 2592000

-- 0 is the zero time.
unfoldable pub parse_timestamp : Clock → String → ℕ
parse_timestamp clock value = elim (clock (trim_space value)) [ none ↦ 0 | some t ↦ t ]

module _ (clock : Clock) where
  abbrev pub started : JobRecord → ℕ
  started job = parse_timestamp clock job.started_at

  -- The order of the sorted jobs: the later start first.
  abbrev pub later_first : JobRecord → JobRecord → Bool
  later_first a b = leb (started b) (started a)

  unfoldable pub completed : JobRecord → ℕ
  completed job =
      let t = parse_timestamp clock job.completed_at in if t == 0 then started job else t

  -- Whether prune keeps a job for what it is, at a time.
  unfoldable pub is_retained : ℕ → JobRecord → Bool
  is_retained now job =
      is_active_job_status job.status || completed job == 0 || ltb (now - max_age) (completed job)

  abbrev pub capped : List JobRecord → List JobRecord
  capped filtered =
      if ltb max_entries (length filtered)
      then take max_entries (sort later_first filtered)
      else filtered

  unfoldable pub prune : ℕ → List JobRecord → List JobRecord
  prune now records = capped (keep (is_retained now) records)

  -- The jobs that Save writes.
  unfoldable pub saved : ℕ → Dict JobRecord → List JobRecord
  saved now jobs = sort later_first (prune now (values jobs))

-- A named job is put under its ID, in the order of the file.
unfoldable pub load_jobs : List JobRecord → Dict JobRecord → Dict JobRecord
load_jobs [] result = result
load_jobs (job ∷ jobs) result =
    load_jobs jobs
      (if str_eq (trim_space job.command_id) "" then result else put job.command_id job result)

-- What os.ReadFile gives.
pub data File : Type 0 where
  absent unreadable : File
  text : String → File

-- encoding/json at the list of the jobs.
pub record Json : Type 0 where
  pub marshal : List JobRecord → Option String
  pub unmarshal : String → Option (List JobRecord)

module _ (json : Json) where
  -- `none` is an error.
  unfoldable pub load : File → Option (Dict JobRecord)
  load absent = some []
  load unreadable = none
  load (text s) =
      if str_eq s ""
      then some []
      else elim (json.unmarshal s) [ none ↦ none | some jobs ↦ some (load_jobs jobs []) ]

  -- The text that Save writes, where it can be encoded.
  unfoldable pub save : Clock → ℕ → Dict JobRecord → Option String
  save clock now jobs = json.marshal (saved clock now jobs)
