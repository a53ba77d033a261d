-- ===== src/Trainer/Examples.antt =====
-- Jobs of a trainer, at which the theorems on the jobs apply.
use mantlerd.Base.{
  ◌≡◌, refl, sym, ap, ◌∙◌, inl, inr, Bool, true, false, String, List, [], ◌∷◌, Memᴰ, none, some,
  str_eq, eq_iff, trim_space, to_lower, sort, subst, ◌&&◌, &&-eq-true, Bool-cases, if◌then◌else◌,
}
use mantlerd.Base.Dict.{Dict, lookup}
use mantlerd.Trainer.Job.{JobRecord, is_active_job_status}
use mantlerd.Trainer.JobStore.{
  Clock, parse_timestamp, completed, is_retained, prune, saved, Json, text, load, save,
}
use mantlerd.Trainer.JobStore.Kept.{IsSaved, saved-IsSaved}
use mantlerd.Trainer.Manager.{
  Run, State, TrainingRequest, new_record, run_of, start_begin, on_progress, trained, start_end,
}
use mantlerd.Trainer.Manager.Held.{Held, start, next, began, progressed, ended, steps-Held}
use mantlerd.Trainer.JobStore.RoundTrip.{IsOnly, IsJson, load-save}
use mantlerd.Trainer.Status.{TrainerRecord, ready}

-- Three timestamps.
abbrev clock : Clock
clock s =
    if str_eq s "t1"
    then some 9000000
    else if str_eq s "t2"
    then some 9000500
    else if str_eq s "t0"
    then some 5
    else none

abbrev job : String → String → String → JobRecord
job id status time = record {
  command_id = id;
  trainer_id = "trainer-trl";
  trainer_type = "trl";
  status = status;
  detail = "Training phi";
  progress = record { status = ""; detail = ""; figures = "" };
  artifacts = "";
  error = "";
  started_at = time;
  completed_at = "";
}

-- A finished job of long ago, a finished one, and one that runs.
abbrev jobs : Dict JobRecord
jobs =
    ("c0", job "c0" "failed" "t0")
    ∷ ("c1", job "c1" "success" "t1")
    ∷ ("c2", job "c2" " Running" "t2")
    ∷ []

abbrev kept : List JobRecord
kept = job "c2" " Running" "t2" ∷ job "c1" "success" "t1" ∷ []

saved_run : saved clock 9001000 jobs ≡ kept
unfolding saved prune is_retained completed parse_timestamp is_active_job_status trim_space to_lower
    sort
saved_run = refl

saved-IsSaved_example : IsSaved clock 9001000 jobs (saved clock 9001000 jobs)
saved-IsSaved_example = saved-IsSaved clock 9001000 jobs

abbrev same_texts : List String → List String → Bool
same_texts [] [] = true
same_texts (x ∷ xs) (y ∷ ys) = str_eq x y && same_texts xs ys
same_texts _ _ = false

same_texts-eq : (xs ys : List String) → same_texts xs ys ≡ true → xs ≡ ys
same_texts-eq [] [] h = refl
same_texts-eq [] (y ∷ ys) h = absurd (cc h)
same_texts-eq (x ∷ xs) [] h = absurd (cc h)
same_texts-eq (x ∷ xs) (y ∷ ys) h =
    let (e, k) = &&-eq-true (str_eq x y) (same_texts xs ys) h in
    λ i. (eq_iff x y).0 e i ∷ same_texts-eq xs ys k i

abbrev fields : JobRecord → List String
fields j =
    j.command_id ∷ j.trainer_id ∷ j.trainer_type ∷ j.status ∷ j.detail ∷ j.progress.status
    ∷ j.progress.detail ∷ j.progress.figures ∷ j.artifacts ∷ j.error ∷ j.started_at ∷ j.completed_at
    ∷ []

abbrev of_fields : List String → JobRecord
of_fields (a ∷ b ∷ c ∷ d ∷ e ∷ p ∷ q ∷ r ∷ f ∷ g ∷ h ∷ i ∷ _) = record {
  command_id = a;
  trainer_id = b;
  trainer_type = c;
  status = d;
  detail = e;
  progress = record { status = p; detail = q; figures = r };
  artifacts = f;
  error = g;
  started_at = h;
  completed_at = i;
}
of_fields _ = job "" "" ""

abbrev same_jobs : List JobRecord → List JobRecord → Bool
same_jobs [] [] = true
same_jobs (x ∷ xs) (y ∷ ys) = same_texts (fields x) (fields y) && same_jobs xs ys
same_jobs _ _ = false

same_jobs-eq : (xs ys : List JobRecord) → same_jobs xs ys ≡ true → xs ≡ ys
same_jobs-eq [] [] h = refl
same_jobs-eq [] (y ∷ ys) h = absurd (cc h)
same_jobs-eq (x ∷ xs) [] h = absurd (cc h)
same_jobs-eq (x ∷ xs) (y ∷ ys) h =
    let (e, k) = &&-eq-true (same_texts (fields x) (fields y)) (same_jobs xs ys) h in
    λ i. ap of_fields (same_texts-eq (fields x) (fields y) e) i ∷ same_jobs-eq xs ys k i

-- It knows the JSON text of the kept jobs only.
abbrev json : Json
json = record {
  marshal = λ js. if same_jobs js kept then some "[c2,c1]" else none;
  unmarshal = λ s. if str_eq s "[c2,c1]" then some kept else none;
}

json-IsJson : IsJson json
json-IsJson = record {
  unmarshal-marshal = λ js s h. elim (Bool-cases (same_jobs js kept)) [
    | inl e ↦
        let same : "[c2,c1]" ≡ s = cc (rw e at h) in
        subst (λ q. json.unmarshal q ≡ some js) same (ap some (sym (same_jobs-eq js kept e)))
    | inr e ↦ absurd (none-some (rw e at h))
  ];
  marshal-filled = λ js s h. elim (Bool-cases (same_jobs js kept)) [
    | inl e ↦
        let same : "[c2,c1]" ≡ s = cc (rw e at h) in subst (λ q. str_eq q "" ≡ false) same refl
    | inr e ↦ absurd (none-some (rw e at h))
  ];
}
  where
    none-some : {s : String} → none ≡ some s → ⊥
    none-some q = cc q

only : IsOnly (job "c1" "success" "t1") kept
only other (Memᴰ.head e) same =
    let clash : false ≡ true =
      ap (λ s. str_eq s "c1") (sym (ap (λ (j : JobRecord). j.command_id) e) ∙ same) in
    absurd (cc clash)
only other (Memᴰ.tail (Memᴰ.head e)) same = e
only other (Memᴰ.tail (Memᴰ.tail m)) same = elim m [ ]

save_run : save json clock 9001000 jobs ≡ some "[c2,c1]"
unfolding save
save_run = rw saved_run refl

load-save_example :
    (result : Dict JobRecord) × (load json (text "[c2,c1]") ≡ some result)
    × (lookup "c1" result ≡ some (job "c1" "success" "t1"))
unfolding trim_space
load-save_example =
    load-save json json-IsJson clock 9001000 jobs "[c2,c1]" (job "c1" "success" "t1") save_run
      (subst (Memᴰ (job "c1" "success" "t1")) (sym saved_run) (Memᴰ.tail (Memᴰ.head refl)))
      (subst (IsOnly (job "c1" "success" "t1")) (sym saved_run) only) refl

-- A manager with a trainer that is ready, on which a training is started, reports and ends.
abbrev idle : State
idle = record {
  has_driver = λ name. str_eq name "trl";
  manager = record {
    trainers = ("trainer-trl", record (new_record "trl") { status = ready }) ∷ [];
    jobs = [];
  };
  cancels = [];
  persisted = [];
  runs = [];
  cancelled = [];
  next_context = 0;
}

abbrev trainer : TrainerRecord
trainer = record (new_record "trl") { status = ready }

abbrev request : TrainingRequest
request = record { command_id = "c9"; trainer_type = "trl"; base_model = "phi" }

abbrev run : Run
run = run_of request trainer idle

abbrev after_begin : State
after_begin = (start_begin "t1" request trainer idle).1

abbrev after_progress : State
after_progress =
    on_progress (record { status = "running"; detail = "step 1"; figures = "" }) run after_begin

steps-Held_example : Held idle (start_end "t2" (trained "ok" "[]") run [] after_progress)
unfolding start_begin on_progress
steps-Held_example = steps-Held idle (start_end "t2" (trained "ok" "[]") run [] after_progress) (
    next idle after_progress (start_end "t2" (trained "ok" "[]") run [] after_progress)
      (next idle after_begin after_progress
        (next idle idle after_begin (start idle) (began idle "t1" request trainer))
        (progressed after_begin (record { status = "running"; detail = "step 1"; figures = "" }) run
          (Memᴰ.head refl)))
      (ended after_progress "t2" (trained "ok" "[]") run [] [] refl))
