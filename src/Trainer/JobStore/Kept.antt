-- ===== src/Trainer/JobStore/Kept.antt =====
-- Which jobs are written.
use mathlib.Core.List.Permᴰ
use mantlerd.Base.{
  String, ℕ, zero, suc, ◌-◌, ◌*◌, ◌<◌, ◌==◌, str_eq, eq_iff, trim_space, to_lower, ◌≤◌, Bool, ◌≡◌,
  refl, sym, ap, subst, ◌⊎◌, inl, inr, true, List, [], ◌∷◌, Memᴰ, Permᴰ, take, length, keep, sort,
  ltb, leb, Bool-cases, arith, IsOrder, IsSorted, sort-perm, sort-IsSorted, Memᴰ-perm, keep-Memᴰ,
  Memᴰ-keep, All-Memᴰ, length-take,
}
use mantlerd.Base.Dict.{Dict, values}
use mantlerd.Trainer.Job.{JobRecord, is_active_job_status}
use mantlerd.Trainer.JobStore.{
  Clock, max_entries, later_first, completed, parse_timestamp, is_retained, capped, prune, saved,
}

length-perm : {xs ys : List JobRecord} → Permᴰ xs ys → length xs ≡ length ys
length-perm Permᴰ.nil = refl
length-perm (Permᴰ.cons e p) = ap suc (length-perm p)
length-perm (Permᴰ.swap e f) = refl
length-perm (Permᴰ.trans p q) = omega (arith, length-perm p, length-perm q)

take-Memᴰ : (n : ℕ) (xs : List JobRecord) {x : JobRecord} → Memᴰ x (take n xs) → Memᴰ x xs
take-Memᴰ zero xs m = elim m [ ]
take-Memᴰ (suc n) [] m = elim m [ ]
take-Memᴰ (suc n) (y ∷ xs) (Memᴰ.head e) = Memᴰ.head e
take-Memᴰ (suc n) (y ∷ xs) (Memᴰ.tail m) = Memᴰ.tail (take-Memᴰ n xs m)

-- An element of a sorted list is among the first ones, or it is behind each of them.
taken :
    (le : JobRecord → JobRecord → Bool) (n : ℕ) (xs : List JobRecord) {x : JobRecord}
    → IsSorted le xs
    → Memᴰ x xs
    → Memᴰ x (take n xs) ⊎ ((y : JobRecord) → Memᴰ y (take n xs) → le y x ≡ true)
taken le zero xs s m = inr (λ y k. elim k [ ])
taken le (suc n) [] s m = elim m [ ]
taken le (suc n) (z ∷ xs) s (Memᴰ.head e) = inl (Memᴰ.head e)
taken le (suc n) (z ∷ xs) {x = x} s (Memᴰ.tail m) = elim (taken le n xs s.1 m) [
  | inl k ↦ inl (Memᴰ.tail k)
  | inr b ↦ inr (cover b)
]
  where
    cover :
        ((y : JobRecord) → Memᴰ y (take n xs) → le y x ≡ true)
        → (y : JobRecord) → Memᴰ y (z ∷ take n xs)
        → le y x ≡ true
    cover b y (Memᴰ.head e) =
        subst (λ w. le w x ≡ true) (sym e) (All-Memᴰ (λ w. le z w ≡ true) xs s.0 m)
    cover b y (Memᴰ.tail k) = b y k

module _ (clock : Clock) where
  later_first-IsOrder : IsOrder (later_first clock)
  later_first-IsOrder = record { total = λ a b. ground arith; trans = λ a b c h k. ground arith }

  -- What becomes of a job in the cut to the largest number of entries.
  abbrev pub Survives : JobRecord → List JobRecord → Type 0
  Survives job jobs =
      Memᴰ job jobs
      ⊎ ((length jobs ≡ 50)
          × ((other : JobRecord)
              → Memᴰ other jobs
              → parse_timestamp clock job.started_at ≤ parse_timestamp clock other.started_at))

  capped-length : (jobs : List JobRecord) → length (capped clock jobs) ≤ max_entries
  capped-length jobs = elim (Bool-cases (ltb max_entries (length jobs))) [
    | inl e ↦ rw e (omega (arith, length-take max_entries (sort (later_first clock) jobs)))
    | inr e ↦ rw e (ground arith)
  ]

  capped_sound :
      (jobs : List JobRecord) (job : JobRecord) → Memᴰ job (capped clock jobs) → Memᴰ job jobs
  capped_sound jobs job m = elim (Bool-cases (ltb max_entries (length jobs))) [
    | inl e ↦
        Memᴰ-perm (sort-perm (later_first clock) jobs)
          (take-Memᴰ max_entries (sort (later_first clock) jobs) (rw e at m))
    | inr e ↦ rw e at m
  ]

  capped-Survives :
      (jobs : List JobRecord) (job : JobRecord) → Memᴰ job jobs → Survives job (capped clock jobs)
  capped-Survives jobs job m = elim (Bool-cases (ltb max_entries (length jobs))) [
    | inr e ↦ rw e (inl m)
    | inl e ↦
        let sorted = sort (later_first clock) jobs in
        let p = sort-perm (later_first clock) jobs in
        let full = length-take max_entries sorted in
        let same = length-perm p in
        rw e (
          cut sorted (ground (arith, full, same)) (
            taken (later_first clock) max_entries sorted
              (sort-IsSorted (later_first clock) later_first-IsOrder jobs)
              (Memᴰ-perm (Permᴰ.symm p) m)))
  ]
    where
      cut :
          (sorted : List JobRecord)
          → length (take max_entries sorted) ≡ max_entries
          → Memᴰ job (take max_entries sorted)
            ⊎ ((y : JobRecord) → Memᴰ y (take max_entries sorted) → later_first clock y job ≡ true)
          → Survives job (take max_entries sorted)
      cut sorted n (inl k) = inl k
      cut sorted n (inr b) = inr (n, λ y k. let h = b y k in ground arith)

  moved :
      {xs ys : List JobRecord} (job : JobRecord) → Permᴰ xs ys → Survives job ys → Survives job xs
  moved job p (inl m) = inl (Memᴰ-perm (Permᴰ.symm p) m)
  moved job p (inr (n, b)) = inr (omega (arith, length-perm p, n), λ y k. b y (Memᴰ-perm p k))

  -- The time of a job is that of its end, or that of its start where the end is not known; 0 is no time.
  -- A job is kept that is pending, in progress or running, that has no time, or whose time is in the last 30 days.
  pub data IsKept (now : ℕ) (job : JobRecord) : Type 0 where
    pending : trim_space (to_lower job.status) ≡ "pending" → IsKept now job
    in_progress : trim_space (to_lower job.status) ≡ "in_progress" → IsKept now job
    running : trim_space (to_lower job.status) ≡ "running" → IsKept now job
    timeless :
        parse_timestamp clock job.completed_at ≡ 0
        → parse_timestamp clock job.started_at ≡ 0
        → IsKept now job
    ended :
        0 < parse_timestamp clock job.completed_at
        → now - 30 * 86400 < parse_timestamp clock job.completed_at
        → IsKept now job
    begun :
        parse_timestamp clock job.completed_at ≡ 0
        → now - 30 * 86400 < parse_timestamp clock job.started_at
        → IsKept now job

  retained-IsKept : (now : ℕ) (job : JobRecord) → is_retained clock now job ≡ true → IsKept now job
  unfolding is_retained is_active_job_status completed
  retained-IsKept now job h = elim (Bool-cases (str_eq status "pending")) [
    | inl e ↦ pending ((eq_iff status "pending").0 e)
    | inr e ↦ elim (Bool-cases (str_eq status "in_progress")) [
      | inl f ↦ in_progress ((eq_iff status "in_progress").0 f)
      | inr f ↦ elim (Bool-cases (str_eq status "running")) [
        | inl g ↦ running ((eq_iff status "running").0 g)
        | inr g ↦ elim (Bool-cases (parse_timestamp clock job.completed_at == 0)) [
          | inr t ↦ ended (ground arith) (ground arith)
          | inl t ↦ elim (Bool-cases (parse_timestamp clock job.started_at == 0)) [
            | inl u ↦ timeless (ground arith) (ground arith)
            | inr u ↦ begun (ground arith) (ground arith)
          ]
        ]
      ]
    ]
  ]
    where
      status : String
      status = trim_space (to_lower job.status)

  IsKept-retained : (now : ℕ) (job : JobRecord) → IsKept now job → is_retained clock now job ≡ true
  unfolding is_retained is_active_job_status completed
  IsKept-retained now job (pending e) =
      let k = (eq_iff (trim_space (to_lower job.status)) "pending").1 e in ground arith
  IsKept-retained now job (in_progress e) =
      let k = (eq_iff (trim_space (to_lower job.status)) "in_progress").1 e in ground arith
  IsKept-retained now job (running e) =
      let k = (eq_iff (trim_space (to_lower job.status)) "running").1 e in ground arith
  IsKept-retained now job (timeless e f) = ground arith
  IsKept-retained now job (ended e f) = ground arith
  IsKept-retained now job (begun e f) = ground arith

  -- What Save writes at a time: at most 50 jobs, the later start first, all of them jobs that are to be kept.
  -- Any other such job is not written only for 50 jobs of which none started before it.
  pub record IsSaved (now : ℕ) (jobs : Dict JobRecord) (written : List JobRecord) : Type 0 where
    pub bounded : length written ≤ 50
    pub in_order :
        IsSorted
          (λ a b. leb (parse_timestamp clock b.started_at) (parse_timestamp clock a.started_at))
          written
    pub only_retained :
        (job : JobRecord) → Memᴰ job written → Memᴰ job (values jobs) × IsKept now job
    pub all_retained :
        (job : JobRecord) → Memᴰ job (values jobs) → IsKept now job → Survives job written

  -- Save writes at most 50 jobs, the later start first, and only jobs that are pending, in progress or running,
  -- that have neither an end nor a start, or whose end, or start where the end is not known, is in the last 30
  -- days. Any other such job is not written only for 50 jobs of which none started before it.
  pub saved-IsSaved : (now : ℕ) (jobs : Dict JobRecord) → IsSaved now jobs (saved clock now jobs)
  unfolding saved prune
  saved-IsSaved now jobs =
      let kept = keep (is_retained clock now) (values jobs) in
      let p = sort-perm (later_first clock) (prune clock now (values jobs)) in
      record {
        bounded = omega (arith, length-perm p, capped-length kept);
        in_order =
            sort-IsSorted (later_first clock) later_first-IsOrder (prune clock now (values jobs));
        only_retained = λ job m.
            let (k, r) =
              keep-Memᴰ (is_retained clock now) (values jobs)
                (capped_sound kept job (Memᴰ-perm p m)) in
            (k, retained-IsKept now job r);
        all_retained = λ job m r. moved job p (
            capped-Survives kept job
              (Memᴰ-keep (is_retained clock now) (values jobs) m (IsKept-retained now job r)));
      }
