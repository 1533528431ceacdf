-- ===== src/Store/Jobs/Unique.antt =====
-- The ids in the list of jobs of frontend/src/store/ingestionSlice.ts.
use cont_ained.Base.{
  ℕ, ◌≤◌, String, true, false, none, some, List, [], ◌∷◌, ◌==◌, ◌≡◌, ◌≢◌, refl, any, find, map,
  filter, length, if◌then◌else◌, arith, eq_iff, eq_refl, Bool-cases, inl, inr,
}
use cont_ained.Store.Jobs.{
  IngestionJobResponse, JobUpdates, IngestionState, IngestionCall, adds_job, updates_job,
  sets_progress, clears_jobs, updates_settings, job_has_id, merge_job, add_job, update_job,
  ingestion_step,
}

module _ {N : Type 0} where
  -- The number of jobs with this id.
  abbrev pub count_id : String → List (IngestionJobResponse N) → ℕ
  count_id id jobs = length (filter (job_has_id id) jobs)

  abbrev pub IsUnique : IngestionState N → Type 0
  IsUnique s = (id : String) → count_id id s.active_jobs ≤ 1

  absent-count :
      (id : String) (jobs : List (IngestionJobResponse N))
      → any (job_has_id id) jobs ≡ false
      → count_id id jobs ≡ 0
  absent-count id [] h = refl
  absent-count id (j ∷ jobs) h = ground (arith, absent-count id jobs)

  -- A job that takes the place of those with its id.
  count-replace :
      (job : IngestionJobResponse N) (id : String) (jobs : List (IngestionJobResponse N))
      → count_id id (map (λ j. if j.job_id == job.job_id then job else j) jobs) ≡ count_id id jobs
  count-replace job id [] = refl
  count-replace job id (j ∷ jobs) = ground (
    arith,
    eq_iff j.job_id job.job_id,
    eq_iff j.job_id id,
    eq_iff job.job_id id,
    count-replace job id jobs,
  )

  count-update :
      (k : String) (u : JobUpdates N) (id : String) (jobs : List (IngestionJobResponse N))
      → u.job_id ≡ none
      → count_id id (map (λ j. if j.job_id == k then merge_job j u else j) jobs) ≡ count_id id jobs
  count-update k u id [] e = refl
  count-update k u id (j ∷ jobs) e = elim (Bool-cases (j.job_id == k)) [
    | inl hit ↦ rw (hit, e) (ground (arith, count-update k u id jobs e))
    | inr miss ↦ rw miss (ground (arith, count-update k u id jobs e))
  ]

  -- An update leaves the job's id alone.
  abbrev pub KeepsId : IngestionCall N → Type 0
  KeepsId (updates_job k u) = u.job_id ≡ none
  KeepsId _ = Unit

  -- Every call keeps the ids of the active jobs apart: no id stands twice. An update of a job does
  -- not set its id.
  pub ingestion_step-IsUnique :
      (c : IngestionCall N) (s : IngestionState N)
      → KeepsId c
      → IsUnique s
      → IsUnique (ingestion_step c s)
  unfolding ingestion_step add_job update_job
  ingestion_step-IsUnique (adds_job job) s k u id =
      elim (Bool-cases (any (job_has_id job.job_id) s.active_jobs)) [
        | inl there ↦ rw (add_job, there) (omega (arith, count-replace job id s.active_jobs, u id))
        | inr absent ↦
            rw (add_job, absent)
              (ground
                (arith, eq_iff job.job_id id, absent-count job.job_id s.active_jobs absent, u id))
      ]
  ingestion_step-IsUnique (updates_job j v) s k u id =
      omega (arith, count-update j v id s.active_jobs k, u id)
  ingestion_step-IsUnique (sets_progress p) s k u id = u id
  ingestion_step-IsUnique clears_jobs s k u id = omega arith
  ingestion_step-IsUnique (updates_settings v) s k u id = u id

  find-replace :
      (job : IngestionJobResponse N) (jobs : List (IngestionJobResponse N))
      → any (job_has_id job.job_id) jobs ≡ true
      → find (job_has_id job.job_id) (map (λ j. if j.job_id == job.job_id then job else j) jobs)
        ≡ some job
  find-replace job [] h = cc
  find-replace job (j ∷ jobs) h =
      ground (arith, eq_iff j.job_id job.job_id, eq_refl job.job_id, find-replace job jobs)

  -- After `addJob` the list has the job under its id, whether it was there before or not, and as many
  -- jobs as before under every other id.
  pub add_job_lem :
      (job : IngestionJobResponse N) (s : IngestionState N)
      → (find (job_has_id job.job_id) (add_job job s).active_jobs ≡ some job)
        × ((id : String)
            → id ≢ job.job_id
            → count_id id (add_job job s).active_jobs ≡ count_id id s.active_jobs)
  unfolding add_job
  add_job_lem job s = elim (Bool-cases (any (job_has_id job.job_id) s.active_jobs)) [
    | inl there ↦
        rw (add_job, there)
          (find-replace job s.active_jobs there, λ id ne. count-replace job id s.active_jobs)
    | inr absent ↦
        rw (add_job, absent)
          (rw (eq_refl job.job_id) refl, λ id ne. ground (arith, eq_iff job.job_id id, ne))
  ]
