-- ===== src/Jobs/Limits.antt =====
-- `invoke`: it returns for every known downloader, never adds to the number of jobs, and no job is
-- redirected more than `max_redirect` times.
use mathlib.Core.Option.{some-injective}
use ecwid_console_downloader.Base.{
  ℕ, ◌+◌, ◌^◌, ◌≤◌, ◌<◌, ◌≡◌, ◌⊎◌, refl, ap, Bool, true, false, inl, inr, Option, none, some, List,
  [], ◌∷◌, length, length-append, ltb, ◌==◌, arith, ltb→le, add_size, Bool-cases, All, All-append,
  subst,
}
use ecwid_console_downloader.Jobs.{
  World, Job, StatusDownloader, returns, create, next_task, erase_job, replace_job, relaunch,
  find_job, points_to,
}
use ecwid_console_downloader.Jobs.Fill.{next_task_gone, Creates, next_task-Fills, create-Creates}

abbrev pub IsWithin : ℕ → Job → Type 0
IsWithin most j = j.redirect_count ≤ most

-- Every job was redirected at most `max_redirect` times.
pub record IsLimited (w : World) : Type 0 where
  pub counts : All (IsWithin w.max_redirect) w.jobs
  pub max_fits : w.max_redirect + 1 < 2 ^ 64

length-erase_job : (id : ℕ) (js : List Job) → length (erase_job id js) ≤ length js
unfolding erase_job
length-erase_job id [] = omega arith
length-erase_job id (j ∷ js) = ground (arith, length-erase_job id js)

pub erase_job-All :
    (n id : ℕ) (js : List Job) → All (IsWithin n) js → All (IsWithin n) (erase_job id js)
unfolding erase_job
erase_job-All n id [] h = tt
erase_job-All n id (j ∷ js) h = elim (Bool-cases (j.id == id)) [
  | inl same ↦ simp same h.1
  | inr other ↦ simp other (h.0, erase_job-All n id js h.1)
]

length-replace_job : (job : Job) (js : List Job) → length (replace_job job js) ≡ length js
unfolding replace_job
length-replace_job job [] = refl
length-replace_job job (j ∷ js) = ground (arith, length-replace_job job js)

replace_job-All :
    (n : ℕ) (job : Job) (js : List Job)
    → IsWithin n job
    → All (IsWithin n) js
    → All (IsWithin n) (replace_job job js)
unfolding replace_job
replace_job-All n job [] p h = tt
replace_job-All n job (j ∷ js) p h = elim (Bool-cases (j.id == job.id)) [
  | inl same ↦ simp same (p, h.1)
  | inr other ↦ simp other (h.0, replace_job-All n job js p h.1)
]

-- A job of the list has this id.
abbrev pub HasJob : ℕ → List Job → Type 0
HasJob id [] = ⊥
HasJob id (j ∷ js) = ((j.id == id) ≡ true) ⊎ HasJob id js

pub length-erase_has :
    (id : ℕ) (js : List Job) → HasJob id js → length (erase_job id js) + 1 ≡ length js
unfolding erase_job
length-erase_has id [] h = absurd h
length-erase_has id (j ∷ js) h = elim (Bool-cases (j.id == id)) [
  | inl same ↦ simp same (omega arith)
  | inr other ↦ elim h [
    | inl same ↦ absurd (ground (arith, same, other))
    | inr later ↦ simp other (omega (arith, length-erase_has id js later))
  ]
]

pub find_job-HasJob :
    (d : ℕ) (js : List Job) (job : Job) → find_job d js ≡ some job → HasJob job.id js
unfolding find_job
find_job-HasJob d [] job e = cc
find_job-HasJob d (j ∷ js) job e = elim (Bool-cases (points_to d j.downloader)) [
  | inl here ↦
      inl (rw (ap (λ (x : Job). x.id) (some-injective j job (simp here at e))) (ground arith))
  | inr later ↦ inr (find_job-HasJob d js job (simp later at e))
]

pub find_job-All :
    (n d : ℕ) (js : List Job) (job : Job)
    → find_job d js ≡ some job
    → All (IsWithin n) js
    → IsWithin n job
unfolding find_job
find_job-All n d [] job e h = cc
find_job-All n d (j ∷ js) job e h = elim (Bool-cases (points_to d j.downloader)) [
  | inl here ↦ subst (IsWithin n) (some-injective j job (simp here at e)) h.0
  | inr later ↦ find_job-All n d js job (simp later at e) h.1
]

replace_job-HasJob :
    (job : Job) (js : List Job) → HasJob job.id js → HasJob job.id (replace_job job js)
unfolding replace_job
replace_job-HasJob job [] h = h
replace_job-HasJob job (j ∷ js) h = elim (Bool-cases (j.id == job.id)) [
  | inl same ↦ simp same (inl (ground arith))
  | inr other ↦ elim h [
    | inl same ↦ absurd (ground (arith, same, other))
    | inr later ↦ simp other (inr (replace_job-HasJob job js later))
  ]
]

pub erase_job-replace_job :
    (job : Job) (js : List Job) → erase_job job.id (replace_job job js) ≡ erase_job job.id js
unfolding erase_job replace_job
erase_job-replace_job job [] = refl
erase_job-replace_job job (j ∷ js) = ground (arith, erase_job-replace_job job js)

module _ (run : ℕ → List ℕ → List ℕ → Bool × StatusDownloader) where
  -- The jobs that a world keeps from `n` jobs: no more, and each within its limit.
  pub record Limits (n : ℕ) (v : World) : Type 0 where
    pub limited : IsLimited v
    pub length_le : length v.jobs ≤ n

  -- A world in which the job with this id may end.
  pub record Ends (id n : ℕ) (w : World) : Type 0 where
    pub others : All (IsWithin w.max_redirect) (erase_job id w.jobs)
    pub max_fits : w.max_redirect + 1 < 2 ^ 64
    pub room : length (erase_job id w.jobs) + 1 ≤ n

  pub next_task-Limits :
      (id n : ℕ) (w : World)
      → Ends id n w
      → (v : World) × (next_task run id w ≡ returns v) × Limits n v
  next_task-Limits id n w h = elim (Bool-cases w.factory) [
    | inl alive ↦
        let (v, e, p) = next_task-Fills run id w alive in
        (
          v,
          e,
          elim p.jobs_lem [
            | inl same ↦ record {
              limited = record {
                counts = rw (p.max_same, same.0) h.others;
                max_fits = rw p.max_same h.max_fits;
              };
              length_le = rw same.0 (omega (arith, h.room));
            }
            | inr (job, grown, fresh) ↦ record {
              limited = record {
                counts =
                    rw (p.max_same, grown)
                      (All-append (IsWithin w.max_redirect) (erase_job id w.jobs) (job ∷ [])
                        h.others (omega (arith, fresh), tt));
                max_fits = rw p.max_same h.max_fits;
              };
              length_le =
                  rw grown (omega (arith, h.room, length-append (erase_job id w.jobs) (job ∷ [])));
            }
          ],
        )
    | inr gone ↦ (
      record w { jobs = erase_job id w.jobs },
      next_task_gone run id w gone,
      record {
        limited = record { counts = h.others; max_fits = h.max_fits };
        length_le = omega (arith, h.room);
      },
    )
  ]

  -- A limited world in which the job with the id of `job` was replaced by it.
  pub replaced-Ends :
      (job : Job) (w : World)
      → IsLimited w
      → HasJob job.id w.jobs
      → Ends job.id (length w.jobs) (record w { jobs = replace_job job w.jobs })
  replaced-Ends job w l h = record {
    others =
        rw (erase_job-replace_job job w.jobs) (erase_job-All w.max_redirect job.id w.jobs l.counts);
    max_fits = l.max_fits;
    room = rw (erase_job-replace_job job w.jobs) (omega (arith, length-erase_has job.id w.jobs h));
  }

  replaced-Limits :
      (job : Job) (w : World)
      → IsLimited w
      → IsWithin w.max_redirect job
      → Limits (length w.jobs) (record w { jobs = replace_job job w.jobs })
  replaced-Limits job w l p = record {
    limited = record {
      counts = replace_job-All w.max_redirect job w.jobs p l.counts;
      max_fits = l.max_fits;
    };
    length_le = omega (arith, length-replace_job job w.jobs);
  }

  relaunch-Limits :
      (job : Job) (o : Option ℕ) (w : World)
      → IsLimited w
      → HasJob job.id w.jobs
      → IsWithin w.max_redirect job
      → (v : World) × (relaunch run job (o, w) ≡ returns v) × Limits (length w.jobs) v
  unfolding relaunch
  relaunch-Limits job none w l h p =
      next_task-Limits job.id (length w.jobs) _
        (replaced-Ends (record job { downloader = none }) w l h)
  relaunch-Limits job (some d) w l h p = (
    record w { jobs = replace_job (record job { downloader = some d }) w.jobs },
    refl,
    replaced-Limits (record job { downloader = some d }) w l p,
  )

  module _ (job : Job) (uri : List ℕ) (w : World) where
    unfoldable pub counted : Job
    counted = record job { redirect_count = add_size job.redirect_count 1 }

    unfoldable pub counted_world : World
    counted_world = record w { jobs = replace_job counted w.jobs }

    unfoldable pub created_again : Option ℕ × World
    created_again = create run job.id (record { uri = uri; fname = job.fname }) counted_world

  module _ (job : Job) (uri : List ℕ) (w : World) (l : IsLimited w) (h : HasJob job.id w.jobs)
      (p : IsWithin w.max_redirect job) where
    again :
        Creates run job.id
          (record { uri = uri; fname = job.fname })
          (counted_world job uri w)
          (created_again job uri w).1
    unfolding created_again
    again = create-Creates run job.id _ (counted_world job uri w)

    few_again :
        ltb w.max_redirect (counted job uri w).redirect_count ≡ false
        → IsLimited (created_again job uri w).1
    unfolding counted_world
    few_again few = record {
      counts =
          rw (again.jobs_same, again.max_same)
            (replaced-Limits (counted job uri w) w l
              (ltb→le w.max_redirect (counted job uri w).redirect_count few)).limited.counts;
      max_fits = rw again.max_same l.max_fits;
    }

    has_again : HasJob (counted job uri w).id (created_again job uri w).1.jobs
    unfolding counted_world counted
    has_again = rw again.jobs_same (replace_job-HasJob (counted job uri w) w.jobs h)

    length_again : length (created_again job uri w).1.jobs ≡ length w.jobs
    unfolding counted_world
    length_again = rw again.jobs_same (length-replace_job (counted job uri w) w.jobs)

    pub redirected-Limits :
        ltb w.max_redirect (counted job uri w).redirect_count ≡ false
        → (v : World) × (relaunch run (counted job uri w) (created_again job uri w) ≡ returns v)
          × Limits (length w.jobs) v
    unfolding counted_world
    redirected-Limits few =
        let (v, e, q) =
          relaunch-Limits (counted job uri w) (created_again job uri w).0
            (created_again job uri w).1 (few_again few) has_again
            (rw again.max_same (ltb→le w.max_redirect (counted job uri w).redirect_count few)) in
        (v, e, rw length_again at q)
