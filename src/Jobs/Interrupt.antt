-- ===== src/Jobs/Interrupt.antt =====
-- The handler of SIGINT in main.cpp, with `DownloaderSimple::stop`, which reports a failure.
use ecwid_console_downloader.Base.{
  ℕ, ◌≡◌, refl, ap, ◌∙◌, Bool, false, Option, none, some, List, [], ◌∷◌, map, codes, All, arith,
}
use ecwid_console_downloader.Jobs.{
  World, Job, StatusDownloader, failed, Outcome, returns, throws, stuck, crashes, invoke,
  invoke_job, dispatch, find_job, points_to, erase_job, show,
}
use ecwid_console_downloader.Jobs.Fill.{next_task_gone}

-- What a downloader reports when it is stopped.
abbrev pub aborted : StatusDownloader → StatusDownloader
aborted status = record status { state = failed; state_str = codes "Abort." }

unfoldable pub continue_with : (World → Outcome) → Outcome → Outcome
continue_with next (returns w) = next w
continue_with next throws = throws
continue_with next stuck = stuck
continue_with next crashes = crashes

abbrev pub downloader_of : Job → Option ℕ
downloader_of j = j.downloader

-- A job whose downloader is there.
abbrev pub IsRunning : Job → Type 0
IsRunning j = (d : ℕ) × (j.downloader ≡ some d)

-- The status of each downloader when the signal comes is a parameter.
module _ (run : ℕ → List ℕ → List ℕ → Bool × StatusDownloader) (status : ℕ → StatusDownloader) where
  unfoldable pub stop_all : List (Option ℕ) → World → Outcome
  stop_all [] w = returns w
  stop_all (none ∷ ds) w = crashes
  stop_all (some d ∷ ds) w = continue_with (stop_all ds) (invoke run d (aborted (status d)) w)

  -- The signal resets the factory, and then stops the downloaders that were in the list.
  unfoldable pub interrupt : World → Outcome
  interrupt w = stop_all (map downloader_of w.jobs) (record w { factory = false })

  -- The first job is gone, and nothing else has begun.
  record Stops (js : List Job) (w v : World) : Type 0 where
    jobs_lem : v.jobs ≡ js
    factory_gone : v.factory ≡ false
    created_same : v.created ≡ w.created
    source_same : v.source ≡ w.source

  find-first :
      (j : Job) (js : List Job) (d : ℕ) → j.downloader ≡ some d → find_job d (j ∷ js) ≡ some j
  unfolding find_job points_to
  find-first j js d e = rw e (ground arith)

  erase-first : (j : Job) (js : List Job) → erase_job j.id (j ∷ js) ≡ js
  unfolding erase_job
  erase-first j js = ground arith

  stop-first :
      (j : Job) (js : List Job) (d : ℕ) (w : World)
      → w.jobs ≡ j ∷ js
      → w.factory ≡ false
      → j.downloader ≡ some d
      → (v : World) × (invoke run d (aborted (status d)) w ≡ returns v) × Stops js w v
  unfolding invoke invoke_job dispatch show
  stop-first j js d w e gone has =
      let shown = show j.id (aborted (status d)) w in
      (
        record shown { jobs = erase_job j.id shown.jobs },
        ap (λ o. invoke_job run o (aborted (status d)) w)
              (ap (find_job d) e ∙ find-first j js d has)
            ∙ next_task_gone run j.id shown gone,
        record {
          jobs_lem = ap (erase_job j.id) e ∙ erase-first j js;
          factory_gone = gone;
          created_same = refl;
          source_same = refl;
        },
      )

  stop_all-ends :
      (js : List Job) (w : World)
      → w.jobs ≡ js
      → w.factory ≡ false
      → All IsRunning js
      → (v : World) × (stop_all (map downloader_of js) w ≡ returns v) × Stops [] w v
  unfolding stop_all continue_with
  stop_all-ends [] w e gone h = (
    w,
    refl,
    record { jobs_lem = e; factory_gone = gone; created_same = refl; source_same = refl },
  )
  stop_all-ends (j ∷ js) w e gone ((d, has), h) =
      let (u, f, k) = stop-first j js d w e gone has in
      let (v, g, l) = stop_all-ends js u k.jobs_lem k.factory_gone h in
      (
        v,
        rw (has, f) g,
        record {
          jobs_lem = l.jobs_lem;
          factory_gone = l.factory_gone;
          created_same = l.created_same ∙ k.created_same;
          source_same = l.source_same ∙ k.source_same;
        },
      )

  -- If every job of the list has a downloader, the handler of SIGINT returns: the list of jobs
  -- is empty, no downloader was created and no task was read.
  pub interrupt-ends :
      (w : World)
      → All IsRunning w.jobs
      → (v : World) × (interrupt w ≡ returns v)
        × (v.jobs ≡ [])
        × (v.created ≡ w.created)
        × (v.source ≡ w.source)
  unfolding interrupt
  interrupt-ends w h =
      let (v, e, k) = stop_all-ends w.jobs (record w { factory = false }) refl refl h in
      (v, e, k.jobs_lem, k.created_same, k.source_same)
