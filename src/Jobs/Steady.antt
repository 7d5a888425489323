-- ===== src/Jobs/Steady.antt =====
-- What every change of the job list keeps: each job has a downloader, and the totals of the dashboard are those of
-- what it has printed.
use mathlib.Core.Option.{some-injective}
use ecwid_console_downloader.Base.{
  ℕ, zero, suc, ◌+◌, ◌≡◌, refl, sym, subst, Bool, Option, none, some, List, [], ◌∷◌, All,
  All-append, Bool-cases, Option-cases, inl, inr, ◌>>=◌, if_both, add_size, ltb, ◌==◌, length,
}
use ecwid_console_downloader.Tasks.{Task, Source, get}
use ecwid_console_downloader.Jobs.{
  World, Job, State, StatusDownloader, Outcome, returns, throws, stuck, crashes, init, on_the_go,
  done, failed, redirect, update, show, erase_job, replace_job, points_to, find_job, push_job,
  retry_or_push, start_job, outcome, create, create_job, take_task, fill, next_task, relaunch,
  redirect_to, dispatch, invoke_job, invoke, start_task, start_jobs, too_many,
}
use ecwid_console_downloader.Jobs.Interrupt.{IsRunning, aborted, continue_with, stop_all, interrupt}
use ecwid_console_downloader.Jobs.Limits.{erase_job-replace_job}
use ecwid_console_downloader.Jobs.Tally.{IsTallied, update_as-IsTallied}

-- Each job of the list has a downloader, and the totals agree.
pub record IsSteady (w : World) : Type 0 where
  pub running : All IsRunning w.jobs
  pub tallied : IsTallied w.dashboard

show-IsSteady :
    (id : ℕ) (status : StatusDownloader) (w : World) → IsSteady w → IsSteady (show id status w)
unfolding show update
show-IsSteady id status w h = record {
  running = h.running;
  tallied = update_as-IsTallied status.state id status w.dashboard refl h.tallied;
}

erase_job-All : (id : ℕ) (js : List Job) → All IsRunning js → All IsRunning (erase_job id js)
unfolding erase_job
erase_job-All id [] h = tt
erase_job-All id (j ∷ js) h =
    if_both (All IsRunning) (j.id == id) js (j ∷ erase_job id js) (λ e. h.1)
      (λ e. (h.0, erase_job-All id js h.1))

replace_job-All :
    (job : Job) (js : List Job)
    → IsRunning job
    → All IsRunning js
    → All IsRunning (replace_job job js)
unfolding replace_job
replace_job-All job [] r h = tt
replace_job-All job (j ∷ js) r h =
    if_both (All IsRunning) (j.id == job.id) (job ∷ js) (j ∷ replace_job job js) (λ e. (r, h.1))
      (λ e. (h.0, replace_job-All job js r h.1))

find_job-All :
    (d : ℕ) (js : List Job) (job : Job)
    → find_job d js ≡ some job
    → All IsRunning js
    → IsRunning job
unfolding find_job
find_job-All d [] job e h = cc
find_job-All d (j ∷ js) job e h = elim (Bool-cases (points_to d j.downloader)) [
  | inl here ↦ subst IsRunning (some-injective j job (simp here at e)) h.0
  | inr later ↦ find_job-All d js job (simp later at e) h.1
]

push_job-IsSteady :
    (id : ℕ) (task : Task) (d : ℕ) (w : World) → IsSteady w → IsSteady (push_job id task d w)
unfolding push_job
push_job-IsSteady id task d w h = record {
  running = All-append IsRunning w.jobs _ h.running ((d, refl), tt);
  tallied = h.tallied;
}

-- Of what may not return: where it does.
abbrev pub Gives : Option World → Type 0
Gives none = Unit
Gives (some w) = IsSteady w

abbrev pub Returns : Outcome → Type 0
Returns (returns w) = IsSteady w
Returns _ = Unit

bind-Gives :
    {A : Type 0} (o : Option A) (f : A → Option World) → ((a : A) → Gives (f a)) → Gives (o >>= f)
bind-Gives none f k = tt
bind-Gives (some a) f k = k a

outcome-Returns : (o : Option World) → Gives o → Returns (outcome o)
unfolding outcome
outcome-Returns none h = tt
outcome-Returns (some w) h = h

module _ (run : ℕ → List ℕ → List ℕ → Bool × StatusDownloader) where
  create-IsSteady :
      (id : ℕ) (task : Task) (w : World) → IsSteady w → IsSteady (create run id task w).1
  unfolding create
  create-IsSteady id task w h =
      let s = show-IsSteady id (run w.next_downloader task.uri task.fname).1 w h in
      record { running = s.running; tallied = s.tallied }

  create_job-IsSteady : (task : Task) (w : World) → IsSteady w → IsSteady (create_job run task w).1
  unfolding create_job
  create_job-IsSteady task w h =
      create-IsSteady w.next_id task _ (record { running = h.running; tallied = h.tallied })

  start_job-IsSteady :
      (id : ℕ) (task : Task) (o : Option ℕ × World) → IsSteady o.1 → IsSteady (start_job id task o)
  unfolding start_job
  start_job-IsSteady id task (none, w) h = h
  start_job-IsSteady id task (some d, w) h = push_job-IsSteady id task d w h

  module _ (again : World → Option World) (k : (v : World) → IsSteady v → Gives (again v))
      (w : World) (h : IsSteady w) where
    start_task-Gives : (r : Option Task × Source) → Gives (start_task run again w r)
    unfolding start_task
    start_task-Gives (none, source) = record { running = h.running; tallied = h.tallied }
    start_task-Gives (some task, source) = k _ (
        start_job-IsSteady w.next_id task _
          (create_job-IsSteady task _ (record { running = h.running; tallied = h.tallied })))

    retry_or_push-Gives :
        (id : ℕ) (task : Task) (o : Option ℕ × World)
        → IsSteady o.1
        → Gives (retry_or_push again id task o)
    unfolding retry_or_push
    retry_or_push-Gives id task (none, v) g = k v g
    retry_or_push-Gives id task (some d, v) g = push_job-IsSteady id task d v g

    take_task-Gives : (r : Option Task × Source) → Gives (take_task run again w r)
    unfolding take_task
    take_task-Gives (none, source) = record { running = h.running; tallied = h.tallied }
    take_task-Gives (some task, source) =
        retry_or_push-Gives w.next_id task _
          (create_job-IsSteady task _ (record { running = h.running; tallied = h.tallied }))

  pub start_jobs-Gives : (n : ℕ) (w : World) → IsSteady w → Gives (start_jobs run n w)
  unfolding start_jobs
  start_jobs-Gives zero w h = h
  start_jobs-Gives (suc n) w h =
      bind-Gives (get w.path w.source) _
        (start_task-Gives (start_jobs run n) (start_jobs-Gives n) w h)

  fill-Gives : (n : ℕ) (w : World) → IsSteady w → Gives (fill run n w)
  unfolding fill
  fill-Gives zero w h = tt
  fill-Gives (suc n) w h =
      bind-Gives (get w.path w.source) _ (take_task-Gives (fill run n) (fill-Gives n) w h)

  next_task-Returns :
      (id : ℕ) (w : World)
      → All IsRunning (erase_job id w.jobs)
      → IsTallied w.dashboard
      → Returns (next_task run id w)
  unfolding next_task
  next_task-Returns id w r t =
      if_both Returns w.factory _ _
        (λ f.
          outcome-Returns _
            (fill-Gives (length w.source.rest + 3) _ (record { running = r; tallied = t })))
        (λ f. record { running = r; tallied = t })

  relaunch-Returns :
      (job : Job) (o : Option ℕ × World) → IsSteady o.1 → Returns (relaunch run job o)
  unfolding relaunch
  relaunch-Returns job (none, w) h =
      next_task-Returns job.id _
        (subst (All IsRunning)
          (sym (erase_job-replace_job (record job { downloader = none }) w.jobs))
          (erase_job-All job.id w.jobs h.running))
        h.tallied
  relaunch-Returns job (some d, w) h = record {
    running = replace_job-All _ w.jobs (d, refl) h.running;
    tallied = h.tallied;
  }

  redirect_to-Returns :
      (job : Job) (uri : List ℕ) (w : World)
      → IsRunning job
      → IsSteady w
      → Returns (redirect_to run job uri w)
  unfolding redirect_to
  redirect_to-Returns job uri w r h =
      let job' = record job { redirect_count = add_size job.redirect_count 1 } in
      let k : IsSteady (record w { jobs = replace_job job' w.jobs }) = record {
        running = replace_job-All job' w.jobs r h.running;
        tallied = h.tallied;
      } in
      if_both Returns (ltb w.max_redirect job'.redirect_count) _ _
        (λ o.
          let s = show-IsSteady job.id too_many _ k in
          next_task-Returns job.id _ (erase_job-All job.id _ s.running) s.tallied)
        (λ o.
          if_both Returns w.factory _ _
            (λ f. relaunch-Returns job' _ (create-IsSteady job.id _ _ k))
            (λ f. record { running = erase_job-All job.id _ k.running; tallied = h.tallied }))

  dispatch-Returns :
      (s : State) (job : Job) (uri : List ℕ) (w : World)
      → IsRunning job
      → IsSteady w
      → Returns (dispatch run s job uri w)
  unfolding dispatch
  dispatch-Returns done job uri w r h =
      next_task-Returns job.id w (erase_job-All job.id w.jobs h.running) h.tallied
  dispatch-Returns failed job uri w r h =
      next_task-Returns job.id w (erase_job-All job.id w.jobs h.running) h.tallied
  dispatch-Returns redirect job uri w r h = redirect_to-Returns job uri w r h
  dispatch-Returns init job uri w r h = h
  dispatch-Returns on_the_go job uri w r h = h

  pub invoke-Returns :
      (d : ℕ) (status : StatusDownloader) (w : World) → IsSteady w → Returns (invoke run d status w)
  unfolding invoke invoke_job
  invoke-Returns d status w h = elim (Option-cases (find_job d w.jobs)) [
    | inl unknown ↦ subst (λ o. Returns (invoke_job run o status w)) (sym unknown) tt
    | inr (job, found) ↦
        subst (λ o. Returns (invoke_job run o status w)) (sym found)
          (dispatch-Returns status.state job status.redirect_uri _
            (find_job-All d w.jobs job found h.running) (show-IsSteady job.id status w h))
  ]

  module _ (status : ℕ → StatusDownloader) where
    continue-Returns :
        (next : World → Outcome)
        → ((v : World) → IsSteady v → Returns (next v))
        → (o : Outcome) → Returns o
        → Returns (continue_with next o)
    unfolding continue_with
    continue-Returns next k (returns w) h = k w h
    continue-Returns next k throws h = tt
    continue-Returns next k stuck h = tt
    continue-Returns next k crashes h = tt

    stop_all-Returns :
        (ds : List (Option ℕ)) (w : World) → IsSteady w → Returns (stop_all run status ds w)
    unfolding stop_all
    stop_all-Returns [] w h = h
    stop_all-Returns (none ∷ ds) w h = tt
    stop_all-Returns (some d ∷ ds) w h =
        continue-Returns (stop_all run status ds) (stop_all-Returns ds) _
          (invoke-Returns d (aborted (status d)) w h)

    pub interrupt-Returns : (w : World) → IsSteady w → Returns (interrupt run status w)
    unfolding interrupt
    interrupt-Returns w h =
        stop_all-Returns _ _ (record { running = h.running; tallied = h.tallied })
