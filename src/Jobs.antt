-- ===== src/Jobs.antt =====
-- src/on_tick_simple.cpp with include/job.h, include/factory_simple.h, include/dashboard_simple.h and
-- the loop of main.cpp that starts the first jobs: the list of running jobs.
-- A downloader is the number of its construction, a job's place in the list is its id. How a
-- downloader's `run` ends depends on the network: `run d uri fname` is its result and the status
-- that it leaves, for the `d`-th downloader.
pub mod Concurrency
pub mod Fill
pub mod Interrupt
pub mod Invoke
pub mod Limits
pub mod Start
pub mod Steady
pub mod Tally
pub mod Totals
mod Tests
use ecwid_console_downloader.Base.{
  ℕ, zero, suc, ◌+◌, Bool, true, false, Option, none, some, List, [], ◌∷◌, ◌++◌, length, codes, ltb,
  ◌==◌, if◌then◌else◌, ◌>>=◌, add_size,
}
use ecwid_console_downloader.Tasks.{Task, Source, get}

-- include/downloader.h
pub data State : Type 0 where
  init on_the_go done failed redirect : State

pub record StatusDownloader : Type 0 where
  pub downloaded : ℕ
  pub size : ℕ
  pub state : State
  pub state_str : List ℕ
  pub redirect_uri : List ℕ

pub record Job : Type 0 where
  pub id : ℕ
  pub fname : List ℕ
  pub redirect_count : ℕ
  pub downloader : Option ℕ

-- `printed` has the lines that `update` writes: the job and its status.
pub record Dashboard : Type 0 where
  pub done_tasks : ℕ
  pub total_downloaded : ℕ
  pub printed : List (ℕ × StatusDownloader)

-- What `OnTickSimple` and `FactorySimple` share. `factory` tells whether the weak pointer locks;
-- `created` records the calls of `Factory::create`.
pub record World : Type 0 where
  pub jobs : List Job
  pub source : Source
  pub path : List ℕ
  pub dashboard : Dashboard
  pub factory : Bool
  pub max_redirect : ℕ
  pub next_id : ℕ
  pub next_downloader : ℕ
  pub created : List (ℕ × Task)

-- A handler returns, throws `runtime_error`, has run out of the fuel of its loop, or calls through a
-- null pointer.
pub data Outcome : Type 0 where
  returns : World → Outcome
  throws : Outcome
  stuck : Outcome
  crashes : Outcome

unfoldable pub print : ℕ → StatusDownloader → Dashboard → Dashboard
print id status d = record d { printed = d.printed ++ ((id, status) ∷ []) }

unfoldable pub update_as : State → ℕ → StatusDownloader → Dashboard → Dashboard
unfolding print
update_as done id status d = record (print id status d) {
  done_tasks = add_size d.done_tasks 1;
  total_downloaded = add_size d.total_downloaded status.downloaded;
}
update_as failed id status d = print id status d
update_as redirect id status d = print id status d
update_as _ id status d = d

unfoldable pub update : ℕ → StatusDownloader → Dashboard → Dashboard
unfolding update_as
update id status d = update_as status.state id status d

unfoldable pub show : ℕ → StatusDownloader → World → World
unfolding update
show id status w = record w { dashboard = update id status w.dashboard }

-- `std::list::erase`, at the place of the job with this id.
unfoldable pub erase_job : ℕ → List Job → List Job
erase_job id [] = []
erase_job id (j ∷ js) = if j.id == id then js else j ∷ erase_job id js

-- A write through the iterator of a job.
pub replace_job : Job → List Job → List Job
replace_job job [] = []
replace_job job (j ∷ js) = if j.id == job.id then job ∷ js else j ∷ replace_job job js

unfoldable pub points_to : ℕ → Option ℕ → Bool
points_to d none = false
points_to d (some e) = e == d

unfoldable pub find_job : ℕ → List Job → Option Job
unfolding points_to
find_job d [] = none
find_job d (j ∷ js) = if points_to d j.downloader then some j else find_job d js

-- `job_list.push_back`, for the job constructed last before `w`.
unfoldable pub push_job : ℕ → Task → ℕ → World → World
push_job id task d w = record w {
  jobs =
      w.jobs
      ++ (record { id = id; fname = task.fname; redirect_count = 0; downloader = some d } ∷ []);
}

pub retry_or_push : (World → Option World) → ℕ → Task → Option ℕ × World → Option World
retry_or_push again id task (none, w) = again w
retry_or_push again id task (some d, w) = some (push_job id task d w)

-- The loop of `main` that starts the first jobs goes on whether or not the job was created.
unfoldable pub start_job : ℕ → Task → Option ℕ × World → World
start_job id task (none, w) = w
start_job id task (some d, w) = push_job id task d w

unfoldable pub outcome : Option World → Outcome
outcome none = stuck
outcome (some w) = returns w

-- The status that `redirect` shows when a job was redirected too often.
abbrev pub too_many : StatusDownloader
too_many = record {
  downloaded = 0;
  size = 0;
  state = failed;
  state_str = codes "Maximum count redirect";
  redirect_uri = [];
}

module _ (run : ℕ → List ℕ → List ℕ → Bool × StatusDownloader) where
  -- `FactorySimple::create`
  unfoldable pub create : ℕ → Task → World → Option ℕ × World
  create id task w =
      let (runned, status) = run w.next_downloader task.uri task.fname in
      let w' = show id status w in
      (
        if runned then some w.next_downloader else none,
        record w' {
          next_downloader = w.next_downloader + 1;
          created = w.created ++ ((id, task) ∷ []);
        },
      )

  -- The construction of a `Job` takes the next id; then its downloader is created.
  unfoldable pub create_job : Task → World → Option ℕ × World
  create_job task w = create w.next_id task (record w { next_id = add_size w.next_id 1 })

  unfoldable pub take_task : (World → Option World) → World → Option Task × Source → Option World
  take_task again w (none, source) = some (record w { source = source })
  take_task again w (some task, source) =
      retry_or_push again w.next_id task (create_job task (record w { source = source }))

  -- The loop of `next_task`, on fuel: each round reads a task.
  unfoldable pub fill : ℕ → World → Option World
  fill zero w = none
  fill (suc fuel) w = get w.path w.source >>= λ r. take_task (fill fuel) w r

  unfoldable pub next_task : ℕ → World → Outcome
  next_task id w =
      let w' = record w { jobs = erase_job id w.jobs } in
      if w.factory then outcome (fill (length w.source.rest + 3) w') else returns w'

  pub relaunch : Job → Option ℕ × World → Outcome
  relaunch job (d, w) =
      let w' = record w { jobs = replace_job (record job { downloader = d }) w.jobs } in
      elim d [ none ↦ next_task job.id w' | some _ ↦ returns w' ]

  pub redirect_to : Job → List ℕ → World → Outcome
  redirect_to job uri w =
      let job' = record job { redirect_count = add_size job.redirect_count 1 } in
      let w' = record w { jobs = replace_job job' w.jobs } in
      if ltb w.max_redirect job'.redirect_count
      then next_task job.id (show job.id too_many w')
      else if w.factory
      then relaunch job' (create job.id (record { uri = uri; fname = job.fname }) w')
      else returns (record w' { jobs = erase_job job.id w'.jobs })

  unfoldable pub dispatch : State → Job → List ℕ → World → Outcome
  dispatch done job uri w = next_task job.id w
  dispatch failed job uri w = next_task job.id w
  dispatch redirect job uri w = redirect_to job uri w
  dispatch _ job uri w = returns w

  unfoldable pub invoke_job : Option Job → StatusDownloader → World → Outcome
  invoke_job none status w = throws
  invoke_job (some job) status w =
      dispatch status.state job status.redirect_uri (show job.id status w)

  -- `OnTickSimple::invoke`, of the `d`-th downloader with this status.
  unfoldable pub invoke : ℕ → StatusDownloader → World → Outcome
  invoke d status w = invoke_job (find_job d w.jobs) status w

  unfoldable pub start_task : (World → Option World) → World → Option Task × Source → Option World
  start_task again w (none, source) = some (record w { source = source })
  start_task again w (some task, source) =
      again (start_job w.next_id task (create_job task (record w { source = source })))

  unfoldable pub start_jobs : ℕ → World → Option World
  start_jobs zero w = some w
  start_jobs (suc n) w = get w.path w.source >>= λ r. start_task (start_jobs n) w r
