-- ===== src/Program.antt =====
-- src/main.cpp: the start of the jobs, the handlers of the signal and of the idle handle, and the summary.
-- How the `run` of the d-th downloader ends is a parameter, as in Jobs. The events of the loop are the reports of
-- the downloaders, SIGINT with the statuses that the downloaders then have, and the idle event. The loop's `run`
-- returns when no handle is active: here, when the signal and the idle handle are stopped.
pub mod Looping
pub mod Ends
pub mod Create
mod Tests
use ecwid_console_downloader.Base.{
  ℕ, Bool, true, false, ◌||◌, ◌&&◌, Option, none, some, List, [], ◌∷◌, if◌then◌else◌,
}
use ecwid_console_downloader.Options.{ProgramOptions}
use ecwid_console_downloader.Jobs.{
  World, Job, StatusDownloader, Outcome, returns, throws, stuck, crashes, invoke, start_jobs,
}
use ecwid_console_downloader.Jobs.Interrupt.{interrupt}
use ecwid_console_downloader.Jobs.Totals.{opened_dashboard}

-- The variables of `main`; `signal_active` and `idle_active` say whether these handles run. The signal's only
-- listener is a `once` listener and its handle is one shot: both go together.
pub record Program : Type 0 where
  pub world : World
  pub signal_active : Bool
  pub idle_active : Bool

pub data LoopEvent : Type 0 where
  tick : ℕ → StatusDownloader → LoopEvent
  sigint : (ℕ → StatusDownloader) → LoopEvent
  idle : LoopEvent

-- The loop, or the way that a handler has ended that did not return.
pub data Loop : Type 0 where
  running : Program → Loop
  broken : Outcome → Loop

-- `main` returns 1, or 0 after its summary, of which the lines before it and the two numbers are given.
pub data Exit : Type 0 where
  cannot_open : List ℕ → Exit
  finished : List (ℕ × StatusDownloader) → ℕ → ℕ → Exit
  unfinished : Program → Exit
  failed : Outcome → Exit

-- `task_list`, `dashboard`, `factory`, `job_list` and `on_tick` as they are made.
unfoldable pub opened_world : ProgramOptions → List ℕ → World
opened_world options text = record {
  jobs = [];
  source = record { rest = text; eof = false };
  path = options.path;
  dashboard = opened_dashboard;
  factory = true;
  max_redirect = 10;
  next_id = 1;
  next_downloader = 0;
  created = [];
}

unfoldable pub started : Option World → Loop
started none = broken stuck
started (some w) = running (record { world = w; signal_active = true; idle_active = true })

unfoldable pub resume : (World → Program) → Outcome → Loop
resume next (returns w) = running (next w)
resume next o = broken o

abbrev pub none_left : List Job → Bool
none_left [] = true
none_left (j ∷ js) = false

-- `idle_handler`
unfoldable pub idle_handler : Program → Program
idle_handler p =
    if none_left p.world.jobs then record p { signal_active = false; idle_active = false } else p

-- The end of `main`, when the loop has returned.
unfoldable pub finish : Loop → Exit
finish (running p) =
    let d = p.world.dashboard in
    if p.signal_active || p.idle_active
    then unfinished p
    else finished d.printed d.done_tasks d.total_downloaded
finish (broken o) = failed o

module _ (run : ℕ → List ℕ → List ℕ → Bool × StatusDownloader) where
  unfoldable pub signal_handler : (ℕ → StatusDownloader) → Program → Loop
  signal_handler status p =
      resume (λ w. record p { world = w; signal_active = false }) (interrupt run status p.world)

  unfoldable pub take_event : LoopEvent → Program → Loop
  take_event (tick d status) p = resume (λ w. record p { world = w }) (invoke run d status p.world)
  take_event (sigint status) p = if p.signal_active then signal_handler status p else running p
  take_event idle p = if p.idle_active then running (idle_handler p) else running p

  unfoldable pub loop : List LoopEvent → Loop → Loop
  loop [] l = l
  loop (e ∷ es) (running p) = loop es (take_event e p)
  loop (e ∷ es) (broken o) = broken o

  -- The tasks are those of a file, if it opens.
  unfoldable pub main : ProgramOptions → Option (List ℕ) → List LoopEvent → Exit
  main options none es = cannot_open options.task_fname
  main options (some text) es =
      finish (loop es (started (start_jobs run options.concurrency (opened_world options text))))
