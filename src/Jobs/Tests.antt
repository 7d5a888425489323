-- ===== src/Jobs/Tests.antt =====
-- The list of jobs on concrete input.
use ecwid_console_downloader.Base.{
  ℕ, ◌+◌, ◌≤◌, ◌≡◌, refl, Bool, true, false, some, List, [], ◌∷◌, ◌++◌, length, take, drop, codes,
  ◌==◌, arith, if◌then◌else◌,
}
use ecwid_console_downloader.Jobs.{
  World, StatusDownloader, init, failed, redirect, returns, next_task, erase_job, invoke,
  start_jobs,
}
use ecwid_console_downloader.Jobs.Fill.{Fills, tasks_left, tasks_tried, next_task-Fills}
use ecwid_console_downloader.Jobs.Limits.{IsLimited}
use ecwid_console_downloader.Jobs.Invoke.{Invoked, invoke-Invoked}
use ecwid_console_downloader.Jobs.Interrupt.{interrupt, interrupt-ends}
use ecwid_console_downloader.Jobs.Concurrency.{Bounded, invoke_all, start_jobs-Bounded}
use ecwid_console_downloader.Jobs
use ecwid_console_downloader.Jobs.Start.{start_jobs-tries}
use ecwid_console_downloader.Jobs.Totals.{
  update_all, opened_dashboard, tasks_in, bytes_in, lines_in, task_of, bytes_of, line_of,
  update_all-totals,
}

abbrev idle : StatusDownloader
idle = record { downloaded = 0; size = 0; state = init; state_str = []; redirect_uri = [] }

-- The third downloader fails to start.
abbrev run_some : ℕ → List ℕ → List ℕ → Bool × StatusDownloader
run_some d uri fname = if d == 3 then (false, record idle { state = failed }) else (true, idle)

abbrev world : World
world = record {
  jobs = record { id = 1; fname = codes "a"; redirect_count = 2; downloader = some 1 } ∷ [];
  source = record { rest = codes "http://b/y b\nhttp://c/z c\n"; eof = false };
  path = codes "out/";
  dashboard = record { done_tasks = 0; total_downloaded = 0; printed = [] };
  factory = true;
  max_redirect = 10;
  next_id = 2;
  next_downloader = 3;
  created = [];
}

next_task-Fills_example :
    (v : World) × (next_task run_some 1 world ≡ returns v)
    × Fills run_some (record world { jobs = erase_job 1 world.jobs }) v
next_task-Fills_example = next_task-Fills run_some 1 world refl

world-IsLimited : IsLimited world
world-IsLimited = record { counts = (omega arith, tt); max_fits = omega arith }

abbrev moved : StatusDownloader
moved = record idle { state = redirect; redirect_uri = codes "http://d/x" }

invoke-Invoked_example : Invoked run_some 1 world (invoke run_some 1 moved world)
invoke-Invoked_example = invoke-Invoked run_some 1 moved world world-IsLimited

start_jobs-tries_example :
    (v : World) × (start_jobs run_some 1 world ≡ some v)
    × (tasks_tried v ≡ tasks_tried world ++ take 1 (tasks_left world))
    × (tasks_left v ≡ drop 1 (tasks_left world))
    × (length v.jobs ≤ length world.jobs + 1)
start_jobs-tries_example = start_jobs-tries run_some 1 world

interrupt-ends_example :
    (v : World) × (interrupt run_some (λ d. idle) world ≡ returns v)
    × (v.jobs ≡ [])
    × (v.created ≡ world.created)
    × (v.source ≡ world.source)
interrupt-ends_example = interrupt-ends run_some (λ d. idle) world ((1, refl), tt)

start_jobs-Bounded_example :
    (v : World) × (start_jobs run_some 2 (record world { jobs = [] }) ≡ some v)
    × Bounded run_some 2 (invoke_all run_some ((4, moved) ∷ (5, moved) ∷ []) v)
start_jobs-Bounded_example =
    start_jobs-Bounded run_some 2 ((4, moved) ∷ (5, moved) ∷ []) (record world { jobs = [] }) refl
      (omega arith)

abbrev reports : List (ℕ × StatusDownloader)
reports =
    (1, idle)
    ∷ (1, record idle { state = Jobs.done; downloaded = 7 })
    ∷ (2, record idle { state = failed; downloaded = 5 })
    ∷ (3, record idle { state = Jobs.done; downloaded = 8 })
    ∷ []

update_all-totals_example :
    let d = update_all reports opened_dashboard in
    (d.done_tasks ≡ 2) × (d.total_downloaded ≡ 15) × (d.printed ≡ drop 1 reports)
unfolding tasks_in bytes_in lines_in task_of bytes_of line_of
update_all-totals_example = update_all-totals reports
