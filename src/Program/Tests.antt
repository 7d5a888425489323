-- ===== src/Program/Tests.antt =====
-- A run of `main` with one task, and one that is interrupted.
use ecwid_console_downloader.Base.{
  none, false, ℕ, ◌%◌, ◌^◌, ◌≡◌, refl, Bool, true, some, List, [], ◌∷◌, codes,
}
use ecwid_console_downloader.Tasks.{
  getline, is_space, skip_space, take_word, extract, read_task, get_from, get, is_empty,
}
use ecwid_console_downloader.Options.{ProgramOptions}
use ecwid_console_downloader.Jobs
use ecwid_console_downloader.Jobs.{
  StatusDownloader, print, update_as, update, show, erase_job, points_to, find_job, push_job,
  start_job, outcome, create, create_job, take_task, fill, next_task, dispatch, invoke_job, invoke,
  start_task, start_jobs,
}
use ecwid_console_downloader.Jobs.Totals.{opened_dashboard, tasks_in, bytes_in}
use ecwid_console_downloader.Program.{
  tick, idle, opened_world, started, resume, idle_handler, finish, take_event, loop, main,
}
use ecwid_console_downloader.Http.Uri.{uri_parse}
use ecwid_console_downloader.Downloader.Start.{can_run}
use ecwid_console_downloader.Program.Create.{Surroundings, run_downloader, create-decides}
use ecwid_console_downloader.Program.Ends.{main-tallies}

abbrev options : ProgramOptions
options = record { concurrency = 2; limit = 0; path = []; task_fname = codes "tasks" }

abbrev text : List ℕ
text = codes "http://a a\n"

abbrev begun : StatusDownloader
begun = record {
  downloaded = 0;
  size = 0;
  state = Jobs.on_the_go;
  state_str = [];
  redirect_uri = [];
}

abbrev done : StatusDownloader
done = record begun { state = Jobs.done; downloaded = 7 }

abbrev run_all : ℕ → List ℕ → List ℕ → Bool × StatusDownloader
run_all d uri fname = (true, begun)

main-tallies_example :
    (1 ≡ tasks_in ((1, done) ∷ []) % 2 ^ 64) × (7 ≡ bytes_in ((1, done) ∷ []) % 2 ^ 64)
unfolding main loop take_event resume finish idle_handler started opened_world opened_dashboard
    start_jobs start_task start_job push_job create_job create show update update_as print get
    get_from getline extract read_task skip_space take_word is_space is_empty invoke invoke_job
    find_job points_to dispatch next_task erase_job fill take_task outcome
main-tallies_example =
    main-tallies run_all options (some text) (tick 0 done ∷ idle ∷ []) ((1, done) ∷ []) 1 7 refl

-- No URL is parsed.
abbrev no_resources : Surroundings
no_resources = record {
  resources = λ d. record { tcp = true; tcp_tls = false; timer = true; resolver = true };
  fails = λ d. none;
}

create-decides_example :
    let made =
      create
        (run_downloader ℕ no_resources (λ uri. none))
        1
        (record { uri = codes "x"; fname = codes "f" })
        (opened_world options text) in
    (made.0 ≡ none)
    × (made.1.dashboard ≡ (record opened_dashboard {
      printed = (1, (run_downloader ℕ no_resources (λ uri. none) 0 (codes "x") (codes "f")).1) ∷ [];
    }))
unfolding opened_world opened_dashboard can_run uri_parse
create-decides_example =
    create-decides ℕ no_resources (λ uri. none) 1 (record { uri = codes "x"; fname = codes "f" })
      (opened_world options text)
