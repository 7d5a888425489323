-- ===== src/Program/Create.antt =====
-- include/factory_simple.h: `FactorySimple::create`, with the `run` of `DownloaderSimple` under it.
use ecwid_console_downloader.Base.{
  ℕ, ◌≡◌, ap, Bool, true, false, Option, none, some, List, [], ◌∷◌, ◌++◌, if◌then◌else◌,
}
use ecwid_console_downloader.Tasks.{Task}
use ecwid_console_downloader.Jobs
use ecwid_console_downloader.Jobs.{
  State, World, StatusDownloader, Dashboard, create, show, update, update_as, print,
}
use ecwid_console_downloader.Http.{HttpParser}
use ecwid_console_downloader.Http.Uri.{UrlFields, uri_parse}
use ecwid_console_downloader.Downloader.State.{Failure, construct}
use ecwid_console_downloader.Downloader.Net.{Resources, run}
use ecwid_console_downloader.Downloader.Start.{can_run, run-decides}

-- What the loop and the factory of sockets make for the d-th downloader, and whether its resolver fails at once.
pub record Surroundings : Type 0 where
  pub resources : ℕ → Resources
  pub fails : ℕ → Option Failure

-- The `run` of the d-th downloader that `create` makes, and the status that it leaves; `P` is the type of the
-- `http_parser`, and `parse_url` what `http_parser_parse_url` finds in a URI.
unfoldable pub run_downloader :
    (P : Type 0)
    → Surroundings
    → (List ℕ → Option UrlFields)
    → ℕ
    → List ℕ
    → List ℕ
    → Bool × StatusDownloader
run_downloader P s parse_url d uri fname =
    let (runned, downloader) =
      run {P = P × HttpParser} (s.resources d) (s.fails d) (uri_parse parse_url uri) fname
        (construct 10) in
    (runned, downloader.m_status)

-- The dashboard after a status of this state: a line for one that has failed, and none for one under way.
shown_as :
    (b : Bool) (s : State) (id : ℕ) (status : StatusDownloader) (d : Dashboard)
    → s ≡ (if b then Jobs.on_the_go else Jobs.failed)
    → update_as s id status d
      ≡ (if b then d else record d { printed = d.printed ++ ((id, status) ∷ []) })
unfolding update_as print
shown_as true s id status d e = ap (λ s. update_as s id status d) e
shown_as false s id status d e = ap (λ s. update_as s id status d) e

-- `FactorySimple::create` makes a downloader exactly if the URI is parsed, the socket for its scheme, the timer
-- and the resolver are made and the resolver does not fail at once. The dashboard is then as it was;
-- otherwise the result is a null pointer, and the status of the failure is printed and counted for nothing.
pub create-decides :
    (P : Type 0) (s : Surroundings) (parse_url : List ℕ → Option UrlFields) (id : ℕ) (task : Task)
    (w : World)
    → let d = w.next_downloader in
      let b = can_run (s.resources d) (s.fails d) (uri_parse parse_url task.uri) in
      let status = (run_downloader P s parse_url d task.uri task.fname).1 in
      let made = create (run_downloader P s parse_url) id task w in
      (made.0 ≡ (if b then some d else none))
      × (made.1.dashboard ≡ (
          if b
          then w.dashboard
          else record w.dashboard { printed = w.dashboard.printed ++ ((id, status) ∷ []) }))
unfolding run_downloader create show update
create-decides P s parse_url id task w =
    let d = w.next_downloader in
    let (decision, state, _) =
      run-decides (P × HttpParser) (s.resources d) (s.fails d) (uri_parse parse_url task.uri)
        task.fname 10 in
    (ap (λ b. if b then some d else none) decision, shown_as _ _ id _ w.dashboard state)
