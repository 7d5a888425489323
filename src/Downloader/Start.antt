-- ===== src/Downloader/Start.antt =====
-- How the `run` of a `DownloaderSimple` ends.
use ecwid_console_downloader.Base.{
  ℕ, ◌≡◌, refl, Bool, true, false, not, ◌&&◌, Option, none, some, List, [], codes, if◌then◌else◌,
  Bool-cases, inl, inr,
}
use ecwid_console_downloader.Jobs
use ecwid_console_downloader.Http.{same_text}
use ecwid_console_downloader.Http.Uri.{UriParseResult}
use ecwid_console_downloader.Downloader.State.{
  Downloader, Failure, construct, fail_resolver, fail_all, fail_with, on_error_without_tick,
  terminate_handles, terminate_resolver, terminate_socket, terminate_timer, terminate_file,
  creates_tcp, creates_tcp_tls, Effect, emit,
}
use ecwid_console_downloader.Downloader.Net.{
  Resources, run, run_uri, run_with, finish_run, finish_run_by, start_resolve, fail_resolver_by,
  create_handles, with_socket, with_timer, with_resolver, is_given,
}

-- The URI is parsed, every handle is made, and the resolver does not fail at once.
unfoldable pub can_run : Resources → Option Failure → Option UriParseResult → Bool
can_run r fails none = false
can_run r fails (some uri) =
    (if same_text uri.proto (codes "https") then r.tcp_tls else r.tcp)
    && (r.timer && (r.resolver && not (is_given fails)))

-- A result of `run` without a report to `OnTick`.
record Decided {P : Type 0} (expected : Bool) (outcome : Bool × Downloader P) : Type 0 where
  decision : outcome.0 ≡ expected
  state : outcome.1.m_status.state ≡ (if expected then Jobs.on_the_go else Jobs.failed)
  unreported : outcome.1.ticks ≡ []

module _ {P : Type 0} (uri : UriParseResult) (backlog : ℕ) (name : List ℕ) (effect : Effect) where
  abbrev entered : Downloader P
  entered =
      let d : Downloader P = construct backlog in
      emit effect (record d {
        fname = name;
        m_status = record d.m_status { state = Jobs.init };
        uri_parsed = some uri;
      })

  made-Decided :
      (tcp tls made timer resolver : Bool) (fails : Option Failure)
      → Decided (made && (timer && (resolver && not (is_given fails)))) (
          run_with uri fails (
            with_socket
              (record { tcp = tcp; tcp_tls = tls; timer = timer; resolver = resolver })
              made
              entered))
  unfolding run_with finish_run finish_run_by start_resolve fail_resolver_by with_socket with_timer
      with_resolver construct fail_resolver fail_all fail_with on_error_without_tick
      terminate_handles terminate_resolver terminate_socket terminate_timer terminate_file
  made-Decided tcp tls false timer resolver fails = record {
    decision = refl;
    state = refl;
    unreported = refl;
  }
  made-Decided tcp tls true false resolver fails = record {
    decision = refl;
    state = refl;
    unreported = refl;
  }
  made-Decided tcp tls true true false fails = record {
    decision = refl;
    state = refl;
    unreported = refl;
  }
  made-Decided tcp tls true true true none = record {
    decision = refl;
    state = refl;
    unreported = refl;
  }
  made-Decided tcp tls true true true (some e) = record {
    decision = refl;
    state = refl;
    unreported = refl;
  }

uri-Decided :
    {P : Type 0} (r : Resources) (fails : Option Failure) (uri : Option UriParseResult)
    (name : List ℕ) (backlog : ℕ)
    → Decided {P = P} (can_run r fails uri) (run r fails uri name (construct backlog))
unfolding run run_uri create_handles can_run construct
uri-Decided r fails none name backlog = record { decision = refl; state = refl; unreported = refl }
uri-Decided r fails (some uri) name backlog =
    elim (Bool-cases (same_text uri.proto (codes "https"))) [
      | inl secure ↦ simp secure (
          made-Decided uri backlog name creates_tcp_tls r.tcp r.tcp_tls r.tcp_tls r.timer r.resolver
            fails)
      | inr plain ↦
          simp plain (
            made-Decided uri backlog name creates_tcp r.tcp r.tcp_tls r.tcp r.timer r.resolver
              fails)
    ]

-- `run` of a new downloader returns true exactly if the URI is parsed, the socket for its scheme, the timer
-- and the resolver are made and the resolver does not fail at once; the status is then that of a download
-- under way, and otherwise that of a failed one. In neither case `OnTick` is told.
pub run-decides :
    (P : Type 0) (r : Resources) (fails : Option Failure) (uri : Option UriParseResult)
    (name : List ℕ) (backlog : ℕ)
    → let outcome = run {P = P} r fails uri name (construct backlog) in
      (outcome.0 ≡ can_run r fails uri)
      × (outcome.1.m_status.state ≡ (if can_run r fails uri then Jobs.on_the_go else Jobs.failed))
      × (outcome.1.ticks ≡ [])
run-decides P r fails uri name backlog =
    let h = uri-Decided {P = P} r fails uri name backlog in (h.decision, h.state, h.unreported)
