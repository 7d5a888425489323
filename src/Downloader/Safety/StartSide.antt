-- ===== src/Downloader/Safety/StartSide.antt =====
-- A new download is safe after its `run`, whatever the result.
use ecwid_console_downloader.Base.{
  ℕ, ◌≡◌, refl, Bool, true, false, Option, none, some, List, codes, ap, subst, sym, not, ◌||◌,
  Bool-cases, inl, inr,
}
use ecwid_console_downloader.Jobs
use ecwid_console_downloader.Http.{same_text}
use ecwid_console_downloader.Http.Uri.{UriParseResult}
use ecwid_console_downloader.Downloader.State.{
  Downloader, Failure, Effect, creates_tcp, creates_tcp_tls, emit, construct, no_file,
}
use ecwid_console_downloader.Downloader.File.{is_filled}
use ecwid_console_downloader.Downloader.Net.{
  Resources, run, run_uri, run_with, finish_run, finish_run_by, start_resolve, fail_resolver_by,
  create_handles, with_socket, with_timer, with_resolver, is_init,
}
use ecwid_console_downloader.Downloader.Safety.{
  Course, NetView, net_of, closes, Hears, Phase, silent, resolving, IsSafe,
}
use ecwid_console_downloader.Downloader.Safety.Failing.{fail_resolver-IsSafe}

module _ {P : Type 0} (course : Course P) where
  -- A download without a file.
  fileless-IsSafe :
      (d : Downloader P)
      → d.crashed ≡ false
      → d.file ≡ no_file
      → Phase course (net_of d) false false
      → IsSafe course d
  fileless-IsSafe d s f h = record {
    sound = s;
    files = record {
      there = ap (λ x. not (x.on_open || x.on_write) || x.present) f;
      closing = ap (λ x. not (closes x.on_close) || x.present) f;
      filled = ap (λ x. not x.on_write || is_filled d.buffer) f;
      backed = ap (λ x. not (x.on_open || x.on_write) || (d.receive_done || d.socket.present)) f;
    };
    phase = subst (λ x. Phase course (net_of d) x.present (x.on_open || x.on_write)) (sym f) h;
  }

  finish_run-IsSafe :
      (uri : UriParseResult) (d : Downloader P)
      → IsSafe course d
      → IsSafe course (finish_run uri d).1
  unfolding finish_run finish_run_by
  finish_run-IsSafe uri d h = elim (Bool-cases (is_init d.m_status.state)) [
    | inl i ↦ simp i (record {
      sound = h.sound;
      files = record {
        there = h.files.there;
        closing = h.files.closing;
        filled = h.files.filled;
        backed = h.files.backed;
      };
      phase = h.phase;
    })
    | inr i ↦ simp i h
  ]

  abbrev quiet : {n : NetView P} → Hears n n.addr_info n.connect n.write n.ends n.datas n.shuts
  quiet = record {
    addr_info_same = refl;
    connect_same = refl;
    write_same = refl;
    ends_same = refl;
    datas_same = refl;
    shuts_same = refl;
  }

  module _ (uri : UriParseResult) (backlog : ℕ) (name : List ℕ) (effect : Effect) where
    abbrev entered : Downloader P
    entered =
        let d : Downloader P = construct backlog in
        emit effect (record d {
          fname = name;
          m_status = record d.m_status { state = Jobs.init };
          uri_parsed = some uri;
        })

    resolving-IsSafe :
        (fails : Option Failure) (d : Downloader P)
        → d.crashed ≡ false
        → d.file ≡ no_file
        → Phase course (record (net_of d) { addr_info = true }) false false
        → IsSafe course (start_resolve uri fails d)
    unfolding start_resolve fail_resolver_by
    resolving-IsSafe none d s f h = fileless-IsSafe _ s f h
    resolving-IsSafe (some e) d s f h = fail_resolver-IsSafe course e _ (fileless-IsSafe _ s f h)

    made-IsSafe :
        (tcp tls made timer resolver : Bool) (fails : Option Failure)
        → IsSafe course
            (run_with uri fails (
              with_socket
                (record { tcp = tcp; tcp_tls = tls; timer = timer; resolver = resolver })
                made
                entered)).1
    unfolding run_with with_socket with_timer with_resolver construct
    made-IsSafe tcp tls false timer resolver fails = fileless-IsSafe _ refl refl (silent quiet)
    made-IsSafe tcp tls true false resolver fails = fileless-IsSafe _ refl refl (silent quiet)
    made-IsSafe tcp tls true true false fails = fileless-IsSafe _ refl refl (silent quiet)
    made-IsSafe tcp tls true true true fails = finish_run-IsSafe uri _ (
        resolving-IsSafe fails _ refl refl (
          resolving
            (record {
              addr_info_same = refl;
              connect_same = refl;
              write_same = refl;
              ends_same = refl;
              datas_same = refl;
              shuts_same = refl;
            })
            refl refl refl refl))

  pub run-IsSafe :
      (r : Resources) (fails : Option Failure) (uri : Option UriParseResult) (name : List ℕ)
      (backlog : ℕ)
      → IsSafe course (run r fails uri name (construct backlog)).1
  unfolding run run_uri create_handles construct
  run-IsSafe r fails none name backlog = fileless-IsSafe _ refl refl (silent quiet)
  run-IsSafe r fails (some uri) name backlog =
      elim (Bool-cases (same_text uri.proto (codes "https"))) [
        | inl secure ↦ simp secure (
            made-IsSafe uri backlog name creates_tcp_tls r.tcp r.tcp_tls r.tcp_tls r.timer
              r.resolver fails)
        | inr plain ↦ simp plain (
            made-IsSafe uri backlog name creates_tcp r.tcp r.tcp_tls r.tcp r.timer r.resolver fails)
      ]
