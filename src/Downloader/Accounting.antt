-- ===== src/Downloader/Accounting.antt =====
-- The bytes of a download between the parser and the file, over its whole run.
use ecwid_console_downloader.Base.{
  ℕ, ◌%◌, ◌^◌, ◌≡◌, refl, ◌∙◌, min, Bool, true, false, Option, none, some, List, [], ◌∷◌, ◌++◌,
  length, arith, if◌then◌else◌,
}
use ecwid_console_downloader.Socket.Buffer.{contents}
use ecwid_console_downloader.Http.{ResponseParseResult}
use ecwid_console_downloader.Downloader.State.{
  Downloader, Failure, OnEnd, OnData, closed_early, stream_ended, first_data, more_data, construct,
}
use ecwid_console_downloader.Downloader.File.{Answer, asked}
use ecwid_console_downloader.Http.Uri.{UriParseResult}
use ecwid_console_downloader.Downloader.Net.{
  Parser, Resources, run, run_uri, run_with, finish_run, finish_run_by, start_resolve,
  fail_resolver_by, create_handles, with_socket, with_timer, with_resolver, take_pieces,
  after_parse, read_with, on_read, on_first_data,
}
use ecwid_console_downloader.Downloader.Events.{
  Event, resolver_fails, socket_fails, timer_fails, file_fails, addr_info, connected,
  request_written, data_read, ended, shut, timer_ran, file_opened, file_written, file_closed,
  end_with, end_all, read_by, read_all, deliver, deliver_all,
}
use ecwid_console_downloader.Downloader.Bytes
use ecwid_console_downloader.Downloader.Written.{
  IsAccounted, IsPending, stored-IsAccounted, on_open-IsAccounted, on_data-IsAccounted, moved,
}

module _ {P : Type 0} (parser : Parser P) where
  abbrev Kept : Downloader P → Type 0
  Kept d = IsAccounted (Bytes.bytes_of d)

  if-Kept : (b : Bool) (x y : Downloader P) → Kept x → Kept y → Kept (if b then x else y)
  if-Kept true x y a c = a
  if-Kept false x y a c = c

  take_pieces-Kept :
      (pieces : List (List ℕ)) (answer : ℕ → Answer) (d : Downloader P)
      → Kept d
      → Kept (take_pieces parser pieces answer d)
  unfolding take_pieces
  take_pieces-Kept [] answer d a = a
  take_pieces-Kept (bytes ∷ pieces) answer d a =
      take_pieces-Kept pieces answer _ (on_data-IsAccounted bytes (answer (length pieces)) d a)

  after_parse-bytes : (result : ResponseParseResult) → Bytes.KeepsBytes (after_parse parser result)
  unfolding after_parse
  after_parse-bytes result d =
      Bytes.if-bytes _ _ _ refl (Bytes.conclude-bytes parser result result.state _)

  read_with-Kept :
      (p : Option P) (bytes : List ℕ) (answer : ℕ → Answer) (d : Downloader P)
      → Kept d
      → Kept (read_with parser p bytes answer d)
  unfolding read_with
  read_with-Kept none bytes answer d a = a
  read_with-Kept (some p) bytes answer d a =
      let (p', pieces, result) = parser.parse bytes p in
      moved (after_parse-bytes result _)
        (take_pieces-Kept pieces answer (record d { http_parser = some p' }) a)

  on_read-Kept :
      (bytes : List ℕ) (answer : ℕ → Answer) (d : Downloader P)
      → Kept d
      → Kept (on_read parser bytes answer d)
  unfolding on_read
  on_read-Kept bytes answer d a = read_with-Kept d.http_parser bytes answer _ a

  read_by-Kept :
      (bytes : List ℕ) (answer : ℕ → Answer) (h : OnData) (d : Downloader P)
      → Kept d
      → Kept (read_by parser bytes answer h d)
  unfolding read_by on_first_data
  read_by-Kept bytes answer first_data d a = on_read-Kept bytes answer _ a
  read_by-Kept bytes answer more_data d a = on_read-Kept bytes answer d a

  read_all-Kept :
      (bytes : List ℕ) (answer : ℕ → Answer) (hs : List OnData) (d : Downloader P)
      → Kept d
      → Kept (read_all parser bytes answer hs d)
  unfolding read_all
  read_all-Kept bytes answer [] d a = a
  read_all-Kept bytes answer (h ∷ []) d a = read_by-Kept bytes answer h d a
  read_all-Kept bytes answer (h ∷ g ∷ hs) d a = read_by-Kept bytes answer h d a

  end_all-Kept :
      (answer : ℕ → Answer) (hs : List OnEnd) (d : Downloader P)
      → Kept d
      → Kept (end_all parser answer hs d)
  unfolding end_all end_with
  end_all-Kept answer [] d a = a
  end_all-Kept answer (closed_early ∷ hs) d a =
      end_all-Kept answer hs _ (moved (Bytes.on_error-bytes _ d) a)
  end_all-Kept answer (stream_ended ∷ hs) d a =
      end_all-Kept answer hs _ (on_read-Kept [] answer d a)

  deliver-Kept : (e : Event) (d : Downloader P) → Kept d → Kept (deliver parser e d)
  unfolding deliver
  deliver-Kept (resolver_fails e) d a = moved (Bytes.fail_resolver-bytes e d) a
  deliver-Kept (socket_fails e) d a = moved (Bytes.fail_socket-bytes e d) a
  deliver-Kept (timer_fails e) d a = moved (Bytes.fail_timer-bytes e d) a
  deliver-Kept (file_fails e) d a = moved (Bytes.fail_file-bytes e d) a
  deliver-Kept (addr_info ip v6 fails) d a =
      moved (Bytes.if-bytes _ _ _ (Bytes.on_resolve-bytes ip v6 fails d) refl) a
  deliver-Kept (connected fails) d a =
      moved (Bytes.if-bytes _ _ _ (Bytes.on_connect-bytes fails d) refl) a
  deliver-Kept (request_written fails) d a =
      moved (Bytes.if-bytes _ _ _ (Bytes.on_write_http_request-bytes fails d) refl) a
  deliver-Kept (data_read bytes answer) d a = read_all-Kept bytes answer d.socket.on_data _ a
  deliver-Kept (ended answer) d a = end_all-Kept answer d.socket.on_end _ a
  deliver-Kept shut d a = moved (Bytes.shut_all-bytes d.socket.on_shutdown _) a
  deliver-Kept timer_ran d a = moved (Bytes.time_out_all-bytes d.net_timer.on_timer _) a
  deliver-Kept (file_opened active) d a =
      if-Kept d.file.on_open _ d (on_open-IsAccounted active _ a) a
  deliver-Kept (file_written size active) d a =
      if-Kept d.file.on_write _ d
        (stored-IsAccounted (min size (asked d.writing)) active
          (record d { file = record d.file { on_write = false } }) (omega arith) a)
        a
  deliver-Kept file_closed d a = moved (Bytes.close_all-bytes d.file.on_close _) a

  deliver_all-Kept : (es : List Event) (d : Downloader P) → Kept d → Kept (deliver_all parser es d)
  unfolding deliver_all
  deliver_all-Kept [] d a = a
  deliver_all-Kept (e ∷ es) d a = deliver_all-Kept es _ (deliver-Kept e d a)

-- `run` handles no bytes.
module _ {P : Type 0} where
  if-snd :
      (b : Bool) {k : Bytes.Bytes} (x y : Option (List ℕ) × Downloader P)
      → Bytes.bytes_of x.1 ≡ k
      → Bytes.bytes_of y.1 ≡ k
      → Bytes.bytes_of (if b then x else y).1 ≡ k
  if-snd true x y p q = p
  if-snd false x y p q = q

  create_handles-bytes :
      (r : Resources) (uri : UriParseResult) (d : Downloader P)
      → Bytes.bytes_of (create_handles r uri d).1 ≡ Bytes.bytes_of d
  unfolding create_handles with_socket with_timer with_resolver
  create_handles-bytes r uri d =
      if-snd _ _ _
        (if-snd r.tcp_tls _ _ (if-snd r.timer _ _ (if-snd r.resolver _ _ refl refl) refl) refl)
        (if-snd r.tcp _ _ (if-snd r.timer _ _ (if-snd r.resolver _ _ refl refl) refl) refl)

  fail_resolver_by-bytes :
      (fails : Option Failure) → Bytes.KeepsBytes (fail_resolver_by {P = P} fails)
  unfolding fail_resolver_by
  fail_resolver_by-bytes none d = refl
  fail_resolver_by-bytes (some e) d = Bytes.fail_resolver-bytes e d

  finish_run-bytes :
      (b : Bool) (uri : UriParseResult) (d : Downloader P)
      → Bytes.bytes_of (finish_run_by b uri d).1 ≡ Bytes.bytes_of d
  unfolding finish_run_by
  finish_run-bytes true uri d = refl
  finish_run-bytes false uri d = refl

  run_with-bytes :
      (uri : UriParseResult) (fails : Option Failure) (o : Option (List ℕ) × Downloader P)
      → Bytes.bytes_of (run_with uri fails o).1 ≡ Bytes.bytes_of o.1
  unfolding run_with finish_run start_resolve
  run_with-bytes uri fails (some text, d) = refl
  run_with-bytes uri fails (none, d) = finish_run-bytes _ uri _ ∙ fail_resolver_by-bytes fails _

  run_uri-bytes :
      (r : Resources) (fails : Option Failure) (uri : Option UriParseResult) (d : Downloader P)
      → Bytes.bytes_of (run_uri r fails uri d).1 ≡ Bytes.bytes_of d
  unfolding run_uri
  run_uri-bytes r fails none d = refl
  run_uri-bytes r fails (some uri) d = run_with-bytes uri fails _ ∙ create_handles-bytes r uri _

start-IsAccounted :
    (P : Type 0) (backlog : ℕ) (r : Resources) (fails : Option Failure)
    (uri : Option UriParseResult) (name : List ℕ)
    → IsAccounted (Bytes.bytes_of (run r fails uri name (construct {P = P} backlog)).1)
unfolding run construct contents IsPending
start-IsAccounted P backlog r fails uri name =
    moved (run_uri-bytes r fails uri _) (record {
      in_range = tt;
      whole = refl;
      offset_lem = refl;
      pending = tt;
      downloaded_lem = refl;
    })

-- For any parser, any result of `run` and any sequence of events after it, with any failures and any
-- sizes of the writes that the file confirms: the bytes handed to `on_data` are, in order, those that
-- `write` was given and the file confirmed, and then those still buffered; `offset_file` is the number
-- of the former and `downloaded` that of all, modulo 2^64; and a write that is not confirmed yet was
-- given exactly what is left of the front chunk, its length, and the number of the confirmed bytes,
-- modulo 2^64, as its place in the file.
pub download-IsAccounted :
    {P : Type 0} (parser : Parser P) (backlog : ℕ) (r : Resources) (fails : Option Failure)
    (uri : Option UriParseResult) (name : List ℕ) (es : List Event)
    → let d = deliver_all parser es (run r fails uri name (construct backlog)).1 in
      (d.received ≡ d.stored ++ contents d.buffer)
      × (d.offset_file ≡ length d.stored % 2 ^ 64)
      × (d.m_status.downloaded ≡ length d.received % 2 ^ 64)
      × IsPending d.buffer d.stored d.writing
download-IsAccounted parser backlog r fails uri name es =
    let a = deliver_all-Kept parser es _ (start-IsAccounted _ backlog r fails uri name) in
    (a.whole, a.offset_lem, a.downloaded_lem, a.pending)
