-- ===== src/Downloader/Net.antt =====
-- The network side of a `DownloaderSimple`: resolve, connect, request, response.
-- A call that may publish its `ErrorEvent` at once takes the failure as an argument. `Parser` is the
-- interface of the template's parser: what it makes of some bytes, with the pieces of the body that
-- it hands to `on_data` meanwhile.
use ecwid_console_downloader.Base.{
  ℕ, Bool, true, false, Option, none, some, List, [], ◌∷◌, ◌++◌, codes, length, if◌then◌else◌,
}
use ecwid_console_downloader.Jobs
use ecwid_console_downloader.Http.{
  same_text, ResponseState, ResponseParseResult, in_progress, done, redirect, error,
}
use ecwid_console_downloader.Http.Uri.{UriParseResult}
use ecwid_console_downloader.Downloader.State.{
  Downloader, Failure, OnShutdown, OnTimer, resolve_failed, connect_failed, request_failed,
  response_failed, timer_failed, closed_early, stream_ended, first_data, more_data, then_redirect,
  then_done, connect_timeout, request_timeout, response_timeout, creates_tcp, creates_tcp_tls,
  resolves, connects, connects6, writes_socket, reads_socket, stops_socket, shuts_socket,
  closes_socket, starts_timer, stops_timer, closes_timer, no_resolver, no_socket, no_timer,
  clear_socket, emit, needs, call_socket, call_timer, set_status, update_status, on_error,
  is_failed, fail_resolver, fail_socket,
}
use ecwid_console_downloader.Downloader.File.{Answer, on_data}

pub record Parser (P : Type 0) : Type 0 where
  pub create : P
  pub parse : List ℕ → P → P × List (List ℕ) × ResponseParseResult

-- Which handles the loop and the factory of sockets make.
pub record Resources : Type 0 where
  pub tcp : Bool
  pub tcp_tls : Bool
  pub timer : Bool
  pub resolver : Bool

abbrev pub crlf : List ℕ
crlf = 13 ∷ 10 ∷ []

-- `make_request`
unfoldable pub make_request : UriParseResult → List ℕ
make_request uri =
    codes "GET "
    ++ uri.query
    ++ codes " HTTP/1.1"
    ++ crlf
    ++ codes "Host: "
    ++ uri.host
    ++ crlf
    ++ crlf

abbrev pub request_of : Option UriParseResult → List ℕ
request_of none = []
request_of (some uri) = make_request uri

abbrev pub port_of : Option UriParseResult → ℕ
port_of none = 0
port_of (some uri) = uri.port

abbrev pub is_init : Jobs.State → Bool
is_init Jobs.init = true
is_init _ = false

abbrev pub is_given {ℓ} : {A : Type ℓ} → Option A → Bool
is_given none = false
is_given (some a) = true

module _ {P : Type 0} where
  unfoldable pub with_resolver : Resources → Downloader P → Option (List ℕ) × Downloader P
  with_resolver r d =
      if r.resolver
      then (none, record d { resolver = record no_resolver { present = true } })
      else (
        some (codes "Resolver can`t create"),
        emit closes_timer (emit closes_socket (record d { resolver = no_resolver })),
      )

  unfoldable pub with_timer : Resources → Downloader P → Option (List ℕ) × Downloader P
  with_timer r d =
      if r.timer
      then with_resolver r (record d { net_timer = record no_timer { present = true } })
      else (
        some (codes "Net timer can`t create"),
        emit closes_socket (record d { net_timer = no_timer }),
      )

  unfoldable pub with_socket : Resources → Bool → Downloader P → Option (List ℕ) × Downloader P
  with_socket r made d =
      if made
      then with_timer r (record d { socket = record no_socket { present = true } })
      else (some (codes "Socket can`t create"), record d { socket = no_socket })

  unfoldable pub create_handles :
      Resources → UriParseResult → Downloader P → Option (List ℕ) × Downloader P
  create_handles r uri d =
      if same_text uri.proto (codes "https")
      then with_socket r r.tcp_tls (emit creates_tcp_tls d)
      else with_socket r r.tcp (emit creates_tcp d)

  unfoldable pub fail_resolver_by : Option Failure → Downloader P → Downloader P
  fail_resolver_by none d = d
  fail_resolver_by (some e) d = fail_resolver e d

  unfoldable pub fail_socket_by : Option Failure → Downloader P → Downloader P
  fail_socket_by none d = d
  fail_socket_by (some e) d = fail_socket e d

  -- The resolver's listeners, and its call.
  unfoldable pub start_resolve : UriParseResult → Option Failure → Downloader P → Downloader P
  start_resolve uri fails d = fail_resolver_by fails (
      emit (resolves uri.host) (record d {
        resolver = record d.resolver {
          errors = d.resolver.errors ++ (resolve_failed ∷ []);
          on_addr_info = true;
        };
      }))

  unfoldable pub finish_run_by : Bool → UriParseResult → Downloader P → Bool × Downloader P
  finish_run_by true uri d =
      (true, set_status Jobs.on_the_go (codes "Resolve host <" ++ uri.host ++ codes ">...") d)
  finish_run_by false uri d = (false, d)

  unfoldable pub finish_run : UriParseResult → Downloader P → Bool × Downloader P
  finish_run uri d = finish_run_by (is_init d.m_status.state) uri d

  unfoldable pub run_with :
      UriParseResult → Option Failure → Option (List ℕ) × Downloader P → Bool × Downloader P
  run_with uri fails (some text, d) = (false, set_status Jobs.failed text d)
  run_with uri fails (none, d) = finish_run uri (start_resolve uri fails d)

  unfoldable pub run_uri :
      Resources → Option Failure → Option UriParseResult → Downloader P → Bool × Downloader P
  run_uri r fails none d =
      (false, set_status Jobs.failed (codes "URI can`t parse") (record d { uri_parsed = none }))
  run_uri r fails (some uri) d =
      run_with uri fails (create_handles r uri (record d { uri_parsed = some uri }))

  -- `run`; `uri` is what `Parser::uri_parse` returns.
  unfoldable pub run :
      Resources
      → Option Failure
      → Option UriParseResult
      → List ℕ
      → Downloader P
      → Bool × Downloader P
  run r fails uri name d =
      run_uri r fails uri
        (record d { fname = name; m_status = record d.m_status { state = Jobs.init } })

  -- `net_timer->start(5s, 0s)`, unless the call before has failed.
  unfoldable pub start_timer : Downloader P → Downloader P
  start_timer d = if is_failed d.m_status.state then d else call_timer starts_timer d

  -- `net_timer->template clear<TimerEvent>()` and `stop()`.
  unfoldable pub reset_timer : Downloader P → Downloader P
  reset_timer d =
      call_timer stops_timer (record d { net_timer = record d.net_timer { on_timer = [] } })

  unfoldable pub on_timer_once : OnTimer → Downloader P → Downloader P
  on_timer_once h d = record d {
    net_timer = record d.net_timer { on_timer = d.net_timer.on_timer ++ (h ∷ []) };
  }

  unfoldable pub connect_to : List ℕ → Bool → Downloader P → Downloader P
  connect_to ip v6 d =
      let port = port_of d.uri_parsed in
      needs (is_given d.uri_parsed)
        (if v6 then call_socket (connects6 ip port) d else call_socket (connects ip port) d)

  unfoldable pub expect_connect : List ℕ → Downloader P → Downloader P
  expect_connect ip d = on_timer_once (connect_timeout ip) (record d {
    socket = record d.socket {
      errors = d.socket.errors ++ (connect_failed ip ∷ []);
      on_connect = true;
    };
    net_timer = record d.net_timer { errors = d.net_timer.errors ++ (timer_failed ∷ []) };
  })

  -- The listener of `AddrInfoEvent`, with `on_resolve`.
  unfoldable pub on_resolve : List ℕ → Bool → Option Failure → Downloader P → Downloader P
  on_resolve ip v6 fails d = start_timer (
      fail_socket_by fails (
        connect_to ip v6 (
          expect_connect ip (
            update_status Jobs.on_the_go (codes "Host Resolved. Connect to <" ++ ip ++ codes ">")
              (record d { resolver = no_resolver })))))

  unfoldable pub expect_written : Downloader P → Downloader P
  expect_written d = on_timer_once request_timeout (record d {
    socket = record d.socket { errors = d.socket.errors ++ (request_failed ∷ []); on_write = true };
  })

  unfoldable pub on_connect : Option Failure → Downloader P → Downloader P
  on_connect fails d =
      let d' = expect_written (
        update_status Jobs.on_the_go (codes "Connected, write request.") (
          reset_timer (record d {
            socket_connected = true;
            socket = clear_socket d.socket;
            crashed = (needs d.socket.present d).crashed;
          }))) in
      start_timer (
        fail_socket_by fails (
          call_socket (writes_socket (request_of d.uri_parsed)) (needs (is_given d.uri_parsed) d')))

  unfoldable pub expect_response : Downloader P → Downloader P
  expect_response d = on_timer_once response_timeout (record d {
    socket = record d.socket {
      errors = d.socket.errors ++ (response_failed ∷ []);
      on_end = d.socket.on_end ++ (closed_early ∷ []);
      on_data = d.socket.on_data ++ (first_data ∷ []);
    };
  })

  unfoldable pub on_write_http_request : Option Failure → Downloader P → Downloader P
  on_write_http_request fails d =
      let d' = expect_response (
        update_status Jobs.on_the_go (codes "Write request done. Wait response.")
          (reset_timer (needs d.socket.present (record d { socket = clear_socket d.socket })))) in
      start_timer (fail_socket_by fails (call_socket reads_socket d'))

  -- `close_handles`, with what its callback is.
  unfoldable pub close_handles : OnShutdown → Downloader P → Downloader P
  close_handles after d =
      let d' =
        call_socket shuts_socket
          (record d { socket = record (clear_socket d.socket) { on_shutdown = after ∷ [] } }) in
      record (call_timer closes_timer d') { net_timer = no_timer }

  -- The listener of `ShutdownEvent`.
  unfoldable pub on_shut : OnShutdown → Downloader P → Downloader P
  on_shut after d =
      let d' = record (call_socket closes_socket d) {
        socket_connected = false;
        socket = no_socket;
      } in
      elim after [
        | then_redirect ↦
            update_status Jobs.redirect
              (codes "Redirect to <" ++ d.m_status.redirect_uri ++ codes ">") d'
        | then_done ↦
            if d.file_openned then d' else update_status Jobs.done (codes "Downloading complete") d'
      ]

module _ {P : Type 0} (parser : Parser P) where
  -- The pieces that the parser hands on, each with the environment's answer.
  unfoldable pub take_pieces : List (List ℕ) → (ℕ → Answer) → Downloader P → Downloader P
  take_pieces [] answer d = d
  take_pieces (bytes ∷ pieces) answer d =
      take_pieces pieces answer (on_data bytes (answer (length pieces)) d)

  unfoldable pub conclude : ResponseParseResult → ResponseState → Downloader P → Downloader P
  conclude result in_progress d = update_status Jobs.on_the_go (codes "Data received.") (
      call_timer starts_timer (
        needs d.socket.present (record d {
          socket = record d.socket { on_data = d.socket.on_data ++ (more_data ∷ []) };
        })))
  conclude result redirect d = close_handles then_redirect (
      call_socket stops_socket
        (record d { m_status = record d.m_status { redirect_uri = result.redirect_uri } }))
  conclude result done d =
      close_handles then_done (call_socket stops_socket (record d { receive_done = true }))
  conclude result error d = on_error (codes "Response parse failed. " ++ result.err_str) d

  unfoldable pub after_parse : ResponseParseResult → Downloader P → Downloader P
  after_parse result d =
      if is_failed d.m_status.state
      then d
      else conclude result result.state
          (record d { m_status = record d.m_status { size = result.content_length } })

  unfoldable pub read_with : Option P → List ℕ → (ℕ → Answer) → Downloader P → Downloader P
  read_with none bytes answer d = needs false d
  read_with (some p) bytes answer d =
      let (p', pieces, result) = parser.parse bytes p in
      after_parse result (take_pieces pieces answer (record d { http_parser = some p' }))

  unfoldable pub on_read : List ℕ → (ℕ → Answer) → Downloader P → Downloader P
  on_read bytes answer d = read_with d.http_parser bytes answer (call_timer stops_timer d)

  -- The listener of the first `DataEvent`.
  unfoldable pub on_first_data : List ℕ → (ℕ → Answer) → Downloader P → Downloader P
  on_first_data bytes answer d = on_read bytes answer (
      needs d.socket.present (record d {
        socket = record d.socket { on_end = stream_ended ∷ [] };
        http_parser = some parser.create;
      }))
