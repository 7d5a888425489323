-- ===== src/Downloader/State.antt =====
-- The state of a `DownloaderSimple`, its calls on the handles of uvw, and the ways that it fails.
-- A handle is a pointer with the listeners registered on it: one list for each event with more than
-- one listener in the code, and a Boolean where there is only one to register.
-- `crashed` is set by a call through a null pointer, and by a read of the front of an empty queue.
-- `ticks`, `trace`, `received`, `writing` and `stored` are no fields of the class: the statuses with
-- which `on_tick` was invoked, the calls made, the bytes handed to `on_data`, the last `file->write`
-- until it is confirmed, and the bytes of the writes that were confirmed, as far as they were.
use ecwid_console_downloader.Base.{
  ℕ, Bool, true, false, not, ◌&&◌, ◌||◌, Option, none, some, List, [], ◌∷◌, ◌++◌, codes,
  if◌then◌else◌,
}
use ecwid_console_downloader.Socket.{DataChunk}
use ecwid_console_downloader.Jobs
use ecwid_console_downloader.Jobs.{StatusDownloader}
use ecwid_console_downloader.Http.Uri.{UriParseResult}

-- The listeners for an `ErrorEvent`.
pub data OnError : Type 0 where
  resolve_failed request_failed response_failed timer_failed : OnError
  open_failed write_failed close_failed : OnError
  connect_failed : List ℕ → OnError

pub data OnEnd : Type 0 where
  closed_early stream_ended : OnEnd

pub data OnData : Type 0 where
  first_data more_data : OnData

-- The callback given to `close_handles`.
pub data OnShutdown : Type 0 where
  then_redirect then_done : OnShutdown

pub data OnTimer : Type 0 where
  connect_timeout : List ℕ → OnTimer
  request_timeout response_timeout : OnTimer

pub data OnClose : Type 0 where
  file_closed unlinks_file : OnClose

pub record Resolver : Type 0 where
  pub present : Bool
  pub errors : List OnError
  pub on_addr_info : Bool

pub record TcpSocket : Type 0 where
  pub present : Bool
  pub errors : List OnError
  pub on_connect : Bool
  pub on_write : Bool
  pub on_end : List OnEnd
  pub on_data : List OnData
  pub on_shutdown : List OnShutdown

pub record NetTimer : Type 0 where
  pub present : Bool
  pub errors : List OnError
  pub on_timer : List OnTimer

pub record FileReq : Type 0 where
  pub present : Bool
  pub errors : List OnError
  pub on_open : Bool
  pub on_write : Bool
  pub on_close : List OnClose

pub data Effect : Type 0 where
  creates_tcp creates_tcp_tls : Effect
  resolves : List ℕ → Effect
  cancels_resolver : Effect
  connects connects6 : List ℕ → ℕ → Effect
  writes_socket : List ℕ → Effect
  reads_socket stops_socket shuts_socket closes_socket : Effect
  starts_timer stops_timer closes_timer : Effect
  opens_file : List ℕ → Effect
  writes_file : List ℕ → ℕ → Effect
  cancels_file closes_file : Effect
  unlinks : List ℕ → Effect

-- What `file->write` was given: the bytes at its pointer, their number, and the place in the file.
pub record Written : Type 0 where
  pub bytes : List ℕ
  pub size : ℕ
  pub offset : ℕ

-- `P` is the type of the parser.
pub record Downloader (P : Type 0) : Type 0 where
  pub backlog : ℕ
  pub fname : List ℕ
  pub m_status : StatusDownloader
  pub uri_parsed : Option UriParseResult
  pub resolver : Resolver
  pub socket : TcpSocket
  pub net_timer : NetTimer
  pub http_parser : Option P
  pub file : FileReq
  pub receive_done : Bool
  pub socket_connected : Bool
  pub buffer : List DataChunk
  pub file_openned : Bool
  pub file_operation_started : Bool
  pub offset_file : ℕ
  pub crashed : Bool
  pub ticks : List StatusDownloader
  pub trace : List Effect
  pub received : List ℕ
  pub writing : Option Written
  pub stored : List ℕ

-- An `ErrorEvent`, its code as `std::to_string` prints it.
pub record Failure : Type 0 where
  pub code : List ℕ
  pub what : List ℕ

-- `ErrorEvent2str`
unfoldable pub error_text : Failure → List ℕ
error_text e = codes "Code => " ++ e.code ++ codes " Reason => " ++ e.what

abbrev pub no_resolver : Resolver
no_resolver = record { present = false; errors = []; on_addr_info = false }

abbrev pub no_socket : TcpSocket
no_socket = record {
  present = false;
  errors = [];
  on_connect = false;
  on_write = false;
  on_end = [];
  on_data = [];
  on_shutdown = [];
}

abbrev pub no_timer : NetTimer
no_timer = record { present = false; errors = []; on_timer = [] }

abbrev pub no_file : FileReq
no_file = record { present = false; errors = []; on_open = false; on_write = false; on_close = [] }

-- `handle->clear()`
abbrev pub clear_resolver : Resolver → Resolver
clear_resolver h = record no_resolver { present = h.present }

abbrev pub clear_socket : TcpSocket → TcpSocket
clear_socket h = record no_socket { present = h.present }

abbrev pub clear_timer : NetTimer → NetTimer
clear_timer h = record no_timer { present = h.present }

abbrev pub clear_file : FileReq → FileReq
clear_file h = record no_file { present = h.present }

abbrev pub is_on_the_go : Jobs.State → Bool
is_on_the_go Jobs.on_the_go = true
is_on_the_go _ = false

abbrev pub is_failed : Jobs.State → Bool
is_failed Jobs.failed = true
is_failed _ = false

abbrev pub host_of : Option UriParseResult → List ℕ
host_of none = []
host_of (some uri) = uri.host

module _ {P : Type 0} where
  unfoldable pub construct : ℕ → Downloader P
  construct backlog = record {
    backlog = backlog;
    fname = [];
    m_status = record {
      downloaded = 0;
      size = 0;
      state = Jobs.init;
      state_str = [];
      redirect_uri = [];
    };
    uri_parsed = none;
    resolver = no_resolver;
    socket = no_socket;
    net_timer = no_timer;
    http_parser = none;
    file = no_file;
    receive_done = false;
    socket_connected = false;
    buffer = [];
    file_openned = false;
    file_operation_started = false;
    offset_file = 0;
    crashed = false;
    ticks = [];
    trace = [];
    received = [];
    writing = none;
    stored = [];
  }

  abbrev pub emit : Effect → Downloader P → Downloader P
  emit e d = record d { trace = d.trace ++ (e ∷ []) }

  -- The pointer that the next call goes through is this one.
  abbrev pub needs : Bool → Downloader P → Downloader P
  needs present d = record d { crashed = d.crashed || not present }

  -- A call on a handle.
  abbrev pub call_socket : Effect → Downloader P → Downloader P
  call_socket e d = emit e (needs d.socket.present d)

  abbrev pub call_timer : Effect → Downloader P → Downloader P
  call_timer e d = emit e (needs d.net_timer.present d)

  abbrev pub call_file : Effect → Downloader P → Downloader P
  call_file e d = emit e (needs d.file.present d)

  -- `on_tick->invoke`
  abbrev pub tick : Downloader P → Downloader P
  tick d = record d { ticks = d.ticks ++ (d.m_status ∷ []) }

  abbrev pub set_status : Jobs.State → List ℕ → Downloader P → Downloader P
  set_status state text d = record d {
    m_status = record d.m_status { state = state; state_str = text };
  }

  unfoldable pub update_status : Jobs.State → List ℕ → Downloader P → Downloader P
  update_status state text d = tick (set_status state text d)

  abbrev pub emit_if : Bool → Effect → Downloader P → Downloader P
  emit_if b e d = record d { trace = if b then d.trace ++ (e ∷ []) else d.trace }

  -- The parts of `terminate_handles`. An absent handle has no listeners to clear.
  unfoldable pub terminate_resolver : Downloader P → Downloader P
  terminate_resolver d =
      emit_if d.resolver.present cancels_resolver
        (record d { resolver = clear_resolver d.resolver })

  unfoldable pub terminate_socket : Downloader P → Downloader P
  terminate_socket d =
      emit_if d.socket.present closes_socket (record d { socket = clear_socket d.socket })

  unfoldable pub terminate_timer : Downloader P → Downloader P
  terminate_timer d =
      emit_if d.net_timer.present closes_timer (record d { net_timer = clear_timer d.net_timer })

  -- A file that is open is closed, and deleted when it has closed.
  unfoldable pub terminate_file : Downloader P → Downloader P
  terminate_file d =
      let openned = d.file.present && d.file_openned in
      emit_if openned closes_file (
        emit_if (d.file.present && d.file_operation_started) cancels_file (record d {
          file = record (clear_file d.file) {
            on_close = if openned then unlinks_file ∷ [] else [];
          };
        }))

  unfoldable pub terminate_handles : Downloader P → Downloader P
  terminate_handles d = terminate_file (terminate_timer (terminate_socket (terminate_resolver d)))

  unfoldable pub on_error_without_tick : List ℕ → Downloader P → Downloader P
  on_error_without_tick text d = terminate_handles (set_status Jobs.failed text d)

  unfoldable pub on_error : List ℕ → Downloader P → Downloader P
  on_error text d = tick (on_error_without_tick text d)

  -- `stop()`
  unfoldable pub abort : Downloader P → Downloader P
  abort d = on_error (codes "Abort.") d

  -- What the listener of an `ErrorEvent` does.
  unfoldable pub fail_with : OnError → Failure → Downloader P → Downloader P
  fail_with resolve_failed e d =
      let d' = record d { resolver = no_resolver } in
      let text =
        codes "Host <" ++ host_of d.uri_parsed ++ codes "> can`t resolve. " ++ error_text e in
      if is_on_the_go d.m_status.state then on_error text d' else on_error_without_tick text d'
  fail_with (connect_failed ip) e d =
      on_error (codes "Host <" ++ ip ++ codes "> can`t available. " ++ error_text e) d
  fail_with request_failed e d = on_error (codes "Request failed. " ++ error_text e) d
  fail_with response_failed e d = on_error (codes "Response read failed. " ++ error_text e) d
  fail_with timer_failed e d = on_error (codes "Net_timer run failed! " ++ error_text e) d
  fail_with open_failed e d =
      on_error (codes "File <" ++ d.fname ++ codes "> can`t open! " ++ error_text e)
        (record d { file_operation_started = false })
  fail_with write_failed e d =
      on_error (codes "File <" ++ d.fname ++ codes "> write error! " ++ error_text e)
        (record d { file_operation_started = false })
  fail_with close_failed e d =
      on_error (codes "File <" ++ d.fname ++ codes "> close error! " ++ error_text e)
        (record d { file_operation_started = false; file = no_file })

  unfoldable pub fail_all : List OnError → Failure → Downloader P → Downloader P
  fail_all [] e d = d
  fail_all (h ∷ hs) e d = fail_all hs e (fail_with h e d)

  -- An `ErrorEvent` on a handle: its listeners go, and are called.
  unfoldable pub fail_resolver : Failure → Downloader P → Downloader P
  fail_resolver e d =
      fail_all d.resolver.errors e (record d { resolver = record d.resolver { errors = [] } })

  unfoldable pub fail_socket : Failure → Downloader P → Downloader P
  fail_socket e d =
      fail_all d.socket.errors e (record d { socket = record d.socket { errors = [] } })

  unfoldable pub fail_timer : Failure → Downloader P → Downloader P
  fail_timer e d =
      fail_all d.net_timer.errors e (record d { net_timer = record d.net_timer { errors = [] } })

  unfoldable pub fail_file : Failure → Downloader P → Downloader P
  fail_file e d = fail_all d.file.errors e (record d { file = record d.file { errors = [] } })
