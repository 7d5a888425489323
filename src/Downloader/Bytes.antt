-- ===== src/Downloader/Bytes.antt =====
-- Which operations of a `DownloaderSimple` leave its bytes alone.
use ecwid_console_downloader.Base.{
  ℕ, ◌≡◌, refl, ◌∙◌, Bool, true, false, Option, none, some, List, [], ◌∷◌, if◌then◌else◌,
}
use ecwid_console_downloader.Socket.{DataChunk}
use ecwid_console_downloader.Http.{
  ResponseParseResult, ResponseState, in_progress, done, redirect, error,
}
use ecwid_console_downloader.Downloader.State.{
  Downloader, Written, Failure, OnError, OnShutdown, OnTimer, OnClose, resolve_failed,
  connect_failed, request_failed, response_failed, timer_failed, open_failed, write_failed,
  close_failed, then_redirect, then_done, connect_timeout, request_timeout, response_timeout,
  file_closed, unlinks_file, on_error, on_error_without_tick, terminate_handles, terminate_resolver,
  terminate_socket, terminate_timer, terminate_file, update_status, fail_with, fail_all,
  fail_resolver, fail_socket, fail_timer, fail_file,
}
use ecwid_console_downloader.Downloader.File.{
  fail_file_by, open_file, close_file, wait_data, write_front, hold_back, ensure_file, on_closed,
}
use ecwid_console_downloader.Downloader.Net.{
  fail_socket_by, start_timer, reset_timer, on_timer_once, connect_to, expect_connect, on_resolve,
  expect_written, on_connect, expect_response, on_write_http_request, close_handles, on_shut,
  conclude, Parser,
}
use ecwid_console_downloader.Downloader.Events.{time_out, time_out_all, shut_all, close_all}

-- What a download keeps of its bytes.
pub record Bytes : Type 0 where
  pub buffer : List DataChunk
  pub received : List ℕ
  pub stored : List ℕ
  pub writing : Option Written
  pub offset_file : ℕ
  pub downloaded : ℕ

module _ {P : Type 0} where
  abbrev pub bytes_of : Downloader P → Bytes
  bytes_of d = record {
    buffer = d.buffer;
    received = d.received;
    stored = d.stored;
    writing = d.writing;
    offset_file = d.offset_file;
    downloaded = d.m_status.downloaded;
  }

  -- An operation that leaves them alone.
  abbrev pub KeepsBytes : (Downloader P → Downloader P) → Type 0
  KeepsBytes f = (d : Downloader P) → bytes_of (f d) ≡ bytes_of d

  pub if-bytes :
      (b : Bool) {k : Bytes} (x y : Downloader P)
      → bytes_of x ≡ k
      → bytes_of y ≡ k
      → bytes_of (if b then x else y) ≡ k
  if-bytes true x y p q = p
  if-bytes false x y p q = q

  on_error_without_tick-bytes : (text : List ℕ) → KeepsBytes (on_error_without_tick text)
  unfolding on_error_without_tick terminate_handles terminate_resolver terminate_socket
      terminate_timer terminate_file
  on_error_without_tick-bytes text d = refl

  pub on_error-bytes : (text : List ℕ) → KeepsBytes (on_error text)
  unfolding on_error
  on_error-bytes text d = on_error_without_tick-bytes text d

  fail_with-bytes : (h : OnError) (e : Failure) → KeepsBytes (fail_with h e)
  unfolding fail_with
  fail_with-bytes resolve_failed e d =
      if-bytes _ _ _ (on_error-bytes _ _) (on_error_without_tick-bytes _ _)
  fail_with-bytes request_failed e d = on_error-bytes _ _
  fail_with-bytes response_failed e d = on_error-bytes _ _
  fail_with-bytes timer_failed e d = on_error-bytes _ _
  fail_with-bytes open_failed e d = on_error-bytes _ _
  fail_with-bytes write_failed e d = on_error-bytes _ _
  fail_with-bytes close_failed e d = on_error-bytes _ _
  fail_with-bytes (connect_failed ip) e d = on_error-bytes _ _

  fail_all-bytes : (hs : List OnError) (e : Failure) → KeepsBytes (fail_all hs e)
  unfolding fail_all
  fail_all-bytes [] e d = refl
  fail_all-bytes (h ∷ hs) e d = fail_all-bytes hs e (fail_with h e d) ∙ fail_with-bytes h e d

  pub fail_resolver-bytes : (e : Failure) → KeepsBytes (fail_resolver {P = P} e)
  unfolding fail_resolver
  fail_resolver-bytes e d = fail_all-bytes d.resolver.errors e _

  pub fail_socket-bytes : (e : Failure) → KeepsBytes (fail_socket {P = P} e)
  unfolding fail_socket
  fail_socket-bytes e d = fail_all-bytes d.socket.errors e _

  pub fail_timer-bytes : (e : Failure) → KeepsBytes (fail_timer {P = P} e)
  unfolding fail_timer
  fail_timer-bytes e d = fail_all-bytes d.net_timer.errors e _

  pub fail_file-bytes : (e : Failure) → KeepsBytes (fail_file {P = P} e)
  unfolding fail_file
  fail_file-bytes e d = fail_all-bytes d.file.errors e _

  fail_file_by-bytes : (fails : Option Failure) → KeepsBytes (fail_file_by fails)
  unfolding fail_file_by
  fail_file_by-bytes none d = refl
  fail_file_by-bytes (some e) d = fail_file-bytes e d

  open_file-bytes : (fails : Option Failure) → KeepsBytes (open_file fails)
  unfolding open_file
  open_file-bytes fails d = fail_file_by-bytes fails _

  wait_data-bytes : (active : Bool) → KeepsBytes (wait_data active)
  unfolding wait_data
  wait_data-bytes active d = if-bytes active _ _ refl refl

  -- Nothing is written of an empty buffer.
  pub write_none-bytes : (active : Bool) → KeepsBytes (write_front [] active)
  unfolding write_front close_file
  write_none-bytes active d = if-bytes d.receive_done _ _ refl (wait_data-bytes active d)

  pub hold_back-bytes : (active : Bool) → KeepsBytes (hold_back active)
  unfolding hold_back
  hold_back-bytes active d = if-bytes _ _ _ (if-bytes active _ _ refl refl) refl

  pub ensure_file-bytes : (fails : Option Failure) → KeepsBytes (ensure_file fails)
  unfolding ensure_file
  ensure_file-bytes fails d = if-bytes d.file.present _ _ refl (open_file-bytes fails d)

  on_closed-bytes : (h : OnClose) → KeepsBytes (on_closed h)
  unfolding on_closed update_status
  on_closed-bytes file_closed d = if-bytes d.socket_connected _ _ refl refl
  on_closed-bytes unlinks_file d = refl

  pub close_all-bytes : (hs : List OnClose) → KeepsBytes (close_all hs)
  unfolding close_all
  close_all-bytes [] d = refl
  close_all-bytes (h ∷ hs) d = close_all-bytes hs (on_closed h d) ∙ on_closed-bytes h d

  fail_socket_by-bytes : (fails : Option Failure) → KeepsBytes (fail_socket_by fails)
  unfolding fail_socket_by
  fail_socket_by-bytes none d = refl
  fail_socket_by-bytes (some e) d = fail_socket-bytes e d

  start_timer-bytes : KeepsBytes start_timer
  unfolding start_timer
  start_timer-bytes d = if-bytes _ _ _ refl refl

  connect_to-bytes : (ip : List ℕ) (v6 : Bool) → KeepsBytes (connect_to ip v6)
  unfolding connect_to
  connect_to-bytes ip true d = refl
  connect_to-bytes ip false d = refl

  pub on_resolve-bytes :
      (ip : List ℕ) (v6 : Bool) (fails : Option Failure) → KeepsBytes (on_resolve ip v6 fails)
  unfolding on_resolve expect_connect on_timer_once update_status
  on_resolve-bytes ip v6 fails d =
      start_timer-bytes _ ∙ fail_socket_by-bytes fails _ ∙ connect_to-bytes ip v6 _

  pub on_connect-bytes : (fails : Option Failure) → KeepsBytes (on_connect fails)
  unfolding on_connect expect_written on_timer_once update_status reset_timer
  on_connect-bytes fails d = start_timer-bytes _ ∙ fail_socket_by-bytes fails _

  pub on_write_http_request-bytes :
      (fails : Option Failure) → KeepsBytes (on_write_http_request fails)
  unfolding on_write_http_request expect_response on_timer_once update_status reset_timer
  on_write_http_request-bytes fails d = start_timer-bytes _ ∙ fail_socket_by-bytes fails _

  on_shut-bytes : (h : OnShutdown) → KeepsBytes (on_shut h)
  unfolding on_shut update_status
  on_shut-bytes then_redirect d = refl
  on_shut-bytes then_done d = if-bytes d.file_openned _ _ refl refl

  pub shut_all-bytes : (hs : List OnShutdown) → KeepsBytes (shut_all hs)
  unfolding shut_all
  shut_all-bytes [] d = refl
  shut_all-bytes (h ∷ hs) d = shut_all-bytes hs (on_shut h d) ∙ on_shut-bytes h d

  time_out-bytes : (h : OnTimer) → KeepsBytes (time_out h)
  unfolding time_out
  time_out-bytes (connect_timeout ip) d = on_error-bytes _ d
  time_out-bytes request_timeout d = on_error-bytes _ d
  time_out-bytes response_timeout d = on_error-bytes _ d

  pub time_out_all-bytes : (hs : List OnTimer) → KeepsBytes (time_out_all hs)
  unfolding time_out_all
  time_out_all-bytes [] d = refl
  time_out_all-bytes (h ∷ hs) d = time_out_all-bytes hs (time_out h d) ∙ time_out-bytes h d

module _ {P : Type 0} (parser : Parser P) where
  pub conclude-bytes :
      (result : ResponseParseResult) (state : ResponseState)
      → KeepsBytes (conclude parser result state)
  unfolding conclude close_handles update_status
  conclude-bytes result in_progress d = refl
  conclude-bytes result redirect d = refl
  conclude-bytes result done d = refl
  conclude-bytes result error d = on_error-bytes _ d
