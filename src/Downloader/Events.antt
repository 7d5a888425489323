-- ===== src/Downloader/Events.antt =====
-- The events of a `DownloaderSimple`'s handles, and its runs. `once` listeners go when they are
-- called. The bytes of a `DataEvent` are moved out by its first listener: for another one they are a
-- null pointer. A `FileWriteEvent` has a size of at most what the write asked for.
use ecwid_console_downloader.Base.{
  ℕ, min, Bool, false, Option, List, [], ◌∷◌, ◌++◌, codes, if◌then◌else◌,
}
use ecwid_console_downloader.Downloader.State.{
  Downloader, Failure, OnEnd, OnData, OnShutdown, OnTimer, OnClose, closed_early, stream_ended,
  first_data, more_data, connect_timeout, request_timeout, response_timeout, on_error, needs,
  fail_resolver, fail_socket, fail_timer, fail_file,
}
use ecwid_console_downloader.Downloader.File.{Answer, asked, on_open, on_stored, on_closed}
use ecwid_console_downloader.Downloader.Net.{
  Parser, on_resolve, on_connect, on_write_http_request, on_read, on_first_data, on_shut,
}

-- An event, with what the environment answers to the calls that it leads to.
pub data Event : Type 0 where
  resolver_fails socket_fails timer_fails file_fails : Failure → Event
  addr_info : List ℕ → Bool → Option Failure → Event
  connected : Option Failure → Event
  request_written : Option Failure → Event
  data_read : List ℕ → (ℕ → Answer) → Event
  ended : (ℕ → Answer) → Event
  shut : Event
  timer_ran : Event
  file_opened : Bool → Event
  file_written : ℕ → Bool → Event
  file_closed : Event

module _ {P : Type 0} where
  unfoldable pub time_out : OnTimer → Downloader P → Downloader P
  time_out (connect_timeout ip) d =
      on_error (codes "Timeout connect to host <" ++ ip ++ codes ">") d
  time_out request_timeout d = on_error (codes "Timeout write request") d
  time_out response_timeout d = on_error (codes "Timeout read response") d

  unfoldable pub time_out_all : List OnTimer → Downloader P → Downloader P
  time_out_all [] d = d
  time_out_all (h ∷ hs) d = time_out_all hs (time_out h d)

  unfoldable pub shut_all : List OnShutdown → Downloader P → Downloader P
  shut_all [] d = d
  shut_all (h ∷ hs) d = shut_all hs (on_shut h d)

  unfoldable pub close_all : List OnClose → Downloader P → Downloader P
  close_all [] d = d
  close_all (h ∷ hs) d = close_all hs (on_closed h d)

module _ {P : Type 0} (parser : Parser P) where
  unfoldable pub end_with : (ℕ → Answer) → OnEnd → Downloader P → Downloader P
  end_with answer closed_early d = on_error (codes "Connection it`s unexpecdly closed.") d
  end_with answer stream_ended d = on_read parser [] answer d

  unfoldable pub end_all : (ℕ → Answer) → List OnEnd → Downloader P → Downloader P
  end_all answer [] d = d
  end_all answer (h ∷ hs) d = end_all answer hs (end_with answer h d)

  unfoldable pub read_by : List ℕ → (ℕ → Answer) → OnData → Downloader P → Downloader P
  read_by bytes answer first_data d = on_first_data parser bytes answer d
  read_by bytes answer more_data d = on_read parser bytes answer d

  unfoldable pub read_all : List ℕ → (ℕ → Answer) → List OnData → Downloader P → Downloader P
  read_all bytes answer [] d = d
  read_all bytes answer (h ∷ []) d = read_by bytes answer h d
  read_all bytes answer (h ∷ g ∷ hs) d = needs false (read_by bytes answer h d)

  -- An event, delivered to its handle.
  unfoldable pub deliver : Event → Downloader P → Downloader P
  deliver (resolver_fails e) d = fail_resolver e d
  deliver (socket_fails e) d = fail_socket e d
  deliver (timer_fails e) d = fail_timer e d
  deliver (file_fails e) d = fail_file e d
  deliver (addr_info ip v6 fails) d =
      if d.resolver.on_addr_info then on_resolve ip v6 fails d else d
  deliver (connected fails) d = if d.socket.on_connect then on_connect fails d else d
  deliver (request_written fails) d = if d.socket.on_write then on_write_http_request fails d else d
  deliver (data_read bytes answer) d =
      read_all bytes answer d.socket.on_data
        (record d { socket = record d.socket { on_data = [] } })
  deliver (ended answer) d =
      end_all answer d.socket.on_end (record d { socket = record d.socket { on_end = [] } })
  deliver shut d =
      shut_all d.socket.on_shutdown (record d { socket = record d.socket { on_shutdown = [] } })
  deliver timer_ran d =
      time_out_all d.net_timer.on_timer
        (record d { net_timer = record d.net_timer { on_timer = [] } })
  deliver (file_opened active) d =
      if d.file.on_open
      then on_open active (record d { file = record d.file { on_open = false } })
      else d
  deliver (file_written size active) d =
      if d.file.on_write
      then on_stored (min size (asked d.writing)) active
          (record d { file = record d.file { on_write = false } })
      else d
  deliver file_closed d =
      close_all d.file.on_close (record d { file = record d.file { on_close = [] } })

  unfoldable pub deliver_all : List Event → Downloader P → Downloader P
  deliver_all [] d = d
  deliver_all (e ∷ es) d = deliver_all es (deliver e d)
