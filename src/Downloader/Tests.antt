-- ===== src/Downloader/Tests.antt =====
-- A download on concrete events, with a toy parser: its state is what the response has said so far.
use ecwid_console_downloader.Base.{
  ℕ, ◌+◌, ◌≡◌, refl, ◌%◌, ◌^◌, Bool, true, false, none, some, List, [], ◌∷◌, ◌++◌, length, map,
  codes, ◌==◌, if◌then◌else◌, arith,
}
use ecwid_console_downloader.Socket.{DataChunk}
use ecwid_console_downloader.Socket.Buffer.{contents}
use ecwid_console_downloader.Jobs
use ecwid_console_downloader.Jobs.{StatusDownloader}
use ecwid_console_downloader.Http
use ecwid_console_downloader.Http.{
  ResponseParseResult, same_text, in_progress, done, HttpParser, Callback, status, body, Errno, ok,
}
use ecwid_console_downloader.Http.Body.{pieces_of, piece_of}
use ecwid_console_downloader.Http.Uri.{UriParseResult}
use ecwid_console_downloader.Downloader.Written.{IsPending}
use ecwid_console_downloader.Downloader.State.{
  Downloader, more_data, connects6, starts_timer, construct, on_error, update_status,
}
use ecwid_console_downloader.Downloader.Address.{
  AddrInfo, inet6, connection_to, name_in, on_addr_info, on_addr_info-connects,
}
use ecwid_console_downloader.Downloader.File
use ecwid_console_downloader.Downloader.File.{Answer}
use ecwid_console_downloader.Downloader.Net
use ecwid_console_downloader.Downloader.Net.{Parser, Resources, run}
use ecwid_console_downloader.Downloader.Events
use ecwid_console_downloader.Downloader.Events.{
  Event, addr_info, connected, request_written, data_read, ended, shut, timer_ran, file_opened,
  file_written, file_closed, file_fails, deliver, deliver_all,
}
use ecwid_console_downloader.Downloader.Failure.{on_error-final}
use ecwid_console_downloader.Downloader.Start.{can_run, run-decides}
use ecwid_console_downloader.Downloader.Body.{responses, joined, deliver-body}
use ecwid_console_downloader.Downloader.Accounting.{download-IsAccounted}
use ecwid_console_downloader.Downloader.Orders.{
  complete, opening, race, drained, drained-never, opening-reports,
}

abbrev in_work : ResponseParseResult
in_work = record { state = in_progress; redirect_uri = []; err_str = []; content_length = 0 }

abbrev finished : ResponseParseResult
finished = record in_work { state = done }

-- Data are handed on as they are; `true` waits for the end of the stream, `false` is done at once.
abbrev toy : Bool → Parser Bool
toy waits = record {
  create = waits;
  parse = λ bytes w.
      if length bytes == 0
      then (w, [], finished)
      else (w, bytes ∷ [], if w then in_work else finished);
}

abbrev uri : UriParseResult
uri = record {
  proto = codes "http";
  host = codes "h";
  port = 80;
  query = codes "/f";
  username = [];
  password = [];
}

abbrev all_made : Resources
all_made = record { tcp = true; tcp_tls = false; timer = true; resolver = true }

abbrev calm : ℕ → Answer
calm n = record { active = true; open_fails = none }

abbrev way : List Event
way =
    addr_info (codes "1.2.3.4") false none
    ∷ connected none
    ∷ request_written none
    ∷ data_read (5 ∷ 6 ∷ 7 ∷ []) calm
    ∷ []

abbrev started : Downloader Bool
started = (run all_made none (some uri) (codes "f") (construct 10)).1

abbrev state_of : StatusDownloader → Jobs.State
state_of s = s.state

-- The order in which a download is reported twice is one that is reached.
race_reached :
    map state_of (deliver_all (toy false) (way ++ race 3 true) started).ticks
    ≡ Jobs.on_the_go ∷ Jobs.on_the_go ∷ Jobs.on_the_go ∷ Jobs.done ∷ Jobs.done ∷ []
unfolding construct run Net.run_uri Net.run_with Net.create_handles same_text Net.with_socket
    Net.with_timer Net.with_resolver Net.start_resolve Net.fail_resolver_by Net.finish_run
    Net.finish_run_by deliver_all Events.deliver Net.on_resolve Net.expect_connect Net.on_timer_once
    update_status Net.connect_to Net.fail_socket_by Net.start_timer Net.on_connect
    Net.expect_written Net.reset_timer Net.on_write_http_request Net.expect_response Events.read_all
    Events.read_by Net.on_first_data Net.on_read Net.read_with Net.take_pieces File.on_data
    File.push_data File.hold_back File.ensure_file File.open_file File.fail_file_by File.resume_file
    Net.after_parse Net.conclude Net.close_handles Events.shut_all Net.on_shut File.on_open
    File.on_write File.write_front File.write_chunk File.on_stored File.advance File.asked
    File.confirmed File.close_file Events.close_all File.on_closed
race_reached = refl

abbrev slow_end : List Event
slow_end = file_opened true ∷ file_written 3 true ∷ ended calm ∷ shut ∷ timer_ran ∷ []

abbrev bytes : List ℕ
bytes = 5 ∷ 6 ∷ 7 ∷ []

abbrev chunk : DataChunk
chunk = record { bytes = bytes; offset = 0 }

opening-reports_example :
    ((deliver_all (toy false) (race 3 true) (opening chunk (construct 10))).ticks
      ≡ (construct {P = Bool} 10).ticks
        ++ (complete (construct {P = Bool} 10).m_status
            ∷ complete (construct {P = Bool} 10).m_status
            ∷ []))
    × ((deliver_all
          (toy false)
          (file_opened true ∷ shut ∷ file_written 3 true ∷ file_closed ∷ [])
          (opening chunk (construct 10))).ticks
        ≡ (construct {P = Bool} 10).ticks ++ (complete (construct {P = Bool} 10).m_status ∷ []))
    × ((deliver_all
          (toy false)
          (file_opened true ∷ file_written 3 true ∷ shut ∷ file_closed ∷ [])
          (opening chunk (construct 10))).ticks
        ≡ (construct {P = Bool} 10).ticks ++ (complete (construct {P = Bool} 10).m_status ∷ []))
    × ((deliver_all
          (toy false)
          (file_opened true ∷ file_written 3 true ∷ file_closed ∷ shut ∷ [])
          (opening chunk (construct 10))).ticks
        ≡ (construct {P = Bool} 10).ticks ++ (complete (construct {P = Bool} 10).m_status ∷ []))
opening-reports_example =
    opening-reports (toy false) 3 true chunk (construct 10) (omega arith) (omega arith)

drained-never_example :
    let d' =
      deliver_all
        (toy true)
        (timer_ran ∷ file_closed ∷ [])
        (deliver_all (toy true) (ended calm ∷ shut ∷ []) (drained true started)) in
    (d'.ticks ≡ started.ticks) × (d'.m_status.state ≡ Jobs.on_the_go)
drained-never_example =
    drained-never (toy true) calm true true in_work (timer_ran ∷ file_closed ∷ []) started refl
      (tt, (tt, tt))

on_error-final_example :
    let d' = deliver_all (toy true) (way ++ slow_end) (on_error (codes "Abort.") started) in
    (d'.ticks
      ≡ started.ticks
        ++ (record started.m_status { state = Jobs.failed; state_str = codes "Abort." } ∷ []))
    × (d'.m_status ≡ record started.m_status { state = Jobs.failed; state_str = codes "Abort." })
on_error-final_example = on_error-final (toy true) (codes "Abort.") (way ++ slow_end) started

download-IsAccounted_example :
    let d =
      deliver_all
        (toy true)
        (way ++ slow_end)
        (run all_made none (some uri) (codes "f") (construct 10)).1 in
    (d.received ≡ d.stored ++ contents d.buffer)
    × (d.offset_file ≡ length d.stored % 2 ^ 64)
    × (d.m_status.downloaded ≡ length d.received % 2 ^ 64)
    × IsPending d.buffer d.stored d.writing
download-IsAccounted_example =
    download-IsAccounted (toy true) 10 all_made none (some uri) (codes "f") (way ++ slow_end)

-- A parser that reports all data after the first as the body.
abbrev plain_execute : ℕ → List ℕ → ℕ × List Callback × Errno
plain_execute n bytes =
    (n + 1, (if n == 0 then status 200 bytes else body bytes) ∷ body (9 ∷ []) ∷ [], ok)

abbrev reading : Downloader (ℕ × HttpParser)
reading =
    let d : Downloader (ℕ × HttpParser) = construct 10 in
    record d {
      socket = record d.socket { on_data = more_data ∷ [] };
      http_parser = some (1, Http.create);
    }

deliver-body_example :
    (deliver (responses plain_execute (λ code. []) 0) (data_read bytes calm) reading).received
    ≡ 5 ∷ 6 ∷ 7 ∷ 9 ∷ []
unfolding joined pieces_of piece_of construct
deliver-body_example =
    deliver-body plain_execute (λ code. []) 0 more_data 1 Http.create bytes calm reading refl refl

-- `https` needs a socket of TLS, which the factory does not make.
run-decides_example :
    let outcome =
      run {P = Bool} all_made none
        (some (record uri { proto = codes "https" }))
        (codes "f")
        (construct 10) in
    (outcome.0 ≡ can_run all_made none (some (record uri { proto = codes "https" })))
    × (outcome.1.m_status.state ≡ (
        if can_run all_made none (some (record uri { proto = codes "https" }))
        then Jobs.on_the_go
        else Jobs.failed))
    × (outcome.1.ticks ≡ [])
run-decides_example =
    run-decides Bool all_made none (some (record uri { proto = codes "https" })) (codes "f") 10

-- An address of IPv6, of which the name is told by its bytes.
abbrev found : AddrInfo
found = record { family = inet6; addr = codes "::1" }

abbrev to_resolve : Downloader Bool
to_resolve = let d : Downloader Bool = construct 10 in record d { uri_parsed = some uri }

on_addr_info-connects_example :
    (e : Downloader Bool) × (on_addr_info (λ addr. none) (λ addr. some addr) (some found) to_resolve
      ≡ some e)
    × (e.trace ≡ connects6 (codes "::1") 80 ∷ starts_timer ∷ [])
unfolding connection_to name_in construct
on_addr_info-connects_example =
    on_addr_info-connects (λ addr. none) (λ addr. some addr) found to_resolve
