-- ===== src/Downloader/Safety/Run.antt =====
-- A download uses no null pointer, whatever happens to it: its run, its events, and its interruption.
use ecwid_console_downloader.Base.{ℕ, ◌≡◌, Bool, true, false, Option, List, if_both, ◌&&◌, ◌||◌}
use ecwid_console_downloader.Http.Uri.{UriParseResult}
use ecwid_console_downloader.Downloader.State.{Downloader, Failure, construct, abort}
use ecwid_console_downloader.Downloader.File.{on_open}
use ecwid_console_downloader.Downloader.Net.{
  Parser, Resources, run, on_resolve, on_connect, on_write_http_request,
}
use ecwid_console_downloader.Downloader.Events.{
  Event, resolver_fails, socket_fails, timer_fails, file_fails, addr_info, connected,
  request_written, data_read, ended, shut, timer_ran, file_opened, file_written, file_closed,
  deliver,
}
use ecwid_console_downloader.Downloader.Safety.{Course, IsSafe, IsOrderly}
use ecwid_console_downloader.Downloader.Safety.Failing.{
  fail_resolver-IsSafe, fail_socket-IsSafe, fail_timer-IsSafe, fail_file-IsSafe, timer_ran-IsSafe,
  abort-IsSafe,
}
use ecwid_console_downloader.Downloader.Safety.FileEvents.{
  opened-IsSafe, stored-IsSafe, file_closed-IsSafe,
}
use ecwid_console_downloader.Downloader.Safety.NetSide.{
  addr_info-IsSafe, connected_event-IsSafe, written_event-IsSafe,
}
use ecwid_console_downloader.Downloader.Safety.ShutSide.{shut-IsSafe}
use ecwid_console_downloader.Downloader.Safety.DataEvents.{data_read-IsSafe}
use ecwid_console_downloader.Downloader.Safety.EndEvents.{ended-IsSafe}
use ecwid_console_downloader.Downloader.Safety.StartSide.{run-IsSafe}

abbrev pub ends_stream : Event → Bool
ends_stream (ended answer) = true
ends_stream _ = false

abbrev pub brings_data : Event → Bool
brings_data (data_read bytes answer) = true
brings_data _ = false

-- What can happen to a download: the events of its handles, with no data after the end of the stream, and the
-- call of `stop`. The Boolean says whether the stream has ended.
pub data Reaches {P : Type 0} (parser : Parser P) (d : Downloader P)
    : Bool → Downloader P → Type 0 where
  at_first : Reaches parser d false d
  delivered :
      {over : Bool} {e : Downloader P}
      → Reaches parser d over e
      → (v : Event) → (brings_data v && over) ≡ false
      → Reaches parser d (ends_stream v || over) (deliver parser v e)
  stopped :
      {over : Bool} {e : Downloader P} → Reaches parser d over e → Reaches parser d over (abort e)

abbrev course_of : {P : Type 0} → (P → Type 0) → (P → Bool) → Bool → Course P
course_of Valid fresh over = record { Valid = Valid; fresh = fresh; over = over }

module _ {P : Type 0} (parser : Parser P) (Valid : P → Type 0) (fresh : P → Bool)
    (o : IsOrderly parser Valid fresh) where
  abbrev course : Bool → Course P
  course over = course_of Valid fresh over

  deliver-IsSafe :
      (v : Event) (over : Bool) (d : Downloader P)
      → (brings_data v && over) ≡ false
      → IsSafe (course over) d
      → IsSafe (course (ends_stream v || over)) (deliver parser v d)
  unfolding deliver
  deliver-IsSafe (resolver_fails e) over d b h = fail_resolver-IsSafe (course over) e d h
  deliver-IsSafe (socket_fails e) over d b h = fail_socket-IsSafe (course over) e d h
  deliver-IsSafe (timer_fails e) over d b h = fail_timer-IsSafe (course over) e d h
  deliver-IsSafe (file_fails e) over d b h = fail_file-IsSafe (course over) e d h
  deliver-IsSafe (addr_info ip v6 fails) over d b h =
      if_both (IsSafe (course over)) d.resolver.on_addr_info (on_resolve ip v6 fails d) d
        (λ c. addr_info-IsSafe (course over) ip v6 fails d c h) (λ c. h)
  deliver-IsSafe (connected fails) over d b h =
      if_both (IsSafe (course over)) d.socket.on_connect (on_connect fails d) d
        (λ c. connected_event-IsSafe (course over) fails d c h) (λ c. h)
  deliver-IsSafe (request_written fails) over d b h =
      if_both (IsSafe (course over)) d.socket.on_write (on_write_http_request fails d) d
        (λ c. written_event-IsSafe (course over) fails d c h) (λ c. h)
  deliver-IsSafe (data_read bytes answer) over d b h =
      data_read-IsSafe (course over) parser o bytes answer d b h
  deliver-IsSafe (ended answer) over d b h = ended-IsSafe (course over) parser o answer d h
  deliver-IsSafe shut over d b h = shut-IsSafe (course over) d h
  deliver-IsSafe timer_ran over d b h = timer_ran-IsSafe (course over) d h
  deliver-IsSafe (file_opened active) over d b h =
      if_both (IsSafe (course over)) d.file.on_open
        (on_open active (record d { file = record d.file { on_open = false } })) d
        (λ c. opened-IsSafe (course over) active d c h) (λ c. h)
  deliver-IsSafe (file_written size active) over d b h =
      if_both (IsSafe (course over)) d.file.on_write _ d
        (λ c. stored-IsSafe (course over) _ active d c h) (λ c. h)
  deliver-IsSafe file_closed over d b h = file_closed-IsSafe (course over) d h

  Reaches-IsSafe :
      {d : Downloader P} {over : Bool} {e : Downloader P}
      → Reaches parser d over e
      → IsSafe (course false) d
      → IsSafe (course over) e
  Reaches-IsSafe at_first h = h
  Reaches-IsSafe (delivered r v b) h = deliver-IsSafe v _ _ b (Reaches-IsSafe r h)
  Reaches-IsSafe (stopped {over = over} r) h = abort-IsSafe (course over) _ (Reaches-IsSafe r h)

-- A download uses no null pointer, and reads no front of an empty queue, if its parser tells a redirection
-- before it hands on anything: after `run` of a new downloader, whatever its result, and after every
-- sequence of events and of calls of `stop` in which no data come after the end of the stream, in any order
-- otherwise, with whatever failures and answers of the environment.
pub run-Reaches :
    (P : Type 0) (parser : Parser P) (Valid : P → Type 0) (fresh : P → Bool)
    (o : IsOrderly parser Valid fresh) (r : Resources) (fails : Option Failure)
    (uri : Option UriParseResult) (name : List ℕ) (backlog : ℕ) (over : Bool) (d : Downloader P)
    → Reaches parser (run r fails uri name (construct backlog)).1 over d
    → d.crashed ≡ false
run-Reaches P parser Valid fresh o r fails uri name backlog over d h =
    (Reaches-IsSafe parser Valid fresh o h
      (run-IsSafe (course_of Valid fresh false) r fails uri name backlog)).sound
