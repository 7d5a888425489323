-- ===== src/TcpSimple/Tests.antt =====
-- The plain socket at concrete acts.
use ecwid_console_downloader.Base.{◌≡◌, refl, [], ◌∷◌, if◌then◌else◌}
use ecwid_console_downloader.Socket.{
  error_event, connect_event, data_event, close_event, read, shutdown, close,
}
use ecwid_console_downloader.TcpSimple.{kind, Acts, done, call, event, run, create}
use ecwid_console_downloader.TcpSimple.Heard.{
  heard, hears, has, after, after_call, opened, published,
}
use ecwid_console_downloader.TcpSimple.Heard.Run.{run-publishes_heard}
use ecwid_console_downloader.TcpSimple.Close.{closes, run-closes}

-- The subscriber closes the socket twice when it has read its data; the handle has one more event to
-- publish before it is closed.
abbrev session : Acts
session = event connect_event (call read done) (
    event (data_event (1 ∷ 2 ∷ [])) (call close (call close done))
      (event (error_event 4) done (event close_event done (event close_event done done))))

run-publishes_heard_example : published (run session create).trace ≡ (heard [] opened session).0
run-publishes_heard_example = run-publishes_heard session

session_outcome :
    (heard [] opened session).0 ≡ connect_event ∷ data_event (1 ∷ 2 ∷ []) ∷ close_event ∷ []
unfolding heard hears has after after_call kind
session_outcome = refl

-- An error that a call publishes while an error is being handled is not heard; the next one is.
abbrev errors : Acts
errors =
    event (error_event 1) (call shutdown (event (error_event 2) done done))
      (event (error_event 3) done done)

errors_outcome : (heard [] opened errors).0 ≡ error_event 1 ∷ error_event 3 ∷ []
unfolding heard hears has after after_call kind
errors_outcome = refl

run-closes_example :
    closes (run session create).trace ≡ (if (run session create).closed then 1 else 0)
run-closes_example = run-closes session
