-- ===== src/TcpSimple.antt =====
-- include/aio/tcp_simple.h: the socket that passes the calls of its owner on to the handle of uvw, and the
-- events of the handle back. Calls, events and the entries of the trace are those of Socket.
-- `kind` is the type of an event, by which uvw keeps the handlers. What a subscriber does while an event is
-- published is a sequence of acts within this event: calls, and events that the handle publishes meanwhile,
-- as it does for a call that fails at once. The assertion on the length in `write` is left out.
pub mod Heard
pub mod Close
mod Tests
use ecwid_console_downloader.Base.{
  ℕ, Bool, true, false, not, ◌&&◌, ◌||◌, List, [], ◌∷◌, ◌++◌, ◌==◌, if◌then◌else◌,
}
use ecwid_console_downloader.Socket.{
  Event, error_event, connect_event, write_event, shutdown_event, close_event, end_event,
  data_event, Call, connect, connect6, read, stop, shutdown, close, clear, write, Effect, publishes,
  calls,
}

unfoldable pub kind : Event → ℕ
kind (error_event code) = 0
kind connect_event = 1
kind (data_event bytes) = 2
kind end_event = 3
kind write_event = 4
kind shutdown_event = 5
kind close_event = 6

abbrev pub Handlers : Type 0
Handlers = ℕ → Bool

pub record TcpSimple : Type 0 where
  pub closed : Bool
  pub handlers : Handlers
  pub trace : List Effect

abbrev pub emit : Effect → TcpSimple → TcpSimple
emit e s = record s { trace = s.trace ++ (e ∷ []) }

-- `once<Event>`
abbrev pub once : ℕ → Handlers → Handlers
once k h = λ j. (j == k) || h j

-- A handler goes when it is called.
abbrev pub spend : ℕ → Handlers → Handlers
spend k h = λ j. not (j == k) && h j

-- `clear()` of the handle.
abbrev pub cleared : Handlers
cleared = λ j. false

pub create : TcpSimple
unfolding kind
create = record {
  closed = false;
  handlers = once (kind (error_event 0)) (
      once (kind connect_event) (
        once (kind (data_event []))
          (once (kind end_event) (once (kind write_event) (once (kind shutdown_event) cleared)))));
  trace = [];
}

pub close_socket : TcpSimple → TcpSimple
close_socket s = if s.closed then s else record s {
  closed = true;
  handlers = once (kind close_event) cleared;
  trace = s.trace ++ (calls clear ∷ calls close ∷ []);
}

-- `clear` is what a subscriber does to its own handlers: it leaves the socket as it is.
pub perform : Call → TcpSimple → TcpSimple
perform close s = close_socket s
perform clear s = s
perform (connect ip port) s = emit (calls (connect ip port)) s
perform (connect6 ip port) s = emit (calls (connect6 ip port)) s
perform read s = emit (calls read) s
perform stop s = emit (calls stop) s
perform shutdown s = emit (calls shutdown) s
perform (write bytes) s = emit (calls (write bytes)) s

pub bind_again : Event → TcpSimple → TcpSimple
bind_again e t = if t.closed then t else record t { handlers = once (kind e) t.handlers }

pub on_event : Event → (TcpSimple → TcpSimple) → TcpSimple → TcpSimple
on_event e reaction s = bind_again e (reaction (emit (publishes e) s))

-- The handle publishes an event.
pub receive : Event → (TcpSimple → TcpSimple) → TcpSimple → TcpSimple
receive e reaction s =
    if s.handlers (kind e)
    then on_event e reaction (record s { handlers = spend (kind e) s.handlers })
    else s

-- What happens to the socket, in order; `event e inner rest` has `inner` within the publication of `e`.
pub data Acts : Type 0 where
  done : Acts
  call : Call → Acts → Acts
  event : Event → Acts → Acts → Acts

pub run : Acts → TcpSimple → TcpSimple
run done s = s
run (call c rest) s = run rest (perform c s)
run (event e inner rest) s = run rest (receive e (run inner) s)
