-- ===== src/Socket.antt =====
-- src/aio/tcp_bandwidth.cpp and include/aio/tcp_bandwidth.h: the socket that buffers what its inner
-- socket reads, and hands it on as the bandwidth controller allows.
-- A call that publishes an event takes what the subscriber does meanwhile, as a list of the socket's
-- own operations; `on_data` takes the turns that the controller gives while it is asked for one.
-- `none` is undefined behaviour: the read of the front of an empty `std::queue`.
-- `trace` is no field of the class: it records, oldest first, what the socket was handed and did.
pub mod Buffer
pub mod Trace
pub mod Same
pub mod Serve
pub mod Amount
pub mod Step
pub mod Held
pub mod Run
pub mod Eof
mod Tests
use ecwid_console_downloader.Base.{
  ℕ, ◌+◌, ◌-◌, min, Bool, true, false, not, ◌&&◌, ◌||◌, Option, none, some, List, [], ◌∷◌, ◌++◌,
  length, take, drop, ltb, leb, ◌==◌, if◌then◌else◌, add_size, ◌>>=◌,
}

-- include/data_chunk.h; `length` is that of `bytes`.
pub record DataChunk : Type 0 where
  pub bytes : List ℕ
  pub offset : ℕ

-- The events of uvw that pass through.
pub data Event : Type 0 where
  error_event : ℕ → Event
  connect_event write_event shutdown_event close_event end_event : Event
  data_event : List ℕ → Event

-- The operations of a `TCPSocket`: those of this one, and those that it calls on the inner one.
pub data Call : Type 0 where
  connect connect6 : List ℕ → ℕ → Call
  read stop shutdown close clear : Call
  write : List ℕ → Call

pub data Effect : Type 0 where
  accepts : List ℕ → Effect
  publishes : Event → Effect
  calls : Call → Effect
  adds_stream removes_stream schedules : Effect

-- Which events of the inner socket have a handler; `once` handlers go when they are called.
pub record Handlers : Type 0 where
  pub on_error : Bool
  pub on_connect : Bool
  pub on_write : Bool
  pub on_shutdown : Bool
  pub on_read : Bool
  pub on_end : Bool
  pub on_close : Bool

pub record Socket : Type 0 where
  pub closed : Bool
  pub buffer_used : ℕ
  pub buffer_max_length : ℕ
  pub paused : Bool
  pub stopped : Bool
  pub eof : Bool
  pub buffer : List DataChunk
  pub handlers : Handlers
  pub trace : List Effect

abbrev pub emit : Effect → Socket → Socket
emit e s = record s { trace = s.trace ++ (e ∷ []) }

-- `socket->clear()`
abbrev no_handlers : Handlers
no_handlers = record {
  on_error = false;
  on_connect = false;
  on_write = false;
  on_shutdown = false;
  on_read = false;
  on_end = false;
  on_close = false;
}

-- `add_stream` of the controller calls `set_buffer` on the new socket.
unfoldable pub set_buffer : ℕ → Socket → Socket
set_buffer n s = record s { buffer_max_length = n }

pub create : ℕ → Socket
unfolding set_buffer
create max_length =
    let s : Socket = record {
      closed = false;
      buffer_used = 0;
      buffer_max_length = 0;
      paused = false;
      stopped = true;
      eof = false;
      buffer = [];
      handlers = record no_handlers {
        on_error = true;
        on_connect = true;
        on_write = true;
        on_shutdown = true;
        on_read = true;
        on_end = true;
      };
      trace = adds_stream ∷ [];
    } in
    set_buffer max_length s

pub read_socket : Socket → Socket
read_socket s = let t = record s { stopped = false } in if s.paused then t else emit (calls read) t

pub stop_socket : Socket → Socket
stop_socket s = let t = record s { stopped = true } in if s.paused then t else emit (calls stop) t

pub close_socket : Socket → Socket
close_socket s = if s.closed then s else record s {
  closed = true;
  stopped = true;
  handlers = record no_handlers { on_close = true };
  trace = s.trace ++ (removes_stream ∷ calls clear ∷ calls close ∷ []);
}

-- `clear` is what a subscriber does to its own handlers: it leaves the socket as it is.
pub perform : Call → Socket → Socket
perform (connect ip port) s = emit (calls (connect ip port)) s
perform (connect6 ip port) s = emit (calls (connect6 ip port)) s
perform read s = read_socket s
perform stop s = stop_socket s
perform shutdown s = emit (calls shutdown) s
perform close s = close_socket s
perform clear s = s
perform (write bytes) s = emit (calls (write bytes)) s

pub respond : List Call → Socket → Socket
respond [] s = s
respond (c ∷ cs) s = respond cs (perform c s)

unfoldable pub active : Socket → Bool → Bool
active s inner_active = not s.stopped || inner_active

unfoldable pub available : Socket → ℕ
available s = s.buffer_used

-- The loop of `pop_buffer`, which runs at least once.
pub pop_buffer : ℕ → List DataChunk → Option (List ℕ × List DataChunk)
pop_buffer n [] = none
pop_buffer n (c ∷ cs) =
    let chunk = drop c.offset c.bytes in
    let chunk_available = length c.bytes - c.offset in
    let more = pop_buffer (n - chunk_available) cs >>= λ p. some (chunk ++ p.0, p.1) in
    if ltb n chunk_available
    then some (take n chunk, record c { offset = c.offset + n } ∷ cs)
    else if n == chunk_available
    then some (chunk, cs)
    else more

-- What follows the publication of the data in `transfer`.
pub settle : List Call → Socket → Socket
settle at_end s =
    if s.eof && s.buffer_used == 0
    then respond at_end (emit (publishes end_event) (record s { stopped = true }))
    else if s.paused && ltb s.buffer_used s.buffer_max_length
    then emit (calls read) (record s { paused = false })
    else s

-- `buffer_used -= length` runs at a `length` of at most `buffer_used`.
pub transfer : ℕ → List Call → List Call → Socket → Option Socket
transfer n at_data at_end s =
    if s.stopped || n == 0
    then some s
    else let n' = min n s.buffer_used in
      pop_buffer n' s.buffer >>= λ p. some (
        settle at_end (
          respond at_data (
            emit (publishes (data_event p.0))
              (record s { buffer = p.1; buffer_used = s.buffer_used - n' }))))

-- A turn of the controller's loop at this stream: its chunk, and what the subscriber does.
pub record Turn : Type 0 where
  pub chunk : ℕ
  pub at_data : List Call
  pub at_end : List Call

pub serve : Turn → Socket → Option Socket
unfolding available
serve t s =
    let to_transfer = min (available s) t.chunk in
    if to_transfer == 0 then some s else transfer to_transfer t.at_data t.at_end s

pub serve_all : List Turn → Socket → Option Socket
serve_all [] s = some s
serve_all (t ∷ ts) s = serve t s >>= λ s'. serve_all ts s'

-- The first lines of `on_data`, before the controller is asked.
pub push_chunk : List ℕ → Socket → Socket
push_chunk bytes s = record s {
  buffer = s.buffer ++ (record { bytes = bytes; offset = 0 } ∷ []);
  buffer_used = add_size s.buffer_used (length bytes);
  trace = s.trace ++ (accepts bytes ∷ []);
}

pub store : List ℕ → Socket → Socket
store bytes s =
    let t = push_chunk bytes s in
    if leb t.buffer_max_length t.buffer_used
    then emit (calls stop) (record t { paused = true })
    else t

pub rebind_read : Socket → Socket
rebind_read s = if s.closed then s else record s { handlers = record s.handlers { on_read = true } }

pub on_data : List ℕ → List Turn → Socket → Option Socket
on_data bytes turns s =
    serve_all turns (emit schedules (store bytes s)) >>= λ s'. some (rebind_read s')

-- `once` for the event that a handler was called with.
pub rebind : Event → Handlers → Handlers
rebind (error_event code) h = record h { on_error = true }
rebind connect_event h = record h { on_connect = true }
rebind write_event h = record h { on_write = true }
rebind shutdown_event h = record h { on_shutdown = true }
rebind _ h = h

-- `on_event<Event>`: an event of the inner socket is published, and its handler bound again.
pub on_event : Event → List Call → Socket → Socket
on_event e reaction s =
    let t = respond reaction (emit (publishes e) s) in
    if t.closed then t else record t { handlers = rebind e t.handlers }

pub is_bound : Event → Handlers → Bool
is_bound (error_event code) h = h.on_error
is_bound connect_event h = h.on_connect
is_bound write_event h = h.on_write
is_bound shutdown_event h = h.on_shutdown
is_bound close_event h = h.on_close
is_bound end_event h = h.on_end
is_bound (data_event bytes) h = h.on_read

pub unbind : Event → Handlers → Handlers
unbind (error_event code) h = record h { on_error = false }
unbind connect_event h = record h { on_connect = false }
unbind write_event h = record h { on_write = false }
unbind shutdown_event h = record h { on_shutdown = false }
unbind close_event h = record h { on_close = false }
unbind end_event h = record h { on_end = false }
unbind (data_event bytes) h = record h { on_read = false }

-- The handlers that `create`, `close` and `bind_on_data` register.
pub handle : Event → List Turn → List Call → Socket → Option Socket
handle (data_event bytes) turns reaction s = on_data bytes turns s
handle end_event turns reaction s = some (record s { eof = true })
handle close_event turns reaction s = some (respond reaction (emit (publishes close_event) s))
handle e turns reaction s = some (on_event e reaction s)

-- What may happen to the socket: an event of the inner socket, a turn of the controller's loop, a
-- call of its owner.
pub data Act : Type 0 where
  event : Event → List Turn → List Call → Act
  turn : Turn → Act
  call : Call → Act

pub step : Act → Socket → Option Socket
step (event e turns reaction) s =
    if is_bound e s.handlers
    then handle e turns reaction (record s { handlers = unbind e s.handlers })
    else some s
step (turn t) s = serve t s
step (call c) s = some (perform c s)

pub run : List Act → Socket → Option Socket
run [] s = some s
run (a ∷ acts) s = step a s >>= λ s'. run acts s'
