-- ===== src/Socket/Tests.antt =====
-- The socket on concrete input.
use ecwid_console_downloader.Base.{
  ◌⊎◌, ℕ, ◌+◌, ◌<◌, ◌≡◌, refl, true, false, some, List, [], ◌∷◌, ◌++◌, length, leb, ◌&&◌,
  if◌then◌else◌, arith,
}
use ecwid_console_downloader.Socket.{
  DataChunk, Socket, Turn, Act, event, turn, call, close, read, stop, data_event, end_event,
  connect_event, adds_stream, accepts, serve, create, run, set_buffer,
}
use ecwid_console_downloader.Socket.Buffer.{contents, Pops, pop_buffer-Pops}
use ecwid_console_downloader.Socket.Trace.{accepted, delivered, ends}
use ecwid_console_downloader.Socket.Serve.{IsValid}
use ecwid_console_downloader.Socket.Amount.{serve-amount}
use ecwid_console_downloader.Socket.Held.{held}
use ecwid_console_downloader.Socket.Run.{run-conserves}
use ecwid_console_downloader.Socket.Eof.{serve-ends, run-end_lost}

abbrev chunks : List DataChunk
chunks =
    record { bytes = 1 ∷ 2 ∷ 3 ∷ []; offset = 1 } ∷ record { bytes = 4 ∷ 5 ∷ []; offset = 0 } ∷ []

pop_buffer-Pops_example : (bytes : List ℕ) × (rest : List DataChunk) × Pops 3 chunks bytes rest
unfolding contents
pop_buffer-Pops_example =
    pop_buffer-Pops 3 chunks (omega arith, (omega arith, tt)) (omega arith) (omega arith)

abbrev some_turn : Turn
some_turn = record { chunk = 2; at_data = stop ∷ read ∷ []; at_end = close ∷ [] }

-- Data that fills the buffer, turns, the end of the stream and a call of the owner.
abbrev acts : List Act
acts =
    call read
    ∷ event connect_event [] []
    ∷ event (data_event (1 ∷ 2 ∷ 3 ∷ 4 ∷ 5 ∷ [])) (some_turn ∷ []) []
    ∷ event end_event [] []
    ∷ turn some_turn
    ∷ turn some_turn
    ∷ call close
    ∷ []

run-conserves_example :
    (t : Socket) × (run acts (create 4) ≡ some t)
    × (accepted t.trace ≡ delivered t.trace ++ contents t.buffer)
    × (t.buffer_used ≡ length (contents t.buffer))
    × (((t.paused ≡ true) × (held t.trace ≡ true)) ⊎ (t.buffer_used < 4))
run-conserves_example = run-conserves 4 acts (omega arith) (omega arith)

-- A socket that has read two bytes and then the end of the stream.
abbrev filled : Socket
filled = record (create 4) {
  buffer = record { bytes = 7 ∷ 8 ∷ []; offset = 0 } ∷ [];
  buffer_used = 2;
  stopped = false;
  eof = true;
  trace = adds_stream ∷ accepts (7 ∷ 8 ∷ []) ∷ [];
}

filled-IsValid : IsValid filled
unfolding contents accepted delivered
filled-IsValid = record { in_range = (omega arith, tt); used = refl; conserved = refl }

serve-amount_example :
    (u : Socket) × (serve some_turn filled ≡ some u)
    × (length (delivered u.trace) ≡ length (delivered filled.trace) + 2)
serve-amount_example = serve-amount some_turn filled filled-IsValid

serve-ends_example :
    (u : Socket) × (serve some_turn filled ≡ some u)
    × (ends u.trace ≡ ends filled.trace ++ (if true && leb 2 2 then 0 ∷ [] else []))
serve-ends_example = serve-ends some_turn filled filled-IsValid refl (omega arith) (omega arith)

create_empty : (create 4).buffer_used ≡ 0
unfolding create set_buffer
create_empty = refl

run-end_lost_example :
    (t : Socket) × (run (event end_event [] [] ∷ turn some_turn ∷ call read ∷ []) (create 4)
      ≡ some t)
    × (ends t.trace ≡ ends (create 4).trace)
run-end_lost_example =
    run-end_lost [] [] (turn some_turn ∷ call read ∷ []) (create 4) (tt, (tt, tt)) create_empty
