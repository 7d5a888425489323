-- ===== src/Shaping/Tests.antt =====
-- A buffering socket under the controller, with concrete times.
use ecwid_console_downloader.Base.{
  ◌+◌, ◌*◌, ◌≤◌, ◌≡◌, refl, false, true, none, some, List, [], ◌∷◌, arith, ◌==◌, if◌then◌else◌,
}
use ecwid_console_downloader.Socket.{Socket, Call, accepts, adds_stream, read, close}
use ecwid_console_downloader.Socket.Trace.{accepted, delivered}
use ecwid_console_downloader.Socket.Buffer.{contents}
use ecwid_console_downloader.Socket.Serve.{IsValid}
use ecwid_console_downloader.Controller.Gain.{measured}
use ecwid_console_downloader.Controller.Clock.{Paced, Move, transfers, changes, moves}
use ecwid_console_downloader.Shaping.{Port, sockets, published, sockets-paced}

-- Three bytes have come, in two pieces.
abbrev loaded : Socket
loaded = record {
  closed = false;
  buffer_used = 3;
  buffer_max_length = 100;
  paused = false;
  stopped = false;
  eof = false;
  buffer = record { bytes = 1 ∷ 2 ∷ []; offset = 0 } ∷ record { bytes = 3 ∷ []; offset = 0 } ∷ [];
  handlers = record {
    on_error = true;
    on_connect = true;
    on_write = true;
    on_shutdown = true;
    on_read = true;
    on_end = true;
    on_close = false;
  };
  trace = adds_stream ∷ accepts (1 ∷ 2 ∷ []) ∷ accepts (3 ∷ []) ∷ [];
}

loaded-IsValid : IsValid loaded
unfolding contents accepted delivered
loaded-IsValid = record {
  in_range = (omega arith, (omega arith, tt));
  used = refl;
  conserved = refl;
}

abbrev port : Port 10
port = record { slot = 0; socket = loaded; valid = loaded-IsValid; small = omega arith }

-- Two bytes a second.
abbrev paced : Paced (Port 10)
paced = record {
  controller = record {
    limit = 2;
    sheduled = false;
    slots = 0 ∷ [];
    cell = λ i. if i == 0 then some port else none;
    next = 1;
    timer_handlers = 0;
    timer_active = false;
    sent = [];
  };
  time = record { last = 0 };
}

-- The owner asks to read on when it is given data.
abbrev reader : Socket → List Call × List Call
reader s = (read ∷ [], close ∷ [])

abbrev readings : List (Move (Port 10))
readings = transfers 600000000 ∷ changes 0 (λ p. p) ∷ transfers 1200000000 ∷ []

sockets-paced_example :
    (q : Paced (Port 10)) × (moves (sockets reader) readings paced ≡ some q)
    × (measured published (q.controller.cell 0) * 1000000000
        ≤ measured published (some port) * 1000000000 + 2 * 1200000000)
sockets-paced_example =
    sockets-paced reader 0 readings 1200000000 paced (omega arith) (omega arith)
      (omega arith, (omega arith, omega arith)) ((λ s. refl), tt)
