-- ===== src/Shaping.antt =====
-- The buffering sockets as the streams of the bandwidth controller: src/aio/tcp_bandwidth.cpp under
-- include/aio/bandwidth_controller.h. `subscriber` says what the owner of a socket calls while its data, or its
-- end, is published. A port is a valid socket of at most `most` bytes, with the slot that `add_stream` gave it.
mod Tests
use ecwid_console_downloader.Base.{
  ℕ, ◌+◌, ◌-◌, ◌*◌, ◌^◌, ◌≤◌, ◌<◌, ◌≡◌, refl, true, false, not, ◌&&◌, Bool, Bool-cases, inl, inr,
  Option, some, List, [], ◌∷◌, length, if◌then◌else◌, arith, All,
}
use ecwid_console_downloader.Socket.{Socket, Call, Turn, serve, set_buffer, available}
use ecwid_console_downloader.Socket.Serve.{IsValid, Serves, serve-Serves}
use ecwid_console_downloader.Controller.{Stream, Request, removes}
use ecwid_console_downloader.Controller.Pass.{total_sent}
use ecwid_console_downloader.Controller.Rounds.{IsRemoval}
use ecwid_console_downloader.Controller.Schedule.{Served}
use ecwid_console_downloader.Socket.Amount.{delivered-serve}
use ecwid_console_downloader.Socket.Trace.{delivered}
use ecwid_console_downloader.Controller.Gain.{measured}
use ecwid_console_downloader.Controller.Clock.{Paced, Move, InOrder, moves}
use ecwid_console_downloader.Controller.Clock.Pace.{IsSteady, moves-paced}

pub record Port (most : ℕ) : Type 0 where
  pub slot : ℕ
  pub socket : Socket
  pub valid : IsValid socket
  pub small : socket.buffer_used ≤ most

-- The bytes that the socket has published.
pub published : {most : ℕ} → Port most → ℕ
published p = length (delivered p.socket.trace)

module _ {most : ℕ} (subscriber : Socket → List Call × List Call) where
  pub turn_at : ℕ → Port most → Turn
  turn_at n p = record {
    chunk = n;
    at_data = (subscriber p.socket).0;
    at_end = (subscriber p.socket).1;
  }

  pub transferred : ℕ → Port most → Port most
  transferred n p =
      let (u, e, k) = serve-Serves (turn_at n p) p.socket p.valid in
      record {
        slot = p.slot;
        socket = u;
        valid = k.valid;
        small = omega (arith, k.used_le, p.small);
      }

  pub buffered : ℕ → Port most → Port most
  unfolding set_buffer
  buffered n p = record {
    slot = p.slot;
    socket = set_buffer n p.socket;
    valid = record {
      in_range = p.valid.in_range;
      used = p.valid.used;
      conserved = p.valid.conserved;
    };
    small = p.small;
  }

  -- A socket that its owner closes meanwhile has itself removed. An owner that opens a new stream
  -- meanwhile is not covered: these requests add none.
  pub requested : ℕ → Port most → List (Request (Port most))
  requested n p =
      if not p.socket.closed && (transferred n p).socket.closed then removes p.slot ∷ [] else []

  pub sockets : Stream (Port most)
  unfolding available
  sockets = record {
    available = λ p. available p.socket;
    set_buffer = buffered;
    transfer = transferred;
    requests = requested;
  }

  requested_removals : (n : ℕ) (p : Port most) → All IsRemoval (requested n p)
  unfolding requested
  requested_removals n p =
      elim (Bool-cases (not p.socket.closed && (transferred n p).socket.closed)) [
        | inl closes ↦ simp closes (tt, tt)
        | inr stays ↦ simp stays tt
      ]

  sockets-Served : Served sockets most
  unfolding available sockets
  sockets-Served = record { within = λ p. p.small; removing = requested_removals }

  published-transferred : (n : ℕ) (p : Port most) → published (transferred n p) ≤ published p + n
  unfolding published transferred turn_at
  published-transferred n p =
      let (u, e, k) = serve-Serves (turn_at n p) p.socket p.valid in
      ground (arith, delivered-serve (turn_at n p) p.socket u p.valid e k)

  -- One buffering socket in the list, of at most `most` bytes, 2 * `most` below 2^64; whatever calls of this socket its
  -- owner makes while data is published, as long as it opens no new stream; a clock that does not go back; and between the transfers any change of the
  -- socket that publishes no data: every call of `transfer` returns, and what the socket has published by
  -- the time `to`, if it has not been removed, is at most what it had before and the limit, in bytes a
  -- second, times the time since the last reading, in nanoseconds.
  pub sockets-paced :
      (k : ℕ) (ms : List (Move (Port most))) (to : ℕ) (p : Paced (Port most))
      → 2 * most < 2 ^ 64
      → length p.controller.slots ≤ 1
      → InOrder p.time.last ms to
      → IsSteady published ms
      → (q : Paced (Port most)) × (moves sockets ms p ≡ some q)
        × (measured published (q.controller.cell k) * 1000000000
            ≤ measured published (p.controller.cell k) * 1000000000
              + p.controller.limit * (to - p.time.last))
  unfolding sockets
  sockets-paced k ms to p small few order steady =
      moves-paced sockets most sockets-Served published published-transferred k ms to p small few
        order steady
