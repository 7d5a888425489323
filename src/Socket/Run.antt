-- ===== src/Socket/Run.antt =====
-- Every sequence of events, turns and calls at a new socket.
use ecwid_console_downloader.Base.{
  true, inl, inr, ◌⊎◌, Bool-cases, ℕ, ◌+◌, ◌<◌, ◌^◌, ◌≡◌, refl, ◌∙◌, some, List, [], ◌∷◌, ◌++◌,
  length, arith,
}
use ecwid_console_downloader.Socket.{Socket, Act, run, create}
use ecwid_console_downloader.Socket.Buffer.{contents}
use ecwid_console_downloader.Socket.Trace.{accepted, delivered}
use ecwid_console_downloader.Socket.Serve.{IsValid, IsBounded}
use ecwid_console_downloader.Socket.Held.{held, run-IsHeld}
use ecwid_console_downloader.Socket.Step.{amount, Steps, start-Steps, step-Steps}

abbrev pub volume : List Act → ℕ
volume [] = 0
volume (a ∷ acts) = amount a + volume acts

pub run-Steps :
    (acts : List Act) (s : Socket)
    → IsValid s
    → s.buffer_used + volume acts < 2 ^ 64
    → (t : Socket) × (run acts s ≡ some t) × Steps (volume acts) s t
unfolding run
run-Steps [] s v h = (s, refl, start-Steps s v)
run-Steps (a ∷ acts) s v h =
    let (t, e, p) = step-Steps a s v (omega arith) in
    let (u, f, q) = run-Steps acts t p.valid (omega (arith, p.used_le)) in
    (
      u,
      simp (e, f),
      record {
        valid = q.valid;
        used_le = omega (arith, p.used_le, q.used_le);
        max_same = q.max_same ∙ p.max_same;
        bounded = λ b. q.bounded (p.bounded b);
      },
    )

create-IsValid : (max_length : ℕ) → IsValid (create max_length)
unfolding create contents accepted delivered
create-IsValid max_length = record { in_range = tt; used = refl; conserved = refl }

used-create : (max_length : ℕ) → (create max_length).buffer_used ≡ 0
unfolding create
used-create max_length = refl

max-create : (max_length : ℕ) → (create max_length).buffer_max_length ≡ max_length
unfolding create
max-create max_length = refl

create-IsBounded : (max_length : ℕ) → 0 < max_length → IsBounded (create max_length)
unfolding create
create-IsBounded max_length h p = h

-- For any sequence of inner events, controller turns and owner calls, with any behaviour of the
-- subscriber while an event is published, that brings fewer than 2^64 bytes to a socket created
-- with a positive buffer: the run is defined (no read of an empty queue), the bytes taken in are,
-- in order, those published followed by those still buffered, `buffer_used` counts the latter,
-- and either the socket has set `paused` and the last of its calls of `read` and `stop` on the inner
-- socket is `stop`, or they are fewer than the buffer's length.
pub run-conserves :
    (max_length : ℕ) (acts : List Act)
    → 0 < max_length
    → volume acts < 2 ^ 64
    → (t : Socket) × (run acts (create max_length) ≡ some t)
      × (accepted t.trace ≡ delivered t.trace ++ contents t.buffer)
      × (t.buffer_used ≡ length (contents t.buffer))
      × (((t.paused ≡ true) × (held t.trace ≡ true)) ⊎ (t.buffer_used < max_length))
run-conserves max_length acts pos h =
    let (t, e, p) =
      run-Steps acts (create max_length) (create-IsValid max_length)
        (omega (arith, used-create max_length)) in
    (
      t,
      e,
      p.valid.conserved,
      p.valid.used,
      elim (Bool-cases t.paused) [
        | inl paused ↦ inl (paused, run-IsHeld max_length acts t e paused)
        | inr free ↦ inr (
            omega (
              arith,
              p.bounded (create-IsBounded max_length pos) free,
              p.max_same,
              max-create max_length,
            ))
      ],
    )
