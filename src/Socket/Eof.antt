-- ===== src/Socket/Eof.antt =====
-- The end of the stream: `eof` is set by the inner socket's `EndEvent`, and published by `transfer`.
use ecwid_console_downloader.Base.{
  ℕ, ◌-◌, ◌<◌, ◌≡◌, refl, ◌∙◌, true, false, inl, inr, some, List, [], ◌∷◌, ◌++◌, append-nil, min,
  All, arith, leb, Bool-cases, ◌&&◌, ◌==◌, ltb, if◌then◌else◌,
}
use ecwid_console_downloader.Socket.{
  Socket, Turn, Call, Event, Act, event, turn, call, emit, publishes, calls, read, DataChunk,
  error_event, connect_event, write_event, shutdown_event, close_event, end_event, data_event,
  settle, transfer, serve, handle, respond, unbind, is_bound, step, run, perform,
}
use ecwid_console_downloader.Socket.Buffer.{pop_buffer-Pops}
use ecwid_console_downloader.Socket.Trace.{ends, ends-emit, emit-SameData}
use ecwid_console_downloader.Socket.Same.{
  Same, Same-trans, emit-Same, calls-IsSilent, perform-Same, respond-Same,
}
use ecwid_console_downloader.Socket.Serve.{IsValid, published}
use ecwid_console_downloader.Socket.Step.{on_event-Same, IsPlain, plain-IsSilent}

-- `settle` publishes the end exactly if it has come and nothing is buffered.
settle-ends :
    (at_end : List Call) (s : Socket)
    → ends (settle at_end s).trace
      ≡ ends s.trace ++ (if s.eof && s.buffer_used == 0 then 0 ∷ [] else [])
unfolding settle
settle-ends at_end s = elim (Bool-cases (s.eof && s.buffer_used == 0)) [
  | inl done ↦ simp done (
      (respond-Same at_end
        (emit (publishes end_event) (record s { stopped = true }))).trace_same.ends_same
      ∙ ends-emit s.trace (publishes end_event))
  | inr going ↦ elim (Bool-cases (s.paused && ltb s.buffer_used s.buffer_max_length)) [
    | inl resumed ↦
        simp (going, resumed, append-nil)
          ((emit-SameData s.trace (calls read) (calls-IsSilent read)).ends_same)
    | inr idle ↦ simp (going, idle, append-nil)
  ]
]

-- What a transfer of the front `n` bytes publishes of the end.
published-ends :
    (at_data at_end : List Call) (s : Socket) (n : ℕ) (bytes : List ℕ) (rest : List DataChunk)
    → ends (settle at_end (respond at_data (published s n bytes rest))).trace
      ≡ ends s.trace ++ (if s.eof && (s.buffer_used - n) == 0 then 0 ∷ [] else [])
published-ends at_data at_end s n bytes rest = rw (
  settle-ends at_end (respond at_data w),
  m.trace_same.ends_same,
  m.eof_same,
  m.used_same,
  ends-emit s.trace (publishes (data_event bytes)),
  append-nil,
)
  where
    w : Socket
    w = published s n bytes rest

    m : Same w (respond at_data w)
    m = respond-Same at_data w

last_turn : (used chunk : ℕ) → (used - min (min used chunk) used == 0) ≡ leb used chunk
last_turn used chunk = ground arith

-- What a turn with a positive chunk publishes of the end, at a valid socket that is not stopped
-- and has data: one `EndEvent` if the inner socket has ended and the turn's chunk takes all that
-- is buffered, and none otherwise.
pub serve-ends :
    (t : Turn) (s : Socket)
    → IsValid s
    → s.stopped ≡ false
    → 0 < s.buffer_used
    → 0 < t.chunk
    → (u : Socket) × (serve t s ≡ some u)
      × (ends u.trace ≡ ends s.trace ++ (if s.eof && leb s.buffer_used t.chunk then 0 ∷ [] else []))
unfolding serve transfer
serve-ends t s v reading some_data some_chunk =
    let n : ℕ = min s.buffer_used t.chunk in
    let n' : ℕ = min n s.buffer_used in
    let (bytes, rest, p) =
      pop_buffer-Pops n' s.buffer v.in_range (omega arith) (omega (arith, v.used)) in
    let positive : (n == 0) ≡ false = ground arith in
    (
      settle t.at_end (respond t.at_data (published s n' bytes rest)),
      simp (reading, positive, p.popped),
      rw (published-ends t.at_data t.at_end s n' bytes rest, last_turn s.buffer_used t.chunk),
    )

-- The inner socket brings no data.
abbrev pub IsDataless : Act → Type 0
IsDataless (event (data_event bytes) turns reaction) = ⊥
IsDataless _ = Unit

-- The buffer stays empty and no end is published.
record StaysEmpty (s t : Socket) : Type 0 where
  empty : t.buffer_used ≡ 0
  silent : ends t.trace ≡ ends s.trace

Same-StaysEmpty : {s t : Socket} → s.buffer_used ≡ 0 → Same s t → StaysEmpty s t
Same-StaysEmpty e m = record { empty = m.used_same ∙ e; silent = m.trace_same.ends_same }

plain-StaysEmpty :
    (e : Event) (turns : List Turn) (reaction : List Call) (s : Socket)
    → IsPlain e
    → s.buffer_used ≡ 0
    → (t : Socket) × (handle e turns reaction s ≡ some t) × StaysEmpty s t
unfolding handle
plain-StaysEmpty (data_event bytes) turns reaction s h z = absurd h
plain-StaysEmpty end_event turns reaction s h z = absurd h
plain-StaysEmpty close_event turns reaction s h z = (
  _,
  refl,
  Same-StaysEmpty z (
      Same-trans (emit-Same s (publishes close_event) (plain-IsSilent close_event tt))
        (respond-Same reaction _)),
)
plain-StaysEmpty e turns reaction s h z =
    (_, refl, Same-StaysEmpty z (on_event-Same e reaction s (plain-IsSilent e h)))

handle-StaysEmpty :
    (e : Event) (turns : List Turn) (reaction : List Call) (s : Socket)
    → IsDataless (event e turns reaction)
    → s.buffer_used ≡ 0
    → (t : Socket) × (handle e turns reaction s ≡ some t) × StaysEmpty s t
unfolding handle
handle-StaysEmpty (data_event bytes) turns reaction s h z = absurd h
handle-StaysEmpty end_event turns reaction s h z =
    (record s { eof = true }, refl, record { empty = z; silent = refl })
handle-StaysEmpty (error_event code) turns reaction s h z =
    plain-StaysEmpty (error_event code) turns reaction s tt z
handle-StaysEmpty connect_event turns reaction s h z =
    plain-StaysEmpty connect_event turns reaction s tt z
handle-StaysEmpty write_event turns reaction s h z =
    plain-StaysEmpty write_event turns reaction s tt z
handle-StaysEmpty shutdown_event turns reaction s h z =
    plain-StaysEmpty shutdown_event turns reaction s tt z
handle-StaysEmpty close_event turns reaction s h z =
    plain-StaysEmpty close_event turns reaction s tt z

serve_empty : (t : Turn) (s : Socket) → s.buffer_used ≡ 0 → serve t s ≡ some s
unfolding serve
serve_empty t s z = let e : (min s.buffer_used t.chunk == 0) ≡ true = ground arith in simp e

step-StaysEmpty :
    (a : Act) (s : Socket)
    → IsDataless a
    → s.buffer_used ≡ 0
    → (t : Socket) × (step a s ≡ some t) × StaysEmpty s t
unfolding step
step-StaysEmpty (event e turns reaction) s h z = elim (Bool-cases (is_bound e s.handlers)) [
  | inl bound ↦
      let (t, eq, k) =
        handle-StaysEmpty e turns reaction (record s { handlers = unbind e s.handlers }) h z in
      (t, simp (bound, eq), record { empty = k.empty; silent = k.silent })
  | inr unbound ↦ (s, simp unbound, record { empty = z; silent = refl })
]
step-StaysEmpty (turn t) s h z = (s, serve_empty t s z, record { empty = z; silent = refl })
step-StaysEmpty (call c) s h z = (perform c s, refl, Same-StaysEmpty z (perform-Same c s))

run-StaysEmpty :
    (acts : List Act) (s : Socket)
    → All IsDataless acts
    → s.buffer_used ≡ 0
    → (t : Socket) × (run acts s ≡ some t) × StaysEmpty s t
unfolding run
run-StaysEmpty [] s h z = (s, refl, record { empty = z; silent = refl })
run-StaysEmpty (a ∷ acts) s h z =
    let (t, e, p) = step-StaysEmpty a s h.0 z in
    let (u, f, q) = run-StaysEmpty acts t h.1 p.empty in
    (u, simp (e, f), record { empty = q.empty; silent = q.silent ∙ p.silent })

-- From a socket whose buffer is empty no sequence without new data publishes an `EndEvent`,
-- although the inner socket's own `EndEvent` comes first: an end of stream that finds the buffer
-- drained never reaches the subscriber.
pub run-end_lost :
    (turns : List Turn) (reaction : List Call) (acts : List Act) (s : Socket)
    → All IsDataless acts
    → s.buffer_used ≡ 0
    → (t : Socket) × (run (event end_event turns reaction ∷ acts) s ≡ some t)
      × (ends t.trace ≡ ends s.trace)
run-end_lost turns reaction acts s h z =
    let (t, e, p) = run-StaysEmpty (event end_event turns reaction ∷ acts) s (tt, h) z in
    (t, e, p.silent)
