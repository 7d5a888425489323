-- ===== src/Socket/Step.antt =====
-- Every event, turn and call at a socket: `step` keeps it valid.
use ecwid_console_downloader.Base.{
  ℕ, ◌+◌, ◌≤◌, ◌<◌, ◌^◌, ◌≡◌, refl, sym, ◌∙◌, true, inl, inr, some, List, append_assoc, append-nil,
  length, length-append, All, All-append, arith, leb, Bool-cases, subst,
}
use ecwid_console_downloader.Socket.{
  Socket, Turn, Call, Event, Handlers, Act, event, turn, call, emit, publishes, calls, accepts,
  schedules, stop, error_event, connect_event, write_event, shutdown_event, close_event, end_event,
  data_event, push_chunk, store, rebind_read, on_data, on_event, handle, unbind, is_bound, step,
  perform,
}
use ecwid_console_downloader.Socket.Buffer.{InRange, contents, contents-append, contents-one}
use ecwid_console_downloader.Socket.Trace.{
  delivered, accepted-emit, delivered-emit, SameData, IsSilent, emit-SameData,
}
use ecwid_console_downloader.Socket.Same.{
  Same, Same-refl, Same-trans, bound_again-Same, emit-Same, calls-IsSilent, perform-Same,
  respond-Same,
}
use ecwid_console_downloader.Socket.Serve.{
  IsValid, IsBounded, Serves, serve-Serves, serve_all-Serves,
}

-- The bytes that the inner socket brings.
abbrev pub arrival : Event → ℕ
arrival (data_event bytes) = length bytes
arrival _ = 0

abbrev pub amount : Act → ℕ
amount (event e turns reaction) = arrival e
amount (turn t) = 0
amount (call c) = 0

-- The socket after something that brought at most `k` bytes.
pub record Steps (k : ℕ) (s t : Socket) : Type 0 where
  pub valid : IsValid t
  pub used_le : t.buffer_used ≤ s.buffer_used + k
  pub max_same : t.buffer_max_length ≡ s.buffer_max_length
  pub bounded : IsBounded s → IsBounded t

Same-Steps : {s t : Socket} → IsValid s → Same s t → Steps 0 s t
Same-Steps v m = record {
  valid = record {
    in_range = subst (All InRange) (sym m.buffer_same) v.in_range;
    used = ground (arith, m, v.used);
    conserved =
        rw (m.trace_same.accepted_same, m.trace_same.delivered_same, m.buffer_same) v.conserved;
  };
  used_le = omega (arith, m.used_same);
  max_same = m.max_same;
  bounded = λ b p. ground (arith, m, b (sym m.paused_same ∙ p));
}

Serves-Steps : {s t u : Socket} {k : ℕ} → Steps k s t → Serves t u → Steps k s u
Serves-Steps p q = record {
  valid = q.valid;
  used_le = omega (arith, p.used_le, q.used_le);
  max_same = q.max_same ∙ p.max_same;
  bounded = λ b. q.bounded (p.bounded b);
}

push_chunk-IsValid :
    (bytes : List ℕ) (s : Socket)
    → IsValid s
    → s.buffer_used + length bytes < 2 ^ 64
    → IsValid (push_chunk bytes s)
unfolding push_chunk
push_chunk-IsValid bytes s v h = record {
  in_range = All-append InRange s.buffer _ v.in_range (omega arith);
  used =
      rw (contents-append, contents-one)
        (omega (arith, v.used, length-append (contents s.buffer) bytes));
  conserved =
      rw
        (
          contents-append,
          contents-one,
          accepted-emit s.trace (accepts bytes),
          delivered-emit s.trace (accepts bytes),
          append-nil,
          v.conserved,
        )
        (append_assoc (delivered s.trace) (contents s.buffer) bytes);
}

used-push_chunk :
    (bytes : List ℕ) (s : Socket)
    → s.buffer_used + length bytes < 2 ^ 64
    → (push_chunk bytes s).buffer_used ≡ s.buffer_used + length bytes
unfolding push_chunk
used-push_chunk bytes s h = omega arith

max-push_chunk :
    (bytes : List ℕ) (s : Socket) → (push_chunk bytes s).buffer_max_length ≡ s.buffer_max_length
unfolding push_chunk
max-push_chunk bytes s = refl

-- The buffer's fields, the flow control aside, and the data of the trace.
pub Same-IsValid :
    {s t : Socket}
    → IsValid s
    → t.buffer ≡ s.buffer
    → t.buffer_used ≡ s.buffer_used
    → SameData s.trace t.trace
    → IsValid t
Same-IsValid v b u m = record {
  in_range = subst (All InRange) (sym b) v.in_range;
  used = rw (b, u) v.used;
  conserved = rw (m.accepted_same, m.delivered_same, b) v.conserved;
}

-- `store` keeps a valid socket valid while the count of its bytes fits a `size_t`.
store-Steps :
    (bytes : List ℕ) (s : Socket)
    → IsValid s
    → s.buffer_used + length bytes < 2 ^ 64
    → Steps (length bytes) s (store bytes s)
unfolding store
store-Steps bytes s v h = elim (Bool-cases (leb t.buffer_max_length t.buffer_used)) [
  | inl full ↦ simp full (record {
    valid =
        Same-IsValid pushed refl refl (emit-SameData t.trace (calls stop) (calls-IsSilent stop));
    used_le = omega (arith, used-push_chunk bytes s h);
    max_same = max-push_chunk bytes s;
    bounded = λ b p. cc;
  })
  | inr room ↦ simp room (record {
    valid = pushed;
    used_le = omega (arith, used-push_chunk bytes s h);
    max_same = max-push_chunk bytes s;
    bounded = λ b p. ground (arith, room);
  })
]
  where
    t : Socket
    t = push_chunk bytes s

    pushed : IsValid t
    pushed = push_chunk-IsValid bytes s v h

schedules-IsSilent : IsSilent schedules
schedules-IsSilent = record { accepts_none = refl; delivers_none = refl; ends_none = refl }

Steps-Same : {s t u : Socket} {k : ℕ} → Steps k s t → Same t u → Steps k s u
Steps-Same p m = record {
  valid = Same-IsValid p.valid m.buffer_same m.used_same m.trace_same;
  used_le = omega (arith, p.used_le, m.used_same);
  max_same = m.max_same ∙ p.max_same;
  bounded = λ b q. ground (arith, m, p.bounded b (sym m.paused_same ∙ q));
}

on_data-Steps :
    (bytes : List ℕ) (turns : List Turn) (s : Socket)
    → IsValid s
    → s.buffer_used + length bytes < 2 ^ 64
    → (t : Socket) × (on_data bytes turns s ≡ some t) × Steps (length bytes) s t
unfolding on_data rebind_read
on_data-Steps bytes turns s v h =
    let p =
      Steps-Same (store-Steps bytes s v h)
        (emit-Same (store bytes s) schedules schedules-IsSilent) in
    let (u, e, k) = serve_all-Serves turns (emit schedules (store bytes s)) p.valid in
    (rebind_read u, simp e, Steps-Same (Serves-Steps p k) (bound_again-Same u _))

pub on_event-Same :
    (e : Event) (reaction : List Call) (s : Socket)
    → IsSilent (publishes e)
    → Same s (on_event e reaction s)
unfolding on_event
on_event-Same e reaction s h =
    Same-trans (Same-trans (emit-Same s (publishes e) h) (respond-Same reaction t))
      (bound_again-Same _ _)
  where
    t : Socket
    t = emit (publishes e) s

-- Every event but the data and the end of the stream.
abbrev pub IsPlain : Event → Type 0
IsPlain (data_event bytes) = ⊥
IsPlain end_event = ⊥
IsPlain _ = Unit

pub plain-IsSilent : (e : Event) → IsPlain e → IsSilent (publishes e)
plain-IsSilent (data_event bytes) h = absurd h
plain-IsSilent end_event h = absurd h
plain-IsSilent _ h = record { accepts_none = refl; delivers_none = refl; ends_none = refl }

handle-Steps :
    (e : Event) (turns : List Turn) (reaction : List Call) (s : Socket)
    → IsValid s
    → s.buffer_used + arrival e < 2 ^ 64
    → (t : Socket) × (handle e turns reaction s ≡ some t) × Steps (arrival e) s t
unfolding handle
handle-Steps (data_event bytes) turns reaction s v h = on_data-Steps bytes turns s v h
handle-Steps end_event turns reaction s v h = (
  record s { eof = true },
  refl,
  record {
    valid = Same-IsValid v refl refl (Same-refl s).trace_same;
    used_le = omega arith;
    max_same = refl;
    bounded = λ b. b;
  },
)
handle-Steps close_event turns reaction s v h = (
  _,
  refl,
  Same-Steps v (
      Same-trans (emit-Same s (publishes close_event) (plain-IsSilent close_event tt))
        (respond-Same reaction _)),
)
handle-Steps (error_event code) turns reaction s v h = (
  _,
  refl,
  Same-Steps v (on_event-Same (error_event code) reaction s (plain-IsSilent (error_event code) tt)),
)
handle-Steps connect_event turns reaction s v h = (
  _,
  refl,
  Same-Steps v (on_event-Same connect_event reaction s (plain-IsSilent connect_event tt)),
)
handle-Steps write_event turns reaction s v h =
    (_, refl, Same-Steps v (on_event-Same write_event reaction s (plain-IsSilent write_event tt)))
handle-Steps shutdown_event turns reaction s v h = (
  _,
  refl,
  Same-Steps v (on_event-Same shutdown_event reaction s (plain-IsSilent shutdown_event tt)),
)

pub start-Steps : (s : Socket) → IsValid s → Steps 0 s s
start-Steps s v = Same-Steps v (Same-refl s)

pub weaken-Steps : {k : ℕ} {s t : Socket} → Steps 0 s t → Steps k s t
weaken-Steps p = record {
  valid = p.valid;
  used_le = omega (arith, p.used_le);
  max_same = p.max_same;
  bounded = p.bounded;
}

-- Only the buffer, its count and its bound, and the trace show in `Steps`.
handled-Steps :
    {k : ℕ} (s t : Socket) (h : Handlers) → Steps k (record s { handlers = h }) t → Steps k s t
handled-Steps s t h p = record {
  valid = p.valid;
  used_le = p.used_le;
  max_same = p.max_same;
  bounded = λ b. p.bounded b;
}

pub step-Steps :
    (a : Act) (s : Socket)
    → IsValid s
    → s.buffer_used + amount a < 2 ^ 64
    → (t : Socket) × (step a s ≡ some t) × Steps (amount a) s t
unfolding step
step-Steps (event e turns reaction) s v h = elim (Bool-cases (is_bound e s.handlers)) [
  | inl bound ↦
      let handlers : Handlers = unbind e s.handlers in
      let (t, eq, k) =
        handle-Steps e turns reaction (record s { handlers = handlers })
          (Same-IsValid v refl refl (Same-refl s).trace_same) h in
      (t, simp (bound, eq), handled-Steps s t handlers k)
  | inr unbound ↦ (s, simp unbound, weaken-Steps (start-Steps s v))
]
step-Steps (turn t) s v h =
    let (u, e, k) = serve-Serves t s v in (u, e, Serves-Steps (start-Steps s v) k)
step-Steps (call c) s v h = (perform c s, refl, Same-Steps v (perform-Same c s))
