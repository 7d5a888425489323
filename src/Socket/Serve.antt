-- ===== src/Socket/Serve.antt =====
-- A turn of the controller's loop at a socket: `serve`, `transfer` and what follows the publication.
use ecwid_console_downloader.Base.{
  ℕ, ◌-◌, ◌≤◌, ◌<◌, ◌≡◌, refl, sym, ap, ◌∙◌, true, false, inl, inr, some, List, [], ◌∷◌, ◌++◌,
  append_assoc, append-nil, length, length-drop, take-append-drop, min, All, arith, ltb, Bool-cases,
  ◌==◌, ◌&&◌, ◌||◌, subst,
}
use ecwid_console_downloader.Socket.{
  Socket, Turn, Call, emit, publishes, calls, read, data_event, end_event, settle, respond,
  transfer, serve, serve_all, DataChunk,
}
use ecwid_console_downloader.Socket.Buffer.{InRange, contents, Pops, pop_buffer-Pops}
use ecwid_console_downloader.Socket.Trace.{
  accepted, delivered, accepted-emit, delivered-emit, emit-SameData,
}
use ecwid_console_downloader.Socket.Same.{Same, Same-refl, calls-IsSilent, respond-Same}

-- Offsets lie in their chunks, `buffer_used` counts the bytes that are left, and each byte that was
-- taken in has been published or is still held, in order.
pub record IsValid (s : Socket) : Type 0 where
  pub in_range : All InRange s.buffer
  pub used : s.buffer_used ≡ length (contents s.buffer)
  pub conserved : accepted s.trace ≡ delivered s.trace ++ contents s.buffer

-- The inner socket is held back whenever the buffer is full.
abbrev pub IsBounded : Socket → Type 0
IsBounded s = s.paused ≡ false → s.buffer_used < s.buffer_max_length

-- What the end of a transfer keeps.
pub record Settles (s t : Socket) : Type 0 where
  pub buffer_same : t.buffer ≡ s.buffer
  pub used_same : t.buffer_used ≡ s.buffer_used
  pub max_same : t.buffer_max_length ≡ s.buffer_max_length
  pub eof_same : t.eof ≡ s.eof
  pub accepted_same : accepted t.trace ≡ accepted s.trace
  pub delivered_same : delivered t.trace ≡ delivered s.trace
  pub bounded : IsBounded s → IsBounded t

Same-Settles : {s t : Socket} → Same s t → Settles s t
Same-Settles m = record {
  buffer_same = m.buffer_same;
  used_same = m.used_same;
  max_same = m.max_same;
  eof_same = m.eof_same;
  accepted_same = m.trace_same.accepted_same;
  delivered_same = m.trace_same.delivered_same;
  bounded = λ b p. ground (arith, m, b (sym m.paused_same ∙ p));
}

Settles-trans : {s t u : Socket} → Settles s t → Settles t u → Settles s u
Settles-trans p q = record {
  buffer_same = q.buffer_same ∙ p.buffer_same;
  used_same = q.used_same ∙ p.used_same;
  max_same = q.max_same ∙ p.max_same;
  eof_same = q.eof_same ∙ p.eof_same;
  accepted_same = q.accepted_same ∙ p.accepted_same;
  delivered_same = q.delivered_same ∙ p.delivered_same;
  bounded = λ b. q.bounded (p.bounded b);
}

end-Settles : (s : Socket) → Settles s (emit (publishes end_event) (record s { stopped = true }))
end-Settles s = record {
  buffer_same = refl;
  used_same = refl;
  max_same = refl;
  eof_same = refl;
  accepted_same = rw (accepted-emit s.trace (publishes end_event)) (append-nil _);
  delivered_same = rw (delivered-emit s.trace (publishes end_event)) (append-nil _);
  bounded = λ b. b;
}

resume-Settles :
    (s : Socket)
    → s.buffer_used < s.buffer_max_length
    → Settles s (emit (calls read) (record s { paused = false }))
resume-Settles s h = record {
  buffer_same = refl;
  used_same = refl;
  max_same = refl;
  eof_same = refl;
  accepted_same = (emit-SameData s.trace (calls read) (calls-IsSilent read)).accepted_same;
  delivered_same = (emit-SameData s.trace (calls read) (calls-IsSilent read)).delivered_same;
  bounded = λ b p. h;
}

pub settle-Settles : (at_end : List Call) (s : Socket) → Settles s (settle at_end s)
unfolding settle
settle-Settles at_end s = elim (Bool-cases (s.eof && s.buffer_used == 0)) [
  | inl done ↦ simp done (Settles-trans (end-Settles s) (Same-Settles (respond-Same at_end _)))
  | inr going ↦ elim (Bool-cases (s.paused && ltb s.buffer_used s.buffer_max_length)) [
    | inl resumed ↦ simp (going, resumed) (resume-Settles s (ground (arith, resumed)))
    | inr idle ↦ simp (going, idle) (Same-Settles (Same-refl s))
  ]
]

-- The socket after a turn.
pub record Serves (s t : Socket) : Type 0 where
  pub valid : IsValid t
  pub used_le : t.buffer_used ≤ s.buffer_used
  pub max_same : t.buffer_max_length ≡ s.buffer_max_length
  pub eof_same : t.eof ≡ s.eof
  pub accepted_same : accepted t.trace ≡ accepted s.trace
  pub bounded : IsBounded s → IsBounded t

Serves-refl : (s : Socket) → IsValid s → Serves s s
Serves-refl s v = record {
  valid = v;
  used_le = omega arith;
  max_same = refl;
  eof_same = refl;
  accepted_same = refl;
  bounded = λ b. b;
}

Serves-trans : {s t u : Socket} → Serves s t → Serves t u → Serves s u
Serves-trans p q = record {
  valid = q.valid;
  used_le = omega (arith, p.used_le, q.used_le);
  max_same = q.max_same ∙ p.max_same;
  eof_same = q.eof_same ∙ p.eof_same;
  accepted_same = q.accepted_same ∙ p.accepted_same;
  bounded = λ b. q.bounded (p.bounded b);
}

-- The state in which `transfer` publishes `bytes`.
abbrev pub published : Socket → ℕ → List ℕ → List DataChunk → Socket
published s n bytes rest =
    emit (publishes (data_event bytes))
      (record s { buffer = rest; buffer_used = s.buffer_used - n })

published-Serves :
    (s : Socket) (n : ℕ) (bytes : List ℕ) (rest : List DataChunk)
    → IsValid s
    → Pops n s.buffer bytes rest
    → Serves s (published s n bytes rest)
published-Serves s n bytes rest v p = record {
  valid = record {
    in_range = p.in_range;
    used = omega (arith, v.used, ap length p.left, length-drop n (contents s.buffer));
    conserved =
        rw
          (
            accepted-emit s.trace (publishes (data_event bytes)),
            delivered-emit s.trace (publishes (data_event bytes)),
            append-nil,
            append_assoc,
            v.conserved,
          )
          (ap (◌++◌ (delivered s.trace)) (sym whole));
  };
  used_le = omega arith;
  max_same = refl;
  eof_same = refl;
  accepted_same = rw (accepted-emit s.trace (publishes (data_event bytes))) (append-nil _);
  bounded = λ b h. omega (arith, b h);
}
  where
    whole : bytes ++ contents rest ≡ contents s.buffer
    whole = rw (p.prefix, p.left) (take-append-drop n (contents s.buffer))

Settles-Serves : {s t u : Socket} → Serves s t → Settles t u → Serves s u
Settles-Serves {s} {t} {u} p q = record {
  valid = record {
    in_range = subst (All InRange) (sym q.buffer_same) p.valid.in_range;
    used = ground (arith, q, p.valid.used);
    conserved = rw (q.accepted_same, q.delivered_same, q.buffer_same) p.valid.conserved;
  };
  used_le = omega (arith, p.used_le, q.used_same);
  max_same = q.max_same ∙ p.max_same;
  eof_same = q.eof_same ∙ p.eof_same;
  accepted_same = q.accepted_same ∙ p.accepted_same;
  bounded = λ b. q.bounded (p.bounded b);
}

transfer-Serves :
    (n : ℕ) (at_data at_end : List Call) (s : Socket)
    → IsValid s
    → 0 < n
    → n ≤ s.buffer_used
    → (t : Socket) × (transfer n at_data at_end s ≡ some t) × Serves s t
unfolding transfer
transfer-Serves n at_data at_end s v h k = elim (Bool-cases (s.stopped || n == 0)) [
  | inl idle ↦ (s, simp idle, Serves-refl s v)
  | inr going ↦
      let (bytes, rest, p) =
        pop_buffer-Pops (min n s.buffer_used) s.buffer v.in_range (omega arith)
          (omega (arith, v.used)) in
      (
        settle at_end (respond at_data (published s (min n s.buffer_used) bytes rest)),
        simp (going, p.popped),
        Settles-Serves (published-Serves s _ bytes rest v p)
            (Settles-trans (Same-Settles (respond-Same at_data _)) (settle-Settles at_end _)),
      )
]

-- A turn of the controller at a valid socket never reads the front of an empty queue.
pub serve-Serves :
    (t : Turn) (s : Socket) → IsValid s → (u : Socket) × (serve t s ≡ some u) × Serves s u
unfolding serve
serve-Serves t s v = elim (Bool-cases (min s.buffer_used t.chunk == 0)) [
  | inl idle ↦ (s, simp idle, Serves-refl s v)
  | inr going ↦
      let (u, e, k) =
        transfer-Serves (min s.buffer_used t.chunk) t.at_data t.at_end s v (ground (arith, going))
          (omega arith) in
      (u, simp (going, e), k)
]

pub serve_all-Serves :
    (ts : List Turn) (s : Socket)
    → IsValid s
    → (u : Socket) × (serve_all ts s ≡ some u) × Serves s u
unfolding serve_all
serve_all-Serves [] s v = (s, refl, Serves-refl s v)
serve_all-Serves (t ∷ ts) s v =
    let (u, e, k) = serve-Serves t s v in
    let (w, f, l) = serve_all-Serves ts u k.valid in (w, simp (e, f), Serves-trans k l)
