-- ===== src/Socket/Held.antt =====
-- `paused` and the inner socket: the calls of `read` and `stop` that the socket makes on it.
use ecwid_console_downloader.Base.{
  ℕ, ◌-◌, min, subst, ◌||◌, ◌>>=◌, Bool, true, false, ◌≡◌, refl, ◌∙◌, ap, some, Option, none, List,
  [], ◌∷◌, ◌++◌, arith, Bool-cases, ◌&&◌, ◌==◌, ltb, leb, inl, inr,
}
use ecwid_console_downloader.Socket.{
  Socket, Effect, Call, Event, Turn, Act, DataChunk, calls, read, stop, connect, connect6, clear,
  close, shutdown, write, accepts, publishes, schedules, event, turn, call, emit, perform, respond,
  read_socket, stop_socket, close_socket, settle, transfer, serve, serve_all, store, push_chunk,
  rebind_read, on_data, on_event, handle, step, run, create, pop_buffer, is_bound, data_event,
  end_event, close_event, error_event, connect_event, write_event, shutdown_event, available,
  set_buffer, unbind,
}

-- Whether an effect leaves the inner socket stopped.
held_by : Effect → Bool → Bool
held_by (calls read) b = false
held_by (calls stop) b = true
held_by _ b = b

held_after : List Effect → Bool → Bool
held_after [] b = b
held_after (e ∷ es) b = held_after es (held_by e b)

-- Whether the last of the calls of `read` and `stop` on the inner socket is `stop`.
pub held : List Effect → Bool
unfolding held_after
held es = held_after es false

held_after-append :
    (es fs : List Effect) (b : Bool) → held_after (es ++ fs) b ≡ held_after fs (held_after es b)
unfolding held_after
held_after-append [] fs b = refl
held_after-append (e ∷ es) fs b = held_after-append es fs (held_by e b)

held-emit : (es : List Effect) (e : Effect) → held (es ++ (e ∷ [])) ≡ held_by e (held es)
unfolding held held_after
held-emit es e = held_after-append es (e ∷ []) false

-- A socket that has set `paused` has stopped the inner one and not started it again.
pub IsHeld : Socket → Type 0
IsHeld s = s.paused ≡ true → held s.trace ≡ true

emit-IsHeld : (e : Effect) (s : Socket) → held_by e true ≡ true → IsHeld s → IsHeld (emit e s)
unfolding IsHeld
emit-IsHeld e s h k p = held-emit s.trace e ∙ ap (held_by e) (k p) ∙ h

-- A call by the owner.
perform-IsHeld : (c : Call) (s : Socket) → IsHeld s → IsHeld (perform c s)
unfolding perform IsHeld read_socket stop_socket close_socket held held_after held_by
perform-IsHeld read s k = ground (arith, k)
perform-IsHeld stop s k = ground (arith, k, held-emit s.trace (calls stop))
perform-IsHeld close s k = elim (Bool-cases s.closed) [
  | inl gone ↦ simp gone k
  | inr still ↦ simp still (λ p. held_after-append s.trace _ false ∙ k p)
]
perform-IsHeld clear s k = k
perform-IsHeld (connect ip port) s k = emit-IsHeld (calls (connect ip port)) s refl k
perform-IsHeld (connect6 ip port) s k = emit-IsHeld (calls (connect6 ip port)) s refl k
perform-IsHeld shutdown s k = emit-IsHeld (calls shutdown) s refl k
perform-IsHeld (write bytes) s k = emit-IsHeld (calls (write bytes)) s refl k

respond-IsHeld : (cs : List Call) (s : Socket) → IsHeld s → IsHeld (respond cs s)
unfolding respond
respond-IsHeld [] s k = k
respond-IsHeld (c ∷ cs) s k = respond-IsHeld cs (perform c s) (perform-IsHeld c s k)

settle-IsHeld : (at_end : List Call) (s : Socket) → IsHeld s → IsHeld (settle at_end s)
unfolding settle IsHeld held_by
settle-IsHeld at_end s k = elim (Bool-cases (s.eof && s.buffer_used == 0)) [
  | inl over ↦ simp over (
      respond-IsHeld at_end _
        (emit-IsHeld (publishes end_event) (record s { stopped = true }) refl k))
  | inr more ↦ simp more (elim (Bool-cases (s.paused && ltb s.buffer_used s.buffer_max_length)) [
    | inl room ↦ simp room (λ p. cc)
    | inr full ↦ simp full k
  ])
]

-- What holds of the result, when there is one.
abbrev After : Option Socket → Type 0
After none = Unit
After (some t) = IsHeld t

After-bind :
    {A : Type 0} (o : Option A) (f : A → Option Socket) → ((a : A) → After (f a)) → After (o >>= f)
After-bind none f h = tt
After-bind (some a) f h = h a

After-chain :
    (o : Option Socket) (f : Socket → Option Socket)
    → After o
    → ((t : Socket) → IsHeld t → After (f t))
    → After (o >>= f)
After-chain none f k h = tt
After-chain (some t) f k h = h t k

transfer-IsHeld :
    (n : ℕ) (at_data at_end : List Call) (s : Socket)
    → IsHeld s
    → After (transfer n at_data at_end s)
unfolding transfer IsHeld held_by
transfer-IsHeld n at_data at_end s k = elim (Bool-cases (s.stopped || n == 0)) [
  | inl idle ↦ simp idle k
  | inr busy ↦ simp busy (
      After-bind (pop_buffer (min n s.buffer_used) s.buffer) _
        (λ p. settle-IsHeld at_end _ (respond-IsHeld at_data _ (popped p))))
]
  where
    popped :
        (p : List ℕ × List DataChunk)
        → IsHeld (
            emit
              (publishes (data_event p.0))
              (record s { buffer = p.1; buffer_used = s.buffer_used - min n s.buffer_used }))
    popped p =
        emit-IsHeld (publishes (data_event p.0))
          (record s { buffer = p.1; buffer_used = s.buffer_used - min n s.buffer_used }) refl k

serve-IsHeld : (t : Turn) (s : Socket) → IsHeld s → After (serve t s)
unfolding serve
serve-IsHeld t s k = elim (Bool-cases (min (available s) t.chunk == 0)) [
  | inl nothing ↦ simp nothing k
  | inr some_bytes ↦
      simp some_bytes (transfer-IsHeld (min (available s) t.chunk) t.at_data t.at_end s k)
]

serve_all-IsHeld : (ts : List Turn) (s : Socket) → IsHeld s → After (serve_all ts s)
unfolding serve_all
serve_all-IsHeld [] s k = k
serve_all-IsHeld (t ∷ ts) s k =
    After-chain (serve t s) (serve_all ts) (serve-IsHeld t s k) (serve_all-IsHeld ts)

-- Data that fills the buffer stops the inner socket.
store-IsHeld : (bytes : List ℕ) (s : Socket) → IsHeld s → IsHeld (store bytes s)
unfolding store push_chunk IsHeld held_by
store-IsHeld bytes s k =
    elim (Bool-cases (leb s.buffer_max_length (push_chunk bytes s).buffer_used)) [
      | inl full ↦ simp full (λ p. held-emit (s.trace ++ (accepts bytes ∷ [])) (calls stop))
      | inr room ↦ simp room (λ p. held-emit s.trace (accepts bytes) ∙ k p)
    ]

rebind_read-IsHeld : (s : Socket) → IsHeld s → IsHeld (rebind_read s)
unfolding rebind_read IsHeld
rebind_read-IsHeld s k = elim (Bool-cases s.closed) [
  | inl gone ↦ simp gone k
  | inr still ↦ simp still k
]

on_data-IsHeld :
    (bytes : List ℕ) (turns : List Turn) (s : Socket) → IsHeld s → After (on_data bytes turns s)
unfolding on_data held_by
on_data-IsHeld bytes turns s k =
    After-chain (serve_all turns (emit schedules (store bytes s))) _
      (serve_all-IsHeld turns _
        (emit-IsHeld schedules (store bytes s) refl (store-IsHeld bytes s k)))
      rebind_read-IsHeld

on_event-IsHeld :
    (e : Event) (reaction : List Call) (s : Socket) → IsHeld s → IsHeld (on_event e reaction s)
unfolding on_event IsHeld held_by
on_event-IsHeld e reaction s k = elim (Bool-cases t.closed) [
  | inl gone ↦ simp gone held_on
  | inr still ↦ simp still held_on
]
  where
    t : Socket
    t = respond reaction (emit (publishes e) s)

    held_on : IsHeld t
    held_on = respond-IsHeld reaction _ (emit-IsHeld (publishes e) s refl k)

handle-IsHeld :
    (e : Event) (turns : List Turn) (reaction : List Call) (s : Socket)
    → IsHeld s
    → After (handle e turns reaction s)
unfolding handle IsHeld held_by
handle-IsHeld (data_event bytes) turns reaction s k = on_data-IsHeld bytes turns s k
handle-IsHeld end_event turns reaction s k = k
handle-IsHeld close_event turns reaction s k =
    respond-IsHeld reaction _ (emit-IsHeld (publishes close_event) s refl k)
handle-IsHeld (error_event code) turns reaction s k =
    on_event-IsHeld (error_event code) reaction s k
handle-IsHeld connect_event turns reaction s k = on_event-IsHeld connect_event reaction s k
handle-IsHeld write_event turns reaction s k = on_event-IsHeld write_event reaction s k
handle-IsHeld shutdown_event turns reaction s k = on_event-IsHeld shutdown_event reaction s k

step-IsHeld : (a : Act) (s : Socket) → IsHeld s → After (step a s)
unfolding step IsHeld
step-IsHeld (event e turns reaction) s k = elim (Bool-cases (is_bound e s.handlers)) [
  | inl bound ↦
      simp bound (handle-IsHeld e turns reaction (record s { handlers = unbind e s.handlers }) k)
  | inr unbound ↦ simp unbound k
]
step-IsHeld (turn t) s k = serve-IsHeld t s k
step-IsHeld (call c) s k = perform-IsHeld c s k

run-After : (acts : List Act) (s : Socket) → IsHeld s → After (run acts s)
unfolding run
run-After [] s k = k
run-After (a ∷ acts) s k = After-chain (step a s) (run acts) (step-IsHeld a s k) (run-After acts)

-- While a socket made by `create` has `paused` set, its last call on the inner one is `stop`.
pub run-IsHeld :
    (max_length : ℕ) (acts : List Act) (t : Socket)
    → run acts (create max_length) ≡ some t
    → t.paused ≡ true
    → held t.trace ≡ true
unfolding IsHeld create set_buffer
run-IsHeld max_length acts t e = subst After e (run-After acts (create max_length) (λ p. cc))
