-- ===== src/TcpSimple/Close.antt =====
-- How often the plain socket closes its handle.
use ecwid_console_downloader.Base.{
  ℕ, ◌+◌, ◌≡◌, refl, List, [], ◌∷◌, ◌++◌, if◌then◌else◌, inl, inr, Bool-cases, arith,
}
use ecwid_console_downloader.Socket.{
  Event, Call, connect, connect6, read, stop, shutdown, close, clear, write, Effect, publishes,
  calls,
}
use ecwid_console_downloader.TcpSimple.{
  TcpSimple, kind, emit, spend, create, close_socket, perform, bind_again, on_event, receive, Acts,
  done, call, event, run,
}

pub close_weight : Effect → ℕ
close_weight (calls close) = 1
close_weight _ = 0

-- The calls of `close` of the handle.
pub closes : List Effect → ℕ
closes [] = 0
closes (x ∷ t) = close_weight x + closes t

-- The handle has been closed once when the socket is closed, and not before.
record IsOnce (s : TcpSimple) : Type 0 where
  count : closes s.trace ≡ (if s.closed then 1 else 0)

closes-append : (t u : List Effect) → closes (t ++ u) ≡ closes t + closes u
unfolding closes
closes-append [] u = omega arith
closes-append (x ∷ t) u = let rest = closes-append t u in omega arith

emit-IsOnce : (s : TcpSimple) (x : Effect) → close_weight x ≡ 0 → IsOnce s → IsOnce (emit x s)
unfolding closes
emit-IsOnce s x none_closed h =
    let more = closes-append s.trace (x ∷ []) in
    let before = h.count in record { count = omega arith }

close-IsOnce : (s : TcpSimple) → IsOnce s → IsOnce (close_socket s)
unfolding close_socket closes close_weight
close-IsOnce s h = elim (Bool-cases s.closed) [
  | inl shut ↦ simp shut h
  | inr still ↦
      let more = closes-append s.trace (calls clear ∷ calls close ∷ []) in
      let before = h.count in
      let nothing = rw still at before in simp still (record { count = omega arith })
]

perform-IsOnce : (c : Call) (s : TcpSimple) → IsOnce s → IsOnce (perform c s)
unfolding perform close_weight
perform-IsOnce close s h = close-IsOnce s h
perform-IsOnce clear s h = h
perform-IsOnce (connect ip port) s h = emit-IsOnce s (calls (connect ip port)) refl h
perform-IsOnce (connect6 ip port) s h = emit-IsOnce s (calls (connect6 ip port)) refl h
perform-IsOnce read s h = emit-IsOnce s (calls read) refl h
perform-IsOnce stop s h = emit-IsOnce s (calls stop) refl h
perform-IsOnce shutdown s h = emit-IsOnce s (calls shutdown) refl h
perform-IsOnce (write bytes) s h = emit-IsOnce s (calls (write bytes)) refl h

bind_again-IsOnce : (e : Event) (s : TcpSimple) → IsOnce s → IsOnce (bind_again e s)
unfolding bind_again
bind_again-IsOnce e s h = elim (Bool-cases s.closed) [
  | inl shut ↦ simp shut h
  | inr still ↦ simp still (record { count = rw still at h.count })
]

receive-IsOnce :
    (e : Event) (reaction : TcpSimple → TcpSimple) (s : TcpSimple)
    → ((t : TcpSimple) → IsOnce t → IsOnce (reaction t))
    → IsOnce s
    → IsOnce (receive e reaction s)
unfolding receive on_event close_weight
receive-IsOnce e reaction s keeps h = elim (Bool-cases (s.handlers (kind e))) [
  | inl bound ↦
      let t : TcpSimple = record s { handlers = spend (kind e) s.handlers } in
      let spent : IsOnce t = record { count = h.count } in
      simp bound (bind_again-IsOnce e _ (keeps _ (emit-IsOnce t (publishes e) refl spent)))
  | inr ignored ↦ simp ignored h
]

run-IsOnce : (acts : Acts) (s : TcpSimple) → IsOnce s → IsOnce (run acts s)
unfolding run
run-IsOnce done s h = h
run-IsOnce (call c rest) s h = run-IsOnce rest (perform c s) (perform-IsOnce c s h)
run-IsOnce (event e inner rest) s h =
    run-IsOnce rest (receive e (run inner) s) (receive-IsOnce e (run inner) s (run-IsOnce inner) h)

create-IsOnce : IsOnce create
unfolding create closes
create-IsOnce = record { count = refl }

-- However often its owner calls `close`, also while an event is being published, the plain socket closes its
-- handle once if it is closed at the end, and not at all otherwise.
pub run-closes :
    (acts : Acts) → closes (run acts create).trace ≡ (if (run acts create).closed then 1 else 0)
run-closes acts = (run-IsOnce acts create create-IsOnce).count
