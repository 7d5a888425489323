-- ===== src/Socket/Same.antt =====
-- What the owner's calls leave alone: the buffer, the flow control and the data of the trace.
use ecwid_console_downloader.Base.{
  if◌then◌else◌, subst, ◌≡◌, refl, ◌∙◌, List, [], ◌∷◌, ◌++◌, append_assoc, arith,
}
use ecwid_console_downloader.Socket.{
  Socket, Handlers, Call, Effect, calls, removes_stream, connect, connect6, read, stop, shutdown,
  close, clear, write, emit, read_socket, stop_socket, close_socket, perform, respond,
}
use ecwid_console_downloader.Socket.Trace.{SameData, IsSilent, emit-SameData, SameData-trans}

pub record Same (s t : Socket) : Type 0 where
  pub buffer_same : t.buffer ≡ s.buffer
  pub used_same : t.buffer_used ≡ s.buffer_used
  pub max_same : t.buffer_max_length ≡ s.buffer_max_length
  pub paused_same : t.paused ≡ s.paused
  pub eof_same : t.eof ≡ s.eof
  pub trace_same : SameData s.trace t.trace

pub Same-trans : {s t u : Socket} → Same s t → Same t u → Same s u
Same-trans p q = record {
  buffer_same = q.buffer_same ∙ p.buffer_same;
  used_same = q.used_same ∙ p.used_same;
  max_same = q.max_same ∙ p.max_same;
  paused_same = q.paused_same ∙ p.paused_same;
  eof_same = q.eof_same ∙ p.eof_same;
  trace_same = SameData-trans p.trace_same q.trace_same;
}

pub Same-refl : (s : Socket) → Same s s
Same-refl s = record {
  buffer_same = refl;
  used_same = refl;
  max_same = refl;
  paused_same = refl;
  eof_same = refl;
  trace_same = record { accepted_same = refl; delivered_same = refl; ends_same = refl };
}

pub calls-IsSilent : (c : Call) → IsSilent (calls c)
calls-IsSilent c = record { accepts_none = refl; delivers_none = refl; ends_none = refl }

removes-IsSilent : IsSilent removes_stream
removes-IsSilent = record { accepts_none = refl; delivers_none = refl; ends_none = refl }

pub emit-Same : (s : Socket) (e : Effect) → IsSilent e → Same s (emit e s)
emit-Same s e h = record {
  buffer_same = refl;
  used_same = refl;
  max_same = refl;
  paused_same = refl;
  eof_same = refl;
  trace_same = emit-SameData s.trace e h;
}

read-Same : (s : Socket) → Same s (read_socket s)
unfolding read_socket
read-Same s = ground (arith, emit-SameData s.trace (calls read) (calls-IsSilent read))

stop-Same : (s : Socket) → Same s (stop_socket s)
unfolding stop_socket
stop-Same s = ground (arith, emit-SameData s.trace (calls stop) (calls-IsSilent stop))

closing-SameData :
    (t : List Effect) → SameData t (t ++ (removes_stream ∷ calls clear ∷ calls close ∷ []))
closing-SameData t =
    subst (SameData t)
      (append_assoc (t ++ (removes_stream ∷ [])) (calls clear ∷ []) (calls close ∷ [])
        ∙ append_assoc t (removes_stream ∷ []) (calls clear ∷ calls close ∷ []))
      (SameData-trans
        (SameData-trans (emit-SameData t removes_stream removes-IsSilent)
          (emit-SameData _ (calls clear) (calls-IsSilent clear)))
        (emit-SameData _ (calls close) (calls-IsSilent close)))

close-Same : (s : Socket) → Same s (close_socket s)
unfolding close_socket
close-Same s = ground (arith, closing-SameData s.trace)

pub perform-Same : (c : Call) (s : Socket) → Same s (perform c s)
unfolding perform
perform-Same (connect ip port) s = emit-Same s _ (calls-IsSilent (connect ip port))
perform-Same (connect6 ip port) s = emit-Same s _ (calls-IsSilent (connect6 ip port))
perform-Same read s = read-Same s
perform-Same stop s = stop-Same s
perform-Same shutdown s = emit-Same s _ (calls-IsSilent shutdown)
perform-Same close s = close-Same s
perform-Same clear s = Same-refl s
perform-Same (write bytes) s = emit-Same s _ (calls-IsSilent (write bytes))

pub respond-Same : (cs : List Call) (s : Socket) → Same s (respond cs s)
unfolding respond
respond-Same [] s = Same-refl s
respond-Same (c ∷ cs) s = Same-trans (perform-Same c s) (respond-Same cs (perform c s))

pub handlers-Same : (s : Socket) (h : Handlers) → Same s (record s { handlers = h })
handlers-Same s h = record {
  buffer_same = refl;
  used_same = refl;
  max_same = refl;
  paused_same = refl;
  eof_same = refl;
  trace_same = record { accepted_same = refl; delivered_same = refl; ends_same = refl };
}

-- A handler is bound again on an open socket only.
pub bound_again-Same :
    (s : Socket) (h : Handlers) → Same s (if s.closed then s else record s { handlers = h })
bound_again-Same s h = ground arith
