-- ===== src/TcpSimple/Heard/Run.antt =====
-- The plain socket publishes what is heard.
use mathlib.Core.List.{append_assoc}
use ecwid_console_downloader.Base.{
  ℕ, ◌≡◌, refl, sym, ap, ◌∙◌, true, false, not, ◌&&◌, ◌||◌, List, [], ◌∷◌, ◌++◌, ◌==◌, inl, inr,
  Bool-cases, append-nil, arith,
}
use ecwid_console_downloader.Socket.{
  Event, error_event, connect_event, write_event, shutdown_event, close_event, end_event,
  data_event, Call, connect, connect6, read, stop, shutdown, close, clear, write, publishes, calls,
}
use ecwid_console_downloader.TcpSimple.{
  TcpSimple, kind, emit, spend, create, close_socket, perform, bind_again, on_event, receive, Acts,
  done, call, event, run,
}
use ecwid_console_downloader.TcpSimple.Heard.{
  Phase, opened, closing, ended, is_closed, has, hears, after, after_call, heard, published,
  false-true, or_false, published-append, published-silent, calls-silent, publishes-shown,
  closing-silent, after-closed, heard-closed, spend-hears, once-hears,
}

record Matches (busy : List ℕ) (p : Phase) (s : TcpSimple) : Type 0 where
  closed_same : s.closed ≡ is_closed p
  bound_same : (x : Event) → s.handlers (kind x) ≡ hears busy p (kind x)

-- What a call, or a sequence of acts, does: the phase that it leads to, and what it publishes.
record Leads (busy : List ℕ) (s t : TcpSimple) (es : List Event) (q : Phase) : Type 0 where
  matches : Matches busy q t
  published_more : published t.trace ≡ published s.trace ++ es

emit-Leads :
    (busy : List ℕ) (p : Phase) (s : TcpSimple) (c : Call)
    → Matches busy p s
    → Leads busy s (emit (calls c) s) [] p
emit-Leads busy p s c h = record {
  matches = record { closed_same = h.closed_same; bound_same = h.bound_same };
  published_more =
      published-silent s.trace (calls c ∷ []) (calls-silent c)
      ∙ sym (append-nil (published s.trace));
}

stay-Leads : (busy : List ℕ) (p : Phase) (s : TcpSimple) → Matches busy p s → Leads busy s s [] p
stay-Leads busy p s h = record {
  matches = h;
  published_more = sym (append-nil (published s.trace));
}

close-Leads :
    (busy : List ℕ) (p : Phase) (s : TcpSimple)
    → Matches busy p s
    → Leads busy s (close_socket s) [] (after_call close p)
unfolding close_socket after_call hears kind
close-Leads busy opened s h = simp h.closed_same (record {
  matches = record { closed_same = refl; bound_same = λ x. or_false (kind x == 6) };
  published_more =
      published-silent s.trace (calls clear ∷ calls close ∷ []) closing-silent
      ∙ sym (append-nil (published s.trace));
})
close-Leads busy closing s h = simp h.closed_same (stay-Leads busy closing s h)
close-Leads busy ended s h = simp h.closed_same (stay-Leads busy ended s h)

perform-Leads :
    (busy : List ℕ) (p : Phase) (c : Call) (s : TcpSimple)
    → Matches busy p s
    → Leads busy s (perform c s) [] (after_call c p)
unfolding perform after_call
perform-Leads busy p close s h = close-Leads busy p s h
perform-Leads busy p clear s h = stay-Leads busy p s h
perform-Leads busy p (connect ip port) s h = emit-Leads busy p s (connect ip port) h
perform-Leads busy p (connect6 ip port) s h = emit-Leads busy p s (connect6 ip port) h
perform-Leads busy p read s h = emit-Leads busy p s read h
perform-Leads busy p stop s h = emit-Leads busy p s stop h
perform-Leads busy p shutdown s h = emit-Leads busy p s shutdown h
perform-Leads busy p (write bytes) s h = emit-Leads busy p s (write bytes) h

bind_again-Matches :
    (busy : List ℕ) (p q : Phase) (e : Event) (t : TcpSimple)
    → hears busy p (kind e) ≡ true
    → (is_closed p ≡ true → is_closed q ≡ true)
    → Matches (kind e ∷ busy) q t
    → Matches busy q (bind_again e t)
unfolding bind_again hears
bind_again-Matches busy opened opened e t heard_here stays h = simp h.closed_same (record {
  closed_same = refl;
  bound_same = λ x.
      ap (◌||◌ (kind x == kind e)) (h.bound_same x) ∙ once-hears busy (kind e) heard_here (kind x);
})
bind_again-Matches busy p closing e t heard_here stays h =
    simp h.closed_same (record { closed_same = h.closed_same; bound_same = h.bound_same })
bind_again-Matches busy p ended e t heard_here stays h =
    simp h.closed_same (record { closed_same = h.closed_same; bound_same = h.bound_same })
bind_again-Matches busy closing opened e t heard_here stays h = absurd (false-true (stays refl))
bind_again-Matches busy ended opened e t heard_here stays h = absurd (false-true (stays refl))

bind_again-trace : (e : Event) (t : TcpSimple) → (bind_again e t).trace ≡ t.trace
unfolding bind_again
bind_again-trace e t = ground arith

Leads-trans :
    (busy : List ℕ) (s t u : TcpSimple) (es fs : List Event) (p q : Phase)
    → Leads busy s t es p
    → Leads busy t u fs q
    → Leads busy s u (es ++ fs) q
Leads-trans busy s t u es fs p q h k = record {
  matches = k.matches;
  published_more =
      k.published_more
      ∙ ap (λ x. x ++ fs) h.published_more
      ∙ append_assoc (published s.trace) es fs;
}

spent-Matches :
    (busy : List ℕ) (p : Phase) (e : Event) (s : TcpSimple)
    → hears busy p (kind e) ≡ true
    → Matches busy p s
    → Matches
        (kind e ∷ busy)
        (after p)
        (emit (publishes e) (record s { handlers = spend (kind e) s.handlers }))
spent-Matches busy p e s here h = record {
  closed_same = h.closed_same ∙ sym (after-closed p);
  bound_same = λ x.
      ap (◌&&◌ (not (kind x == kind e))) (h.bound_same x)
      ∙ spend-hears busy p (kind e) here (kind x);
}

-- An event that is heard is published, then comes what its subscriber does.
receive-Leads :
    (busy : List ℕ) (p : Phase) (e : Event) (reaction : TcpSimple → TcpSimple) (es : List Event)
    (q : Phase) (s : TcpSimple)
    → hears busy p (kind e) ≡ true
    → (is_closed p ≡ true → is_closed q ≡ true)
    → ((t : TcpSimple)
        → Matches (kind e ∷ busy) (after p) t
        → Leads (kind e ∷ busy) t (reaction t) es q)
    → Matches busy p s
    → Leads busy s (receive e reaction s) (e ∷ es) q
unfolding receive on_event
receive-Leads busy p e reaction es q s here stays reacts h =
    let s' : TcpSimple = emit (publishes e) (record s { handlers = spend (kind e) s.handlers }) in
    let r = reacts s' (spent-Matches busy p e s here h) in
    simp (h.bound_same e, here)
      (record {
        matches = bind_again-Matches busy p q e (reaction s') here stays r.matches;
        published_more =
            ap published (bind_again-trace e (reaction s'))
            ∙ r.published_more
            ∙ ap (λ x. x ++ es)
                (published-append s.trace (publishes e ∷ [])
                  ∙ ap (◌++◌ (published s.trace)) (publishes-shown e))
            ∙ append_assoc (published s.trace) (e ∷ []) es;
      })

receive-ignored :
    (e : Event) (reaction : TcpSimple → TcpSimple) (s : TcpSimple)
    → s.handlers (kind e) ≡ false
    → receive e reaction s ≡ s
unfolding receive
receive-ignored e reaction s h = simp h refl

run-Leads :
    (busy : List ℕ) (p : Phase) (acts : Acts) (s : TcpSimple)
    → Matches busy p s
    → Leads busy s (run acts s) ((heard busy p acts).0) ((heard busy p acts).1)
unfolding run heard
run-Leads busy p done s h = stay-Leads busy p s h
run-Leads busy p (call c rest) s h =
    let first = perform-Leads busy p c s h in
    Leads-trans busy s (perform c s) _ [] _ (after_call c p) _ first
      (run-Leads busy (after_call c p) rest (perform c s) first.matches)
run-Leads busy p (event e inner rest) s h = elim (Bool-cases (hears busy p (kind e))) [
  | inl here ↦
      let within = heard (kind e ∷ busy) (after p) inner in
      let stays : is_closed p ≡ true → is_closed within.1 ≡ true =
        λ c. heard-closed (kind e ∷ busy) (after p) inner (after-closed p ∙ c) in
      let first =
        receive-Leads busy p e (run inner) within.0 within.1 s here stays
          (run-Leads (kind e ∷ busy) (after p) inner) h in
      simp here (
        Leads-trans busy s (receive e (run inner) s) _ (e ∷ within.0) _ within.1 _ first
          (run-Leads busy within.1 rest (receive e (run inner) s) first.matches))
  | inr ignored ↦
      simp (ignored, receive-ignored e (run inner) s (h.bound_same e ∙ ignored))
        (run-Leads busy p rest s h)
]

create-open : create.closed ≡ false
unfolding create
create-open = refl

create-hears : (x : Event) → create.handlers (kind x) ≡ hears [] opened (kind x)
unfolding create hears has kind
create-hears (error_event code) = refl
create-hears connect_event = refl
create-hears write_event = refl
create-hears shutdown_event = refl
create-hears close_event = refl
create-hears end_event = refl
create-hears (data_event bytes) = refl

create-Matches : Matches [] opened create
create-Matches = record { closed_same = create-open; bound_same = create-hears }

-- Whatever is called and whatever the handle publishes, one within the other, the plain socket publishes
-- every event up to `close`, except those of a kind that is being published, and after `close` the first
-- `CloseEvent` alone.
pub run-publishes_heard :
    (acts : Acts) → published (run acts create).trace ≡ (heard [] opened acts).0
unfolding create published
run-publishes_heard acts = (run-Leads [] opened acts create create-Matches).published_more
