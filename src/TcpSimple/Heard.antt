-- ===== src/TcpSimple/Heard.antt =====
-- The events that the plain socket publishes, described without its handlers.
pub mod Run
use mathlib.Core.List.{append_assoc}
use ecwid_console_downloader.Base.{
  ℕ, ◌≡◌, refl, sym, ap, ◌∙◌, Bool, true, false, not, ◌&&◌, ◌||◌, List, [], ◌∷◌, ◌++◌, ◌==◌,
  if◌then◌else◌, inl, inr, Bool-cases, ==→eq, append-nil, arith,
}
use ecwid_console_downloader.Socket.{
  Event, error_event, connect_event, write_event, shutdown_event, close_event, end_event,
  data_event, Call, connect, connect6, read, stop, shutdown, close, clear, write, Effect, publishes,
  calls,
}
use ecwid_console_downloader.TcpSimple.{
  TcpSimple, kind, emit, once, spend, create, close_socket, perform, bind_again, on_event, receive,
  Acts, done, call, event, run,
}

-- Not closed, closed with the `CloseEvent` still to come, or closed and done.
pub data Phase : Type 0 where
  opened closing ended : Phase

abbrev pub is_closed : Phase → Bool
is_closed opened = false
is_closed closing = true
is_closed ended = true

unfoldable pub has : ℕ → List ℕ → Bool
has k [] = false
has k (j ∷ js) = (k == j) || has k js

-- An event is heard while the socket is open, unless one of its kind is being published; after `close` it is
-- the first `CloseEvent` only.
unfoldable pub hears : List ℕ → Phase → ℕ → Bool
hears busy opened k = not (k == 6) && not (has k busy)
hears busy closing k = k == 6
hears busy ended k = false

unfoldable pub after : Phase → Phase
after opened = opened
after closing = ended
after ended = ended

unfoldable pub after_call : Call → Phase → Phase
after_call close opened = closing
after_call _ p = p

-- The events that are heard, and the phase at the end; `busy` has the kinds that are being published.
unfoldable pub heard : List ℕ → Phase → Acts → List Event × Phase
heard busy p done = ([], p)
heard busy p (call c rest) = heard busy (after_call c p) rest
heard busy p (event e inner rest) =
    let within = heard (kind e ∷ busy) (after p) inner in
    let later = heard busy within.1 rest in
    let otherwise = heard busy p rest in
    if hears busy p (kind e) then (e ∷ (within.0 ++ later.0), later.1) else otherwise

pub shown : Effect → List Event
shown (publishes e) = e ∷ []
shown _ = []

pub published : List Effect → List Event
published [] = []
published (x ∷ t) = shown x ++ published t

pub false-true : ¬ (false ≡ true)
false-true e = cc

pub or_false : (b : Bool) → (b || false) ≡ b
or_false true = refl
or_false false = refl

not-or : (a b c : Bool) → (not a && (b && not c)) ≡ (b && not (a || c))
not-or true true c = refl
not-or true false c = refl
not-or false b c = refl

pub published-append : (t u : List Effect) → published (t ++ u) ≡ published t ++ published u
unfolding published
published-append [] u = refl
published-append (x ∷ t) u =
    ap (◌++◌ (shown x)) (published-append t u)
    ∙ sym (append_assoc (shown x) (published t) (published u))

pub published-silent : (t u : List Effect) → published u ≡ [] → published (t ++ u) ≡ published t
published-silent t u h = published-append t u ∙ ap (◌++◌ (published t)) h ∙ append-nil (published t)

pub calls-silent : (c : Call) → published (calls c ∷ []) ≡ []
unfolding published shown
calls-silent c = refl

pub publishes-shown : (e : Event) → published (publishes e ∷ []) ≡ e ∷ []
unfolding published shown
publishes-shown e = refl

pub closing-silent : published (calls clear ∷ calls close ∷ []) ≡ []
unfolding published shown
closing-silent = refl

-- A socket that is closed stays closed.
after_call-closed : (c : Call) (p : Phase) → is_closed p ≡ true → is_closed (after_call c p) ≡ true
unfolding after_call
after_call-closed close closing h = refl
after_call-closed close ended h = refl
after_call-closed close opened h = refl
after_call-closed (connect ip port) p h = h
after_call-closed (connect6 ip port) p h = h
after_call-closed read p h = h
after_call-closed stop p h = h
after_call-closed shutdown p h = h
after_call-closed clear p h = h
after_call-closed (write bytes) p h = h

pub after-closed : (p : Phase) → is_closed (after p) ≡ is_closed p
unfolding after
after-closed opened = refl
after-closed closing = refl
after-closed ended = refl

pub heard-closed :
    (busy : List ℕ) (p : Phase) (acts : Acts)
    → is_closed p ≡ true
    → is_closed ((heard busy p acts).1) ≡ true
unfolding heard
heard-closed busy p done h = h
heard-closed busy p (call c rest) h =
    heard-closed busy (after_call c p) rest (after_call-closed c p h)
heard-closed busy p (event e inner rest) h = elim (Bool-cases (hears busy p (kind e))) [
  | inl here ↦
      let within = heard-closed (kind e ∷ busy) (after p) inner (after-closed p ∙ h) in
      simp here (heard-closed busy ((heard (kind e ∷ busy) (after p) inner).1) rest within)
  | inr not_heard ↦ simp not_heard (heard-closed busy p rest h)
]

-- A handler that is called goes.
pub spend-hears :
    (busy : List ℕ) (p : Phase) (k : ℕ)
    → hears busy p k ≡ true
    → (j : ℕ) → not (j == k) && hears busy p j ≡ hears (k ∷ busy) (after p) j
unfolding hears has after
spend-hears busy opened k h j = not-or (j == k) (not (j == 6)) (has j busy)
spend-hears busy closing k h j = ground arith
spend-hears busy ended k h j = cc

pub once-hears :
    (busy : List ℕ) (k : ℕ)
    → hears busy opened k ≡ true
    → (j : ℕ) → ((j == k) || hears (k ∷ busy) opened j) ≡ hears busy opened j
unfolding hears has
once-hears busy k h j = elim (Bool-cases (j == k)) [
  | inl same ↦ rw (same, ==→eq j k same, h) refl
  | inr other ↦ rw other refl
]
