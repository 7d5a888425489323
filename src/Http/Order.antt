-- ===== src/Http/Order.antt =====
-- The callbacks of http_parser in the order of a message, and what `HttpParser` is between them: a
-- redirection is told before any of the body is handed on.
use ecwid_console_downloader.Base.{
  ℕ, ◌≡◌, refl, sym, ◌∙◌, Bool, true, false, Option, none, some, List, [], ◌∷◌, codes, arith,
  if_both, ◌≢◌, ◌||◌, ◌==◌,
}
use ecwid_console_downloader.Http.{
  HttpParser, ModeHeader, field, value, ResponseState, done, error, redirect, Callback, status,
  header_field, header_value, headers_complete, body, message_complete, Errno, ok,
  paused_by_callback, failed, stop, on_status, on_field_in, on_header_field, on_value_in,
  on_header_value, flush_header, redirect_by, conclude, on_headers_complete, on_body,
  on_message_complete, call_back, create, response_parse, feed, check_errno, find,
}
use ecwid_console_downloader.Http.Body.{flush_header-handed}

-- The order of the callbacks: from before the end of the headers, or after it, to before it or after it. The
-- trailer of a chunked body has headers too.
pub data InOrder : Bool → List Callback → Bool → Type 0 where
  nothing : {a : Bool} → InOrder a [] a
  begins :
      (code : ℕ) (text : List ℕ) {cs : List Callback} {b : Bool}
      → InOrder false cs b
      → InOrder false (status code text ∷ cs) b
  names :
      (text : List ℕ) {a b : Bool} {cs : List Callback}
      → InOrder a cs b
      → InOrder a (header_field text ∷ cs) b
  assigns :
      (text : List ℕ) {a b : Bool} {cs : List Callback}
      → InOrder a cs b
      → InOrder a (header_value text ∷ cs) b
  heads :
      (n : ℕ) {cs : List Callback} {b : Bool}
      → InOrder true cs b
      → InOrder false (headers_complete n ∷ cs) b
  hands :
      (bytes : List ℕ) {cs : List Callback} {b : Bool}
      → InOrder true cs b
      → InOrder true (body bytes ∷ cs) b
  completes :
      {cs : List Callback} {b : Bool} → InOrder true cs b → InOrder true (message_complete ∷ cs) b

-- No callback is made to a parser that is paused.
unfoldable pub Heeds : HttpParser → List Callback → Type 0
Heeds p [] = Unit
Heeds p (c ∷ cs) = (p.paused ≡ false) × Heeds (call_back c p) cs

-- Nothing is handed on before the end of the headers, nor by a parser that tells a redirection, which is paused.
pub record IsHeading (complete : Bool) (p : HttpParser) : Type 0 where
  pub unhanded : complete ≡ false → p.handed ≡ []
  pub away : p.result.state ≡ redirect → (p.paused ≡ true) × (p.handed ≡ [])

-- A parser that is not paused tells no redirection.
stays-IsHeading :
    (complete : Bool) (p q : HttpParser)
    → p.paused ≡ false
    → IsHeading complete p
    → q.handed ≡ p.handed
    → q.result.state ≡ p.result.state
    → IsHeading complete q
stays-IsHeading complete p q u h e s = record {
  unhanded = λ c. e ∙ h.unhanded c;
  away = λ r. let a = h.away (sym s ∙ r) in absurd (ground (arith, a.0));
}

-- Nor does one that has been stopped for something else.
stops-IsHeading :
    (complete : Bool) (state : ResponseState) (p q : HttpParser)
    → state ≢ redirect
    → IsHeading complete p
    → q.handed ≡ p.handed
    → q.result.state ≡ state
    → IsHeading complete q
stops-IsHeading complete state p q n h e s = record {
  unhanded = λ c. e ∙ h.unhanded c;
  away = λ r. absurd (n (sym s ∙ r));
}

on_status-IsHeading :
    (code : ℕ) (text : List ℕ) (p : HttpParser)
    → p.paused ≡ false
    → IsHeading false p
    → IsHeading false (on_status code text p)
unfolding on_status stop
on_status-IsHeading code text p u h =
    if_both (IsHeading false) (code == 200 || (code == 202 || code == 203)) _ _ (λ c. h)
      (λ c.
        if_both (IsHeading false) (code == 301 || (code == 302 || code == 303)) _ _
          (λ r. stays-IsHeading false p _ u h refl refl)
          (λ r. stops-IsHeading false error p _ (λ x. cc) h refl refl))

field-IsHeading :
    (complete : Bool) (mode : ModeHeader) (text : List ℕ) (p : HttpParser)
    → p.paused ≡ false
    → IsHeading complete p
    → IsHeading complete (on_field_in mode text p)
unfolding on_field_in
field-IsHeading complete field text p u h = stays-IsHeading complete p _ u h refl refl
field-IsHeading complete value text p u h = stays-IsHeading complete p _ u h refl refl

value-IsHeading :
    (complete : Bool) (mode : ModeHeader) (text : List ℕ) (p : HttpParser)
    → p.paused ≡ false
    → IsHeading complete p
    → IsHeading complete (on_value_in mode text p)
unfolding on_value_in
value-IsHeading complete field text p u h = stays-IsHeading complete p _ u h refl refl
value-IsHeading complete value text p u h = stays-IsHeading complete p _ u h refl refl

-- Once the headers are complete a redirection stops the parser.
headed-IsHeading :
    (p q : HttpParser)
    → p.paused ≡ false
    → IsHeading false p
    → q.handed ≡ p.handed
    → q.result.state ≡ p.result.state
    → IsHeading true q
headed-IsHeading p q u h e s = record {
  unhanded = λ c. absurd (ground (arith, c));
  away = (stays-IsHeading false p q u h e s).away;
}

redirect-IsHeading :
    (o : Option (List ℕ)) (p : HttpParser) → p.handed ≡ [] → IsHeading true (redirect_by o p)
unfolding redirect_by stop
redirect-IsHeading none p e = record { unhanded = λ c. e; away = λ r. cc }
redirect-IsHeading (some uri) p e = record { unhanded = λ c. e; away = λ r. (refl, e) }

conclude-IsHeading :
    (n : ℕ) (p q : HttpParser)
    → p.paused ≡ false
    → IsHeading false p
    → q.handed ≡ p.handed
    → q.result.state ≡ p.result.state
    → IsHeading true (conclude n q)
unfolding conclude
conclude-IsHeading n p q u h e s =
    if_both (IsHeading true) q.is_redirect _ _
      (λ r. redirect-IsHeading (find (codes "Location") q.headers) q (e ∙ h.unhanded refl))
      (λ r. headed-IsHeading p _ u h e s)

flush_header-state : (p : HttpParser) → (flush_header p).result.state ≡ p.result.state
unfolding flush_header
flush_header-state p = ground arith

feed-IsHeading :
    {a b : Bool} {cs : List Callback}
    → InOrder a cs b
    → (p : HttpParser) → Heeds p cs
    → IsHeading a p
    → IsHeading b (feed cs p)
unfolding feed Heeds call_back on_header_field on_header_value on_headers_complete on_body
    on_message_complete stop
feed-IsHeading nothing p k h = h
feed-IsHeading (begins code text o) p k h =
    feed-IsHeading o _ k.1 (on_status-IsHeading code text p k.0 h)
feed-IsHeading (names text {a = a} o) p k h =
    feed-IsHeading o _ k.1 (field-IsHeading a p.mode_header text p k.0 h)
feed-IsHeading (assigns text {a = a} o) p k h =
    feed-IsHeading o _ k.1 (value-IsHeading a p.mode_header text p k.0 h)
feed-IsHeading (heads n o) p k h =
    feed-IsHeading o _ k.1
      (conclude-IsHeading n p (flush_header p) k.0 h (flush_header-handed p) (flush_header-state p))
feed-IsHeading (hands bytes o) p k h = feed-IsHeading o _ k.1 (record {
  unhanded = λ c. absurd (ground (arith, c));
  away = λ r. let a = h.away r in absurd (ground (arith, k.0, a.0));
})
feed-IsHeading (completes o) p k h =
    feed-IsHeading o _ k.1 (stops-IsHeading true done p _ (λ x. cc) h refl refl)

check_errno-IsHeading :
    (description : ℕ → List ℕ) (complete : Bool) (e : Errno) (p : HttpParser)
    → IsHeading complete p
    → IsHeading complete (check_errno description e p)
unfolding check_errno
check_errno-IsHeading description complete ok p h = h
check_errno-IsHeading description complete paused_by_callback p h = h
check_errno-IsHeading description complete (failed code) p h =
    stops-IsHeading complete error p _ (λ x. cc) h refl refl

-- The last parser of a `response_parse`, and what of it is known: `Linked` relates an `http_parser` to the
-- `HttpParser` that it calls back, and `complete` says whether the headers are complete.
pub record IsInOrder {P : Type 0} (execute : P → List ℕ → P × List Callback × Errno)
    (description : ℕ → List ℕ) (initial : P) (Linked : P → HttpParser → Type 0)
    (complete : P → Bool) : Type 0 where
  pub starts : Linked initial create
  pub keeps :
      (bytes : List ℕ) (inner : P) (p : HttpParser)
      → Linked inner p
      → Linked (execute inner bytes).0 (response_parse execute description bytes (inner, p)).1
  pub orders :
      (bytes : List ℕ) (inner : P) (p : HttpParser)
      → Linked inner p
      → InOrder (complete inner) (execute inner bytes).1 (complete (execute inner bytes).0)
  pub heeds :
      (bytes : List ℕ) (inner : P) (p : HttpParser)
      → Linked inner p
      → Heeds p (execute inner bytes).1

pub response_parse-IsHeading :
    {P : Type 0} (execute : P → List ℕ → P × List Callback × Errno) (description : ℕ → List ℕ)
    (bytes : List ℕ) (inner : P) (p : HttpParser) (a b : Bool)
    → InOrder a (execute inner bytes).1 b
    → Heeds p (execute inner bytes).1
    → IsHeading a p
    → IsHeading b (response_parse execute description bytes (inner, p)).1
unfolding response_parse
response_parse-IsHeading execute description bytes inner p a b o k h =
    check_errno-IsHeading description b _ _ (feed-IsHeading o p k h)

pub create-IsHeading : (a : Bool) → IsHeading a create
unfolding create
create-IsHeading a = record { unhanded = λ c. refl; away = λ r. cc }
