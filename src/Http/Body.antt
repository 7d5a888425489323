-- ===== src/Http/Body.antt =====
-- What the callbacks hand on of the body.
use ecwid_console_downloader.Base.{
  codes, ℕ, ◌≡◌, refl, sym, ap, ◌∙◌, Option, none, some, List, [], ◌∷◌, ◌++◌, append-nil,
  append_assoc, length, drop, arith, Bool-cases, inl, inr,
}
use ecwid_console_downloader.Http.{
  HttpParser, ModeHeader, field, value, Callback, status, header_field, header_value,
  headers_complete, body, message_complete, Errno, ok, paused_by_callback, failed, stop, on_status,
  on_field_in, on_header_field, on_value_in, on_header_value, flush_header, redirect_by, conclude,
  on_headers_complete, on_body, on_message_complete, call_back, feed, check_errno, find,
  response_parse,
}

-- The pieces of the body, among the callbacks.
unfoldable pub piece_of : Callback → List (List ℕ)
piece_of (body bytes) = bytes ∷ []
piece_of _ = []

unfoldable pub pieces_of : List Callback → List (List ℕ)
pieces_of [] = []
pieces_of (c ∷ cs) = piece_of c ++ pieces_of cs

on_status-handed :
    (code : ℕ) (text : List ℕ) (p : HttpParser) → (on_status code text p).handed ≡ p.handed
unfolding on_status stop
on_status-handed code text p = ground arith

field-handed :
    (mode : ModeHeader) (text : List ℕ) (p : HttpParser)
    → (on_field_in mode text p).handed ≡ p.handed
unfolding on_field_in
field-handed field text p = refl
field-handed value text p = refl

value-handed :
    (mode : ModeHeader) (text : List ℕ) (p : HttpParser)
    → (on_value_in mode text p).handed ≡ p.handed
unfolding on_value_in
value-handed field text p = refl
value-handed value text p = refl

redirect-handed : (o : Option (List ℕ)) (p : HttpParser) → (redirect_by o p).handed ≡ p.handed
unfolding redirect_by stop
redirect-handed none p = refl
redirect-handed (some uri) p = refl

pub flush_header-handed : (p : HttpParser) → (flush_header p).handed ≡ p.handed
unfolding flush_header
flush_header-handed p = ground arith

conclude-handed : (n : ℕ) (p : HttpParser) → (conclude n p).handed ≡ p.handed
unfolding conclude
conclude-handed n p = elim (Bool-cases p.is_redirect) [
  | inl away ↦ simp away (redirect-handed (find (codes "Location") p.headers) p)
  | inr here ↦ simp here refl
]

headers-handed : (n : ℕ) (p : HttpParser) → (on_headers_complete n p).handed ≡ p.handed
unfolding on_headers_complete
headers-handed n p = conclude-handed n (flush_header p) ∙ flush_header-handed p

call_back-handed : (c : Callback) (p : HttpParser) → (call_back c p).handed ≡ p.handed ++ piece_of c
unfolding call_back piece_of on_header_field on_header_value on_body on_message_complete stop
call_back-handed (status code text) p = on_status-handed code text p ∙ sym (append-nil p.handed)
call_back-handed (header_field text) p =
    field-handed p.mode_header text p ∙ sym (append-nil p.handed)
call_back-handed (header_value text) p =
    value-handed p.mode_header text p ∙ sym (append-nil p.handed)
call_back-handed (headers_complete n) p = headers-handed n p ∙ sym (append-nil p.handed)
call_back-handed (body bytes) p = refl
call_back-handed message_complete p = sym (append-nil p.handed)

feed-handed : (cs : List Callback) (p : HttpParser) → (feed cs p).handed ≡ p.handed ++ pieces_of cs
unfolding feed pieces_of
feed-handed [] p = sym (append-nil p.handed)
feed-handed (c ∷ cs) p =
    feed-handed cs (call_back c p)
    ∙ ap (λ l. l ++ pieces_of cs) (call_back-handed c p)
    ∙ append_assoc p.handed (piece_of c) (pieces_of cs)

check_errno-handed :
    (description : ℕ → List ℕ) (e : Errno) (p : HttpParser)
    → (check_errno description e p).handed ≡ p.handed
unfolding check_errno
check_errno-handed description ok p = refl
check_errno-handed description paused_by_callback p = refl
check_errno-handed description (failed code) p = refl

drop-append_whole : {A : Type 0} (xs ys : List A) → drop (length xs) (xs ++ ys) ≡ ys
drop-append_whole [] ys = refl
drop-append_whole (x ∷ xs) ys = drop-append_whole xs ys

-- What was handed on, and then the pieces of the body.
pub response_parse-appends :
    {P : Type 0} (execute : P → List ℕ → P × List Callback × Errno) (description : ℕ → List ℕ)
    (bytes : List ℕ) (inner : P) (p : HttpParser)
    → (response_parse execute description bytes (inner, p)).1.handed
      ≡ p.handed ++ pieces_of (execute inner bytes).1
unfolding response_parse
response_parse-appends execute description bytes inner p =
    check_errno-handed description _ _ ∙ feed-handed _ p

-- The calls of `cb_on_data` during a `response_parse`: those of the body, among the callbacks.
pub response_parse-handed :
    {P : Type 0} (execute : P → List ℕ → P × List Callback × Errno) (description : ℕ → List ℕ)
    (bytes : List ℕ) (inner : P) (p : HttpParser)
    → drop (length p.handed) (response_parse execute description bytes (inner, p)).1.handed
      ≡ pieces_of (execute inner bytes).1
response_parse-handed execute description bytes inner p =
    ap (drop (length p.handed)) (response_parse-appends execute description bytes inner p)
    ∙ drop-append_whole p.handed (pieces_of (execute inner bytes).1)
