-- ===== src/Http/Headers.antt =====
-- Headers that arrive in fragments are put together.
use ecwid_console_downloader.Base.{
  ℕ, ◌≡◌, refl, sym, ap, ◌∙◌, false, List, [], ◌∷◌, ◌++◌, append_assoc, append-nil, map, All,
}
use ecwid_console_downloader.Tasks.{is_empty}
use ecwid_console_downloader.Http.{
  HttpParser, field, value, emplace, Callback, header_field, header_value, headers_complete,
  call_back, feed, on_header_field, on_header_value, on_field_in, on_value_in, flush_header,
  conclude, on_headers_complete,
}

pub feed-append : (xs ys : List Callback) (p : HttpParser) → feed (xs ++ ys) p ≡ feed ys (feed xs p)
unfolding feed
feed-append [] ys p = refl
feed-append (x ∷ xs) ys p = feed-append xs ys (call_back x p)

-- A text in fragments, of which there is one at least.
pub record Pieces : Type 0 where
  pub first : List ℕ
  pub more : List (List ℕ)

unfoldable pub join : List (List ℕ) → List ℕ
join [] = []
join (l ∷ ls) = l ++ join ls

unfoldable pub whole : Pieces → List ℕ
whole p = p.first ++ join p.more

-- A header, its name and its value in fragments.
pub record Header : Type 0 where
  pub name : Pieces
  pub text : Pieces

unfoldable pub calls_of : Header → List Callback
calls_of h =
    (header_field h.name.first ∷ map header_field h.name.more)
    ++ (header_value h.text.first ∷ map header_value h.text.more)

unfoldable pub calls_of_all : List Header → List Callback
calls_of_all [] = []
calls_of_all (h ∷ hs) = calls_of h ++ calls_of_all hs

-- The map of whole headers, in which the first of two with the same name stays.
unfoldable pub collect : List Header → List (List ℕ × List ℕ) → List (List ℕ × List ℕ)
collect [] m = m
collect (h ∷ hs) m = collect hs (emplace (whole h.name) (whole h.text) m)

-- A parser in the middle of a name, or of a value.
unfoldable pub naming : List ℕ → HttpParser → HttpParser
naming name p = record p { mode_header = field; field_header = name }

valued : List ℕ → List ℕ → HttpParser → HttpParser
valued name text p = record p { mode_header = value; field_header = name; value_header = text }

feed-fields :
    (ls : List (List ℕ)) (name : List ℕ) (p : HttpParser)
    → feed (map header_field ls) (naming name p) ≡ naming (name ++ join ls) p
unfolding feed call_back on_header_field on_field_in naming join
feed-fields [] name p = ap (λ n. naming n p) (sym (append-nil name))
feed-fields (l ∷ ls) name p =
    feed-fields ls (name ++ l) p ∙ ap (λ n. naming n p) (append_assoc name l (join ls))

feed-values :
    (ls : List (List ℕ)) (name text : List ℕ) (p : HttpParser)
    → feed (map header_value ls) (valued name text p) ≡ valued name (text ++ join ls) p
unfolding feed call_back on_header_value on_value_in valued join
feed-values [] name text p = ap (λ t. valued name t p) (sym (append-nil text))
feed-values (l ∷ ls) name text p =
    feed-values ls name (text ++ l) p ∙ ap (λ t. valued name t p) (append_assoc text l (join ls))

-- The name's fragments after the first, and the value's.
feed-rest :
    (h : Header) (p : HttpParser)
    → feed
        (map header_field h.name.more ++ (header_value h.text.first ∷ map header_value h.text.more))
        (naming h.name.first p)
      ≡ valued (whole h.name) (whole h.text) p
unfolding feed call_back on_header_value on_value_in naming valued whole
feed-rest h p =
    feed-append (map header_field h.name.more)
      (header_value h.text.first ∷ map header_value h.text.more) (naming h.name.first p)
    ∙ ap (feed (header_value h.text.first ∷ map header_value h.text.more))
        (feed-fields h.name.more h.name.first p)
    ∙ feed-values h.text.more (h.name.first ++ join h.name.more) h.text.first p

feed-first :
    (h : Header) (p : HttpParser)
    → feed (calls_of h) (naming [] p) ≡ valued (whole h.name) (whole h.text) p
unfolding feed calls_of call_back on_header_field on_field_in naming
feed-first h p = feed-rest h p

feed-next :
    (h : Header) (name text : List ℕ) (p : HttpParser)
    → feed (calls_of h) (valued name text p)
      ≡ valued (whole h.name) (whole h.text) (record p { headers = emplace name text p.headers })
unfolding feed calls_of call_back on_header_field on_field_in naming valued
feed-next h name text p =
    feed-rest h (record p { headers = emplace name text p.headers; value_header = [] })

-- The parser when all headers are in.
unfoldable pub ready : List (List ℕ × List ℕ) → HttpParser → HttpParser
ready m p = record p { mode_header = value; headers = m; field_header = []; value_header = [] }

abbrev pub IsNamed : Header → Type 0
IsNamed h = is_empty (whole h.name) ≡ false

feed-later :
    (n : ℕ) (hs : List Header) (name text : List ℕ) (p : HttpParser)
    → is_empty name ≡ false
    → All IsNamed hs
    → feed (calls_of_all hs ++ (headers_complete n ∷ [])) (valued name text p)
      ≡ conclude n (ready (collect hs (emplace name text p.headers)) p)
unfolding feed call_back on_headers_complete flush_header calls_of_all collect valued ready
feed-later n [] name text p some_name named = simp some_name
feed-later n (h ∷ hs) name text p some_name named =
    ap (λ cs. feed cs (valued name text p))
      (append_assoc (calls_of h) (calls_of_all hs) (headers_complete n ∷ []))
    ∙ feed-append (calls_of h) (calls_of_all hs ++ (headers_complete n ∷ [])) (valued name text p)
    ∙ ap (feed (calls_of_all hs ++ (headers_complete n ∷ []))) (feed-next h name text p)
    ∙ feed-later n hs (whole h.name) (whole h.text)
        (record p { headers = emplace name text p.headers }) named.0 named.1

-- All headers, from the parser that has read none of them.
pub feed-headers :
    (n : ℕ) (h : Header) (hs : List Header) (p : HttpParser)
    → All IsNamed (h ∷ hs)
    → feed (calls_of_all (h ∷ hs) ++ (headers_complete n ∷ [])) (naming [] p)
      ≡ conclude n (ready (collect (h ∷ hs) p.headers) p)
unfolding calls_of_all collect ready
feed-headers n h hs p named =
    ap (λ cs. feed cs (naming [] p))
      (append_assoc (calls_of h) (calls_of_all hs) (headers_complete n ∷ []))
    ∙ feed-append (calls_of h) (calls_of_all hs ++ (headers_complete n ∷ [])) (naming [] p)
    ∙ ap (feed (calls_of_all hs ++ (headers_complete n ∷ []))) (feed-first h p)
    ∙ feed-later n hs (whole h.name) (whole h.text) p named.0 named.1
