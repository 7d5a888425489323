-- ===== src/Http/Response.antt =====
-- What the parser makes of a whole response, and of a redirection.
use ecwid_console_downloader.Base.{
  ℕ, ◌≡◌, refl, sym, ap, ◌∙◌, Bool, true, false, ◌||◌, Option, none, some, List, [], ◌∷◌, ◌++◌,
  append_assoc, append-nil, map, All, codes, inl, inr, Bool-cases, ◌==◌, ==→eq, if_true,
  if◌then◌else◌, arith,
}
use ecwid_console_downloader.Http.{
  HttpParser, ResponseParseResult, emplace, find, same_text, Callback, status, headers_complete,
  body, message_complete, call_back, feed, conclude, on_status, redirect_by, create, stop, on_body,
  on_message_complete, done, redirect, error,
}
use ecwid_console_downloader.Http.Headers.{
  Header, whole, IsNamed, calls_of_all, collect, feed-append, feed-headers, naming, ready,
}

abbrev pub is_success : ℕ → Bool
is_success code = code == 200 || (code == 202 || code == 203)

abbrev pub is_moved : ℕ → Bool
is_moved code = code == 301 || (code == 302 || code == 303)

-- The value of the first header with this name.
abbrev pub first_value : List ℕ → List Header → Option (List ℕ)
first_value name [] = none
first_value name (h ∷ hs) =
    let rest = first_value name hs in
    if same_text (whole h.name) name then some (whole h.text) else rest

abbrev or_else : Option (List ℕ) → Option (List ℕ) → Option (List ℕ)
or_else none o = o
or_else (some t) o = some t

same_text→eq : (cs ds : List ℕ) → same_text cs ds ≡ true → cs ≡ ds
unfolding same_text
same_text→eq [] [] e = refl
same_text→eq [] (d ∷ ds) e = cc
same_text→eq (c ∷ cs) [] e = cc
same_text→eq (c ∷ cs) (d ∷ ds) e = elim (Bool-cases (c == d)) [
  | inl same ↦
      let rest : cs ≡ ds = same_text→eq cs ds (simp same at e) in rw (==→eq c d same, rest) refl
  | inr other ↦ let no : false ≡ true = simp other at e in cc
]

or_else-none : (o : Option (List ℕ)) → or_else o none ≡ o
or_else-none none = refl
or_else-none (some t) = refl

or_else_assoc : (o p q : Option (List ℕ)) → or_else (or_else o p) q ≡ or_else o (or_else p q)
or_else_assoc none p q = refl
or_else_assoc (some t) p q = refl

find-emplace :
    (key name text : List ℕ) (m : List (List ℕ × List ℕ))
    → find key (emplace name text m)
      ≡ or_else (find key m) (if same_text name key then some text else none)
unfolding find emplace
find-emplace key name text [] = refl
find-emplace key name text (e ∷ m) = elim (Bool-cases (same_text e.0 name)) [
  | inl same ↦ elim (Bool-cases (same_text e.0 key)) [
    | inl here ↦ simp (same, here)
    | inr away ↦
        let off : same_text name key ≡ false = rw (same_text→eq e.0 name same) at away in
        simp (same, away, off) (sym (or_else-none (find key m)))
  ]
  | inr other ↦ elim (Bool-cases (same_text e.0 key)) [
    | inl here ↦ simp (other, here)
    | inr away ↦ simp (other, away) (find-emplace key name text m)
  ]
]

first_value-cons :
    (key : List ℕ) (h : Header) (hs : List Header)
    → first_value key (h ∷ hs)
      ≡ or_else
          (if same_text (whole h.name) key then some (whole h.text) else none)
          (first_value key hs)
first_value-cons key h hs = elim (Bool-cases (same_text (whole h.name) key)) [
  | inl here ↦ simp here
  | inr away ↦ simp away
]

find-collect :
    (key : List ℕ) (hs : List Header) (m : List (List ℕ × List ℕ))
    → find key (collect hs m) ≡ or_else (find key m) (first_value key hs)
unfolding collect
find-collect key [] m = sym (or_else-none (find key m))
find-collect key (h ∷ hs) m =
    find-collect key hs (emplace (whole h.name) (whole h.text) m)
    ∙ ap (λ o. or_else o (first_value key hs)) (find-emplace key (whole h.name) (whole h.text) m)
    ∙ or_else_assoc (find key m) _ (first_value key hs)
    ∙ ap (or_else (find key m)) (sym (first_value-cons key h hs))

find-first_value : (key : List ℕ) (hs : List Header) → find key (collect hs []) ≡ first_value key hs
unfolding find
find-first_value key hs = find-collect key hs []

create-naming : naming [] create ≡ create
unfolding create naming
create-naming = refl

-- The callbacks of a response up to the end of its headers.
unfoldable pub head : ℕ → List ℕ → ℕ → List Header → List Callback
head code text n hs = status code text ∷ (calls_of_all hs ++ (headers_complete n ∷ []))

feed-head :
    (code : ℕ) (text : List ℕ) (n : ℕ) (h : Header) (hs : List Header) (p : HttpParser)
    → on_status code text create ≡ naming [] p
    → All IsNamed (h ∷ hs)
    → feed (head code text n (h ∷ hs)) create ≡ conclude n (ready (collect (h ∷ hs) p.headers) p)
unfolding head feed call_back
feed-head code text n h hs p e named =
    ap (feed (calls_of_all (h ∷ hs) ++ (headers_complete n ∷ []))) e ∙ feed-headers n h hs p named

status_success :
    (code : ℕ) (text : List ℕ)
    → is_success code ≡ true
    → on_status code text create ≡ naming [] create
unfolding on_status
status_success code text e = if_true _ e ∙ sym create-naming

-- A parser that waits for the rest of a redirection.
moving : HttpParser
moving = record create { is_redirect = true }

not_success : (code : ℕ) → is_moved code ≡ true → is_success code ≡ false
not_success code e = ground (arith, e)

status_moved :
    (code : ℕ) (text : List ℕ)
    → is_moved code ≡ true
    → on_status code text create ≡ naming [] moving
unfolding on_status moving create naming
status_moved code text e = simp (not_success code e, e)

feed-bodies :
    (bs : List (List ℕ)) (p : HttpParser)
    → feed (map body bs) p ≡ record p { handed = p.handed ++ bs }
unfolding feed call_back on_body
feed-bodies [] p = ap (λ l. record p { handed = l }) (sym (append-nil p.handed))
feed-bodies (b ∷ bs) p =
    feed-bodies bs (record p { handed = p.handed ++ (b ∷ []) })
    ∙ ap (λ l. record p { handed = l }) (append_assoc p.handed (b ∷ []) bs)

-- What the parser says of a redirection to the value of the first `Location`, or without one.
abbrev pub redirected : Option (List ℕ) → ResponseParseResult
redirected (some uri) = record {
  state = redirect;
  redirect_uri = uri;
  err_str = [];
  content_length = 0;
}
redirected none = record {
  state = error;
  redirect_uri = [];
  err_str = codes "Invalid redirect, missing Location header";
  content_length = 0;
}

redirect_by-redirected :
    (o : Option (List ℕ)) (m : List (List ℕ × List ℕ))
    → (redirect_by o (ready m moving)).result ≡ redirected o
unfolding redirect_by stop ready moving create
redirect_by-redirected none m = refl
redirect_by-redirected (some uri) m = refl

conclude_moved :
    (n : ℕ) (m : List (List ℕ × List ℕ))
    → conclude n (ready m moving) ≡ redirect_by (find (codes "Location") m) (ready m moving)
unfolding conclude ready moving
conclude_moved n m = refl

-- For a status 301, 302 or 303 and any headers, at least one and none with an empty name, however
-- their names and values are cut into fragments: at their end the parser's result is a redirection
-- to the value of the first header `Location`, or the error that there is none.
pub feed-redirected :
    (code : ℕ) (text : List ℕ) (n : ℕ) (h : Header) (hs : List Header)
    → is_moved code ≡ true
    → All IsNamed (h ∷ hs)
    → (feed (head code text n (h ∷ hs)) create).result
      ≡ redirected (first_value (codes "Location") (h ∷ hs))
unfolding moving create
feed-redirected code text n h hs e named =
    ap (λ (p : HttpParser). p.result)
      (feed-head code text n h hs moving (status_moved code text e) named ∙ conclude_moved n _)
    ∙ redirect_by-redirected _ _
    ∙ ap redirected (find-first_value (codes "Location") (h ∷ hs))

abbrev pub whole_response : ℕ → List ℕ → ℕ → List Header → List (List ℕ) → List Callback
whole_response code text n hs bs = head code text n hs ++ (map body bs ++ (message_complete ∷ []))

-- The parser after a whole response.
complete : ℕ → List (List ℕ × List ℕ) → List (List ℕ) → HttpParser
complete n m bs = stop done (record (conclude n (ready m create)) { handed = bs })

complete-done :
    (n : ℕ) (m : List (List ℕ × List ℕ)) (bs : List (List ℕ))
    → (complete n m bs).result
      ≡ record { state = done; redirect_uri = []; err_str = []; content_length = n }
unfolding complete stop conclude ready create
complete-done n m bs = refl

complete-handed :
    (n : ℕ) (m : List (List ℕ × List ℕ)) (bs : List (List ℕ)) → (complete n m bs).handed ≡ bs
unfolding complete stop
complete-handed n m bs = refl

feed-complete :
    (code : ℕ) (text : List ℕ) (n : ℕ) (h : Header) (hs : List Header) (bs : List (List ℕ))
    → is_success code ≡ true
    → All IsNamed (h ∷ hs)
    → feed (whole_response code text n (h ∷ hs) bs) create ≡ complete n (collect (h ∷ hs) []) bs
unfolding complete feed call_back on_message_complete conclude ready create
feed-complete code text n h hs bs e named =
    feed-append (head code text n (h ∷ hs)) (map body bs ++ (message_complete ∷ [])) create
    ∙ ap (feed (map body bs ++ (message_complete ∷ [])))
        (feed-head code text n h hs create (status_success code text e) named)
    ∙ feed-append (map body bs) (message_complete ∷ []) _
    ∙ ap (feed (message_complete ∷ [])) (feed-bodies bs _)

-- For a status 200, 202 or 203, any headers, at least one and none with an empty name, however they
-- are cut into fragments, and any pieces of a body: the callbacks of the response leave the parser
-- done, without an error or a redirection, with the content length that it was told, and have
-- handed on exactly the pieces of the body in their order.
pub feed-done :
    (code : ℕ) (text : List ℕ) (n : ℕ) (h : Header) (hs : List Header) (bs : List (List ℕ))
    → is_success code ≡ true
    → All IsNamed (h ∷ hs)
    → ((feed (whole_response code text n (h ∷ hs) bs) create).result
        ≡ record { state = done; redirect_uri = []; err_str = []; content_length = n })
      × ((feed (whole_response code text n (h ∷ hs) bs) create).handed ≡ bs)
feed-done code text n h hs bs e named =
    let all = feed-complete code text n h hs bs e named in
    (
      ap (λ (p : HttpParser). p.result) all ∙ complete-done n _ bs,
      ap (λ (p : HttpParser). p.handed) all ∙ complete-handed n _ bs,
    )
