-- ===== src/Downloader/Safety/Responses.antt =====
-- `HttpParser` tells a redirection before it hands on anything, if http_parser keeps the order of its callbacks
-- and makes none while it is paused.
use ecwid_console_downloader.Base.{
  ℕ, zero, suc, ◌≡◌, refl, sym, ap, ◌∙◌, Bool, true, false, List, [], ◌∷◌, ◌++◌, length, drop,
}
use ecwid_console_downloader.Http.{HttpParser, Callback, Errno, response_parse}
use ecwid_console_downloader.Http.Body.{pieces_of, response_parse-appends}
use ecwid_console_downloader.Http.Order.{
  IsHeading, IsInOrder, response_parse-IsHeading, create-IsHeading,
}
use ecwid_console_downloader.Downloader.Body.{responses}
use ecwid_console_downloader.Downloader.Safety.{IsOrderly}

abbrev is_nil : List (List ℕ) → Bool
is_nil [] = true
is_nil (l ∷ ls) = false

-- Nothing has been handed on.
abbrev pub is_fresh : {P : Type 0} → P × HttpParser → Bool
is_fresh s = is_nil s.1.handed

is_nil-nil : (ls : List (List ℕ)) → is_nil ls ≡ true → ls ≡ []
is_nil-nil [] h = refl
is_nil-nil (l ∷ ls) h = cc

append-nil_left : (xs ys : List (List ℕ)) → xs ++ ys ≡ [] → xs ≡ []
append-nil_left [] ys h = refl
append-nil_left (x ∷ xs) ys h = cc

drop-nil : (n : ℕ) (ls : List (List ℕ)) → ls ≡ [] → drop n ls ≡ []
drop-nil zero ls h = h
drop-nil (suc n) [] h = refl
drop-nil (suc n) (l ∷ ls) h = cc

-- An `HttpParser` under the `http_parser` that calls it back.
pub IsParsing : {P : Type 0} → (P → HttpParser → Type 0) → (P → Bool) → P × HttpParser → Type 0
IsParsing Linked complete s = Linked s.0 s.1 × IsHeading (complete s.0) s.1

module _ {P : Type 0} (execute : P → List ℕ → P × List Callback × Errno) (description : ℕ → List ℕ)
    (initial : P) where
  -- Fresh afterwards, fresh before, and nothing handed on.
  parse-fresh :
      (bytes : List ℕ) (inner : P) (p : HttpParser)
      → (response_parse execute description bytes (inner, p)).1.handed ≡ []
      → (is_nil p.handed ≡ true)
        × (drop (length p.handed) (response_parse execute description bytes (inner, p)).1.handed
            ≡ [])
  parse-fresh bytes inner p e = (
    ap is_nil (
        append-nil_left p.handed (pieces_of (execute inner bytes).1)
          (sym (response_parse-appends execute description bytes inner p) ∙ e)),
    drop-nil (length p.handed) _ e,
  )

  module _ (Linked : P → HttpParser → Type 0) (complete : P → Bool) where
    -- `HttpParser` is an orderly parser of a downloader, if http_parser makes its callbacks in the order of a
    -- message and makes none while it is paused: whatever data it is given, a response that it tells to be a
    -- redirection has had nothing of a body handed on, before or with these data.
    pub responses-IsOrderly :
        IsInOrder execute description initial Linked complete
        → IsOrderly (responses execute description initial) (IsParsing Linked complete) is_fresh
    unfolding responses response_parse IsParsing
    responses-IsOrderly o = record {
      begins = (o.starts, create-IsHeading (complete initial));
      goes_on = λ bytes s v. (
        o.keeps bytes s.0 s.1 v.0,
        response_parse-IsHeading execute description bytes s.0 s.1 (complete s.0)
            (complete (execute s.0 bytes).0) (o.orders bytes s.0 s.1 v.0)
            (o.heeds bytes s.0 s.1 v.0) v.1,
      );
      freshens = λ bytes s f. parse-fresh bytes s.0 s.1 (is_nil-nil _ f);
      redirects = λ bytes s v r.
          let h =
            response_parse-IsHeading execute description bytes s.0 s.1 (complete s.0)
              (complete (execute s.0 bytes).0) (o.orders bytes s.0 s.1 v.0)
              (o.heeds bytes s.0 s.1 v.0) v.1 in
          parse-fresh bytes s.0 s.1 (h.away r).1;
    }
