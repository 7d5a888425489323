-- ===== src/Http/Uri.antt =====
-- `HttpParser::uri_parse` of src/http.cpp. What `http_parser_parse_url` finds in a URL is a parameter:
-- the fields that it reports, or `none` when it fails. Its offsets stay within the URL.
pub mod RoundTrip
use ecwid_console_downloader.Base.{
  ℕ, ◌+◌, ◌-◌, ◌≡◌, refl, sym, ap, ◌∙◌, Bool, true, false, Option, none, some, List, [], ◌∷◌, ◌++◌,
  append_assoc, append-nil, length, take, drop, length-append, take-append_within,
  drop-append_behind, drop-zero, codes, All, ◌>>=◌, ◌==◌, if◌then◌else◌, arith,
}
use ecwid_console_downloader.Http.{same_text}

-- `field_data`; the fields whose bit of `field_set` the code reads are options.
pub record Span : Type 0 where
  pub off : ℕ
  pub len : ℕ

pub record UrlFields : Type 0 where
  pub schema : Span
  pub host : Span
  pub port : Option ℕ
  pub path : Option Span
  pub query : Option Span
  pub fragment : Option Span
  pub userinfo : Option Span

pub record UriParseResult : Type 0 where
  pub proto : List ℕ
  pub host : List ℕ
  pub port : ℕ
  pub query : List ℕ
  pub username : List ℕ
  pub password : List ℕ

abbrev pub substr : List ℕ → Span → List ℕ
substr uri s = take s.len (drop s.off uri)

unfoldable pub default_port : List ℕ → Option ℕ
unfolding same_text
default_port proto =
    if same_text proto (codes "http")
    then some 80
    else if same_text proto (codes "https")
    then some 443
    else none

-- What stands before the first colon, and after it.
pub until_colon : List ℕ → List ℕ
until_colon [] = []
until_colon (c ∷ cs) = let rest = until_colon cs in if c == b':' then [] else c ∷ rest

pub after_colon : List ℕ → List ℕ
after_colon [] = []
after_colon (c ∷ cs) = let rest = after_colon cs in if c == b':' then cs else rest

pub or_slash : List ℕ → Option Span → List ℕ
or_slash uri none = b'/' ∷ []
or_slash uri (some s) = substr uri s

pub part_after : ℕ → List ℕ → Option Span → List ℕ
part_after mark uri none = []
part_after mark uri (some s) = mark ∷ substr uri s

pub userinfo_of : List ℕ → Option Span → List ℕ
userinfo_of uri none = []
userinfo_of uri (some s) = substr uri s

pub port_or : ℕ → Option ℕ → ℕ
port_or known none = known
port_or known (some p) = p

pub uri_result : List ℕ → UrlFields → ℕ → UriParseResult
uri_result uri f known = record {
  proto = substr uri f.schema;
  host = substr uri f.host;
  port = port_or known f.port;
  query = or_slash uri f.path ++ part_after b'?' uri f.query ++ part_after b'#' uri f.fragment;
  username = until_colon (userinfo_of uri f.userinfo);
  password = after_colon (userinfo_of uri f.userinfo);
}

unfoldable pub uri_parse : (List ℕ → Option UrlFields) → List ℕ → Option UriParseResult
uri_parse parse_url uri = parse_url uri >>= λ f.
    default_port (substr uri f.schema) >>= λ known. some (uri_result uri f known)
