-- ===== src/Http/Uri/RoundTrip.antt =====
-- A URL, with some of its parts or all, and what `uri_parse` reads of it.
use ecwid_console_downloader.Base.{
  ℕ, ◌≡◌, false, Option, none, some, List, [], ◌∷◌, ◌++◌, length, codes, All, ◌==◌,
}
use ecwid_console_downloader.Http.Uri.{Span, UrlFields, UriParseResult}

-- Where `b` stands behind `a`.
abbrev pub span_after : List ℕ → List ℕ → Span
span_after a b = record { off = length a; len = length b }

abbrev pub IsBefore : ℕ → Type 0
IsBefore c = (c == b':') ≡ false

-- A URL, of which the user, the path, the query and the fragment may be left out.
pub record Url : Type 0 where
  pub scheme : List ℕ
  pub userinfo : Option (List ℕ × List ℕ)
  pub host : List ℕ
  pub port_text : List ℕ
  pub path : Option (List ℕ)
  pub query : Option (List ℕ)
  pub fragment : Option (List ℕ)

-- A part with its mark, if it is there.
abbrev pub marked : ℕ → Option (List ℕ) → List ℕ
marked mark none = []
marked mark (some part) = mark ∷ part

abbrev pub or_nothing : Option (List ℕ) → List ℕ
or_nothing none = []
or_nothing (some part) = part

abbrev pub info_of : List ℕ × List ℕ → List ℕ
info_of i = i.0 ++ (b':' ∷ i.1)

abbrev pub login : Option (List ℕ × List ℕ) → List ℕ
login none = []
login (some i) = info_of i ++ codes "@"

-- The text up to the user, the host, the path, the query and the fragment.
abbrev to_info : Url → List ℕ
to_info u = u.scheme ++ codes "://"

abbrev to_host : Url → List ℕ
to_host u = to_info u ++ login u.userinfo

abbrev to_path : Url → List ℕ
to_path u = to_host u ++ (u.host ++ u.port_text)

abbrev to_query : Url → List ℕ
to_query u = to_path u ++ or_nothing u.path

abbrev to_fragment : Url → List ℕ
to_fragment u = to_query u ++ marked b'?' u.query

-- `<scheme>://<user>:<secret>@<host><port_text><path>?<query>#<fragment>`, without the parts left out.
abbrev pub text_of : Url → List ℕ
text_of u = to_fragment u ++ marked b'#' u.fragment

-- Where a part stands behind `a`, and behind `a` and its mark.
abbrev pub info_after : List ℕ → Option (List ℕ × List ℕ) → Option Span
info_after a none = none
info_after a (some i) = some (span_after a (info_of i))

abbrev pub part_span : List ℕ → Option (List ℕ) → Option Span
part_span a none = none
part_span a (some part) = some (span_after a part)

-- The fields where they stand in the text.
abbrev pub fields_of : Url → Option ℕ → UrlFields
fields_of u port = record {
  schema = span_after [] u.scheme;
  host = span_after (to_host u) u.host;
  port = port;
  path = part_span (to_path u) u.path;
  query = part_span (to_query u ++ codes "?") u.query;
  fragment = part_span (to_fragment u ++ codes "#") u.fragment;
  userinfo = info_after (to_info u) u.userinfo;
}

-- A path that is left out is "/".
abbrev pub path_or_slash : Option (List ℕ) → List ℕ
path_or_slash none = b'/' ∷ []
path_or_slash (some path) = path

abbrev pub user_of : Option (List ℕ × List ℕ) → List ℕ
user_of none = []
user_of (some i) = i.0

abbrev pub secret_of : Option (List ℕ × List ℕ) → List ℕ
secret_of none = []
secret_of (some i) = i.1

abbrev query_of : Url → List ℕ
query_of u = path_or_slash u.path ++ marked b'?' u.query ++ marked b'#' u.fragment

abbrev pub IsNamed : Option (List ℕ × List ℕ) → Type 0
IsNamed none = Unit
IsNamed (some i) = All IsBefore i.0

module _ (u : Url) where
  -- What the URL says, with its port or the scheme's.
  abbrev pub parts_of : ℕ → UriParseResult
  parts_of port = record {
    proto = u.scheme;
    host = u.host;
    port = port;
    query = query_of u;
    username = user_of u.userinfo;
    password = secret_of u.userinfo;
  }
