-- ===== src/Http/Tests.antt =====
-- The parser of responses on concrete callbacks.
use ecwid_console_downloader.Base.{some, none, ◌≡◌, refl, [], ◌∷◌, codes, All}
use ecwid_console_downloader.Tasks.{is_empty}
use ecwid_console_downloader.Http.Uri.RoundTrip.{Url}
use ecwid_console_downloader.Http.{create, feed, done}
use ecwid_console_downloader.Http.Headers.{Header, IsNamed, whole, join}
use ecwid_console_downloader.Http.Response.{
  head, redirected, first_value, feed-redirected, whole_response, feed-done,
}

abbrev server : Header
server = record {
  name = record { first = codes "Ser"; more = codes "ver" ∷ [] };
  text = record { first = codes "x"; more = [] };
}

abbrev location : Header
location = record {
  name = record { first = codes "Loc"; more = codes "a" ∷ codes "tion" ∷ [] };
  text = record { first = codes "http://"; more = codes "b/y" ∷ [] };
}

pair-IsNamed : All IsNamed (server ∷ location ∷ [])
unfolding is_empty whole join
pair-IsNamed = (refl, (refl, tt))

feed-redirected_example :
    (feed (head 302 (codes "Found") 0 (server ∷ location ∷ [])) create).result
    ≡ redirected (first_value (codes "Location") (server ∷ location ∷ []))
feed-redirected_example =
    feed-redirected 302 (codes "Found") 0 server (location ∷ []) refl pair-IsNamed

feed-done_example :
    ((feed
        (whole_response 200 (codes "OK") 5 (server ∷ location ∷ []) (codes "ab" ∷ codes "cde" ∷ []))
        create).result
      ≡ record { state = done; redirect_uri = []; err_str = []; content_length = 5 })
    × ((feed
          (whole_response 200
            (codes "OK")
            5
            (server ∷ location ∷ [])
            (codes "ab" ∷ codes "cde" ∷ []))
          create).handed
        ≡ codes "ab" ∷ codes "cde" ∷ [])
feed-done_example =
    feed-done 200 (codes "OK") 5 server (location ∷ []) (codes "ab" ∷ codes "cde" ∷ []) refl
      pair-IsNamed

abbrev url : Url
url = record {
  scheme = codes "http";
  userinfo = some (codes "me", codes "a:b");
  host = codes "h.org";
  port_text = [];
  path = none;
  query = some (codes "k=v");
  fragment = none;
}
