-- ===== src/Factories/Tests.antt =====
-- A downloader of a https URI, with every handle made.
use ecwid_console_downloader.Base.{◌≡◌, true, false, Bool, none, some, codes, []}
use ecwid_console_downloader.Http.{same_text}
use ecwid_console_downloader.Http.Uri.{UriParseResult}
use ecwid_console_downloader.Downloader.State.{construct}
use ecwid_console_downloader.Downloader.Net.{run}
use ecwid_console_downloader.Factories.{resources, run-plain}

abbrev secure : UriParseResult
secure = record {
  proto = codes "https";
  host = codes "h";
  port = 443;
  query = codes "/f";
  username = [];
  password = [];
}

run-plain_example :
    (run {P = Bool} (resources 1000 true true true) none (some secure) (codes "f") (construct 10)).0
    ≡ false
unfolding same_text
run-plain_example = run-plain Bool 1000 true true true none secure (codes "f") 10
