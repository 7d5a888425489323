-- ===== src/Downloader/Safety/Tests.antt =====
-- An http_parser that reports the headers with the first data, and the end with the second, under a download
-- that is stopped.
use ecwid_console_downloader.Base.{
  ℕ, zero, suc, ◌≡◌, refl, Bool, true, false, none, some, List, [], ◌∷◌, codes, sym, subst,
}
use ecwid_console_downloader.Http.{
  HttpParser, Callback, status, headers_complete, body, message_complete, Errno, ok,
  paused_by_callback, create, response_parse, feed, call_back, on_status, on_headers_complete,
  flush_header, conclude, on_body, check_errno,
}
use ecwid_console_downloader.Http.Order.{
  InOrder, Heeds, begins, heads, hands, completes, nothing, IsInOrder,
}
use ecwid_console_downloader.Tasks.{is_empty}
use ecwid_console_downloader.Http.Uri.{UriParseResult}
use ecwid_console_downloader.Downloader.State.{Downloader, construct, abort}
use ecwid_console_downloader.Downloader.File.{Answer}
use ecwid_console_downloader.Downloader.Net.{Parser, Resources, run}
use ecwid_console_downloader.Downloader.Events.{
  Event, addr_info, connected, request_written, data_read, file_opened, deliver,
}
use ecwid_console_downloader.Downloader.Body.{responses}
use ecwid_console_downloader.Downloader.Safety.{IsOrderly}
use ecwid_console_downloader.Downloader.Safety.Run.{
  Reaches, at_first, delivered, stopped, run-Reaches,
}
use ecwid_console_downloader.Downloader.Safety.Responses.{is_fresh, IsParsing, responses-IsOrderly}

abbrev execute : ℕ → List ℕ → ℕ × List Callback × Errno
execute zero bytes = (1, status 200 (codes "OK") ∷ headers_complete 3 ∷ body bytes ∷ [], ok)
execute (suc zero) bytes = (2, body bytes ∷ message_complete ∷ [], paused_by_callback)
execute (suc (suc n)) bytes = (2, [], paused_by_callback)

abbrev Linked : ℕ → HttpParser → Type 0
Linked zero p = p ≡ create
Linked (suc zero) p = p.paused ≡ false
Linked (suc (suc n)) p = Unit

abbrev complete : ℕ → Bool
complete zero = false
complete (suc n) = true

abbrev describe : ℕ → List ℕ
describe code = []

keeps_lem :
    (bytes : List ℕ) (inner : ℕ) (p : HttpParser)
    → Linked inner p
    → Linked (execute inner bytes).0 (response_parse execute describe bytes (inner, p)).1
unfolding response_parse feed call_back on_status on_headers_complete flush_header conclude on_body
    check_errno create is_empty
keeps_lem bytes zero p h =
    subst (λ q. (response_parse execute describe bytes (zero, q)).1.paused ≡ false) (sym h) refl
keeps_lem bytes (suc zero) p h = tt
keeps_lem bytes (suc (suc n)) p h = tt

orders_lem :
    (bytes : List ℕ) (inner : ℕ) (p : HttpParser)
    → Linked inner p
    → InOrder (complete inner) (execute inner bytes).1 (complete (execute inner bytes).0)
orders_lem bytes zero p h = begins 200 (codes "OK") (heads 3 (hands bytes nothing))
orders_lem bytes (suc zero) p h = hands bytes (completes nothing)
orders_lem bytes (suc (suc n)) p h = nothing

heeds_lem :
    (bytes : List ℕ) (inner : ℕ) (p : HttpParser) → Linked inner p → Heeds p (execute inner bytes).1
unfolding Heeds call_back on_status on_headers_complete flush_header conclude on_body create
    is_empty
heeds_lem bytes zero p h =
    subst (λ q. Heeds q (execute 0 bytes).1) (sym h) (refl, (refl, (refl, tt)))
heeds_lem bytes (suc zero) p h = (h, (h, tt))
heeds_lem bytes (suc (suc n)) p h = tt

execute-IsInOrder : IsInOrder execute describe 0 Linked complete
execute-IsInOrder = record {
  starts = refl;
  keeps = keeps_lem;
  orders = orders_lem;
  heeds = heeds_lem;
}

abbrev parser : Parser (ℕ × HttpParser)
parser = responses execute describe 0

responses-IsOrderly_example : IsOrderly parser (IsParsing Linked complete) is_fresh
responses-IsOrderly_example =
    responses-IsOrderly execute describe 0 Linked complete execute-IsInOrder

abbrev uri : UriParseResult
uri = record {
  proto = codes "http";
  host = codes "h";
  port = 80;
  query = codes "/f";
  username = [];
  password = [];
}

abbrev all_made : Resources
all_made = record { tcp = true; tcp_tls = false; timer = true; resolver = true }

abbrev calm : ℕ → Answer
calm n = record { active = true; open_fails = none }

abbrev begun : Downloader (ℕ × HttpParser)
begun = (run all_made none (some uri) (codes "f") (construct 10)).1

abbrev resolves : Event
resolves = addr_info (codes "1.2.3.4") false none

abbrev asked : Downloader (ℕ × HttpParser)
asked =
    deliver parser (request_written none)
      (deliver parser (connected none) (deliver parser resolves begun))

abbrev brought : Downloader (ℕ × HttpParser)
brought = deliver parser (data_read (5 ∷ 6 ∷ []) calm) asked

way-Reaches : Reaches parser begun false brought
way-Reaches =
    delivered
      (delivered (delivered (delivered at_first resolves refl) (connected none) refl)
        (request_written none) refl)
      (data_read (5 ∷ 6 ∷ []) calm) refl

-- The download is stopped when its file has been opened, and more data come.
run-Reaches_example :
    (deliver parser
      (data_read (7 ∷ []) calm)
      (abort (deliver parser (file_opened true) brought))).crashed
    ≡ false
run-Reaches_example =
    run-Reaches (ℕ × HttpParser) parser (IsParsing Linked complete) is_fresh
      (responses-IsOrderly execute describe 0 Linked complete execute-IsInOrder) all_made none
      (some uri) (codes "f") 10 false _
      (delivered (stopped (delivered way-Reaches (file_opened true) refl)) (data_read (7 ∷ []) calm)
        refl)
