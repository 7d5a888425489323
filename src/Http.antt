-- ===== src/Http.antt =====
-- src/http.cpp and include/http.h: what the callbacks of `HttpParser` make of a response. Which
-- callbacks `http_parser_execute` makes, and the code that it ends with, is a parameter.
-- A `std::string` that was moved from is empty. A `std::map` is the list of its pairs, whose order
-- the code does not use.
pub mod Headers
pub mod Response
pub mod Body
pub mod Order
pub mod Uri
mod Tests
use ecwid_console_downloader.Base.{
  ℕ, zero, suc, ◌+◌, ◌/◌, ◌%◌, Bool, true, false, ◌||◌, Option, none, some, List, [], ◌∷◌, ◌++◌,
  codes, ltb, ◌==◌, ◌&&◌, if◌then◌else◌,
}
use ecwid_console_downloader.Tasks.{is_empty}

pub data ResponseState : Type 0 where
  in_progress done redirect error : ResponseState

pub record ResponseParseResult : Type 0 where
  pub state : ResponseState
  pub redirect_uri : List ℕ
  pub err_str : List ℕ
  pub content_length : ℕ

pub data ModeHeader : Type 0 where
  field value : ModeHeader

-- `paused` is set by `http_parser_pause`; `handed` lists the calls of `cb_on_data`.
pub record HttpParser : Type 0 where
  pub result : ResponseParseResult
  pub headers : List (List ℕ × List ℕ)
  pub field_header : List ℕ
  pub value_header : List ℕ
  pub mode_header : ModeHeader
  pub is_redirect : Bool
  pub paused : Bool
  pub handed : List (List ℕ)

unfoldable pub create : HttpParser
create = record {
  result = record { state = in_progress; redirect_uri = []; err_str = []; content_length = 0 };
  headers = [];
  field_header = [];
  value_header = [];
  mode_header = field;
  is_redirect = false;
  paused = false;
  handed = [];
}

unfoldable pub same_text : List ℕ → List ℕ → Bool
same_text [] [] = true
same_text [] (d ∷ ds) = false
same_text (c ∷ cs) [] = false
same_text (c ∷ cs) (d ∷ ds) = c == d && same_text cs ds

-- `std::map::emplace`, `find` and a write through `operator[]` at a key that is present.
pub emplace : List ℕ → List ℕ → List (List ℕ × List ℕ) → List (List ℕ × List ℕ)
emplace name text [] = (name, text) ∷ []
emplace name text (e ∷ m) = if same_text e.0 name then e ∷ m else e ∷ emplace name text m

pub find : List ℕ → List (List ℕ × List ℕ) → Option (List ℕ)
find name [] = none
find name (e ∷ m) = if same_text e.0 name then some e.1 else find name m

pub overwrite : List ℕ → List ℕ → List (List ℕ × List ℕ) → List (List ℕ × List ℕ)
overwrite name text [] = []
overwrite name text (e ∷ m) =
    if same_text e.0 name then (e.0, text) ∷ m else e ∷ overwrite name text m

-- `std::to_string`, on a fuel of digits.
unfoldable pub digits : ℕ → ℕ → List ℕ
digits zero n = []
digits (suc fuel) n =
    let front = digits fuel (n / 10) in
    if ltb n 10 then (48 + n) ∷ [] else front ++ ((48 + n % 10) ∷ [])

-- A `status_code` has 16 bits, so 5 digits at most.
pub to_string : ℕ → List ℕ
to_string n = digits 5 n

pub stop : ResponseState → HttpParser → HttpParser
stop state p = record p { result = record p.result { state = state }; paused = true }

unfoldable pub on_status : ℕ → List ℕ → HttpParser → HttpParser
on_status code text p =
    if code == 200 || (code == 202 || code == 203)
    then p
    else if code == 301 || (code == 302 || code == 303)
    then record p { is_redirect = true }
    else stop error
        (record p { result = record p.result { err_str = to_string code ++ codes " " ++ text } })

pub on_field_in : ModeHeader → List ℕ → HttpParser → HttpParser
on_field_in field text p = record p { field_header = p.field_header ++ text }
on_field_in value text p = record p {
  headers = emplace p.field_header p.value_header p.headers;
  field_header = text;
  value_header = [];
  mode_header = field;
}

pub on_header_field : List ℕ → HttpParser → HttpParser
on_header_field text p = on_field_in p.mode_header text p

pub on_value_in : ModeHeader → List ℕ → HttpParser → HttpParser
on_value_in value text p = record p { value_header = p.value_header ++ text }
on_value_in field text p = record p { value_header = text; mode_header = value }

pub on_header_value : List ℕ → HttpParser → HttpParser
on_header_value text p = on_value_in p.mode_header text p

-- The first lines of `on_headers_complete`: the last header.
unfoldable pub flush_header : HttpParser → HttpParser
flush_header p = if is_empty p.field_header then p else record p {
  headers = emplace p.field_header p.value_header p.headers;
  field_header = [];
  value_header = [];
}

pub redirect_by : Option (List ℕ) → HttpParser → HttpParser
redirect_by (some uri) p = stop redirect (record p {
  result = record p.result { redirect_uri = uri };
  headers = overwrite (codes "Location") [] p.headers;
})
redirect_by none p = stop error (record p {
  result = record p.result { err_str = codes "Invalid redirect, missing Location header" };
})

-- The rest of it.
unfoldable pub conclude : ℕ → HttpParser → HttpParser
conclude content_length p =
    if p.is_redirect
    then redirect_by (find (codes "Location") p.headers) p
    else record p { result = record p.result { content_length = content_length } }

unfoldable pub on_headers_complete : ℕ → HttpParser → HttpParser
on_headers_complete content_length p = conclude content_length (flush_header p)

unfoldable pub on_body : List ℕ → HttpParser → HttpParser
on_body bytes p = record p { handed = p.handed ++ (bytes ∷ []) }

pub on_message_complete : HttpParser → HttpParser
on_message_complete p = stop done p

-- A callback of http_parser, with what the parser hands to it.
pub data Callback : Type 0 where
  status : ℕ → List ℕ → Callback
  header_field header_value : List ℕ → Callback
  headers_complete : ℕ → Callback
  body : List ℕ → Callback
  message_complete : Callback

unfoldable pub call_back : Callback → HttpParser → HttpParser
call_back (status code text) p = on_status code text p
call_back (header_field text) p = on_header_field text p
call_back (header_value text) p = on_header_value text p
call_back (headers_complete n) p = on_headers_complete n p
call_back (body bytes) p = on_body bytes p
call_back message_complete p = on_message_complete p

unfoldable pub feed : List Callback → HttpParser → HttpParser
feed [] p = p
feed (c ∷ cs) p = feed cs (call_back c p)

-- `http_errno`: `HPE_OK`, `HPE_PAUSED`, or another code.
pub data Errno : Type 0 where
  ok paused_by_callback : Errno
  failed : ℕ → Errno

unfoldable pub check_errno : (ℕ → List ℕ) → Errno → HttpParser → HttpParser
check_errno description (failed code) p = record p {
  result = record p.result { state = error; err_str = description code };
}
check_errno description _ p = p

module _ {P : Type 0} (execute : P → List ℕ → P × List Callback × Errno)
    (description : ℕ → List ℕ) where
  -- `P` is the state of the `http_parser`, `description` its `http_errno_description`.
  unfoldable pub response_parse : List ℕ → P × HttpParser → P × HttpParser
  response_parse data_read (inner, p) =
      let (inner', callbacks, errno) = execute inner data_read in
      (inner', check_errno description errno (feed callbacks p))
