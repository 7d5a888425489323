-- ===== src/Downloader/Body.antt =====
-- The parser of http.cpp under a `DownloaderSimple`: the bytes of the body reach the side of the file.
use ecwid_console_downloader.Base.{
  ℕ, ◌≡◌, refl, sym, ap, ◌∙◌, Option, some, List, [], ◌∷◌, ◌++◌, append-nil, append_assoc, length,
  Bool, Bool-cases, inl, inr, not, ◌&&◌, drop,
}
use ecwid_console_downloader.Socket.{DataChunk}
use ecwid_console_downloader.Http
use ecwid_console_downloader.Http.{HttpParser, Callback, Errno, ResponseParseResult, response_parse}
use ecwid_console_downloader.Http.Body.{pieces_of, response_parse-handed}
use ecwid_console_downloader.Downloader.State.{
  Downloader, OnData, first_data, more_data, call_timer, stops_timer,
}
use ecwid_console_downloader.Downloader.File.{
  Answer, on_data, push_data, write_front, write_chunk, on_write, resume_file,
}
use ecwid_console_downloader.Downloader.Net.{
  Parser, on_first_data, take_pieces, after_parse, read_with, on_read,
}
use ecwid_console_downloader.Downloader.Events.{deliver, data_read, read_all, read_by}
use ecwid_console_downloader.Downloader.Bytes

unfoldable pub joined : List (List ℕ) → List ℕ
joined [] = []
joined (bytes ∷ pieces) = bytes ++ joined pieces

abbrev received_of : Bytes.Bytes → List ℕ
received_of b = b.received

module _ {P : Type 0} (execute : P → List ℕ → P × List Callback × Errno) (description : ℕ → List ℕ)
    (initial : P) where
  -- `HttpParser` as the parser of a downloader: what `response_parse` hands to `cb_on_data` is what it adds
  -- to `handed`.
  unfoldable pub responses : Parser (P × HttpParser)
  responses = record {
    create = (initial, Http.create);
    parse = λ bytes s.
        let (inner, p) = response_parse execute description bytes s in
        ((inner, p), drop (length s.1.handed) p.handed, p.result);
  }

module _ {Q : Type 0} where
  write_front-received :
      (cs : List DataChunk) (active : Bool) (d : Downloader Q)
      → (write_front cs active d).received ≡ d.received
  unfolding write_front write_chunk
  write_front-received [] active d = ap received_of (Bytes.write_none-bytes active d)
  write_front-received (c ∷ cs) active d = refl

  resume_file-received :
      (active : Bool) (d : Downloader Q) → (resume_file active d).received ≡ d.received
  unfolding resume_file on_write
  resume_file-received active d =
      elim (Bool-cases (d.file_openned && not d.file_operation_started)) [
        | inl idle ↦ simp idle (write_front-received d.buffer active _)
        | inr busy ↦ simp busy refl
      ]

  on_data-received :
      (bytes : List ℕ) (answer : Answer) (d : Downloader Q)
      → (on_data bytes answer d).received ≡ d.received ++ bytes
  unfolding on_data push_data
  on_data-received bytes answer d =
      resume_file-received answer.active _
      ∙ ap received_of
          (Bytes.ensure_file-bytes answer.open_fails _ ∙ Bytes.hold_back-bytes answer.active _)

  take_pieces-received :
      (parser : Parser Q) (pieces : List (List ℕ)) (answer : ℕ → Answer) (d : Downloader Q)
      → (take_pieces parser pieces answer d).received ≡ d.received ++ joined pieces
  unfolding take_pieces joined
  take_pieces-received parser [] answer d = sym (append-nil d.received)
  take_pieces-received parser (bytes ∷ pieces) answer d =
      take_pieces-received parser pieces answer _
      ∙ ap (λ l. l ++ joined pieces) (on_data-received bytes (answer (length pieces)) d)
      ∙ append_assoc d.received bytes (joined pieces)

  after_parse-received :
      (parser : Parser Q) (result : ResponseParseResult) (d : Downloader Q)
      → (after_parse parser result d).received ≡ d.received
  unfolding after_parse
  after_parse-received parser result d =
      ap received_of (Bytes.if-bytes _ _ _ refl (Bytes.conclude-bytes parser result result.state _))

-- The parser that a listener of `DataEvent` works on: a new one, or the one there is.
abbrev pub parser_at : {Q : Type 0} → Parser Q → OnData → Downloader Q → Option Q
parser_at parser first_data d = some parser.create
parser_at parser more_data d = d.http_parser

module _ {P : Type 0} (execute : P → List ℕ → P × List Callback × Errno) (description : ℕ → List ℕ)
    (initial : P) where
  read_with-received :
      (inner : P) (p : HttpParser) (bytes : List ℕ) (answer : ℕ → Answer)
      (d : Downloader (P × HttpParser))
      → (read_with
          (responses execute description initial)
          (some (inner, p))
          bytes
          answer
          d).received
        ≡ d.received ++ joined (pieces_of (execute inner bytes).1)
  unfolding read_with responses
  read_with-received inner p bytes answer d =
      after_parse-received _ _ _
      ∙ take_pieces-received _ _ answer _
      ∙ ap (λ l. d.received ++ joined l) (response_parse-handed execute description bytes inner p)

  on_read-received :
      (inner : P) (p : HttpParser) (bytes : List ℕ) (answer : ℕ → Answer)
      (d : Downloader (P × HttpParser))
      → d.http_parser ≡ some (inner, p)
      → (on_read (responses execute description initial) bytes answer d).received
        ≡ d.received ++ joined (pieces_of (execute inner bytes).1)
  unfolding on_read
  on_read-received inner p bytes answer d h =
      ap
        (λ o.
          (read_with (responses execute description initial) o bytes answer
            (call_timer stops_timer d)).received)
        h
      ∙ read_with-received inner p bytes answer (call_timer stops_timer d)

  -- When data come to a socket with one listener for them, what the downloader takes in is, in order, the
  -- pieces of the body that `http_parser_execute` reports in these data, and nothing else; whatever the
  -- parser has seen, whatever it reports besides, and whether the file can be opened or not.
  pub deliver-body :
      (h : OnData) (inner : P) (p : HttpParser) (bytes : List ℕ) (answer : ℕ → Answer)
      (d : Downloader (P × HttpParser))
      → d.socket.on_data ≡ h ∷ []
      → parser_at (responses execute description initial) h d ≡ some (inner, p)
      → (deliver (responses execute description initial) (data_read bytes answer) d).received
        ≡ d.received ++ joined (pieces_of (execute inner bytes).1)
  unfolding deliver read_all read_by on_first_data
  deliver-body first_data inner p bytes answer d one at =
      ap
        (λ hs.
          (read_all (responses execute description initial) bytes answer hs
            (record d { socket = record d.socket { on_data = [] } })).received)
        one
      ∙ on_read-received inner p bytes answer _ at
  deliver-body more_data inner p bytes answer d one at =
      ap
        (λ hs.
          (read_all (responses execute description initial) bytes answer hs
            (record d { socket = record d.socket { on_data = [] } })).received)
        one
      ∙ on_read-received inner p bytes answer _ at
