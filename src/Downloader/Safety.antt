-- ===== src/Downloader/Safety.antt =====
-- When a `DownloaderSimple` uses no null pointer: which handles are there while something is listened to.
pub mod FileSide
pub mod DataSide
pub mod Failing
pub mod FileEvents
pub mod NetSide
pub mod ShutSide
pub mod ReadSide
pub mod DataEvents
pub mod EndEvents
pub mod StartSide
pub mod Run
pub mod Responses
mod Tests
use ecwid_console_downloader.Base.{
  ℕ, ◌≡◌, refl, Bool, true, false, not, ◌&&◌, ◌||◌, ◌⊎◌, Option, none, some, List, [], ◌∷◌,
  if◌then◌else◌,
}
use ecwid_console_downloader.Http.{redirect}
use ecwid_console_downloader.Downloader.State.{
  Downloader, OnEnd, OnData, OnShutdown, OnClose, closed_early, stream_ended, first_data, more_data,
  then_redirect, then_done, file_closed, unlinks_file,
}
use ecwid_console_downloader.Downloader.File.{is_filled}
use ecwid_console_downloader.Downloader.Net.{Parser, is_given}

-- The side of the network: the pointers, and what is listened to.
pub record NetView (P : Type 0) : Type 0 where
  pub addr_info : Bool
  pub uri : Bool
  pub socket : Bool
  pub connect : Bool
  pub write : Bool
  pub ends : List OnEnd
  pub datas : List OnData
  pub shuts : List OnShutdown
  pub timer : Bool
  pub parser : Option P
  pub receive_done : Bool

abbrev pub net_of : {P : Type 0} → Downloader P → NetView P
net_of d = record {
  addr_info = d.resolver.on_addr_info;
  uri = is_given d.uri_parsed;
  socket = d.socket.present;
  connect = d.socket.on_connect;
  write = d.socket.on_write;
  ends = d.socket.on_end;
  datas = d.socket.on_data;
  shuts = d.socket.on_shutdown;
  timer = d.net_timer.present;
  parser = d.http_parser;
  receive_done = d.receive_done;
}

-- The network with its listeners gone.
abbrev pub hushed : {P : Type 0} → NetView P → NetView P
hushed n = record n {
  addr_info = false;
  connect = false;
  write = false;
  ends = [];
  datas = [];
  shuts = [];
}

-- The file is being opened or written.
abbrev pub works : {P : Type 0} → Downloader P → Bool
works d = d.file.on_open || d.file.on_write

abbrev pub closes : List OnClose → Bool
closes [] = false
closes (file_closed ∷ hs) = true
closes (unlinks_file ∷ hs) = closes hs

-- A file at work is there, a write has a chunk, and reading can go on unless all was received.
pub record Files {P : Type 0} (d : Downloader P) : Type 0 where
  pub there : (not (works d) || d.file.present) ≡ true
  pub closing : (not (closes d.file.on_close) || d.file.present) ≡ true
  pub filled : (not d.file.on_write || is_filled d.buffer) ≡ true
  pub backed : (not (works d) || (d.receive_done || d.socket.present)) ≡ true

-- What the network listens to.
pub record Hears {P : Type 0} (n : NetView P) (addr_info connect write : Bool) (ends : List OnEnd)
    (datas : List OnData) (shuts : List OnShutdown) : Type 0 where
  pub addr_info_same : n.addr_info ≡ addr_info
  pub connect_same : n.connect ≡ connect
  pub write_same : n.write ≡ write
  pub ends_same : n.ends ≡ ends
  pub datas_same : n.datas ≡ datas
  pub shuts_same : n.shuts ≡ shuts

-- What a parser can be, when it has handed on nothing, and whether the stream has ended.
pub record Course (P : Type 0) : Type 1 where
  pub Valid : P → Type 0
  pub fresh : P → Bool
  pub over : Bool

-- The network while a response is read.
pub record Reads {P : Type 0} (m : Course P) (n : NetView P) (e : Bool) (xs : List OnData) (p : P)
    : Type 0 where
  pub hears : Hears n false false false (if e then stream_ended ∷ [] else []) xs []
  pub socket_there : n.socket ≡ true
  pub timer_there : n.timer ≡ true
  pub parser_same : n.parser ≡ some p
  pub valid : m.Valid p
  pub single : m.over ≡ false → (xs ≡ []) ⊎ (xs ≡ more_data ∷ [])

-- The phases of a download, for a file that is there or not, and at work or not.
pub data Phase {P : Type 0} (m : Course P) (n : NetView P) (present busy : Bool) : Type 0 where
  silent : Hears n false false false [] [] [] → Phase m n present busy
  resolving :
      Hears n true false false [] [] []
      → n.socket ≡ true
      → n.timer ≡ true
      → n.uri ≡ true
      → present ≡ false
      → Phase m n present busy
  connecting :
      Hears n false true false [] [] []
      → n.socket ≡ true
      → n.timer ≡ true
      → n.uri ≡ true
      → present ≡ false
      → Phase m n present busy
  writing :
      Hears n false false true [] [] []
      → n.socket ≡ true
      → n.timer ≡ true
      → present ≡ false
      → Phase m n present busy
  waiting :
      (e t : Bool)
      → Hears n false false false
          (if e then closed_early ∷ [] else [])
          (if t then first_data ∷ [] else [])
          []
      → n.socket ≡ true
      → n.timer ≡ true
      → present ≡ false
      → Phase m n present busy
  reading :
      (e : Bool) (xs : List OnData) (p : P)
      → Reads m n e xs p
      → (m.fresh p ≡ true → present ≡ false)
      → Phase m n present busy
  closing_done :
      Hears n false false false [] [] (then_done ∷ [])
      → n.socket ≡ true
      → n.receive_done ≡ true
      → Phase m n present busy
  closing_redirect :
      Hears n false false false [] [] (then_redirect ∷ [])
      → n.socket ≡ true
      → busy ≡ false
      → Phase m n present busy

pub record IsSafe {P : Type 0} (m : Course P) (d : Downloader P) : Type 0 where
  pub sound : d.crashed ≡ false
  pub files : Files d
  pub phase : Phase m (net_of d) d.file.present (works d)

-- A parser that tells a redirection before it hands on anything.
pub record IsOrderly {P : Type 0} (parser : Parser P) (Valid : P → Type 0) (fresh : P → Bool)
    : Type 0 where
  pub begins : Valid parser.create
  pub goes_on : (bytes : List ℕ) (p : P) → Valid p → Valid (parser.parse bytes p).0
  pub freshens :
      (bytes : List ℕ) (p : P)
      → fresh (parser.parse bytes p).0 ≡ true
      → (fresh p ≡ true) × ((parser.parse bytes p).1 ≡ [])
  pub redirects :
      (bytes : List ℕ) (p : P)
      → Valid p
      → (parser.parse bytes p).2.state ≡ redirect
      → (fresh p ≡ true) × ((parser.parse bytes p).1 ≡ [])
