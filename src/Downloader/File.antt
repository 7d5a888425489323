-- ===== src/Downloader/File.antt =====
-- The file side of a `DownloaderSimple`: what it is handed is buffered and written, chunk by chunk.
use ecwid_console_downloader.Base.{
  ℕ, ◌+◌, ◌-◌, Bool, true, false, not, ◌&&◌, Option, none, some, List, [], ◌∷◌, ◌++◌, codes, length,
  take, leb, ◌==◌, if◌then◌else◌, add_size,
}
use ecwid_console_downloader.Socket.{DataChunk}
use ecwid_console_downloader.Socket.Buffer.{remaining}
use ecwid_console_downloader.Jobs
use ecwid_console_downloader.Downloader.State.{
  Downloader, Written, Failure, OnClose, file_closed, unlinks_file, open_failed, write_failed,
  close_failed, stops_socket, reads_socket, opens_file, writes_file, closes_file, unlinks, no_file,
  clear_file, emit, needs, call_file, update_status, fail_file,
}

-- What the environment answers while `on_data` runs.
pub record Answer : Type 0 where
  pub active : Bool
  pub open_fails : Option Failure

-- The front chunk after `size` of its bytes were written.
unfoldable pub advance : ℕ → List DataChunk → List DataChunk
advance size [] = []
advance size (c ∷ cs) =
    if c.offset + size == length c.bytes then cs else record c { offset = c.offset + size } ∷ cs

-- The bytes that an event of this size confirms: the first of those that the write was given.
unfoldable pub confirmed : ℕ → Option Written → List ℕ
confirmed size none = []
confirmed size (some w) = take size w.bytes

-- The number of bytes that the last write asked for.
unfoldable pub asked : Option Written → ℕ
asked none = 0
asked (some w) = w.size

abbrev pub is_filled : List DataChunk → Bool
is_filled [] = false
is_filled (c ∷ cs) = true

module _ {P : Type 0} where
  -- `file->open` may publish its `ErrorEvent` at once.
  unfoldable pub fail_file_by : Option Failure → Downloader P → Downloader P
  fail_file_by none d = d
  fail_file_by (some e) d = fail_file e d

  unfoldable pub open_file : Option Failure → Downloader P → Downloader P
  open_file fails d = fail_file_by fails (
      emit (opens_file d.fname) (record d {
        file = record no_file { present = true; errors = open_failed ∷ []; on_open = true };
        file_operation_started = true;
      }))

  -- `on_write` at an empty buffer when all was received.
  unfoldable pub close_file : Downloader P → Downloader P
  close_file d = emit closes_file (
      needs d.file.present (record d {
        file = record (clear_file d.file) {
          errors = close_failed ∷ [];
          on_close = file_closed ∷ [];
        };
      }))

  -- `on_write` at an empty buffer before that; `active` is what `socket->active()` returns.
  unfoldable pub wait_data : Bool → Downloader P → Downloader P
  wait_data active d =
      let d' = needs d.socket.present (record d { file_operation_started = false }) in
      if active then d' else emit reads_socket d'

  unfoldable pub write_chunk : DataChunk → Downloader P → Downloader P
  write_chunk c d =
      let w : Written = record {
        bytes = remaining c;
        size = length c.bytes - c.offset;
        offset = d.offset_file;
      } in
      call_file (writes_file w.bytes w.offset)
        (record d { file = record d.file { on_write = true }; writing = some w })

  unfoldable pub write_front : List DataChunk → Bool → Downloader P → Downloader P
  write_front [] active d = if d.receive_done then close_file d else wait_data active d
  write_front (c ∷ cs) active d = write_chunk c d

  unfoldable pub on_write : Bool → Downloader P → Downloader P
  on_write active d = write_front d.buffer active d

  unfoldable pub push_data : List ℕ → Downloader P → Downloader P
  push_data bytes d = record d {
    m_status = record d.m_status { downloaded = add_size d.m_status.downloaded (length bytes) };
    buffer = d.buffer ++ (record { bytes = bytes; offset = 0 } ∷ []);
    received = d.received ++ bytes;
  }

  -- The socket is held back when the buffer is full.
  unfoldable pub hold_back : Bool → Downloader P → Downloader P
  hold_back active d =
      let d' = needs d.socket.present d in
      if leb d.backlog (length d.buffer) then (if active then emit stops_socket d' else d') else d

  unfoldable pub ensure_file : Option Failure → Downloader P → Downloader P
  ensure_file fails d = if d.file.present then d else open_file fails d

  unfoldable pub resume_file : Bool → Downloader P → Downloader P
  resume_file active d =
      if d.file_openned && not d.file_operation_started
      then on_write active (record d { file_operation_started = true })
      else d

  unfoldable pub on_data : List ℕ → Answer → Downloader P → Downloader P
  on_data bytes a d =
      resume_file a.active (ensure_file a.open_fails (hold_back a.active (push_data bytes d)))

  -- The listener of `FileOpenEvent`.
  unfoldable pub on_open : Bool → Downloader P → Downloader P
  on_open active d = on_write active (
      needs d.file.present
        (record d { file_openned = true; file = record d.file { errors = write_failed ∷ [] } }))

  -- The listener of `FileWriteEvent`.
  unfoldable pub on_stored : ℕ → Bool → Downloader P → Downloader P
  on_stored size active d = on_write active (
      needs (is_filled d.buffer) (record d {
        offset_file = add_size d.offset_file size;
        buffer = advance size d.buffer;
        writing = none;
        stored = d.stored ++ confirmed size d.writing;
      }))

  -- The listeners of `FileCloseEvent`.
  unfoldable pub on_closed : OnClose → Downloader P → Downloader P
  on_closed file_closed d =
      let d' = needs d.file.present (record d {
        file_operation_started = false;
        file_openned = false;
        file = clear_file d.file;
      }) in
      if d.socket_connected then d' else update_status Jobs.done (codes "Downloading complete") d'
  on_closed unlinks_file d = emit (unlinks d.fname) d
