-- ===== src/Downloader/Orders.antt =====
-- Orders of events in which a download that succeeds is reported twice, or not at all.
use ecwid_console_downloader.Base.{
  ℕ, ◌+◌, ◌-◌, ◌≤◌, ◌≡◌, refl, sym, ap, ◌∙◌, subst, min, Bool, true, false, some, List, [], ◌∷◌,
  ◌++◌, append_assoc, codes, length, All, arith, ◌==◌,
}
use ecwid_console_downloader.Socket.{DataChunk}
use ecwid_console_downloader.Jobs
use ecwid_console_downloader.Jobs.{StatusDownloader}
use ecwid_console_downloader.Http.{ResponseParseResult, done}
use ecwid_console_downloader.Downloader.State.{
  Downloader, no_resolver, no_file, write_failed, stream_ended, then_done, update_status,
}
use ecwid_console_downloader.Downloader.File.{
  Answer, on_open, on_write, write_front, write_chunk, on_stored, on_closed, close_file, advance,
  asked,
}
use ecwid_console_downloader.Downloader.Net.{
  Parser, on_shut, on_read, read_with, take_pieces, after_parse, conclude, close_handles,
}
use ecwid_console_downloader.Downloader.Events.{
  Event, ended, shut, file_opened, file_written, file_closed, shut_all, close_all, end_all,
  end_with, deliver, deliver_all,
}
use ecwid_console_downloader.Downloader.Silence.{IsMute, IsSilent}
use ecwid_console_downloader.Downloader.Failure.{deliver_all-Unheard}

-- The report of a download that is complete.
abbrev pub complete : StatusDownloader → StatusDownloader
complete s = record s { state = Jobs.done; state_str = codes "Downloading complete" }

-- The shutdown first, and then the life of the file.
abbrev pub race : ℕ → Bool → List Event
race size active = shut ∷ file_opened active ∷ file_written size active ∷ file_closed ∷ []

module _ {P : Type 0} where
  -- All was received as one chunk; the socket shuts down, and the file is still being opened.
  abbrev pub opening : DataChunk → Downloader P → Downloader P
  opening c d = record d {
    receive_done = true;
    socket_connected = true;
    socket = record d.socket { on_shutdown = then_done ∷ [] };
    file = record d.file { present = true; on_open = true };
    file_openned = false;
    buffer = c ∷ [];
  }

  -- The file is open and has nothing to write; the response ends with its connection.
  abbrev pub drained : P → Downloader P → Downloader P
  drained p d = record d {
    resolver = no_resolver;
    socket = record d.socket { on_end = stream_ended ∷ [] };
    http_parser = some p;
    file = record no_file { present = true; errors = write_failed ∷ [] };
    file_openned = true;
    file_operation_started = false;
    buffer = [];
    m_status = record d.m_status { state = Jobs.on_the_go };
  }

module _ {P : Type 0} (parser : Parser P) where
  -- Its bytes are all confirmed by the write.
  filled_write :
      (size : ℕ) (c : DataChunk)
      → c.offset ≤ length c.bytes
      → length c.bytes - c.offset ≤ size
      → (c.offset + min size (length c.bytes - c.offset) == length c.bytes) ≡ true
  filled_write size c range all = ground arith

  module _ (size : ℕ) (active : Bool) (c : DataChunk) (d : Downloader P)
      (range : c.offset ≤ length c.bytes) (all : length c.bytes - c.offset ≤ size) where
    -- When the shutdown comes before the file is open, the download is reported complete at once, and
    -- again when the file has closed.
    pub race-reports :
        (deliver_all parser (race size active) (opening c d)).ticks
        ≡ d.ticks ++ (complete d.m_status ∷ complete d.m_status ∷ [])
    unfolding deliver deliver_all shut_all close_all on_shut on_open on_write write_front
        write_chunk on_stored on_closed close_file advance asked update_status
    race-reports = simp (filled_write size c range all) (append_assoc d.ticks _ _)

    -- When it comes later, the download is reported complete once.
    after_open :
        (deliver_all parser
          (file_opened active ∷ shut ∷ file_written size active ∷ file_closed ∷ [])
          (opening c d)).ticks
        ≡ d.ticks ++ (complete d.m_status ∷ [])
    unfolding deliver deliver_all shut_all close_all on_shut on_open on_write write_front
        write_chunk on_stored on_closed close_file advance asked update_status
    after_open = simp (filled_write size c range all)

    after_write :
        (deliver_all parser
          (file_opened active ∷ file_written size active ∷ shut ∷ file_closed ∷ [])
          (opening c d)).ticks
        ≡ d.ticks ++ (complete d.m_status ∷ [])
    unfolding deliver deliver_all shut_all close_all on_shut on_open on_write write_front
        write_chunk on_stored on_closed close_file advance asked update_status
    after_write = simp (filled_write size c range all)

    after_close :
        (deliver_all parser
          (file_opened active ∷ file_written size active ∷ file_closed ∷ shut ∷ [])
          (opening c d)).ticks
        ≡ d.ticks ++ (complete d.m_status ∷ [])
    unfolding deliver deliver_all shut_all close_all on_shut on_open on_write write_front
        write_chunk on_stored on_closed close_file advance asked update_status
    after_close = simp (filled_write size c range all)

  drained-IsSilent :
      (answer : ℕ → Answer) (p q : P) (result : ResponseParseResult) (d : Downloader P)
      → parser.parse [] p ≡ (q, [], record result { state = done })
      → IsSilent (deliver_all parser (ended answer ∷ shut ∷ []) (drained p d))
  unfolding deliver deliver_all end_all end_with on_read read_with take_pieces after_parse conclude
      close_handles shut_all on_shut update_status
  drained-IsSilent answer p q result d e = rw e (record {
    resolver_errors = refl;
    resolver_info = refl;
    socket_errors = refl;
    socket_connect = refl;
    socket_write = refl;
    socket_end = refl;
    socket_data = refl;
    socket_shutdown = refl;
    timer_errors = refl;
    timer_timer = refl;
    file_open = refl;
    file_write = refl;
    file_close = tt;
  })

  drained_lem :
      (answer : ℕ → Answer) (p q : P) (result : ResponseParseResult) (d : Downloader P)
      → parser.parse [] p ≡ (q, [], record result { state = done })
      → let d' = deliver_all parser (ended answer ∷ shut ∷ []) (drained p d) in
        (d'.ticks ≡ d.ticks)
        × (d'.m_status.state ≡ Jobs.on_the_go)
        × (d'.file.errors ≡ write_failed ∷ [])
  unfolding deliver deliver_all end_all end_with on_read read_with take_pieces after_parse conclude
      close_handles shut_all on_shut update_status
  drained_lem answer p q result d e = rw e (refl, refl, refl)

  -- Let the file have confirmed all its bytes before the connection ends, and the parser then say that
  -- the response is done, with no further piece. After the shutdown of the socket no event, except an
  -- error of the file, is heard any more: the download is never reported, and its status stays
  -- "on the go".
  pub drained-never :
      (answer : ℕ → Answer) (p q : P) (result : ResponseParseResult) (es : List Event)
      (d : Downloader P)
      → parser.parse [] p ≡ (q, [], record result { state = done })
      → All (IsMute (write_failed ∷ [])) es
      → let d' =
          deliver_all parser es (deliver_all parser (ended answer ∷ shut ∷ []) (drained p d)) in
        (d'.ticks ≡ d.ticks) × (d'.m_status.state ≡ Jobs.on_the_go)
  drained-never answer p q result es d e mute =
      let (t, s, f) = drained_lem answer p q result d e in
      let u =
        deliver_all-Unheard parser es _ (drained-IsSilent answer p q result d e)
          (subst (λ hs. All (IsMute hs) es) (sym f) mute) in
      (u.ticks_same ∙ t, ap (λ (m : StatusDownloader). m.state) u.status_same ∙ s)

  -- Everything was received as one chunk, and the write confirms all of it. If the shutdown of the
  -- socket comes before the file is open, the download is reported complete twice; in each of the
  -- three orders in which it comes later, once.
  pub opening-reports :
      (size : ℕ) (active : Bool) (c : DataChunk) (d : Downloader P)
      → c.offset ≤ length c.bytes
      → length c.bytes - c.offset ≤ size
      → ((deliver_all parser (race size active) (opening c d)).ticks
          ≡ d.ticks ++ (complete d.m_status ∷ complete d.m_status ∷ []))
        × ((deliver_all parser
              (file_opened active ∷ shut ∷ file_written size active ∷ file_closed ∷ [])
              (opening c d)).ticks
            ≡ d.ticks ++ (complete d.m_status ∷ []))
        × ((deliver_all parser
              (file_opened active ∷ file_written size active ∷ shut ∷ file_closed ∷ [])
              (opening c d)).ticks
            ≡ d.ticks ++ (complete d.m_status ∷ []))
        × ((deliver_all parser
              (file_opened active ∷ file_written size active ∷ file_closed ∷ shut ∷ [])
              (opening c d)).ticks
            ≡ d.ticks ++ (complete d.m_status ∷ []))
  opening-reports size active c d range all = (
    race-reports size active c d range all,
    after_open size active c d range all,
    after_write size active c d range all,
    after_close size active c d range all,
  )
