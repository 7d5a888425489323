-- ===== src/Downloader/Safety/FileSide.antt =====
-- The side of the file uses no null pointer.
use ecwid_console_downloader.Base.{
  ℕ, ◌≡◌, refl, Bool, true, none, false, not, ◌||◌, List, [], ◌∷◌, ◌++◌, if_both, arith, add_size,
}
use ecwid_console_downloader.Socket.{DataChunk}
use ecwid_console_downloader.Downloader.State.{Downloader, needs, write_failed}
use ecwid_console_downloader.Downloader.File.{
  is_filled, advance, confirmed, close_file, wait_data, write_chunk, write_front, on_write, on_open,
  on_stored,
}
use ecwid_console_downloader.Downloader.Safety.{net_of, Files}

-- What the file does leaves the network as it is.
pub record Writes {P : Type 0} (d e : Downloader P) : Type 0 where
  pub net_same : net_of e ≡ net_of d
  pub present_same : e.file.present ≡ true
  pub status_same : e.m_status ≡ d.m_status
  pub sound : e.crashed ≡ false
  pub files : Files e

module _ {P : Type 0} where
  close_file-Writes :
      (d : Downloader P)
      → d.crashed ≡ false
      → d.file.present ≡ true
      → d.receive_done ≡ true
      → Writes d (close_file d)
  unfolding close_file
  close_file-Writes d s p r = record {
    net_same = refl;
    present_same = p;
    status_same = refl;
    sound = ground arith;
    files = record { there = refl; closing = ground arith; filled = refl; backed = refl };
  }

  wait_data-Writes :
      (active : Bool) (d : Downloader P)
      → d.crashed ≡ false
      → d.file.present ≡ true
      → d.socket.present ≡ true
      → (not d.file.on_write || is_filled d.buffer) ≡ true
      → Writes d (wait_data active d)
  unfolding wait_data
  wait_data-Writes active d s p k f =
      if_both (Writes d) active _ _
        (λ a. record {
          net_same = refl;
          present_same = p;
          status_same = refl;
          sound = ground arith;
          files = record {
            there = ground arith;
            closing = ground arith;
            filled = f;
            backed = ground arith;
          };
        })
        (λ a. record {
          net_same = refl;
          present_same = p;
          status_same = refl;
          sound = ground arith;
          files = record {
            there = ground arith;
            closing = ground arith;
            filled = f;
            backed = ground arith;
          };
        })

  -- `on_write` at a file that is there, with a socket unless all was received.
  write_front-Writes :
      (b : List DataChunk) (active : Bool) (d : Downloader P)
      → b ≡ d.buffer
      → d.crashed ≡ false
      → d.file.present ≡ true
      → (d.receive_done || d.socket.present) ≡ true
      → (not d.file.on_write || is_filled d.buffer) ≡ true
      → Writes d (write_front b active d)
  unfolding write_front write_chunk
  write_front-Writes (c ∷ cs) active d b s p r f = record {
    net_same = refl;
    present_same = p;
    status_same = refl;
    sound = ground arith;
    files = record {
      there = ground arith;
      closing = ground arith;
      filled = ground (arith, b);
      backed = ground arith;
    };
  }
  write_front-Writes [] active d b s p r f =
      if_both (Writes d) d.receive_done _ _ (λ all. close_file-Writes d s p all)
        (λ more. wait_data-Writes active d s p (ground (arith, more, r)) f)

  pub on_write-Writes :
      (active : Bool) (d : Downloader P)
      → d.crashed ≡ false
      → d.file.present ≡ true
      → (d.receive_done || d.socket.present) ≡ true
      → (not d.file.on_write || is_filled d.buffer) ≡ true
      → Writes d (on_write active d)
  unfolding on_write
  on_write-Writes active d s p r f = write_front-Writes d.buffer active d refl s p r f

  -- The events of the file.
  pub opened-Writes :
      (active : Bool) (d : Downloader P)
      → d.crashed ≡ false
      → Files d
      → d.file.on_open ≡ true
      → Writes d (on_open active (record d { file = record d.file { on_open = false } }))
  unfolding on_open
  opened-Writes active d s h o =
      let w =
        on_write-Writes active
          (needs d.file.present (record d {
            file_openned = true;
            file = record d.file { on_open = false; errors = write_failed ∷ [] };
          }))
          (ground (arith, h.there, o)) (ground (arith, h.there, o)) (ground (arith, h.backed, o))
          h.filled in
      record {
        net_same = w.net_same;
        present_same = w.present_same;
        status_same = w.status_same;
        sound = w.sound;
        files = w.files;
      }

  pub stored-Writes :
      (size : ℕ) (active : Bool) (d : Downloader P)
      → d.crashed ≡ false
      → Files d
      → d.file.on_write ≡ true
      → Writes d (on_stored size active (record d { file = record d.file { on_write = false } }))
  unfolding on_stored
  stored-Writes size active d s h o =
      let w =
        on_write-Writes active
          (needs (is_filled d.buffer) (record d {
            offset_file = add_size d.offset_file size;
            buffer = advance size d.buffer;
            writing = none;
            stored = d.stored ++ confirmed size d.writing;
            file = record d.file { on_write = false };
          }))
          (ground (arith, h.filled, o)) (ground (arith, h.there, o)) (ground (arith, h.backed, o))
          refl in
      record {
        net_same = w.net_same;
        present_same = w.present_same;
        status_same = w.status_same;
        sound = w.sound;
        files = w.files;
      }
