-- ===== src/Downloader/Safety/FileEvents.antt =====
-- The events of the file keep a download safe.
use ecwid_console_downloader.Base.{
  ℕ, ◌≡◌, refl, sym, ◌∙◌, subst, Bool, true, false, not, ◌||◌, List, [], ◌∷◌, if_both, arith,
}
use ecwid_console_downloader.Downloader.State.{
  Downloader, OnClose, file_closed, unlinks_file, update_status,
}
use ecwid_console_downloader.Downloader.File.{on_open, on_stored, on_closed}
use ecwid_console_downloader.Downloader.Events.{close_all}
use ecwid_console_downloader.Downloader.Safety.{
  Course, NetView, net_of, works, closes, Phase, silent, resolving, connecting, writing, waiting,
  reading, closing_done, closing_redirect, IsSafe,
}
use ecwid_console_downloader.Downloader.Safety.FileSide.{Writes, opened-Writes, stored-Writes}

module _ {P : Type 0} (m : Course P) where
  true_false : {A : Type 0} (b : Bool) → b ≡ true → b ≡ false → A
  true_false b p q = ground arith

  -- A file at work goes on as it likes: the phase is one that has a file.
  work-Phase : (n : NetView P) (p b w : Bool) → p ≡ true → b ≡ true → Phase m n p b → Phase m n p w
  work-Phase n p b w i j (silent h) = silent h
  work-Phase n p b w i j (resolving h k t u a) = true_false p i a
  work-Phase n p b w i j (connecting h k t u a) = true_false p i a
  work-Phase n p b w i j (writing h k t a) = true_false p i a
  work-Phase n p b w i j (waiting e r h k t a) = true_false p i a
  work-Phase n p b w i j (reading e t q r f) = reading e t q r f
  work-Phase n p b w i j (closing_done h k r) = closing_done h k r
  work-Phase n p b w i j (closing_redirect h k a) = true_false b j a

  -- A file stops working.
  rest-Phase : (n : NetView P) (p b : Bool) → Phase m n p b → Phase m n p false
  rest-Phase n p b (silent h) = silent h
  rest-Phase n p b (resolving h k t u a) = resolving h k t u a
  rest-Phase n p b (connecting h k t u a) = connecting h k t u a
  rest-Phase n p b (writing h k t a) = writing h k t a
  rest-Phase n p b (waiting e r h k t a) = waiting e r h k t a
  rest-Phase n p b (reading e t q r f) = reading e t q r f
  rest-Phase n p b (closing_done h k r) = closing_done h k r
  rest-Phase n p b (closing_redirect h k a) = closing_redirect h k refl

  Writes-IsSafe :
      (d e : Downloader P)
      → Writes d e
      → works d ≡ true
      → d.file.present ≡ true
      → IsSafe m d
      → IsSafe m e
  Writes-IsSafe d e w b p h = record {
    sound = w.sound;
    files = w.files;
    phase =
        subst (λ n. Phase m n e.file.present (works e)) (sym w.net_same)
          (subst (λ a. Phase m (net_of d) a (works e)) (p ∙ sym w.present_same)
            (work-Phase (net_of d) d.file.present (works d) (works e) p b h.phase));
  }

  pub opened-IsSafe :
      (active : Bool) (d : Downloader P)
      → d.file.on_open ≡ true
      → IsSafe m d
      → IsSafe m (on_open active (record d { file = record d.file { on_open = false } }))
  opened-IsSafe active d o h =
      Writes-IsSafe d _ (opened-Writes active d h.sound h.files o) (ground arith)
        (ground (arith, h.files.there)) h

  pub stored-IsSafe :
      (size : ℕ) (active : Bool) (d : Downloader P)
      → d.file.on_write ≡ true
      → IsSafe m d
      → IsSafe m (on_stored size active (record d { file = record d.file { on_write = false } }))
  stored-IsSafe size active d o h =
      Writes-IsSafe d _ (stored-Writes size active d h.sound h.files o) (ground arith)
        (ground (arith, h.files.there)) h

  on_closed-IsSafe :
      (d : Downloader P) → IsSafe m d → d.file.present ≡ true → IsSafe m (on_closed file_closed d)
  unfolding on_closed update_status
  on_closed-IsSafe d h p =
      if_both (IsSafe m) d.socket_connected _ _
        (λ c. record {
          sound = ground (arith, h.sound);
          files = record { there = refl; closing = refl; filled = refl; backed = refl };
          phase = rest-Phase _ _ _ h.phase;
        })
        (λ c. record {
          sound = ground (arith, h.sound);
          files = record { there = refl; closing = refl; filled = refl; backed = refl };
          phase = rest-Phase _ _ _ h.phase;
        })

  on_unlink-IsSafe : (d : Downloader P) → IsSafe m d → IsSafe m (on_closed unlinks_file d)
  unfolding on_closed
  on_unlink-IsSafe d h = record {
    sound = h.sound;
    files = record {
      there = h.files.there;
      closing = h.files.closing;
      filled = h.files.filled;
      backed = h.files.backed;
    };
    phase = h.phase;
  }

  on_closed-present :
      (h : OnClose) (d : Downloader P) → (on_closed h d).file.present ≡ d.file.present
  unfolding on_closed update_status
  on_closed-present file_closed d =
      if_both (λ (x : Downloader P). x.file.present ≡ d.file.present) d.socket_connected _ _
        (λ c. refl) (λ c. refl)
  on_closed-present unlinks_file d = refl

  close_all-IsSafe :
      (hs : List OnClose) (d : Downloader P)
      → (not (closes hs) || d.file.present) ≡ true
      → IsSafe m d
      → IsSafe m (close_all hs d)
  unfolding close_all
  close_all-IsSafe [] d c h = h
  close_all-IsSafe (file_closed ∷ hs) d c h =
      close_all-IsSafe hs (on_closed file_closed d)
        (ground (arith, on_closed-present file_closed d, c)) (on_closed-IsSafe d h c)
  close_all-IsSafe (unlinks_file ∷ hs) d c h =
      close_all-IsSafe hs (on_closed unlinks_file d)
        (ground (arith, on_closed-present unlinks_file d, c)) (on_unlink-IsSafe d h)

  pub file_closed-IsSafe :
      (d : Downloader P)
      → IsSafe m d
      → IsSafe m (close_all d.file.on_close (record d { file = record d.file { on_close = [] } }))
  file_closed-IsSafe d h = close_all-IsSafe d.file.on_close _ h.files.closing (record {
    sound = h.sound;
    files = record {
      there = h.files.there;
      closing = refl;
      filled = h.files.filled;
      backed = h.files.backed;
    };
    phase = h.phase;
  })
