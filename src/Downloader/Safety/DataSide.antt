-- ===== src/Downloader/Safety/DataSide.antt =====
-- `on_data` uses no null pointer, though opening the file may fail at once.
use ecwid_console_downloader.Base.{
  ℕ, ◌≡◌, refl, ap, ◌∙◌, Bool, true, false, not, ◌&&◌, Option, none, some, List, [], ◌∷◌, ◌++◌, inl,
  inr, ◌⊎◌, if◌then◌else◌, if_both, arith, leb, length,
}
use ecwid_console_downloader.Socket.{DataChunk}
use ecwid_console_downloader.Downloader.State.{
  Downloader, Failure, unlinks_file, is_failed, on_error, on_error_without_tick, terminate_handles,
  terminate_resolver, terminate_socket, terminate_timer, terminate_file, fail_all, fail_with,
  fail_file,
}
use ecwid_console_downloader.Downloader.File.{
  Answer, is_filled, fail_file_by, open_file, push_data, hold_back, ensure_file, resume_file,
  on_data,
}
use ecwid_console_downloader.Downloader.Net.{Parser, take_pieces}
use ecwid_console_downloader.Downloader.Safety.{net_of, hushed, closes, Files}
use ecwid_console_downloader.Downloader.Safety.FileSide.{on_write-Writes}

abbrev pub has_failed : {P : Type 0} → Downloader P → Bool
has_failed d = is_failed d.m_status.state

-- What data does: the network is the same, or the download has failed and nothing is listened to.
pub record Takes {P : Type 0} (d e : Downloader P) : Type 0 where
  pub net_kept : (net_of e ≡ net_of d) ⊎ ((net_of e ≡ hushed (net_of d)) × (has_failed e ≡ true))
  pub stays : has_failed d ≡ true → has_failed e ≡ true
  pub sound : e.crashed ≡ false
  pub files : Files e

filled-append : (b : List DataChunk) (c : DataChunk) → is_filled (b ++ (c ∷ [])) ≡ true
filled-append [] c = refl
filled-append (x ∷ b) c = refl

pub unlinks-closes : (b : Bool) → closes (if b then unlinks_file ∷ [] else []) ≡ false
unlinks-closes true = refl
unlinks-closes false = refl

module _ {P : Type 0} where
  net_trans :
      {d e f : Downloader P}
      → Takes d e
      → Takes e f
      → (net_of f ≡ net_of d) ⊎ ((net_of f ≡ hushed (net_of d)) × (has_failed f ≡ true))
  net_trans t u = elim t.net_kept [
    | inl p ↦ elim u.net_kept [ inl q ↦ inl (q ∙ p) | inr q ↦ inr (q.0 ∙ ap hushed p, q.1) ]
    | inr p ↦ elim u.net_kept [
      | inl q ↦ inr (q ∙ p.0, u.stays p.1)
      | inr q ↦ inr (q.0 ∙ ap hushed p.0, q.1)
    ]
  ]

  Takes-socket :
      {d e : Downloader P} → Takes d e → d.socket.present ≡ true → e.socket.present ≡ true
  Takes-socket t k = elim t.net_kept [
    | inl p ↦ ap (λ n. n.socket) p ∙ k
    | inr p ↦ ap (λ n. n.socket) p.0 ∙ k
  ]

  Takes-trans : {d e f : Downloader P} → Takes d e → Takes e f → Takes d f
  Takes-trans t u = record {
    net_kept = net_trans t u;
    stays = λ f. u.stays (t.stays f);
    sound = u.sound;
    files = u.files;
  }

  Takes-refl : (d : Downloader P) → d.crashed ≡ false → Files d → Takes d d
  Takes-refl d s h = record { net_kept = inl refl; stays = λ f. f; sound = s; files = h }

  push_data-Takes :
      (bytes : List ℕ) (d : Downloader P)
      → d.crashed ≡ false
      → Files d
      → Takes d (push_data bytes d)
  unfolding push_data
  push_data-Takes bytes d s h = record {
    net_kept = inl refl;
    stays = λ f. f;
    sound = s;
    files = record {
      there = h.there;
      closing = h.closing;
      filled = ground (arith, filled-append d.buffer (record { bytes = bytes; offset = 0 }));
      backed = h.backed;
    };
  }

  hold_back-Takes :
      (active : Bool) (d : Downloader P)
      → d.crashed ≡ false
      → d.socket.present ≡ true
      → Files d
      → Takes d (hold_back active d)
  unfolding hold_back
  hold_back-Takes active d s k h =
      if_both (Takes d) (leb d.backlog (length d.buffer)) _ _
        (λ full.
          if_both (Takes d) active _ _
            (λ a. record {
              net_kept = inl refl;
              stays = λ f. f;
              sound = ground arith;
              files = record {
                there = h.there;
                closing = h.closing;
                filled = h.filled;
                backed = h.backed;
              };
            })
            (λ a. record {
              net_kept = inl refl;
              stays = λ f. f;
              sound = ground arith;
              files = record {
                there = h.there;
                closing = h.closing;
                filled = h.filled;
                backed = h.backed;
              };
            }))
        (λ more. Takes-refl d s h)

  open_file-Takes :
      (fails : Option Failure) (d : Downloader P)
      → d.crashed ≡ false
      → d.socket.present ≡ true
      → Takes d (open_file fails d)
  unfolding open_file fail_file_by fail_file fail_all fail_with on_error on_error_without_tick
      terminate_handles terminate_resolver terminate_socket terminate_timer terminate_file
  open_file-Takes none d s k = record {
    net_kept = inl refl;
    stays = λ f. f;
    sound = s;
    files = record { there = refl; closing = refl; filled = refl; backed = ground arith };
  }
  open_file-Takes (some e) d s k = record {
    net_kept = inr (refl, refl);
    stays = λ f. refl;
    sound = s;
    files = record {
      there = refl;
      closing = ground (arith, unlinks-closes d.file_openned);
      filled = refl;
      backed = refl;
    };
  }

  ensure_file-Takes :
      (fails : Option Failure) (d : Downloader P)
      → d.crashed ≡ false
      → d.socket.present ≡ true
      → Files d
      → Takes d (ensure_file fails d)
  unfolding ensure_file
  ensure_file-Takes fails d s k h =
      if_both (Takes d) d.file.present _ _ (λ p. Takes-refl d s h)
        (λ p. open_file-Takes fails d s k)

  open_file-present :
      (fails : Option Failure) (d : Downloader P) → (open_file fails d).file.present ≡ true
  unfolding open_file fail_file_by fail_file fail_all fail_with on_error on_error_without_tick
      terminate_handles terminate_resolver terminate_socket terminate_timer terminate_file
  open_file-present none d = refl
  open_file-present (some e) d = refl

  ensure_file-present :
      (fails : Option Failure) (d : Downloader P) → (ensure_file fails d).file.present ≡ true
  unfolding ensure_file
  ensure_file-present fails d =
      if_both (λ e. e.file.present ≡ true) d.file.present d (open_file fails d) (λ p. p)
        (λ p. open_file-present fails d)

  resume_file-Takes :
      (active : Bool) (d : Downloader P)
      → d.crashed ≡ false
      → d.socket.present ≡ true
      → d.file.present ≡ true
      → Files d
      → Takes d (resume_file active d)
  unfolding resume_file
  resume_file-Takes active d s k p h =
      if_both (Takes d) (d.file_openned && not d.file_operation_started) _ _
        (λ r.
          let w =
            on_write-Writes active (record d { file_operation_started = true }) s p (ground arith)
              h.filled in
          record {
            net_kept = inl w.net_same;
            stays = λ f. ap (λ m. is_failed m.state) w.status_same ∙ f;
            sound = w.sound;
            files = w.files;
          })
        (λ r. Takes-refl d s h)

  on_data-Takes :
      (bytes : List ℕ) (a : Answer) (d : Downloader P)
      → d.crashed ≡ false
      → d.socket.present ≡ true
      → Files d
      → Takes d (on_data bytes a d)
  unfolding on_data
  on_data-Takes bytes a d s k h =
      let t = push_data-Takes bytes d s h in
      let u = hold_back-Takes a.active (push_data bytes d) t.sound (Takes-socket t k) t.files in
      let tu = Takes-trans t u in
      let v =
        ensure_file-Takes a.open_fails (hold_back a.active (push_data bytes d)) u.sound
          (Takes-socket tu k) u.files in
      let tv = Takes-trans tu v in
      Takes-trans tv (
        resume_file-Takes a.active
          (ensure_file a.open_fails (hold_back a.active (push_data bytes d))) v.sound
          (Takes-socket tv k)
          (ensure_file-present a.open_fails (hold_back a.active (push_data bytes d))) v.files)

module _ {P : Type 0} (parser : Parser P) where
  pub take_pieces-Takes :
      (pieces : List (List ℕ)) (answer : ℕ → Answer) (d : Downloader P)
      → d.crashed ≡ false
      → d.socket.present ≡ true
      → Files d
      → Takes d (take_pieces parser pieces answer d)
  unfolding take_pieces
  take_pieces-Takes [] answer d s k h = record {
    net_kept = inl refl;
    stays = λ f. f;
    sound = s;
    files = h;
  }
  take_pieces-Takes (bytes ∷ pieces) answer d s k h =
      let t = on_data-Takes bytes (answer (length pieces)) d s k h in
      Takes-trans t (
        take_pieces-Takes pieces answer (on_data bytes (answer (length pieces)) d) t.sound
          (Takes-socket t k) t.files)
