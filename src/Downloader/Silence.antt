-- ===== src/Downloader/Silence.antt =====
-- The handles of a download that has failed have no listeners, but for the file to be removed.
use ecwid_console_downloader.Base.{
  ℕ, ◌≡◌, refl, sym, ◌∙◌, subst, Bool, true, false, List, [], ◌∷◌, ◌&&◌, All, if◌then◌else◌,
}
use ecwid_console_downloader.Jobs.{failed}
use ecwid_console_downloader.Downloader.State.{
  Downloader, Failure, OnError, OnShutdown, OnTimer, OnClose, unlinks_file, file_closed, set_status,
  on_error, on_error_without_tick, terminate_handles, terminate_resolver, terminate_socket,
  terminate_timer, terminate_file, fail_all,
}
use ecwid_console_downloader.Downloader.File.{on_closed}
use ecwid_console_downloader.Downloader.Events.{
  Event, resolver_fails, socket_fails, timer_fails, file_fails, addr_info, connected,
  request_written, data_read, ended, shut, timer_ran, file_opened, file_written, file_closed,
  time_out_all, shut_all, close_all,
}

-- An event that is not heard where the file has these listeners for its errors.
abbrev pub IsMute : List OnError → Event → Type 0
IsMute hs (file_fails e) = hs ≡ []
IsMute hs _ = Unit

abbrev pub IsUnlink : OnClose → Type 0
IsUnlink h = h ≡ unlinks_file

unlinks-All : (b : Bool) → All IsUnlink (if b then unlinks_file ∷ [] else [])
unlinks-All true = (refl, tt)
unlinks-All false = tt

pub none_heard : (hs : List OnError) → hs ≡ [] → (es : List Event) → All (IsMute hs) es
none_heard hs h [] = tt
none_heard hs h (file_fails e ∷ es) = (h, none_heard hs h es)
none_heard hs h (resolver_fails e ∷ es) = (tt, none_heard hs h es)
none_heard hs h (socket_fails e ∷ es) = (tt, none_heard hs h es)
none_heard hs h (timer_fails e ∷ es) = (tt, none_heard hs h es)
none_heard hs h (addr_info ip v6 fails ∷ es) = (tt, none_heard hs h es)
none_heard hs h (connected fails ∷ es) = (tt, none_heard hs h es)
none_heard hs h (request_written fails ∷ es) = (tt, none_heard hs h es)
none_heard hs h (data_read bytes answer ∷ es) = (tt, none_heard hs h es)
none_heard hs h (ended answer ∷ es) = (tt, none_heard hs h es)
none_heard hs h (shut ∷ es) = (tt, none_heard hs h es)
none_heard hs h (timer_ran ∷ es) = (tt, none_heard hs h es)
none_heard hs h (file_opened active ∷ es) = (tt, none_heard hs h es)
none_heard hs h (file_written size active ∷ es) = (tt, none_heard hs h es)
none_heard hs h (file_closed ∷ es) = (tt, none_heard hs h es)

module _ {P : Type 0} where
  -- No listener is left on any handle, but for the one that deletes the file, and perhaps those for an
  -- error of the file.
  pub record IsSilent (d : Downloader P) : Type 0 where
    pub resolver_errors : d.resolver.errors ≡ []
    pub resolver_info : d.resolver.on_addr_info ≡ false
    pub socket_errors : d.socket.errors ≡ []
    pub socket_connect : d.socket.on_connect ≡ false
    pub socket_write : d.socket.on_write ≡ false
    pub socket_end : d.socket.on_end ≡ []
    pub socket_data : d.socket.on_data ≡ []
    pub socket_shutdown : d.socket.on_shutdown ≡ []
    pub timer_errors : d.net_timer.errors ≡ []
    pub timer_timer : d.net_timer.on_timer ≡ []
    pub file_open : d.file.on_open ≡ false
    pub file_write : d.file.on_write ≡ false
    pub file_close : All IsUnlink d.file.on_close

  terminate_handles-IsSilent : (d : Downloader P) → IsSilent (terminate_handles d)
  unfolding terminate_handles terminate_resolver terminate_socket terminate_timer terminate_file
  terminate_handles-IsSilent d = record {
    resolver_errors = refl;
    resolver_info = refl;
    socket_errors = refl;
    socket_connect = refl;
    socket_write = refl;
    socket_end = refl;
    socket_data = refl;
    socket_shutdown = refl;
    timer_errors = refl;
    timer_timer = refl;
    file_open = refl;
    file_write = refl;
    file_close = unlinks-All (d.file.present && d.file_openned);
  }

  pub on_error-IsSilent : (text : List ℕ) (d : Downloader P) → IsSilent (on_error text d)
  unfolding on_error on_error_without_tick
  on_error-IsSilent text d =
      let s = terminate_handles-IsSilent (set_status failed text d) in
      record {
        resolver_errors = s.resolver_errors;
        resolver_info = s.resolver_info;
        socket_errors = s.socket_errors;
        socket_connect = s.socket_connect;
        socket_write = s.socket_write;
        socket_end = s.socket_end;
        socket_data = s.socket_data;
        socket_shutdown = s.socket_shutdown;
        timer_errors = s.timer_errors;
        timer_timer = s.timer_timer;
        file_open = s.file_open;
        file_write = s.file_write;
        file_close = s.file_close;
      }

  pub fail_all-none :
      (hs : List OnError) (e : Failure) (d : Downloader P) → hs ≡ [] → fail_all hs e d ≡ d
  unfolding fail_all
  fail_all-none [] e d h = refl
  fail_all-none (x ∷ hs) e d h = cc

  pub shut_all-none : (hs : List OnShutdown) (d : Downloader P) → hs ≡ [] → shut_all hs d ≡ d
  unfolding shut_all
  shut_all-none [] d h = refl
  shut_all-none (x ∷ hs) d h = cc

  pub time_out_all-none : (hs : List OnTimer) (d : Downloader P) → hs ≡ [] → time_out_all hs d ≡ d
  unfolding time_out_all
  time_out_all-none [] d h = refl
  time_out_all-none (x ∷ hs) d h = cc

  -- What an unheard event leaves: at most the deleted file is another effect.
  pub record Unheard (d d' : Downloader P) : Type 0 where
    pub silent : IsSilent d'
    pub ticks_same : d'.ticks ≡ d.ticks
    pub status_same : d'.m_status ≡ d.m_status
    pub errors_same : d'.file.errors ≡ d.file.errors

  pub Unheard-refl : (d : Downloader P) → IsSilent d → Unheard d d
  Unheard-refl d s = record {
    silent = s;
    ticks_same = refl;
    status_same = refl;
    errors_same = refl;
  }

  pub Unheard-trans : {c d e : Downloader P} → Unheard c d → Unheard d e → Unheard c e
  Unheard-trans p q = record {
    silent = q.silent;
    ticks_same = q.ticks_same ∙ p.ticks_same;
    status_same = q.status_same ∙ p.status_same;
    errors_same = q.errors_same ∙ p.errors_same;
  }

  pub same-Unheard : (d d' : Downloader P) → IsSilent d → d' ≡ d → Unheard d d'
  same-Unheard d d' s e = subst (Unheard d) (sym e) (Unheard-refl d s)

  unlink-Unheard : (d : Downloader P) → IsSilent d → Unheard d (on_closed unlinks_file d)
  unfolding on_closed
  unlink-Unheard d s = record {
    silent = record {
      resolver_errors = s.resolver_errors;
      resolver_info = s.resolver_info;
      socket_errors = s.socket_errors;
      socket_connect = s.socket_connect;
      socket_write = s.socket_write;
      socket_end = s.socket_end;
      socket_data = s.socket_data;
      socket_shutdown = s.socket_shutdown;
      timer_errors = s.timer_errors;
      timer_timer = s.timer_timer;
      file_open = s.file_open;
      file_write = s.file_write;
      file_close = s.file_close;
    };
    ticks_same = refl;
    status_same = refl;
    errors_same = refl;
  }

  pub close_all-Unheard :
      (hs : List OnClose) (d : Downloader P)
      → All IsUnlink hs
      → IsSilent d
      → Unheard d (close_all hs d)
  unfolding close_all
  close_all-Unheard [] d h s = Unheard-refl d s
  close_all-Unheard (x ∷ hs) d h s =
      let u : Unheard d (on_closed x d) =
        subst (λ k. Unheard d (on_closed k d)) (sym h.0) (unlink-Unheard d s) in
      Unheard-trans u (close_all-Unheard hs (on_closed x d) h.1 u.silent)
