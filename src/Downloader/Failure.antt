-- ===== src/Downloader/Failure.antt =====
-- A download that has failed is over: nothing that its handles may still publish is heard.
use ecwid_console_downloader.Base.{
  ℕ, ◌≡◌, refl, sym, ap, ◌∙◌, subst, List, [], ◌∷◌, ◌++◌, All, if_false,
}
use ecwid_console_downloader.Jobs.{failed}
use ecwid_console_downloader.Downloader.State.{
  Downloader, OnEnd, OnData, file_closed, on_error, on_error_without_tick, terminate_handles,
  terminate_resolver, terminate_socket, terminate_timer, terminate_file, fail_resolver, fail_socket,
  fail_timer, fail_file,
}
use ecwid_console_downloader.Downloader.File.{Answer}
use ecwid_console_downloader.Downloader.Net.{Parser}
use ecwid_console_downloader.Downloader.Events.{
  Event, resolver_fails, socket_fails, timer_fails, file_fails, addr_info, connected,
  request_written, data_read, ended, shut, timer_ran, file_opened, file_written, file_closed,
  end_all, read_all, deliver, deliver_all,
}
use ecwid_console_downloader.Downloader.Silence.{
  IsMute, none_heard, IsSilent, on_error-IsSilent, fail_all-none, shut_all-none, time_out_all-none,
  Unheard, Unheard-refl, Unheard-trans, same-Unheard, close_all-Unheard,
}

module _ {P : Type 0} (parser : Parser P) where
  end_all-none :
      (answer : ℕ → Answer) (hs : List OnEnd) (d : Downloader P)
      → hs ≡ []
      → end_all parser answer hs d ≡ d
  unfolding end_all
  end_all-none answer [] d h = refl
  end_all-none answer (x ∷ hs) d h = cc

  read_all-none :
      (bytes : List ℕ) (answer : ℕ → Answer) (hs : List OnData) (d : Downloader P)
      → hs ≡ []
      → read_all parser bytes answer hs d ≡ d
  unfolding read_all
  read_all-none bytes answer [] d h = refl
  read_all-none bytes answer (x ∷ []) d h = cc
  read_all-none bytes answer (x ∷ y ∷ hs) d h = cc

  deliver-Unheard :
      (e : Event) (d : Downloader P)
      → IsSilent d
      → IsMute d.file.errors e
      → Unheard d (deliver parser e d)
  unfolding deliver fail_resolver fail_socket fail_timer fail_file
  deliver-Unheard (resolver_fails e) d s m = same-Unheard d _ s (
      fail_all-none d.resolver.errors e _ s.resolver_errors
      ∙ ap (λ l. record d { resolver = record d.resolver { errors = l } }) (sym s.resolver_errors))
  deliver-Unheard (socket_fails e) d s m = same-Unheard d _ s (
      fail_all-none d.socket.errors e _ s.socket_errors
      ∙ ap (λ l. record d { socket = record d.socket { errors = l } }) (sym s.socket_errors))
  deliver-Unheard (timer_fails e) d s m = same-Unheard d _ s (
      fail_all-none d.net_timer.errors e _ s.timer_errors
      ∙ ap (λ l. record d { net_timer = record d.net_timer { errors = l } }) (sym s.timer_errors))
  deliver-Unheard (file_fails e) d s m = same-Unheard d _ s (
      fail_all-none d.file.errors e _ m
      ∙ ap (λ l. record d { file = record d.file { errors = l } }) (sym m))
  deliver-Unheard (addr_info ip v6 fails) d s m = same-Unheard d _ s (if_false _ s.resolver_info)
  deliver-Unheard (connected fails) d s m = same-Unheard d _ s (if_false _ s.socket_connect)
  deliver-Unheard (request_written fails) d s m = same-Unheard d _ s (if_false _ s.socket_write)
  deliver-Unheard (data_read bytes answer) d s m = same-Unheard d _ s (
      read_all-none bytes answer d.socket.on_data _ s.socket_data
      ∙ ap (λ l. record d { socket = record d.socket { on_data = l } }) (sym s.socket_data))
  deliver-Unheard (ended answer) d s m = same-Unheard d _ s (
      end_all-none answer d.socket.on_end _ s.socket_end
      ∙ ap (λ l. record d { socket = record d.socket { on_end = l } }) (sym s.socket_end))
  deliver-Unheard shut d s m = same-Unheard d _ s (
      shut_all-none d.socket.on_shutdown _ s.socket_shutdown
      ∙ ap (λ l. record d { socket = record d.socket { on_shutdown = l } }) (sym s.socket_shutdown))
  deliver-Unheard timer_ran d s m = same-Unheard d _ s (
      time_out_all-none d.net_timer.on_timer _ s.timer_timer
      ∙ ap (λ l. record d { net_timer = record d.net_timer { on_timer = l } }) (sym s.timer_timer))
  deliver-Unheard (file_opened active) d s m = same-Unheard d _ s (if_false _ s.file_open)
  deliver-Unheard (file_written size active) d s m = same-Unheard d _ s (if_false _ s.file_write)
  deliver-Unheard file_closed d s m =
      let quiet : Downloader P = record d { file = record d.file { on_close = [] } } in
      let k = close_all-Unheard d.file.on_close quiet s.file_close (record {
        resolver_errors = s.resolver_errors;
        resolver_info = s.resolver_info;
        socket_errors = s.socket_errors;
        socket_connect = s.socket_connect;
        socket_write = s.socket_write;
        socket_end = s.socket_end;
        socket_data = s.socket_data;
        socket_shutdown = s.socket_shutdown;
        timer_errors = s.timer_errors;
        timer_timer = s.timer_timer;
        file_open = s.file_open;
        file_write = s.file_write;
        file_close = tt;
      }) in
      record {
        silent = k.silent;
        ticks_same = k.ticks_same;
        status_same = k.status_same;
        errors_same = k.errors_same;
      }

  pub deliver_all-Unheard :
      (es : List Event) (d : Downloader P)
      → IsSilent d
      → All (IsMute d.file.errors) es
      → Unheard d (deliver_all parser es d)
  unfolding deliver_all
  deliver_all-Unheard [] d s m = Unheard-refl d s
  deliver_all-Unheard (e ∷ es) d s m =
      let u = deliver-Unheard e d s m.0 in
      Unheard-trans u (
        deliver_all-Unheard es (deliver parser e d) u.silent
          (subst (λ hs. All (IsMute hs) es) (sym u.errors_same) m.1))

  -- From any state, whatever has gone before: once `on_error` was called, with the text of any error
  -- or of `stop`, the failure is reported once, and no later event of any handle reports again or
  -- changes the status.
  pub on_error-final :
      (text : List ℕ) (es : List Event) (d : Downloader P)
      → let d' = deliver_all parser es (on_error text d) in
        (d'.ticks ≡ d.ticks ++ (record d.m_status { state = failed; state_str = text } ∷ []))
        × (d'.m_status ≡ record d.m_status { state = failed; state_str = text })
  unfolding on_error on_error_without_tick terminate_handles terminate_resolver terminate_socket
      terminate_timer terminate_file
  on_error-final text es d =
      let u =
        deliver_all-Unheard es (on_error text d) (on_error-IsSilent text d)
          (none_heard (on_error text d).file.errors refl es) in
      (u.ticks_same, u.status_same)
