-- ===== src/Downloader/Safety/Failing.antt =====
-- A failure leaves a download that is safe: `on_error` in every listener that leads to it.
use ecwid_console_downloader.Base.{
  ℕ, ◌≡◌, refl, Bool, false, ◌&&◌, List, [], ◌∷◌, if_both, arith, codes, ◌∙◌,
}
use ecwid_console_downloader.Downloader.State.{
  Downloader, Failure, OnError, OnTimer, resolve_failed, request_failed, response_failed,
  timer_failed, open_failed, write_failed, close_failed, connect_failed, connect_timeout,
  request_timeout, response_timeout, no_resolver, no_file, is_on_the_go, on_error,
  on_error_without_tick, terminate_handles, terminate_resolver, terminate_socket, terminate_timer,
  terminate_file, fail_all, fail_with, fail_resolver, fail_socket, fail_timer, fail_file, abort,
}
use ecwid_console_downloader.Downloader.Events.{time_out, time_out_all}
use ecwid_console_downloader.Downloader.Safety.{Course, silent, IsSafe}
use ecwid_console_downloader.Downloader.Safety.DataSide.{unlinks-closes}

abbrev opened_file : {P : Type 0} → Downloader P → Bool
opened_file d = d.file.present && d.file_openned

module _ {P : Type 0} (m : Course P) where
  without_tick-IsSafe :
      (text : List ℕ) (d : Downloader P)
      → d.crashed ≡ false
      → IsSafe m (on_error_without_tick text d)
  unfolding on_error_without_tick terminate_handles terminate_resolver terminate_socket
      terminate_timer terminate_file
  without_tick-IsSafe text d s = record {
    sound = s;
    files = record {
      there = refl;
      closing = ground (arith, unlinks-closes (opened_file d));
      filled = refl;
      backed = refl;
    };
    phase = silent (record {
      addr_info_same = refl;
      connect_same = refl;
      write_same = refl;
      ends_same = refl;
      datas_same = refl;
      shuts_same = refl;
    });
  }

  pub on_error-IsSafe :
      (text : List ℕ) (d : Downloader P) → d.crashed ≡ false → IsSafe m (on_error text d)
  unfolding on_error
  on_error-IsSafe text d s =
      let h = without_tick-IsSafe text d s in
      record {
        sound = h.sound;
        files = record {
          there = h.files.there;
          closing = h.files.closing;
          filled = h.files.filled;
          backed = h.files.backed;
        };
        phase = h.phase;
      }

  fail_with-IsSafe :
      (h : OnError) (e : Failure) (d : Downloader P)
      → d.crashed ≡ false
      → IsSafe m (fail_with h e d)
  unfolding fail_with
  fail_with-IsSafe resolve_failed e d s =
      if_both (IsSafe m) (is_on_the_go d.m_status.state) _ _
        (λ g. on_error-IsSafe _ (record d { resolver = no_resolver }) s)
        (λ g. without_tick-IsSafe _ (record d { resolver = no_resolver }) s)
  fail_with-IsSafe (connect_failed ip) e d s = on_error-IsSafe _ d s
  fail_with-IsSafe request_failed e d s = on_error-IsSafe _ d s
  fail_with-IsSafe response_failed e d s = on_error-IsSafe _ d s
  fail_with-IsSafe timer_failed e d s = on_error-IsSafe _ d s
  fail_with-IsSafe open_failed e d s =
      on_error-IsSafe _ (record d { file_operation_started = false }) s
  fail_with-IsSafe write_failed e d s =
      on_error-IsSafe _ (record d { file_operation_started = false }) s
  fail_with-IsSafe close_failed e d s =
      on_error-IsSafe _ (record d { file_operation_started = false; file = no_file }) s

  fail_all-IsSafe :
      (hs : List OnError) (e : Failure) (d : Downloader P) → IsSafe m d → IsSafe m (fail_all hs e d)
  unfolding fail_all
  fail_all-IsSafe [] e d h = h
  fail_all-IsSafe (x ∷ hs) e d h =
      fail_all-IsSafe hs e (fail_with x e d) (fail_with-IsSafe x e d h.sound)

  -- The listeners for errors and for the timer do not matter.
  relisten-IsSafe :
      (rs ss ts fs : List OnError) (hs : List OnTimer) (d : Downloader P)
      → IsSafe m d
      → IsSafe m (record d {
        resolver = record d.resolver { errors = rs };
        socket = record d.socket { errors = ss };
        net_timer = record d.net_timer { errors = ts; on_timer = hs };
        file = record d.file { errors = fs };
      })
  relisten-IsSafe rs ss ts fs hs d h = record {
    sound = h.sound;
    files = record {
      there = h.files.there;
      closing = h.files.closing;
      filled = h.files.filled;
      backed = h.files.backed;
    };
    phase = h.phase;
  }

  pub fail_resolver-IsSafe :
      (e : Failure) (d : Downloader P) → IsSafe m d → IsSafe m (fail_resolver e d)
  unfolding fail_resolver
  fail_resolver-IsSafe e d h =
      fail_all-IsSafe d.resolver.errors e _ (
        relisten-IsSafe [] d.socket.errors d.net_timer.errors d.file.errors d.net_timer.on_timer d
          h)

  pub fail_socket-IsSafe :
      (e : Failure) (d : Downloader P) → IsSafe m d → IsSafe m (fail_socket e d)
  unfolding fail_socket
  fail_socket-IsSafe e d h = fail_all-IsSafe d.socket.errors e _ (
      relisten-IsSafe d.resolver.errors [] d.net_timer.errors d.file.errors d.net_timer.on_timer d
        h)

  pub fail_timer-IsSafe : (e : Failure) (d : Downloader P) → IsSafe m d → IsSafe m (fail_timer e d)
  unfolding fail_timer
  fail_timer-IsSafe e d h =
      fail_all-IsSafe d.net_timer.errors e _ (
        relisten-IsSafe d.resolver.errors d.socket.errors [] d.file.errors d.net_timer.on_timer d h)

  pub fail_file-IsSafe : (e : Failure) (d : Downloader P) → IsSafe m d → IsSafe m (fail_file e d)
  unfolding fail_file
  fail_file-IsSafe e d h = fail_all-IsSafe d.file.errors e _ (
      relisten-IsSafe d.resolver.errors d.socket.errors d.net_timer.errors [] d.net_timer.on_timer d
        h)

  time_out-IsSafe : (h : OnTimer) (d : Downloader P) → d.crashed ≡ false → IsSafe m (time_out h d)
  unfolding time_out
  time_out-IsSafe (connect_timeout ip) d s = on_error-IsSafe _ d s
  time_out-IsSafe request_timeout d s = on_error-IsSafe _ d s
  time_out-IsSafe response_timeout d s = on_error-IsSafe _ d s

  time_out_all-IsSafe :
      (hs : List OnTimer) (d : Downloader P) → IsSafe m d → IsSafe m (time_out_all hs d)
  unfolding time_out_all
  time_out_all-IsSafe [] d h = h
  time_out_all-IsSafe (x ∷ hs) d h =
      time_out_all-IsSafe hs (time_out x d) (time_out-IsSafe x d h.sound)

  pub timer_ran-IsSafe :
      (d : Downloader P)
      → IsSafe m d
      → IsSafe m (
          time_out_all d.net_timer.on_timer
            (record d { net_timer = record d.net_timer { on_timer = [] } }))
  timer_ran-IsSafe d h =
      time_out_all-IsSafe d.net_timer.on_timer _
        (relisten-IsSafe d.resolver.errors d.socket.errors d.net_timer.errors d.file.errors [] d h)

  pub abort-IsSafe : (d : Downloader P) → IsSafe m d → IsSafe m (abort d)
  unfolding abort
  abort-IsSafe d h = on_error-IsSafe (codes "Abort.") d h.sound

module _ {P : Type 0} where
  -- A failure keeps the pointer of the timer.
  fail_with-timer :
      (h : OnError) (e : Failure) (d : Downloader P)
      → (fail_with h e d).net_timer.present ≡ d.net_timer.present
  unfolding fail_with on_error on_error_without_tick terminate_handles terminate_resolver
      terminate_socket terminate_timer terminate_file
  fail_with-timer resolve_failed e d =
      if_both (λ (x : Downloader P). x.net_timer.present ≡ d.net_timer.present)
        (is_on_the_go d.m_status.state) _ _ (λ g. refl) (λ g. refl)
  fail_with-timer (connect_failed ip) e d = refl
  fail_with-timer request_failed e d = refl
  fail_with-timer response_failed e d = refl
  fail_with-timer timer_failed e d = refl
  fail_with-timer open_failed e d = refl
  fail_with-timer write_failed e d = refl
  fail_with-timer close_failed e d = refl

  pub fail_all-timer :
      (hs : List OnError) (e : Failure) (d : Downloader P)
      → (fail_all hs e d).net_timer.present ≡ d.net_timer.present
  unfolding fail_all
  fail_all-timer [] e d = refl
  fail_all-timer (x ∷ hs) e d = fail_all-timer hs e (fail_with x e d) ∙ fail_with-timer x e d
