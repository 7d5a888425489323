-- ===== src/Downloader/Safety/NetSide.antt =====
-- The events of the network before the response, and after it, keep a download safe.
use ecwid_console_downloader.Base.{
  ℕ, ◌≡◌, refl, ◌∙◌, Bool, true, false, Option, none, some, List, [], if_both, arith,
}
use ecwid_console_downloader.Downloader.State.{
  Downloader, Failure, update_status, fail_socket, is_failed, call_timer, starts_timer,
}
use ecwid_console_downloader.Downloader.Net.{
  fail_socket_by, start_timer, reset_timer, on_timer_once, connect_to, expect_connect,
  expect_written, expect_response, on_resolve, on_connect, on_write_http_request, is_given,
}
use ecwid_console_downloader.Downloader.Safety.{
  Course, net_of, Files, Hears, silent, resolving, connecting, writing, waiting, reading,
  closing_done, closing_redirect, IsSafe,
}
use ecwid_console_downloader.Downloader.Safety.Failing.{fail_socket-IsSafe, fail_all-timer}

module _ {P : Type 0} (m : Course P) where
  start_timer-IsSafe :
      (d : Downloader P) → d.net_timer.present ≡ true → IsSafe m d → IsSafe m (start_timer d)
  unfolding start_timer
  start_timer-IsSafe d t h =
      if_both (IsSafe m) (is_failed d.m_status.state) d (call_timer starts_timer d) (λ f. h)
        (λ f. record {
          sound = ground (arith, h.sound);
          files = record {
            there = h.files.there;
            closing = h.files.closing;
            filled = h.files.filled;
            backed = h.files.backed;
          };
          phase = h.phase;
        })

  -- A call on the socket that may fail at once, and the start of the timer.
  called-IsSafe :
      (fails : Option Failure) (d : Downloader P)
      → d.net_timer.present ≡ true
      → IsSafe m d
      → IsSafe m (start_timer (fail_socket_by fails d))
  unfolding fail_socket_by fail_socket
  called-IsSafe none d t h = start_timer-IsSafe d t h
  called-IsSafe (some e) d t h =
      start_timer-IsSafe (fail_socket e d)
        (fail_all-timer d.socket.errors e (record d { socket = record d.socket { errors = [] } })
          ∙ t)
        (fail_socket-IsSafe m e d h)

  resolved-IsSafe :
      (ip : List ℕ) (v6 : Bool) (fails : Option Failure) (d : Downloader P)
      → d.crashed ≡ false
      → Files d
      → Hears (net_of d) true false false [] [] []
      → d.socket.present ≡ true
      → d.net_timer.present ≡ true
      → is_given d.uri_parsed ≡ true
      → d.file.present ≡ false
      → IsSafe m (on_resolve ip v6 fails d)
  unfolding on_resolve connect_to expect_connect on_timer_once update_status
  resolved-IsSafe ip true fails d s f h k t u a = called-IsSafe fails _ t (record {
    sound = ground arith;
    files = record { there = f.there; closing = f.closing; filled = f.filled; backed = f.backed };
    phase =
        connecting
          (record {
            addr_info_same = refl;
            connect_same = refl;
            write_same = h.write_same;
            ends_same = h.ends_same;
            datas_same = h.datas_same;
            shuts_same = h.shuts_same;
          })
          k t u a;
  })
  resolved-IsSafe ip false fails d s f h k t u a = called-IsSafe fails _ t (record {
    sound = ground arith;
    files = record { there = f.there; closing = f.closing; filled = f.filled; backed = f.backed };
    phase =
        connecting
          (record {
            addr_info_same = refl;
            connect_same = refl;
            write_same = h.write_same;
            ends_same = h.ends_same;
            datas_same = h.datas_same;
            shuts_same = h.shuts_same;
          })
          k t u a;
  })

  connected-IsSafe :
      (fails : Option Failure) (d : Downloader P)
      → d.crashed ≡ false
      → Files d
      → Hears (net_of d) false true false [] [] []
      → d.socket.present ≡ true
      → d.net_timer.present ≡ true
      → is_given d.uri_parsed ≡ true
      → d.file.present ≡ false
      → IsSafe m (on_connect fails d)
  unfolding on_connect reset_timer expect_written on_timer_once update_status
  connected-IsSafe fails d s f h k t u a = called-IsSafe fails _ t (record {
    sound = ground arith;
    files = record { there = f.there; closing = f.closing; filled = f.filled; backed = f.backed };
    phase =
        writing
          (record {
            addr_info_same = h.addr_info_same;
            connect_same = refl;
            write_same = refl;
            ends_same = refl;
            datas_same = refl;
            shuts_same = refl;
          })
          k t a;
  })

  written-IsSafe :
      (fails : Option Failure) (d : Downloader P)
      → d.crashed ≡ false
      → Files d
      → Hears (net_of d) false false true [] [] []
      → d.socket.present ≡ true
      → d.net_timer.present ≡ true
      → d.file.present ≡ false
      → IsSafe m (on_write_http_request fails d)
  unfolding on_write_http_request reset_timer expect_response on_timer_once update_status
  written-IsSafe fails d s f h k t a = called-IsSafe fails _ t (record {
    sound = ground arith;
    files = record { there = f.there; closing = f.closing; filled = f.filled; backed = f.backed };
    phase =
        waiting true true
          (record {
            addr_info_same = h.addr_info_same;
            connect_same = refl;
            write_same = refl;
            ends_same = refl;
            datas_same = refl;
            shuts_same = refl;
          })
          k t a;
  })

  -- Each event is heard in one phase: another one contradicts what is listened to.
  pub addr_info-IsSafe :
      (ip : List ℕ) (v6 : Bool) (fails : Option Failure) (d : Downloader P)
      → d.resolver.on_addr_info ≡ true
      → IsSafe m d
      → IsSafe m (on_resolve ip v6 fails d)
  addr_info-IsSafe ip v6 fails d o h = elim h.phase [
    | resolving r k t u a ↦ resolved-IsSafe ip v6 fails d h.sound h.files r k t u a
    | silent r ↦ absurd (ground (arith, r.addr_info_same))
    | connecting r k t u a ↦ absurd (ground (arith, r.addr_info_same))
    | writing r k t a ↦ absurd (ground (arith, r.addr_info_same))
    | waiting e x r k t a ↦ absurd (ground (arith, r.addr_info_same))
    | reading e x p r f ↦ absurd (ground (arith, r.hears.addr_info_same))
    | closing_done r k c ↦ absurd (ground (arith, r.addr_info_same))
    | closing_redirect r k c ↦ absurd (ground (arith, r.addr_info_same))
  ]

  pub connected_event-IsSafe :
      (fails : Option Failure) (d : Downloader P)
      → d.socket.on_connect ≡ true
      → IsSafe m d
      → IsSafe m (on_connect fails d)
  connected_event-IsSafe fails d o h = elim h.phase [
    | connecting r k t u a ↦ connected-IsSafe fails d h.sound h.files r k t u a
    | silent r ↦ absurd (ground (arith, r.connect_same))
    | resolving r k t u a ↦ absurd (ground (arith, r.connect_same))
    | writing r k t a ↦ absurd (ground (arith, r.connect_same))
    | waiting e x r k t a ↦ absurd (ground (arith, r.connect_same))
    | reading e x p r f ↦ absurd (ground (arith, r.hears.connect_same))
    | closing_done r k c ↦ absurd (ground (arith, r.connect_same))
    | closing_redirect r k c ↦ absurd (ground (arith, r.connect_same))
  ]

  pub written_event-IsSafe :
      (fails : Option Failure) (d : Downloader P)
      → d.socket.on_write ≡ true
      → IsSafe m d
      → IsSafe m (on_write_http_request fails d)
  written_event-IsSafe fails d o h = elim h.phase [
    | writing r k t a ↦ written-IsSafe fails d h.sound h.files r k t a
    | silent r ↦ absurd (ground (arith, r.write_same))
    | resolving r k t u a ↦ absurd (ground (arith, r.write_same))
    | connecting r k t u a ↦ absurd (ground (arith, r.write_same))
    | waiting e x r k t a ↦ absurd (ground (arith, r.write_same))
    | reading e x p r f ↦ absurd (ground (arith, r.hears.write_same))
    | closing_done r k c ↦ absurd (ground (arith, r.write_same))
    | closing_redirect r k c ↦ absurd (ground (arith, r.write_same))
  ]
