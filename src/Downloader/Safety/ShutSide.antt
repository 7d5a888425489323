-- ===== src/Downloader/Safety/ShutSide.antt =====
-- The listener of `ShutdownEvent` keeps a download safe.
use ecwid_console_downloader.Base.{
  ◌≡◌, refl, sym, subst, Bool, true, false, not, ◌||◌, List, [], ◌∷◌, if_both, arith,
}
use ecwid_console_downloader.Downloader.State.{
  Downloader, OnEnd, OnData, OnShutdown, then_done, then_redirect, update_status,
}
use ecwid_console_downloader.Downloader.Net.{on_shut}
use ecwid_console_downloader.Downloader.Events.{shut_all}
use ecwid_console_downloader.Downloader.Safety.{
  Course, NetView, net_of, works, Files, Hears, Phase, silent, resolving, connecting, writing,
  waiting, reading, closing_done, closing_redirect, IsSafe,
}

module _ {P : Type 0} (m : Course P) where
  unshut :
      {n : NetView P} {a c w : Bool} {e : List OnEnd} {x : List OnData} {s : List OnShutdown}
      → Hears n a c w e x s
      → Hears (record n { shuts = [] }) a c w e x []
  unshut h = record {
    addr_info_same = h.addr_info_same;
    connect_same = h.connect_same;
    write_same = h.write_same;
    ends_same = h.ends_same;
    datas_same = h.datas_same;
    shuts_same = refl;
  }

  unshut-Phase :
      (n : NetView P) (p b : Bool) → Phase m n p b → Phase m (record n { shuts = [] }) p b
  unshut-Phase n p b (silent h) = silent (unshut h)
  unshut-Phase n p b (resolving h k t u a) = resolving (unshut h) k t u a
  unshut-Phase n p b (connecting h k t u a) = connecting (unshut h) k t u a
  unshut-Phase n p b (writing h k t a) = writing (unshut h) k t a
  unshut-Phase n p b (waiting e x h k t a) = waiting e x (unshut h) k t a
  unshut-Phase n p b (reading e t q r f) =
      reading e t q
        (record {
          hears = unshut r.hears;
          socket_there = r.socket_there;
          timer_there = r.timer_there;
          parser_same = r.parser_same;
          valid = r.valid;
          single = r.single;
        })
        f
  unshut-Phase n p b (closing_done h k r) = silent (unshut h)
  unshut-Phase n p b (closing_redirect h k a) = silent (unshut h)

  abbrev unshut_all : Downloader P → Downloader P
  unshut_all d = record d { socket = record d.socket { on_shutdown = [] } }

  unshut-IsSafe : (d : Downloader P) → IsSafe m d → IsSafe m (unshut_all d)
  unshut-IsSafe d h = record {
    sound = h.sound;
    files = record {
      there = h.files.there;
      closing = h.files.closing;
      filled = h.files.filled;
      backed = h.files.backed;
    };
    phase = unshut-Phase (net_of d) d.file.present (works d) h.phase;
  }

  on_shut-IsSafe :
      (after : OnShutdown) (d : Downloader P)
      → d.crashed ≡ false
      → Files d
      → d.socket.present ≡ true
      → d.resolver.on_addr_info ≡ false
      → (not (works d) || d.receive_done) ≡ true
      → IsSafe m (on_shut after d)
  unfolding on_shut update_status
  on_shut-IsSafe then_redirect d s f k i r = record {
    sound = ground arith;
    files = record {
      there = f.there;
      closing = f.closing;
      filled = f.filled;
      backed = ground arith;
    };
    phase = silent (record {
      addr_info_same = i;
      connect_same = refl;
      write_same = refl;
      ends_same = refl;
      datas_same = refl;
      shuts_same = refl;
    });
  }
  on_shut-IsSafe then_done d s f k i r =
      if_both (IsSafe m) d.file_openned _ _
        (λ o. record {
          sound = ground arith;
          files = record {
            there = f.there;
            closing = f.closing;
            filled = f.filled;
            backed = ground arith;
          };
          phase = silent (record {
            addr_info_same = i;
            connect_same = refl;
            write_same = refl;
            ends_same = refl;
            datas_same = refl;
            shuts_same = refl;
          });
        })
        (λ o. record {
          sound = ground arith;
          files = record {
            there = f.there;
            closing = f.closing;
            filled = f.filled;
            backed = ground arith;
          };
          phase = silent (record {
            addr_info_same = i;
            connect_same = refl;
            write_same = refl;
            ends_same = refl;
            datas_same = refl;
            shuts_same = refl;
          });
        })

  no_shut-IsSafe :
      (d : Downloader P)
      → IsSafe m d
      → d.socket.on_shutdown ≡ []
      → IsSafe m (shut_all d.socket.on_shutdown (unshut_all d))
  unfolding shut_all
  no_shut-IsSafe d h e =
      subst (λ l. IsSafe m (shut_all l (unshut_all d))) (sym e) (unshut-IsSafe d h)

  one_shut-IsSafe :
      (after : OnShutdown) (d : Downloader P)
      → IsSafe m d
      → d.socket.present ≡ true
      → d.resolver.on_addr_info ≡ false
      → (not (works d) || d.receive_done) ≡ true
      → d.socket.on_shutdown ≡ after ∷ []
      → IsSafe m (shut_all d.socket.on_shutdown (unshut_all d))
  unfolding shut_all
  one_shut-IsSafe after d h k i r e =
      subst (λ l. IsSafe m (shut_all l (unshut_all d))) (sym e)
        (on_shut-IsSafe after (unshut_all d) h.sound (unshut-IsSafe d h).files k i r)

  pub shut-IsSafe :
      (d : Downloader P) → IsSafe m d → IsSafe m (shut_all d.socket.on_shutdown (unshut_all d))
  shut-IsSafe d h = elim h.phase [
    | silent r ↦ no_shut-IsSafe d h r.shuts_same
    | resolving r k t u a ↦ no_shut-IsSafe d h r.shuts_same
    | connecting r k t u a ↦ no_shut-IsSafe d h r.shuts_same
    | writing r k t a ↦ no_shut-IsSafe d h r.shuts_same
    | waiting e x r k t a ↦ no_shut-IsSafe d h r.shuts_same
    | reading e x p r f ↦ no_shut-IsSafe d h r.hears.shuts_same
    | closing_done r k c ↦
        one_shut-IsSafe then_done d h k r.addr_info_same (ground arith) r.shuts_same
    | closing_redirect r k c ↦
        one_shut-IsSafe then_redirect d h k r.addr_info_same (ground arith) r.shuts_same
  ]
