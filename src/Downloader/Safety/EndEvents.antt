-- ===== src/Downloader/Safety/EndEvents.antt =====
-- The end of the stream keeps a download safe.
use ecwid_console_downloader.Base.{
  ℕ, ◌≡◌, refl, sym, subst, Bool, true, false, List, [], ◌∷◌, if◌then◌else◌, arith,
}
use ecwid_console_downloader.Downloader.State.{Downloader, OnEnd, OnData, OnShutdown, closed_early}
use ecwid_console_downloader.Downloader.File.{Answer}
use ecwid_console_downloader.Downloader.Net.{Parser}
use ecwid_console_downloader.Downloader.Events.{end_with, end_all}
use ecwid_console_downloader.Downloader.Safety.{
  Course, NetView, net_of, works, Hears, Reads, Phase, silent, resolving, connecting, writing,
  waiting, reading, closing_done, closing_redirect, IsSafe, IsOrderly,
}
use ecwid_console_downloader.Downloader.Safety.Failing.{on_error-IsSafe}
use ecwid_console_downloader.Downloader.Safety.ReadSide.{on_read-IsSafe}

-- The stream has ended.
abbrev pub ending : {P : Type 0} → Course P → Course P
ending m = record m { over = true }

module _ {P : Type 0} (m : Course P) where
  unend :
      {n : NetView P} {a c w : Bool} {e : List OnEnd} {x : List OnData} {s : List OnShutdown}
      → Hears n a c w e x s
      → Hears (record n { ends = [] }) a c w [] x s
  unend h = record {
    addr_info_same = h.addr_info_same;
    connect_same = h.connect_same;
    write_same = h.write_same;
    ends_same = refl;
    datas_same = h.datas_same;
    shuts_same = h.shuts_same;
  }

  unend-Reads :
      {n : NetView P} {e : Bool} {xs : List OnData} {p : P}
      → Reads m n e xs p
      → Reads (ending m) (record n { ends = [] }) false xs p
  unend-Reads r = record {
    hears = unend r.hears;
    socket_there = r.socket_there;
    timer_there = r.timer_there;
    parser_same = r.parser_same;
    valid = r.valid;
    single = λ v. absurd (ground (arith, v));
  }

  unend-Phase :
      (n : NetView P) (p b : Bool) → Phase m n p b → Phase (ending m) (record n { ends = [] }) p b
  unend-Phase n p b (silent h) = silent (unend h)
  unend-Phase n p b (resolving h k t u a) = resolving (unend h) k t u a
  unend-Phase n p b (connecting h k t u a) = connecting (unend h) k t u a
  unend-Phase n p b (writing h k t a) = writing (unend h) k t a
  unend-Phase n p b (waiting e x h k t a) = waiting false x (unend h) k t a
  unend-Phase n p b (reading e xs q r f) = reading false xs q (unend-Reads r) f
  unend-Phase n p b (closing_done h k r) = closing_done (unend h) k r
  unend-Phase n p b (closing_redirect h k a) = closing_redirect (unend h) k a

  abbrev unend_all : Downloader P → Downloader P
  unend_all d = record d { socket = record d.socket { on_end = [] } }

  unend-IsSafe : (d : Downloader P) → IsSafe m d → IsSafe (ending m) (unend_all d)
  unend-IsSafe d h = record {
    sound = h.sound;
    files = record {
      there = h.files.there;
      closing = h.files.closing;
      filled = h.files.filled;
      backed = h.files.backed;
    };
    phase = unend-Phase (net_of d) d.file.present (works d) h.phase;
  }

  module _ (parser : Parser P) (o : IsOrderly parser m.Valid m.fresh) where
    no_end-IsSafe :
        (answer : ℕ → Answer) (d : Downloader P)
        → IsSafe m d
        → d.socket.on_end ≡ []
        → IsSafe (ending m) (end_all parser answer d.socket.on_end (unend_all d))
    unfolding end_all
    no_end-IsSafe answer d h e =
        subst (λ l. IsSafe (ending m) (end_all parser answer l (unend_all d))) (sym e)
          (unend-IsSafe d h)

    early_end-IsSafe :
        (answer : ℕ → Answer) (d : Downloader P) (e : Bool)
        → IsSafe m d
        → d.socket.on_end ≡ (if e then closed_early ∷ [] else [])
        → IsSafe (ending m) (end_all parser answer d.socket.on_end (unend_all d))
    unfolding end_all end_with
    early_end-IsSafe answer d false h c = no_end-IsSafe answer d h c
    early_end-IsSafe answer d true h c =
        subst (λ l. IsSafe (ending m) (end_all parser answer l (unend_all d))) (sym c)
          (on_error-IsSafe (ending m) _ (unend_all d) h.sound)

    stream_end-IsSafe :
        (answer : ℕ → Answer) (d : Downloader P) (e : Bool) (xs : List OnData) (p : P)
        → IsSafe m d
        → Reads m (net_of d) e xs p
        → (m.fresh p ≡ true → d.file.present ≡ false)
        → IsSafe (ending m) (end_all parser answer d.socket.on_end (unend_all d))
    unfolding end_all end_with
    stream_end-IsSafe answer d false xs p h r a = no_end-IsSafe answer d h r.hears.ends_same
    stream_end-IsSafe answer d true xs p h r a =
        subst (λ l. IsSafe (ending m) (end_all parser answer l (unend_all d)))
          (sym r.hears.ends_same)
          (on_read-IsSafe parser (ending m) o [] answer false xs p (unend_all d) h.sound
            (unend-IsSafe d h).files (unend-Reads r) a (λ n v. absurd (ground (arith, v))))

    pub ended-IsSafe :
        (answer : ℕ → Answer) (d : Downloader P)
        → IsSafe m d
        → IsSafe (ending m) (end_all parser answer d.socket.on_end (unend_all d))
    ended-IsSafe answer d h = elim h.phase [
      | silent r ↦ no_end-IsSafe answer d h r.ends_same
      | resolving r k t u a ↦ no_end-IsSafe answer d h r.ends_same
      | connecting r k t u a ↦ no_end-IsSafe answer d h r.ends_same
      | writing r k t a ↦ no_end-IsSafe answer d h r.ends_same
      | waiting e x r k t a ↦ early_end-IsSafe answer d e h r.ends_same
      | reading e x p r f ↦ stream_end-IsSafe answer d e x p h r f
      | closing_done r k c ↦ no_end-IsSafe answer d h r.ends_same
      | closing_redirect r k c ↦ no_end-IsSafe answer d h r.ends_same
    ]
