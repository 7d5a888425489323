-- ===== src/Downloader/Safety/DataEvents.antt =====
-- The data of the socket keep a download safe.
use ecwid_console_downloader.Base.{
  ℕ, ◌≡◌, refl, sym, ◌∙◌, subst, Bool, true, false, List, [], ◌∷◌, inl, inr, if◌then◌else◌, arith,
}
use ecwid_console_downloader.Downloader.State.{
  Downloader, OnEnd, OnData, OnShutdown, closed_early, first_data,
}
use ecwid_console_downloader.Downloader.File.{Answer}
use ecwid_console_downloader.Downloader.Net.{Parser, on_first_data}
use ecwid_console_downloader.Downloader.Events.{read_by, read_all}
use ecwid_console_downloader.Downloader.Safety.{
  Course, NetView, net_of, works, Files, Hears, Reads, Phase, silent, resolving, connecting,
  writing, waiting, reading, closing_done, closing_redirect, IsSafe, IsOrderly,
}
use ecwid_console_downloader.Downloader.Safety.ReadSide.{on_read-IsSafe}

module _ {P : Type 0} (m : Course P) where
  -- The listeners for data go, and those for the end.
  undata :
      {n : NetView P} {a c w : Bool} {e : List OnEnd} {x : List OnData} {s : List OnShutdown}
      → Hears n a c w e x s
      → Hears (record n { datas = [] }) a c w e [] s
  undata h = record {
    addr_info_same = h.addr_info_same;
    connect_same = h.connect_same;
    write_same = h.write_same;
    ends_same = h.ends_same;
    datas_same = refl;
    shuts_same = h.shuts_same;
  }

  undata-Reads :
      {n : NetView P} {e : Bool} {xs : List OnData} {p : P}
      → Reads m n e xs p
      → Reads m (record n { datas = [] }) e [] p
  undata-Reads r = record {
    hears = undata r.hears;
    socket_there = r.socket_there;
    timer_there = r.timer_there;
    parser_same = r.parser_same;
    valid = r.valid;
    single = λ v. inl refl;
  }

  undata-Phase :
      (n : NetView P) (p b : Bool) → Phase m n p b → Phase m (record n { datas = [] }) p b
  undata-Phase n p b (silent h) = silent (undata h)
  undata-Phase n p b (resolving h k t u a) = resolving (undata h) k t u a
  undata-Phase n p b (connecting h k t u a) = connecting (undata h) k t u a
  undata-Phase n p b (writing h k t a) = writing (undata h) k t a
  undata-Phase n p b (waiting e x h k t a) = waiting e false (undata h) k t a
  undata-Phase n p b (reading e xs q r f) = reading e [] q (undata-Reads r) f
  undata-Phase n p b (closing_done h k r) = closing_done (undata h) k r
  undata-Phase n p b (closing_redirect h k a) = closing_redirect (undata h) k a

  abbrev undata_all : Downloader P → Downloader P
  undata_all d = record d { socket = record d.socket { on_data = [] } }

  undata-IsSafe : (d : Downloader P) → IsSafe m d → IsSafe m (undata_all d)
  undata-IsSafe d h = record {
    sound = h.sound;
    files = record {
      there = h.files.there;
      closing = h.files.closing;
      filled = h.files.filled;
      backed = h.files.backed;
    };
    phase = undata-Phase (net_of d) d.file.present (works d) h.phase;
  }

  module _ (parser : Parser P) (o : IsOrderly parser m.Valid m.fresh) where
    first_data-IsSafe :
        (bytes : List ℕ) (answer : ℕ → Answer) (d : Downloader P)
        → d.crashed ≡ false
        → Files d
        → (e : Bool)
        → Hears (net_of d) false false false (if e then closed_early ∷ [] else []) [] []
        → d.socket.present ≡ true
        → d.net_timer.present ≡ true
        → d.file.present ≡ false
        → IsSafe m (on_first_data parser bytes answer d)
    unfolding on_first_data
    first_data-IsSafe bytes answer d s f e h k t a =
        on_read-IsSafe parser m o bytes answer true [] parser.create _ (ground arith)
          (record { there = f.there; closing = f.closing; filled = f.filled; backed = f.backed })
          (record {
            hears = record {
              addr_info_same = h.addr_info_same;
              connect_same = h.connect_same;
              write_same = h.write_same;
              ends_same = refl;
              datas_same = h.datas_same;
              shuts_same = h.shuts_same;
            };
            socket_there = k;
            timer_there = t;
            parser_same = refl;
            valid = o.begins;
            single = λ v. inl refl;
          })
          (λ n. a) (λ n v. refl)

    no_data-IsSafe :
        (bytes : List ℕ) (answer : ℕ → Answer) (d : Downloader P)
        → IsSafe m d
        → d.socket.on_data ≡ []
        → IsSafe m (read_all parser bytes answer d.socket.on_data (undata_all d))
    unfolding read_all
    no_data-IsSafe bytes answer d h e =
        subst (λ l. IsSafe m (read_all parser bytes answer l (undata_all d))) (sym e)
          (undata-IsSafe d h)

    first_read-IsSafe :
        (bytes : List ℕ) (answer : ℕ → Answer) (d : Downloader P) (e t : Bool)
        → IsSafe m d
        → Hears
            (net_of d)
            false
            false
            false
            (if e then closed_early ∷ [] else [])
            (if t then first_data ∷ [] else [])
            []
        → d.socket.present ≡ true
        → d.net_timer.present ≡ true
        → d.file.present ≡ false
        → IsSafe m (read_all parser bytes answer d.socket.on_data (undata_all d))
    unfolding read_all read_by
    first_read-IsSafe bytes answer d e false h r k i a =
        no_data-IsSafe bytes answer d h r.datas_same
    first_read-IsSafe bytes answer d e true h r k i a =
        subst (λ l. IsSafe m (read_all parser bytes answer l (undata_all d))) (sym r.datas_same)
          (first_data-IsSafe bytes answer (undata_all d) h.sound (undata-IsSafe d h).files e
            (undata r) k i a)

    more_read-IsSafe :
        (bytes : List ℕ) (answer : ℕ → Answer) (d : Downloader P) (e : Bool) (xs : List OnData)
        (p : P)
        → IsSafe m d
        → Reads m (net_of d) e xs p
        → (m.fresh p ≡ true → d.file.present ≡ false)
        → m.over ≡ false
        → IsSafe m (read_all parser bytes answer d.socket.on_data (undata_all d))
    unfolding read_all read_by
    more_read-IsSafe bytes answer d e xs p h r a v = elim (r.single v) [
      | inl x ↦ no_data-IsSafe bytes answer d h (r.hears.datas_same ∙ x)
      | inr x ↦
          subst (λ l. IsSafe m (read_all parser bytes answer l (undata_all d)))
            (sym (r.hears.datas_same ∙ x))
            (on_read-IsSafe parser m o bytes answer e [] p (undata_all d) h.sound
              (undata-IsSafe d h).files (undata-Reads r) a (λ n w. refl))
    ]

    pub data_read-IsSafe :
        (bytes : List ℕ) (answer : ℕ → Answer) (d : Downloader P)
        → m.over ≡ false
        → IsSafe m d
        → IsSafe m (read_all parser bytes answer d.socket.on_data (undata_all d))
    data_read-IsSafe bytes answer d v h = elim h.phase [
      | silent r ↦ no_data-IsSafe bytes answer d h r.datas_same
      | resolving r k t u a ↦ no_data-IsSafe bytes answer d h r.datas_same
      | connecting r k t u a ↦ no_data-IsSafe bytes answer d h r.datas_same
      | writing r k t a ↦ no_data-IsSafe bytes answer d h r.datas_same
      | waiting e x r k t a ↦ first_read-IsSafe bytes answer d e x h r k t a
      | reading e x p r f ↦ more_read-IsSafe bytes answer d e x p h r f v
      | closing_done r k c ↦ no_data-IsSafe bytes answer d h r.datas_same
      | closing_redirect r k c ↦ no_data-IsSafe bytes answer d h r.datas_same
    ]
