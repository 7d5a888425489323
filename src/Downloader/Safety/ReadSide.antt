-- ===== src/Downloader/Safety/ReadSide.antt =====
-- What is read from the socket keeps a download safe, if the parser is orderly.
use ecwid_console_downloader.Base.{
  ℕ, ◌≡◌, refl, sym, ap, ◌∙◌, subst, Bool, true, false, some, List, [], ◌∷◌, ◌++◌, inl, inr, ◌⊎◌,
  if_both, arith,
}
use ecwid_console_downloader.Http.{
  ResponseState, ResponseParseResult, in_progress, done, redirect, error,
}
use ecwid_console_downloader.Downloader.State.{
  Downloader, OnData, more_data, update_status, call_timer, stops_timer,
}
use ecwid_console_downloader.Downloader.File.{Answer}
use ecwid_console_downloader.Downloader.Net.{
  Parser, take_pieces, conclude, after_parse, read_with, on_read, close_handles,
}
use ecwid_console_downloader.Downloader.Safety.{
  Course, NetView, net_of, hushed, works, Files, Reads, Phase, silent, reading, closing_done,
  closing_redirect, IsSafe, IsOrderly,
}
use ecwid_console_downloader.Downloader.Safety.DataSide.{Takes, has_failed, take_pieces-Takes}
use ecwid_console_downloader.Downloader.Safety.Failing.{on_error-IsSafe}

module _ {P : Type 0} (parser : Parser P) (course : Course P) where
  -- The file has not been made, and so is not at work.
  absent_rests : (d : Downloader P) → Files d → d.file.present ≡ false → works d ≡ false
  absent_rests d f a = ground (arith, f.there)

  conclude-IsSafe :
      (result : ResponseParseResult) (state : ResponseState) (e : Bool) (xs : List OnData) (p : P)
      (d : Downloader P)
      → d.crashed ≡ false
      → Files d
      → Reads course (net_of d) e xs p
      → (course.fresh p ≡ true → d.file.present ≡ false)
      → (state ≡ redirect → works d ≡ false)
      → (state ≡ in_progress → course.over ≡ false → xs ≡ [])
      → IsSafe course (conclude parser result state d)
  unfolding conclude close_handles update_status
  conclude-IsSafe result in_progress e xs p d s f r a w i = record {
    sound = ground (arith, r.timer_there);
    files = record { there = f.there; closing = f.closing; filled = f.filled; backed = f.backed };
    phase =
        reading e (xs ++ (more_data ∷ [])) p
          (record {
            hears = record {
              addr_info_same = r.hears.addr_info_same;
              connect_same = r.hears.connect_same;
              write_same = r.hears.write_same;
              ends_same = r.hears.ends_same;
              datas_same = ap (λ l. l ++ (more_data ∷ [])) r.hears.datas_same;
              shuts_same = r.hears.shuts_same;
            };
            socket_there = r.socket_there;
            timer_there = r.timer_there;
            parser_same = r.parser_same;
            valid = r.valid;
            single = λ v. inr (ap (λ l. l ++ (more_data ∷ [])) (i refl v));
          })
          a;
  }
  conclude-IsSafe result redirect e xs p d s f r a w i = record {
    sound = ground (arith, r.timer_there, r.socket_there);
    files = record { there = f.there; closing = f.closing; filled = f.filled; backed = f.backed };
    phase =
        closing_redirect
          (record {
            addr_info_same = r.hears.addr_info_same;
            connect_same = refl;
            write_same = refl;
            ends_same = refl;
            datas_same = refl;
            shuts_same = refl;
          })
          r.socket_there (w refl);
  }
  conclude-IsSafe result done e xs p d s f r a w i = record {
    sound = ground (arith, r.timer_there, r.socket_there);
    files = record {
      there = f.there;
      closing = f.closing;
      filled = f.filled;
      backed = ground arith;
    };
    phase =
        closing_done
          (record {
            addr_info_same = r.hears.addr_info_same;
            connect_same = refl;
            write_same = refl;
            ends_same = refl;
            datas_same = refl;
            shuts_same = refl;
          })
          r.socket_there refl;
  }
  conclude-IsSafe result error e xs p d s f r a w i = on_error-IsSafe course _ d s

  -- After the pieces: the download has failed and is silent, or goes on reading.
  taken-Phase :
      (n m : NetView P) (e b a w : Bool) (xs : List OnData) (p : P)
      → Reads course n e xs p
      → (course.fresh p ≡ true → a ≡ false)
      → (m ≡ n) ⊎ ((m ≡ hushed n) × (b ≡ true))
      → Phase course m a w
  taken-Phase n m e b a w xs p r f (inl q) =
      subst (λ m. Phase course m a w) (sym q) (reading e xs p r f)
  taken-Phase n m e b a w xs p r f (inr q) =
      subst (λ m. Phase course m a w) (sym q.0)
        (silent (record {
          addr_info_same = refl;
          connect_same = refl;
          write_same = refl;
          ends_same = refl;
          datas_same = refl;
          shuts_same = refl;
        }))

  unfailed-Reads :
      (n m : NetView P) (e b : Bool) (xs : List OnData) (p : P)
      → Reads course n e xs p
      → b ≡ false
      → (m ≡ n) ⊎ ((m ≡ hushed n) × (b ≡ true))
      → Reads course m e xs p
  unfailed-Reads n m e b xs p r f (inl q) = subst (λ m. Reads course m e xs p) (sym q) r
  unfailed-Reads n m e b xs p r f (inr q) = absurd (ground (arith, q.1))

  after_parse-IsSafe :
      (result : ResponseParseResult) (e : Bool) (xs : List OnData) (p : P) (c d : Downloader P)
      → Takes c d
      → Reads course (net_of c) e xs p
      → (course.fresh p ≡ true → d.file.present ≡ false)
      → (result.state ≡ redirect → works d ≡ false)
      → (result.state ≡ in_progress → course.over ≡ false → xs ≡ [])
      → IsSafe course (after_parse parser result d)
  unfolding after_parse
  after_parse-IsSafe result e xs p c d k r a w i =
      if_both (IsSafe course) (has_failed d) _ _
        (λ b. record {
          sound = k.sound;
          files = k.files;
          phase =
              taken-Phase (net_of c) (net_of d) e (has_failed d) d.file.present (works d) xs p r a
                k.net_kept;
        })
        (λ b.
          conclude-IsSafe result result.state e xs p _ k.sound
            (record {
              there = k.files.there;
              closing = k.files.closing;
              filled = k.files.filled;
              backed = k.files.backed;
            })
            (unfailed-Reads (net_of c) (net_of d) e (has_failed d) xs p r b k.net_kept) a w i)

  -- Nothing handed on changes nothing.
  none_taken :
      (pieces : List (List ℕ)) (answer : ℕ → Answer) (d : Downloader P)
      → pieces ≡ []
      → take_pieces parser pieces answer d ≡ d
  unfolding take_pieces
  none_taken [] answer d h = refl
  none_taken (x ∷ xs) answer d h = cc

  module _ (o : IsOrderly parser course.Valid course.fresh) where
    read_with-IsSafe :
        (bytes : List ℕ) (answer : ℕ → Answer) (e : Bool) (xs : List OnData) (p : P)
        (d : Downloader P)
        → d.crashed ≡ false
        → Files d
        → Reads course (net_of d) e xs p
        → (course.fresh p ≡ true → d.file.present ≡ false)
        → ((parser.parse bytes p).2.state ≡ in_progress → course.over ≡ false → xs ≡ [])
        → IsSafe course (read_with parser (some p) bytes answer d)
    unfolding read_with
    read_with-IsSafe bytes answer e xs p d s f r a i =
        let p' = (parser.parse bytes p).0 in
        let pieces = (parser.parse bytes p).1 in
        let result = (parser.parse bytes p).2 in
        let c = record d { http_parser = some p' } in
        let k =
          take_pieces-Takes parser pieces answer c s r.socket_there (record {
            there = f.there;
            closing = f.closing;
            filled = f.filled;
            backed = f.backed;
          }) in
        after_parse-IsSafe result e xs p' c (take_pieces parser pieces answer c) k
          (record {
            hears = record {
              addr_info_same = r.hears.addr_info_same;
              connect_same = r.hears.connect_same;
              write_same = r.hears.write_same;
              ends_same = r.hears.ends_same;
              datas_same = r.hears.datas_same;
              shuts_same = r.hears.shuts_same;
            };
            socket_there = r.socket_there;
            timer_there = r.timer_there;
            parser_same = refl;
            valid = o.goes_on bytes p r.valid;
            single = r.single;
          })
          (λ n.
            let h = o.freshens bytes p n in
            ap (λ (x : Downloader P). x.file.present) (none_taken pieces answer c h.1) ∙ a h.0)
          (λ n.
            let h = o.redirects bytes p r.valid n in
            ap (λ (x : Downloader P). works x) (none_taken pieces answer c h.1)
            ∙ absent_rests d f (a h.0))
          i

    pub on_read-IsSafe :
        (bytes : List ℕ) (answer : ℕ → Answer) (e : Bool) (xs : List OnData) (p : P)
        (d : Downloader P)
        → d.crashed ≡ false
        → Files d
        → Reads course (net_of d) e xs p
        → (course.fresh p ≡ true → d.file.present ≡ false)
        → ((parser.parse bytes p).2.state ≡ in_progress → course.over ≡ false → xs ≡ [])
        → IsSafe course (on_read parser bytes answer d)
    unfolding on_read
    on_read-IsSafe bytes answer e xs p d s f r a i =
        subst (λ q. IsSafe course (read_with parser q bytes answer (call_timer stops_timer d)))
          (sym r.parser_same)
          (read_with-IsSafe bytes answer e xs p (call_timer stops_timer d)
            (ground (arith, r.timer_there))
            (record { there = f.there; closing = f.closing; filled = f.filled; backed = f.backed })
            r a i)
