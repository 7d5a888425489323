-- ===== src/Controller/Flood.antt =====
-- Rounds over slots whose streams all have data: what one of them sends, and which is the last.
use ecwid_console_downloader.Base.{
  ℕ, zero, suc, ◌+◌, ◌-◌, ◌*◌, ◌^◌, ◌≤◌, ◌<◌, ◌≡◌, sym, ap, ◌∙◌, min, true, false, Option, some,
  List, [], ◌∷◌, length, sub_size, arith, subst, All,
}
use ecwid_console_downloader.Controller.{Round, Stream, rounds, round, goes_on, share}
use ecwid_console_downloader.Controller.Pass.{Passes, total_sent}
use ecwid_console_downloader.Controller.Rounds.{round-Passes, fresh}
use ecwid_console_downloader.Controller.Rich.{Distinct, IsQuiet, IsRich, RichPass, pass-RichPass}

split_product : (n m k : ℕ) → k ≤ m → n * (m - k) + n * k ≡ n * m
split_product n m k h =
    let e : (m - k) + k ≡ m = omega arith in omega (arith, ap (λ (t : ℕ). n * t) e)

module _ {S : Type 0} (stream : Stream S) (most : ℕ) (within : (s : S) → stream.available s ≤ most)
    (quiet : IsQuiet stream) where
  -- A round over slots whose streams all have `m` bytes at least.
  pub record RichRound (m : ℕ) (r : Round S) : Type 0 where
    pub distinct : Distinct r.controller.slots
    pub rich : All (IsRich stream m r.controller.cell) r.controller.slots
    pub bounded : 2 * (length r.controller.slots * most) < 2 ^ 64
    pub total_fits : r.total_to_transfer < 2 ^ 64
    pub pending_all : r.pending_streams ≡ length r.controller.slots
    pub some_slots : 0 < length r.controller.slots

  round-RichPass :
      (m : ℕ) (r : Round S)
      → 0 < m
      → RichRound m r
      → RichPass stream quiet
          (share r)
          m
          r.controller.slots
          (fresh stream most within r)
          (round stream r)
  unfolding round
  round-RichPass m r h v =
      pass-RichPass stream quiet (share r) m r.controller.slots (fresh stream most within r)
        (omega arith) h v.distinct v.rich

  round_sends :
      (m : ℕ) (r : Round S)
      → RichRound m r
      → Passes most
          (share r)
          (length r.controller.slots)
          (fresh stream most within r)
          (round stream r)
  round_sends m r v = round-Passes stream most within r v.total_fits (omega (arith, v.bounded))

  rich-le :
      (m : ℕ) (cell : ℕ → Option S) (is : List ℕ)
      → 0 < length is
      → All (IsRich stream m cell) is
      → m ≤ most
  rich-le m cell [] h rich = absurd (omega arith)
  rich-le m cell (i ∷ is) h rich = omega (arith, within rich.0.occupant, rich.0.has)

  -- A round whose share is below `m`: it sends the share to every stream, and all still wait.
  pub record Spends (m : ℕ) (r t : Round S) : Type 0 where
    pub slots_same : t.controller.slots ≡ r.controller.slots
    pub rich_left : RichRound (m - share r) t
    pub sent_lem :
        total_sent t.controller.sent
        ≡ total_sent r.controller.sent + length r.controller.slots * share r
    pub total_lem :
        t.total_to_transfer ≡ sub_size r.total_to_transfer (length r.controller.slots * share r)
    pub sent_le : length r.controller.slots * share r ≤ length r.controller.slots * most

  pub round-Spends :
      (m : ℕ) (r : Round S) → share r < m → RichRound m r → Spends m r (round stream r)
  round-Spends m r h v = record {
    slots_same = p.slots_same;
    rich_left = record {
      distinct = subst Distinct (sym p.slots_same) v.distinct;
      rich =
          subst (All (IsRich stream (m - share r) (round stream r).controller.cell))
            (sym p.slots_same) p.left;
      bounded = rw p.slots_same v.bounded;
      total_fits = omega (arith, q.total_lem);
      pending_all = omega (arith, p.pending_more h, ap length p.slots_same);
      some_slots = rw p.slots_same v.some_slots;
    };
    sent_lem = p.sent_chunk h;
    total_lem = q.total_lem ∙ ap (sub_size r.total_to_transfer) exact;
    sent_le = omega (arith, exact, q.amount-le-most);
  }
    where
      p :
          RichPass stream quiet
            (share r)
            m
            r.controller.slots
            (fresh stream most within r)
            (round stream r)
      p = round-RichPass m r (omega arith) v

      q :
          Passes most
            (share r)
            (length r.controller.slots)
            (fresh stream most within r)
            (round stream r)
      q = round_sends m r v

      exact : q.amount ≡ length r.controller.slots * share r
      exact = omega (arith, q.sent_lem, p.sent_chunk h)

  pub goes_on_of :
      (r : Round S) → 0 < r.total_to_transfer → 0 < r.pending_streams → goes_on r ≡ true
  unfolding goes_on
  goes_on_of r h p = ground arith

  -- The loop returns, and sends at least `m` bytes for each slot.
  abbrev pub Floods : ℕ → ℕ → Round S → Type 0
  Floods fuel m r =
      (t : Round S) × (rounds stream fuel r ≡ some t)
      × (total_sent r.controller.sent + length r.controller.slots * m
          ≤ total_sent t.controller.sent)

  -- A round that offers every stream all it can have is the last, and sends all of it.
  pub last_round :
      (fuel m : ℕ) (r : Round S)
      → 0 < fuel
      → 0 < m
      → most ≤ share r
      → RichRound m r
      → Floods fuel m r
  unfolding rounds goes_on
  last_round zero m r f h b v = absurd (omega arith)
  last_round (suc fuel) m r f h b v =
      let p = round-RichPass m r h v in
      let q = round_sends m r v in
      let over : goes_on (round stream r) ≡ false = ground (arith, q.pending_none b) in
      let whole : min m (share r) ≡ m =
        omega (arith, rich-le m r.controller.cell r.controller.slots v.some_slots v.rich) in
      (
        round stream r,
        simp over,
        subst
            (λ k.
              total_sent r.controller.sent + length r.controller.slots * k
              ≤ total_sent (round stream r).controller.sent)
            whole p.sent_some,
      )

  -- A round that spends its share, and floods from there.
  pub spent-Floods :
      (fuel m : ℕ) (r : Round S)
      → share r ≤ m
      → Spends m r (round stream r)
      → goes_on (round stream r) ≡ true
      → Floods fuel (m - share r) (round stream r)
      → Floods (suc fuel) m r
  unfolding rounds
  spent-Floods fuel m r h p more (t, e, k) =
      (t, simp (more, e), omega (arith, k', p.sent_lem, parts))
    where
      k' :
          total_sent (round stream r).controller.sent + length r.controller.slots * (m - share r)
          ≤ total_sent t.controller.sent
      k' =
          subst
            (λ l.
              total_sent (round stream r).controller.sent + length l * (m - share r)
              ≤ total_sent t.controller.sent)
            p.slots_same k

      parts :
          length r.controller.slots * (m - share r) + length r.controller.slots * share r
          ≡ length r.controller.slots * m
      parts = split_product (length r.controller.slots) m (share r) h
