-- ===== src/Controller/Rich.antt =====
-- Passes over streams that call nothing back and that all have data.
use ecwid_console_downloader.Base.{
  ℕ, ◌+◌, ◌-◌, ◌*◌, ◌≤◌, ◌<◌, ◌≡◌, ◌≢◌, refl, sym, ◌∙◌, min, false, Option, some, List, [], ◌∷◌,
  ◌++◌, length, ◌==◌, arith, All,
}
use ecwid_console_downloader.Controller.{
  Controller, Round, Stream, answer, transfer_stream, serve_stream, visit, pass, update,
}
use ecwid_console_downloader.Controller.Pass.{total_sent, total_sent-append}

abbrev pub Distinct : List ℕ → Type 0
Distinct [] = Unit
Distinct (i ∷ is) = All (λ j. j ≢ i) is × Distinct is

module _ {S : Type 0} (stream : Stream S) where
  -- A stream that calls nothing back, and that a transfer leaves with so much less.
  pub record IsQuiet : Type 0 where
    pub silent : (n : ℕ) (s : S) → stream.requests n s ≡ []
    pub takes : (n : ℕ) (s : S) → stream.available (stream.transfer n s) ≡ stream.available s - n

  -- The slot's stream is alive and has `m` bytes at least.
  pub record IsRich (m : ℕ) (cell : ℕ → Option S) (i : ℕ) : Type 0 where
    pub occupant : S
    pub alive : cell i ≡ some occupant
    pub has : m ≤ stream.available occupant

  move-IsRich :
      (m i : ℕ) (cell cell' : ℕ → Option S) → cell' i ≡ cell i → IsRich m cell i → IsRich m cell' i
  move-IsRich m i cell cell' e rich = record {
    occupant = rich.occupant;
    alive = e ∙ rich.alive;
    has = rich.has;
  }

  module _ (quiet : IsQuiet) where
    transfer_quiet :
        (i : ℕ) (s : S) (n : ℕ) (c : Controller S)
        → transfer_stream stream i s n c ≡ record c {
          cell = update c.cell i (some (stream.transfer n s));
          sent = c.sent ++ ((i, n) ∷ []);
        }
    unfolding transfer_stream answer
    transfer_quiet i s n c = rw (quiet.silent n s)

    -- What a visit does at a stream that has more than its chunk, or no more than it.
    record Visits (chunk m i : ℕ) (r t : Round S) : Type 0 where
      slots_same : t.controller.slots ≡ r.controller.slots
      others : (j : ℕ) → i ≢ j → t.controller.cell j ≡ r.controller.cell j
      left : IsRich (m - chunk) t.controller.cell i
      sent_some : total_sent r.controller.sent + min m chunk ≤ total_sent t.controller.sent
      sent_chunk : chunk < m → total_sent t.controller.sent ≡ total_sent r.controller.sent + chunk
      pending_more : chunk < m → t.pending_streams ≡ r.pending_streams + 1

    visit-Visits :
        (chunk m i : ℕ) (s : S) (r : Round S)
        → 0 < chunk
        → 0 < m
        → m ≤ stream.available s
        → Visits chunk m i r (visit stream chunk i (some s) r)
    unfolding visit serve_stream
    visit-Visits chunk m i s r hc hm h =
        let going : (min (stream.available s) chunk == 0) ≡ false = ground arith in
        let n : ℕ = min (stream.available s) chunk in
        let sums = total_sent-append r.controller.sent ((i, n) ∷ []) in
        simp (going, transfer_quiet)
          (record {
            slots_same = refl;
            others = λ j ne. ground arith;
            left = record {
              occupant = stream.transfer n s;
              alive = ground arith;
              has = omega (arith, quiet.takes n s);
            };
            sent_some = omega (arith, sums);
            sent_chunk = λ l. omega (arith, sums);
            pending_more = λ l. ground arith;
          })

    -- A pass over slots that are all rich.
    pub record RichPass (chunk m : ℕ) (is : List ℕ) (r t : Round S) : Type 0 where
      pub slots_same : t.controller.slots ≡ r.controller.slots
      pub others : (j : ℕ) → All (λ i. i ≢ j) is → t.controller.cell j ≡ r.controller.cell j
      pub left : All (IsRich (m - chunk) t.controller.cell) is
      pub sent_some :
          total_sent r.controller.sent + length is * min m chunk ≤ total_sent t.controller.sent
      pub sent_chunk :
          chunk < m
          → total_sent t.controller.sent ≡ total_sent r.controller.sent + length is * chunk
      pub pending_more : chunk < m → t.pending_streams ≡ r.pending_streams + length is

    keep-IsRich :
        (m i : ℕ) (is : List ℕ) (cell cell' : ℕ → Option S)
        → ((j : ℕ) → i ≢ j → cell' j ≡ cell j)
        → All (λ j. j ≢ i) is
        → All (IsRich m cell) is
        → All (IsRich m cell') is
    keep-IsRich m i [] cell cell' same ne rich = tt
    keep-IsRich m i (j ∷ js) cell cell' same ne rich = (
      move-IsRich m j cell cell' (same j (λ e. ne.0 (sym e))) rich.0,
      keep-IsRich m i js cell cell' same ne.1 rich.1,
    )

    pub pass-RichPass :
        (chunk m : ℕ) (is : List ℕ) (r : Round S)
        → 0 < chunk
        → 0 < m
        → Distinct is
        → All (IsRich m r.controller.cell) is
        → RichPass chunk m is r (pass stream chunk is r)
    unfolding pass
    pass-RichPass chunk m [] r hc hm d rich = record {
      slots_same = refl;
      others = λ j h. refl;
      left = tt;
      sent_some = omega arith;
      sent_chunk = λ l. omega arith;
      pending_more = λ l. omega arith;
    }
    pass-RichPass chunk m (i ∷ is) r hc hm d rich = rw rich.0.alive (
        let r' = visit stream chunk i (some rich.0.occupant) r in
        let v = visit-Visits chunk m i rich.0.occupant r hc hm rich.0.has in
        let p =
          pass-RichPass chunk m is r' hc hm d.1
            (keep-IsRich m i is r.controller.cell r'.controller.cell v.others d.0 rich.1) in
        record {
          slots_same = p.slots_same ∙ v.slots_same;
          others = λ j h. p.others j h.1 ∙ v.others j h.0;
          left = (move-IsRich (m - chunk) i r'.controller.cell _ (p.others i d.0) v.left, p.left);
          sent_some = omega (arith, v.sent_some, p.sent_some);
          sent_chunk = λ l. omega (arith, v.sent_chunk l, p.sent_chunk l);
          pending_more = λ l. omega (arith, v.pending_more l, p.pending_more l);
        })
