-- ===== src/Controller/Pass.antt =====
-- One pass over the slots: what it sends, and what it makes of the budget.
use ecwid_console_downloader.Base.{
  ℕ, ◌+◌, ◌*◌, ◌^◌, ◌≤◌, ◌<◌, ◌≡◌, refl, ap, ◌∙◌, min, inl, inr, Option, none, some, List, [], ◌∷◌,
  ◌++◌, length, ◌==◌, sub_size, arith, Bool-cases, subst,
}
use native.Mathlib.Decide.{dec_lt}
use ecwid_console_downloader.Controller.{
  Controller, Round, Stream, Request, adds, removes, add_stream, remove_stream, update, answer,
  transfer_stream, serve_stream, visit, pass,
}

-- The bytes that the calls of `Stream::transfer` allow.
abbrev pub total_sent : List (ℕ × ℕ) → ℕ
total_sent [] = 0
total_sent (e ∷ es) = e.1 + total_sent es

pub total_sent-append :
    (xs ys : List (ℕ × ℕ)) → total_sent (xs ++ ys) ≡ total_sent xs + total_sent ys
total_sent-append [] ys = omega arith
total_sent-append (x ∷ xs) ys = omega (arith, total_sent-append xs ys)

module _ {S : Type 0} where
  -- What the loop leaves alone in the controller.
  pub record Keeps (c d : Controller S) : Type 0 where
    pub limit_same : d.limit ≡ c.limit
    pub sheduled_same : d.sheduled ≡ c.sheduled
    pub handlers_same : d.timer_handlers ≡ c.timer_handlers
    pub timer_same : d.timer_active ≡ c.timer_active

  pub Keeps-trans : {c d e : Controller S} → Keeps c d → Keeps d e → Keeps c e
  Keeps-trans p q = record {
    limit_same = q.limit_same ∙ p.limit_same;
    sheduled_same = q.sheduled_same ∙ p.sheduled_same;
    handlers_same = q.handlers_same ∙ p.handlers_same;
    timer_same = q.timer_same ∙ p.timer_same;
  }

  -- A pass over `k` slots, of streams that have at most `most` bytes each, at `chunk` bytes each.
  pub record Passes (most chunk k : ℕ) (r t : Round S) : Type 0 where
    pub amount : ℕ
    pub amount-le-most : amount ≤ k * most
    pub amount-le-chunk : amount ≤ k * chunk
    pub total_lem : t.total_to_transfer ≡ sub_size r.total_to_transfer amount
    pub sent_lem : total_sent t.controller.sent ≡ total_sent r.controller.sent + amount
    pub pending_le : t.pending_streams ≤ r.pending_streams + k
    pub pending_sends : r.pending_streams < t.pending_streams → chunk ≤ amount
    pub pending_none : most ≤ chunk → t.pending_streams ≡ r.pending_streams
    pub keeps : Keeps r.controller t.controller

  Passes-trans :
      {most chunk k m : ℕ} {r t u : Round S}
      → r.total_to_transfer < 2 ^ 64
      → (k + m) * most < 2 ^ 64
      → Passes most chunk k r t
      → Passes most chunk m t u
      → Passes most chunk (k + m) r u
  Passes-trans {most} {chunk} {k} {m} {r} {t} {u} h b p q = record {
    amount = p.amount + q.amount;
    amount-le-most = omega (arith, p.amount-le-most, q.amount-le-most);
    amount-le-chunk = omega (arith, p.amount-le-chunk, q.amount-le-chunk);
    total_lem = omega (arith, p.total_lem, q.total_lem, p.amount-le-most, q.amount-le-most);
    sent_lem = omega (arith, p.sent_lem, q.sent_lem);
    pending_le = omega (arith, p.pending_le, q.pending_le);
    pending_sends = λ l. elim (dec_lt r.pending_streams t.pending_streams) [
      | yes early ↦ omega (arith, p.pending_sends early)
      | no late ↦ omega (arith, q.pending_sends (omega arith))
    ];
    pending_none = λ l. q.pending_none l ∙ p.pending_none l;
    keeps = Keeps-trans p.keeps q.keeps;
  }

  -- A pass that does nothing, over any number of slots.
  idle-Passes :
      {most chunk k : ℕ} {r t : Round S}
      → r.total_to_transfer < 2 ^ 64
      → t.total_to_transfer ≡ r.total_to_transfer
      → t.pending_streams ≡ r.pending_streams
      → total_sent t.controller.sent ≡ total_sent r.controller.sent
      → Keeps r.controller t.controller
      → Passes most chunk k r t
  idle-Passes h total pending sent keeps = record {
    amount = 0;
    amount-le-most = omega arith;
    amount-le-chunk = omega arith;
    total_lem = omega arith;
    sent_lem = omega arith;
    pending_le = omega arith;
    pending_sends = λ l. omega arith;
    pending_none = λ l. pending;
    keeps = keeps;
  }

  Keeps-refl : (c : Controller S) → Keeps c c
  Keeps-refl c = record {
    limit_same = refl;
    sheduled_same = refl;
    handlers_same = refl;
    timer_same = refl;
  }

module _ {S : Type 0} (stream : Stream S) where
  -- A callback may close streams and open new ones: what was sent does not change.
  pub record Answers (c d : Controller S) : Type 0 where
    pub sent_same : d.sent ≡ c.sent
    pub keeps : Keeps c d

  pub answer-Answers : (rs : List (Request S)) (c : Controller S) → Answers c (answer stream rs c)
  unfolding answer add_stream remove_stream
  answer-Answers [] c = record { sent_same = refl; keeps = Keeps-refl c }
  answer-Answers (adds none ∷ rs) c = answer-Answers rs c
  answer-Answers (adds (some s) ∷ rs) c =
      let a = answer-Answers rs (add_stream stream (some s) c) in
      record {
        sent_same = a.sent_same;
        keeps =
            Keeps-trans
              (record {
                limit_same = refl;
                sheduled_same = refl;
                handlers_same = refl;
                timer_same = refl;
              })
              a.keeps;
      }
  answer-Answers (removes i ∷ rs) c =
      let a = answer-Answers rs (remove_stream i c) in
      record {
        sent_same = a.sent_same;
        keeps =
            Keeps-trans
              (record {
                limit_same = refl;
                sheduled_same = refl;
                handlers_same = refl;
                timer_same = refl;
              })
              a.keeps;
      }

  module _ (most : ℕ) (within : (s : S) → stream.available s ≤ most) where
    transferred : (i : ℕ) (s : S) (n : ℕ) (c : Controller S) → Controller S
    transferred i s n c = record c {
      cell = update c.cell i (some (stream.transfer n s));
      sent = c.sent ++ ((i, n) ∷ []);
    }

    transfer_stream-sent :
        (i : ℕ) (s : S) (n : ℕ) (c : Controller S)
        → (total_sent (transfer_stream stream i s n c).sent ≡ total_sent c.sent + n)
          × Keeps c (transfer_stream stream i s n c)
    unfolding transfer_stream transferred
    transfer_stream-sent i s n c =
        let a = answer-Answers (stream.requests n s) (transferred i s n c) in
        (
          omega (arith, ap total_sent a.sent_same, total_sent-append c.sent ((i, n) ∷ [])),
          Keeps-trans
              (record {
                limit_same = refl;
                sheduled_same = refl;
                handlers_same = refl;
                timer_same = refl;
              })
              a.keeps,
        )

    serve_stream-Passes :
        (chunk i : ℕ) (s : S) (r : Round S)
        → r.total_to_transfer < 2 ^ 64
        → Passes most chunk 1 r (serve_stream stream chunk i s r)
    unfolding serve_stream
    serve_stream-Passes chunk i s r h = elim (Bool-cases (min (stream.available s) chunk == 0)) [
      | inl idle ↦ simp idle (idle-Passes h refl refl refl (Keeps-refl r.controller))
      | inr going ↦ simp going (record {
        amount = min (stream.available s) chunk;
        amount-le-most = omega (arith, within s);
        amount-le-chunk = omega arith;
        total_lem = refl;
        sent_lem = (transfer_stream-sent i s (min (stream.available s) chunk) r.controller).0;
        pending_le = ground arith;
        pending_sends = λ l. ground arith;
        pending_none = λ l. ground (arith, within s);
        keeps = (transfer_stream-sent i s (min (stream.available s) chunk) r.controller).1;
      })
    ]

    visit-Passes :
        (chunk i : ℕ) (o : Option S) (r : Round S)
        → r.total_to_transfer < 2 ^ 64
        → Passes most chunk 1 r (visit stream chunk i o r)
    unfolding visit
    visit-Passes chunk i none r h = idle-Passes h refl refl refl (record {
      limit_same = refl;
      sheduled_same = refl;
      handlers_same = refl;
      timer_same = refl;
    })
    visit-Passes chunk i (some s) r h = serve_stream-Passes chunk i s r h

    pub pass-Passes :
        (chunk : ℕ) (is : List ℕ) (r : Round S)
        → r.total_to_transfer < 2 ^ 64
        → length is * most < 2 ^ 64
        → Passes most chunk (length is) r (pass stream chunk is r)
    unfolding pass
    pass-Passes chunk [] r h b = idle-Passes h refl refl refl (Keeps-refl r.controller)
    pass-Passes chunk (i ∷ is) r h b =
        let r' = visit stream chunk i (r.controller.cell i) r in
        let p = visit-Passes chunk i (r.controller.cell i) r h in
        let q = pass-Passes chunk is r' (omega (arith, p.total_lem)) (omega arith) in
        subst (λ k. Passes most chunk k r (pass stream chunk is r')) {x = 1 + length is}
          (omega arith) (Passes-trans h (omega arith) p q)
