-- ===== src/Controller/Gain.antt =====
-- What the stream of a slot gains in a transfer is within what the controller sends.
use mathlib.Core.Option.{some-injective}
use ecwid_console_downloader.Base.{
  ℕ, zero, suc, ◌+◌, ◌≤◌, ◌≡◌, refl, sym, ap, ◌∙◌, false, inl, inr, min, Option, none, some, List,
  [], ◌∷◌, ◌++◌, length, ltb, ◌==◌, if◌then◌else◌, arith, Bool-cases, Option-cases, All, ==→eq,
  subst,
}
use ecwid_console_downloader.Controller.{
  Controller, Round, Stream, Request, adds, removes, remove_stream, defer_transfer, update, answer,
  transfer_stream, serve_stream, visit, pass, round, rounds, share, goes_on, transfer_all, budget,
}
use ecwid_console_downloader.Controller.Pass.{total_sent, total_sent-append}
use ecwid_console_downloader.Controller.Rounds.{IsRemoval}

-- What `measure` says of the stream of a slot, and 0 of one that is gone.
abbrev pub measured : {S : Type 0} → (S → ℕ) → Option S → ℕ
measured measure none = 0
measured measure (some s) = measure s

module _ {S : Type 0} (measure : S → ℕ) (k : ℕ) where
  pub record Gains (c d : Controller S) : Type 0 where
    pub gain :
        measured measure (d.cell k) + total_sent c.sent
        ≤ measured measure (c.cell k) + total_sent d.sent

  pub Gains-refl : (c : Controller S) → Gains c c
  Gains-refl c = record { gain = omega arith }

  pub Gains-trans : (c d e : Controller S) → Gains c d → Gains d e → Gains c e
  Gains-trans c d e p q = record { gain = omega (arith, p.gain, q.gain) }

  remove-Gains : (i : ℕ) (c : Controller S) → Gains c (remove_stream i c)
  unfolding remove_stream
  remove-Gains i c = elim (Bool-cases (i == k)) [
    | inl same ↦ record { gain = simp same (omega arith) }
    | inr other ↦ record { gain = simp other (omega arith) }
  ]

  defer-Gains : (c : Controller S) → Gains c (defer_transfer c)
  unfolding defer_transfer
  defer-Gains c = record { gain = omega arith }

  module _ (stream : Stream S) (removing : (n : ℕ) (s : S) → All IsRemoval (stream.requests n s))
      (grows : (n : ℕ) (s : S) → measure (stream.transfer n s) ≤ measure s + n) where
    answer-Gains :
        (rs : List (Request S)) (c : Controller S) → All IsRemoval rs → Gains c (answer stream rs c)
    unfolding answer
    answer-Gains [] c h = Gains-refl c
    answer-Gains (adds s ∷ rs) c h = absurd h.0
    answer-Gains (removes i ∷ rs) c h =
        Gains-trans c (remove_stream i c) _ (remove-Gains i c)
          (answer-Gains rs (remove_stream i c) h.1)

    transfer-Gains :
        (i : ℕ) (s : S) (n : ℕ) (c : Controller S)
        → c.cell i ≡ some s
        → Gains c (transfer_stream stream i s n c)
    unfolding transfer_stream
    transfer-Gains i s n c h =
        let d : Controller S = record c {
          cell = update c.cell i (some (stream.transfer n s));
          sent = c.sent ++ ((i, n) ∷ []);
        } in
        Gains-trans c d _ (sends) (answer-Gains (stream.requests n s) d (removing n s))
      where
        more : total_sent (c.sent ++ ((i, n) ∷ [])) ≡ total_sent c.sent + n
        more = omega (arith, total_sent-append c.sent ((i, n) ∷ []))

        sends : Gains c (record c {
          cell = update c.cell i (some (stream.transfer n s));
          sent = c.sent ++ ((i, n) ∷ []);
        })
        sends = elim (Bool-cases (i == k)) [
          | inl same ↦ record {
            gain = simp same (
                omega (
                  arith,
                  ap (measured measure) (ap c.cell (sym (==→eq i k same)) ∙ h),
                  more,
                  grows n s,
                ));
          }
          | inr other ↦ record { gain = simp other (omega (arith, more)) }
        ]

    visit-Gains :
        (chunk i : ℕ) (o : Option S) (r : Round S)
        → r.controller.cell i ≡ o
        → Gains r.controller (visit stream chunk i o r).controller
    unfolding visit serve_stream
    visit-Gains chunk i none r h = record { gain = omega arith }
    visit-Gains chunk i (some s) r h = elim (Bool-cases (min (stream.available s) chunk == 0)) [
      | inl idle ↦ simp idle (Gains-refl r.controller)
      | inr going ↦ simp going (transfer-Gains i s (min (stream.available s) chunk) r.controller h)
    ]

    pass-Gains :
        (chunk : ℕ) (is : List ℕ) (r : Round S)
        → Gains r.controller (pass stream chunk is r).controller
    unfolding pass
    pass-Gains chunk [] r = Gains-refl r.controller
    pass-Gains chunk (i ∷ is) r =
        let t = visit stream chunk i (r.controller.cell i) r in
        Gains-trans r.controller t.controller _ (visit-Gains chunk i _ r refl)
          (pass-Gains chunk is t)

    round-Gains : (r : Round S) → Gains r.controller (round stream r).controller
    unfolding round
    round-Gains r = record {
      gain = (pass-Gains (share r) r.controller.slots (record r { pending_streams = 0 })).gain;
    }

    rounds-Gains :
        (fuel : ℕ) (r t : Round S) → rounds stream fuel r ≡ some t → Gains r.controller t.controller
    unfolding rounds
    rounds-Gains zero r t e = cc
    rounds-Gains (suc fuel) r t e = elim (Bool-cases (goes_on (round stream r))) [
      | inl more ↦
          Gains-trans r.controller (round stream r).controller t.controller (round-Gains r)
            (rounds-Gains fuel (round stream r) t (simp more at e))
      | inr done ↦
          subst (λ (x : Round S). Gains r.controller x.controller)
            (some-injective _ t (simp done at e)) (round-Gains r)
    ]

    planned-Gains :
        (c : Controller S) (r : Round S)
        → Gains c r.controller
        → Gains c (if ltb 0 r.pending_streams then defer_transfer r.controller else r.controller)
    planned-Gains c r h = elim (Bool-cases (ltb 0 r.pending_streams)) [
      | inl more ↦ simp more (Gains-trans c r.controller _ h (defer-Gains r.controller))
      | inr done ↦ simp done h
    ]

    -- A transfer adds to what the measure says of a slot's stream at most what the controller sends in it.
    pub transfer_all-Gains :
        (elapsed : ℕ) (c d : Controller S) → transfer_all stream elapsed c ≡ some d → Gains c d
    unfolding transfer_all
    transfer_all-Gains elapsed c d e = elim (Bool-cases (length c.slots == 0)) [
      | inl alone ↦
          subst (Gains c) (some-injective _ d (simp alone at e)) (record { gain = omega arith })
      | inr crowd ↦ elim (Bool-cases (budget c.limit elapsed == 0)) [
        | inl broke ↦
            subst (Gains c) (some-injective _ d (simp (crowd, broke) at e))
              (record { gain = (defer-Gains (record c { sheduled = false })).gain })
        | inr rich ↦ elim (Option-cases (rounds stream (budget c.limit elapsed + 2) start)) [
          | inl out ↦
              let e' : ◌≡◌ {A = Option (Controller S)} none (some d) =
                simp (crowd, rich, out) at e in
              cc
          | inr (r, f) ↦
              let run = rounds-Gains (budget c.limit elapsed + 2) start r f in
              subst (Gains c) (some-injective _ d (simp (crowd, rich, f) at e))
                (planned-Gains c r (record { gain = run.gain }))
        ]
      ]
    ]
      where
        start : Round S
        start = record {
          controller = record c { sheduled = false };
          total_to_transfer = budget c.limit elapsed;
          pending_streams = length c.slots;
        }
