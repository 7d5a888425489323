-- ===== src/Controller/Budget.antt =====
-- How much the loop sends of its budget: never more in a first round whose budget covers the
-- streams, and never more in all when there is one stream.
use native.Mathlib.Nat.{mul-div-le}
use mathlib.Core.Option.{some-injective}
use ecwid_console_downloader.Base.{
  ℕ, zero, suc, ◌+◌, ◌*◌, ◌/◌, ◌^◌, ◌≤◌, ◌<◌, ◌≡◌, refl, ap, max, false, inl, inr, Option, none,
  some, length, ltb, ◌==◌, if◌then◌else◌, arith, Bool-cases, Option-cases,
}
use ecwid_console_downloader.Controller.{
  Controller, Round, Stream, transfer_all, defer_transfer, rounds, round, goes_on, share, budget,
}
use ecwid_console_downloader.Controller.Pass.{Passes, total_sent}
use ecwid_console_downloader.Controller.Rounds.{round-Passes, round-slots, fresh, goes_on-parts}
use ecwid_console_downloader.Controller.Schedule.{Served, transfer_all-Plans}

-- A share of a budget that covers the streams, times their number, is within the budget.
share_covers : (total n : ℕ) → n ≤ total → n * max (total / n) 1 ≤ total
share_covers total n h = grind (arith, mul-div-le total n)

module _ {S : Type 0} (stream : Stream S) (most : ℕ) (served : Served stream most) where
  -- When the loop begins with a budget below 2^64 of at least a byte for each slot, over streams that
  -- have at most `most` bytes each and whose callbacks only remove streams, all their bytes below
  -- 2^64: its first round takes exactly the bytes that it sends off the budget, so it sends no more.
  pub round-within :
      (r : Round S)
      → r.pending_streams ≡ length r.controller.slots
      → length r.controller.slots ≤ r.total_to_transfer
      → r.total_to_transfer < 2 ^ 64
      → length r.controller.slots * most < 2 ^ 64
      → total_sent (round stream r).controller.sent + (round stream r).total_to_transfer
        ≡ total_sent r.controller.sent + r.total_to_transfer
  round-within r e c h b = omega (arith, P.sent_lem, P.total_lem, P.amount-le-chunk, fits)
    where
      P :
          Passes most
            (share r)
            (length r.controller.slots)
            (fresh stream most served.within r)
            (round stream r)
      P = round-Passes stream most served.within r h b

      fits : length r.controller.slots * share r ≤ r.total_to_transfer
      fits = rw e (share_covers r.total_to_transfer (length r.controller.slots) c)

  rounds-within :
      (fuel : ℕ) (r t : Round S)
      → length r.controller.slots ≤ 1
      → r.pending_streams ≡ 1
      → 0 < r.total_to_transfer
      → r.total_to_transfer < 2 ^ 64
      → most < 2 ^ 64
      → rounds stream fuel r ≡ some t
      → total_sent t.controller.sent ≤ total_sent r.controller.sent + r.total_to_transfer
  unfolding rounds
  rounds-within zero r t l p some_left h b e = cc
  rounds-within (suc fuel) r t l p some_left h b e = elim (Bool-cases (goes_on (round stream r))) [
    | inl more ↦ omega (
      arith,
      P.sent_lem,
      P.total_lem,
      sends,
      rounds-within fuel (round stream r) t (omega (arith, round-slots stream served.removing r))
          (omega (arith, P.pending_le, (goes_on-parts _ more).1)) (goes_on-parts _ more).0
          (omega (arith, P.total_lem)) b (simp more at e),
    )
    | inr done ↦
        omega (arith, P.sent_lem, sends, ap total_sent (ap (λ q. q.controller.sent) (ends done)))
  ]
    where
      P :
          Passes most
            (share r)
            (length r.controller.slots)
            (fresh stream most served.within r)
            (round stream r)
      P = round-Passes stream most served.within r h (grind arith)

      one_share : share r ≤ r.total_to_transfer
      one_share = rw p (omega arith)

      few : length r.controller.slots * share r ≤ 1 * share r
      few = grind (arith, l)

      sends : P.amount ≤ r.total_to_transfer
      sends = omega (arith, P.amount-le-chunk, one_share, few)

      ends : goes_on (round stream r) ≡ false → round stream r ≡ t
      ends done = some-injective _ _ (simp done at e)

  sent-defer_transfer :
      (r : Round S)
      → total_sent
          (if ltb 0 r.pending_streams then defer_transfer r.controller else r.controller).sent
        ≡ total_sent r.controller.sent
  unfolding defer_transfer
  sent-defer_transfer r = ground arith

  deferred_sent : (c : Controller S) → total_sent (defer_transfer c).sent ≡ total_sent c.sent
  unfolding defer_transfer
  deferred_sent c = refl

  returned-within :
      (elapsed : ℕ) (c d : Controller S)
      → length c.slots ≡ 1
      → most < 2 ^ 64
      → transfer_all stream elapsed c ≡ some d
      → total_sent d.sent ≤ total_sent c.sent + budget c.limit elapsed
  unfolding transfer_all
  returned-within elapsed c d one b e = elim (Bool-cases (budget c.limit elapsed == 0)) [
    | inl broke ↦ omega (
      arith,
      ap (λ (x : Controller S). total_sent x.sent) (some-injective _ _ (simp (crowd, broke) at e)),
      deferred_sent (record c { sheduled = false }),
    )
    | inr rich ↦ elim (Option-cases (rounds stream (budget c.limit elapsed + 2) start)) [
      | inl out ↦
          let e' : ◌≡◌ {A = Option (Controller S)} none (some d) = simp (crowd, rich, out) at e in
          cc
      | inr (r, f) ↦ omega (
        arith,
        ap (λ (x : Controller S). total_sent x.sent)
            (some-injective _ _ (simp (crowd, rich, f) at e)),
        sent-defer_transfer r,
        rounds-within (budget c.limit elapsed + 2) start r (omega arith) one (ground (arith, rich))
            (omega arith) b f,
      )
    ]
  ]
    where
      start : Round S
      start = record {
        controller = record c { sheduled = false };
        total_to_transfer = budget c.limit elapsed;
        pending_streams = length c.slots;
      }

      crowd : (length c.slots == 0) ≡ false
      crowd = ground arith

  -- With one slot in the list, of a stream that has at most `most` bytes, 2 * `most` below 2^64, and
  -- whose callbacks add no stream: `transfer` returns, and sends at most the budget of the elapsed
  -- time, `limit * elapsed / 1000`.
  pub transfer_all-within :
      (elapsed : ℕ) (c : Controller S)
      → length c.slots ≡ 1
      → 2 * most < 2 ^ 64
      → (d : Controller S) × (transfer_all stream elapsed c ≡ some d)
        × (total_sent d.sent ≤ total_sent c.sent + budget c.limit elapsed)
  transfer_all-within elapsed c one b =
      let (d, e, _) = transfer_all-Plans stream most served elapsed c (rw one (omega arith)) in
      (d, e, returned-within elapsed c d one (omega arith) e)
