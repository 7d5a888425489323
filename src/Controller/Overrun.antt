-- ===== src/Controller/Overrun.antt =====
-- What the loop makes of a budget that does not divide evenly: `total_to_transfer` passes below 0,
-- wraps, and the next round empties every stream.
use native.Mathlib.Nat.{div-eq_of_lt, le-div_iff_mul-le, div-add-mod, mod-lt, zero-mod}
use native.Mathlib.Decide.{dec_lt}
use ecwid_console_downloader.Base.{
  ℕ, zero, suc, ◌+◌, ◌-◌, ◌*◌, ◌/◌, ◌%◌, ◌^◌, ◌≤◌, ◌<◌, ◌≡◌, ◌≢◌, refl, ap, false, some, length,
  ltb, ◌==◌, if◌then◌else◌, arith, All,
}
use ecwid_console_downloader.Controller.{
  Controller, Round, Stream, transfer_all, defer_transfer, round, share, budget,
}
use ecwid_console_downloader.Controller.Pass.{total_sent}
use ecwid_console_downloader.Controller.Rounds.{share_wrapped}
use ecwid_console_downloader.Controller.Rich.{Distinct, IsQuiet, IsRich}
use ecwid_console_downloader.Controller.Flood.{
  RichRound, Spends, round-Spends, goes_on_of, Floods, last_round, spent-Floods,
}

positive_of_odd : (total n : ℕ) → total % n ≢ 0 → 0 < total
positive_of_odd zero n h = absurd (h (zero-mod n))
positive_of_odd (suc total) n h = omega arith

sent-finish :
    {S : Type 0} (r : Round S)
    → total_sent
        (if ltb 0 r.pending_streams then defer_transfer r.controller else r.controller).sent
      ≡ total_sent r.controller.sent
unfolding defer_transfer
sent-finish r = ground arith

module _ {S : Type 0} (stream : Stream S) (most : ℕ) (within : (s : S) → stream.available s ≤ most)
    (quiet : IsQuiet stream) where
  -- A budget below the number of streams wraps in its first round.
  starved :
      (fuel m : ℕ) (r : Round S)
      → 1 < fuel
      → 1 < m
      → 0 < r.total_to_transfer
      → r.total_to_transfer < length r.controller.slots
      → RichRound stream most within quiet m r
      → Floods stream most within quiet fuel m r
  starved zero m r f h some_left less v = absurd (omega arith)
  starved (suc fuel) m r f h some_left less v =
      spent-Floods stream most within quiet fuel m r (omega (arith, one)) p
        (goes_on_of stream most within quiet r' (omega (arith, wrapped, v.bounded)) waiting)
        (last_round stream most within quiet fuel (m - share r) r' (omega arith)
          (omega (arith, one))
          (share_wrapped stream most within (length r.controller.slots) r' v.bounded wrapped waiting
            (omega (arith, p.rich_left.pending_all, ap length p.slots_same)))
          p.rich_left)
    where
      r' : Round S
      r' = round stream r

      one : share r ≡ 1
      one = rw (v.pending_all, div-eq_of_lt less) (omega arith)

      p : Spends stream most within quiet m r r'
      p = round-Spends stream most within quiet m r (omega (arith, one)) v

      spends_each : length r.controller.slots * share r ≡ length r.controller.slots
      spends_each = rw one (omega arith)

      wrapped : 2 ^ 64 - length r.controller.slots * most ≤ r'.total_to_transfer
      wrapped = omega (arith, p.total_lem, p.sent_le, spends_each, v.bounded, v.total_fits)

      waiting : 0 < r'.pending_streams
      waiting = omega (arith, p.rich_left.pending_all, p.rich_left.some_slots)

  -- So does one that covers the streams and does not divide evenly among them, a round later.
  uneven :
      (fuel m : ℕ) (r : Round S)
      → r.total_to_transfer + 1 < fuel
      → r.total_to_transfer / length r.controller.slots + 1 < m
      → r.total_to_transfer % length r.controller.slots ≢ 0
      → length r.controller.slots ≤ r.total_to_transfer
      → RichRound stream most within quiet m r
      → Floods stream most within quiet fuel m r
  uneven zero m r f h odd covers v = absurd (omega arith)
  uneven (suc fuel) m r f h odd covers v =
      spent-Floods stream most within quiet fuel m r (omega (arith, even)) p
        (goes_on_of stream most within quiet r' (omega (arith, rest))
          (omega (arith, p.rich_left.pending_all, p.rich_left.some_slots)))
        (starved fuel (m - share r) r' (omega (arith, v.some_slots)) (omega (arith, even))
          (omega (arith, rest)) (omega (arith, rest, ap length p.slots_same, less)) p.rich_left)
    where
      r' : Round S
      r' = round stream r

      some_share : 1 ≤ r.total_to_transfer / length r.controller.slots
      some_share = (le-div_iff_mul-le v.some_slots).1 (omega (arith, covers))

      even : share r ≡ r.total_to_transfer / length r.controller.slots
      even = rw v.pending_all (omega (arith, some_share))

      p : Spends stream most within quiet m r r'
      p = round-Spends stream most within quiet m r (omega (arith, even)) v

      whole :
          length r.controller.slots * (r.total_to_transfer / length r.controller.slots)
            + r.total_to_transfer % length r.controller.slots
          ≡ r.total_to_transfer
      whole = div-add-mod r.total_to_transfer (length r.controller.slots)

      less : r.total_to_transfer % length r.controller.slots < length r.controller.slots
      less = mod-lt r.total_to_transfer v.some_slots

      spent :
          length r.controller.slots * share r
          ≡ length r.controller.slots * (r.total_to_transfer / length r.controller.slots)
      spent = ap (λ k. length r.controller.slots * k) even

      rest : r'.total_to_transfer ≡ r.total_to_transfer % length r.controller.slots
      rest = omega (arith, p.total_lem, spent, whole, v.total_fits)

  -- Take streams that have at most `most` bytes each, call nothing back and have so much less
  -- after a transfer, a list of `n` distinct slots, `n` positive and 2 * (`n` * `most`) below
  -- 2^64, whose streams live and have `m` bytes at least each, and an elapsed time whose budget
  -- `limit * elapsed / 1000` is no multiple of `n`, with `m` above `budget / n + 1`. Then
  -- `transfer` returns and sends `n * m` bytes at least, however large `m` is.
  pub transfer_all-overruns :
      (elapsed m : ℕ) (c : Controller S)
      → Distinct c.slots
      → All (IsRich stream m c.cell) c.slots
      → 0 < length c.slots
      → 2 * (length c.slots * most) < 2 ^ 64
      → budget c.limit elapsed % length c.slots ≢ 0
      → budget c.limit elapsed / length c.slots + 1 < m
      → (d : Controller S) × (transfer_all stream elapsed c ≡ some d)
        × (total_sent c.sent + length c.slots * m ≤ total_sent d.sent)
  unfolding transfer_all
  transfer_all-overruns elapsed m c distinct rich some_slots few odd above =
      let (r, e, k) = flood in
      (
        if ltb 0 r.pending_streams then defer_transfer r.controller else r.controller,
        simp (crowd, wealthy, e),
        omega (arith, k, sent-finish r),
      )
    where
      start : Round S
      start = record {
        controller = record c { sheduled = false };
        total_to_transfer = budget c.limit elapsed;
        pending_streams = length c.slots;
      }

      v : RichRound stream most within quiet m start
      v = record {
        distinct = distinct;
        rich = rich;
        bounded = few;
        total_fits = omega arith;
        pending_all = refl;
        some_slots = some_slots;
      }

      crowd : (length c.slots == 0) ≡ false
      crowd = ground arith

      positive : 0 < budget c.limit elapsed
      positive = positive_of_odd (budget c.limit elapsed) (length c.slots) odd

      wealthy : (budget c.limit elapsed == 0) ≡ false
      wealthy = ground (arith, positive)

      flood : Floods stream most within quiet (budget c.limit elapsed + 2) m start
      flood = elim (dec_lt (budget c.limit elapsed) (length c.slots)) [
        | yes less ↦
            starved (budget c.limit elapsed + 2) m start (omega arith) (omega (arith, above))
              positive less v
        | no covers ↦
            uneven (budget c.limit elapsed + 2) m start (omega arith) above odd (omega arith) v
      ]
