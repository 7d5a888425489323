-- ===== src/Controller/Rounds.antt =====
-- The `do`-`while` loop of `transfer`: it ends, within a fuel of its budget and two rounds.
use native.Mathlib.Decide.{dec_le}
use native.Mathlib.Nat.{le-div_iff_mul-le}
use ecwid_console_downloader.Base.{
  ℕ, zero, suc, ◌+◌, ◌-◌, ◌*◌, ◌^◌, ◌≤◌, ◌<◌, ◌≡◌, refl, min, true, false, inl, inr, Option, none,
  some, List, [], ◌∷◌, length, ◌==◌, arith, Bool-cases, All, ◌⊎◌,
}
use ecwid_console_downloader.Controller.{
  Controller, Round, Stream, Request, adds, removes, remove_stream, answer, transfer_stream,
  serve_stream, visit, pass, erase, share, round, rounds, goes_on,
}
use ecwid_console_downloader.Controller.Pass.{Passes, pass-Passes, Keeps, Keeps-trans}

-- A request that leaves the list of slots alone.
abbrev pub IsRemoval : {S : Type 0} → Request S → Type 0
IsRemoval (adds s) = ⊥
IsRemoval (removes i) = Unit

length-erase : (i : ℕ) (js : List ℕ) → length (erase i js) ≤ length js
unfolding erase
length-erase i [] = omega arith
length-erase i (j ∷ js) = ground (arith, length-erase i js)

module _ {S : Type 0} (stream : Stream S)
    (removing : (n : ℕ) (s : S) → All IsRemoval (stream.requests n s)) where
  answer-slots :
      (rs : List (Request S)) (c : Controller S)
      → All IsRemoval rs
      → (answer stream rs c).slots ≡ c.slots
  unfolding answer remove_stream
  answer-slots [] c h = refl
  answer-slots (adds s ∷ rs) c h = absurd h.0
  answer-slots (removes i ∷ rs) c h = answer-slots rs (remove_stream i c) h.1

  visit-slots :
      (chunk i : ℕ) (o : Option S) (r : Round S)
      → length (visit stream chunk i o r).controller.slots ≤ length r.controller.slots
  unfolding visit serve_stream transfer_stream
  visit-slots chunk i none r = length-erase i r.controller.slots
  visit-slots chunk i (some s) r = elim (Bool-cases (min (stream.available s) chunk == 0)) [
    | inl idle ↦ simp idle (omega arith)
    | inr going ↦
        let n : ℕ = min (stream.available s) chunk in
        simp going (rw (answer-slots (stream.requests n s) _ (removing n s)) (omega arith))
  ]

  pass-slots :
      (chunk : ℕ) (is : List ℕ) (r : Round S)
      → length (pass stream chunk is r).controller.slots ≤ length r.controller.slots
  unfolding pass
  pass-slots chunk [] r = omega arith
  pass-slots chunk (i ∷ is) r =
      let r' = visit stream chunk i (r.controller.cell i) r in
      omega (arith, visit-slots chunk i (r.controller.cell i) r, pass-slots chunk is r')

  pub round-slots :
      (r : Round S) → length (round stream r).controller.slots ≤ length r.controller.slots
  unfolding round
  round-slots r = pass-slots (share r) r.controller.slots (record r { pending_streams = 0 })

pub goes_on-parts :
    {S : Type 0} (r : Round S)
    → goes_on r ≡ true
    → (0 < r.total_to_transfer) × (0 < r.pending_streams)
unfolding goes_on
goes_on-parts r h = ground arith

-- A round as a pass.
module _ {S : Type 0} (stream : Stream S) (most : ℕ)
    (within : (s : S) → stream.available s ≤ most) where
  abbrev pub fresh : Round S → Round S
  fresh r = record r { pending_streams = 0 }

  pub round-Passes :
      (r : Round S)
      → r.total_to_transfer < 2 ^ 64
      → length r.controller.slots * most < 2 ^ 64
      → Passes most (share r) (length r.controller.slots) (fresh r) (round stream r)
  unfolding round
  round-Passes r h b = pass-Passes stream most within (share r) r.controller.slots (fresh r) h b

  -- A budget that has wrapped offers every stream more than it can have.
  pub share_wrapped :
      (n : ℕ) (r : Round S)
      → 2 * (n * most) < 2 ^ 64
      → 2 ^ 64 - n * most ≤ r.total_to_transfer
      → 0 < r.pending_streams
      → r.pending_streams ≤ n
      → most ≤ share r
  share_wrapped n r b wrapped p q = omega (
    arith,
    (le-div_iff_mul-le {k = r.pending_streams} {x = most} {y = r.total_to_transfer} p).1 big,
  )
    where
      big : most * r.pending_streams ≤ r.total_to_transfer
      big = grind arith

  -- What holds at the head of the loop, with `fuel` rounds left and at most `n` slots: the budget
  -- falls, or has wrapped, and then one more round is the last.
  pub record Looping (n fuel : ℕ) (r : Round S) : Type 0 where
    pub slots_le : length r.controller.slots ≤ n
    pub total_fits : r.total_to_transfer < 2 ^ 64
    pub some_pending : 0 < r.pending_streams
    pub pending_le : r.pending_streams ≤ n
    pub falls :
        (r.total_to_transfer + 1 < fuel) ⊎ ((0 < fuel) × (2 ^ 64 - n * most ≤ r.total_to_transfer))

  module _ (removing : (n : ℕ) (s : S) → All IsRemoval (stream.requests n s)) where
    -- What the loop returns: a round after which it does not go on.
    pub record Ends (r t : Round S) : Type 0 where
      pub stops : goes_on t ≡ false
      pub keeps : Keeps r.controller t.controller
      pub slots_fewer : length t.controller.slots ≤ length r.controller.slots

    falling :
        (n fuel : ℕ) (r : Round S)
        → 2 * (n * most) < 2 ^ 64
        → Looping n (suc fuel) r
        → goes_on (round stream r) ≡ true
        → length r.controller.slots * most ≤ n * most
        → Passes most (share r) (length r.controller.slots) (fresh r) (round stream r)
        → ((round stream r).total_to_transfer + 1 < fuel)
          ⊎ ((0 < fuel) × (2 ^ 64 - n * most ≤ (round stream r).total_to_transfer))
    falling n fuel r b v more few P = elim v.falls [
      | inl left ↦ elim (dec_le P.amount r.total_to_transfer) [
        | yes fits ↦ inl (
            omega
              (arith, P.total_lem, P.pending_sends (goes_on-parts _ more).1, left, v.total_fits))
        | no over ↦ inr (
          omega (arith, left, P.pending_sends (goes_on-parts _ more).1),
          omega (arith, P.total_lem, P.amount-le-most, few, v.total_fits, over),
        )
      ]
      | inr (_, wrapped) ↦ absurd (
          omega (
            arith,
            P.pending_none (share_wrapped n r b wrapped v.some_pending v.pending_le),
            (goes_on-parts _ more).1,
          ))
    ]

    next-Looping :
        (n fuel : ℕ) (r : Round S)
        → 2 * (n * most) < 2 ^ 64
        → Looping n (suc fuel) r
        → goes_on (round stream r) ≡ true
        → Looping n fuel (round stream r)
    next-Looping n fuel r b v more = record {
      slots_le = omega (arith, round-slots stream removing r, v.slots_le);
      total_fits = omega (arith, P.total_lem);
      some_pending = (goes_on-parts _ more).1;
      pending_le = omega (arith, P.pending_le, v.slots_le);
      falls = falling n fuel r b v more few P;
    }
      where
        few : length r.controller.slots * most ≤ n * most
        few = grind (arith, v.slots_le)

        P : Passes most (share r) (length r.controller.slots) (fresh r) (round stream r)
        P = round-Passes r v.total_fits (omega (arith, few))

    pub rounds-Ends :
        (fuel n : ℕ) (r : Round S)
        → 2 * (n * most) < 2 ^ 64
        → Looping n fuel r
        → (t : Round S) × (rounds stream fuel r ≡ some t) × Ends r t
    unfolding rounds
    rounds-Ends zero n r b v = absurd (omega (arith, v.falls))
    rounds-Ends (suc fuel) n r b v = elim (Bool-cases (goes_on (round stream r))) [
      | inl more ↦
          let (t, e, k) = rounds-Ends fuel n (round stream r) b (next-Looping n fuel r b v more) in
          (
            t,
            simp (more, e),
            record {
              stops = k.stops;
              keeps = Keeps-trans kept k.keeps;
              slots_fewer = omega (arith, k.slots_fewer, round-slots stream removing r);
            },
          )
      | inr done ↦ (
        round stream r,
        simp done,
        record { stops = done; keeps = kept; slots_fewer = round-slots stream removing r },
      )
    ]
      where
        few : length r.controller.slots * most ≤ n * most
        few = grind (arith, v.slots_le)

        kept : Keeps r.controller (round stream r).controller
        kept = (round-Passes r v.total_fits (omega (arith, few))).keeps
