-- ===== src/Controller/Schedule.antt =====
-- `shedule_transfer`, `transfer`, `defer_transfer` and the timer: every call returns, and the flag
-- `sheduled` says whether the timer's handler waits.
use ecwid_console_downloader.Base.{
  ℕ, zero, suc, ◌+◌, ◌*◌, ◌^◌, ◌≤◌, ◌<◌, ◌≡◌, refl, ◌∙◌, true, false, ◌||◌, inl, inr, some, List,
  [], ◌∷◌, length, ltb, ◌==◌, if◌then◌else◌, arith, Bool-cases, All,
}
use ecwid_console_downloader.Controller.{
  Controller, Round, Stream, transfer_all, shedule_transfer, defer_transfer, on_timer,
  call_handlers, budget,
}
use ecwid_console_downloader.Controller.Pass.{Keeps}
use ecwid_console_downloader.Controller.Rounds.{IsRemoval, Looping, rounds-Ends}

-- If the flag is set, one handler waits for the timer, which runs; otherwise neither.
abbrev pub IsPlanned : {S : Type 0} → Controller S → Type 0
IsPlanned c = (c.timer_handlers ≡ (if c.sheduled then 1 else 0)) × (c.timer_active ≡ c.sheduled)

-- Streams that the loop can serve: none ever has more than `most` bytes, and what they call back
-- removes streams but adds none.
module _ {S : Type 0} (stream : Stream S) (most : ℕ) where
  pub record Served : Type 0 where
    pub within : (s : S) → stream.available s ≤ most
    pub removing : (n : ℕ) (s : S) → All IsRemoval (stream.requests n s)

module _ {S : Type 0} (stream : Stream S) (most : ℕ) (served : Served stream most) where
  -- A transfer adds one handler and starts the timer exactly if it leaves the flag set.
  pub record Plans (c d : Controller S) : Type 0 where
    pub limit_same : d.limit ≡ c.limit
    pub handlers_lem : d.timer_handlers ≡ c.timer_handlers + (if d.sheduled then 1 else 0)
    pub timer_lem : d.timer_active ≡ (c.timer_active || d.sheduled)
    pub slots_fewer : length d.slots ≤ length c.slots

  deferred-Plans : (c : Controller S) → Plans c (defer_transfer (record c { sheduled = false }))
  unfolding defer_transfer
  deferred-Plans c = record {
    limit_same = refl;
    handlers_lem = omega arith;
    timer_lem = ground arith;
    slots_fewer = omega arith;
  }

  -- The end of `transfer`, after the loop.
  planned-Plans :
      (c : Controller S) (r : Round S)
      → Keeps (record c { sheduled = false }) r.controller
      → length r.controller.slots ≤ length c.slots
      → Plans c (if ltb 0 r.pending_streams then defer_transfer r.controller else r.controller)
  unfolding defer_transfer
  planned-Plans c r k fewer = ground (arith, k)

  pub transfer_all-Plans :
      (elapsed : ℕ) (c : Controller S)
      → 2 * (length c.slots * most) < 2 ^ 64
      → (d : Controller S) × (transfer_all stream elapsed c ≡ some d) × Plans c d
  unfolding transfer_all
  transfer_all-Plans elapsed c b = elim (Bool-cases (length c.slots == 0)) [
    | inl alone ↦ (
      record c { sheduled = false },
      simp alone,
      record {
        limit_same = refl;
        handlers_lem = omega arith;
        timer_lem = ground arith;
        slots_fewer = omega arith;
      },
    )
    | inr crowd ↦ elim (Bool-cases (budget c.limit elapsed == 0)) [
      | inl broke ↦
          (defer_transfer (record c { sheduled = false }), simp (crowd, broke), deferred-Plans c)
      | inr rich ↦
          let start : Round S = record {
            controller = record c { sheduled = false };
            total_to_transfer = budget c.limit elapsed;
            pending_streams = length c.slots;
          } in
          let looping : Looping stream most served.within (length c.slots)
              (budget c.limit elapsed + 2) start =
            record {
              slots_le = omega arith;
              total_fits = omega arith;
              some_pending = ground (arith, crowd);
              pending_le = omega arith;
              falls = inl (omega arith);
            } in
          let (r, e, k) =
            rounds-Ends stream most served.within served.removing (budget c.limit elapsed + 2)
              (length c.slots) start b looping in
          (_, simp (crowd, rich, e), planned-Plans c r k.keeps k.slots_fewer)
    ]
  ]

module _ {S : Type 0} (stream : Stream S) where
  no_handler :
      (n : ℕ) (times : List ℕ) (c : Controller S) → n ≡ 0 → call_handlers stream n times c ≡ some c
  unfolding call_handlers
  no_handler zero times c h = refl
  no_handler (suc n) times c h = absurd (omega arith)

  one_handler :
      (n t : ℕ) (c d : Controller S)
      → n ≡ 1
      → transfer_all stream t c ≡ some d
      → call_handlers stream n (t ∷ []) c ≡ some d
  unfolding call_handlers
  one_handler zero t c d h e = absurd (omega arith)
  one_handler (suc n) t c d h e = simp e (no_handler n [] d (omega arith))

module _ {S : Type 0} (stream : Stream S) (most elapsed : ℕ) (c : Controller S)
    (served : Served stream most) (few : 2 * (length c.slots * most) < 2 ^ 64)
    (planned : IsPlanned c) where
  shedule-IsPlanned :
      (d : Controller S) × (shedule_transfer stream elapsed c ≡ some d) × IsPlanned d
  unfolding shedule_transfer
  shedule-IsPlanned = elim (Bool-cases c.sheduled) [
    | inl waits ↦ (c, simp waits, planned)
    | inr free ↦
        let (d, e, k) = transfer_all-Plans stream most served elapsed c few in
        (
          d,
          simp free e,
          (ground (arith, k.handlers_lem, planned.0), ground (arith, k.timer_lem, planned.1)),
        )
  ]

  timer-IsPlanned : (d : Controller S) × (on_timer stream (elapsed ∷ []) c ≡ some d) × IsPlanned d
  unfolding on_timer
  timer-IsPlanned = elim (Bool-cases c.sheduled) [
    | inl waits ↦
        let runs : c.timer_active ≡ true = planned.1 ∙ waits in
        let (d, e, k) =
          transfer_all-Plans stream most served elapsed
            (record c { timer_handlers = 0; timer_active = false }) few in
        (
          d,
          simp runs (one_handler stream c.timer_handlers elapsed _ d (ground (arith, planned.0)) e),
          (omega (arith, k.handlers_lem), k.timer_lem),
        )
    | inr free ↦ (c, simp (planned.1 ∙ free), planned)
  ]

-- With streams that have at most `most` bytes each and whose callbacks add no stream, in a number
-- that keeps twice their bytes below 2^64, where the flag `sheduled` tells that one handler waits for
-- the timer and the timer runs, or none waits and it does not: `shedule_transfer` returns and keeps
-- this so; so does the timer's event, which comes only while the timer runs and calls the handler
-- that waits.
pub schedule-IsPlanned :
    {S : Type 0} (stream : Stream S) (most elapsed : ℕ) (c : Controller S)
    → Served stream most
    → 2 * (length c.slots * most) < 2 ^ 64
    → IsPlanned c
    → ((d : Controller S) × (shedule_transfer stream elapsed c ≡ some d) × IsPlanned d)
      × ((d : Controller S) × (on_timer stream (elapsed ∷ []) c ≡ some d) × IsPlanned d)
schedule-IsPlanned stream most elapsed c served b p = (
  shedule-IsPlanned stream most elapsed c served b p,
  timer-IsPlanned stream most elapsed c served b p,
)
