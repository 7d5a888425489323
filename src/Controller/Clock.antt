-- ===== src/Controller/Clock.antt =====
-- The clock of include/aio/bandwidth.h under the controller: how much one stream is sent in how much time.
pub mod Pace
use mathlib.Core.Option
use native.Mathlib.Nat.{mul-le-mul_left, mul_assoc, mul-add}
use mathlib.Core.Option.{some-injective}
use ecwid_console_downloader.Base.{
  ℕ, ◌+◌, ◌-◌, ◌*◌, ◌/◌, ◌^◌, ◌≤◌, ◌<◌, ◌≡◌, refl, sym, ◌∙◌, subst, true, false, inl, inr, Option,
  some, List, [], ◌∷◌, length, ◌==◌, if◌then◌else◌, arith, Bool-cases, ◌>>=◌,
}
use ecwid_console_downloader.Controller.{Controller, Stream, transfer_all, budget, update}
use ecwid_console_downloader.Controller.Pass.{total_sent}
use ecwid_console_downloader.Controller.Schedule.{Served, Plans, transfer_all-Plans}
use ecwid_console_downloader.Controller.Budget.{transfer_all-within}

-- `last` is a reading of `steady_clock`, in nanoseconds.
pub record Time : Type 0 where
  pub last : ℕ

-- The milliseconds since the last call, rounded down; `current` is what the clock reads.
pub elapsed : ℕ → Time → ℕ × Time
elapsed current t = ((current - t.last) / 1000000, record { last = current })

-- A controller with its clock.
pub record Paced (S : Type 0) : Type 0 where
  pub controller : Controller S
  pub time : Time

-- `transfer` is called, from `shedule_transfer` or by the timer, when the clock reads so; or the stream of a
-- slot has changed, as when it has read data.
pub data Move (S : Type 0) : Type 0 where
  transfers : ℕ → Move S
  changes : ℕ → (S → S) → Move S

module _ {S : Type 0} (stream : Stream S) where
  -- The clock is not read when the list of streams is empty.
  pub transfer_at : ℕ → Paced S → Option (Paced S)
  transfer_at current p =
      let (milliseconds, time) = elapsed current p.time in
      let time' = if length p.controller.slots == 0 then p.time else time in
      transfer_all stream milliseconds p.controller >>= λ c.
      some (record { controller = c; time = time' })

  pub move : Move S → Paced S → Option (Paced S)
  move (transfers current) p = transfer_at current p
  move (changes i f) p = some (record p {
    controller = record p.controller {
      cell = update p.controller.cell i (Option.map f (p.controller.cell i));
    };
  })

  pub moves : List (Move S) → Paced S → Option (Paced S)
  moves [] p = some p
  moves (m ∷ ms) p = move m p >>= λ q. moves ms q

-- The clock is steady: its readings do not go back, from `from` up to `to`.
abbrev pub InOrder : {S : Type 0} → ℕ → List (Move S) → ℕ → Type 0
InOrder from [] to = from ≤ to
InOrder from (transfers current ∷ ms) to = (from ≤ current) × InOrder current ms to
InOrder from (changes i f ∷ ms) to = InOrder from ms to

InOrder-le : {S : Type 0} (from : ℕ) (ms : List (Move S)) (to : ℕ) → InOrder from ms to → from ≤ to
InOrder-le from [] to h = h
InOrder-le from (transfers current ∷ ms) to h = omega (arith, h.0, InOrder-le current ms to h.1)
InOrder-le from (changes i f ∷ ms) to h = InOrder-le from ms to h

-- The budget of a time is within the limit, a number of bytes in a second.
budget-rate : (limit time : ℕ) → budget limit (time / 1000000) * 1000000000 ≤ limit * time
budget-rate limit time =
    let whole : limit * (time / 1000000 * 1000000) ≤ limit * time =
      mul-le-mul_left limit (omega arith) in
    let moved : limit * (time / 1000000) * 1000000 ≡ limit * (time / 1000000 * 1000000) =
      mul_assoc limit (time / 1000000) 1000000 in
    omega arith

module _ {S : Type 0} where
  -- Between two states of a controller with one stream.
  record Rated (p q : Paced S) : Type 0 where
    limit_same : q.controller.limit ≡ p.controller.limit
    slots_fewer : length q.controller.slots ≤ length p.controller.slots
    later : p.time.last ≤ q.time.last
    rate :
        total_sent q.controller.sent * 1000000000
        ≤ total_sent p.controller.sent * 1000000000
          + p.controller.limit * (q.time.last - p.time.last)

  Rated-trans : (p q r : Paced S) → Rated p q → Rated q r → Rated p r
  Rated-trans p q r h k =
      let whole =
        mul-add p.controller.limit (q.time.last - p.time.last) (r.time.last - q.time.last) in
      let pieces : (q.time.last - p.time.last) + (r.time.last - q.time.last)
          ≡ r.time.last - p.time.last =
        omega (arith, h.later, k.later) in
      record {
        limit_same = k.limit_same ∙ h.limit_same;
        slots_fewer = omega (arith, h.slots_fewer, k.slots_fewer);
        later = omega (arith, h.later, k.later);
        rate = omega (arith, h.rate, rw h.limit_same at k.rate, rw pieces at whole);
      }

module _ {S : Type 0} (stream : Stream S) (most : ℕ) (served : Served stream most)
    (small : 2 * most < 2 ^ 64) where
  none_sent :
      (ms : ℕ) (c : Controller S)
      → (length c.slots == 0) ≡ true
      → transfer_all stream ms c ≡ some (record c { sheduled = false })
  unfolding transfer_all
  none_sent ms c alone = simp alone refl

  sent-Rated :
      (current : ℕ) (p : Paced S) (d : Controller S)
      → Plans stream most served p.controller d
      → p.time.last ≤ current
      → total_sent d.sent
        ≤ total_sent p.controller.sent
          + budget p.controller.limit ((current - p.time.last) / 1000000)
      → Rated p (record { controller = d; time = record { last = current } })
  sent-Rated current p d plans after within =
      let fits = budget-rate p.controller.limit (current - p.time.last) in
      record {
        limit_same = plans.limit_same;
        slots_fewer = plans.slots_fewer;
        later = after;
        rate = omega arith;
      }

  one-transfer :
      (ms : ℕ) (c : Controller S)
      → length c.slots ≡ 1
      → (d : Controller S) × (transfer_all stream ms c ≡ some d)
        × Plans stream most served c d
        × (total_sent d.sent ≤ total_sent c.sent + budget c.limit ms)
  one-transfer ms c one =
      let (d, e, within) = transfer_all-within stream most served ms c one small in
      let (d', e', plans) = transfer_all-Plans stream most served ms c (rw one (omega arith)) in
      (d, e, subst (Plans stream most served c) (some-injective d' d (sym e' ∙ e)) plans, within)

  transfer_at-Rated :
      (current : ℕ) (p : Paced S)
      → length p.controller.slots ≤ 1
      → p.time.last ≤ current
      → (q : Paced S) × (transfer_at stream current p ≡ some q)
        × Rated p q
        × (q.time.last ≤ current)
  unfolding transfer_at elapsed
  transfer_at-Rated current p few after = elim (Bool-cases (length p.controller.slots == 0)) [
    | inl alone ↦ (
      record p { controller = record p.controller { sheduled = false } },
      simp (alone, none_sent ((current - p.time.last) / 1000000) p.controller alone),
      record {
        limit_same = refl;
        slots_fewer = omega arith;
        later = omega arith;
        rate = omega arith;
      },
      after,
    )
    | inr crowd ↦
        let (d, e, plans, within) =
          one-transfer ((current - p.time.last) / 1000000) p.controller
            (ground (arith, few, crowd)) in
        (
          record { controller = d; time = record { last = current } },
          simp (crowd, e),
          sent-Rated current p d plans after within,
          omega arith,
        )
  ]

  moves-Rated :
      (ms : List (Move S)) (from to : ℕ) (p : Paced S)
      → length p.controller.slots ≤ 1
      → p.time.last ≤ from
      → InOrder from ms to
      → (q : Paced S) × (moves stream ms p ≡ some q) × Rated p q × (q.time.last ≤ to)
  unfolding moves move
  moves-Rated [] from to p few after order = (
    p,
    refl,
    record {
      limit_same = refl;
      slots_fewer = omega arith;
      later = omega arith;
      rate = omega arith;
    },
    omega arith,
  )
  moves-Rated (transfers current ∷ ms) from to p few after order =
      let (q, e, first, by_now) = transfer_at-Rated current p few (omega (arith, order.0)) in
      let (r, f, others, by_end) =
        moves-Rated ms current to q (omega (arith, first.slots_fewer)) by_now order.1 in
      (r, simp (e, f), Rated-trans p q r first others, by_end)
  moves-Rated (changes i f ∷ ms) from to p few after order =
      let q : Paced S = record p {
        controller = record p.controller {
          cell = update p.controller.cell i (Option.map f (p.controller.cell i));
        };
      } in
      let (r, f, others, by_end) = moves-Rated ms from to q few after order in
      (
        r,
        f,
        record {
          limit_same = others.limit_same;
          slots_fewer = others.slots_fewer;
          later = others.later;
          rate = others.rate;
        },
        by_end,
      )

  -- Take a list of at most one slot, streams that have at most `most` bytes, 2 * `most` below 2^64, and call
  -- back no more than removals, and a clock that does not go back. However often `transfer` is called
  -- between the last reading and the time `to`, and whatever the streams read meanwhile, every call
  -- returns, and what is sent in all is at most the limit, in bytes a second, times this time, in
  -- nanoseconds.
  pub moves-within :
      (ms : List (Move S)) (to : ℕ) (p : Paced S)
      → length p.controller.slots ≤ 1
      → InOrder p.time.last ms to
      → (q : Paced S) × (moves stream ms p ≡ some q)
        × (total_sent q.controller.sent * 1000000000
            ≤ total_sent p.controller.sent * 1000000000 + p.controller.limit * (to - p.time.last))
  moves-within ms to p few order =
      let (q, e, h, by_end) = moves-Rated ms p.time.last to p few (omega arith) order in
      let whole : p.controller.limit * (q.time.last - p.time.last)
          ≤ p.controller.limit * (to - p.time.last) =
        mul-le-mul_left p.controller.limit (omega arith) in
      (q, e, omega (arith, h.rate))
