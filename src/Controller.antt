-- ===== src/Controller.antt =====
-- include/aio/bandwidth_controller.h, over the `Stream` and `Controller` of include/aio/bandwidth.h.
-- A slot of the list `streams` is a number, its position's identity; `cell` is what its weak pointer
-- locks to, `none` once the stream is gone or the slot was swapped with a null pointer.
-- A pass of the loop goes over the slots that the list has when it begins. One that a callback adds
-- meanwhile stands at the end of the list and holds a new stream with nothing available, at which
-- the body of the loop only goes on.
pub mod Pass
pub mod Rounds
pub mod Schedule
pub mod Budget
pub mod Clock
pub mod Gain
pub mod Rich
pub mod Flood
pub mod Overrun
mod Tests
use ecwid_console_downloader.Base.{
  ℕ, zero, suc, ◌+◌, ◌-◌, ◌/◌, min, max, Bool, true, false, ◌&&◌, Option, none, some, List, [], ◌∷◌,
  ◌++◌, length, ltb, ◌==◌, if◌then◌else◌, sub_size, mul_size, ◌>>=◌,
}

-- What a stream's owner asks of the controller while the stream publishes.
pub data Request (S : Type 0) : Type 0 where
  adds : Option S → Request S
  removes : ℕ → Request S

-- `class Stream`: `requests n s` are the calls that `s->transfer(n)` makes back.
pub record Stream (S : Type 0) : Type 0 where
  pub available : S → ℕ
  pub set_buffer : ℕ → S → S
  pub transfer : ℕ → S → S
  pub requests : ℕ → S → List (Request S)

-- `sent` records the calls of `Stream::transfer`, oldest first; `timer_handlers` counts the
-- `once<TimerEvent>` handlers that wait for the timer, and `timer_active` tells whether it runs.
pub record Controller (S : Type 0) : Type 0 where
  pub limit : ℕ
  pub sheduled : Bool
  pub slots : List ℕ
  pub cell : ℕ → Option S
  pub next : ℕ
  pub timer_handlers : ℕ
  pub timer_active : Bool
  pub sent : List (ℕ × ℕ)

-- The variables of the loop of `transfer`.
pub record Round (S : Type 0) : Type 0 where
  pub controller : Controller S
  pub total_to_transfer : ℕ
  pub pending_streams : ℕ

abbrev pub update : {S : Type 0} → (ℕ → Option S) → ℕ → Option S → ℕ → Option S
update f i v j = if i == j then v else f j

pub erase : ℕ → List ℕ → List ℕ
erase i [] = []
erase i (j ∷ js) = if i == j then js else j ∷ erase i js

module _ {S : Type 0} where
  pub create : ℕ → Controller S
  create limit = record {
    limit = limit;
    sheduled = false;
    slots = [];
    cell = λ i. none;
    next = 0;
    timer_handlers = 0;
    timer_active = false;
    sent = [];
  }

  pub remove_stream : ℕ → Controller S → Controller S
  remove_stream i c = record c { cell = update c.cell i none }

  pub defer_transfer : Controller S → Controller S
  defer_transfer c = record c {
    sheduled = true;
    timer_handlers = c.timer_handlers + 1;
    timer_active = true;
  }

  -- The bytes that each stream may take in the next pass.
  abbrev pub share : Round S → ℕ
  share r = max (r.total_to_transfer / r.pending_streams) 1

  -- The condition of the `while`.
  pub goes_on : Round S → Bool
  goes_on r = ltb 0 r.total_to_transfer && ltb 0 r.pending_streams

abbrev pub budget : ℕ → ℕ → ℕ
budget limit elapsed = mul_size limit elapsed / 1000

module _ {S : Type 0} (stream : Stream S) where
  -- A null pointer is not added; the iterator returned is the slot, or the end of the list.
  pub add_stream : Option S → Controller S → Controller S
  add_stream none c = c
  add_stream (some s) c = record c {
    slots = c.slots ++ (c.next ∷ []);
    cell = update c.cell c.next (some (stream.set_buffer (mul_size c.limit 4) s));
    next = c.next + 1;
  }

  pub answer : List (Request S) → Controller S → Controller S
  answer [] c = c
  answer (adds s ∷ rs) c = answer rs (add_stream s c)
  answer (removes i ∷ rs) c = answer rs (remove_stream i c)

  -- `stream->transfer(to_transfer)` at the stream `s` of slot `i`.
  pub transfer_stream : ℕ → S → ℕ → Controller S → Controller S
  transfer_stream i s n c = answer (stream.requests n s) (record c {
    cell = update c.cell i (some (stream.transfer n s));
    sent = c.sent ++ ((i, n) ∷ []);
  })

  -- The body of the inner loop at a stream that is alive.
  pub serve_stream : ℕ → ℕ → S → Round S → Round S
  serve_stream chunk i s r =
      let available = stream.available s in
      let to_transfer = min available chunk in
      if to_transfer == 0 then r else record {
        controller = transfer_stream i s to_transfer r.controller;
        total_to_transfer = sub_size r.total_to_transfer to_transfer;
        pending_streams =
            if ltb 0 (available - to_transfer) then r.pending_streams + 1 else r.pending_streams;
      }

  -- The body of the inner loop at a slot, by what its weak pointer locks to.
  pub visit : ℕ → ℕ → Option S → Round S → Round S
  visit chunk i none r = record r {
    controller = record r.controller { slots = erase i r.controller.slots };
  }
  visit chunk i (some s) r = serve_stream chunk i s r

  pub pass : ℕ → List ℕ → Round S → Round S
  pass chunk [] r = r
  pass chunk (i ∷ is) r = pass chunk is (visit chunk i (r.controller.cell i) r)

  -- The body of the `do`-`while` loop.
  pub round : Round S → Round S
  round r = pass (share r) r.controller.slots (record r { pending_streams = 0 })

  -- The loop, on fuel: `none` means that the fuel ran out.
  pub rounds : ℕ → Round S → Option (Round S)
  rounds zero r = none
  rounds (suc fuel) r =
      let r' = round r in let rest = rounds fuel r' in if goes_on r' then rest else some r'

  -- The fuel of the loop: its budget and two rounds (`Controller.Rounds` shows that it is enough).
  pub transfer_all : ℕ → Controller S → Option (Controller S)
  transfer_all elapsed c =
      let c' = record c { sheduled = false } in
      let total = budget c.limit elapsed in
      if length c.slots == 0
      then some c'
      else if total == 0
      then some (defer_transfer c')
      else rounds (total + 2)
          (record { controller = c'; total_to_transfer = total; pending_streams = length c.slots })
        >>= λ r.
            some (if ltb 0 r.pending_streams then defer_transfer r.controller else r.controller)

  pub shedule_transfer : ℕ → Controller S → Option (Controller S)
  shedule_transfer elapsed c = if c.sheduled then some c else transfer_all elapsed c

  -- The timer was started to run once: its event comes only while it runs, and ends that. It calls the handlers that waited when it came, each with the time that
  -- `Time::elapsed` gives it.
  pub call_handlers : ℕ → List ℕ → Controller S → Option (Controller S)
  call_handlers zero times c = some c
  call_handlers (suc n) [] c = transfer_all 0 c >>= λ c'. call_handlers n [] c'
  call_handlers (suc n) (t ∷ times) c = transfer_all t c >>= λ c'. call_handlers n times c'

  pub on_timer : List ℕ → Controller S → Option (Controller S)
  on_timer times c =
      if c.timer_active
      then call_handlers c.timer_handlers times
          (record c { timer_handlers = 0; timer_active = false })
      else some c
