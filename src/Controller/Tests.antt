-- ===== src/Controller/Tests.antt =====
-- The controller on concrete streams: a stream is the number of bytes that it has, at most 1000.
use ecwid_console_downloader.Base.{
  ℕ, ◌+◌, ◌-◌, ◌*◌, ◌≤◌, ◌≡◌, refl, min, true, false, some, List, [], ◌∷◌, arith, All,
}
use ecwid_console_downloader.Controller.{
  Controller, Round, Stream, removes, budget, round, transfer_all, shedule_transfer, on_timer,
}
use ecwid_console_downloader.Controller.Pass.{total_sent}
use ecwid_console_downloader.Controller.Schedule.{IsPlanned, Served, schedule-IsPlanned}
use ecwid_console_downloader.Controller.Budget.{round-within, transfer_all-within}
use ecwid_console_downloader.Controller.Rich.{IsQuiet, IsRich}
use ecwid_console_downloader.Controller.Clock.{Paced, Move, transfers, changes, moves, moves-within}
use ecwid_console_downloader.Controller.Overrun.{transfer_all-overruns}

abbrev most : ℕ
most = 1000

-- The first slot's stream is removed at each transfer.
abbrev closing : Stream ℕ
closing = record {
  available = λ s. min s most;
  set_buffer = λ n s. s;
  transfer = λ n s. min s most - n;
  requests = λ n s. removes 0 ∷ [];
}

closing-Served : Served closing most
closing-Served = record { within = λ s. omega arith; removing = λ n s. (tt, tt) }

abbrev quiet : Stream ℕ
quiet = record closing { requests = λ n s. [] }

quiet-Served : Served quiet most
quiet-Served = record { within = λ s. omega arith; removing = λ n s. tt }

quiet-IsQuiet : IsQuiet quiet
quiet-IsQuiet = record { silent = λ n s. refl; takes = λ n s. omega arith }

-- Two slots with 300 bytes each, and 5 bytes a second.
abbrev two : Controller ℕ
two = record {
  limit = 5;
  sheduled = false;
  slots = 0 ∷ 1 ∷ [];
  cell = λ i. some 300;
  next = 2;
  timer_handlers = 0;
  timer_active = false;
  sent = [];
}

abbrev one : Controller ℕ
one = record two { slots = 0 ∷ [] }

-- The two slots while the timer runs.
abbrev deferred : Controller ℕ
deferred = record two { sheduled = true; timer_handlers = 1; timer_active = true }

schedule-IsPlanned_example :
    ((d : Controller ℕ) × (shedule_transfer closing 1000 deferred ≡ some d) × IsPlanned d)
    × ((d : Controller ℕ) × (on_timer closing (1000 ∷ []) deferred ≡ some d) × IsPlanned d)
schedule-IsPlanned_example =
    schedule-IsPlanned closing most 1000 deferred closing-Served (omega arith) (refl, refl)

abbrev start : Round ℕ
start = record { controller = two; total_to_transfer = 5; pending_streams = 2 }

round-within_example :
    total_sent (round closing start).controller.sent + (round closing start).total_to_transfer
    ≡ total_sent start.controller.sent + 5
round-within_example =
    round-within closing most closing-Served start refl (omega arith) (omega arith) (omega arith)

transfer_all-within_example :
    (d : Controller ℕ) × (transfer_all closing 1000 one ≡ some d)
    × (total_sent d.sent ≤ total_sent one.sent + budget 5 1000)
transfer_all-within_example =
    transfer_all-within closing most closing-Served 1000 one refl (omega arith)

two-IsRich : All (IsRich quiet 300 two.cell) two.slots
two-IsRich = (
  record { occupant = 300; alive = refl; has = omega arith },
  (record { occupant = 300; alive = refl; has = omega arith }, tt),
)

transfer_all-overruns_example :
    (d : Controller ℕ) × (transfer_all quiet 1000 two ≡ some d)
    × (total_sent two.sent + 2 * 300 ≤ total_sent d.sent)
transfer_all-overruns_example =
    transfer_all-overruns quiet most (λ s. omega arith) quiet-IsQuiet 1000 300 two
      ((omega arith, tt), (tt, tt)) two-IsRich (omega arith) (omega arith) (omega arith)
      (omega arith)

abbrev paced : Paced ℕ
paced = record { controller = one; time = record { last = 1000 } }

-- After 1.3 seconds the limit of 5 bytes a second allows 6.
abbrev readings : List (Move ℕ)
readings = transfers 400001000 ∷ changes 0 (λ s. 500) ∷ transfers 1300001000 ∷ []

moves-within_example :
    (q : Paced ℕ) × (moves quiet readings paced ≡ some q)
    × (total_sent q.controller.sent * 1000000000
        ≤ total_sent one.sent * 1000000000 + 5 * 1300000000)
moves-within_example =
    moves-within quiet most quiet-Served (omega arith) readings 1300001000 paced (omega arith)
      (omega arith, (omega arith, omega arith))
