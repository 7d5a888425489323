-- ===== src/Program/Ends.antt =====
-- How `main` ends: its summary, and what an interrupt leads to.
use ecwid_console_downloader.Base.{
  ℕ, ◌%◌, ◌^◌, ◌≡◌, subst, Bool, ◌||◌, Option, none, some, List, if_both,
}
use ecwid_console_downloader.Options.{ProgramOptions}
use ecwid_console_downloader.Jobs.{StatusDownloader}
use ecwid_console_downloader.Jobs.Totals.{tasks_in, bytes_in}
use ecwid_console_downloader.Program.{
  Program, LoopEvent, Loop, running, broken, Exit, finished, finish, main,
}
use ecwid_console_downloader.Program.Looping.{Loops, begun-Loops}

-- An exit with a summary whose two numbers are those of the lines printed before it, modulo 2^64: how many
-- downloads they tell to be done, and the bytes of these.
unfoldable pub IsSummary : Exit → Type 0
IsSummary (finished lines tasks bytes) =
    (tasks ≡ tasks_in lines % 2 ^ 64) × (bytes ≡ bytes_in lines % 2 ^ 64)
IsSummary _ = ⊥

-- Of an exit with a summary.
Agrees : Exit → Type 0
unfolding IsSummary
Agrees (finished lines tasks bytes) = IsSummary (finished lines tasks bytes)
Agrees _ = Unit

finish-Agrees : (l : Loop) → Loops l → Agrees (finish l)
unfolding finish Agrees IsSummary
finish-Agrees (broken o) h = tt
finish-Agrees (running p) h =
    if_both Agrees (p.signal_active || p.idle_active) _ _ (λ a. tt)
      (λ a. (h.steady.tallied.tasks, h.steady.tallied.bytes))

main-Agrees :
    (run : ℕ → List ℕ → List ℕ → Bool × StatusDownloader) (options : ProgramOptions)
    (file : Option (List ℕ)) (es : List LoopEvent)
    → Agrees (main run options file es)
unfolding main Agrees
main-Agrees run options none es = tt
main-Agrees run options (some text) es = finish-Agrees _ (begun-Loops run options text es)

-- Whatever the file holds and the events are, if `main` ends with a summary, then its two numbers are, modulo
-- 2^64, how many downloads the lines printed before it tell to be done, and the bytes of these.
pub main-tallies :
    (run : ℕ → List ℕ → List ℕ → Bool × StatusDownloader) (options : ProgramOptions)
    (file : Option (List ℕ)) (es : List LoopEvent) (lines : List (ℕ × StatusDownloader))
    (tasks bytes : ℕ)
    → main run options file es ≡ finished lines tasks bytes
    → (tasks ≡ tasks_in lines % 2 ^ 64) × (bytes ≡ bytes_in lines % 2 ^ 64)
unfolding Agrees IsSummary
main-tallies run options file es lines tasks bytes e =
    subst Agrees e (main-Agrees run options file es)
