-- ===== src/Program/Looping.antt =====
-- What the events of the program keep while it is in its loop.
use ecwid_console_downloader.Base.{
  ◌≢◌, All, ℕ, ◌≡◌, refl, sym, ap, ◌∙◌, subst, Bool, true, false, ◌||◌, Option, none, some, List,
  [], ◌∷◌, ◌++◌, if_both, arith,
}
use ecwid_console_downloader.Options.{ProgramOptions}
use ecwid_console_downloader.Jobs.{
  World, Job, StatusDownloader, Outcome, returns, throws, stuck, crashes, invoke, start_jobs,
  invoke_job, find_job,
}
use ecwid_console_downloader.Jobs.Interrupt.{IsRunning, interrupt, interrupt-ends}
use ecwid_console_downloader.Jobs.Totals.{opened_dashboard, tasks_in, bytes_in}
use ecwid_console_downloader.Jobs.Steady.{
  IsSteady, Returns, Gives, start_jobs-Gives, invoke-Returns, interrupt-Returns,
}
use ecwid_console_downloader.Program.{
  Program, LoopEvent, tick, sigint, idle, Loop, running, broken, opened_world, started, resume,
  idle_handler, none_left, signal_handler, take_event, loop,
}

-- The signal is stopped only when there are no jobs, and before the idle handle.
pub record IsLooping (p : Program) : Type 0 where
  pub steady : IsSteady p.world
  pub stopped : (p.signal_active || none_left p.world.jobs) ≡ true
  pub signal_first : p.idle_active ≡ false → p.signal_active ≡ false

abbrev pub Loops : Loop → Type 0
Loops (running p) = IsLooping p
Loops (broken o) = Unit

opened-IsSteady : (options : ProgramOptions) (text : List ℕ) → IsSteady (opened_world options text)
unfolding opened_world opened_dashboard tasks_in bytes_in
opened-IsSteady options text = record {
  running = tt;
  tallied = record { tasks = refl; bytes = refl };
}

started-Loops : (o : Option World) → Gives o → Loops (started o)
unfolding started
started-Loops none h = tt
started-Loops (some w) h = record { steady = h; stopped = refl; signal_first = λ e. e }

resume-Loops :
    (next : World → Program) (o : Outcome)
    → Returns o
    → ((w : World) → IsSteady w → o ≡ returns w → IsLooping (next w))
    → Loops (resume next o)
unfolding resume
resume-Loops next (returns w) h k = k w h refl
resume-Loops next throws h k = tt
resume-Loops next stuck h k = tt
resume-Loops next crashes h k = tt

idle_handler-IsLooping : (p : Program) → IsLooping p → IsLooping (idle_handler p)
unfolding idle_handler
idle_handler-IsLooping p h =
    if_both IsLooping (none_left p.world.jobs) _ _
      (λ e. record { steady = h.steady; stopped = e; signal_first = λ f. refl }) (λ e. h)

none-jobs : (js : List Job) → none_left js ≡ true → js ≡ []
none-jobs [] e = refl
none-jobs (j ∷ js) e = absurd (ground (arith, e))

abbrev jobs_of : Outcome → List Job
jobs_of (returns w) = w.jobs
jobs_of _ = []

ticked : (a : Bool) {b c : Bool} → (a || b) ≡ true → (b ≡ true → c ≡ true) → (a || c) ≡ true
ticked true h k = refl
ticked false h k = k h

module _ (run : ℕ → List ℕ → List ℕ → Bool × StatusDownloader) where
  -- When no job is left, a report is an error.
  tick_unknown :
      (d : ℕ) (status : StatusDownloader) (w v : World)
      → none_left w.jobs ≡ true
      → invoke run d status w ≢ returns v
  unfolding invoke invoke_job find_job
  tick_unknown d status w v e =
      subst (λ js. invoke_job run (find_job d js) status w ≢ returns v) (sym (none-jobs w.jobs e))
        (λ x. cc)

  interrupted-none :
      (status : ℕ → StatusDownloader) (w v : World)
      → All IsRunning w.jobs
      → interrupt run status w ≡ returns v
      → v.jobs ≡ []
  interrupted-none status w v r e =
      let (u, f, j, _, _) = interrupt-ends run status w r in ap jobs_of (sym e ∙ f) ∙ j

  take_event-Loops : (e : LoopEvent) (p : Program) → IsLooping p → Loops (take_event run e p)
  unfolding take_event signal_handler
  take_event-Loops (tick d status) p h =
      resume-Loops _ _ (invoke-Returns run d status p.world h.steady) (λ w s e. record {
        steady = s;
        stopped =
            ticked p.signal_active h.stopped (λ n. absurd (tick_unknown d status p.world w n e));
        signal_first = h.signal_first;
      })
  take_event-Loops (sigint status) p h =
      if_both Loops p.signal_active _ _
        (λ a. resume-Loops _ _ (interrupt-Returns run status p.world h.steady) (λ w s e. record {
          steady = s;
          stopped = ap none_left (interrupted-none status p.world w h.steady.running e);
          signal_first = λ f. refl;
        }))
        (λ a. h)
  take_event-Loops idle p h =
      if_both Loops p.idle_active (running (idle_handler p)) (running p)
        (λ a. idle_handler-IsLooping p h) (λ a. h)

  loop-Loops : (es : List LoopEvent) (l : Loop) → Loops l → Loops (loop run es l)
  unfolding loop
  loop-Loops [] l h = h
  loop-Loops (e ∷ es) (running p) h = loop-Loops es (take_event run e p) (take_event-Loops e p h)
  loop-Loops (e ∷ es) (broken o) h = tt

  pub loop-append :
      (es fs : List LoopEvent) (l : Loop) → loop run (es ++ fs) l ≡ loop run fs (loop run es l)
  unfolding loop
  loop-append [] fs l = refl
  loop-append (e ∷ es) fs (running p) = loop-append es fs (take_event run e p)
  loop-append (e ∷ es) [] (broken o) = refl
  loop-append (e ∷ es) (f ∷ fs) (broken o) = refl

  pub begun-Loops :
      (options : ProgramOptions) (text : List ℕ) (es : List LoopEvent)
      → Loops
          (loop run es (started (start_jobs run options.concurrency (opened_world options text))))
  begun-Loops options text es =
      loop-Loops es _ (
        started-Loops _ (start_jobs-Gives run options.concurrency _ (opened-IsSteady options text)))
