-- ===== src/Jobs/Concurrency.antt =====
-- The jobs from the start of the program, through any reports of the downloaders.
use mathlib.Core.Option.{some-injective}
use ecwid_console_downloader.Base.{
  ℕ, zero, suc, ◌+◌, ◌^◌, ◌<◌, ◌≡◌, ◌⊎◌, refl, sym, ap, ◌∙◌, subst, Bool, Option, none, some, inl,
  inr, List, [], ◌∷◌, length, List-cases, All-append, arith,
}
use ecwid_console_downloader.Tasks.{Task, Source}
use ecwid_console_downloader.Tasks.Lines.{get-remaining}
use ecwid_console_downloader.Jobs.{
  World, StatusDownloader, Outcome, returns, throws, push_job, start_job, start_jobs, invoke,
}
use ecwid_console_downloader.Jobs.Fill.{taken, taken-Creates, tasks_left}
use ecwid_console_downloader.Jobs.Limits.{IsLimited, IsWithin, Limits}
use ecwid_console_downloader.Jobs.Start.{start_done, start-taken, start_jobs-tries}
use ecwid_console_downloader.Jobs.Interrupt.{continue_with}
use ecwid_console_downloader.Jobs.Invoke.{invoke-Invoked}

module _ (run : ℕ → List ℕ → List ℕ → Bool × StatusDownloader) where
  -- The reports of downloaders, one after the other.
  unfoldable pub invoke_all : List (ℕ × StatusDownloader) → World → Outcome
  invoke_all [] w = returns w
  invoke_all (r ∷ rs) w = continue_with (invoke_all rs) (invoke run r.0 r.1 w)

  start_job-IsLimited :
      (id : ℕ) (t : Task) (r : Option ℕ × World) → IsLimited r.1 → IsLimited (start_job id t r)
  unfolding start_job push_job
  start_job-IsLimited id t (none, w) l = l
  start_job-IsLimited id t (some d, w) l = record {
    counts = All-append (IsWithin w.max_redirect) w.jobs (_ ∷ []) l.counts (omega arith, tt);
    max_fits = l.max_fits;
  }

  taken-IsLimited :
      (w : World) (t : Task) (s : Source) → IsLimited w → IsLimited (taken run w t s).1
  taken-IsLimited w t s l = record {
    counts = rw ((taken-Creates run w t s).jobs_same, (taken-Creates run w t s).max_same) l.counts;
    max_fits = rw (taken-Creates run w t s).max_same l.max_fits;
  }

  start_jobs-IsLimited :
      (n : ℕ) (w v : World) → start_jobs run n w ≡ some v → IsLimited w → IsLimited v
  unfolding start_jobs
  start_jobs-IsLimited zero w v e l = subst IsLimited (some-injective w v e) l
  start_jobs-IsLimited (suc n) w v e l =
      let (s, f, _) = get-remaining w.path w.source in
      elim (List-cases (tasks_left w)) [
        | inl none_left ↦
            subst IsLimited
              (some-injective _ v (sym (start_done run n w s (rw none_left at f)) ∙ e))
              (record { counts = l.counts; max_fits = l.max_fits })
        | inr (t, ts, more) ↦
            start_jobs-IsLimited n (start_job w.next_id t (taken run w t s)) v
              (sym (start-taken run n w t s (rw more at f)) ∙ e)
              (start_job-IsLimited w.next_id t (taken run w t s) (taken-IsLimited w t s l))
      ]

  -- An exception, or a world with at most `n` jobs that are all within their limit.
  abbrev pub Bounded : ℕ → Outcome → Type 0
  Bounded n o = (o ≡ throws) ⊎ ((u : World) × (o ≡ returns u) × Limits run n u)

  invoke_all-Bounded :
      (rs : List (ℕ × StatusDownloader)) (n : ℕ) (w : World)
      → Limits run n w
      → Bounded n (invoke_all rs w)
  unfolding invoke_all continue_with
  invoke_all-Bounded [] n w l = inr (w, refl, l)
  invoke_all-Bounded (r ∷ rs) n w l = elim (invoke-Invoked run r.0 r.1 w l.limited) [
    | inl (_, e) ↦ inl (ap (continue_with (invoke_all rs)) e)
    | inr (job, _, u, e, k) ↦
        let rest =
          invoke_all-Bounded rs n u
            (record { limited = k.limited; length_le = omega (arith, k.length_le, l.length_le) }) in
        subst (Bounded n) (sym (ap (continue_with (invoke_all rs)) e)) rest
  ]

  -- From a start with an empty list of jobs, `concurrency` of `n` and `max_redirect` below the
  -- largest `size_t`, the loop of `main` returns, and any sequence of reports after it ends in
  -- an exception or in a world with at most `n` jobs, none of them redirected more than
  -- `max_redirect` times.
  pub start_jobs-Bounded :
      (n : ℕ) (reports : List (ℕ × StatusDownloader)) (w : World)
      → w.jobs ≡ []
      → w.max_redirect + 1 < 2 ^ 64
      → (v : World) × (start_jobs run n w ≡ some v) × Bounded n (invoke_all reports v)
  start_jobs-Bounded n reports w none_yet fits =
      let (v, e, _, _, few) = start_jobs-tries run n w in
      let start : IsLimited w = record { counts = rw none_yet tt; max_fits = fits } in
      (
        v,
        e,
        invoke_all-Bounded reports n v (record {
          limited = start_jobs-IsLimited n w v e start;
          length_le = omega (arith, few, ap length none_yet);
        }),
      )
