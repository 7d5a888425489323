-- ===== src/Jobs/Start.antt =====
-- The loop of main.cpp that starts the first jobs.
use ecwid_console_downloader.Base.{
  ℕ, zero, suc, ◌+◌, ◌≤◌, ◌≡◌, refl, sym, ap, ◌∙◌, Bool, Option, none, some, inl, inr, List, [],
  ◌∷◌, ◌++◌, append_assoc, append-nil, length, length-append, take, drop, List-cases, arith,
}
use ecwid_console_downloader.Tasks.{Task, Source, get}
use ecwid_console_downloader.Tasks.Lines.{get-remaining}
use ecwid_console_downloader.Jobs.{
  World, StatusDownloader, push_job, start_job, start_task, start_jobs,
}
use ecwid_console_downloader.Jobs.Fill.{
  taken, taken-Creates, tried-taken, left-taken, tasks_left, tasks_tried,
}

module _ (run : ℕ → List ℕ → List ℕ → Bool × StatusDownloader) where
  pub start_done :
      (n : ℕ) (w : World) (s : Source)
      → get w.path w.source ≡ some (none, s)
      → start_jobs run (suc n) w ≡ some (record w { source = s })
  unfolding start_jobs start_task
  start_done n w s e = rw e

  pub start-taken :
      (n : ℕ) (w : World) (t : Task) (s : Source)
      → get w.path w.source ≡ some (some t, s)
      → start_jobs run (suc n) w ≡ start_jobs run n (start_job w.next_id t (taken run w t s))
  unfolding start_jobs start_task taken
  start-taken n w t s e = rw e

  -- What `start_job` leaves alone.
  record Starts (v u : World) : Type 0 where
    tried_same : tasks_tried v ≡ tasks_tried u
    left_same : tasks_left v ≡ tasks_left u
    length_le : length v.jobs ≤ length u.jobs + 1

  start_job-Starts : (id : ℕ) (t : Task) (r : Option ℕ × World) → Starts (start_job id t r) r.1
  unfolding start_job push_job
  start_job-Starts id t (none, w) = record {
    tried_same = refl;
    left_same = refl;
    length_le = omega arith;
  }
  start_job-Starts id t (some d, w) = record {
    tried_same = refl;
    left_same = refl;
    length_le = omega (arith, length-append w.jobs (_ ∷ []));
  }

  -- The loop of `main` returns. It tries the first `n` tasks, whether they start or not, and no
  -- others, each once and in their order, and adds at most `n` jobs.
  pub start_jobs-tries :
      (n : ℕ) (w : World)
      → (v : World) × (start_jobs run n w ≡ some v)
        × (tasks_tried v ≡ tasks_tried w ++ take n (tasks_left w))
        × (tasks_left v ≡ drop n (tasks_left w))
        × (length v.jobs ≤ length w.jobs + n)
  unfolding start_jobs
  start_jobs-tries zero w = (w, refl, sym (append-nil (tasks_tried w)), refl, omega arith)
  start_jobs-tries (suc n) w =
      let (s, e, k) = get-remaining w.path w.source in
      elim (List-cases (tasks_left w)) [
        | inl none_left ↦ (
          record w { source = s },
          start_done n w s (rw none_left at e),
          rw none_left (sym (append-nil (tasks_tried w))),
          rw none_left (rw none_left at k),
          omega arith,
        )
        | inr (t, ts, more) ↦
            let next = start_job w.next_id t (taken run w t s) in
            let p = start_job-Starts w.next_id t (taken run w t s) in
            let (v, f, tried, left, few) = start_jobs-tries n next in
            let rest : tasks_left next ≡ ts = p.left_same ∙ left-taken run w t s ∙ rw more at k in
            (
              v,
              start-taken n w t s (rw more at e) ∙ f,
              tried
                  ∙ ap (λ l. l ++ take n (tasks_left next)) (p.tried_same ∙ tried-taken run w t s)
                  ∙ append_assoc (tasks_tried w) (t ∷ []) (take n (tasks_left next))
                  ∙ ap (λ l. tasks_tried w ++ (t ∷ take n l)) rest
                  ∙ ap (λ l. tasks_tried w ++ take (suc n) l) (sym more),
              left ∙ ap (drop n) rest ∙ ap (drop (suc n)) (sym more),
              omega (arith, few, p.length_le, ap length (taken-Creates run w t s).jobs_same),
            )
      ]
