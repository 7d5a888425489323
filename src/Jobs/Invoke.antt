-- ===== src/Jobs/Invoke.antt =====
-- `OnTickSimple::invoke`: its exception, its termination and the limits that it keeps.
use ecwid_console_downloader.Base.{
  ◌⊎◌, ◌∙◌, Option-cases, if_true, if_false, ℕ, ◌≡◌, refl, ap, Bool, true, false, inl, inr, none,
  some, List, length, arith, ltb, Bool-cases, add_size,
}
use ecwid_console_downloader.Jobs.{
  World, Job, State, StatusDownloader, Outcome, returns, throws, done, failed, redirect, init,
  on_the_go, show, next_task, erase_job, relaunch, redirect_to, dispatch, invoke_job, invoke,
  find_job, too_many,
}
use ecwid_console_downloader.Jobs.Limits.{
  IsLimited, IsWithin, Limits, Ends, HasJob, replaced-Ends, redirected-Limits, next_task-Limits,
  find_job-HasJob, find_job-All, erase_job-All, length-erase_has, counted, counted_world,
  created_again,
}

module _ (run : ℕ → List ℕ → List ℕ → Bool × StatusDownloader) where
  show-Ends :
      (id shown n : ℕ) (status : StatusDownloader) (w : World)
      → Ends run id n w
      → Ends run id n (show shown status w)
  unfolding show
  show-Ends id shown n status w k = record {
    others = k.others;
    max_fits = k.max_fits;
    room = k.room;
  }

  module _ (job : Job) (uri : List ℕ) (w : World) where
    redirect_over :
        ltb w.max_redirect (add_size job.redirect_count 1) ≡ true
        → redirect_to run job uri w
          ≡ next_task run job.id (show job.id too_many (counted_world run job uri w))
    unfolding redirect_to counted_world counted
    redirect_over over = simp over

    redirect_alive :
        ltb w.max_redirect (add_size job.redirect_count 1) ≡ false
        → w.factory ≡ true
        → redirect_to run job uri w
          ≡ relaunch run (counted run job uri w) (created_again run job uri w)
    unfolding redirect_to counted_world counted created_again
    redirect_alive few alive = simp few (if_true _ alive)

    redirect_gone :
        ltb w.max_redirect (add_size job.redirect_count 1) ≡ false
        → w.factory ≡ false
        → redirect_to run job uri w
          ≡ returns (record w { jobs = erase_job job.id (counted_world run job uri w).jobs })
    unfolding redirect_to counted_world counted
    redirect_gone few gone = simp few (if_false _ gone)

    counted-Ends :
        IsLimited w
        → HasJob job.id w.jobs
        → Ends run job.id (length w.jobs) (counted_world run job uri w)
    unfolding counted_world counted
    counted-Ends l h = replaced-Ends run (counted run job uri w) w l h

    -- With a job of the list that keeps its limit, `redirect` returns.
    redirect_to-Limits :
        IsLimited w
        → HasJob job.id w.jobs
        → IsWithin w.max_redirect job
        → (v : World) × (redirect_to run job uri w ≡ returns v) × Limits run (length w.jobs) v
    unfolding counted counted_world
    redirect_to-Limits l h p =
        elim (Bool-cases (ltb w.max_redirect (add_size job.redirect_count 1))) [
          | inl over ↦
              let (v, e, q) =
                next_task-Limits run job.id (length w.jobs) _
                  (show-Ends job.id job.id (length w.jobs) too_many _ (counted-Ends l h)) in
              (v, redirect_over over ∙ e, q)
          | inr few ↦ elim (Bool-cases w.factory) [
            | inl alive ↦
                let (v, e, q) = redirected-Limits run job uri w l h p few in
                (v, redirect_alive few alive ∙ e, q)
            | inr gone ↦ (
              record w { jobs = erase_job job.id (counted_world run job uri w).jobs },
              redirect_gone few gone,
              record {
                limited = record { counts = (counted-Ends l h).others; max_fits = l.max_fits };
                length_le = omega (arith, (counted-Ends l h).room);
              },
            )
          ]
        ]

  ending-Ends :
      (job : Job) (w : World)
      → IsLimited w
      → HasJob job.id w.jobs
      → Ends run job.id (length w.jobs) w
  ending-Ends job w l h = record {
    others = erase_job-All w.max_redirect job.id w.jobs l.counts;
    max_fits = l.max_fits;
    room = omega (arith, length-erase_has job.id w.jobs h);
  }

  dispatch-Limits :
      (state : State) (job : Job) (uri : List ℕ) (w : World)
      → IsLimited w
      → HasJob job.id w.jobs
      → IsWithin w.max_redirect job
      → (v : World) × (dispatch run state job uri w ≡ returns v) × Limits run (length w.jobs) v
  unfolding dispatch
  dispatch-Limits done job uri w l h p =
      next_task-Limits run job.id (length w.jobs) w (ending-Ends job w l h)
  dispatch-Limits failed job uri w l h p =
      next_task-Limits run job.id (length w.jobs) w (ending-Ends job w l h)
  dispatch-Limits redirect job uri w l h p = redirect_to-Limits job uri w l h p
  dispatch-Limits init job uri w l h p = (w, refl, record { limited = l; length_le = omega arith })
  dispatch-Limits on_the_go job uri w l h p =
      (w, refl, record { limited = l; length_le = omega arith })

  show-IsLimited :
      (id : ℕ) (status : StatusDownloader) (w : World) → IsLimited w → IsLimited (show id status w)
  unfolding show
  show-IsLimited id status w l = record { counts = l.counts; max_fits = l.max_fits }

  -- The exception for an unknown downloader, or a world within the limits of `w`.
  abbrev pub Invoked : ℕ → World → Outcome → Type 0
  Invoked d w o =
      ((find_job d w.jobs ≡ none) × (o ≡ throws))
      ⊎ ((job : Job) × (find_job d w.jobs ≡ some job)
          × (v : World) × (o ≡ returns v)
          × Limits run (length w.jobs) v)

  -- If every job was redirected at most `max_redirect` times and `max_redirect` is below the
  -- largest `size_t`, `invoke` throws for a downloader that no job of the list has, and for any
  -- other it returns, whatever the status is and however the runs of the downloaders end: with no
  -- more jobs than before and every job still redirected at most `max_redirect` times.
  pub invoke-Invoked :
      (d : ℕ) (status : StatusDownloader) (w : World)
      → IsLimited w
      → Invoked d w (invoke run d status w)
  unfolding invoke invoke_job show
  invoke-Invoked d status w l = elim (Option-cases (find_job d w.jobs)) [
    | inl unknown ↦ inl (unknown, ap (λ o. invoke_job run o status w) unknown)
    | inr (job, found) ↦
        let (v, e, q) =
          dispatch-Limits status.state job status.redirect_uri (show job.id status w)
            (show-IsLimited job.id status w l) (find_job-HasJob d w.jobs job found)
            (find_job-All w.max_redirect d w.jobs job found l.counts) in
        inr (job, found, v, ap (λ o. invoke_job run o status w) found ∙ e, q)
  ]
