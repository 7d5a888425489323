-- ===== src/Jobs/Tally.antt =====
-- The totals of the dashboard are those of the lines that it has printed.
use ecwid_console_downloader.Base.{ℕ, ◌+◌, ◌%◌, ◌^◌, ◌≡◌, refl, ap, List, [], ◌∷◌, ◌++◌, arith}
use ecwid_console_downloader.Jobs.{
  Dashboard, State, StatusDownloader, init, on_the_go, done, failed, redirect, print, update_as,
}
use ecwid_console_downloader.Jobs.Totals.{task_of, bytes_of, tasks_in, bytes_in}

-- The totals are those of the lines printed, modulo 2^64.
pub record IsTallied (d : Dashboard) : Type 0 where
  pub tasks : d.done_tasks ≡ tasks_in d.printed % 2 ^ 64
  pub bytes : d.total_downloaded ≡ bytes_in d.printed % 2 ^ 64

tasks_in-last :
    (us : List (ℕ × StatusDownloader)) (id : ℕ) (u : StatusDownloader) (s : State)
    → u.state ≡ s
    → tasks_in (us ++ ((id, u) ∷ [])) ≡ tasks_in us + task_of s
unfolding tasks_in
tasks_in-last [] id u s e = omega (arith, ap task_of e)
tasks_in-last (v ∷ us) id u s e = omega (arith, tasks_in-last us id u s e)

bytes_in-last :
    (us : List (ℕ × StatusDownloader)) (id : ℕ) (u : StatusDownloader) (s : State)
    → u.state ≡ s
    → bytes_in (us ++ ((id, u) ∷ [])) ≡ bytes_in us + bytes_of s u.downloaded
unfolding bytes_in
bytes_in-last [] id u s e = omega (arith, ap (λ t. bytes_of t u.downloaded) e)
bytes_in-last (v ∷ us) id u s e = omega (arith, bytes_in-last us id u s e)

-- The totals after a line of which the state is this.
printed-IsTallied :
    (s : State) (id : ℕ) (u : StatusDownloader) (d : Dashboard) (tasks bytes : ℕ)
    → u.state ≡ s
    → IsTallied d
    → tasks ≡ (d.done_tasks + task_of s) % 2 ^ 64
    → bytes ≡ (d.total_downloaded + bytes_of s u.downloaded) % 2 ^ 64
    → IsTallied (record {
      done_tasks = tasks;
      total_downloaded = bytes;
      printed = d.printed ++ ((id, u) ∷ []);
    })
printed-IsTallied s id u d tasks bytes e h t b = record {
  tasks = omega (arith, h.tasks, t, tasks_in-last d.printed id u s e);
  bytes = omega (arith, h.bytes, b, bytes_in-last d.printed id u s e);
}

pub update_as-IsTallied :
    (s : State) (id : ℕ) (u : StatusDownloader) (d : Dashboard)
    → u.state ≡ s
    → IsTallied d
    → IsTallied (update_as s id u d)
unfolding update_as print task_of bytes_of
update_as-IsTallied done id u d e h = printed-IsTallied done id u d _ _ e h refl refl
update_as-IsTallied failed id u d e h =
    printed-IsTallied failed id u d _ _ e h (omega (arith, h.tasks)) (omega (arith, h.bytes))
update_as-IsTallied redirect id u d e h =
    printed-IsTallied redirect id u d _ _ e h (omega (arith, h.tasks)) (omega (arith, h.bytes))
update_as-IsTallied init id u d e h = h
update_as-IsTallied on_the_go id u d e h = h
