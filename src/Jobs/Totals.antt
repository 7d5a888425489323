-- ===== src/Jobs/Totals.antt =====
-- What the dashboard counts, against what it has printed.
use ecwid_console_downloader.Base.{
  ℕ, ◌+◌, ◌%◌, ◌^◌, ◌<◌, ◌≡◌, refl, sym, ap, ◌∙◌, List, [], ◌∷◌, ◌++◌, append-nil, append_assoc,
  arith,
}
use ecwid_console_downloader.Jobs.{
  State, init, on_the_go, done, failed, redirect, StatusDownloader, Dashboard, print, update_as,
  update,
}

-- The updates of a dashboard, one after the other.
pub update_all : List (ℕ × StatusDownloader) → Dashboard → Dashboard
update_all [] d = d
update_all (u ∷ us) d = update_all us (update u.0 u.1 d)

unfoldable pub opened_dashboard : Dashboard
opened_dashboard = record { done_tasks = 0; total_downloaded = 0; printed = [] }

-- What a status counts for, by its state: a task, and the bytes of a task.
unfoldable pub task_of : State → ℕ
task_of done = 1
task_of _ = 0

unfoldable pub bytes_of : State → ℕ → ℕ
bytes_of done n = n
bytes_of _ n = 0

unfoldable pub tasks_in : List (ℕ × StatusDownloader) → ℕ
tasks_in [] = 0
tasks_in (u ∷ us) = task_of u.1.state + tasks_in us

unfoldable pub bytes_in : List (ℕ × StatusDownloader) → ℕ
bytes_in [] = 0
bytes_in (u ∷ us) = bytes_of u.1.state u.1.downloaded + bytes_in us

-- What is worth a line.
unfoldable pub line_of : State → ℕ × StatusDownloader → List (ℕ × StatusDownloader)
line_of done u = u ∷ []
line_of failed u = u ∷ []
line_of redirect u = u ∷ []
line_of _ u = []

unfoldable pub lines_in : List (ℕ × StatusDownloader) → List (ℕ × StatusDownloader)
lines_in [] = []
lines_in (u ∷ us) = line_of u.1.state u ++ lines_in us

record Counts (tasks bytes : ℕ) (lines : List (ℕ × StatusDownloader)) (d e : Dashboard)
    : Type 0 where
  tasks_lem : e.done_tasks % 2 ^ 64 ≡ (d.done_tasks + tasks) % 2 ^ 64
  bytes_lem : e.total_downloaded % 2 ^ 64 ≡ (d.total_downloaded + bytes) % 2 ^ 64
  lines_lem : e.printed ≡ d.printed ++ lines
  tasks_small : d.done_tasks < 2 ^ 64 → e.done_tasks < 2 ^ 64
  bytes_small : d.total_downloaded < 2 ^ 64 → e.total_downloaded < 2 ^ 64

update_as-Counts :
    (s : State) (id : ℕ) (u : StatusDownloader) (d : Dashboard)
    → Counts (task_of s) (bytes_of s u.downloaded) (line_of s (id, u)) d (update_as s id u d)
unfolding update_as print task_of bytes_of line_of
update_as-Counts done id u d = record {
  tasks_lem = omega arith;
  bytes_lem = omega arith;
  lines_lem = refl;
  tasks_small = λ h. omega arith;
  bytes_small = λ h. omega arith;
}
update_as-Counts failed id u d = record {
  tasks_lem = omega arith;
  bytes_lem = omega arith;
  lines_lem = refl;
  tasks_small = λ h. omega arith;
  bytes_small = λ h. omega arith;
}
update_as-Counts redirect id u d = record {
  tasks_lem = omega arith;
  bytes_lem = omega arith;
  lines_lem = refl;
  tasks_small = λ h. omega arith;
  bytes_small = λ h. omega arith;
}
update_as-Counts init id u d = record {
  tasks_lem = omega arith;
  bytes_lem = omega arith;
  lines_lem = sym (append-nil d.printed);
  tasks_small = λ h. omega arith;
  bytes_small = λ h. omega arith;
}
update_as-Counts on_the_go id u d = record {
  tasks_lem = omega arith;
  bytes_lem = omega arith;
  lines_lem = sym (append-nil d.printed);
  tasks_small = λ h. omega arith;
  bytes_small = λ h. omega arith;
}

update_all-Counts :
    (us : List (ℕ × StatusDownloader)) (d : Dashboard)
    → Counts (tasks_in us) (bytes_in us) (lines_in us) d (update_all us d)
unfolding update_all update tasks_in bytes_in lines_in
update_all-Counts [] d = record {
  tasks_lem = omega arith;
  bytes_lem = omega arith;
  lines_lem = sym (append-nil d.printed);
  tasks_small = λ h. omega arith;
  bytes_small = λ h. omega arith;
}
update_all-Counts (u ∷ us) d =
    let first = update_as-Counts u.1.state u.0 u.1 d in
    let others = update_all-Counts us (update_as u.1.state u.0 u.1 d) in
    record {
      tasks_lem = omega (arith, first.tasks_lem, others.tasks_lem);
      bytes_lem = omega (arith, first.bytes_lem, others.bytes_lem);
      lines_lem =
          others.lines_lem
          ∙ ap (λ l. l ++ lines_in us) first.lines_lem
          ∙ append_assoc d.printed (line_of u.1.state u) (lines_in us);
      tasks_small = λ h. others.tasks_small (first.tasks_small h);
      bytes_small = λ h. others.bytes_small (first.bytes_small h);
    }

-- After any updates of a new dashboard, its totals are the number of downloads that are done and the sum of
-- their bytes, modulo 2^64, and it has printed, in order, the updates to the states done, failed and
-- redirected.
pub update_all-totals :
    (us : List (ℕ × StatusDownloader))
    → let d = update_all us opened_dashboard in
      (d.done_tasks ≡ tasks_in us % 2 ^ 64)
      × (d.total_downloaded ≡ bytes_in us % 2 ^ 64)
      × (d.printed ≡ lines_in us)
unfolding opened_dashboard
update_all-totals us =
    let c = update_all-Counts us opened_dashboard in
    (
      omega (arith, c.tasks_lem, c.tasks_small (omega arith)),
      omega (arith, c.bytes_lem, c.bytes_small (omega arith)),
      c.lines_lem,
    )
