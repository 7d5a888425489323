-- ===== src/Jobs/Fill.antt =====
-- `next_task`: the freed place is filled by the next task that can be started.
use mathlib.Core.List.{map-append}
use mathlib.Core.Option.{some-injective, some-ne-none}
use ecwid_console_downloader.Base.{
  ℕ, zero, suc, ◌+◌, ◌<◌, ◌≡◌, ◌⊎◌, refl, sym, ap, ◌∙◌, Bool, true, false, inl, inr, Option, none,
  some, List, [], ◌∷◌, ◌++◌, append_assoc, append-nil, length, map, if◌then◌else◌, arith,
  Option-cases, List-cases, Bool-cases, subst,
}
use ecwid_console_downloader.Tasks.{Task, Source, get}
use ecwid_console_downloader.Tasks.Lines.{remaining, get-remaining, length-remaining}
use ecwid_console_downloader.Jobs.{
  World, Job, StatusDownloader, returns, create, create_job, show, push_job, retry_or_push,
  take_task, fill, outcome, next_task, erase_job,
}

-- The tasks still to read, and those for which a downloader was created.
abbrev pub tasks_left : World → List Task
tasks_left w = remaining w.path w.source

abbrev task_of : ℕ × Task → Task
task_of e = e.1

abbrev pub tasks_tried : World → List Task
tasks_tried w = map task_of w.created

retry_none :
    (again : World → Option World) (id : ℕ) (t : Task) (r : Option ℕ × World)
    → r.0 ≡ none
    → retry_or_push again id t r ≡ again r.1
unfolding retry_or_push
retry_none again id t (none, w) h = refl
retry_none again id t (some d, w) h = cc

push_some :
    (again : World → Option World) (id : ℕ) (t : Task) (r : Option ℕ × World) (d : ℕ)
    → r.0 ≡ some d
    → retry_or_push again id t r ≡ some (push_job id t d r.1)
unfolding retry_or_push
push_some again id t (none, w) d h = cc
push_some again id t (some e, w) d h = rw (some-injective e d h)

module _ (run : ℕ → List ℕ → List ℕ → Bool × StatusDownloader) where
  -- What the creation of a downloader leaves alone, and what it records.
  pub record Creates (id : ℕ) (t : Task) (w v : World) : Type 0 where
    pub jobs_same : v.jobs ≡ w.jobs
    pub source_same : v.source ≡ w.source
    pub path_same : v.path ≡ w.path
    pub max_same : v.max_redirect ≡ w.max_redirect
    pub factory_same : v.factory ≡ w.factory
    pub created_lem : v.created ≡ w.created ++ ((id, t) ∷ [])

  pub create-Creates : (id : ℕ) (t : Task) (w : World) → Creates id t w (create run id t w).1
  unfolding create show
  create-Creates id t w = record {
    jobs_same = refl;
    source_same = refl;
    path_same = refl;
    max_same = refl;
    factory_same = refl;
    created_lem = refl;
  }

  -- The downloaders of these tasks, counted from this one, do not start.
  pub AreRefused : ℕ → List Task → Type 0
  AreRefused d [] = Unit
  AreRefused d (t ∷ ts) = ((run d t.uri t.fname).0 ≡ false) × AreRefused (d + 1) ts

  -- The job that a task becomes.
  abbrev pub job_of : ℕ → Task → ℕ → Job
  job_of id t d = record { id = id; fname = t.fname; redirect_count = 0; downloader = some d }

  -- Which task, tried from this downloader on, becomes a job: the first whose downloader starts, at the
  -- end of the list, or none of them, when no task is left.
  pub data Chosen (d : ℕ) (tried left : List Task) (js ks : List Job) : Type 0 where
    starts :
        (id : ℕ) (refused : List Task) (t : Task)
        → AreRefused d refused
        → tried ≡ refused ++ (t ∷ [])
        → (run (d + length refused) t.uri t.fname).0 ≡ true
        → ks ≡ js ++ (job_of id t (d + length refused) ∷ [])
        → Chosen d tried left js ks
    starts_none : AreRefused d tried → left ≡ [] → ks ≡ js → Chosen d tried left js ks

  -- What `fill` makes of the world: it tries the tasks `tried` and leaves the others; the list of
  -- jobs grows by one new job, with the next downloader that could be started, or there is no
  -- task left and it stays as it is.
  pub record Fills (w v : World) : Type 0 where
    pub tried : List Task
    pub left_lem : tasks_left w ≡ tried ++ tasks_left v
    pub tried_lem : tasks_tried v ≡ tasks_tried w ++ tried
    pub max_same : v.max_redirect ≡ w.max_redirect
    pub chosen : Chosen w.next_downloader tried (tasks_left v) w.jobs v.jobs
    pub jobs_lem :
        ((v.jobs ≡ w.jobs) × (tasks_left v ≡ []))
        ⊎ ((job : Job) × (v.jobs ≡ w.jobs ++ (job ∷ [])) × (job.redirect_count ≡ 0))

  unfoldable pub taken : (w : World) (t : Task) (s : Source) → Option ℕ × World
  taken w t s = create_job run t (record w { source = s })

  pub taken-Creates :
      (w : World) (t : Task) (s : Source)
      → Creates w.next_id t (record w { source = s }) (taken w t s).1
  unfolding taken create_job create show
  taken-Creates w t s = record {
    jobs_same = refl;
    source_same = refl;
    path_same = refl;
    max_same = refl;
    factory_same = refl;
    created_lem = refl;
  }

  pub tried-taken :
      (w : World) (t : Task) (s : Source) → tasks_tried (taken w t s).1 ≡ tasks_tried w ++ (t ∷ [])
  tried-taken w t s =
      rw (taken-Creates w t s).created_lem (map-append task_of w.created ((w.next_id, t) ∷ []))

  pub left-taken :
      (w : World) (t : Task) (s : Source) → tasks_left (taken w t s).1 ≡ remaining w.path s
  left-taken w t s = rw ((taken-Creates w t s).source_same, (taken-Creates w t s).path_same)

  fill_done :
      (fuel : ℕ) (w : World) (s : Source)
      → get w.path w.source ≡ some (none, s)
      → fill run (suc fuel) w ≡ some (record w { source = s })
  unfolding fill take_task
  fill_done fuel w s e = rw e

  fill-taken :
      (fuel : ℕ) (w : World) (t : Task) (s : Source)
      → get w.path w.source ≡ some (some t, s)
      → fill run (suc fuel) w ≡ retry_or_push (fill run fuel) w.next_id t (taken w t s)
  unfolding fill take_task taken
  fill-taken fuel w t s e = rw e

  -- What the creation says of the downloader.
  taken-refused :
      (w : World) (t : Task) (s : Source)
      → (taken w t s).0 ≡ none
      → (run w.next_downloader t.uri t.fname).0 ≡ false
  unfolding taken create_job create show
  taken-refused w t s e = elim (Bool-cases (run w.next_downloader t.uri t.fname).0) [
    | inl runs ↦ absurd (some-ne-none _ (simp runs at e))
    | inr fails ↦ fails
  ]

  taken-started :
      (w : World) (t : Task) (s : Source) (d : ℕ)
      → (taken w t s).0 ≡ some d
      → ((run w.next_downloader t.uri t.fname).0 ≡ true) × (d ≡ w.next_downloader)
  unfolding taken create_job create show
  taken-started w t s d e = elim (Bool-cases (run w.next_downloader t.uri t.fname).0) [
    | inl runs ↦ (runs, sym (some-injective _ _ (simp runs at e)))
    | inr fails ↦ absurd (some-ne-none _ (sym (simp fails at e)))
  ]

  taken-next :
      (w : World) (t : Task) (s : Source) → (taken w t s).1.next_downloader ≡ w.next_downloader + 1
  unfolding taken create_job create show
  taken-next w t s = refl

  number :
      (w : World) (t : Task) (s : Source) (refused : List Task)
      → (taken w t s).1.next_downloader + length refused ≡ w.next_downloader + suc (length refused)
  number w t s refused = omega (arith, taken-next w t s)

  later-Chosen :
      (w : World) (t : Task) (s : Source) (tried left : List Task) (ks : List Job)
      → (taken w t s).0 ≡ none
      → Chosen (taken w t s).1.next_downloader tried left (taken w t s).1.jobs ks
      → Chosen w.next_downloader (t ∷ tried) left w.jobs ks
  unfolding AreRefused
  later-Chosen w t s tried left ks refusal (starts id refused u r e go k) =
      starts id (t ∷ refused) u
        (taken-refused w t s refusal, subst (λ d. AreRefused d refused) (taken-next w t s) r)
        (ap (λ l. t ∷ l) e) (subst (λ d. (run d u.uri u.fname).0 ≡ true) (number w t s refused) go)
        (k
          ∙ ap (λ d. (taken w t s).1.jobs ++ (job_of id u d ∷ [])) (number w t s refused)
          ∙ ap (λ js. js ++ (job_of id u (w.next_downloader + suc (length refused)) ∷ []))
              (taken-Creates w t s).jobs_same)
  later-Chosen w t s tried left ks refusal (starts_none r e k) =
      starts_none
        (taken-refused w t s refusal, subst (λ d. AreRefused d tried) (taken-next w t s) r) e
        (k ∙ (taken-Creates w t s).jobs_same)

  refused-Fills :
      (w v : World) (t : Task) (s : Source) (ts : List Task)
      → tasks_left w ≡ t ∷ ts
      → remaining w.path s ≡ ts
      → (taken w t s).0 ≡ none
      → Fills (taken w t s).1 v
      → Fills w v
  refused-Fills w v t s ts more left refusal p = record {
    chosen = later-Chosen w t s p.tried (tasks_left v) v.jobs refusal p.chosen;
    tried = t ∷ p.tried;
    left_lem = more ∙ ap (λ l. t ∷ l) (sym left ∙ sym (left-taken w t s) ∙ p.left_lem);
    tried_lem =
        p.tried_lem
        ∙ ap (λ l. l ++ p.tried) (tried-taken w t s)
        ∙ append_assoc (tasks_tried w) (t ∷ []) p.tried;
    jobs_lem = rw (taken-Creates w t s).jobs_same at p.jobs_lem;
    max_same = p.max_same ∙ (taken-Creates w t s).max_same;
  }

  pushed-Chosen :
      (w : World) (t : Task) (s : Source) (d : ℕ)
      → (taken w t s).0 ≡ some d
      → Chosen w.next_downloader
          (t ∷ [])
          (tasks_left (taken w t s).1)
          w.jobs
          ((taken w t s).1.jobs ++ (job_of w.next_id t d ∷ []))
  unfolding AreRefused
  pushed-Chosen w t s d begun =
      let (go, same) = taken-started w t s d begun in
      let first : w.next_downloader ≡ w.next_downloader + 0 = omega arith in
      starts w.next_id [] t tt refl (subst (λ n. (run n t.uri t.fname).0 ≡ true) first go) (
        ap (λ n. (taken w t s).1.jobs ++ (job_of w.next_id t n ∷ [])) (same ∙ first)
        ∙ ap (λ js. js ++ (job_of w.next_id t (w.next_downloader + 0) ∷ []))
            (taken-Creates w t s).jobs_same)

  pushed-Fills :
      (w : World) (t : Task) (s : Source) (ts : List Task) (d : ℕ)
      → tasks_left w ≡ t ∷ ts
      → remaining w.path s ≡ ts
      → (taken w t s).0 ≡ some d
      → Fills w (push_job w.next_id t d (taken w t s).1)
  unfolding push_job
  pushed-Fills w t s ts d more left begun = record {
    chosen = pushed-Chosen w t s d begun;
    tried = t ∷ [];
    left_lem = more ∙ ap (λ l. t ∷ l) (sym left ∙ sym (left-taken w t s));
    tried_lem = tried-taken w t s;
    jobs_lem = inr (job, ap (λ js. js ++ (job ∷ [])) (taken-Creates w t s).jobs_same, refl);
    max_same = (taken-Creates w t s).max_same;
  }
    where
      job : Job
      job = record { id = w.next_id; fname = t.fname; redirect_count = 0; downloader = some d }

  pub fill-Fills :
      (fuel : ℕ) (w : World)
      → length (tasks_left w) < fuel
      → (v : World) × (fill run fuel w ≡ some v) × Fills w v
  unfolding AreRefused
  fill-Fills zero w h = absurd (omega arith)
  fill-Fills (suc fuel) w h =
      let (s, e, k) = get-remaining w.path w.source in
      elim (List-cases (tasks_left w)) [
        | inl none_left ↦ (
          record w { source = s },
          fill_done fuel w s (rw none_left at e),
          record {
            tried = [];
            left_lem = none_left ∙ sym (rw none_left at k);
            tried_lem = sym (append-nil (tasks_tried w));
            jobs_lem = inl (refl, rw none_left at k);
            chosen = starts_none tt (rw none_left at k) refl;
            max_same = refl;
          },
        )
        | inr (t, ts, more) ↦
            let left : remaining w.path s ≡ ts = rw more at k in
            let next : fill run (suc fuel) w
                ≡ retry_or_push (fill run fuel) w.next_id t (taken w t s) =
              fill-taken fuel w t s (rw more at e) in
            elim (Option-cases (taken w t s).0) [
              | inl refused ↦
                  let (v, f, p) =
                    fill-Fills fuel (taken w t s).1
                      (omega (arith, ap length (left-taken w t s ∙ left), ap length more)) in
                  (
                    v,
                    next ∙ retry_none (fill run fuel) w.next_id t (taken w t s) refused ∙ f,
                    refused-Fills w v t s ts more left refused p,
                  )
              | inr (d, started) ↦ (
                push_job w.next_id t d (taken w t s).1,
                next ∙ push_some (fill run fuel) w.next_id t (taken w t s) d started,
                pushed-Fills w t s ts d more left started,
              )
            ]
      ]

  next_task_alive :
      (id : ℕ) (w v : World)
      → w.factory ≡ true
      → fill run (length w.source.rest + 3) (record w { jobs = erase_job id w.jobs }) ≡ some v
      → next_task run id w ≡ returns v
  unfolding next_task outcome
  next_task_alive id w v alive e =
      ap
        (λ b.
          if b
          then outcome
              (fill run (length w.source.rest + 3) (record w { jobs = erase_job id w.jobs }))
          else returns (record w { jobs = erase_job id w.jobs }))
        alive
      ∙ ap outcome e

  -- Without a factory the job is only erased.
  pub next_task_gone :
      (id : ℕ) (w : World)
      → w.factory ≡ false
      → next_task run id w ≡ returns (record w { jobs = erase_job id w.jobs })
  unfolding next_task
  next_task_gone id w gone =
      ap
        (λ b.
          if b
          then outcome
              (fill run (length w.source.rest + 3) (record w { jobs = erase_job id w.jobs }))
          else returns (record w { jobs = erase_job id w.jobs }))
        gone

  -- When a job ends while the factory lives, `next_task` returns: its place is erased and a
  -- first part of the tasks left is tried, in their order, each once. Either the last task tried is
  -- the first whose downloader starts, and the one new job at the end of the list has its file name,
  -- no redirection and that downloader; or none of the tasks tried has a downloader that starts, no
  -- task is left and the list has only lost the one job.
  pub next_task-Fills :
      (id : ℕ) (w : World)
      → w.factory ≡ true
      → (v : World) × (next_task run id w ≡ returns v)
        × Fills (record w { jobs = erase_job id w.jobs }) v
  next_task-Fills id w alive =
      let (v, e, p) =
        fill-Fills (length w.source.rest + 3) (record w { jobs = erase_job id w.jobs })
          (omega (arith, length-remaining w.path w.source)) in
      (v, next_task_alive id w v alive e, p)
