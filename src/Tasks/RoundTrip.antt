-- ===== src/Tasks/RoundTrip.antt =====
-- A task file written in the documented form, and read back.
use mathlib.Core.List.{append_assoc}
use ecwid_console_downloader.Base.{
  ℕ, ◌≡◌, refl, ap, true, false, some, List, [], ◌∷◌, ◌++◌, append-nil, map, ◌==◌, arith, All, zero,
  suc, ◌+◌, ◌<◌, ◌∙◌, length, Option, none, inl, inr, List-cases, ◌>>=◌, All-append,
}
use ecwid_console_downloader.Tasks.{
  Task, is_space, is_empty, skip_space, take_word, extract, read_task, Source, get,
}
use ecwid_console_downloader.Tasks.Lines.{lines, extend, tasks_of, remaining, get-remaining}

abbrev pub IsBlack : ℕ → Type 0
IsBlack c = is_space c ≡ false

-- A word of a task line: not empty, with no space in it.
pub record IsWord (w : List ℕ) : Type 0 where
  pub filled : is_empty w ≡ false
  pub black : All IsBlack w

-- `<uri><space><name><newline>` for each task.
unfoldable pub render : List Task → List ℕ
render [] = []
render (t ∷ ts) = t.uri ++ b' ' ∷ (t.fname ++ b'\n' ∷ render ts)

take_word_whole : (w : List ℕ) → All IsBlack w → take_word w ≡ (w, [])
unfolding take_word
take_word_whole [] h = refl
take_word_whole (c ∷ cs) h = rw (h.0, take_word_whole cs h.1)

blank-is_space : is_space b' ' ≡ true
unfolding is_space
blank-is_space = refl

take_word-space :
    (w rest : List ℕ) → All IsBlack w → take_word (w ++ b' ' ∷ rest) ≡ (w, b' ' ∷ rest)
unfolding take_word
take_word-space [] rest h = simp blank-is_space
take_word-space (c ∷ cs) rest h = simp (h.0, take_word-space cs rest h.1)

skip_space-word : (w rest : List ℕ) → IsWord w → skip_space (w ++ rest) ≡ w ++ rest
unfolding skip_space is_empty
skip_space-word [] rest h = cc
skip_space-word (c ∷ cs) rest h = rw h.black.0

skip_space-blank : (rest : List ℕ) → skip_space (b' ' ∷ rest) ≡ skip_space rest
unfolding skip_space is_space
skip_space-blank rest = refl

read_task-words :
    (path uri fname : List ℕ)
    → IsWord uri
    → IsWord fname
    → read_task path (uri ++ b' ' ∷ fname) ≡ some (record { uri = uri; fname = path ++ fname })
unfolding read_task extract
read_task-words path uri fname hu hf =
    let first : skip_space (uri ++ b' ' ∷ fname) ≡ uri ++ b' ' ∷ fname =
      skip_space-word uri (b' ' ∷ fname) hu in
    let second : skip_space fname ≡ fname =
      rw (append-nil fname) at (skip_space-word fname [] hf) in
    simp (
      first,
      take_word-space uri fname hu.black,
      skip_space-blank,
      second,
      take_word_whole fname hf.black,
      hu.filled,
      hf.filled,
    )

abbrev IsInline : ℕ → Type 0
IsInline c = (c == b'\n') ≡ false

black-IsInline : (w : List ℕ) → All IsBlack w → All IsInline w
unfolding is_space
black-IsInline [] h = tt
black-IsInline (c ∷ cs) h = (ground (arith, h.0), black-IsInline cs h.1)

lines-newline : (w rest : List ℕ) → All IsInline w → lines (w ++ b'\n' ∷ rest) ≡ w ∷ lines rest
unfolding lines extend
lines-newline [] rest h = refl
lines-newline (c ∷ cs) rest h = simp (h.0, lines-newline cs rest h.1)

abbrev pub written : List ℕ → Task → Task
written path t = record { uri = t.uri; fname = path ++ t.fname }

abbrev pub AreWords : Task → Type 0
AreWords t = IsWord t.uri × IsWord t.fname

lines-task :
    (t : Task) (rest : List ℕ)
    → AreWords t
    → lines (t.uri ++ b' ' ∷ (t.fname ++ b'\n' ∷ rest)) ≡ (t.uri ++ b' ' ∷ t.fname) ∷ lines rest
lines-task t rest h = rw (← append_assoc t.uri (b' ' ∷ t.fname) (b'\n' ∷ rest)) (
    lines-newline (t.uri ++ b' ' ∷ t.fname) rest (
      All-append IsInline t.uri (b' ' ∷ t.fname) (black-IsInline t.uri h.0.black)
        (refl, black-IsInline t.fname h.1.black)))

no_tasks : (path : List ℕ) → tasks_of path (lines []) ≡ []
unfolding tasks_of lines read_task extract skip_space take_word is_empty
no_tasks path = refl

tasks_of-render :
    (path : List ℕ) (ts : List Task)
    → All AreWords ts
    → tasks_of path (lines (render ts)) ≡ map (written path) ts
unfolding render tasks_of
tasks_of-render path [] h = no_tasks path
tasks_of-render path (t ∷ ts) h = rw (lines-task t (render ts) h.0) (
    rw (read_task-words path t.uri t.fname h.0.0 h.0.1)
      (ap (λ l. written path t ∷ l) (tasks_of-render path ts h.1)))

remaining-render :
    (path : List ℕ) (ts : List Task)
    → All AreWords ts
    → remaining path (record { rest = render ts; eof = false }) ≡ map (written path) ts
unfolding remaining
remaining-render path ts h = tasks_of-render path ts h

-- The tasks that `get` returns when it is called until it returns null, on a number of calls.
get_more : (Source → Option (List Task)) → Option Task × Source → Option (List Task)
get_more again (none, s) = some []
get_more again (some t, s) = again s >>= λ ts. some (t ∷ ts)

pub get_all : ℕ → List ℕ → Source → Option (List Task)
get_all zero path s = none
get_all (suc n) path s = get path s >>= λ r. get_more (get_all n path) r

get_all-remaining :
    (n : ℕ) (path : List ℕ) (s : Source)
    → length (remaining path s) < n
    → get_all n path s ≡ some (remaining path s)
unfolding get_all get_more
get_all-remaining zero path s h = absurd (omega arith)
get_all-remaining (suc n) path s h =
    let (s', e, k) = get-remaining path s in
    elim (List-cases (remaining path s)) [
      | inl over ↦ rw (rw over at e, over) refl
      | inr (t, ts, more) ↦
          let left : remaining path s' ≡ ts = rw more at k in
          rw
            (
              rw more at e,
              get_all-remaining n path s' (omega (arith, ap length left, ap length more)),
              left,
              more,
            )
            refl
    ]

length-map : (path : List ℕ) (ts : List Task) → length (map (written path) ts) ≡ length ts
length-map path [] = refl
length-map path (t ∷ ts) = omega (arith, length-map path ts)

-- Let tasks whose links and names are words be written one to a line as `<link> <name>`, and `get` be called
-- until it returns null: it has returned the tasks one after the other, each name with the path put in
-- front as it is.
pub get_all-render :
    (path : List ℕ) (ts : List Task)
    → All AreWords ts
    → get_all (length ts + 1) path (record { rest = render ts; eof = false })
      ≡ some (map (written path) ts)
get_all-render path ts h =
    let e = remaining-render path ts h in
    get_all-remaining (length ts + 1) path _ (omega (arith, ap length e, length-map path ts))
    ∙ ap some e
