-- ===== src/Tasks/Lines.antt =====
-- `get` against the list of tasks that the text holds.
use mathlib.Core.List.{head?, tail}
use ecwid_console_downloader.Base.{
  max, ℕ, zero, suc, ◌+◌, ◌≤◌, ◌<◌, ◌≡◌, refl, true, false, inl, inr, Option, none, some, List, [],
  ◌∷◌, length, ◌==◌, if◌then◌else◌, arith, Bool-cases, Option-cases,
}
use ecwid_console_downloader.Tasks.{
  Task, Source, getline, is_empty, extract, skip_space, take_word, read_task, get_from, get,
}

-- A character in front of the first line.
unfoldable pub extend : ℕ → List (List ℕ) → List (List ℕ)
extend c [] = (c ∷ []) ∷ []
extend c (l ∷ ls) = (c ∷ l) ∷ ls

-- The lines of a text: the parts between its newlines, the last one included, be it empty.
unfoldable pub lines : List ℕ → List (List ℕ)
lines [] = [] ∷ []
lines (c ∷ cs) = if c == b'\n' then [] ∷ lines cs else extend c (lines cs)

abbrev pub prepend : Option Task → List Task → List Task
prepend none ts = ts
prepend (some t) ts = t ∷ ts

-- The tasks that the lines give, each line on its own.
unfoldable pub tasks_of : List ℕ → List (List ℕ) → List Task
tasks_of path [] = []
tasks_of path (l ∷ ls) = prepend (read_task path l) (tasks_of path ls)

-- The tasks that the stream has still to give.
unfoldable pub remaining : List ℕ → Source → List Task
remaining path s = if s.eof then [] else tasks_of path (lines s.rest)

-- The first line, and the lines that follow it if a newline ends it.
lines-getline :
    (cs : List ℕ)
    → lines cs ≡ (getline cs).text ∷ (if (getline cs).ended then [] else lines (getline cs).rest)
unfolding lines getline extend
lines-getline [] = refl
lines-getline (c ∷ cs) = ground (arith, lines-getline cs)

length-getline :
    (cs : List ℕ) → (if (getline cs).ended then 0 else 1) + length (getline cs).rest ≤ length cs
unfolding getline
length-getline [] = omega arith
length-getline (c ∷ cs) = ground (arith, length-getline cs)

read_task_empty : (path l : List ℕ) → is_empty l ≡ true → read_task path l ≡ none
unfolding is_empty read_task extract skip_space take_word
read_task_empty path [] h = refl
read_task_empty path (c ∷ cs) h = cc

-- Rounds that are enough for what the stream has still to give.
abbrev measure : Source → ℕ
measure s = if s.eof then 0 else length s.rest + 1

-- The stream after its first line.
abbrev after_line : Source → Source
after_line s = record { rest = (getline s.rest).rest; eof = (getline s.rest).ended }

remaining_line :
    (path : List ℕ) (s : Source)
    → s.eof ≡ false
    → remaining path s
      ≡ prepend (read_task path (getline s.rest).text) (remaining path (after_line s))
unfolding remaining tasks_of
remaining_line path s e =
    rw (e, lines-getline s.rest)
      (elim (Bool-cases (getline s.rest).ended) [ inl over ↦ simp over | inr more ↦ simp more ])

skipped :
    (fuel : ℕ) (path : List ℕ) (s : Source)
    → s.eof ≡ false
    → read_task path (getline s.rest).text ≡ none
    → get_from (suc fuel) path s ≡ get_from fuel path (after_line s)
unfolding get_from
skipped fuel path s e n = ground (arith, e, n)

returned :
    (fuel : ℕ) (path : List ℕ) (s : Source) (t : Task)
    → s.eof ≡ false
    → read_task path (getline s.rest).text ≡ some t
    → get_from (suc fuel) path s ≡ some (some t, after_line s)
unfolding get_from
returned fuel path s t e n = ground (arith, e, n, read_task_empty path (getline s.rest).text)

no_tasks : (path : List ℕ) (s : Source) → s.eof ≡ true → remaining path s ≡ tail (remaining path s)
unfolding remaining
no_tasks path s e = rw e

ended :
    (fuel : ℕ) (path : List ℕ) (s : Source)
    → s.eof ≡ true
    → get_from (suc fuel) path s ≡ some (head? (remaining path s), s)
unfolding get_from remaining
ended fuel path s e = simp e

-- From any fuel above the measure.
get_from-remaining :
    (fuel : ℕ) (path : List ℕ) (s : Source)
    → measure s < fuel
    → (s' : Source) × (get_from fuel path s ≡ some (head? (remaining path s), s'))
      × (remaining path s' ≡ tail (remaining path s))
get_from-remaining zero path s h = absurd (omega arith)
get_from-remaining (suc fuel) path s h = elim (Bool-cases s.eof) [
  | inl over ↦ (s, ended fuel path s over, no_tasks path s over)
  | inr going ↦ elim (Option-cases (read_task path (getline s.rest).text)) [
    | inl n ↦
        let (s', e, k) =
          get_from-remaining fuel path (after_line s)
            (ground (arith, length-getline s.rest, going)) in
        (
          s',
          rw (skipped fuel path s going n, remaining_line path s going, n) e,
          rw (remaining_line path s going, n) k,
        )
    | inr (t, n) ↦ (
      after_line s,
      rw (remaining_line path s going, n) (returned fuel path s t going n),
      rw (remaining_line path s going, n),
    )
  ]
]

-- On any stream whose reads fail at its end only, `get` returns: the first of the tasks that the
-- stream's lines still give, or null when there is none, and leaves the stream with the others.
pub get-remaining :
    (path : List ℕ) (s : Source)
    → (s' : Source) × (get path s ≡ some (head? (remaining path s), s'))
      × (remaining path s' ≡ tail (remaining path s))
unfolding get
get-remaining path s = get_from-remaining (length s.rest + 2) path s (ground arith)

length-extend : (c : ℕ) (ls : List (List ℕ)) → length (extend c ls) ≤ max 1 (length ls)
unfolding extend
length-extend c [] = omega arith
length-extend c (l ∷ ls) = omega arith

length-lines : (cs : List ℕ) → length (lines cs) ≤ length cs + 1
unfolding lines
length-lines [] = omega arith
length-lines (c ∷ cs) = ground (arith, length-lines cs, length-extend c (lines cs))

length-tasks_of : (path : List ℕ) (ls : List (List ℕ)) → length (tasks_of path ls) ≤ length ls
unfolding tasks_of
length-tasks_of path [] = omega arith
length-tasks_of path (l ∷ ls) = ground (arith, length-tasks_of path ls)

-- A text of `n` characters has at most `n + 1` tasks.
pub length-remaining : (path : List ℕ) (s : Source) → length (remaining path s) ≤ length s.rest + 1
unfolding remaining
length-remaining path s = ground (arith, length-tasks_of path (lines s.rest), length-lines s.rest)
