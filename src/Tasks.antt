-- ===== src/Tasks.antt =====
-- src/task_simple.cpp: the list of tasks, read line by line from a stream. A text is the list of its
-- characters' codes. `std::getline` and `operator>>` are written out as far as the code uses them.

pub mod Lines
pub mod RoundTrip
mod Tests
use ecwid_console_downloader.Base.{
  ℕ, zero, suc, ◌+◌, Bool, true, false, not, ◌&&◌, ◌||◌, Option, none, some, List, [], ◌∷◌, ◌++◌,
  length, leb, ◌==◌, if◌then◌else◌,
}

-- include/task.h
pub record Task : Type 0 where
  pub uri : List ℕ
  pub fname : List ℕ

-- `stream` with what it has still to give; `eof` is its `eofbit`. A stream whose reads fail, and which
-- sets `badbit` without `eofbit`, is not modelled.
pub record Source : Type 0 where
  pub rest : List ℕ
  pub eof : Bool

-- `getline`: the line, what follows its newline, and whether the stream ended before one.
pub record Line : Type 0 where
  pub text : List ℕ
  pub rest : List ℕ
  pub ended : Bool

unfoldable pub getline : List ℕ → Line
getline [] = record { text = []; rest = []; ended = true }
getline (c ∷ cs) =
    let line = getline cs in
    if c == b'\n'
    then record { text = []; rest = cs; ended = false }
    else record line { text = c ∷ line.text }

-- `isspace` in the C locale.
unfoldable pub is_space : ℕ → Bool
is_space c = c == b' ' || (leb 9 c && leb c 13)

unfoldable pub skip_space : List ℕ → List ℕ
skip_space [] = []
skip_space (c ∷ cs) = if is_space c then skip_space cs else c ∷ cs

-- The characters up to the next space, and what follows.
unfoldable pub take_word : List ℕ → List ℕ × List ℕ
take_word [] = ([], [])
take_word (c ∷ cs) =
    let (word, rest) = take_word cs in if is_space c then ([], c ∷ cs) else (c ∷ word, rest)

-- `sbuf >> word`
unfoldable pub extract : List ℕ → List ℕ × List ℕ
extract cs = take_word (skip_space cs)

unfoldable pub is_empty : List ℕ → Bool
is_empty [] = true
is_empty (c ∷ cs) = false

-- What a line that is not empty says.
unfoldable pub read_task : List ℕ → List ℕ → Option Task
read_task path buf =
    let (uri, rest) = extract buf in
    let (fname, rest') = extract rest in
    if is_empty uri || is_empty fname
    then none
    else some (record { uri = uri; fname = path ++ fname })

-- The loop of `get`, on fuel: the outer `none` means that the fuel ran out.
unfoldable pub get_from : ℕ → List ℕ → Source → Option (Option Task × Source)
get_from zero path s = none
get_from (suc fuel) path s =
    let line = getline s.rest in
    let s' : Source = record { rest = line.rest; eof = line.ended } in
    let again = get_from fuel path s' in
    if s.eof
    then some (none, s)
    else if is_empty line.text
    then again
    else elim (read_task path line.text) [ none ↦ again | some t ↦ some (some t, s') ]

-- Each round of the loop takes a character off the stream or ends it.
unfoldable pub get : List ℕ → Source → Option (Option Task × Source)
get path s = get_from (length s.rest + 2) path s
