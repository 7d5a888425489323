-- ===== src/Options.antt =====
-- src/program_options.cpp and include/program_options.h: what is made of the command line. docopt is a
-- parameter: `Arguments` has what it returns. `std::regex_search` for `^\d+(k|K|m|M)?$` and
-- `std::stoul` are written out.
pub mod Accept
pub mod Limit
mod Tests
use ecwid_console_downloader.Base.{
  ℕ, zero, suc, ◌+◌, ◌-◌, ◌*◌, ◌^◌, Bool, true, false, not, ◌&&◌, ◌||◌, Option, none, some, List,
  [], ◌∷◌, codes, ltb, leb, ◌==◌, if◌then◌else◌, mul_size,
}
use ecwid_console_downloader.Tasks.{is_empty}

-- `asLong()`: a number from 0, a negative one, a `runtime_error` with its text, or another exception.
pub data LongValue : Type 0 where
  long : ℕ → LongValue
  negative : LongValue
  long_error : List ℕ → LongValue
  long_throws : LongValue

pub record Arguments : Type 0 where
  pub concurrency : LongValue
  pub speed_limit : List ℕ
  pub output_path : List ℕ
  pub task_fname : List ℕ

pub record ProgramOptions : Type 0 where
  pub concurrency : ℕ
  pub limit : ℕ
  pub path : List ℕ
  pub task_fname : List ℕ

-- A value, a `runtime_error`, or an exception that is none.
pub data Parsed (A : Type 0) : Type 0 where
  ok : A → Parsed A
  runtime_error : List ℕ → Parsed A
  uncaught : Parsed A

infixl 5 ◌>>=◌
abbrev pub ◌>>=◌ : {A B : Type 0} → Parsed A → (A → Parsed B) → Parsed B
ok a >>= f = f a
runtime_error text >>= f = runtime_error text
uncaught >>= f = uncaught

pub is_digit : ℕ → Bool
is_digit c = leb 48 c && leb c 57

-- The digits at the beginning, and what follows.
pub span_digits : List ℕ → List ℕ × List ℕ
span_digits [] = ([], [])
span_digits (c ∷ cs) =
    let (ds, rest) = span_digits cs in if is_digit c then (c ∷ ds, rest) else ([], c ∷ cs)

-- `k`, `K`, `m` or `M` at the end, or nothing.
pub is_suffix : List ℕ → Bool
is_suffix [] = true
is_suffix (c ∷ []) = (c == b'k' || c == b'K') || (c == b'm' || c == b'M')
is_suffix (c ∷ d ∷ cs) = false

-- The regular expression.
pub is_limit : List ℕ × List ℕ → Bool
is_limit (ds, rest) = not (is_empty ds) && is_suffix rest

pub number_from : ℕ → List ℕ → ℕ
number_from acc [] = acc
number_from acc (c ∷ cs) = number_from (acc * 10 + (c - 48)) cs

-- `stoul`, which throws `out_of_range` for more than an `unsigned long` holds.
pub stoul : List ℕ → Parsed ℕ
stoul ds = let n = number_from 0 ds in if ltb n (2 ^ 64) then ok n else uncaught

-- The `switch` on the last character.
pub scaled : ℕ → List ℕ → ℕ
scaled n [] = n
scaled n (c ∷ cs) =
    if c == b'k' || c == b'K' then mul_size n 1024 else mul_size (mul_size n 1024) 1024

abbrev pub invalid_limit : Parsed ℕ
invalid_limit = runtime_error (codes "Invalid sped limit")

pub check_limit : ℕ → Parsed ℕ
check_limit n = if n == 0 then invalid_limit else ok n

pub speed_limit : List ℕ → Parsed ℕ
speed_limit s =
    let (ds, rest) = span_digits s in
    if is_limit (ds, rest) then (stoul ds >>= λ n. check_limit (scaled n rest)) else invalid_limit

pub concurrency_of : LongValue → Parsed ℕ
concurrency_of (long n) = ok n
concurrency_of negative = runtime_error (codes "Invalid concurrency")
concurrency_of (long_error text) = runtime_error text
concurrency_of long_throws = uncaught

-- A `runtime_error` is caught: its text and the usage are printed, and the program exits.
pub parse_program_options : Arguments → Parsed ProgramOptions
parse_program_options a = concurrency_of a.concurrency >>= λ c. speed_limit a.speed_limit >>= λ l.
    ok (record { concurrency = c; limit = l; path = a.output_path; task_fname = a.task_fname })
