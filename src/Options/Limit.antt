-- ===== src/Options/Limit.antt =====
-- The speed limit that a decimal number with a suffix stands for.
use native.Mathlib.Nat.{pow-suc}
use ecwid_console_downloader.Base.{
  ℕ, zero, suc, ◌+◌, ◌-◌, ◌*◌, ◌/◌, ◌%◌, ◌^◌, ◌<◌, ◌≡◌, refl, ap, ◌∙◌, true, false, inl, inr, List,
  [], ◌∷◌, ◌++◌, ltb, lt→ltb, ltb→lt, Bool-cases, All, All-append, arith, codes, ◌==◌,
  if◌then◌else◌,
}
use ecwid_console_downloader.Tasks.{is_empty}
use ecwid_console_downloader.Http.{digits}
use ecwid_console_downloader.Options.{
  ok, runtime_error, ◌>>=◌, is_digit, span_digits, is_suffix, is_limit, number_from, stoul, scaled,
  check_limit, speed_limit,
}

pub data Suffix : Type 0 where
  plain k K m M : Suffix

abbrev pub suffix_text : Suffix → List ℕ
suffix_text plain = []
suffix_text k = b'k' ∷ []
suffix_text K = b'K' ∷ []
suffix_text m = b'm' ∷ []
suffix_text M = b'M' ∷ []

abbrev pub factor : Suffix → ℕ
factor plain = 1
factor k = 1024
factor K = 1024
factor m = 1048576
factor M = 1048576

-- A number below 10^20, in decimal.
abbrev pub decimal : ℕ → List ℕ
decimal n = digits 20 n

abbrev IsDigit : ℕ → Type 0
IsDigit c = is_digit c ≡ true

number_from-append :
    (acc : ℕ) (xs ys : List ℕ) → number_from acc (xs ++ ys) ≡ number_from (number_from acc xs) ys
unfolding number_from
number_from-append acc [] ys = refl
number_from-append acc (x ∷ xs) ys = number_from-append (acc * 10 + (x - 48)) xs ys

tenth-lt : (fuel n : ℕ) → n < 10 ^ suc fuel → n / 10 < 10 ^ fuel
tenth-lt fuel n h = let step = pow-suc 10 fuel in omega arith

number_from-digits : (fuel n : ℕ) → n < 10 ^ fuel → number_from 0 (digits fuel n) ≡ n
unfolding digits number_from
number_from-digits zero n h = omega arith
number_from-digits (suc fuel) n h = elim (Bool-cases (ltb n 10)) [
  | inl small ↦ simp small (omega arith)
  | inr large ↦ simp large (
      number_from-append 0 (digits fuel (n / 10)) ((48 + n % 10) ∷ [])
      ∙ ap (λ a. number_from a ((48 + n % 10) ∷ []))
          (number_from-digits fuel (n / 10) (tenth-lt fuel n h))
      ∙ omega arith)
]

digits-All : (fuel n : ℕ) → All IsDigit (digits fuel n)
unfolding digits is_digit
digits-All zero n = tt
digits-All (suc fuel) n = elim (Bool-cases (ltb n 10)) [
  | inl small ↦ simp small (ground (arith, ltb→lt _ _ small), tt)
  | inr large ↦ simp large (
      All-append IsDigit (digits fuel (n / 10)) ((48 + n % 10) ∷ []) (digits-All fuel (n / 10))
        (ground arith, tt))
]

append_filled : (xs : List ℕ) (y : ℕ) → is_empty (xs ++ (y ∷ [])) ≡ false
unfolding is_empty
append_filled [] y = refl
append_filled (x ∷ xs) y = refl

digits_filled : (fuel n : ℕ) → is_empty (digits (suc fuel) n) ≡ false
unfolding digits is_empty
digits_filled fuel n = elim (Bool-cases (ltb n 10)) [
  | inl small ↦ simp small refl
  | inr large ↦ simp large (append_filled (digits fuel (n / 10)) (48 + n % 10))
]

span_digits-append :
    (ds : List ℕ) (u : Suffix)
    → All IsDigit ds
    → span_digits (ds ++ suffix_text u) ≡ (ds, suffix_text u)
unfolding span_digits is_digit
span_digits-append [] plain h = refl
span_digits-append [] k h = refl
span_digits-append [] K h = refl
span_digits-append [] m h = refl
span_digits-append [] M h = refl
span_digits-append (d ∷ ds) u h = rw (h.0, span_digits-append ds u h.1)

scaled-factor :
    (n : ℕ) (u : Suffix) → n < 2 ^ 64 → scaled n (suffix_text u) ≡ (n * factor u) % 2 ^ 64
unfolding scaled
scaled-factor n plain h = omega arith
scaled-factor n k h = refl
scaled-factor n K h = refl
scaled-factor n m h = omega arith
scaled-factor n M h = omega arith

is_limit-decimal : (n : ℕ) (u : Suffix) → is_limit (decimal n, suffix_text u) ≡ true
unfolding is_limit is_suffix
is_limit-decimal n plain = rw (digits_filled 19 n)
is_limit-decimal n k = rw (digits_filled 19 n)
is_limit-decimal n K = rw (digits_filled 19 n)
is_limit-decimal n m = rw (digits_filled 19 n)
is_limit-decimal n M = rw (digits_filled 19 n)

number_from-decimal : (n : ℕ) → n < 10 ^ 20 → number_from 0 (decimal n) ≡ n
number_from-decimal n h = number_from-digits 20 n h

speed_limit-decimal :
    (n : ℕ) (u : Suffix)
    → n < 10 ^ 20
    → speed_limit (decimal n ++ suffix_text u)
      ≡ (stoul (decimal n) >>= λ n'. check_limit (scaled n' (suffix_text u)))
unfolding speed_limit
speed_limit-decimal n u h =
    simp (span_digits-append (decimal n) u (digits-All 20 n), is_limit-decimal n u)

stoul-decimal : (n : ℕ) → n < 2 ^ 64 → stoul (decimal n) ≡ ok n
unfolding stoul
stoul-decimal n h = simp (number_from-decimal n (omega arith), lt→ltb _ _ h)

-- The limit that is left of a product, on 64 bits.
scaled-checked :
    (n : ℕ) → check_limit n ≡ (if n == 0 then runtime_error (codes "Invalid sped limit") else ok n)
unfolding check_limit
scaled-checked n = refl

-- A number with a suffix is scaled by it on 64 bits, so that a larger product wraps around: when nothing is
-- left of it the limit is refused with a `runtime_error`, and otherwise what is left is the limit.
pub speed_limit-scales :
    (n : ℕ) (u : Suffix)
    → n < 2 ^ 64
    → speed_limit (decimal n ++ suffix_text u) ≡ (
        if (n * factor u) % 2 ^ 64 == 0
        then runtime_error (codes "Invalid sped limit")
        else ok ((n * factor u) % 2 ^ 64))
speed_limit-scales n u h =
    speed_limit-decimal n u (omega arith)
    ∙ simp (stoul-decimal n h, scaled-factor n u h) (scaled-checked ((n * factor u) % 2 ^ 64))

below-factor : (n : ℕ) (u : Suffix) → n * factor u < 2 ^ 64 → n < 2 ^ 64
below-factor n plain h = omega arith
below-factor n k h = omega arith
below-factor n K h = omega arith
below-factor n m h = omega arith
below-factor n M h = omega arith

mod-small : (n : ℕ) → n < 2 ^ 64 → n % 2 ^ 64 ≡ n
mod-small n h = omega arith

limit-ok :
    (n : ℕ) → 0 < n → (if n == 0 then runtime_error (codes "Invalid sped limit") else ok n) ≡ ok n
limit-ok n h = ground arith

-- A limit written as a number with a suffix is read as the number of bytes it stands for, when this is
-- neither 0 nor more than 64 bits hold.
pub speed_limit-decimal_read :
    (n : ℕ) (u : Suffix)
    → 0 < n * factor u
    → n * factor u < 2 ^ 64
    → speed_limit (decimal n ++ suffix_text u) ≡ ok (n * factor u)
speed_limit-decimal_read n u positive small =
    speed_limit-scales n u (below-factor n u small)
    ∙ simp (mod-small (n * factor u) small, limit-ok (n * factor u) positive)
