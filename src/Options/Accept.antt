-- ===== src/Options/Accept.antt =====
-- What the options have in common that the program starts with.
use ecwid_console_downloader.Base.{
  ℕ, ◌^◌, ◌<◌, ◌≡◌, refl, true, inl, inr, List, [], ◌∷◌, subst, Bool-cases, arith,
}
use ecwid_console_downloader.Options.{
  LongValue, long, negative, long_error, long_throws, Arguments, ProgramOptions, Parsed, ok,
  runtime_error, uncaught, ◌>>=◌, span_digits, is_limit, stoul, scaled, check_limit, speed_limit,
  concurrency_of, parse_program_options,
}

-- The options were made of these arguments.
pub record IsAccepted (a : Arguments) (o : ProgramOptions) : Type 0 where
  pub concurrency : a.concurrency ≡ long o.concurrency
  pub limit : speed_limit a.speed_limit ≡ ok o.limit
  pub form : is_limit (span_digits a.speed_limit) ≡ true
  pub positive : 0 < o.limit
  pub bounded : o.limit < 2 ^ 64
  pub path : o.path ≡ a.output_path
  pub task_fname : o.task_fname ≡ a.task_fname

runtime_error-ok : {A : Type 0} (text : List ℕ) (a : A) → ¬ (runtime_error text ≡ ok a)
runtime_error-ok text a e = cc

ok-injective : {A : Type 0} (a b : A) → ok a ≡ ok b → a ≡ b
ok-injective a b e = cc

bind-ok :
    {A B : Type 0} (p : Parsed A) (f : A → Parsed B) (b : B)
    → (p >>= f) ≡ ok b
    → (a : A) × (p ≡ ok a) × (f a ≡ ok b)
bind-ok (ok a) f b e = (a, refl, e)
bind-ok (runtime_error text) f b e = cc
bind-ok uncaught f b e = cc

concurrency_of-ok : (v : LongValue) (n : ℕ) → concurrency_of v ≡ ok n → v ≡ long n
unfolding concurrency_of
concurrency_of-ok (long m) n e = cc
concurrency_of-ok negative n e = cc
concurrency_of-ok (long_error text) n e = cc
concurrency_of-ok long_throws n e = cc

check_limit-inv : (n l : ℕ) → check_limit n ≡ ok l → (n ≡ l) × (0 < n)
unfolding check_limit
check_limit-inv n l e = ground arith

stoul-inv : (ds : List ℕ) (n : ℕ) → stoul ds ≡ ok n → n < 2 ^ 64
unfolding stoul
stoul-inv ds n e = ground arith

scaled-lt : (n : ℕ) (rest : List ℕ) → n < 2 ^ 64 → scaled n rest < 2 ^ 64
unfolding scaled
scaled-lt n [] h = h
scaled-lt n (c ∷ cs) h = ground arith

-- An accepted limit has the form, and is a positive number of 64 bits.
speed_limit-inv :
    (s : List ℕ) (l : ℕ)
    → speed_limit s ≡ ok l
    → (is_limit (span_digits s) ≡ true) × (0 < l) × (l < 2 ^ 64)
unfolding speed_limit is_limit
speed_limit-inv s l e = elim (Bool-cases (is_limit (span_digits s))) [
  | inl form ↦
      let (n, parsed, checked) =
        bind-ok (stoul ((span_digits s).0)) (λ n. check_limit (scaled n ((span_digits s).1))) l
          (simp form at e) in
      let (same, positive) = check_limit-inv _ l checked in
      (
        form,
        rw same at positive,
        rw same at (scaled-lt n ((span_digits s).1) (stoul-inv _ n parsed)),
      )
  | inr other ↦ absurd (runtime_error-ok _ l (simp other at e))
]

-- The program starts only with a concurrency that is not negative and a limit of the right form, which is not
-- 0 and fits in 64 bits, and with the paths as they were given.
pub parse_program_options-IsAccepted :
    (a : Arguments) (o : ProgramOptions) → parse_program_options a ≡ ok o → IsAccepted a o
unfolding parse_program_options
parse_program_options-IsAccepted a o e =
    let (c, given, rest) = bind-ok (concurrency_of a.concurrency) _ o e in
    let (l, limited, made) = bind-ok (speed_limit a.speed_limit) _ o rest in
    let (form, positive, bounded) = speed_limit-inv a.speed_limit l limited in
    subst (IsAccepted a) (ok-injective _ o made) (record {
      concurrency = concurrency_of-ok a.concurrency c given;
      limit = limited;
      form = form;
      positive = positive;
      bounded = bounded;
      path = refl;
      task_fname = refl;
    })
