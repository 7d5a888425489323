-- ===== src/Socket/Buffer.antt =====
-- The queue of chunks is a queue of bytes: `pop_buffer` takes a prefix off what it holds.
use ecwid_console_downloader.Base.{
  ℕ, ◌+◌, ◌-◌, ◌≤◌, ◌<◌, ◌≡◌, refl, sym, ap, ◌∙◌, true, false, inl, inr, List, [], ◌∷◌, ◌++◌,
  append_assoc, append-nil, some, length, take, drop, length-append, length-drop,
  take-append_within, drop-append_within, take-append_behind, drop-append_behind, drop-drop,
  take-zero, drop-zero, All, arith, ltb, Bool-cases, ltb→lt, ltb→le, ==→eq, ◌==◌,
}
use ecwid_console_downloader.Socket.{DataChunk, pop_buffer}

abbrev pub remaining : DataChunk → List ℕ
remaining c = drop c.offset c.bytes

-- What the queue still holds, oldest first.
unfoldable pub contents : List DataChunk → List ℕ
contents [] = []
contents (c ∷ cs) = remaining c ++ contents cs

pub contents-one : (bytes : List ℕ) → contents (record { bytes = bytes; offset = 0 } ∷ []) ≡ bytes
unfolding contents
contents-one bytes = append-nil bytes

pub contents-append : (cs ds : List DataChunk) → contents (cs ++ ds) ≡ contents cs ++ contents ds
unfolding contents
contents-append [] ds = refl
contents-append (c ∷ cs) ds =
    ap (◌++◌ (remaining c)) (contents-append cs ds)
    ∙ sym (append_assoc (remaining c) (contents cs) (contents ds))

abbrev pub InRange : DataChunk → Type 0
InRange c = c.offset ≤ length c.bytes

pub length-remaining : (c : DataChunk) → length (remaining c) ≡ length c.bytes - c.offset
length-remaining c = length-drop c.offset c.bytes

-- What `pop_buffer n` returns: `n` bytes taken off the front.
pub record Pops (n : ℕ) (cs : List DataChunk) (bytes : List ℕ) (rest : List DataChunk)
    : Type 0 where
  pub popped : pop_buffer n cs ≡ some (bytes, rest)
  pub prefix : bytes ≡ take n (contents cs)
  pub left : contents rest ≡ drop n (contents cs)
  pub in_range : All InRange rest

-- The three ways the front chunk is used: in part, whole and alone, whole with more to come.
part-Pops :
    (n : ℕ) (c : DataChunk) (cs : List DataChunk)
    → All InRange (c ∷ cs)
    → ltb n (length c.bytes - c.offset) ≡ true
    → Pops n (c ∷ cs) (take n (remaining c)) (record c { offset = c.offset + n } ∷ cs)
unfolding pop_buffer contents
part-Pops n c cs v few =
    let short : n ≤ length (remaining c) = omega (arith, ltb→lt _ _ few, length-remaining c) in
    record {
      popped = rw few;
      prefix = sym (take-append_within n (remaining c) (contents cs) short);
      left =
          rw (drop-append_within n (remaining c) (contents cs) short)
            (ap (λ l. l ++ contents cs) (sym (drop-drop c.offset n c.bytes)));
      in_range = (omega (arith, ltb→lt _ _ few, v.0), v.1);
    }

whole-Pops :
    (n : ℕ) (c : DataChunk) (cs : List DataChunk)
    → All InRange (c ∷ cs)
    → ltb n (length c.bytes - c.offset) ≡ false
    → (n == length c.bytes - c.offset) ≡ true
    → Pops n (c ∷ cs) (remaining c) cs
unfolding pop_buffer contents
whole-Pops n c cs v many e =
    let same : n ≡ length (remaining c) = omega (arith, ==→eq _ _ e, length-remaining c) in
    record {
      popped = rw (many, e);
      prefix =
          rw (take-append_behind n (remaining c) (contents cs) (omega arith))
            (rw (take-zero (n - length (remaining c)) (contents cs) (omega arith), append-nil));
      left =
          rw (drop-append_behind n (remaining c) (contents cs) (omega arith))
            (rw (drop-zero (n - length (remaining c)) (contents cs) (omega arith)));
      in_range = v.1;
    }

more-Pops :
    (n : ℕ) (c : DataChunk) (cs : List DataChunk) {bytes : List ℕ} {rest : List DataChunk}
    → ltb n (length c.bytes - c.offset) ≡ false
    → (n == length c.bytes - c.offset) ≡ false
    → Pops (n - (length c.bytes - c.offset)) cs bytes rest
    → Pops n (c ∷ cs) (remaining c ++ bytes) rest
unfolding pop_buffer contents
more-Pops n c cs many ne p =
    let long : length (remaining c) ≤ n = omega (arith, ltb→le _ _ many, length-remaining c) in
    record {
      popped = rw (many, ne, p.popped);
      prefix =
          rw (take-append_behind n (remaining c) (contents cs) long, length-remaining c)
            (ap (◌++◌ (remaining c)) p.prefix);
      left = rw (drop-append_behind n (remaining c) (contents cs) long, length-remaining c) p.left;
      in_range = p.in_range;
    }

-- On chunks whose offsets are in range, `pop_buffer` of at least one byte and of no more bytes than
-- the queue holds returns exactly the first `n` bytes of the queue and leaves the others, in order.
pub pop_buffer-Pops :
    (n : ℕ) (cs : List DataChunk)
    → All InRange cs
    → 0 < n
    → n ≤ length (contents cs)
    → (bytes : List ℕ) × (rest : List DataChunk) × Pops n cs bytes rest
unfolding contents
pop_buffer-Pops n [] v h k = absurd (omega arith)
pop_buffer-Pops n (c ∷ cs) v h k = elim (Bool-cases (ltb n (length c.bytes - c.offset))) [
  | inl few ↦ (take n (remaining c), _, part-Pops n c cs v few)
  | inr many ↦ elim (Bool-cases (n == length c.bytes - c.offset)) [
    | inl e ↦ (remaining c, cs, whole-Pops n c cs v many e)
    | inr ne ↦
        let (bytes, rest, p) =
          pop_buffer-Pops (n - (length c.bytes - c.offset)) cs v.1 (ground (arith, many, ne))
            (omega (arith, length-append (remaining c) (contents cs), length-remaining c)) in
        (remaining c ++ bytes, rest, more-Pops n c cs many ne p)
  ]
]
