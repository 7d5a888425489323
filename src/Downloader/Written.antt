-- ===== src/Downloader/Written.antt =====
-- The bytes on the side of the file: what was received, what was written and confirmed, what is being
-- written, and what is left.
use ecwid_console_downloader.Base.{
  ℕ, zero, suc, ◌+◌, ◌%◌, ◌^◌, ◌≤◌, ◌≡◌, refl, sym, ap, ◌∙◌, subst, Bool, List, [], ◌∷◌, ◌++◌,
  append_assoc, length, length-append, take, drop, drop-drop, take-append-drop, All, All-append,
  arith, inl, inr, Bool-cases, ◌==◌, ==→eq, ◌-◌, Option, none, some, not, ◌&&◌,
}
use ecwid_console_downloader.Socket.{DataChunk}
use ecwid_console_downloader.Socket.Buffer.{
  remaining, contents, contents-append, contents-one, InRange, length-remaining,
}
use ecwid_console_downloader.Downloader.State.{Downloader, Written}
use ecwid_console_downloader.Downloader.File.{
  Answer, push_data, on_data, advance, confirmed, asked, on_stored, write_front, write_chunk,
  on_write, on_open, resume_file,
}
use ecwid_console_downloader.Downloader.Bytes

-- A write that is not confirmed was given what is left of the front chunk, and the place at which the
-- stored bytes end.
unfoldable pub IsPending : List DataChunk → List ℕ → Option Written → Type 0
IsPending buffer stored none = Unit
IsPending buffer stored (some w) =
    (c : DataChunk) × (cs : List DataChunk) × (buffer ≡ c ∷ cs)
    × (w.bytes ≡ remaining c)
    × (w.size ≡ length c.bytes - c.offset)
    × (w.offset ≡ length stored % 2 ^ 64)

-- What was received is what was written and confirmed, and then what is still buffered; `offset_file`
-- and `downloaded` count the confirmed and the received bytes.
pub record IsAccounted (b : Bytes.Bytes) : Type 0 where
  pub in_range : All InRange b.buffer
  pub whole : b.received ≡ b.stored ++ contents b.buffer
  pub offset_lem : b.offset_file ≡ length b.stored % 2 ^ 64
  pub pending : IsPending b.buffer b.stored b.writing
  pub downloaded_lem : b.downloaded ≡ length b.received % 2 ^ 64

-- The first bytes of the front chunk, and how many it has.
unfoldable front_part : ℕ → List DataChunk → List ℕ
front_part size [] = []
front_part size (c ∷ cs) = take size (remaining c)

unfoldable front_size : List DataChunk → ℕ
front_size [] = 0
front_size (c ∷ cs) = length c.bytes - c.offset

-- Some bytes of the front chunk are confirmed.
record Advances (size : ℕ) (cs : List DataChunk) : Type 0 where
  pub in_range : All InRange (advance size cs)
  contents_lem : front_part size cs ++ contents (advance size cs) ≡ contents cs
  length_lem : length (front_part size cs) ≡ size

length-take : (n : ℕ) (xs : List ℕ) → n ≤ length xs → length (take n xs) ≡ n
length-take zero xs h = refl
length-take (suc n) [] h = absurd (omega arith)
length-take (suc n) (x ∷ xs) h = omega (arith, length-take n xs (omega arith))

take_whole : (n : ℕ) (xs : List ℕ) → n ≡ length xs → take n xs ≡ xs
take_whole zero [] h = refl
take_whole zero (x ∷ xs) h = absurd (omega arith)
take_whole (suc n) [] h = refl
take_whole (suc n) (x ∷ xs) h = ap (λ l. x ∷ l) (take_whole n xs (omega arith))

advance-Advances :
    (size : ℕ) (cs : List DataChunk) → All InRange cs → size ≤ front_size cs → Advances size cs
unfolding advance front_part front_size contents
advance-Advances size [] v h = record {
  in_range = tt;
  contents_lem = refl;
  length_lem = omega arith;
}
advance-Advances size (c ∷ cs) v h = elim (Bool-cases (c.offset + size == length c.bytes)) [
  | inl ends ↦
      let all : size ≡ length (remaining c) = omega (arith, ==→eq _ _ ends, length-remaining c) in
      record {
        in_range = simp ends v.1;
        contents_lem = simp ends (ap (λ l. l ++ contents cs) (take_whole size (remaining c) all));
        length_lem = length-take size (remaining c) (omega (arith, all));
      }
  | inr goes ↦ record {
    in_range = simp goes (ground (arith, v.0, goes), v.1);
    contents_lem = simp goes (
        sym (append_assoc (take size (remaining c)) (drop (c.offset + size) c.bytes) (contents cs))
        ∙ ap (λ l. (take size (remaining c) ++ l) ++ contents cs)
            (sym (drop-drop c.offset size c.bytes))
        ∙ ap (λ l. l ++ contents cs) (take-append-drop size (remaining c)));
    length_lem = length-take size (remaining c) (omega (arith, length-remaining c));
  }
]

-- What a pending write has confirmed is the first part of the front chunk.
front_none :
    (size : ℕ) (cs : List DataChunk) → size ≤ 0 → ([] ≡ front_part size cs) × (size ≤ front_size cs)
unfolding front_part front_size
front_none zero [] h = (refl, omega arith)
front_none zero (c ∷ cs) h = (refl, omega arith)
front_none (suc size) cs h = absurd (omega arith)

confirmed_front :
    (size : ℕ) (cs : List DataChunk) (stored : List ℕ) (w : Option Written)
    → IsPending cs stored w
    → size ≤ asked w
    → (confirmed size w ≡ front_part size cs) × (size ≤ front_size cs)
unfolding IsPending asked confirmed front_part front_size
confirmed_front size cs stored none p h = front_none size cs h
confirmed_front size cs stored (some w) (c, ds, e, b, s, o) h =
    (rw (e, b) refl, rw e (omega (arith, s)))

push-IsPending :
    (cs ds : List DataChunk) (stored : List ℕ) (w : Option Written)
    → IsPending cs stored w
    → IsPending (cs ++ ds) stored w
unfolding IsPending
push-IsPending cs ds stored none p = tt
push-IsPending cs ds stored (some w) (c, es, e, b, s, o) =
    (c, es ++ ds, ap (λ l. l ++ ds) e, b, s, o)

push-IsAccounted :
    {P : Type 0} (bytes : List ℕ) (d : Downloader P)
    → IsAccounted (Bytes.bytes_of d)
    → IsAccounted (Bytes.bytes_of (push_data bytes d))
unfolding push_data
push-IsAccounted bytes d a =
    let fresh : DataChunk = record { bytes = bytes; offset = 0 } in
    record {
      in_range = All-append InRange d.buffer (fresh ∷ []) a.in_range (omega arith, tt);
      whole =
          ap (λ l. l ++ bytes) a.whole
          ∙ append_assoc d.stored (contents d.buffer) bytes
          ∙ ap (λ l. d.stored ++ (contents d.buffer ++ l)) (sym (contents-one bytes))
          ∙ ap (λ l. d.stored ++ l) (sym (contents-append d.buffer (fresh ∷ [])));
      offset_lem = a.offset_lem;
      pending = push-IsPending d.buffer (fresh ∷ []) d.stored d.writing a.pending;
      downloaded_lem = omega (arith, a.downloaded_lem, length-append d.received bytes);
    }

write_front-IsAccounted :
    {P : Type 0} (cs : List DataChunk) (active : Bool) (d : Downloader P)
    → d.buffer ≡ cs
    → IsAccounted (Bytes.bytes_of d)
    → IsAccounted (Bytes.bytes_of (write_front cs active d))
unfolding write_front write_chunk IsPending
write_front-IsAccounted [] active d e a =
    subst IsAccounted (sym (Bytes.write_none-bytes active d)) a
write_front-IsAccounted (c ∷ cs) active d e a = record {
  in_range = a.in_range;
  whole = a.whole;
  offset_lem = a.offset_lem;
  pending = (c, cs, e, refl, refl, a.offset_lem);
  downloaded_lem = a.downloaded_lem;
}

-- `on_write` writes what is left of the front chunk where the stored bytes end.
pub on_write-IsAccounted :
    {P : Type 0} (active : Bool) (d : Downloader P)
    → IsAccounted (Bytes.bytes_of d)
    → IsAccounted (Bytes.bytes_of (on_write active d))
unfolding on_write
on_write-IsAccounted active d a = write_front-IsAccounted d.buffer active d refl a

pub on_open-IsAccounted :
    {P : Type 0} (active : Bool) (d : Downloader P)
    → IsAccounted (Bytes.bytes_of d)
    → IsAccounted (Bytes.bytes_of (on_open active d))
unfolding on_open
on_open-IsAccounted active d a = on_write-IsAccounted active _ a

resume_file-IsAccounted :
    {P : Type 0} (active : Bool) (d : Downloader P)
    → IsAccounted (Bytes.bytes_of d)
    → IsAccounted (Bytes.bytes_of (resume_file active d))
unfolding resume_file
resume_file-IsAccounted active d a =
    elim (Bool-cases (d.file_openned && not d.file_operation_started)) [
      | inl idle ↦ simp idle (on_write-IsAccounted active _ a)
      | inr busy ↦ simp busy a
    ]

pub stored-IsAccounted :
    {P : Type 0} (size : ℕ) (active : Bool) (d : Downloader P)
    → size ≤ asked d.writing
    → IsAccounted (Bytes.bytes_of d)
    → IsAccounted (Bytes.bytes_of (on_stored size active d))
unfolding on_stored IsPending
stored-IsAccounted size active d h a =
    let (front, le) = confirmed_front size d.buffer d.stored d.writing a.pending h in
    let k = advance-Advances size d.buffer a.in_range le in
    on_write-IsAccounted active _ (record {
      in_range = k.in_range;
      whole =
          a.whole
          ∙ ap (λ l. d.stored ++ l)
              (sym (ap (λ l. l ++ contents (advance size d.buffer)) front ∙ k.contents_lem))
          ∙ sym
              (append_assoc d.stored (confirmed size d.writing) (contents (advance size d.buffer)));
      offset_lem = omega (
        arith,
        a.offset_lem,
        length-append d.stored (confirmed size d.writing),
        ap length front,
        k.length_lem,
      );
      pending = tt;
      downloaded_lem = a.downloaded_lem;
    })

pub on_data-IsAccounted :
    {P : Type 0} (bytes : List ℕ) (answer : Answer) (d : Downloader P)
    → IsAccounted (Bytes.bytes_of d)
    → IsAccounted (Bytes.bytes_of (on_data bytes answer d))
unfolding on_data
on_data-IsAccounted bytes answer d a = resume_file-IsAccounted answer.active _ (
    subst IsAccounted
      (sym (Bytes.ensure_file-bytes answer.open_fails _ ∙ Bytes.hold_back-bytes answer.active _))
      (push-IsAccounted bytes d a))

pub moved : {b b' : Bytes.Bytes} → b' ≡ b → IsAccounted b → IsAccounted b'
moved e a = subst IsAccounted (sym e) a
