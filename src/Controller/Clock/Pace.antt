-- ===== src/Controller/Clock/Pace.antt =====
-- The rate at which one stream gains, over any sequence of transfers.
use mathlib.Core.Option
use mathlib.Core.Option.{some-injective}
use ecwid_console_downloader.Base.{
  ℕ, ◌+◌, ◌-◌, ◌*◌, ◌/◌, ◌^◌, ◌≤◌, ◌<◌, ◌≡◌, refl, ap, inl, inr, Option, none, some, List, [], ◌∷◌,
  length, ◌==◌, arith, Bool-cases, Option-cases, ==→eq, subst,
}
use ecwid_console_downloader.Controller.{Controller, Stream, transfer_all, update}
use ecwid_console_downloader.Controller.Schedule.{Served}
use ecwid_console_downloader.Controller.Gain.{
  measured, Gains, Gains-refl, Gains-trans, transfer_all-Gains,
}
use ecwid_console_downloader.Controller.Clock.{
  Paced, Move, transfers, changes, elapsed, transfer_at, move, moves, InOrder, moves-within,
}

-- What changes the streams meanwhile leaves alone what is measured.
abbrev pub IsSteady : {S : Type 0} → (S → ℕ) → List (Move S) → Type 0
IsSteady measure [] = Unit
IsSteady measure (transfers current ∷ ms) = IsSteady measure ms
IsSteady {S} measure (changes i f ∷ ms) =
    ((s : S) → measure (f s) ≡ measure s) × IsSteady measure ms

module _ {S : Type 0} (stream : Stream S) (most : ℕ) (served : Served stream most) (measure : S → ℕ)
    (grows : (n : ℕ) (s : S) → measure (stream.transfer n s) ≤ measure s + n) (k : ℕ) where
  transfer_at-Gains :
      (current : ℕ) (p q : Paced S)
      → transfer_at stream current p ≡ some q
      → Gains measure k p.controller q.controller
  unfolding transfer_at elapsed
  transfer_at-Gains current p q e =
      elim (Option-cases (transfer_all stream ((current - p.time.last) / 1000000) p.controller)) [
        | inl out ↦ let e' : ◌≡◌ {A = Option (Paced S)} none (some q) = simp out at e in cc
        | inr (c, f) ↦
            subst (λ (x : Paced S). Gains measure k p.controller x.controller)
              (some-injective _ q (simp f at e))
              (transfer_all-Gains measure k stream served.removing grows _ p.controller c f)
      ]

  map-measured :
      (f : S → S) (o : Option S)
      → ((s : S) → measure (f s) ≡ measure s)
      → measured measure (Option.map f o) ≡ measured measure o
  map-measured f none h = refl
  map-measured f (some s) h = h s

  change-Gains :
      (i : ℕ) (f : S → S) (c : Controller S)
      → ((s : S) → measure (f s) ≡ measure s)
      → Gains measure k c (record c { cell = update c.cell i (Option.map f (c.cell i)) })
  change-Gains i f c h = elim (Bool-cases (i == k)) [
    | inl same ↦ record {
      gain = simp same (
          omega (
            arith,
            map-measured f (c.cell i) h,
            ap (λ j. measured measure (c.cell j)) (==→eq i k same),
          ));
    }
    | inr other ↦ record { gain = simp other (omega arith) }
  ]

  moves-Gains :
      (ms : List (Move S)) (p q : Paced S)
      → IsSteady measure ms
      → moves stream ms p ≡ some q
      → Gains measure k p.controller q.controller
  unfolding moves move
  moves-Gains [] p q h e =
      subst (λ (x : Paced S). Gains measure k p.controller x.controller) (some-injective p q e)
        (Gains-refl measure k p.controller)
  moves-Gains (transfers current ∷ ms) p q h e =
      elim (Option-cases (transfer_at stream current p)) [
        | inl out ↦ let e' : ◌≡◌ {A = Option (Paced S)} none (some q) = simp out at e in cc
        | inr (r, f) ↦
            Gains-trans measure k p.controller r.controller q.controller
              (transfer_at-Gains current p r f) (moves-Gains ms r q h (simp f at e))
      ]
  moves-Gains (changes i f ∷ ms) p q h e =
      let r : Paced S = record p {
        controller = record p.controller {
          cell = update p.controller.cell i (Option.map f (p.controller.cell i));
        };
      } in
      Gains-trans measure k p.controller r.controller q.controller
        (change-Gains i f p.controller h.0) (moves-Gains ms r q h.1 e)

  -- A list of at most one slot, a clock that does not go back, and a measure of a stream that a transfer of
  -- `n` bytes raises by `n` at most, and nothing else: it grows at the rate of the limit.
  pub moves-paced :
      (ms : List (Move S)) (to : ℕ) (p : Paced S)
      → 2 * most < 2 ^ 64
      → length p.controller.slots ≤ 1
      → InOrder p.time.last ms to
      → IsSteady measure ms
      → (q : Paced S) × (moves stream ms p ≡ some q)
        × (measured measure (q.controller.cell k) * 1000000000
            ≤ measured measure (p.controller.cell k) * 1000000000
              + p.controller.limit * (to - p.time.last))
  moves-paced ms to p small few order steady =
      let (q, e, sent) = moves-within stream most served small ms to p few order in
      (q, e, omega (arith, (moves-Gains ms p q steady e).gain, sent))
