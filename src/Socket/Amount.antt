-- ===== src/Socket/Amount.antt =====
-- How many bytes a turn of the controller's loop makes the socket publish.
use mathlib.Core.Option.{some-injective}
use ecwid_console_downloader.Base.{
  ℕ, ◌+◌, ◌-◌, ◌≤◌, ◌<◌, ◌≡◌, refl, sym, ap, ◌∙◌, true, false, inl, inr, some, List, length,
  length-append, min, arith, Bool-cases, ◌==◌, ◌||◌, if◌then◌else◌,
}
use ecwid_console_downloader.Socket.{Socket, Turn, Call, transfer, serve, settle, respond}
use ecwid_console_downloader.Socket.Buffer.{contents, pop_buffer-Pops}
use ecwid_console_downloader.Socket.Trace.{delivered}
use ecwid_console_downloader.Socket.Same.{respond-Same}
use ecwid_console_downloader.Socket.Serve.{IsValid, Serves, published, settle-Settles, serve-Serves}

settled_used :
    (at_data at_end : List Call) (s : Socket)
    → (settle at_end (respond at_data s)).buffer_used ≡ s.buffer_used
settled_used at_data at_end s =
    (settle-Settles at_end (respond at_data s)).used_same ∙ (respond-Same at_data s).used_same

transfer_stopped :
    (n : ℕ) (at_data at_end : List Call) (s : Socket)
    → s.stopped ≡ true
    → transfer n at_data at_end s ≡ some s
unfolding transfer
transfer_stopped n at_data at_end s h = simp h refl

transfer_going :
    (n : ℕ) (at_data at_end : List Call) (s : Socket)
    → IsValid s
    → 0 < n
    → n ≤ s.buffer_used
    → s.stopped ≡ false
    → (u : Socket) × (transfer n at_data at_end s ≡ some u) × (u.buffer_used ≡ s.buffer_used - n)
unfolding transfer
transfer_going n at_data at_end s v h k going =
    let (bytes, rest, p) =
      pop_buffer-Pops (min n s.buffer_used) s.buffer v.in_range (omega arith)
        (omega (arith, v.used)) in
    let asked : (s.stopped || n == 0) ≡ false = ground (arith, going) in
    let same : min n s.buffer_used ≡ n = omega arith in
    (
      settle at_end (respond at_data (published s (min n s.buffer_used) bytes rest)),
      simp (asked, p.popped),
      settled_used at_data at_end (published s (min n s.buffer_used) bytes rest)
          ∙ ap (◌-◌ s.buffer_used) same,
    )

transfer-used :
    (n : ℕ) (at_data at_end : List Call) (s u : Socket)
    → IsValid s
    → 0 < n
    → n ≤ s.buffer_used
    → transfer n at_data at_end s ≡ some u
    → s.buffer_used ≡ u.buffer_used + (if s.stopped then 0 else n)
transfer-used n at_data at_end s u v h k e = elim (Bool-cases s.stopped) [
  | inl idle ↦
      let same = some-injective s u (sym (transfer_stopped n at_data at_end s idle) ∙ e) in
      let used = ap (λ (x : Socket). x.buffer_used) same in ground (arith, idle, used)
  | inr going ↦
      let (w, f, less) = transfer_going n at_data at_end s v h k going in
      let used = ap (λ (x : Socket). x.buffer_used) (some-injective w u (sym f ∙ e)) in
      ground (arith, going, used, less)
]

serve-used :
    (t : Turn) (s u : Socket)
    → IsValid s
    → serve t s ≡ some u
    → s.buffer_used ≡ u.buffer_used + (if s.stopped then 0 else min s.buffer_used t.chunk)
unfolding serve
serve-used t s u v e = elim (Bool-cases (min s.buffer_used t.chunk == 0)) [
  | inl idle ↦
      let used = ap (λ (x : Socket). x.buffer_used) (some-injective s u (simp idle at e)) in
      ground (arith, idle, used)
  | inr going ↦
      transfer-used (min s.buffer_used t.chunk) t.at_data t.at_end s u v (ground (arith, going))
        (omega arith) (simp going at e)
]

pub delivered-serve :
    (t : Turn) (s u : Socket)
    → IsValid s
    → serve t s ≡ some u
    → Serves s u
    → length (delivered u.trace)
      ≡ length (delivered s.trace) + (if s.stopped then 0 else min s.buffer_used t.chunk)
delivered-serve t s u v e k =
    let before = ap length v.conserved ∙ length-append (delivered s.trace) (contents s.buffer) in
    let now = ap length k.valid.conserved ∙ length-append (delivered u.trace) (contents u.buffer) in
    omega (arith, serve-used t s u v e, v.used, k.valid.used, ap length k.accepted_same)

-- A turn of the controller at a valid socket publishes as many bytes as its chunk, or as the socket has if
-- these are fewer; it publishes none if the owner has stopped the socket.
pub serve-amount :
    (t : Turn) (s : Socket)
    → IsValid s
    → (u : Socket) × (serve t s ≡ some u)
      × (length (delivered u.trace)
          ≡ length (delivered s.trace) + (if s.stopped then 0 else min s.buffer_used t.chunk))
serve-amount t s v = let (u, e, k) = serve-Serves t s v in (u, e, delivered-serve t s u v e k)
