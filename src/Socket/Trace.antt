-- ===== src/Socket/Trace.antt =====
-- What a trace of the socket shows: the bytes that it was handed, those that it published, and the
-- ends of stream that it published.
use ecwid_console_downloader.Base.{
  ℕ, ◌≡◌, refl, sym, ap, ◌∙◌, List, [], ◌∷◌, ◌++◌, append_assoc, append-nil,
}
use ecwid_console_downloader.Socket.{Effect, accepts, publishes, data_event, end_event}

gather : (Effect → List ℕ) → List Effect → List ℕ
gather f [] = []
gather f (e ∷ es) = f e ++ gather f es

abbrev pub accepted_by : Effect → List ℕ
accepted_by (accepts bytes) = bytes
accepted_by _ = []

abbrev pub delivered_by : Effect → List ℕ
delivered_by (publishes (data_event bytes)) = bytes
delivered_by _ = []

abbrev pub ended_by : Effect → List ℕ
ended_by (publishes end_event) = 0 ∷ []
ended_by _ = []

-- The data that `on_data` took in, and the data that was published to the subscriber.
unfoldable pub accepted : List Effect → List ℕ
unfolding gather
accepted = gather accepted_by

unfoldable pub delivered : List Effect → List ℕ
unfolding gather
delivered = gather delivered_by

-- One entry for each `EndEvent` published.
unfoldable pub ends : List Effect → List ℕ
unfolding gather
ends = gather ended_by

gather-append :
    (f : Effect → List ℕ) (xs ys : List Effect) → gather f (xs ++ ys) ≡ gather f xs ++ gather f ys
unfolding gather
gather-append f [] ys = refl
gather-append f (x ∷ xs) ys =
    ap (◌++◌ (f x)) (gather-append f xs ys) ∙ sym (append_assoc (f x) (gather f xs) (gather f ys))

gather-emit :
    (f : Effect → List ℕ) (t : List Effect) (e : Effect)
    → gather f (t ++ (e ∷ [])) ≡ gather f t ++ f e
unfolding gather
gather-emit f t e = gather-append f t (e ∷ []) ∙ ap (◌++◌ (gather f t)) (append-nil (f e))

-- A trace that shows the same data as another.
pub record SameData (t u : List Effect) : Type 0 where
  pub accepted_same : accepted u ≡ accepted t
  pub delivered_same : delivered u ≡ delivered t
  pub ends_same : ends u ≡ ends t

pub accepted-emit :
    (t : List Effect) (e : Effect) → accepted (t ++ (e ∷ [])) ≡ accepted t ++ accepted_by e
unfolding accepted
accepted-emit = gather-emit accepted_by

pub delivered-emit :
    (t : List Effect) (e : Effect) → delivered (t ++ (e ∷ [])) ≡ delivered t ++ delivered_by e
unfolding delivered
delivered-emit = gather-emit delivered_by

pub ends-emit : (t : List Effect) (e : Effect) → ends (t ++ (e ∷ [])) ≡ ends t ++ ended_by e
unfolding ends
ends-emit = gather-emit ended_by

-- An effect that carries no data.
pub record IsSilent (e : Effect) : Type 0 where
  pub accepts_none : accepted_by e ≡ []
  pub delivers_none : delivered_by e ≡ []
  pub ends_none : ended_by e ≡ []

pub emit-SameData : (t : List Effect) (e : Effect) → IsSilent e → SameData t (t ++ (e ∷ []))
emit-SameData t e h = record {
  accepted_same = rw (accepted-emit t e, h.accepts_none) (append-nil _);
  delivered_same = rw (delivered-emit t e, h.delivers_none) (append-nil _);
  ends_same = rw (ends-emit t e, h.ends_none) (append-nil _);
}

pub SameData-trans : {t u v : List Effect} → SameData t u → SameData u v → SameData t v
SameData-trans p q = record {
  accepted_same = q.accepted_same ∙ p.accepted_same;
  delivered_same = q.delivered_same ∙ p.delivered_same;
  ends_same = q.ends_same ∙ p.ends_same;
}
