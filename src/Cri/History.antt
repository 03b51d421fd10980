-- ===== src/Cri/History.antt =====
-- Histories of the reassembler, and the map of its streams: each has one entry.
use tributary.Prelude.{
  ℕ, ◌≡◌, refl, sym, ap, ◌∙◌, false, List, [], ◌∷◌, ◌++◌, append-nil, Option, none, some, Text,
  arith, if◌then◌else◌, lookup, insert, remove, lookup-insert, lookup-remove, text_eq, text_eq_iff,
  text_has_eq, Bool-cases, inl, inr, subst,
}
use tributary.Cri.{
  Pending, Reassembler, fragment, malformed, Parsed, parse, Pushed, ok, err, push, find_expired,
  expire, drain,
}

-- An envelope as the log, the stream and the time that it is made of.
abbrev pub Envelope : Type 0
Envelope = Text × Text × Text

abbrev pub envelope : Text → Text → Text → Envelope
envelope log stream time = (log, stream, time)

-- A line comes, the timeouts are looked at, or a stream is drained.
pub data Event : Type 0 where
  line : ℕ → Text → Event
  tick : ℕ → Event
  flush : Event

abbrev pub answered : Pushed Envelope → Option Envelope
answered (ok o) = o
answered (err e) = none

unfoldable pub step : Event → Reassembler → Option Envelope × Reassembler
step (line now l) r = (answered (push envelope now l r).0, (push envelope now l r).1)
step (tick now) r = expire envelope now r
step flush r = drain envelope r

abbrev pub with_out : Option Envelope → List Envelope → List Envelope
with_out none rest = rest
with_out (some m) rest = m ∷ rest

unfoldable pub emitted : List Event → Reassembler → List Envelope
unfolding step
emitted [] r = []
emitted (e ∷ es) r = with_out (step e r).0 (emitted es (step e r).1)

unfoldable pub after : List Event → Reassembler → Reassembler
unfolding step
after [] r = r
after (e ∷ es) r = after es (step e r).1

abbrev pub log_of : Option Pending → Text
log_of none = []
log_of (some p) = p.log

-- What is held for a stream, what was emitted for it, and what came for it.
module _ (s : Text) where
  abbrev pub pending : List (Text × Pending) → Text
  pending streams = log_of (lookup s streams)

  abbrev pub logs : List Envelope → Text
  logs [] = []
  logs ((log, stream, time) ∷ ms) = if text_eq stream s then log ++ logs ms else logs ms

  abbrev pub message : Parsed → Text
  message (malformed e) = []
  message (fragment f) = if text_eq f.stream s then f.msg else []

  abbrev pub came : Event → Text
  came (line now l) = message (parse l)
  came (tick now) = []
  came flush = []

  abbrev pub fed : List Event → Text
  fed [] = []
  fed (e ∷ es) = came e ++ fed es

-- Every stream has one entry.
abbrev pub IsKeyed : List (Text × Pending) → Type 0
IsKeyed [] = Unit
IsKeyed ((k, p) ∷ m) = (lookup k m ≡ none) × IsKeyed m

pub text_eq-swap : (a b : Text) → text_eq a b ≡ false → text_eq b a ≡ false
text_eq-swap a b h = ground (arith, text_eq_iff a b, text_eq_iff b a)

pub insert-IsKeyed :
    (k : Text) (p : Pending) (m : List (Text × Pending)) → IsKeyed m → IsKeyed (insert k p m)
unfolding insert lookup
insert-IsKeyed k p [] h = (refl, tt)
insert-IsKeyed k p ((j, q) ∷ m) h = elim (Bool-cases (text_eq j k)) [
  | inl same ↦ rw same (subst (λ k. lookup k m ≡ none) ((text_eq_iff j k).0 same) h.0, h.1)
  | inr other ↦
      rw other (lookup-insert k j p m ∙ rw (text_eq-swap j k other) h.0, insert-IsKeyed k p m h.1)
]

pub remove-IsKeyed : (k : Text) (m : List (Text × Pending)) → IsKeyed m → IsKeyed (remove k m)
unfolding remove lookup
remove-IsKeyed k [] h = tt
remove-IsKeyed k ((j, q) ∷ m) h = elim (Bool-cases (text_eq j k)) [
  | inl same ↦ rw same (remove-IsKeyed k m h.1)
  | inr other ↦
      rw other (lookup-remove k j m ∙ rw (text_eq-swap j k other) h.0, remove-IsKeyed k m h.1)
]

pub find_expired-found :
    (now timeout : ℕ) (m : List (Text × Pending)) (k : Text) (p : Pending)
    → IsKeyed m
    → find_expired envelope now timeout m ≡ some (k, p)
    → lookup k m ≡ some p
unfolding find_expired lookup
find_expired-found now timeout [] k p h e = ground arith
find_expired-found now timeout ((j, q) ∷ m) k p h e =
    ground (arith, text_eq_iff j k, h.0, find_expired-found now timeout m k p h.1)

pub logs-with_out :
    (s : Text) (o : Option Envelope) (ms : List Envelope)
    → logs s (with_out o ms) ≡ logs s (with_out o []) ++ logs s ms
logs-with_out s none ms = refl
logs-with_out s (some (log, stream, time)) ms = elim (Bool-cases (text_eq stream s)) [
  | inl same ↦ rw same (ap (λ l. l ++ logs s ms) (sym (append-nil log)))
  | inr other ↦ rw other refl
]
