-- ===== src/Framer/Emptied.antt =====
-- The loop of `run_file_source` (crates/tributary/src/main.rs) that empties the framer.
use mathlib.Core.List.{Mem, mem-cons_self, mem-cons_of_mem}
use tributary.Prelude.{
  ℕ, zero, suc, ◌≤◌, ◌<◌, ◌≡◌, ◌∙◌, refl, sym, ap, subst, true, false, List, [], ◌∷◌, Option, none,
  some, Text, arith, if◌then◌else◌, length, lookup, remove, lookup-remove, text_has_eq, text_eq,
  text_eq_iff, Bool-cases, ◌⊎◌, inl, inr,
}
use tributary.Multiline
use tributary.Multiline.{Joiner, is_empty, join}
use tributary.Cri
use tributary.Cri.{Pending, Reassembler}
use tributary.Docker
use tributary.Framer.{Framer, multiline, docker, cri, has_pending, drain, drain_all}

length-remove_le : (k : Text) (ms : List (Text × Pending)) → length (remove k ms) ≤ length ms
unfolding remove
length-remove_le k [] = omega arith
length-remove_le k ((j, p) ∷ ms) = ground (arith, length-remove_le k ms)

-- How many messages are held.
abbrev pub held : Framer → ℕ
held (multiline j) = if is_empty j.buf then 0 else 1
held (docker r) = length r.streams
held (cri r) = length r.streams

-- That a message, if there is one, is among the lines.
abbrev pub IsAmong : Option Text → List Text → Type 0
IsAmong none lines = Unit
IsAmong (some line) lines = Mem line lines

cons-IsAmong : (o : Option Text) (l : Text) (ls : List Text) → IsAmong o ls → IsAmong o (l ∷ ls)
cons-IsAmong none l ls h = tt
cons-IsAmong (some m) l ls h = mem-cons_of_mem l h

module _ (envelope : Text → Text → Text → Text) where
  abbrev message_of : Text → Option Pending → Option Text
  message_of stream none = none
  message_of stream (some p) = some (envelope p.log stream p.time)

  -- The message that is held for the stream, the one message of a joiner for any.
  abbrev pub message : Text → Framer → Option Text
  message stream (multiline j) = if is_empty j.buf then none else some (join j.buf)
  message stream (docker r) = message_of stream (lookup stream r.streams)
  message stream (cri r) = message_of stream (lookup stream r.streams)

  -- One round of the loop: it ends with nothing held, or the line is the stream's message and some
  -- other line otherwise.
  abbrev Drains : Text → Framer → Option Text × Framer → Type 0
  Drains stream f (none, f') = (has_pending f' ≡ false) × (message stream f ≡ none)
  Drains stream f (some line, f') =
      (held f' < held f) × ((message stream f ≡ some line) ⊎ (message stream f' ≡ message stream f))

  -- The first stream's message, or another's, which stays.
  abbrev Fronts : Text → Text → Pending → List (Text × Pending) → Type 0
  Fronts stream k p ms =
      (length (remove k ms) < length ms)
      × ((message_of stream (lookup stream ms) ≡ some (envelope p.log k p.time))
          ⊎ (message_of stream (lookup stream (remove k ms))
              ≡ message_of stream (lookup stream ms)))

  front-remove :
      (k : Text) (p : Pending) (ms : List (Text × Pending))
      → length (remove k ((k, p) ∷ ms)) < suc (length ms)
  unfolding remove
  front-remove k p ms = ground (arith, text_eq_iff k k, length-remove_le k ms)

  front-same :
      (stream k : Text) (p : Pending) (ms : List (Text × Pending))
      → text_eq k stream ≡ true
      → message_of stream (lookup stream ((k, p) ∷ ms)) ≡ some (envelope p.log k p.time)
  unfolding lookup
  front-same stream k p ms same =
      rw same (ap (λ s. some (envelope p.log s p.time)) (sym ((text_eq_iff k stream).0 same)))

  front-Fronts :
      (stream k : Text) (p : Pending) (ms : List (Text × Pending)) → Fronts stream k p ((k, p) ∷ ms)
  front-Fronts stream k p ms = (
    front-remove k p ms,
    elim (Bool-cases (text_eq k stream)) [
      | inl same ↦ inl (front-same stream k p ms same)
      | inr other ↦
          inr (ap (message_of stream) (lookup-remove k stream ((k, p) ∷ ms) ∙ rw other refl))
    ],
  )

  drain-none : (r : Reassembler) → r.streams ≡ [] → Cri.drain envelope r ≡ (none, r)
  unfolding Cri.drain Cri.emit
  drain-none r e = rw e refl

  drain-front :
      (r : Reassembler) (k : Text) (p : Pending) (ms : List (Text × Pending))
      → r.streams ≡ (k, p) ∷ ms
      → Cri.drain envelope r
        ≡ (some (envelope p.log k p.time), record r { streams = remove k r.streams })
  unfolding Cri.drain Cri.emit
  drain-front r k p ms e = rw e refl

  streams-none : (r : Reassembler) → r.streams ≡ [] → has_pending (cri r) ≡ false
  unfolding has_pending Cri.has_pending
  streams-none r e = rw e refl

  drain-Drains_streams :
      (stream : Text) (r : Reassembler) (ms : List (Text × Pending))
      → r.streams ≡ ms
      → let (out, r') = Cri.drain envelope r in Drains stream (cri r) (out, cri r')
  unfolding lookup
  drain-Drains_streams stream r [] e =
      subst (λ o. Drains stream (cri r) (o.0, cri o.1)) (sym (drain-none r e))
        (streams-none r e, rw e refl)
  drain-Drains_streams stream r ((k, p) ∷ ms) e =
      subst (λ o. Drains stream (cri r) (o.0, cri o.1)) (sym (drain-front r k p ms e))
        (subst (Fronts stream k p) (sym e) (front-Fronts stream k p ms))

  drain-Drains_joiner :
      (stream : Text) (j : Joiner) → Drains stream (multiline j) (drain envelope (multiline j))
  unfolding drain Multiline.drain has_pending Multiline.has_pending Multiline.take_record
  drain-Drains_joiner stream j = elim (Bool-cases (is_empty j.buf)) [
    | inl is ↦ rw is (rw is refl, rw is refl)
    | inr is ↦ rw is (rw is (omega arith), inl (rw is refl))
  ]

  cri-docker :
      (stream : Text) (r r' : Reassembler) (out : Option Text)
      → Drains stream (cri r) (out, cri r')
      → Drains stream (docker r) (out, docker r')
  unfolding has_pending
  cri-docker stream r r' none h = h
  cri-docker stream r r' (some line) h = h

  drain-Drains : (stream : Text) (f : Framer) → Drains stream f (drain envelope f)
  unfolding drain Docker.drain has_pending
  drain-Drains stream (multiline j) = drain-Drains_joiner stream j
  drain-Drains stream (docker r) =
      let (out, r') = Cri.drain envelope r in
      cri-docker stream r r' out (drain-Drains_streams stream r r.streams refl)
  drain-Drains stream (cri r) = drain-Drains_streams stream r r.streams refl

  abbrev Empties : Text → Framer → List Text × Framer → Type 0
  Empties stream f (lines, f') = (has_pending f' ≡ false) × IsAmong (message stream f) lines

  some-Empties :
      (stream : Text) (f f' : Framer) (line : Text) (rest : List Text × Framer)
      → Drains stream f (some line, f')
      → Empties stream f' rest
      → Empties stream f (line ∷ rest.0, rest.1)
  some-Empties stream f f' line rest (less, inl is) (nothing, among) =
      (nothing, subst (λ o. IsAmong o (line ∷ rest.0)) (sym is) mem-cons_self)
  some-Empties stream f f' line rest (less, inr is) (nothing, among) = (
    nothing,
    cons-IsAmong (message stream f) line rest.0 (subst (λ o. IsAmong o rest.0) is among),
  )

  round-Empties :
      (n : ℕ) (stream : Text) (f : Framer) (out : Option Text) (f' : Framer)
      → Drains stream f (out, f')
      → (held f' < n → Empties stream f' (drain_all envelope n f'))
      → held f < suc n
      → Empties stream f (elim out [
        | none ↦ ([], f')
        | some line ↦ let (lines, f'') = drain_all envelope n f' in (line ∷ lines, f'')
      ])
  round-Empties n stream f none f' (nothing, is) ih h =
      (nothing, subst (λ o. IsAmong o []) (sym is) tt)
  round-Empties n stream f (some line) f' d ih h =
      some-Empties stream f f' line (drain_all envelope n f') d (ih (omega (arith, d.0)))

  -- With more fuel than messages are held the loop ends by itself: nothing is pending then, and the
  -- message that was held for the stream, if there was one, is among the lines.
  pub drain_all-Empties :
      (n : ℕ) (stream : Text) (f : Framer)
      → held f < n
      → (has_pending (drain_all envelope n f).1 ≡ false)
        × IsAmong (message stream f) (drain_all envelope n f).0
  unfolding drain_all
  drain_all-Empties zero stream f h = absurd (omega arith)
  drain_all-Empties (suc n) stream f h =
      let (out, f') = drain envelope f in
      round-Empties n stream f out f' (drain-Drains stream f) (drain_all-Empties n stream f') h
