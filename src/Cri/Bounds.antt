-- ===== src/Cri/Bounds.antt =====
-- crates/tributary/src/cri.rs: the sizes of the messages held.
use tributary.Prelude.{
  ℕ, ◌<◌, ◌≡◌, refl, List, [], ◌∷◌, Option, none, some, Text, arith, length, max, lookup,
  lookup-insert, lookup-remove, text_has_eq, inl, inr,
}
use tributary.Cri.{
  Pending, Reassembler, new, Fragment, parse, accept, emit, expire, drain, extended,
}
use tributary.Cri.History.{Event, line, tick, flush, step, after, envelope}
use tributary.Cri.Conserve.{Parsed-cases, step-fragment, step-malformed}

-- Every message that is held is below the cap, which is the configured one, one at least.
pub record IsBelow (cap : ℕ) (r : Reassembler) : Type 0 where
  pub capped : r.max_bytes ≡ cap
  pub below : (s : Text) (p : Pending) → lookup s r.streams ≡ some p → length p.log < cap

accept-IsBelow :
    (cap now : ℕ) (f : Fragment) (r : Reassembler)
    → IsBelow cap r
    → IsBelow cap (accept envelope now f r).1
unfolding accept
accept-IsBelow cap now f r h = record {
  capped = ground (arith, h.capped);
  below = λ s p e. ground (
    arith,
    h.capped,
    h.below s p,
    lookup-insert f.stream s (extended now f (lookup f.stream r.streams)) r.streams,
    lookup-remove f.stream s r.streams,
  );
}

emit-IsBelow :
    (cap : ℕ) (o : Option (Text × Pending)) (r : Reassembler)
    → IsBelow cap r
    → IsBelow cap (emit envelope o r).1
unfolding emit
emit-IsBelow cap none r h = h
emit-IsBelow cap (some (k, q)) r h = record {
  capped = h.capped;
  below = λ s p e. ground (arith, h.below s p, lookup-remove k s r.streams);
}

step-IsBelow : (cap : ℕ) (e : Event) (r : Reassembler) → IsBelow cap r → IsBelow cap (step e r).1
step-IsBelow cap (line now l) r h = elim (Parsed-cases (parse l)) [
  | inl (f, e) ↦ rw (step-fragment now l r f e) (accept-IsBelow cap now f r h)
  | inr (x, e) ↦ rw (step-malformed now l r x e) h
]
step-IsBelow cap (tick now) r h = unfold step expire in emit-IsBelow cap _ r h
step-IsBelow cap flush r h = unfold step drain in emit-IsBelow cap _ r h

after-IsBelow :
    (cap : ℕ) (es : List Event) (r : Reassembler) → IsBelow cap r → IsBelow cap (after es r)
unfolding after
after-IsBelow cap [] r h = h
after-IsBelow cap (e ∷ es) r h = after-IsBelow cap es (step e r).1 (step-IsBelow cap e r h)

-- After any history, every message that is held is below the configured cap, or the cap of one byte.
pub held_capped :
    (max_bytes timeout : ℕ) (es : List Event)
    → IsBelow (max max_bytes 1) (after es (new max_bytes timeout))
held_capped max_bytes timeout es =
    after-IsBelow (max max_bytes 1) es (new max_bytes timeout)
      (unfold new lookup in record { capped = refl; below = λ s p e. ground arith })
