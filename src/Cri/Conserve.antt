-- ===== src/Cri/Conserve.antt =====
-- crates/tributary/src/cri.rs: the messages of one stream, followed through every call.
use tributary.Prelude.{
  ℕ, ◌≡◌, refl, sym, ap, ◌∙◌, Bool, true, false, not, ◌||◌, List, [], ◌∷◌, ◌++◌, append-nil,
  append_assoc, Option, none, some, Text, arith, leb, if◌then◌else◌, length, lookup, insert, remove,
  lookup-insert, lookup-remove, text_eq, text_eq_iff, text_has_eq, Bool-cases, ◌⊎◌, inl, inr, subst,
}
use tributary.Cri.{
  Pending, Reassembler, new, Fragment, fragment, malformed, Parsed, parse, CriError, extended,
  accept, push, find_expired, emit, expire, drain,
}
use tributary.Cri.History.{
  Event, Envelope, envelope, line, tick, flush, step, with_out, emitted, after, log_of, pending,
  logs, message, came, fed, IsKeyed, insert-IsKeyed, remove-IsKeyed, find_expired-found,
  logs-with_out,
}

-- What a call emits for the stream, followed by what it keeps, is what was kept before and what came.
abbrev Keeps : Text → Text → Reassembler → Option Envelope × Reassembler → Type 0
Keeps s came r (o, r') =
    logs s (with_out o []) ++ pending s r'.streams ≡ pending s r.streams ++ came

log-extended :
    (now : ℕ) (f : Fragment) (o : Option Pending) → (extended now f o).log ≡ log_of o ++ f.msg
unfolding extended
log-extended now f none = refl
log-extended now f (some p) = refl

-- The two branches of `accept`, for any log that is the held one and the message.
module _ (s k log msg : Text) (m : List (Text × Pending))
    (whole : log ≡ log_of (lookup k m) ++ msg) where
  at_same : text_eq k s ≡ true → log ≡ pending s m ++ msg
  at_same same = subst (λ k. log ≡ log_of (lookup k m) ++ msg) ((text_eq_iff k s).0 same) whole

  removed-Keeps :
      (if text_eq k s then log ++ [] else []) ++ pending s (remove k m)
      ≡ pending s m ++ (if text_eq k s then msg else [])
  removed-Keeps = elim (Bool-cases (text_eq k s)) [
    | inl same ↦
        let gone : lookup s (remove k m) ≡ none = lookup-remove k s m ∙ rw same refl in
        rw (same, gone) (append-nil (log ++ []) ∙ append-nil log ∙ at_same same)
    | inr other ↦
        let kept : lookup s (remove k m) ≡ lookup s m = lookup-remove k s m ∙ rw other refl in
        rw (other, kept) (sym (append-nil (pending s m)))
  ]

  inserted-Keeps :
      (p : Pending)
      → p.log ≡ log
      → pending s (insert k p m) ≡ pending s m ++ (if text_eq k s then msg else [])
  inserted-Keeps p e = elim (Bool-cases (text_eq k s)) [
    | inl same ↦
        let there : lookup s (insert k p m) ≡ some p = lookup-insert k s p m ∙ rw same refl in
        rw (same, there) (e ∙ at_same same)
    | inr other ↦
        let kept : lookup s (insert k p m) ≡ lookup s m = lookup-insert k s p m ∙ rw other refl in
        rw (other, kept) (sym (append-nil (pending s m)))
  ]

module _ (now : ℕ) (f : Fragment) (r : Reassembler) where
  abbrev grown : Pending
  grown = extended now f (lookup f.stream r.streams)

  abbrev closes : Bool
  closes = not f.partial || leb r.max_bytes (length grown.log)

  accept-closes :
      closes ≡ true
      → ((accept envelope now f r).0 ≡ some (grown.log, f.stream, grown.time))
        × ((accept envelope now f r).1.streams ≡ remove f.stream r.streams)
  unfolding accept
  accept-closes h = (ground (arith, h), ground (arith, h))

  accept-holds :
      closes ≡ false
      → ((accept envelope now f r).0 ≡ none)
        × ((accept envelope now f r).1.streams ≡ insert f.stream grown r.streams)
  unfolding accept
  accept-holds h = (ground (arith, h), ground (arith, h))

  accept-Keeps : (s : Text) → Keeps s (message s (fragment f)) r (accept envelope now f r)
  accept-Keeps s =
      let whole = log-extended now f (lookup f.stream r.streams) in
      elim (Bool-cases closes) [
        | inl shut ↦
            let (out, streams) = accept-closes shut in
            ap (λ o. logs s (with_out o []) ++ pending s (accept envelope now f r).1.streams) out
            ∙ ap (λ m. logs s ((grown.log, f.stream, grown.time) ∷ []) ++ pending s m) streams
            ∙ removed-Keeps s f.stream grown.log f.msg r.streams whole
        | inr open_still ↦
            let (out, streams) = accept-holds open_still in
            ap (λ o. logs s (with_out o []) ++ pending s (accept envelope now f r).1.streams) out
            ∙ ap (pending s) streams
            ∙ inserted-Keeps s f.stream grown.log f.msg r.streams whole grown refl
      ]

pub Parsed-cases :
    (p : Parsed) → ((f : Fragment) × (p ≡ fragment f)) ⊎ ((e : CriError) × (p ≡ malformed e))
Parsed-cases (fragment f) = inl (f, refl)
Parsed-cases (malformed e) = inr (e, refl)

module _ (now : ℕ) (l : Text) (r : Reassembler) where
  pub step-fragment :
      (f : Fragment) → parse l ≡ fragment f → step (line now l) r ≡ accept envelope now f r
  unfolding step push
  step-fragment f e = rw (e, push) refl

  pub step-malformed : (e : CriError) → parse l ≡ malformed e → step (line now l) r ≡ (none, r)
  unfolding step push
  step-malformed e h = rw (h, push) refl

nothing-either : (b : Bool) → if◌then◌else◌ {A = Text} b [] [] ≡ []
nothing-either true = refl
nothing-either false = refl

-- Retiring an entry of the map emits what was held for its stream.
module _ (r : Reassembler) (keyed : IsKeyed r.streams) where
  emit-Keeps :
      (s : Text) (o : Option (Text × Pending))
      → ((k : Text) (p : Pending) → o ≡ some (k, p) → lookup k r.streams ≡ some p)
      → Keeps s [] r (emit envelope o r)
  unfolding emit
  emit-Keeps s none found = sym (append-nil (pending s r.streams))
  emit-Keeps s (some (k, p)) found =
      let whole : p.log ≡ log_of (lookup k r.streams) ++ [] =
        sym (append-nil p.log) ∙ ap (λ o. log_of o ++ []) (sym (found k p refl)) in
      removed-Keeps s k p.log [] r.streams whole
      ∙ ap (λ t. pending s r.streams ++ t) (nothing-either (text_eq k s))

  emit-IsKeyed : (o : Option (Text × Pending)) → IsKeyed (emit envelope o r).1.streams
  unfolding emit
  emit-IsKeyed none = keyed
  emit-IsKeyed (some (k, p)) = remove-IsKeyed k r.streams keyed

head-found :
    (m : List (Text × Pending)) (k : Text) (p : Pending)
    → elim m [ [] ↦ none | q ∷ qs ↦ some q ] ≡ some (k, p)
    → lookup k m ≡ some p
unfolding lookup
head-found [] k p e = ground arith
head-found ((j, q) ∷ m) k p e = ground (arith, text_eq_iff j k)

step-Keeps :
    (e : Event) (r : Reassembler) (s : Text) → IsKeyed r.streams → Keeps s (came s e) r (step e r)
step-Keeps (line now l) r s h = elim (Parsed-cases (parse l)) [
  | inl (f, e) ↦ rw (e, step-fragment now l r f e) (accept-Keeps now f r s)
  | inr (x, e) ↦ rw (e, step-malformed now l r x e) (sym (append-nil (pending s r.streams)))
]
step-Keeps (tick now) r s h =
    unfold step expire in
    emit-Keeps r h s (find_expired envelope now r.timeout r.streams)
      (λ k p e. find_expired-found now r.timeout r.streams k p h e)
step-Keeps flush r s h = unfold step drain in emit-Keeps r h s _ (head-found r.streams)

accept-IsKeyed :
    (now : ℕ) (f : Fragment) (r : Reassembler)
    → IsKeyed r.streams
    → IsKeyed (accept envelope now f r).1.streams
accept-IsKeyed now f r h = elim (Bool-cases (closes now f r)) [
  | inl shut ↦
      subst IsKeyed (sym (accept-closes now f r shut).1) (remove-IsKeyed f.stream r.streams h)
  | inr open_still ↦
      subst IsKeyed (sym (accept-holds now f r open_still).1)
        (insert-IsKeyed f.stream (grown now f r) r.streams h)
]

step-IsKeyed : (e : Event) (r : Reassembler) → IsKeyed r.streams → IsKeyed (step e r).1.streams
step-IsKeyed (line now l) r h = elim (Parsed-cases (parse l)) [
  | inl (f, e) ↦ rw (step-fragment now l r f e) (accept-IsKeyed now f r h)
  | inr (x, e) ↦ rw (step-malformed now l r x e) h
]
step-IsKeyed (tick now) r h = unfold step expire in emit-IsKeyed r h _
step-IsKeyed flush r h = unfold step drain in emit-IsKeyed r h _

run-Keeps :
    (es : List Event) (r : Reassembler) (s : Text)
    → IsKeyed r.streams
    → logs s (emitted es r) ++ pending s (after es r).streams ≡ pending s r.streams ++ fed s es
unfolding emitted after
run-Keeps [] r s h = sym (append-nil (pending s r.streams))
run-Keeps (e ∷ es) r s h =
    let (o, r') = step e r in
    let rest = emitted es r' in
    let held = pending s (after es r').streams in
    let now_out = logs s (with_out o []) in
    ap (λ t. t ++ held) (logs-with_out s o rest)
    ∙ append_assoc now_out (logs s rest) held
    ∙ ap (λ t. now_out ++ t) (run-Keeps es r' s (step-IsKeyed e r h))
    ∙ sym (append_assoc now_out (pending s r'.streams) (fed s es))
    ∙ ap (λ t. t ++ fed s es) (step-Keeps e r s h)
    ∙ append_assoc (pending s r.streams) (came s e) (fed s es)

-- For any history and any stream, the logs emitted for the stream and then what is held for it are
-- the messages that came for it, in their order, whatever came for the other streams, was cut at the
-- cap, expired or was drained.
pub emitted-fed :
    (max_bytes timeout : ℕ) (es : List Event) (s : Text)
    → logs s (emitted es (new max_bytes timeout))
        ++ pending s (after es (new max_bytes timeout)).streams
      ≡ fed s es
unfolding new lookup
emitted-fed max_bytes timeout es s = run-Keeps es (new max_bytes timeout) s tt
