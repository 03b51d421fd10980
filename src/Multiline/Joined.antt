-- ===== src/Multiline/Joined.antt =====
-- crates/tributary/src/multiline.rs: the lines pushed and the records emitted.
use tributary.Prelude.{
  ℕ, ◌≡◌, refl, sym, ap, ◌∙◌, Bool, true, false, List, [], ◌∷◌, ◌++◌, append-nil, append_assoc,
  Option, none, some, Text, arith, Bool-cases, inl, inr, Option-cases,
}
use tributary.Multiline.{
  Joiner, new, is_empty, join, take_record, buffer, cut, over_bounds, append_line, push_with,
  push_by, push, expire, drain, elapsed,
}

join_cons : (l : Text) (m : Text) (ls : List Text) → join (l ∷ m ∷ ls) ≡ l ++ b'\n' ∷ join (m ∷ ls)
unfolding join
join_cons l m ls = refl

-- A joined record in a list of records reads as its lines.
join-inner :
    (buf rest : List Text) (l : Text) → join (join (l ∷ buf) ∷ rest) ≡ join (l ∷ (buf ++ rest))
unfolding join
join-inner [] rest l = refl
join-inner (m ∷ buf) [] l = ap (λ r. join (l ∷ m ∷ r)) (sym (append-nil buf))
join-inner (m ∷ buf) (r ∷ rest) l =
    append_assoc l (b'\n' ∷ join (m ∷ buf)) (b'\n' ∷ join (r ∷ rest))
    ∙ ap (λ t. l ++ b'\n' ∷ t) (join-inner buf (r ∷ rest) m)

join-collapse :
    (out : List Text) (l : Text) (buf rest : List Text)
    → join (out ++ join (l ∷ buf) ∷ rest) ≡ join (out ++ l ∷ (buf ++ rest))
join-collapse [] l buf rest = join-inner buf rest l
join-collapse (o ∷ []) l buf rest =
    join_cons o (join (l ∷ buf)) rest
    ∙ ap (λ t. o ++ b'\n' ∷ t) (join-inner buf rest l)
    ∙ sym (join_cons o l (buf ++ rest))
join-collapse (o ∷ p ∷ out) l buf rest =
    join_cons o p (out ++ join (l ∷ buf) ∷ rest)
    ∙ ap (λ t. o ++ b'\n' ∷ t) (join-collapse (p ∷ out) l buf rest)
    ∙ sym (join_cons o p (out ++ l ∷ (buf ++ rest)))

abbrev pub emitted : Option Text → List Text
emitted none = []
emitted (some r) = r ∷ []

-- What a call emits, followed by what it keeps, reads as what was kept before and the new lines.
abbrev Reads : List Text → List Text → Option Text × Joiner → Type 0
Reads buf new_lines (o, j) =
    (out rest : List Text)
    → join (out ++ ((emitted o ++ j.buf) ++ rest)) ≡ join (out ++ ((buf ++ new_lines) ++ rest))

cut-Reads :
    (now : ℕ) (buf : List Text) (line : Text) (j : Joiner)
    → j.buf ≡ buf ++ line ∷ []
    → Reads buf (line ∷ []) (cut now none j)
unfolding cut take_record
cut-Reads now [] line j e out rest = rw e (join-collapse out line [] rest)
cut-Reads now (l ∷ buf) line j e out rest = rw e (join-collapse out l (buf ++ line ∷ []) rest)

-- With a closed record in hand the buffer holds the new line alone.
append_done-Reads :
    (now : ℕ) (l : Text) (buf : List Text) (line : Text) (j : Joiner)
    → j.buf ≡ []
    → Reads (l ∷ buf) (line ∷ []) (append_line now line (some (join (l ∷ buf))) j)
append_done-Reads now l buf line j e out rest =
    let k = buffer now line j in
    let alone : k.buf ≡ line ∷ [] = unfold buffer in rw e in
    let read =
      join-collapse out l buf (line ∷ rest)
      ∙ ap (λ ls. join (out ++ l ∷ ls)) (sym (append_assoc buf (line ∷ []) rest)) in
    elim (Bool-cases (over_bounds k)) [
      | inl over ↦ unfold append_line take_record cut in rw (over, alone) (unfold join in read)
      | inr within ↦ unfold append_line in rw (within, alone) read
    ]

append-Reads :
    (now : ℕ) (line : Text) (j : Joiner) → Reads j.buf (line ∷ []) (append_line now line none j)
append-Reads now line j out rest =
    let k = buffer now line j in
    elim (Bool-cases (over_bounds k)) [
      | inl over ↦
          unfold append_line in
          rw over (cut-Reads now j.buf line k (unfold buffer in refl) out rest)
      | inr within ↦ unfold append_line in rw within refl
    ]

push_with-Reads :
    (is_match : Text → Bool) (now : ℕ) (line : Text) (j : Joiner)
    → Reads j.buf (line ∷ []) (push_with is_match now line j)
push_with-Reads is_match now line j out rest = elim (Bool-cases (is_match line)) [
  | inl starts ↦ starts_new (j.buf) refl starts
  | inr goes_on ↦ unfold push_with in rw goes_on (append-Reads now line j out rest)
]
  where
    starts_new :
        (buf : List Text)
        → j.buf ≡ buf
        → is_match line ≡ true
        → join (
            out
            ++ ((emitted (push_with is_match now line j).0 ++ (push_with is_match now line j).1.buf)
                ++ rest))
          ≡ join (out ++ ((j.buf ++ line ∷ []) ++ rest))
    starts_new [] e starts =
        unfold push_with in rw (starts, ap is_empty e) (append-Reads now line j out rest)
    starts_new (l ∷ buf) e starts =
        unfold push_with take_record in
        rw (starts, ap is_empty e, e)
          (append_done-Reads now l buf line (record j { buf = []; bytes = 0; since = none }) refl
            out rest)

-- Joining that is off keeps nothing back.
pub record IsIdle (j : Joiner) : Type 0 where
  pub off : j.start ≡ none → j.buf ≡ []

pub push-none :
    (now : ℕ) (line : Text) (j : Joiner) → j.start ≡ none → push now line j ≡ (some line, j)
unfolding push
push-none now line j e = ap (λ s. push_by s now line j) e

pub push-some :
    (m : Text → Bool) (now : ℕ) (line : Text) (j : Joiner)
    → j.start ≡ some m
    → push now line j ≡ push_with m now line j
unfolding push
push-some m now line j e = ap (λ s. push_by s now line j) e

push-Reads :
    (now : ℕ) (line : Text) (j : Joiner) → IsIdle j → Reads j.buf (line ∷ []) (push now line j)
push-Reads now line j idle out rest = elim (Option-cases j.start) [
  | inl e ↦ rw (push-none now line j e, idle.off e)
  | inr (m, e) ↦ rw (push-some m now line j e) (push_with-Reads m now line j out rest)
]

take-Reads :
    (out buf rest : List Text)
    → is_empty buf ≡ false
    → join (out ++ join buf ∷ rest) ≡ join (out ++ (buf ++ rest))
take-Reads out [] rest e = cc
take-Reads out (l ∷ buf) rest e = join-collapse out l buf rest

expire-Reads : (now : ℕ) (j : Joiner) → Reads j.buf [] (expire now j)
expire-Reads now j out rest = elim (Option-cases j.since) [
  | inl e ↦ unfold expire in rw (e, append-nil j.buf)
  | inr (since, e) ↦ elim (Bool-cases (elapsed now since j)) [
    | inl late ↦
        unfold expire take_record in
        rw (e, late, append-nil j.buf) (take-Reads out j.buf rest (ground (arith, late)))
    | inr early ↦ unfold expire in rw (e, early, append-nil j.buf)
  ]
]

drain-Reads : (j : Joiner) → Reads j.buf [] (drain j)
drain-Reads j out rest = elim (Bool-cases (is_empty j.buf)) [
  | inl e ↦ unfold drain in rw (e, append-nil j.buf)
  | inr e ↦ unfold drain take_record in rw (e, append-nil j.buf) (take-Reads out j.buf rest e)
]

pub data Event : Type 0 where
  line : ℕ → Text → Event
  tick : ℕ → Event

unfoldable pub lines_of : List Event → List Text
lines_of [] = []
lines_of (line now l ∷ es) = l ∷ lines_of es
lines_of (tick now ∷ es) = lines_of es

unfoldable pub step : Event → Joiner → Option Text × Joiner
step (line now l) j = push now l j
step (tick now) j = expire now j

-- The records emitted over a history and by the drain at its end.
unfoldable pub records : List Event → Joiner → List Text
unfolding step
records [] j = emitted (drain j).0
records (e ∷ es) j = emitted (step e j).0 ++ records es (step e j).1

append_line-start :
    (now : ℕ) (l : Text) (closed : Option Text) (j : Joiner)
    → (append_line now l closed j).1.start ≡ j.start
unfolding append_line cut buffer take_record
append_line-start now l closed j = ground arith

step-IsIdle : (e : Event) (j : Joiner) → IsIdle j → IsIdle (step e j).1
unfolding step
step-IsIdle (line now l) j idle = elim (Option-cases j.start) [
  | inl e ↦ rw (push-none now l j e) idle
  | inr (m, e) ↦ rw (push-some m now l j e) (record {
    off = λ off.
        unfold push_with take_record in
        ground (
          arith,
          append_line-start now l (some (take_record j).0) (take_record j).1,
          append_line-start now l none j,
        );
  })
]
step-IsIdle (tick now) j idle = record {
  off = λ off. unfold expire take_record in ground (arith, idle.off);
}

step-Reads : (e : Event) (j : Joiner) → IsIdle j → Reads j.buf (lines_of (e ∷ [])) (step e j)
unfolding step lines_of
step-Reads (line now l) j idle = push-Reads now l j idle
step-Reads (tick now) j idle = expire-Reads now j

lines_of-cons : (e : Event) (es : List Event) → lines_of (e ∷ es) ≡ lines_of (e ∷ []) ++ lines_of es
unfolding lines_of
lines_of-cons (line now l) es = refl
lines_of-cons (tick now) es = refl

empty_nil : (buf : List Text) → is_empty buf ≡ true → buf ≡ []
empty_nil [] e = refl
empty_nil (l ∷ buf) e = cc

drain_empties : (j : Joiner) → (drain j).1.buf ≡ []
drain_empties j = elim (Bool-cases (is_empty j.buf)) [
  | inl e ↦ unfold drain in rw e (empty_nil j.buf e)
  | inr e ↦ unfold drain take_record in rw e
]

join_step :
    (out o buf buf' more new_lines later : List Text)
    → join ((out ++ o) ++ more) ≡ join ((out ++ o) ++ (buf' ++ later))
    → join (out ++ ((o ++ buf') ++ later)) ≡ join (out ++ ((buf ++ new_lines) ++ later))
    → join (out ++ (o ++ more)) ≡ join (out ++ (buf ++ (new_lines ++ later)))
join_step out o buf buf' more new_lines later h k =
    ap join (sym (append_assoc out o more))
    ∙ h
    ∙ ap join (
        append_assoc out o (buf' ++ later) ∙ ap (λ ls. out ++ ls) (sym (append_assoc o buf' later)))
    ∙ k
    ∙ ap (λ ls. join (out ++ ls)) (append_assoc buf new_lines later)

records-Reads :
    (es : List Event) (j : Joiner) (out : List Text)
    → IsIdle j
    → join (out ++ records es j) ≡ join (out ++ (j.buf ++ lines_of es))
unfolding records step
records-Reads [] j out idle =
    let read = drain-Reads j out [] in
    unfold lines_of in rw (drain_empties j, append-nil, append-nil, append-nil) at read
records-Reads (e ∷ es) j out idle =
    let o = emitted (step e j).0 in
    let j₁ = (step e j).1 in
    let rest = records-Reads es j₁ (out ++ o) (step-IsIdle e j idle) in
    join_step out o j.buf j₁.buf (records es j₁) (lines_of (e ∷ [])) (lines_of es) rest
      (step-Reads e j idle out (lines_of es))
    ∙ ap (λ ls. join (out ++ (j.buf ++ ls))) (sym (lines_of-cons e es))

-- For any history of lines and timeouts, with whatever bounds, the records emitted and the drain's
-- read, joined, as the lines that were pushed.
pub records-join :
    (start : Option (Text → Bool)) (max_lines max_bytes timeout : ℕ) (es : List Event)
    → join (records es (new start max_lines max_bytes timeout)) ≡ join (lines_of es)
unfolding new
records-join start max_lines max_bytes timeout es =
    records-Reads es (new start max_lines max_bytes timeout) [] (record { off = λ e. refl })
