-- ===== src/Multiline/Bounds.antt =====
-- crates/tributary/src/multiline.rs: the lines and bytes buffered.
use tributary.Prelude.{
  ℕ, ◌+◌, ◌≤◌, ◌<◌, ◌≡◌, refl, Bool, List, [], ◌∷◌, ◌++◌, Option, none, some, Text, arith, inl, inr,
  Option-cases, ◌⊎◌, length, length-append,
}
use tributary.Multiline.{
  Joiner, new, take_record, buffer, cut, over_bounds, append_line, push_with, expire,
}
use tributary.Multiline.Joined.{Event, line, tick, step, push-none, push-some}

-- The lines' bytes, each with its newline.
abbrev pub size : List Text → ℕ
size [] = 0
size (l ∷ ls) = length l + 1 + size ls

size-append : (xs ys : List Text) → size (xs ++ ys) ≡ size xs + size ys
size-append [] ys = omega arith
size-append (x ∷ xs) ys = omega (arith, size-append xs ys)

-- The bytes are those of the buffer; a buffer of several lines is below both bounds.
pub record IsWithin (j : Joiner) : Type 0 where
  pub counted : j.bytes ≡ size j.buf
  pub few : (length j.buf < j.max_lines) ⊎ (length j.buf ≤ 1)
  pub small : (size j.buf < j.max_bytes) ⊎ (length j.buf ≤ 1)

append_line-IsWithin :
    (now : ℕ) (l : Text) (closed : Option Text) (j : Joiner)
    → j.bytes ≡ size j.buf
    → IsWithin (append_line now l closed j).1
unfolding append_line cut take_record buffer over_bounds
append_line-IsWithin now l closed j e =
    ground (arith, size-append j.buf (l ∷ []), length-append j.buf (l ∷ []))

push_with-IsWithin :
    (m : Text → Bool) (now : ℕ) (l : Text) (j : Joiner)
    → IsWithin j
    → IsWithin (push_with m now l j).1
unfolding push_with
push_with-IsWithin m now l j h = ground (
  arith,
  append_line-IsWithin now l none j h.counted,
  append_line-IsWithin now l (some (take_record j).0) (take_record j).1
      (unfold take_record in refl),
)

step-IsWithin : (e : Event) (j : Joiner) → IsWithin j → IsWithin (step e j).1
unfolding step
step-IsWithin (line now l) j h = elim (Option-cases j.start) [
  | inl e ↦ rw (push-none now l j e) h
  | inr (m, e) ↦ rw (push-some m now l j e) (push_with-IsWithin m now l j h)
]
step-IsWithin (tick now) j h = unfold expire take_record in ground arith

unfoldable pub after : List Event → Joiner → Joiner
after [] j = j
after (e ∷ es) j = after es (step e j).1

after-IsWithin : (es : List Event) (j : Joiner) → IsWithin j → IsWithin (after es j)
unfolding after
after-IsWithin [] j h = h
after-IsWithin (e ∷ es) j h = after-IsWithin es (step e j).1 (step-IsWithin e j h)

-- After any history the buffer's byte count is exact, and a buffer of two lines or more is below the
-- joiner's line cap and below its byte cap.
pub after_bounds :
    (start : Option (Text → Bool)) (max_lines max_bytes timeout : ℕ) (es : List Event)
    → IsWithin (after es (new start max_lines max_bytes timeout))
after_bounds start max_lines max_bytes timeout es =
    after-IsWithin es (new start max_lines max_bytes timeout)
      (unfold new in record { counted = refl; few = inr (omega arith); small = inr (omega arith) })
