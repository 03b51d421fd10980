-- ===== src/Multiline.antt =====
-- crates/tributary/src/multiline.rs: lines joined into records. The regex is the library's: the
-- pattern of `starts_with` is the test that it makes, `none` where joining is off. The clock is an
-- argument, in milliseconds.
pub mod Joined
pub mod Bounds
mod Examples
use tributary.Prelude.{
  ℕ, ◌+◌, ◌-◌, Bool, true, false, not, ◌&&◌, ◌||◌, List, [], ◌∷◌, ◌++◌, Option, none, some, Text,
  leb, if◌then◌else◌, length, max, u64_add,
}

pub record Joiner : Type 0 where
  pub start : Option (Text → Bool)
  pub max_lines : ℕ
  pub max_bytes : ℕ
  pub timeout : ℕ
  pub buf : List Text
  pub bytes : ℕ
  pub since : Option ℕ
  pub truncated : ℕ

unfoldable pub new : Option (Text → Bool) → ℕ → ℕ → ℕ → Joiner
new start max_lines max_bytes timeout_ms = record {
  start = start;
  max_lines = max max_lines 1;
  max_bytes = max max_bytes 1;
  timeout = timeout_ms;
  buf = [];
  bytes = 0;
  since = none;
  truncated = 0;
}

abbrev pub is_empty {ℓ} : {A : Type ℓ} → List A → Bool
is_empty [] = true
is_empty (x ∷ xs) = false

unfoldable pub has_pending : Joiner → Bool
has_pending j = not (is_empty j.buf)

-- `buf.join("\n")`.
unfoldable pub join : List Text → Text
join [] = []
join (l ∷ []) = l
join (l ∷ m ∷ ls) = l ++ b'\n' ∷ join (m ∷ ls)

unfoldable pub take_record : Joiner → Text × Joiner
take_record j = (join j.buf, record j { buf = []; bytes = 0; since = none })

abbrev or_now : ℕ → Option ℕ → Option ℕ
or_now now none = some now
or_now now (some t) = some t

-- The line at the end of the buffer.
unfoldable pub buffer : ℕ → Text → Joiner → Joiner
buffer now line j = record j {
  buf = j.buf ++ line ∷ [];
  bytes = j.bytes + (length line + 1);
  since = or_now now j.since;
}

-- What is cut off at a bound: returned, or buffered again behind a record that was done already.
unfoldable pub cut : ℕ → Option Text → Joiner → Option Text × Joiner
unfolding take_record
cut now done j =
    let (forced, k) = take_record (record j { truncated = u64_add j.truncated 1 }) in
    elim done [
      | some d ↦
          (some d, record k { buf = forced ∷ []; bytes = length forced + 1; since = some now })
      | none ↦ (some forced, k)
    ]

unfoldable pub over_bounds : Joiner → Bool
over_bounds j = leb j.max_lines (length j.buf) || leb j.max_bytes j.bytes

-- The rest of `push`, once the record above may have been closed.
unfoldable pub append_line : ℕ → Text → Option Text → Joiner → Option Text × Joiner
unfolding buffer cut over_bounds
append_line now line done j =
    let k = buffer now line j in if over_bounds k then cut now done k else (done, k)

unfoldable pub push_with : (Text → Bool) → ℕ → Text → Joiner → Option Text × Joiner
unfolding append_line take_record
push_with is_match now line j =
    if is_match line && not (is_empty j.buf)
    then append_line now line (some (take_record j).0) (take_record j).1
    else append_line now line none j

-- With no pattern every line is a record.
unfoldable pub push_by : Option (Text → Bool) → ℕ → Text → Joiner → Option Text × Joiner
unfolding push_with
push_by none now line j = (some line, j)
push_by (some is_match) now line j = push_with is_match now line j

unfoldable pub push : ℕ → Text → Joiner → Option Text × Joiner
unfolding push_by
push now line j = push_by j.start now line j

abbrev pub elapsed : ℕ → ℕ → Joiner → Bool
elapsed now since j = not (is_empty j.buf) && leb j.timeout (now - since)

unfoldable pub expire : ℕ → Joiner → Option Text × Joiner
unfolding take_record
expire now j = elim j.since [
  | none ↦ (none, j)
  | some since ↦
      if elapsed now since j then (some (take_record j).0, (take_record j).1) else (none, j)
]

unfoldable pub drain : Joiner → Option Text × Joiner
unfolding take_record
drain j = if is_empty j.buf then (none, j) else (some (take_record j).0, (take_record j).1)
