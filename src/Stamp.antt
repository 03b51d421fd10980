-- ===== src/Stamp.antt =====
-- crates/tributary/src/stamp.rs: the assignment of nanosecond timestamps, one `Stamper` for a
-- stream. Timestamps are `i64`; the sums that could leave the range wrap. The `HashMap` `next` is
-- an association list and the `VecDeque` `order` a list, oldest first.
pub mod Window
pub mod Unique
pub mod Tracked
pub mod Extends
pub mod Resume
pub mod Reissue
mod Examples
use tributary.Prelude.{
  ℕ, ◌+◌, ◌≡◌, List, [], ◌∷◌, ◌++◌, Option, none, some, Bool, Text, codes, text_eq, ltb, ◌==◌,
  if◌then◌else◌, length, last?, lookup, insert, remove, ◌||◌,
}
use tributary.Prelude.Int.{ℤ, pos, ◌+ℤ◌, ltb_ℤ, leb_ℤ, i64_add, i64_sub, rem_euclid, int_has_eq}

pub data Resolution : Type 0 where
  seconds millis micros nanos : Resolution

unfoldable pub tick_of : Resolution → ℕ
tick_of seconds = 1_000_000_000
tick_of millis = 1_000_000
tick_of micros = 1_000
tick_of nanos = 1

-- `Resolution::parse`.
unfoldable pub parse_resolution : Text → Option Resolution
parse_resolution s =
    if text_eq s (codes "s") || text_eq s (codes "sec") || text_eq s (codes "seconds")
    then some seconds
    else if text_eq s (codes "ms") || text_eq s (codes "millis") || text_eq s (codes "milliseconds")
    then some millis
    else if text_eq s (codes "us") || text_eq s (codes "micros") || text_eq s (codes "microseconds")
    then some micros
    else if text_eq s (codes "ns") || text_eq s (codes "nanos") || text_eq s (codes "nanoseconds")
    then some nanos
    else none

abbrev pub window : ℕ
window = 64

-- `StampError::Exhausted`, with the tick's width and the source timestamp.
pub data StampError : Type 0 where
  exhausted : ℕ → ℤ → StampError

pub data Stamped : Type 0 where
  ok : ℤ → Stamped
  err : StampError → Stamped

pub record Stamper : Type 0 where
  pub tick_ns : ℕ
  pub next : List (ℤ × ℤ)
  pub order : List ℤ
  pub out_of_window : ℕ

unfoldable pub new : Resolution → Stamper
unfolding tick_of
new r = record { tick_ns = tick_of r; next = []; order = []; out_of_window = 0 }

-- The start of the tick that holds a source timestamp.
unfoldable pub tick_start : ℕ → ℤ → ℤ
tick_start tick_ns source = i64_sub source (pos (rem_euclid source tick_ns))

-- The eviction loop: `while order.len() > WINDOW`.
unfoldable pub evict : List ℤ → List (ℤ × ℤ) → List ℤ × List (ℤ × ℤ)
evict [] next = ([], next)
evict (oldest ∷ order) next =
    let rest = evict order (remove oldest next) in
    if ltb window (length (oldest ∷ order)) then rest else (oldest ∷ order, next)

-- Whether a tick lies before the oldest that is remembered.
unfoldable pub before_oldest : ℤ → List ℤ → Bool
before_oldest tick [] = Bool.false
before_oldest tick (oldest ∷ _) = ltb_ℤ tick oldest

-- The branch for a tick that has no counter.
unfoldable pub admit : Stamper → ℤ → Stamper
unfolding evict before_oldest
admit s tick =
    let (order, next) = evict (s.order ++ tick ∷ []) (insert tick (pos 1) s.next) in
    record s {
      next = next;
      order = order;
      out_of_window = if before_oldest tick s.order then s.out_of_window + 1 else s.out_of_window;
    }

-- The branch for a tick whose next free slot is `seq`. The sum `seq + 1` is at most `tick_ns`.
unfoldable pub take_slot : Stamper → ℤ → ℤ → ℤ → Stamped × Stamper
take_slot s source tick seq =
    if leb_ℤ (pos s.tick_ns) seq
    then (err (exhausted s.tick_ns source), s)
    else (ok (i64_add tick seq), record s { next = insert tick (seq +ℤ pos 1) s.next })

unfoldable pub stamp : Stamper → ℤ → Stamped × Stamper
unfolding tick_start admit take_slot
stamp s source =
    if s.tick_ns == 1
    then (ok source, s)
    else let tick = tick_start s.tick_ns source in
      elim (lookup tick s.next) [
        | some seq ↦ take_slot s source tick seq
        | none ↦ (ok (i64_add tick (pos 0)), admit s tick)
      ]

unfoldable pub restore : Stamper → ℤ → ℤ → Stamper
restore s tick next_seq =
    if s.tick_ns == 1
    then s
    else record s { next = insert tick next_seq s.next; order = s.order ++ tick ∷ [] }

-- What a checkpoint carries: the newest tick and its next free slot.
unfoldable pub checkpoint : Stamper → Option (ℤ × ℤ)
checkpoint s = elim (last? s.order) [
  | none ↦ none
  | some tick ↦ elim (lookup tick s.next) [ none ↦ none | some seq ↦ some (tick, seq) ]
]

-- A stream of lines: the stamps given, and the stamper after them. A line whose tick is full is
-- quarantined and has no stamp.
unfoldable pub stamps : Stamper → List ℤ → List ℤ
stamps s [] = []
stamps s (x ∷ xs) =
    let (r, s') = stamp s x in let rest = stamps s' xs in elim r [ ok t ↦ t ∷ rest | err _ ↦ rest ]

unfoldable pub after : Stamper → List ℤ → Stamper
after s [] = s
after s (x ∷ xs) = after (stamp s x).1 xs
