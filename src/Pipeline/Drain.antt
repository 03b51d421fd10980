-- ===== src/Pipeline/Drain.antt =====
-- `drain_queue` of crates/tributary/src/main.rs.
use tributary.Prelude.{
  ℕ, zero, suc, ◌∷◌, Bool, true, false, List, [], Option, none, some, Text, if◌then◌else◌, ◌==◌,
  lookup, text_has_eq, length, drop,
}
use tributary.Checkpoint.{FileMark}
use tributary.Queue.{
  Disk, Queue, Outcome, Spooled, accepted, no_room, broken, push_forced, pop, front,
}
use tributary.Ship.{Batch, sent, failed, Shipper, send_lines}
use tributary.Stamp.{Stamper}
use tributary.Pipeline.{
  System, Agent, Run, ok, err, stuck, disk_error, unreadable, unremoved, with_queue, quarantine,
}
use tributary.Pipeline.Save.{save_checkpoint}

-- `split_inclusive('\n')`.
abbrev pub glue : ℕ → List Text → List Text
glue c [] = (c ∷ []) ∷ []
glue c (l ∷ ls) = (c ∷ l) ∷ ls

unfoldable pub split_inclusive : Text → List Text
split_inclusive [] = []
split_inclusive (c ∷ s) =
    let rest = split_inclusive s in if c == b'\n' then (c ∷ []) ∷ rest else glue c rest

-- Where a loop stops: it went through, with the flag `drained`; the database refused, and the step is
-- over; or it failed.
pub data Loop {ℓ} (World : Type ℓ) : Type ℓ where
  through : Bool → Agent World → Loop World
  over : Run World → Loop World

module _ {ℓ} {World : Type ℓ} where
  abbrev pub release : Agent World → Agent World
  release a = record a { pipe = record a.pipe { held = drop 1 a.pipe.held } }

  abbrev pub go_on : Run World → (Agent World → Loop World) → Loop World
  go_on (ok a) f = f a
  go_on (err c a) f = over (err c a)
  go_on stuck f = over stuck

  abbrev pub popped : Agent World → Outcome × Queue × Disk → Run World
  popped a (Outcome.done, q, disk) = ok (with_queue q disk a)
  popped a (Outcome.failed e, q, disk) = err unremoved (with_queue q disk a)

module _ {ℓ} {World : Type ℓ} (sys : System World) (fuel : ℕ) where
  -- One batch sent: its poison lines are recorded, then `f` goes on.
  unfoldable pub shipped :
      Agent World → Option (Batch × Shipper × World) → (Agent World → Loop World) → Loop World
  unfolding quarantine
  shipped a none f = over stuck
  shipped a (some (sent poison, s, w)) f =
      go_on
        (quarantine sys fuel poison (record a { pipe = record a.pipe { shipper = s }; world = w }))
        f
  shipped a (some (failed e, s, w)) f =
      over (ok (record a { pipe = record a.pipe { shipper = s }; world = w }))

  unfoldable pub ship_body : Text → Agent World → (Agent World → Loop World) → Loop World
  unfolding split_inclusive shipped
  ship_body body a f =
      shipped a (send_lines sys.post sys.gzip fuel (split_inclusive body) a.pipe.shipper a.world) f

  -- The held batches, oldest first: onto the disk if it has room again, else to the database.
  unfoldable pub land :
      Text
      → Agent World
      → Spooled × Queue × Disk
      → (Agent World → Loop World)
      → (Agent World → Loop World)
      → Loop World
  unfolding ship_body
  land body a (accepted, q, disk) spooled sent_on = spooled (release (with_queue q disk a))
  land body a (no_room, q, disk) spooled sent_on =
      ship_body body (with_queue q disk a) (λ b. sent_on (release b))
  land body a (broken e, q, disk) spooled sent_on = over (err (disk_error e) (with_queue q disk a))

  unfoldable pub drain_held : List Text → Bool → Agent World → Loop World
  unfolding land
  drain_held [] drained a = through drained a
  drain_held (body ∷ held) drained a =
      let (io, w) = sys.spool_io a.world in
      land body (record a { world = w }) (push_forced io body a.pipe.queue a.disk)
        (drain_held held drained) (drain_held held true)

  -- The front segment: read, shipped and removed.
  abbrev pub read_segment : Bool → Option Text → Option Text
  read_segment true body = body
  read_segment false body = none

  abbrev pub retire_segment : Text → Agent World → Run World
  retire_segment path a =
      let (outcome, w) = sys.unlink a.world in
      popped (record a { world = w }) (pop outcome path a.pipe.queue a.disk)

  unfoldable pub drain_segment : Text → Agent World → (Agent World → Loop World) → Loop World
  unfolding ship_body
  drain_segment path a f =
      let (readable, w) = sys.readable a.world in
      elim (read_segment readable (lookup path a.disk)) [
        | none ↦ over (err unreadable (record a { world = w }))
        | some body ↦ ship_body body (record a { world = w }) (λ b. go_on (retire_segment path b) f)
      ]

  -- Each turn removes a segment, so that as many turns as there are segments are enough.
  unfoldable pub drain_segments : ℕ → Bool → Agent World → Loop World
  unfolding drain_segment front
  drain_segments zero drained a = through drained a
  drain_segments (suc n) drained a = elim (front a.pipe.queue) [
    | none ↦ through drained a
    | some path ↦ drain_segment path a (drain_segments n true)
  ]

module _ {ℓ} {World : Type ℓ} (sys : System World) (fuel : ℕ) (marks : List FileMark)
    (stamper : Stamper) where
  unfoldable pub after_segments : Loop World → Run World
  unfolding save_checkpoint
  after_segments (through drained a) =
      if drained then save_checkpoint sys fuel marks stamper a else ok a
  after_segments (over r) = r

  unfoldable pub after_held : Loop World → Run World
  unfolding drain_segments after_segments
  after_held (through drained a) =
      after_segments (drain_segments sys fuel (length a.pipe.queue.segments) drained a)
  after_held (over r) = r

  unfoldable pub drain_queue : Agent World → Run World
  unfolding drain_held after_held
  drain_queue a = after_held (drain_held sys fuel a.pipe.held false a)
