-- ===== src/Pipeline.antt =====
-- crates/tributary/src/main.rs: the batches of one source between its reader and the database. Batches
-- in flight are tasks that finish in any order; one that cannot be shipped goes to the disk queue, and
-- one that the disk refuses is held in memory. What the network, the disk and the scheduler answer
-- comes from a `System`, whose state is the world. The task of a batch runs when it is joined.
pub mod Save
pub mod Drain
pub mod Pool
pub mod Quarantined
pub mod Queued
pub mod Reap
pub mod Settled
pub mod Saved
pub mod Flushed
pub mod Shipped
pub mod Held
pub mod Segments
pub mod Emptied
mod Examples
use tributary.Prelude.{
  ℕ, zero, suc, Bool, true, false, List, [], ◌∷◌, ◌++◌, Option, none, some, Text, codes, ◌==◌, ltb,
  if◌then◌else◌, length, u64_add,
}
use tributary.Prelude.Int.{ℤ, i64_min, eq_ℤ}
use tributary.Checkpoint
use tributary.Checkpoint.{Checkpoint}
use tributary.Queue.{
  Disk, IoError, Io, Outcome, Queue, Spooled, accepted, no_room, broken, push, push_forced,
}
use tributary.Ship.{Attempt, Encoded, Shipper, Batch, sent, failed, concat, send_lines}
use tributary.Watermark.{Watermark, advance}

pub data DropStage : Type 0 where
  filter sample : DropStage

-- Which of the tasks in flight finishes next, and whether it panicked.
pub record Joined : Type 0 where
  pub index : ℕ
  pub panicked : Bool

-- What happens to a write of a checkpoint; the error of a failed one, if it is one of the disk.
pub record Saving : Type 0 where
  pub io : Checkpoint.Io
  pub error : Option IoError

-- `append` leaves part of the text if it fails.
pub record System {ℓ} (World : Type ℓ) : Type ℓ where
  pub post : World → Text → Attempt × World
  pub gzip : Text → Encoded
  pub join : World → Joined × World
  pub spool_io : World → Io × World
  pub readable : World → Bool × World
  pub unlink : World → Outcome × World
  pub append : World → Option Text × World
  pub saving : World → Saving × World
  pub to_json : Checkpoint → Option Text
  pub debug : Text → Text

pub record Pipeline : Type 0 where
  pub shipper : Shipper
  pub inflight : List (List Text)
  pub max_inflight : ℕ
  pub read_ns : ℕ
  pub queue : Queue
  pub watermark : Watermark
  pub cp_path : Text
  pub dead_letter : Text
  pub quarantined : ℕ
  pub dropped_filter : ℕ
  pub dropped_sample : ℕ
  pub held : List Text

unfoldable pub count_drop : DropStage → Pipeline → Pipeline
count_drop filter p = record p { dropped_filter = u64_add p.dropped_filter 1 }
count_drop sample p = record p { dropped_sample = u64_add p.dropped_sample 1 }

-- A pipeline with the directory of its queue, that of its checkpoints, the contents of its dead-letter
-- file and the world.
pub record Agent {ℓ} (World : Type ℓ) : Type ℓ where
  pub pipe : Pipeline
  pub disk : Disk
  pub state_dir : Checkpoint.Directory
  pub dead_letters : Text
  pub world : World

-- Why a step fails.
pub data Cause : Type 0 where
  panic unlogged unreadable unremoved unsaved : Cause
  disk_error : IoError → Cause

-- The end of a step. `stuck` is the model's own, for a batch that is never answered.
pub data Run {ℓ} (World : Type ℓ) : Type ℓ where
  ok : Agent World → Run World
  err : Cause → Agent World → Run World
  stuck : Run World

-- The task that finishes next, and the others.
unfoldable pub pick {ℓ} : {A : Type ℓ} → ℕ → A → List A → A × List A
pick zero x xs = (x, xs)
pick (suc i) x [] = (x, [])
pick (suc i) x (y ∷ ys) = let (z, rest) = pick i y ys in (z, x ∷ rest)

module _ {ℓ} {World : Type ℓ} where
  -- The `?` operator.
  abbrev pub and_then : Run World → (Agent World → Run World) → Run World
  and_then (ok a) f = f a
  and_then (err c a) f = err c a
  and_then stuck f = stuck

  abbrev pub with_queue : Queue → Disk → Agent World → Agent World
  with_queue q disk a = record a { pipe = record a.pipe { queue = q }; disk = disk }

  abbrev pub hold : Text → Agent World → Agent World
  hold body a = record a { pipe = record a.pipe { held = a.pipe.held ++ body ∷ [] } }

  -- What a forced push comes to: a batch that the disk has no room for is held.
  unfoldable pub forced : Text → Agent World → Spooled × Queue × Disk → Run World
  forced body a (accepted, q, disk) = ok (with_queue q disk a)
  forced body a (no_room, q, disk) = ok (hold body (with_queue q disk a))
  forced body a (broken e, q, disk) = err (disk_error e) (with_queue q disk a)

module _ {ℓ} {World : Type ℓ} (sys : System World) (fuel : ℕ) where
  -- The end of a write to the dead-letter file.
  abbrev pub written : Text → ℕ → Agent World → Option Text × World → Run World
  written text n a (none, w) = ok (record a {
    pipe = record a.pipe { quarantined = u64_add a.pipe.quarantined n };
    dead_letters = a.dead_letters ++ text;
    world = w;
  })
  written text n a (some part, w) =
      err unlogged (record a { dead_letters = a.dead_letters ++ part; world = w })

  -- One record that cannot be shipped; the quotes of `{:?}` are the library's.
  unfoldable pub dead_letter : Text → Text → Agent World → Run World
  dead_letter line reason a =
      written
        (codes "{\"reason\":"
          ++ sys.debug reason
          ++ codes ",\"line\":"
          ++ sys.debug line
          ++ codes "}\n")
        1 a (sys.append a.world)

  unfoldable pub quarantine : List Text → Agent World → Run World
  quarantine [] a = ok a
  quarantine (l ∷ ls) a = written (concat (l ∷ ls)) (length (l ∷ ls)) a (sys.append a.world)

  unfoldable pub force_spool : Text → Agent World → Run World
  unfolding forced
  force_spool body a =
      let (io, w) = sys.spool_io a.world in
      forced body (record a { world = w }) (push_forced io body a.pipe.queue a.disk)

  unfoldable pub pushed : Text → Agent World → Spooled × Queue × Disk → Run World
  unfolding force_spool
  pushed body a (accepted, q, disk) = ok (with_queue q disk a)
  pushed body a (no_room, q, disk) = force_spool body (with_queue q disk a)
  pushed body a (broken e, q, disk) = err (disk_error e) (with_queue q disk a)

  unfoldable pub spool_failed : Text → Agent World → Run World
  unfolding pushed
  spool_failed body a =
      let (io, w) = sys.spool_io a.world in
      pushed body (record a { world = w }) (push io body a.pipe.queue a.disk)

  -- The outcome of a task, handed to the pipeline.
  abbrev pub settle_batch : List Text → Batch → Agent World → Run World
  unfolding quarantine spool_failed
  settle_batch lines (sent poison) a = quarantine poison a
  settle_batch lines (failed e) a = spool_failed (concat lines) a

  abbrev pub hand_over : List Text → Agent World → Option (Batch × Shipper × World) → Run World
  hand_over lines a none = stuck
  hand_over lines a (some (b, s, w)) =
      settle_batch lines b (record a { pipe = record a.pipe { shipper = s }; world = w })

  abbrev pub join_task : List Text → Joined → Agent World → Run World
  join_task lines j a =
      if j.panicked
      then err panic a
      else hand_over lines a (send_lines sys.post sys.gzip fuel lines a.pipe.shipper a.world)

  unfoldable pub reap_one : Agent World → Run World
  unfolding pick
  reap_one a = elim a.pipe.inflight [
    | [] ↦ ok a
    | lines ∷ more ↦
        let (j, w) = sys.join a.world in
        let (batch, rest) = pick j.index lines more in
        join_task batch j (record a { pipe = record a.pipe { inflight = rest }; world = w })
  ]

  -- Each step of the loop takes one batch, so that as many steps as there are batches are enough.
  unfoldable pub drain_steps : ℕ → Agent World → Run World
  unfolding reap_one
  drain_steps zero a = ok a
  drain_steps (suc n) a = elim a.pipe.inflight [
    | [] ↦ ok a
    | lines ∷ more ↦ and_then (reap_one a) (drain_steps n)
  ]

  unfoldable pub drain_inflight : Agent World → Run World
  unfolding drain_steps
  drain_inflight a = drain_steps (length a.pipe.inflight) a

  -- Blocks while `max_inflight` batches are outstanding; with a `max_inflight` of 0 it never ends.
  unfoldable pub make_room : ℕ → Agent World → Run World
  unfolding reap_one
  make_room zero a = if ltb (length a.pipe.inflight) a.pipe.max_inflight then ok a else stuck
  make_room (suc n) a =
      if ltb (length a.pipe.inflight) a.pipe.max_inflight
      then ok a
      else and_then (reap_one a) (make_room n)

  abbrev pub spawn : List Text → ℤ → Agent World → Agent World
  unfolding advance
  spawn batch max_ts a = record a {
    pipe = record a.pipe {
      inflight = a.pipe.inflight ++ batch ∷ [];
      watermark = if eq_ℤ max_ts i64_min then a.pipe.watermark else advance max_ts a.pipe.watermark;
    };
  }

  -- `flush` leaves the batch empty and its newest time unset, which the caller's next batch starts
  -- from.
  unfoldable pub flush : List Text → ℤ → Agent World → Run World
  unfolding make_room
  flush [] max_ts a = ok a
  flush (l ∷ ls) max_ts a =
      and_then (make_room (length a.pipe.inflight) a) (λ b. ok (spawn (l ∷ ls) max_ts b))
