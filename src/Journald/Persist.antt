-- ===== src/Journald/Persist.antt =====
-- `queue.push(&body)?` and the save of the cursor behind it in crates/tributary/src/journald.rs: what
-- is on the disk when the cursor is recorded.
use tributary.Prelude.{ℕ, ◌≡◌, Bool, true, List, [], ◌∷◌, ◌++◌, Option, some, Text}
use tributary.Journald.{disk_error}
use tributary.Checkpoint.{Checkpoint, load, loaded}
use tributary.Pipeline.{System}
use tributary.Queue.{Queue, Spooled, accepted, no_room, broken}
use tributary.Queue.Fifo.{batches}
use tributary.Stamp.{Stamper}
use tributary.Journald.Loop.{Agent, Run, ok, err, progress, join}

-- The disk and the checkpoints' JSON do what they should, for one save.
pub record Saves {ℓ} {World : Type ℓ} (sys : System World) (decode : Text → Option Checkpoint)
    (cp : Checkpoint) (w : World) : Type 0 where
  pub makes : (sys.saving w).0.io.creates_dir ≡ true
  pub writes : (sys.saving w).0.io.writes ≡ true
  pub moves : (sys.saving w).0.io.renames ≡ true
  pub bytes : Text
  pub prints : sys.to_json cp ≡ some bytes
  pub reads : decode bytes ≡ some cp

module _ {ℓ} {World : Type ℓ} (sys : System World) (fuel : ℕ) (decode : Text → Option Checkpoint)
    (name : Text) (cursor : Option Text) where
  -- The cursor is recorded with these batches queued.
  abbrev Records : Stamper → List (Option Text) → Run World → Type ℓ
  Records stamper bodies r =
      (b : Agent World) × (r ≡ ok b)
      × (load true decode name b.state_dir ≡ loaded (progress cursor stamper))
      × (batches b.queue b.disk ≡ bodies)

  -- What the run has done when the push has answered.
  abbrev pub Persists : List Text → Agent World → Spooled → Run World → Type ℓ
  Persists batch a accepted r =
      Records a.stamper (batches a.queue a.disk ++ some (join batch) ∷ []) r
  Persists batch a no_room r = Records a.stamper (batches a.queue a.disk) r
  Persists batch a (broken e) r =
      (b : Agent World) × (r ≡ err (disk_error e) b)
      × (b.state_dir ≡ a.state_dir)
      × (batches b.queue b.disk ≡ batches a.queue a.disk)

  module _ (batch : List Text) (a : Agent World)
      (saves : Saves sys decode (progress cursor a.stamper) (sys.spool_io a.world).1) where
    abbrev spooling : Agent World
    spooling = record a { world = (sys.spool_io a.world).1 }
