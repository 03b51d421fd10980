-- ===== src/Journald/Loop.antt =====
-- crates/tributary/src/journald.rs: the loop of the agent that reads the journal. A batch is queued on
-- the disk, then the cursor behind its entries is saved, then the queue is shipped.
use tributary.Prelude.{
  ℕ, zero, suc, Bool, true, false, List, [], ◌∷◌, ◌++◌, map, Option, none, some, Text, lookup,
  text_has_eq, length, strip_suffix,
}
use tributary.Checkpoint.{Checkpoint, Directory, checkpoint_format_version, save}
use tributary.Map.{Library, Source}
use tributary.Pipeline.{System}
use tributary.Pipeline.Drain.{split_inclusive, read_segment}
use tributary.Pipeline.Save.{tick_part, seq_part}
use tributary.Queue.{Disk, Queue, Outcome, Spooled, accepted, no_room, broken, push, pop, front}
use tributary.Ship.{Batch, sent, failed, Shipper, send_lines}
use tributary.Stamp
use tributary.Stamp.{Stamper}
use tributary.Journald.{
  Entry, Fault, unread, unreadable, unremoved, unsaved, disk_error, Read, full, fault, map_entry,
  fill,
}

-- `str::lines`: the pieces up to each newline, without it and a carriage return before it.
abbrev pub trim_line : Text → Text
trim_line l = elim (strip_suffix (b'\n' ∷ []) l) [
  | none ↦ l
  | some m ↦ elim (strip_suffix (b'\r' ∷ []) m) [ none ↦ m | some k ↦ k ]
]

unfoldable pub lines : Text → List Text
unfolding split_inclusive strip_suffix
lines s = map trim_line (split_inclusive s)

-- `batch.join("\n")`.
unfoldable pub join : List Text → Text
join [] = []
join (l ∷ []) = l
join (l ∷ m ∷ ls) = l ++ b'\n' ∷ join (m ∷ ls)

unfoldable pub progress : Option Text → Stamper → Checkpoint
unfolding Stamp.checkpoint
progress cursor stamper = record {
  format = checkpoint_format_version;
  files = [];
  last_tick_ns = tick_part (Stamp.checkpoint stamper);
  next_seq = seq_part (Stamp.checkpoint stamper);
  lateness_ns = none;
  cursor = cursor;
}

-- The agent: its queue with the directory, the directory of the checkpoints, and the world.
pub record Agent {ℓ} (World : Type ℓ) : Type ℓ where
  pub queue : Queue
  pub disk : Disk
  pub state_dir : Directory
  pub shipper : Shipper
  pub stamper : Stamper
  pub world : World

-- `stuck` is the model's own, for a batch that is never answered.
pub data Run {ℓ} (World : Type ℓ) : Type ℓ where
  ok : Agent World → Run World
  err : Fault → Agent World → Run World
  stuck : Run World

module _ {ℓ} {World : Type ℓ} where
  abbrev pub and_then : Run World → (Agent World → Run World) → Run World
  and_then (ok a) f = f a
  and_then (err e a) f = err e a
  and_then stuck f = stuck

  abbrev pub with_queue : Queue → Disk → Agent World → Agent World
  with_queue q disk a = record a { queue = q; disk = disk }

  abbrev pub with_popped :
      Agent World → Outcome × Queue × Disk → (Agent World → Run World) → Run World
  with_popped a (Outcome.done, q, disk) f = f (with_queue q disk a)
  with_popped a (Outcome.failed e, q, disk) f = err unremoved (with_queue q disk a)

  -- `?` looks at the error only: an `Ok(false)` goes on like an `Ok(true)`.
  unfoldable pub with_pushed :
      Agent World → Spooled × Queue × Disk → (Agent World → Run World) → Run World
  with_pushed a (accepted, q, disk) f = f (with_queue q disk a)
  with_pushed a (no_room, q, disk) f = f (with_queue q disk a)
  with_pushed a (broken e, q, disk) f = err (disk_error e) (with_queue q disk a)

  abbrev pub with_saved : Agent World → Bool × Directory → Run World
  with_saved a (true, dir) = ok (record a { state_dir = dir })
  with_saved a (false, dir) = err unsaved (record a { state_dir = dir })

module _ {ℓ} {World : Type ℓ} (sys : System World) (fuel : ℕ) where
  unfoldable pub retire_front : Text → Agent World → (Agent World → Run World) → Run World
  unfolding pop
  retire_front path a f =
      let (outcome, w) = sys.unlink a.world in
      with_popped (record a { world = w }) (pop outcome path a.queue a.disk) f

  -- The answer to the lines of the front segment, which stays if a line was refused.
  unfoldable pub answered :
      Text → Agent World → Option (Batch × Shipper × World) → (Agent World → Run World) → Run World
  unfolding retire_front
  answered path a none f = stuck
  answered path a (some (sent [], s, w)) f =
      retire_front path (record a { shipper = s; world = w }) f
  answered path a (some (sent (p ∷ ps), s, w)) f = ok (record a { shipper = s; world = w })
  answered path a (some (failed e, s, w)) f = ok (record a { shipper = s; world = w })

  unfoldable pub ship_front : Text → Agent World → (Agent World → Run World) → Run World
  unfolding lines answered
  ship_front path a f =
      let (readable, w) = sys.readable a.world in
      elim (read_segment sys fuel readable (lookup path a.disk)) [
        | none ↦ err unreadable (record a { world = w })
        | some body ↦
            answered path (record a { world = w })
              (send_lines sys.post sys.gzip fuel (lines body) a.shipper w) f
      ]

  -- A round retires a segment, so that as many rounds as there are segments are enough.
  unfoldable pub drain_rounds : ℕ → Agent World → Run World
  unfolding front ship_front
  drain_rounds zero a = ok a
  drain_rounds (suc n) a = elim (front a.queue) [
    | none ↦ ok a
    | some path ↦ ship_front path a (drain_rounds n)
  ]

  unfoldable pub drain : Agent World → Run World
  unfolding drain_rounds
  drain a = drain_rounds (length a.queue.segments) a

  unfoldable pub save_cursor : Text → Option Text → Agent World → Run World
  unfolding progress save
  save_cursor name cursor a =
      let (saving, w) = sys.saving a.world in
      with_saved (record a { world = w })
        (save saving.io sys.to_json (progress cursor a.stamper) name a.state_dir)

  -- The batch is pushed, then the cursor is saved.
  unfoldable pub persist : Text → List Text → Option Text → Agent World → Run World
  unfolding push with_pushed save_cursor join
  persist name batch cursor a =
      let (io, w) = sys.spool_io a.world in
      with_pushed (record a { world = w }) (push io (join batch) a.queue a.disk)
        (save_cursor name cursor)

unfoldable pub restored : Stamper → Option Checkpoint → Stamper
unfolding Stamp.restore
restored stamper none = stamper
restored stamper (some cp) = elim cp.last_tick_ns [
  | none ↦ stamper
  | some tick ↦ Stamp.restore stamper tick cp.next_seq
]

abbrev pub cursor_of : Option Checkpoint → Option Text
cursor_of none = none
cursor_of (some cp) = cp.cursor

-- A wait for new entries: what the reader gives after it, or its error.
abbrev pub Wait : Type 0
Wait = Option (List (Read Entry))

module _ {ℓ} {World : Type ℓ} (sys : System World) (fuel : ℕ) (show_float : ℕ → Text)
    {Number Other : Type 0} (lib : Library Number Other) (entry_to_json : Entry → Text)
    (src : Source) where
  unfoldable pub ship_batch : List Text → Option Text → Agent World → Run World
  unfolding persist drain
  ship_batch [] cursor a = ok a
  ship_batch (l ∷ ls) cursor a =
      and_then (persist sys fuel src.name (l ∷ ls) cursor a) (drain sys fuel)

  -- One turn of the loop, whether it reached the end, and what is still to read.
  unfoldable pub pass : ℕ → List (Read Entry) → Agent World → Run World × Bool × List (Read Entry)
  unfolding fill map_entry ship_batch
  pass batch_lines reads a =
      elim (fill (map_entry show_float lib entry_to_json src) batch_lines reads a.stamper) [
        | fault e stamper ↦ (err e (record a { stamper = stamper }), true, [])
        | full f ↦
            (ship_batch f.batch f.last_cursor (record a { stamper = f.stamper }), f.at_tail, f.rest)
      ]

  -- The loop, on fuel. Behind the last wait the caller's shutdown wins and the loop is dropped.
  unfoldable pub passes : ℕ → ℕ → Bool → List Wait → List (Read Entry) → Agent World → Run World
  unfolding pass drain
  passes zero batch_lines once waits reads a = stuck
  passes (suc n) batch_lines once waits reads a =
      let (r, at_tail, rest) = pass batch_lines reads a in
      and_then r (λ b. elim at_tail [
        | false ↦ passes n batch_lines once waits rest b
        | true ↦ elim once [
          | true ↦ drain sys fuel b
          | false ↦ elim waits [
            | [] ↦ ok b
            | wait ∷ more ↦ elim wait [
              | none ↦ err unread b
              | some news ↦ passes n batch_lines false more (rest ++ news) b
            ]
          ]
        ]
      ])

  -- With the checkpoint that was loaded, and what the reader gives from its cursor on.
  unfoldable pub run_journald :
      ℕ
      → ℕ
      → Bool
      → List Wait
      → (Option Text → List (Read Entry))
      → Option Checkpoint
      → Agent World
      → Run World
  unfolding passes drain restored
  run_journald rounds batch_lines once waits seek cp a =
      and_then (drain sys fuel (record a { stamper = restored a.stamper cp }))
        (passes rounds batch_lines once waits (seek (cursor_of cp)))
