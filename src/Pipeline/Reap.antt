-- ===== src/Pipeline/Reap.antt =====
-- `reap_one` and what it calls in crates/tributary/src/main.rs.
use tributary.Prelude.{
  ℕ, zero, suc, ◌+◌, ◌≡◌, ◌∙◌, refl, ap, List, [], ◌∷◌, ◌++◌, map, Option, none, some, Text, arith,
  length, length-append, Bool-cases, inl, inr,
}
use tributary.Queue.{Disk, Queue, Spooled, accepted, no_room, broken, push, push_forced}
use tributary.Queue.Fifo.{batches}
use tributary.Ship.{Batch, sent, failed, Shipper, concat, send_lines}
use tributary.Pipeline.{
  System, Joined, Agent, Run, ok, err, stuck, with_queue, hold, forced, quarantine, force_spool,
  pushed, spool_failed, settle_batch, hand_over, join_task, pick,
}
use tributary.Pipeline.Queued.{Sound, Spools, Adds, Stays, push-Spools, push_forced-Spools}
use tributary.Pipeline.Quarantined.{
  Same, Same-Moves, map-Ends, onward-Ends, shipped_by, quarantine-Same,
}
use tributary.Pipeline.Pool.{
  tally, on_disk, size, tally-append, size-append, on_disk-snoc, queued, IsSafe, Moves, Ends, idle,
  spooling, refused,
}

module _ {ℓ} {World : Type ℓ} (sys : System World) (fuel : ℕ) (spare : List Text) where
  -- A batch more on the queue.
  pub Adds-Moves :
      (body : Text) (a : Agent World) (q : Queue) (disk : Disk)
      → IsSafe (body ∷ spare) a
      → Sound q disk
      → Adds body a.pipe.queue a.disk q disk
      → Moves sys fuel spare (body ∷ []) a (with_queue q disk a)
  Adds-Moves body a q disk h sound k =
      let new : on_disk (batches q disk) ≡ queued a ++ body ∷ [] =
        ap on_disk k.0 ∙ on_disk-snoc (batches a.pipe.queue a.disk) body in
      (
        ([], refl, λ t. omega (arith, ap (tally t) new, tally-append t (queued a) (body ∷ []))),
        (sound, omega (arith, h.1, k.2), omega (arith, h.2, k.1)),
        refl,
        refl,
        refl,
      )

  -- A batch more in memory.
  Stays-Moves :
      (body : Text) (a : Agent World) (q : Queue) (disk : Disk)
      → IsSafe (body ∷ spare) a
      → Sound q disk
      → Stays a.pipe.queue a.disk q disk
      → Moves sys fuel spare (body ∷ []) a (hold body (with_queue q disk a))
  Stays-Moves body a q disk h sound k = (
    (
      [],
      refl,
      λ t. omega (arith, ap (λ o. tally t (on_disk o)) k.0, tally-append t a.pipe.held (body ∷ [])),
    ),
    (
      sound,
      omega (arith, h.1, k.2, length-append a.pipe.held (body ∷ [])),
      omega (arith, h.2, k.1, size-append a.pipe.held (body ∷ [])),
    ),
    refl,
    refl,
    refl,
  )

  pub forced-Ends :
      (body : Text) (a : Agent World) (r : Spooled × Queue × Disk)
      → IsSafe (body ∷ spare) a
      → Spools body a.pipe.queue a.disk r
      → Ends sys fuel a (Moves sys fuel spare (body ∷ []) a) (forced body a r)
  unfolding forced
  forced-Ends body a (accepted, q, disk) h k = Adds-Moves body a q disk h k.0 k.1
  forced-Ends body a (no_room, q, disk) h k = Stays-Moves body a q disk h k.0 k.1
  forced-Ends body a (broken e, q, disk) h k = record { kept = refl; cause = k.2 }

  -- A file of the queue is written first.
  spooled-Ends :
      (owed : List Text) (a : Agent World) (r : Run World)
      → Ends sys fuel
          (record a { world = (sys.spool_io a.world).1 })
          (Moves sys fuel spare owed (record a { world = (sys.spool_io a.world).1 }))
          r
      → Ends sys fuel a (Moves sys fuel spare owed a) r
  spooled-Ends owed a r =
      onward-Ends sys fuel a (record a { world = (sys.spool_io a.world).1 }) (idle spooling ∷ [])
        (Moves sys fuel spare owed (record a { world = (sys.spool_io a.world).1 }))
        (Moves sys fuel spare owed a) r refl refl
        (λ b m. ((idle spooling ∷ m.0.0, m.0.1, m.0.2), m.1, m.2, m.3, m.4))

  pub force_spool-Ends :
      (body : Text) (a : Agent World)
      → IsSafe (body ∷ spare) a
      → Ends sys fuel a (Moves sys fuel spare (body ∷ []) a) (force_spool sys fuel body a)
  unfolding force_spool
  force_spool-Ends body a h = spooled-Ends (body ∷ []) a _ (
      forced-Ends body (record a { world = (sys.spool_io a.world).1 })
        (push_forced (sys.spool_io a.world).0 body a.pipe.queue a.disk) h
        (push_forced-Spools body a.pipe.queue a.disk h.0 (omega (arith, h.1)) (omega (arith, h.2))
          (sys.spool_io a.world).0))

  -- A queue with the same batches may take the place of the queue.
  Stays-IsSafe :
      (owed : List Text) (a : Agent World) (q : Queue) (disk : Disk)
      → IsSafe owed a
      → Sound q disk
      → Stays a.pipe.queue a.disk q disk
      → IsSafe owed (with_queue q disk a)
  Stays-IsSafe owed a q disk h sound k = (sound, omega (arith, h.1, k.2), omega (arith, h.2, k.1))

  Stays-Ends :
      (owed : List Text) (a : Agent World) (q : Queue) (disk : Disk) (r : Run World)
      → Stays a.pipe.queue a.disk q disk
      → Ends sys fuel a (Moves sys fuel spare owed (with_queue q disk a)) r
      → Ends sys fuel a (Moves sys fuel spare owed a) r
  Stays-Ends owed a q disk (ok b) k m = (
    (m.0.0, m.0.1, λ t. omega (arith, m.0.2 t, ap (λ o. tally t (on_disk o)) k.0)),
    m.1,
    m.2,
    m.3,
    m.4,
  )
  Stays-Ends owed a q disk (err c b) k m = m
  Stays-Ends owed a q disk stuck k m = m

  pushed-Ends :
      (body : Text) (a : Agent World) (r : Spooled × Queue × Disk)
      → IsSafe (body ∷ spare) a
      → Spools body a.pipe.queue a.disk r
      → Ends sys fuel a (Moves sys fuel spare (body ∷ []) a) (pushed sys fuel body a r)
  unfolding pushed
  pushed-Ends body a (accepted, q, disk) h k = Adds-Moves body a q disk h k.0 k.1
  pushed-Ends body a (no_room, q, disk) h k =
      Stays-Ends (body ∷ []) a q disk _ k.1 (
        force_spool-Ends body (with_queue q disk a)
          (Stays-IsSafe (body ∷ spare) a q disk h k.0 k.1))
  pushed-Ends body a (broken e, q, disk) h k = record { kept = refl; cause = k.2 }

  spool_failed-Ends :
      (body : Text) (a : Agent World)
      → IsSafe (body ∷ spare) a
      → Ends sys fuel a (Moves sys fuel spare (body ∷ []) a) (spool_failed sys fuel body a)
  unfolding spool_failed
  spool_failed-Ends body a h = spooled-Ends (body ∷ []) a _ (
      pushed-Ends body (record a { world = (sys.spool_io a.world).1 })
        (push (sys.spool_io a.world).0 body a.pipe.queue a.disk) h
        (push-Spools body a.pipe.queue a.disk h.0 (omega (arith, h.1)) (omega (arith, h.2))
          (sys.spool_io a.world).0))

  hand_over-Ends :
      (lines : List Text) (a : Agent World) (o : Option (Batch × Shipper × World))
      → IsSafe (concat lines ∷ spare) a
      → send_lines sys.post sys.gzip fuel lines a.pipe.shipper a.world ≡ o
      → Ends sys fuel a (Moves sys fuel spare (concat lines ∷ []) a) (hand_over sys fuel lines a o)
  unfolding settle_batch
  hand_over-Ends lines a none h e = ([], a.pipe.shipper, a.world, a.dead_letters, refl, lines, e)
  hand_over-Ends lines a (some (sent poison, s, w)) h e =
      map-Ends sys fuel a (Same sys fuel (concat lines ∷ []) a)
        (Moves sys fuel spare (concat lines ∷ []) a)
        (quarantine sys fuel poison (shipped_by sys fuel lines a s w))
        (λ b k.
          Same-Moves sys fuel spare (concat lines ∷ []) a b k
            (h.0, omega (arith, h.1), omega (arith, h.2)))
        (quarantine-Same sys fuel lines a s w poison e)
  hand_over-Ends lines a (some (failed x, s, w)) h e =
      onward-Ends sys fuel a (shipped_by sys fuel lines a s w) (refused lines x ∷ [])
        (Moves sys fuel spare (concat lines ∷ []) (shipped_by sys fuel lines a s w))
        (Moves sys fuel spare (concat lines ∷ []) a)
        (spool_failed sys fuel (concat lines) (shipped_by sys fuel lines a s w)) (s, w, e, refl)
        refl (λ b m. ((refused lines x ∷ m.0.0, (s, w, e, m.0.1), m.0.2), m.1, m.2, m.3, m.4))
        (spool_failed-Ends (concat lines) (shipped_by sys fuel lines a s w) h)

  pub join_task-Ends :
      (lines : List Text) (j : Joined) (a : Agent World)
      → IsSafe (concat lines ∷ spare) a
      → Ends sys fuel a (Moves sys fuel spare (concat lines ∷ []) a) (join_task sys fuel lines j a)
  join_task-Ends lines j a h = elim (Bool-cases j.panicked) [
    | inl e ↦ rw e (record { kept = refl; cause = tt })
    | inr e ↦ rw e (hand_over-Ends lines a _ h refl)
  ]

-- What one task takes with it.
pub tally-pick :
    (t : Text) (i : ℕ) (x : List Text) (xs : List (List Text))
    → tally t (map concat (x ∷ xs)) ≡ tally t (concat (pick i x xs).0 ∷ map concat (pick i x xs).1)
unfolding pick
tally-pick t zero x xs = refl
tally-pick t (suc i) x [] = refl
tally-pick t (suc i) x (y ∷ ys) = ground (arith, tally-pick t i y ys)

pub size-pick :
    (i : ℕ) (x : List Text) (xs : List (List Text))
    → size (map concat (x ∷ xs))
      ≡ length (concat (pick i x xs).0) + size (map concat (pick i x xs).1)
unfolding pick
size-pick zero x xs = refl
size-pick (suc i) x [] = refl
size-pick (suc i) x (y ∷ ys) = omega (arith, size-pick i y ys)

pub length-pick :
    (i : ℕ) (x : List Text) (xs : List (List Text)) → length (pick i x xs).1 ≡ length xs
unfolding pick
length-pick zero x xs = refl
length-pick (suc i) x [] = refl
length-pick (suc i) x (y ∷ ys) = omega (arith, length-pick i y ys)
