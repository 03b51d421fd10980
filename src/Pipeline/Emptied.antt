-- ===== src/Pipeline/Emptied.antt =====
-- `drain_queue` of crates/tributary/src/main.rs: the two loops and the checkpoint behind them.
use tributary.Prelude.{
  ℕ, ◌≡◌, ◌∙◌, refl, ap, true, false, List, [], arith, length, inl, inr, ◌⊎◌, text_has_eq,
}
use tributary.Checkpoint.{FileMark, load}
use tributary.Stamp.{Stamper}
use tributary.Pipeline.{System, Agent, Run, ok, err, stuck}
use tributary.Pipeline.Save.{save_checkpoint}
use tributary.Pipeline.Drain.{
  Loop, through, over, drain_held, drain_segments, after_segments, after_held, drain_queue,
}
use tributary.Pipeline.Pool.{any_refused, IsSafe, Balance, Moves, Ends}
use tributary.Pipeline.Saved.{
  Unchanged, Records, onward-Records, saving_Balance, save_checkpoint-Records,
}
use tributary.Pipeline.Shipped.{Moves-trans, Stops, Refuses, onward-Stops}
use tributary.Pipeline.Held.{Frees, drain_held-Stops}
use tributary.Pipeline.Segments.{Empties, drain_segments-Stops}

module _ {ℓ} {World : Type ℓ} (sys : System World) (fuel : ℕ) (marks : List FileMark)
    (stamper : Stamper) where
  -- Every batch is delivered or owed as often as before, with the same batches in flight. Nothing is
  -- held or queued any more, unless the database refused a batch in this run.
  abbrev pub Drains : Agent World → Agent World → Type ℓ
  Drains a b =
      (balance : Balance sys fuel [] a b) × IsSafe [] b
      × (b.pipe.inflight ≡ a.pipe.inflight)
      × (((b.pipe.held ≡ []) × (b.pipe.queue.segments ≡ [])) ⊎ (any_refused balance.0 ≡ true))

  abbrev IsEmptied : Agent World → Agent World → Type ℓ
  IsEmptied a b = Moves sys fuel [] [] a b × (b.pipe.held ≡ []) × (b.pipe.queue.segments ≡ [])

  abbrev unchanged :
      (a b : Agent World) → b.state_dir ≡ a.state_dir → Unchanged a.state_dir b.state_dir
  unchanged a b e readable decode stream = ap (load readable decode stream) e

  refused-Records :
      (a : Agent World) (r : Run World)
      → Ends sys fuel a (Refuses sys fuel a) r
      → Records sys fuel marks stamper a (Drains a) r
  refused-Records a (ok b) k = ((k.0.0, k.0.1, k.0.2, inr k.1), inl (unchanged a b k.0.4))
  refused-Records a (err c b) k = record { kept = unchanged a b k.kept }
  refused-Records a stuck k = k

  after_segments-Records :
      (a : Agent World) (r : Loop World)
      → Stops sys fuel a (Refuses sys fuel a) (IsEmptied a) r
      → Records sys fuel marks stamper a (Drains a) (after_segments sys fuel marks stamper r)
  unfolding after_segments
  after_segments-Records a (over r) k = refused-Records a r k
  after_segments-Records a (through false b) k =
      ((k.0.0, k.0.1, k.0.2, inl (k.1, k.2)), inl (unchanged a b k.0.4))
  after_segments-Records a (through true b) k =
      onward-Records sys fuel marks stamper a b k.0.0.0 (Drains a) (Drains a)
        (save_checkpoint sys fuel marks stamper b) k.0.0.1 k.0.4 (λ c h. h)
        (save_checkpoint-Records sys fuel marks stamper (Drains a) b
          (k.0.0, k.0.1, k.0.2, inl (k.1, k.2))
          (λ dir.
            (saving_Balance sys fuel marks stamper a b dir k.0.0, k.0.1, k.0.2, inl (k.1, k.2))))

  after_held-Records :
      (a : Agent World) (r : Loop World)
      → Stops sys fuel a (Refuses sys fuel a) (Frees sys fuel a) r
      → Records sys fuel marks stamper a (Drains a) (after_held sys fuel marks stamper r)
  unfolding after_held
  after_held-Records a (over r) k = refused-Records a r k
  after_held-Records a (through drained b) k =
      let turns = drain_segments sys fuel (length b.pipe.queue.segments) drained b in
      after_segments-Records a turns (
        onward-Stops sys fuel a b IsEmptied turns
          (λ c m t. (Moves-trans sys fuel a b c m t.0, t.1, t.2)) k.0
          (widen b turns k.1 (
            drain_segments-Stops sys fuel (length b.pipe.queue.segments) drained b (omega arith)
              k.0.1)))
    where
      widen :
          (b : Agent World) (turns : Loop World)
          → b.pipe.held ≡ []
          → Stops sys fuel b (Refuses sys fuel b) (Empties sys fuel b) turns
          → Stops sys fuel b (Refuses sys fuel b) (IsEmptied b) turns
      widen b (through d c) e t = (t.0, t.1 ∙ e, t.2)
      widen b (over r) e t = t

  -- Draining the queue, from a pipeline whose queue is sound and has numbers and bytes for all that is
  -- owed, leaves what is in flight: in the run from the one state to the other, every batch was answered
  -- by the database or is owed as often as before, and the lines refused in those answers are what the
  -- dead letters got, in order. Either nothing is held or queued any more or a batch failed in this run;
  -- a checkpoint is recorded only if nothing is held. If it fails it leaves every checkpoint; or a batch
  -- is never answered.
  pub drain_queue-Records :
      (a : Agent World)
      → IsSafe [] a
      → Records sys fuel marks stamper a (Drains a) (drain_queue sys fuel marks stamper a)
  unfolding drain_queue
  drain_queue-Records a h =
      after_held-Records a (drain_held sys fuel a.pipe.held false a)
        (drain_held-Stops sys fuel a.pipe.held false a refl h)
