-- ===== src/Pipeline/Saved.antt =====
-- `save_checkpoint` and `checkpoint_now` of crates/tributary/src/main.rs.
use tributary.Prelude.{
  ℕ, ◌≡◌, ◌∙◌, refl, sym, ap, Bool, true, false, List, [], ◌∷◌, Option, none, some, Text,
  Bool-cases, inl, inr, ◌⊎◌, subst,
}
use tributary.Checkpoint.{Checkpoint, Directory, FileMark, Io, load, save}
use tributary.Checkpoint.Atomic.{load-failed_save}
use tributary.Queue.{IoError, out_of_space}
use tributary.Stamp.{Stamper}
use tributary.Pipeline.{System, Agent, Run, ok, err, stuck, and_then, drain_inflight}
use tributary.Pipeline.Save.{progress, saved, save_checkpoint, checkpoint_now}
use tributary.Pipeline.Pool.{
  Event, Runs, seen, Balance, idle, saving_file, IsSafe, Ends, IsUnanswered,
}
use tributary.Pipeline.Quarantined.{onward-IsUnanswered}
use tributary.Pipeline.Settled.{List-cases, Balance-trans, Settles, drain_inflight-Settles}

-- No stream's checkpoint changed.
abbrev pub Unchanged : Directory → Directory → Type 0
Unchanged dir dir' =
    (readable : Bool) (decode : Text → Option Checkpoint) (stream : Text)
    → load readable decode stream dir' ≡ load readable decode stream dir

module _ {ℓ} {World : Type ℓ} (sys : System World) (fuel : ℕ) (marks : List FileMark)
    (stamper : Stamper) where
  -- A checkpoint with these marks replaced the last one, and nothing is held in memory.
  abbrev pub Recorded : Directory → Agent World → Type 0
  Recorded dir b =
      (b.pipe.held ≡ [])
      × (io : Io) × (save io sys.to_json (progress marks stamper b.pipe) b.pipe.cp_path dir
          ≡ (true, b.state_dir))

  pub record Spoils (dir : Directory) (b : Agent World) : Type ℓ where
    pub kept : Unchanged dir b.state_dir

  -- A run ends with `P` and either leaves every checkpoint or records one; if
  -- it fails it leaves every checkpoint.
  abbrev pub Records : Agent World → (Agent World → Type ℓ) → Run World → Type ℓ
  Records a P (ok b) = P b × (Unchanged a.state_dir b.state_dir ⊎ Recorded a.state_dir b)
  Records a P (err c b) = Spoils a.state_dir b
  Records a P stuck = IsUnanswered sys fuel a

  -- The same of a run that started earlier.
  pub onward-Records :
      (a b : Agent World) (es : List Event) (P Q : Agent World → Type ℓ) (r : Run World)
      → Runs sys fuel es (seen a) (seen b)
      → b.state_dir ≡ a.state_dir
      → ((c : Agent World) → P c → Q c)
      → Records b P r
      → Records a Q r
  onward-Records a b es P Q (ok c) run e f h =
      (f c h.0, subst (λ dir. Unchanged dir c.state_dir ⊎ Recorded dir c) e h.1)
  onward-Records a b es P Q (err x c) run e f h = subst (λ dir. Spoils dir c) e h
  onward-Records a b es P Q stuck run e f h = onward-IsUnanswered sys fuel a b es run h

  module _ (P : Agent World → Type ℓ) (a : Agent World) (empty : a.pipe.held ≡ []) (w : World)
      (h : (dir : Directory) → P (record a { state_dir = dir; world = w })) (io : Io) where
    abbrev outcome : Bool × Directory
    outcome = save io sys.to_json (progress marks stamper a.pipe) a.pipe.cp_path a.state_dir

    failed_save : (r : Bool × Directory) → outcome ≡ r → r.0 ≡ false → Unchanged a.state_dir r.1
    failed_save r k failed_ readable decode stream =
        ap (λ o. load readable decode stream o.1) (sym k)
        ∙ load-failed_save io sys.to_json (progress marks stamper a.pipe) a.pipe.cp_path a.state_dir
            readable decode stream (ap (λ o. o.0) k ∙ failed_)

    saved-Records :
        (e : Option IoError) (r : Bool × Directory)
        → outcome ≡ r
        → Records a P (saved e (record a { world = w }) r)
    unfolding saved
    saved-Records e (true, dir) k = (h dir, inr (empty, io, k))
    saved-Records none (false, dir) k = record { kept = failed_save (false, dir) k refl }
    saved-Records (some e) (false, dir) k = elim (Bool-cases (out_of_space e)) [
      | inl t ↦ rw t (h dir, inl (failed_save (false, dir) k refl))
      | inr f ↦ rw f (record { kept = failed_save (false, dir) k refl })
    ]

  abbrev attempt : Agent World → List Text → Run World
  attempt a (b ∷ bs) = ok a
  attempt a [] =
      saved (sys.saving a.world).0.error (record a { world = (sys.saving a.world).1 })
        (save (sys.saving a.world).0.io sys.to_json (progress marks stamper a.pipe) a.pipe.cp_path
          a.state_dir)

  save_checkpoint-held :
      (a : Agent World) (b : Text) (bs : List Text)
      → a.pipe.held ≡ b ∷ bs
      → save_checkpoint sys fuel marks stamper a ≡ ok a
  unfolding save_checkpoint
  save_checkpoint-held a b bs e = ap (attempt a) e

  save_checkpoint-free :
      (a : Agent World) → a.pipe.held ≡ [] → save_checkpoint sys fuel marks stamper a ≡ attempt a []
  unfolding save_checkpoint
  save_checkpoint-free a e = ap (attempt a) e

  -- A checkpoint that is not written, or is not published, leaves what can be loaded.
  pub save_checkpoint-Records :
      (P : Agent World → Type ℓ) (a : Agent World)
      → P a
      → ((dir : Directory) → P (record a { state_dir = dir; world = (sys.saving a.world).1 }))
      → Records a P (save_checkpoint sys fuel marks stamper a)
  save_checkpoint-Records P a here h = elim (List-cases a.pipe.held) [
    | inr (body, held, e) ↦
        subst (Records a P) (sym (save_checkpoint-held a body held e))
          (here, inl (λ readable decode stream. refl))
    | inl e ↦ subst (Records a P) (sym (save_checkpoint-free a e)) (
        saved-Records P a e (sys.saving a.world).1 h (sys.saving a.world).0.io
          (sys.saving a.world).0.error
          (save (sys.saving a.world).0.io sys.to_json (progress marks stamper a.pipe) a.pipe.cp_path
            a.state_dir)
          refl)
  ]

  -- What a checkpoint now makes of the batches.
  abbrev pub IsSettled : Agent World → Agent World → Type ℓ
  IsSettled a b = Balance sys fuel [] a b × IsSafe [] b × (b.pipe.inflight ≡ [])

  -- The save is one more event.
  pub saving_Balance :
      (a b : Agent World) (dir : Directory)
      → Balance sys fuel [] a b
      → Balance sys fuel [] a (record b { state_dir = dir; world = (sys.saving b.world).1 })
  saving_Balance a b dir h =
      Balance-trans sys fuel a b (record b { state_dir = dir; world = (sys.saving b.world).1 }) h
        (idle saving_file ∷ [], refl, λ t. refl)

  IsSettled-Records :
      (a : Agent World) (r : Run World)
      → Ends sys fuel a (Settles sys fuel [] a) r
      → Records a (IsSettled a) (and_then r (save_checkpoint sys fuel marks stamper))
  IsSettled-Records a (ok b) k =
      onward-Records a b k.0.0 (IsSettled a) (IsSettled a)
        (save_checkpoint sys fuel marks stamper b) k.0.1 k.3 (λ c h. h)
        (save_checkpoint-Records (IsSettled a) b (k.0, k.1, k.2)
          (λ dir. (saving_Balance a b dir k.0, k.1, k.2)))
  IsSettled-Records a (err c b) k = record {
    kept = λ readable decode stream. ap (load readable decode stream) k.kept;
  }
  IsSettled-Records a stuck k = k

  -- A checkpoint now, from a pipeline whose queue is sound and has numbers and bytes for all that is
  -- owed, ends with nothing in flight: in the run from the one state to the other, every batch was answered
  -- by the database or is owed as often as before, and the lines refused in those answers are what the
  -- dead letters got, in order. It records the marks only if nothing is held in memory, so that all that is owed is on the queue's disk, and
  -- otherwise leaves every checkpoint. If it fails it leaves them too; or a batch is never answered.
  pub checkpoint_now-Records :
      (a : Agent World)
      → IsSafe [] a
      → Records a (IsSettled a) (checkpoint_now sys fuel marks stamper a)
  unfolding checkpoint_now
  checkpoint_now-Records a h =
      IsSettled-Records a (drain_inflight sys fuel a) (drain_inflight-Settles sys fuel [] a h)
