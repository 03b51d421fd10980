-- ===== src/Pipeline/Save.antt =====
-- `save_checkpoint` and `checkpoint_now` of crates/tributary/src/main.rs.
use tributary.Prelude.{ℕ, ◌∷◌, Bool, true, false, List, [], Option, none, some, if◌then◌else◌}
use tributary.Prelude.Int.{ℤ, pos}
use tributary.Checkpoint.{Checkpoint, Directory, FileMark, checkpoint_format_version, save}
use tributary.Queue.{IoError, out_of_space}
use tributary.Stamp.{Stamper}
use tributary.Stamp
use tributary.Pipeline.{System, Pipeline, Agent, Run, ok, err, unsaved, and_then, drain_inflight}

abbrev pub tick_part : Option (ℤ × ℤ) → Option ℤ
tick_part none = none
tick_part (some (tick, seq)) = some tick

abbrev pub seq_part : Option (ℤ × ℤ) → ℤ
seq_part none = pos 0
seq_part (some (tick, seq)) = seq

unfoldable pub progress : List FileMark → Stamper → Pipeline → Checkpoint
unfolding Stamp.checkpoint
progress marks stamper p = record {
  format = checkpoint_format_version;
  files = marks;
  last_tick_ns = tick_part (Stamp.checkpoint stamper);
  next_seq = seq_part (Stamp.checkpoint stamper);
  lateness_ns = some p.watermark.lateness_ns;
  cursor = none;
}

module _ {ℓ} {World : Type ℓ} where
  -- A checkpoint that the disk has no room for is given up.
  unfoldable pub saved : Option IoError → Agent World → Bool × Directory → Run World
  saved e a (true, dir) = ok (record a { state_dir = dir })
  saved none a (false, dir) = err unsaved (record a { state_dir = dir })
  saved (some e) a (false, dir) =
      if out_of_space e
      then ok (record a { state_dir = dir })
      else err unsaved (record a { state_dir = dir })

module _ {ℓ} {World : Type ℓ} (sys : System World) (fuel : ℕ) (marks : List FileMark)
    (stamper : Stamper) where
  unfoldable pub save_checkpoint : Agent World → Run World
  unfolding saved progress
  save_checkpoint a = elim a.pipe.held [
    | b ∷ bs ↦ ok a
    | [] ↦
        let (s, w) = sys.saving a.world in
        saved s.error (record a { world = w })
          (save s.io sys.to_json (progress marks stamper a.pipe) a.pipe.cp_path a.state_dir)
  ]

  unfoldable pub checkpoint_now : Agent World → Run World
  unfolding save_checkpoint drain_inflight
  checkpoint_now a = and_then (drain_inflight sys fuel a) save_checkpoint
