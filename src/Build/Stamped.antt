-- ===== src/Build/Stamped.antt =====
-- The timestamps of the records that `build` of crates/tributary/src/main.rs makes of a source's lines.
use tributary.Prelude.{
  ℕ, ◌<◌, ◌≡◌, ◌∙◌, refl, sym, ap, List, [], ◌∷◌, Option, none, some, Text, length, All, Distinct,
  subst,
}
use tributary.Prelude.Int.{ℤ}
use tributary.Lp.{Record}
use tributary.Map.{
  Library, Source, Result, ok, err, MapError, empty, unparseable, bad_timestamp, uncoercible_field,
  map_line,
}
use tributary.Pipeline.{DropStage}
use tributary.Stamp
use tributary.Stamp.{Stamper, Resolution, tick_of, stamps, after, stamp, window}
use tributary.Stamp.Unique.{IsCalm, stamps-new-Distinct}
use tributary.Transform.{apply_redacts}
use tributary.Watermark.{Watermark, observe}
use tributary.Build.{
  Rules, Built, Clocks, with_stamp, unbuilt, dropping, drop_or_stamp, build_mapped, build,
  with_record, build_all,
}

abbrev pub times : List Record → List ℤ
times [] = []
times (r ∷ rs) = r.ts_ns ∷ times rs

unfoldable pub observe_all : List ℤ → Watermark → Watermark
observe_all [] wm = wm
observe_all (t ∷ ts) wm = observe_all ts (observe t wm)

abbrev add : Option ℤ → List ℤ → List ℤ
add none ts = ts
add (some t) ts = t ∷ ts

-- The records carry the stamps of these source timestamps, which the watermark has seen.
abbrev pub Carries : List ℤ → Clocks → List Record × Clocks → Type 0
Carries ts clocks (rs, clocks') =
    (times rs ≡ stamps clocks.0 ts)
    × (clocks'.0 ≡ after clocks.0 ts)
    × (clocks'.1 ≡ observe_all ts clocks.1)

abbrev given : Stamp.Stamped → List ℤ → List ℤ
given a ts = elim a [ Stamp.Stamped.ok t ↦ t ∷ ts | Stamp.Stamped.err e ↦ ts ]

module _ (show_float : ℕ → Text) (rules : Rules) {Number Other : Type 0}
    (lib : Library Number Other) (src : Source) where
  -- The source timestamp of a line that is mapped and that no stage drops.
  abbrev time_unless : ℤ → Option DropStage → Option ℤ
  time_unless ts none = some ts
  time_unless ts (some stage) = none

  abbrev kept_time : Result (Record × ℤ) → Option ℤ
  kept_time (err e) = none
  kept_time (ok (r, ts)) = time_unless ts (dropping show_float rules r ts)

  unfoldable pub kept_times : List (ℤ × Text) → List ℤ
  kept_times [] = []
  kept_times ((now, line) ∷ lines) = add (kept_time (map_line lib now src line)) (kept_times lines)

  abbrev onto : List Record × Clocks → Built × Clocks → List Record × Clocks
  onto (rs, clocks') (b, clocks) = (with_record show_float rules lib src b rs, clocks')

  with_stamp-times :
      (r : Record) (ts : ℤ) (a : Stamp.Stamped) (rs : List Record)
      → times (with_record show_float rules lib src (with_stamp r ts a) rs)
        ≡ elim a as (λ x. List ℤ) [
          | Stamp.Stamped.ok t ↦ t ∷ times rs
          | Stamp.Stamped.err e ↦ times rs
        ]
  with_stamp-times r ts (Stamp.Stamped.ok t) rs = refl
  with_stamp-times r ts (Stamp.Stamped.err e) rs = refl

  unbuilt-record :
      (e : MapError) (rs : List Record) → with_record show_float rules lib src (unbuilt e) rs ≡ rs
  unbuilt-record empty rs = refl
  unbuilt-record unparseable rs = refl
  unbuilt-record bad_timestamp rs = refl
  unbuilt-record (uncoercible_field key want) rs = refl

  drop_or_stamp-Carries :
      (r : Record) (ts : ℤ) (o : Option DropStage) (clocks : Clocks) (later : List ℤ)
      (end : List Record × Clocks)
      → Carries later (drop_or_stamp show_float rules r ts clocks o).1 end
      → Carries
          (add (time_unless ts o) later)
          clocks
          (onto end (drop_or_stamp show_float rules r ts clocks o))
  unfolding drop_or_stamp stamps after observe_all
  drop_or_stamp-Carries r ts (some stage) clocks later end h = h
  drop_or_stamp-Carries r ts none (stamper, wm) later (rs, clocks') h = (
    with_stamp-times (apply_redacts rules.redacts r) ts (stamp stamper ts).0 rs
        ∙ ap (given (stamp stamper ts).0) h.0,
    h.1,
    h.2,
  )

  build_mapped-Carries :
      (m : Result (Record × ℤ)) (clocks : Clocks) (later : List ℤ) (end : List Record × Clocks)
      → Carries later (build_mapped show_float rules m clocks).1 end
      → Carries (add (kept_time m) later) clocks (onto end (build_mapped show_float rules m clocks))
  unfolding build_mapped
  build_mapped-Carries (err e) clocks later (rs, clocks') h =
      (ap times (unbuilt-record e rs) ∙ h.0, h.1, h.2)
  build_mapped-Carries (ok (r, ts)) clocks later end h =
      drop_or_stamp-Carries r ts (dropping show_float rules r ts) clocks later end h

  build_all-Carries :
      (lines : List (ℤ × Text)) (clocks : Clocks)
      → Carries (kept_times lines) clocks (build_all show_float rules lib src lines clocks)
  unfolding build_all build kept_times observe_all stamps after
  build_all-Carries [] clocks = (refl, refl, refl)
  build_all-Carries ((now, line) ∷ lines) clocks =
      build_mapped-Carries (map_line lib now src line) clocks (kept_times lines)
        (build_all show_float rules lib src lines
          (build_mapped show_float rules (map_line lib now src line) clocks).1)
        (build_all-Carries lines
          (build_mapped show_float rules (map_line lib now src line) clocks).1)

  -- The lines of a source that is new, with a resolution coarser than nanoseconds, become records whose
  -- timestamps are the stamps of the source timestamps of the lines that are mapped and kept, and the
  -- watermark has observed these and no other. If they are a tick inside the range of `i64` and fewer
  -- ticks than the window holds, then no two records have the same timestamp.
  pub build_all-Distinct :
      (res : Resolution) (lines : List (ℤ × Text)) (wm : Watermark)
      → 1 < tick_of res
      → All (IsCalm (tick_of res)) (kept_times lines)
      → length (after (Stamp.new res) (kept_times lines)).order < window
      → Carries
          (kept_times lines)
          (Stamp.new res, wm)
          (build_all show_float rules lib src lines (Stamp.new res, wm))
        × Distinct (times (build_all show_float rules lib src lines (Stamp.new res, wm)).0)
  build_all-Distinct res lines wm coarse calm room =
      let carried = build_all-Carries lines (Stamp.new res, wm) in
      (
        carried,
        subst Distinct (sym carried.0)
            (stamps-new-Distinct res (kept_times lines) coarse calm room),
      )
