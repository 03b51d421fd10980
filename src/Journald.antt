-- ===== src/Journald.antt =====
-- crates/tributary/src/journald.rs: entries of the systemd journal, queued on the disk and shipped. The
-- reader is a library's: what it gives from where it stands is a list of answers, in order, and at its
-- end the journal has no more for now. `entry_to_json` is the JSON library's.
pub mod Loop
pub mod Fill
pub mod Persist
pub mod Examples
use tributary.Prelude.{
  ℕ, zero, suc, ◌+◌, ◌-◌, ◌*◌, ◌^◌, min, Bool, true, false, List, [], ◌∷◌, Option, none, some, Text,
  text_has_eq,
}
use tributary.Prelude.Int.{ℤ, pos, negsuc, wrap_i64}
use tributary.Lp.{Record, EncodeError, Checked, encode}
use tributary.Map.{Library, Source, MapError, empty, Result, map_line}
use tributary.Queue.{IoError}
use tributary.Stamp
use tributary.Stamp.{Stamper, StampError}

pub record Entry : Type 0 where
  pub fields : List (Text × Text)
  pub realtime_usec : ℕ

-- `i64::saturating_mul` by a positive number.
unfoldable pub saturating_mul : ℤ → ℕ → ℤ
saturating_mul (pos n) k = pos (min (n * k) (2 ^ 63 - 1))
saturating_mul (negsuc n) k = negsuc (min ((n + 1) * k - 1) (2 ^ 63 - 1))

-- Why the agent stops.
pub data Fault : Type 0 where
  unread unaddressed unreadable unremoved unsaved : Fault
  unmapped : MapError → Fault
  unstamped : StampError → Fault
  unencoded : EncodeError → Fault
  disk_error : IoError → Fault

-- What `map_entry` returns.
pub data Mapped : Type 0 where
  ok : Option Text → Mapped
  err : Fault → Mapped

-- One answer of the reader: an entry, with the time at which it is mapped and its cursor if the journal
-- gives it; or an error.
pub data Read (E : Type 0) : Type 0 where
  got : ℤ → E → Option Text → Read E
  unreached : Read E

abbrev pub encoded : Checked × Text → Mapped
encoded (Checked.ok, out) = ok (some out)
encoded (Checked.err e, out) = err (unencoded e)

abbrev pub or_skip : MapError → Mapped
or_skip e = elim e [ empty ↦ ok none | other ↦ err (unmapped other) ]

-- One turn of the inner loop: the records, the last cursor, whether the journal's end was reached, the
-- stamper, and what is still to read.
pub record Filled (E : Type 0) : Type 0 where
  pub batch : List Text
  pub last_cursor : Option Text
  pub at_tail : Bool
  pub stamper : Stamper
  pub rest : List (Read E)

pub data Filling (E : Type 0) : Type 0 where
  full : Filled E → Filling E
  fault : Fault → Stamper → Filling E

abbrev pub or_last : Option Text → Option Text → Option Text
or_last none last = last
or_last (some c) last = some c

abbrev pub with_line : Option Text → List Text → List Text
with_line none batch = batch
with_line (some l) batch = l ∷ batch

-- What an entry adds to what the later ones come to.
abbrev pub add_entry : {E : Type 0} → Option Text → Text → Filling E → Filling E
add_entry line cursor (fault e stamper) = fault e stamper
add_entry line cursor (full f) =
    full (record f {
      batch = with_line line f.batch;
      last_cursor = or_last f.last_cursor (some cursor);
    })

module _ (show_float : ℕ → Text) {Number Other : Type 0} (lib : Library Number Other)
    (src : Source) where
  abbrev pub encode_stamped : Record → Stamp.Stamped × Stamper → Mapped × Stamper
  unfolding encode
  encode_stamped r (Stamp.Stamped.ok t, stamper) =
      (encoded (encode show_float (record r { ts_ns = t }) []), stamper)
  encode_stamped r (Stamp.Stamped.err e, stamper) = (err (unstamped e), stamper)

  -- With no declared field there is nothing to ship. The given time stands for any other.
  abbrev pub stamp_mapped : ℤ → Stamper → Result (Record × ℤ) → Mapped × Stamper
  unfolding Stamp.stamp
  stamp_mapped source_ts stamper (Result.err e) = (or_skip e, stamper)
  stamp_mapped source_ts stamper (Result.ok (r, ignored)) = elim r.fields [
    | [] ↦ (ok none, stamper)
    | f ∷ fs ↦ encode_stamped r (Stamp.stamp stamper source_ts)
  ]

  -- The line, as the library writes it, mapped and stamped with the time.
  unfoldable pub map_json : ℤ → Text → ℤ → Stamper → Mapped × Stamper
  unfolding map_line stamp_mapped
  map_json now line source_ts stamper = stamp_mapped source_ts stamper (map_line lib now src line)

module _ (show_float : ℕ → Text) {Number Other : Type 0} (lib : Library Number Other)
    (entry_to_json : Entry → Text) (src : Source) where
  -- The journal's own time, in microseconds, stands for any other.
  unfoldable pub map_entry : ℤ → Entry → Stamper → Mapped × Stamper
  unfolding map_json saturating_mul wrap_i64
  map_entry now entry stamper =
      map_json show_float lib src now (entry_to_json entry)
        (saturating_mul (wrap_i64 (pos entry.realtime_usec)) 1000) stamper

-- The entries are those of this journal or those of another source with the same loop.
module _ {E : Type 0} (map_entry : ℤ → E → Stamper → Mapped × Stamper) where
  -- Behind an entry that is mapped: its cursor is asked for, and the loop goes on, with one place less
  -- if there was a record.
  abbrev pub after_entry :
      Option Text → Mapped × Stamper → (Stamper → Filling E) → (Stamper → Filling E) → Filling E
  after_entry cursor (err e, stamper) same less = fault e stamper
  after_entry none (ok line, stamper) same less = fault unaddressed stamper
  after_entry (some c) (ok none, stamper) same less = add_entry none c (same stamper)
  after_entry (some c) (ok (some l), stamper) same less = add_entry (some l) c (less stamper)

  -- `while batch.len() < batch_lines`, with the places that are left.
  unfoldable pub fill : ℕ → List (Read E) → Stamper → Filling E
  fill zero reads stamper =
      full (record {
        batch = [];
        last_cursor = none;
        at_tail = false;
        stamper = stamper;
        rest = reads;
      })
  fill (suc n) [] stamper =
      full (record { batch = []; last_cursor = none; at_tail = true; stamper = stamper; rest = [] })
  fill (suc n) (unreached ∷ reads) stamper = fault unread stamper
  fill (suc n) (got now entry cursor ∷ reads) stamper =
      after_entry cursor (map_entry now entry stamper) (fill (suc n) reads) (fill n reads)
