-- ===== src/Journald/Fill.antt =====
-- The inner loop of `run_journald` (crates/tributary/src/journald.rs), against the entries that it reads.
use tributary.Prelude.{
  ℕ, zero, suc, ◌≤◌, ◌≡◌, ◌∙◌, refl, ap, Bool, true, false, List, [], ◌∷◌, ◌++◌, Option, none, some,
  Text, arith, length,
}
use tributary.Prelude.Int.{ℤ}
use tributary.Stamp.{Stamper}
use tributary.Journald.{
  Mapped, ok, err, Read, got, unreached, Filling, full, fault, or_last, with_line, add_entry,
  after_entry, fill,
}

-- The cursor behind the entries: that of the last one.
abbrev pub last_cursor_of : {E : Type 0} → List (Read E) → Option Text
last_cursor_of [] = none
last_cursor_of (unreached ∷ reads) = last_cursor_of reads
last_cursor_of (got now entry cursor ∷ reads) = or_last (last_cursor_of reads) cursor

abbrev with_records : Option Text → Option (List Text × Stamper) → Option (List Text × Stamper)
with_records line none = none
with_records line (some (ls, stamper)) = some (with_line line ls, stamper)

abbrev then_records :
    (Stamper → Option (List Text × Stamper)) → Mapped × Stamper → Option (List Text × Stamper)
then_records later (err e, stamper) = none
then_records later (ok line, stamper) = with_records line (later stamper)

-- At the end of the journal nothing is left; before it the batch is full.
abbrev pub IsEnd : {E : Type 0} → Bool → ℕ → List Text → List (Read E) → Type 0
IsEnd true room batch rest = (rest ≡ []) × (length batch ≤ room)
IsEnd false room batch rest = length batch ≡ room

suc-IsEnd :
    {E : Type 0} (at_tail : Bool) (room : ℕ) (l : Text) (batch : List Text) (rest : List (Read E))
    → IsEnd at_tail room batch rest
    → IsEnd at_tail (suc room) (l ∷ batch) rest
suc-IsEnd true room l batch rest h = (h.0, omega arith)
suc-IsEnd false room l batch rest h = omega arith

module _ {E : Type 0} (map_entry : ℤ → E → Stamper → Mapped × Stamper) where
  -- The records of all these entries, one after the other; none if a step fails.
  unfoldable pub records_of : List (Read E) → Stamper → Option (List Text × Stamper)
  records_of [] stamper = some ([], stamper)
  records_of (unreached ∷ reads) stamper = none
  records_of (got now entry none ∷ reads) stamper = none
  records_of (got now entry (some c) ∷ reads) stamper =
      then_records (records_of reads) (map_entry now entry stamper)

  -- The entries that were taken are the first ones. The batch is what they come to, and has room; it
  -- has no more only at the end of the journal.
  abbrev pub Takes : ℕ → List (Read E) → Stamper → Filling E → Type 0
  Takes room reads stamper (fault e stamper') = Unit
  Takes room reads stamper (full f) =
      (taken : List (Read E)) × (taken ++ f.rest ≡ reads)
      × (records_of taken stamper ≡ some (f.batch, f.stamper))
      × (last_cursor_of taken ≡ f.last_cursor)
      × IsEnd f.at_tail room f.batch f.rest

  module _ (now : ℤ) (entry : E) (cursor : Text) (reads : List (Read E)) (s s' : Stamper) where
    skip-Takes :
        (room : ℕ) (r : Filling E)
        → map_entry now entry s ≡ (ok none, s')
        → Takes room reads s' r
        → Takes room (got now entry (some cursor) ∷ reads) s (add_entry none cursor r)
    unfolding records_of
    skip-Takes room (fault e s'') h t = tt
    skip-Takes room (full f) h (taken, split, records, last, end) = (
      got now entry (some cursor) ∷ taken,
      ap (◌∷◌ (got now entry (some cursor))) split,
      ap (then_records (records_of taken)) h ∙ ap (with_records none) records,
      ap (λ c. or_last c (some cursor)) last,
      end,
    )

    take-Takes :
        (room : ℕ) (line : Text) (r : Filling E)
        → map_entry now entry s ≡ (ok (some line), s')
        → Takes room reads s' r
        → Takes (suc room) (got now entry (some cursor) ∷ reads) s (add_entry (some line) cursor r)
    unfolding records_of
    take-Takes room line (fault e s'') h t = tt
    take-Takes room line (full f) h (taken, split, records, last, end) = (
      got now entry (some cursor) ∷ taken,
      ap (◌∷◌ (got now entry (some cursor))) split,
      ap (then_records (records_of taken)) h ∙ ap (with_records (some line)) records,
      ap (λ c. or_last c (some cursor)) last,
      suc-IsEnd f.at_tail room line f.batch f.rest end,
    )

  after_entry-Takes :
      (now : ℤ) (entry : E) (reads : List (Read E)) (s : Stamper) (n : ℕ) (c : Option Text)
      (o : Mapped × Stamper)
      → map_entry now entry s ≡ o
      → ((t : Stamper) → Takes (suc n) reads t (fill map_entry (suc n) reads t))
      → ((t : Stamper) → Takes n reads t (fill map_entry n reads t))
      → Takes
          (suc n)
          (got now entry c ∷ reads)
          s
          (after_entry map_entry c o (fill map_entry (suc n) reads) (fill map_entry n reads))
  after_entry-Takes now entry reads s n c (err e, t) h same less = tt
  after_entry-Takes now entry reads s n none (ok line, t) h same less = tt
  after_entry-Takes now entry reads s n (some c) (ok none, t) h same less =
      skip-Takes now entry c reads s t (suc n) _ h (same t)
  after_entry-Takes now entry reads s n (some c) (ok (some l), t) h same less =
      take-Takes now entry c reads s t n l _ h (less t)

  -- For any journal: the entries that are taken are the first ones of what is to read, the batch holds
  -- their records in order, the cursor is that of the last of them, and the batch is as long as allowed
  -- unless the journal ends.
  pub fill-Takes :
      (n : ℕ) (reads : List (Read E)) (s : Stamper) → Takes n reads s (fill map_entry n reads s)
  unfolding fill records_of
  fill-Takes zero reads s = ([], refl, refl, refl, refl)
  fill-Takes (suc n) [] s = ([], refl, refl, refl, (refl, omega arith))
  fill-Takes (suc n) (unreached ∷ reads) s = tt
  fill-Takes (suc n) (got now entry c ∷ reads) s =
      after_entry-Takes now entry reads s n c (map_entry now entry s) refl
        (fill-Takes (suc n) reads) (fill-Takes n reads)
