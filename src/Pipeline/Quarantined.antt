-- ===== src/Pipeline/Quarantined.antt =====
-- `quarantine` of crates/tributary/src/main.rs behind a batch that was answered: what stays as it is, and
-- what the dead letters get.
use tributary.Prelude.{
  ◌+◌, ◌*◌, ◌<◌, ◌^◌, ◌≡◌, refl, sym, ap, ◌∙◌, ◌++◌, ℕ, List, [], ◌∷◌, map, Option, none, some,
  Text, arith, length, append-nil, subst, text_has_eq,
}
use tributary.Queue.{Disk, Queue}
use tributary.Queue.Fifo.{batches}
use tributary.Ship.{sent, Shipper, concat, send_lines}
use tributary.Pipeline.{System, Agent, Run, ok, err, stuck, quarantine, written}
use tributary.Pipeline.Pool.{
  IsUnanswered, tally, on_disk, size, seen, IsSafe, Event, idle, answered, refused, appending,
  delivered, Runs, Moves, Ends,
}
use tributary.Pipeline.Queued.{Sound}

module _ {ℓ} {World : Type ℓ} where
  -- What the batches that are owed stand in.
  abbrev core : Agent World → Queue × Disk × List Text × List (List Text)
  core a = (a.pipe.queue, a.disk, a.pipe.held, a.pipe.inflight)

abbrev SafeCore : List Text → Queue × Disk × List Text × List (List Text) → Type 0
SafeCore spare (q, disk, held, inflight) =
    Sound q disk
    × (q.next_seq + length held + length inflight + length spare < 2 ^ 64)
    × ((q.bytes + size held + size (map concat inflight) + size spare) * 2 < 2 ^ 64)

abbrev tally_core : Text → Queue × Disk × List Text × List (List Text) → ℕ
tally_core t (q, disk, held, inflight) =
    tally t (on_disk (batches q disk)) + tally t held + tally t (map concat inflight)

module _ {ℓ} {World : Type ℓ} (sys : System World) (fuel : ℕ) where
  -- Batches were delivered, and the pipeline still has what it had.
  pub record Same (bodies : List Text) (a b : Agent World) : Type ℓ where
    pub events : List Event
    pub runs : Runs sys fuel events (seen a) (seen b)
    pub gives : delivered events ≡ bodies
    pub cores : core b ≡ core a
    pub limits : b.pipe.max_inflight ≡ a.pipe.max_inflight
    pub dirs : b.state_dir ≡ a.state_dir

  -- They are owed besides, then.
  abbrev pub Same-Moves :
      (spare bodies : List Text) (a b : Agent World)
      → Same bodies a b
      → IsSafe spare a
      → Moves sys fuel spare bodies a b
  Same-Moves spare bodies a b k h = (
    (k.events, k.runs, λ t. omega (arith, ap (tally_core t) k.cores, ap (tally t) k.gives)),
    subst (SafeCore spare) (sym k.cores) h,
    ap (λ c. c.3) k.cores,
    k.limits,
    k.dirs,
  )

  pub map-Ends :
      (a : Agent World) (P Q : Agent World → Type ℓ) (r : Run World)
      → ((b : Agent World) → P b → Q b)
      → Ends sys fuel a P r
      → Ends sys fuel a Q r
  map-Ends a P Q (ok b) f h = f b h
  map-Ends a P Q (err c b) f h = h
  map-Ends a P Q stuck f h = h

  pub Runs-append :
      (es fs : List Event) (x y z : Shipper × World × Text)
      → Runs sys fuel es x y
      → Runs sys fuel fs y z
      → Runs sys fuel (es ++ fs) x z
  Runs-append [] fs x y z h k = subst (λ v. Runs sys fuel fs v z) (sym h) k
  Runs-append (idle call ∷ es) fs x y z h k = Runs-append es fs _ y z h k
  Runs-append (answered lines poison ∷ es) fs x y z (s, w, e, h) k =
      (s, w, e, Runs-append es fs _ y z h k)
  Runs-append (refused lines error ∷ es) fs x y z (s, w, e, h) k =
      (s, w, e, Runs-append es fs _ y z h k)

  -- The same of a run that started earlier.
  pub onward-IsUnanswered :
      (a b : Agent World) (es : List Event)
      → Runs sys fuel es (seen a) (seen b)
      → IsUnanswered sys fuel b
      → IsUnanswered sys fuel a
  onward-IsUnanswered a b es run (fs, s, w, dead, h, lines, e) =
      (es ++ fs, s, w, dead, Runs-append es fs (seen a) (seen b) (s, w, dead) run h, lines, e)

  pub onward-Ends :
      (a b : Agent World) (es : List Event) (P Q : Agent World → Type ℓ) (r : Run World)
      → Runs sys fuel es (seen a) (seen b)
      → b.state_dir ≡ a.state_dir
      → ((c : Agent World) → P c → Q c)
      → Ends sys fuel b P r
      → Ends sys fuel a Q r
  onward-Ends a b es P Q (ok c) run e f h = f c h
  onward-Ends a b es P Q (err x c) run e f h = record { kept = h.kept ∙ e; cause = h.cause }
  onward-Ends a b es P Q stuck run e f h = onward-IsUnanswered a b es run h

  module _ (lines : List Text) (a : Agent World) (s : Shipper) (w : World) where
    abbrev pub shipped_by : Agent World
    shipped_by = record a { pipe = record a.pipe { shipper = s }; world = w }

    pub quarantine-Same :
        (poison : List Text)
        → send_lines sys.post sys.gzip fuel lines a.pipe.shipper a.world ≡ some (sent poison, s, w)
        → Ends sys fuel a (Same (concat lines ∷ []) a) (quarantine sys fuel poison shipped_by)
    unfolding quarantine
    quarantine-Same [] e = record {
      events = answered lines [] ∷ [];
      runs = (s, w, e, ap (λ dead. (s, w, dead)) (append-nil a.dead_letters));
      gives = refl;
      cores = refl;
      limits = refl;
      dirs = refl;
    }
    quarantine-Same (l ∷ ls) e = appended (sys.append w).0
      where
        appended :
            (part : Option Text)
            → Ends sys fuel a (Same (concat lines ∷ []) a) (
                written sys fuel
                  (concat (l ∷ ls))
                  (length (l ∷ ls))
                  shipped_by
                  (part, (sys.append w).1))
        appended none = record {
          events = answered lines (l ∷ ls) ∷ idle appending ∷ [];
          runs = (s, w, e, refl);
          gives = refl;
          cores = refl;
          limits = refl;
          dirs = refl;
        }
        appended (some text) = record { kept = refl; cause = tt }
