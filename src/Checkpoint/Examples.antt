-- ===== src/Checkpoint/Examples.antt =====
-- A save, a save that fails, and what is loaded after each.
use tributary.Prelude.{
  ◌≡◌, ◌≢◌, refl, true, false, [], ◌∷◌, Option, none, some, Text, codes, arith, text_has_eq,
}
use tributary.Checkpoint.{
  Directory, Checkpoint, default, path_for, loaded, load, Io, save, mark_for, publish,
}
use tributary.Checkpoint.Atomic.{load-failed_save, load-save}

-- A stand-in for the JSON, of one checkpoint only.
abbrev encode : Checkpoint → Option Text
encode cp = some (codes "{}")

abbrev decode : Text → Option Checkpoint
decode bytes = some default

abbrev works : Io
works = record { creates_dir = true; writes = true; partial = none; renames = true }

-- The disk fills up during the write.
abbrev fills : Io
fills = record { creates_dir = true; writes = false; partial = some (codes "{"); renames = true }

abbrev dir : Directory
dir = (path_for (codes "old"), codes "{}") ∷ []

load-failed_save_example :
    load true decode (codes "old") (save fills encode default (codes "old") dir).1
    ≡ load true decode (codes "old") dir
load-failed_save_example =
    load-failed_save fills encode default (codes "old") dir true decode (codes "old")
      (unfold save publish in refl)

load-save_example :
    ((save works encode default (codes "app") dir).0 ≡ true)
    × (load true decode (codes "app") (save works encode default (codes "app") dir).1
        ≡ loaded default)
    × ((other : Text)
        → codes "app" ≢ other
        → load true decode other (save works encode default (codes "app") dir).1
          ≡ load true decode other dir)
load-save_example =
    load-save encode decode default (codes "{}") (codes "app") dir works refl refl (omega arith)
      refl refl refl

test_mark :
    mark_for 1 2 (record default { files = record { dev = 1; ino = 2; offset = 30 } ∷ [] })
    ≡ some (record { dev = 1; ino = 2; offset = 30 })
unfolding mark_for
test_mark = refl
