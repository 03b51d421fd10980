-- ===== src/Logfile/Examples.antt =====
-- A log that is rotated twice in one second, and limits as they are written.
use tributary.Prelude.{
  ℕ, ◌≡◌, refl, true, false, List, [], ◌∷◌, ◌++◌, Option, none, some, Text, codes, lookup, insert,
  remove, strip_prefix, strip_suffix, decimal, parse_u64, u64_add, inl,
}
use tributary.Prelude.Sort.{sort_by}
use tributary.Queue.{name_le}
use tributary.Map.Trim.{trim}
use tributary.Logfile.{
  RotatingLog, LogIo, write_line, should_rotate, rotate, target, candidate, stamp_utc,
  civil_from_days, rename_aside, reopen, prune, rotated_files, remove_files, write_bytes,
}
use tributary.Logfile.Limits.{parse_size, parse_duration, parse_units}
use tributary.Logfile.Files.{contents}
use tributary.Logfile.Written.{writes, acknowledged, writes-contents}

abbrev works : Text → LogIo
works buf = record {
  now = 1000000000;
  flush = true;
  rename = true;
  create = true;
  reopened = 1000000000;
  unlink = λ p. true;
  write = some 3;
}

abbrev history : List (LogIo × Text)
history =
    (works (codes "one"), codes "one")
    ∷ (works (codes "two"), codes "two")
    ∷ (record (works (codes "six")) { create = false }, codes "six")
    ∷ []

abbrev log : Option ℕ → RotatingLog
log keep = record {
  name = codes "a.log";
  size_limit = some 3;
  interval = none;
  keep = keep;
  file = codes "a.log";
  written = 3;
  opened = 0;
  dir = (codes "a.log", codes "old") ∷ [];
}

test_stamp : stamp_utc 1000000000 ≡ codes "20010909-014640"
unfolding stamp_utc civil_from_days decimal
test_stamp = refl

-- The second rotation of the second has a number, and the third cannot make a new file.
test_files :
    (writes history (log none)).dir
    ≡ (codes "a.log.20010909-014640", codes "old")
      ∷ (codes "a.log.20010909-014640.1", codes "one")
      ∷ (codes "a.log.20010909-014640.2", codes "twosix")
      ∷ []
unfolding write_line should_rotate rotate target candidate stamp_utc civil_from_days rename_aside
    reopen prune write_bytes decimal lookup insert remove u64_add
test_files = refl

-- With one file to keep the older one goes.
test_kept :
    (writes
      ((works (codes "one"), codes "one") ∷ (works (codes "two"), codes "two") ∷ [])
      (log (some 1))).dir
    ≡ (codes "a.log.20010909-014640.1", codes "one") ∷ (codes "a.log", codes "two") ∷ []
unfolding write_line should_rotate rotate target candidate stamp_utc civil_from_days rename_aside
    reopen prune rotated_files remove_files write_bytes decimal lookup insert remove u64_add
    strip_prefix sort_by name_le
test_kept = refl

test_sizes :
    (parse_size (codes "2 KiB") ≡ some 2048)
    × (parse_size (codes "2KB") ≡ some 2000)
    × (parse_size (codes "0") ≡ none)
    × (parse_size (codes "17179869184GiB") ≡ some 0)
    × (parse_duration (codes "2h") ≡ some 7200)
    × (parse_duration (codes "15") ≡ some 15)
unfolding parse_size parse_duration parse_units trim parse_u64 strip_suffix
test_sizes = (refl, refl, refl, refl, refl, refl)

writes-contents_example :
    contents (writes history (log none)).dir ≡ codes "old" ++ acknowledged history
writes-contents_example =
    writes-contents history (log none) refl ([], codes "old", refl, unfold lookup in refl, inl refl)
