-- ===== src/Logfile.antt =====
-- crates/tributary/src/logfile.rs: the agent's own log, rotated by size and by age. The directory is an
-- association list from names to bytes; an open file is known by the name it has now, since a rename
-- takes it along. Times are in seconds, and what the file system and the clock answer is an argument.
pub mod Limits
pub mod Files
pub mod Written
mod Examples
use tributary.Prelude.{
  ℕ, zero, suc, ◌+◌, ◌-◌, ◌*◌, ◌/◌, ◌%◌, Bool, true, false, ◌&&◌, ◌||◌, List, [], ◌∷◌, ◌++◌, Option,
  none, some, Text, codes, text_eq, text_has_eq, ltb, leb, if◌then◌else◌, length, take, lookup,
  insert, remove, strip_prefix, decimal, zeros, u64_add,
}
use tributary.Prelude.Sort.{sort_by}
use tributary.Queue.{name_le}

pub record RotatingLog : Type 0 where
  pub name : Text
  pub size_limit : Option ℕ
  pub interval : Option ℕ
  pub keep : Option ℕ
  pub file : Text
  pub written : ℕ
  pub opened : ℕ
  pub dir : List (Text × Text)

-- What one write meets: the clock before it and behind a new file, and what succeeds; the bytes that
-- are written, none for an error.
pub record LogIo : Type 0 where
  pub now : ℕ
  pub flush : Bool
  pub rename : Bool
  pub create : Bool
  pub reopened : ℕ
  pub unlink : Text → Bool
  pub write : Option ℕ

abbrev over_limit : Option ℕ → ℕ → ℕ → Bool
over_limit none written next = false
over_limit (some limit) written next = ltb limit (u64_add written next) && ltb 0 written

abbrev is_due : Option ℕ → ℕ → ℕ → Bool
is_due none age written = false
is_due (some every) age written = leb every age && ltb 0 written

-- A clock that went back gives the age 0.
unfoldable pub should_rotate : RotatingLog → ℕ → ℕ → Bool
unfolding u64_add
should_rotate log now next =
    over_limit log.size_limit log.written next || is_due log.interval (now - log.opened) log.written

-- A number with leading zeros to the width.
abbrev padded : ℕ → ℕ → Text
unfolding decimal
padded width n = zeros (width - length (decimal n)) (decimal n)

-- The date of a day from the start of 1970 on: year, month and day of the month.
unfoldable pub civil_from_days : ℕ → ℕ × ℕ × ℕ
civil_from_days days =
    let z = days + 719468 in
    let doe = z % 146097 in
    let yoe = (doe - doe / 1460 + doe / 36524 - doe / 146096) / 365 in
    let y = yoe + z / 146097 * 400 in
    let doy = doe - (365 * yoe + yoe / 4 - yoe / 100) in
    let mp = (5 * doy + 2) / 153 in
    let d = doy - (153 * mp + 2) / 5 + 1 in
    let m = if ltb mp 10 then mp + 3 else mp - 9 in (if leb m 2 then y + 1 else y, m, d)

unfoldable pub stamp_utc : ℕ → Text
unfolding civil_from_days decimal
stamp_utc secs =
    let (y, m, d) = civil_from_days (secs / 86400) in
    let sod = secs % 86400 in
    padded 4 y
    ++ padded 2 m
    ++ padded 2 d
    ++ codes "-"
    ++ padded 2 (sod / 3600)
    ++ padded 2 (sod % 3600 / 60)
    ++ padded 2 (sod % 60)

unfoldable pub candidate : Text → Text → ℕ → Text
unfolding decimal
candidate name stamp zero = name ++ b'.' ∷ stamp
candidate name stamp (suc n) = name ++ b'.' ∷ stamp ++ b'.' ∷ decimal (suc n)

-- The first candidate that is not in the directory, out of the number of them that are tried.
unfoldable pub target : ℕ → Text → Text → ℕ → List (Text × Text) → Option Text
unfolding candidate lookup
target zero name stamp n dir = none
target (suc tries) name stamp n dir =
    let rest = target tries name stamp (suc n) dir in
    elim (lookup (candidate name stamp n) dir) [
      | none ↦ some (candidate name stamp n)
      | some bytes ↦ rest
    ]

abbrev is_rotated : Text → Text → Bool
unfolding strip_prefix
is_rotated name file = elim (strip_prefix (name ++ b'.' ∷ []) file) [ none ↦ false | some s ↦ true ]

-- The names beside the live file that begin with its name and a dot.
unfoldable pub rotated_files : Text → List (Text × Text) → List Text
unfolding strip_prefix
rotated_files name [] = []
rotated_files name ((file, bytes) ∷ dir) =
    let rest = rotated_files name dir in if is_rotated name file then file ∷ rest else rest

-- What cannot be removed stays.
unfoldable pub remove_files : (Text → Bool) → List Text → List (Text × Text) → List (Text × Text)
unfolding remove
remove_files unlink [] dir = dir
remove_files unlink (p ∷ ps) dir = remove_files unlink ps (if unlink p then remove p dir else dir)

unfoldable pub prune : (Text → Bool) → RotatingLog → RotatingLog
unfolding rotated_files remove_files name_le
prune unlink log = elim log.keep [
  | none ↦ log
  | some keep ↦
      let rotated = rotated_files log.name log.dir in
      if leb (length rotated) keep then log else record log {
        dir = remove_files unlink (take (length rotated - keep) (sort_by name_le rotated)) log.dir;
      }
]

-- A new live file: if it cannot be created, the open file is still the renamed one.
unfoldable pub reopen : LogIo → RotatingLog → RotatingLog
unfolding insert prune
reopen io log =
    if io.create
    then prune io.unlink (record log {
      dir = insert log.name [] log.dir;
      file = log.name;
      written = 0;
      opened = io.reopened;
    })
    else log

-- There is nothing to rename where a new live file could not be created before.
unfoldable pub rename_aside : LogIo → Text → Option Text → RotatingLog → RotatingLog
unfolding reopen insert remove
rename_aside io to none log = log
rename_aside io to (some bytes) log =
    if io.flush && io.rename
    then reopen io (record log {
      dir = insert to bytes (remove log.name log.dir);
      file = if text_eq log.file log.name then to else log.file;
    })
    else log

-- Its result is not looked at.
unfoldable pub rotate : LogIo → RotatingLog → RotatingLog
unfolding target stamp_utc rename_aside lookup
rotate io log = elim (target 1001 log.name (stamp_utc io.now) 0 log.dir) [
  | none ↦ log
  | some to ↦ rename_aside io to (lookup log.name log.dir) log
]

-- A file that has no name any more takes its bytes with it.
abbrev pub appended : Text → Option Text → Text → List (Text × Text) → List (Text × Text)
unfolding insert
appended file none bytes dir = dir
appended file (some old) bytes dir = insert file (old ++ bytes) dir

unfoldable pub write_bytes : Option ℕ → Text → RotatingLog → Option ℕ × RotatingLog
unfolding insert lookup u64_add
write_bytes none buf log = (none, log)
write_bytes (some n) buf log = (
  some n,
  record log {
    dir = appended log.file (lookup log.file log.dir) (take n buf) log.dir;
    written = u64_add log.written n;
  },
)

unfoldable pub write_line : LogIo → Text → RotatingLog → Option ℕ × RotatingLog
unfolding should_rotate rotate write_bytes
write_line io buf log =
    write_bytes io.write buf (if should_rotate log io.now (length buf) then rotate io log else log)

-- The file is continued, not truncated.
unfoldable pub open_log :
    Text → Option ℕ → Option ℕ → Option ℕ → ℕ → List (Text × Text) → RotatingLog
unfolding lookup insert
open_log name size_limit interval keep now dir = record {
  name = name;
  size_limit = size_limit;
  interval = interval;
  keep = keep;
  file = name;
  written = elim (lookup name dir) [ none ↦ 0 | some bytes ↦ length bytes ];
  opened = now;
  dir = elim (lookup name dir) [ none ↦ insert name [] dir | some bytes ↦ dir ];
}
