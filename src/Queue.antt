-- ===== src/Queue.antt =====
-- crates/tributary/src/queue.rs: the disk queue. A directory is an association list from file names
-- to contents. What the file system answers is an argument of each operation: it may refuse, it may
-- leave part of a file behind, and the removal of a partial file may fail.
pub mod Names
pub mod Fifo
pub mod Spool
pub mod Push
pub mod Pop
mod Examples
use tributary.Prelude.{
  ℕ, ◌+◌, ◌-◌, ◌*◌, ◌%◌, ◌^◌, Bool, true, false, ◌&&◌, ◌||◌, List, [], ◌∷◌, ◌++◌, map, Option, none,
  some, Text, codes, decimal, zeros, parse_u64, u64_add, ltb, leb, ◌==◌, if◌then◌else◌, length,
  drop, last?, lookup, insert, remove, strip_suffix, text_has_eq,
}
use tributary.Prelude.Sort.{sort_by}

abbrev pub Disk : Type 0
Disk = List (Text × Text)

pub record IoError : Type 0 where
  pub storage_full : Bool
  pub raw_os_error : Option ℕ

pub data Outcome : Type 0 where
  done : Outcome
  failed : IoError → Outcome

-- ENOSPC; the codes of a unix build.
abbrev out_of_space_codes : List ℕ
out_of_space_codes = 28 ∷ []

unfoldable contains : ℕ → List ℕ → Bool
contains c [] = false
contains c (d ∷ ds) = (c == d) || contains c ds

unfoldable pub out_of_space : IoError → Bool
unfolding contains
out_of_space e =
    e.storage_full || elim e.raw_os_error [ none ↦ false | some c ↦ contains c out_of_space_codes ]

-- What the file system does with one spool: the write, what a failed write leaves, whether a partial
-- file can be removed, and the rename.
pub record Io : Type 0 where
  pub write : Outcome
  pub partial : Option Text
  pub unlinks : Bool
  pub rename : Outcome

pub record Queue : Type 0 where
  pub max_bytes : ℕ
  pub bytes : ℕ
  pub next_seq : ℕ
  pub segments : List Text
  pub full : Bool
  pub spilled_total : ℕ
  pub drained_total : ℕ

-- `{:012}`.
unfoldable pub padded : ℕ → Text
padded n = zeros (12 - length (decimal n)) (decimal n)

unfoldable pub segment_name : ℕ → Text
unfolding padded
segment_name n = padded n ++ codes ".lp"

unfoldable pub tmp_name : ℕ → Text
unfolding padded
tmp_name n = padded n ++ codes ".tmp"

-- The files with an extension. A name that is nothing but the dot and the extension has none.
unfoldable has_extension : Text → Text → Bool
unfolding strip_suffix
has_extension ext name = elim (strip_suffix (b'.' ∷ ext) name) [
  | none ↦ false
  | some stem ↦ elim stem [ [] ↦ false | c ∷ s ↦ true ]
]

unfoldable names_with : Text → Disk → List Text
unfolding has_extension
names_with ext [] = []
names_with ext ((name, body) ∷ disk) =
    let rest = names_with ext disk in if has_extension ext name then name ∷ rest else rest

-- The length of a file, 0 if there is none.
abbrev pub file_len : Disk → Text → ℕ
file_len disk name = elim (lookup name disk) [ none ↦ 0 | some body ↦ length body ]

-- The order in which paths of one directory sort.
unfoldable pub name_le : Text → Text → Bool
name_le [] t = true
name_le (c ∷ s) [] = false
name_le (c ∷ s) (d ∷ t) =
    let rest = name_le s t in if ltb c d then true else if c == d then rest else false

abbrev total_len : Disk → List Text → ℕ
total_len disk [] = 0
total_len disk (name ∷ names) = file_len disk name + total_len disk names

-- The number in a segment's name.
unfoldable pub name_seq : Text → Option ℕ
unfolding strip_suffix
name_seq name = elim (strip_suffix (codes ".lp") name) [ none ↦ none | some stem ↦ parse_u64 stem ]

abbrev next_after : Option Text → ℕ
unfolding name_seq
next_after none = 0
next_after (some name) = elim (name_seq name) [ none ↦ 0 | some n ↦ n + 1 ]

-- The sweep of half-written segments; `unlinks` says which of them can be removed.
unfoldable sweep : (Text → Bool) → Disk → Disk
unfolding has_extension
sweep unlinks [] = []
sweep unlinks ((name, body) ∷ disk) =
    let rest = sweep unlinks disk in
    if has_extension (codes "tmp") name && unlinks name then rest else (name, body) ∷ rest

unfoldable pub open_queue : (Text → Bool) → ℕ → Disk → Queue × Disk
unfolding names_with name_le next_after sweep
open_queue unlinks max_bytes disk =
    let segments = sort_by name_le (names_with (codes "lp") disk) in
    (
      record {
        max_bytes = max_bytes;
        bytes = total_len disk segments;
        next_seq = next_after (last? segments);
        segments = segments;
        full = false;
        spilled_total = 0;
        drained_total = 0;
      },
      sweep unlinks disk,
    )

-- `Ok(true)`, `Ok(false)` and an error.
pub data Spooled : Type 0 where
  accepted no_room : Spooled
  broken : IoError → Spooled

unfoldable pub refuse : IoError → Spooled
unfolding out_of_space
refuse e = if out_of_space e then no_room else broken e

abbrev pub leave_partial : Text → Option Text → Disk → Disk
leave_partial tmp none disk = disk
leave_partial tmp (some part) disk = insert tmp part disk

abbrev pub unlink : Bool → Text → Disk → Disk
unlink unlinks tmp disk = if unlinks then remove tmp disk else disk

unfoldable pub commit : Text → Queue → Queue
commit body q = record q {
  next_seq = u64_add q.next_seq 1;
  bytes = u64_add q.bytes (length body);
  segments = q.segments ++ segment_name q.next_seq ∷ [];
  spilled_total = u64_add q.spilled_total 1;
}

-- The rename, once the temporary file is written.
unfoldable pub publish : Io → Text → Queue → Disk → Spooled × Queue × Disk
unfolding refuse commit
publish io body q disk =
    let tmp = tmp_name q.next_seq in
    elim io.rename [
      | failed e ↦ (refuse e, q, unlink io.unlinks tmp disk)
      | done ↦ (accepted, commit body q, insert (segment_name q.next_seq) body (remove tmp disk))
    ]

unfoldable pub spool : Io → Text → Queue → Disk → Spooled × Queue × Disk
unfolding publish
spool io body q disk =
    let tmp = tmp_name q.next_seq in
    elim io.write [
      | failed e ↦ (refuse e, q, unlink io.unlinks tmp (leave_partial tmp io.partial disk))
      | done ↦ publish io body q (insert tmp body disk)
    ]

-- A refusal for want of space pauses reading, and so does the cap.
abbrev pub pause : Spooled × Queue × Disk → Spooled × Queue × Disk
pause (accepted, q, disk) = (accepted, q, disk)
pause (no_room, q, disk) = (no_room, record q { full = true }, disk)
pause (broken e, q, disk) = (broken e, q, disk)

unfoldable pub push : Io → Text → Queue → Disk → Spooled × Queue × Disk
unfolding spool
push io body q disk =
    if ltb q.max_bytes (u64_add q.bytes (length body))
    then (no_room, record q { full = true }, disk)
    else pause (spool io body q disk)

abbrev pub force : Spooled × Queue × Disk → Spooled × Queue × Disk
force (accepted, q, disk) = (accepted, record q { full = true }, disk)
force (no_room, q, disk) = (no_room, record q { full = true }, disk)
force (broken e, q, disk) = (broken e, q, disk)

unfoldable pub push_forced : Io → Text → Queue → Disk → Spooled × Queue × Disk
unfolding spool
push_forced io body q disk = force (spool io body q disk)

unfoldable pub front : Queue → Option Text
front q = elim q.segments [ [] ↦ none | name ∷ rest ↦ some name ]

abbrev pub not_found : IoError
not_found = record { storage_full = false; raw_os_error = some 2 }

-- `remove_file`: what the file system answers, but a missing file is always an error.
abbrev removal : Outcome → Option Text → Outcome
removal outcome none = failed not_found
removal outcome (some body) = outcome

unfoldable pub retire : ℕ → Queue → Queue
retire len q =
    let bytes = q.bytes - len in
    record q {
      segments = drop 1 q.segments;
      bytes = bytes;
      drained_total = u64_add q.drained_total 1;
      full = if q.full && leb (bytes * 2 % 2 ^ 64) q.max_bytes then false else q.full;
    }

unfoldable pub pop : Outcome → Text → Queue → Disk → Outcome × Queue × Disk
unfolding retire
pop outcome name q disk = elim (removal outcome (lookup name disk)) [
  | failed e ↦ (failed e, q, disk)
  | done ↦ (done, retire (file_len disk name) q, remove name disk)
]
