-- ===== src/Checkpoint.antt =====
-- crates/tributary/src/checkpoint.rs: the resume state of a stream on disk. The directory of the state
-- is an association list from names to contents; what the file system answers, and what a failed
-- write leaves behind, are arguments. The JSON of a checkpoint is the library's: `encode` and
-- `decode`, `none` for an error.
pub mod Atomic
mod Examples
use tributary.Prelude.{
  ℕ, Bool, true, false, ◌&&◌, List, [], ◌∷◌, ◌++◌, Option, none, some, Text, codes, ltb, ◌==◌,
  if◌then◌else◌, lookup, insert, remove, text_has_eq,
}
use tributary.Prelude.Int.{ℤ, pos}

abbrev pub Directory : Type 0
Directory = List (Text × Text)

pub record FileMark : Type 0 where
  pub dev : ℕ
  pub ino : ℕ
  pub offset : ℕ

abbrev pub checkpoint_format_version : ℕ
checkpoint_format_version = 1

pub record Checkpoint : Type 0 where
  pub format : ℕ
  pub files : List FileMark
  pub last_tick_ns : Option ℤ
  pub next_seq : ℤ
  pub lateness_ns : Option ℤ
  pub cursor : Option Text

abbrev pub default : Checkpoint
default = record {
  format = checkpoint_format_version;
  files = [];
  last_tick_ns = none;
  next_seq = pos 0;
  lateness_ns = none;
  cursor = none;
}

abbrev pub path_for : Text → Text
path_for stream = stream ++ codes ".checkpoint"

-- `path.with_extension("checkpoint.tmp")`.
abbrev pub tmp_for : Text → Text
tmp_for stream = stream ++ codes ".checkpoint.tmp"

pub data Loaded : Type 0 where
  absent unreadable unparseable : Loaded
  newer : ℕ → Loaded
  loaded : Checkpoint → Loaded

unfoldable pub accept_format : Checkpoint → Loaded
accept_format cp = if ltb checkpoint_format_version cp.format then newer cp.format else loaded cp

-- `readable` tells whether a file that is there can be read.
unfoldable pub load : Bool → (Text → Option Checkpoint) → Text → Directory → Loaded
unfolding accept_format lookup
load readable decode stream dir = elim (lookup (path_for stream) dir) [
  | none ↦ absent
  | some bytes ↦
      if readable
      then elim (decode bytes) [ none ↦ unparseable | some cp ↦ accept_format cp ]
      else unreadable
]

-- Whether each step of a save succeeds, and what a failed write leaves in the temporary file.
pub record Io : Type 0 where
  pub creates_dir : Bool
  pub writes : Bool
  pub partial : Option Text
  pub renames : Bool

abbrev pub leave_partial : Text → Option Text → Directory → Directory
leave_partial tmp none dir = dir
leave_partial tmp (some part) dir = insert tmp part dir

-- The write of the bytes and the rename; the answer tells whether the checkpoint is published.
unfoldable pub publish : Io → Text → Text → Directory → Bool × Directory
publish io stream bytes dir =
    let tmp = tmp_for stream in
    if io.writes
    then (if io.renames
        then (true, insert (path_for stream) bytes (remove tmp (insert tmp bytes dir)))
        else (false, insert tmp bytes dir))
    else (false, leave_partial tmp io.partial dir)

unfoldable pub save :
    Io → (Checkpoint → Option Text) → Checkpoint → Text → Directory → Bool × Directory
unfolding publish
save io encode cp stream dir =
    if io.creates_dir
    then elim (encode cp) [
      | none ↦ (false, leave_partial (tmp_for stream) io.partial dir)
      | some bytes ↦ publish io stream bytes dir
    ]
    else (false, dir)

unfoldable pub find_mark : ℕ → ℕ → List FileMark → Option FileMark
find_mark dev ino [] = none
find_mark dev ino (m ∷ files) =
    let rest = find_mark dev ino files in if (m.dev == dev) && (m.ino == ino) then some m else rest

unfoldable pub mark_for : ℕ → ℕ → Checkpoint → Option FileMark
unfolding find_mark
mark_for dev ino cp = find_mark dev ino cp.files
