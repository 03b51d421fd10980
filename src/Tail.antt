-- ===== src/Tail.antt =====
-- crates/tributary/src/tail.rs: a log file followed through rotation. A directory is a list of names
-- with the files that they stand for; the bytes of a file are found by its device and inode, also when
-- no name is left. Every operation takes the file system as it is at that time; a read that fails ends
-- the agent and is not modelled.
pub mod Lines
pub mod Follow
pub mod Coming
pub mod Next
pub mod Adopt
pub mod Resume
pub mod Marks
mod Examples
use tributary.Prelude.{
  ℕ, suc, ◌+◌, ◌-◌, Bool, true, false, not, ◌&&◌, List, [], ◌∷◌, ◌++◌, map, reverse, Option, none,
  some, Text, codes, text_eq, text_has_eq, ltb, ◌==◌, if◌then◌else◌, length, drop, min, u64_add,
  lookup, strip_prefix, Eq, arith, ◌≡◌, ◌↔◌,
}
use tributary.Checkpoint.{FileMark, Checkpoint}

-- Device and inode.
abbrev pub Node : Type 0
Node = ℕ × ℕ

abbrev node_eq : Node → Node → Bool
node_eq (d, i) (e, j) = d == e && i == j

pub node_eq_iff : (a b : Node) → (node_eq a b ≡ true) ↔ (a ≡ b)
node_eq_iff (d, i) (e, j) = ground arith

instance abbrev pub node_has_eq : Eq Node
node_has_eq = record { beq = node_eq; beq_iff = node_eq_iff }

-- The names of one directory, the bytes of the files, and which names can be opened.
pub record Fs : Type 0 where
  pub names : List (Text × Node)
  pub bytes : List (Node × Text)
  pub opens : Text → Bool

-- `metadata` of a path.
abbrev pub stat : Fs → Text → Option Node
stat fs path = lookup path fs.names

unfoldable pub contents : Fs → Node → Text
contents fs node = elim (lookup node fs.bytes) [ none ↦ [] | some text ↦ text ]

-- The reader of an open file always stands at the offset.
pub record Open : Type 0 where
  pub dev : ℕ
  pub ino : ℕ
  pub path : Text
  pub offset : ℕ

abbrev pub node : Open → Node
node o = (o.dev, o.ino)

unfoldable pub size : Fs → Open → ℕ
unfolding contents
size fs o = length (contents fs (node o))

unfoldable pub open_at : Fs → Text → ℕ → Option Open
unfolding contents
open_at fs path offset = elim (stat fs path) [
  | none ↦ none
  | some (dev, ino) ↦
      if fs.opens path
      then some (record {
        dev = dev;
        ino = ino;
        path = path;
        offset = min offset (length (contents fs (dev, ino)));
      })
      else none
]

-- What `read_until` finds up to the next newline, and what is behind it; none if the rest of the file
-- has no newline.
unfoldable pub cut : Text → Option (Text × Text)
cut [] = none
cut (c ∷ s) =
    let rest = cut s in
    if c == b'\n' then some ([], s) else elim rest [ none ↦ none | some (l, r) ↦ some (c ∷ l, r) ]

-- A carriage return at the end goes too.
abbrev chomp_back : Text → Text
chomp_back [] = []
chomp_back (c ∷ s) = if c == b'\r' then s else c ∷ s

unfoldable pub chomp : Text → Text
chomp l = reverse (chomp_back (reverse l))

-- A partial last line is left for later.
unfoldable pub read_line : Fs → Open → Option Text × Open
unfolding cut chomp contents
read_line fs o = elim (cut (drop o.offset (contents fs (node o)))) [
  | none ↦ (none, o)
  | some (l, r) ↦ (some (chomp l), record o { offset = o.offset + suc (length l) })
]

pub record Tailer : Type 0 where
  pub path : Text
  pub draining : List Open
  pub current : Option Open
  pub files_lost : ℕ
  pub rotations : ℕ

-- The loop over the rotated files: one without another whole line is closed.
unfoldable pub drain_files : Fs → List Open → Option Text × List Open
unfolding read_line
drain_files fs [] = (none, [])
drain_files fs (o ∷ os) =
    let rest = drain_files fs os in
    let (line, o') = read_line fs o in elim line [ none ↦ rest | some l ↦ (some l, o' ∷ os) ]

unfoldable pub drain_pending : Fs → Tailer → Option Text × Tailer
unfolding drain_files
drain_pending fs t =
    let (line, draining) = drain_files fs t.draining in (line, record t { draining = draining })

-- The new file at the path, from its start.
abbrev pub reopen : Fs → Tailer → Tailer
unfolding open_at
reopen fs t = record t { current = open_at fs t.path 0 }

abbrev pub count_rotation : Tailer → Tailer
count_rotation t = record t { rotations = u64_add t.rotations 1 }

-- The old file, if it has bytes left.
abbrev pub keep_old : Fs → Open → Tailer → Tailer
unfolding size
keep_old fs old t = record t {
  draining = if ltb old.offset (size fs old) then t.draining ++ old ∷ [] else t.draining;
}

abbrev pub rotate : Fs → Open → Option Node → Tailer → Tailer
unfolding reopen keep_old
rotate fs cur none t = t
rotate fs cur (some there) t =
    if node_eq there (node cur) then t else reopen fs (keep_old fs cur (count_rotation t))

unfoldable pub check_rotation : Fs → Tailer → Tailer
unfolding rotate size
check_rotation fs t = elim t.current [
  | none ↦ reopen fs t
  | some cur ↦
      if ltb (size fs cur) cur.offset
      then reopen fs (count_rotation t)
      else rotate fs cur (stat fs t.path) t
]

abbrev pub read_current : Fs → Tailer → Option Text × Tailer
unfolding read_line
read_current fs t = elim t.current [
  | none ↦ (none, t)
  | some cur ↦ let (line, o) = read_line fs cur in (line, record t { current = some o })
]

-- `next_line` of the tailer: what is rotated away, the rotation, what that one left, the live file.
abbrev pub or_else : Option Text × Tailer → (Tailer → Option Text × Tailer) → Option Text × Tailer
or_else (some l, t) f = (some l, t)
or_else (none, t) f = f t

unfoldable pub next_line : Fs → Tailer → Option Text × Tailer
unfolding drain_pending check_rotation read_current
next_line fs t =
    or_else (drain_pending fs t)
      (λ t₁. or_else (drain_pending fs (check_rotation fs t₁)) (read_current fs))
