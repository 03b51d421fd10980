-- ===== src/Tail/Resume.antt =====
-- `marks`, `unread_bytes` and `resume` of crates/tributary/src/tail.rs.
use tributary.Prelude.{
  ℕ, ◌+◌, ◌-◌, Bool, true, false, not, ◌&&◌, ◌||◌, List, [], ◌∷◌, ◌++◌, map, Option, none, some,
  Text, text_eq, text_has_eq, ltb, if◌then◌else◌, u64_add, strip_prefix,
}
use tributary.Checkpoint.{FileMark, find_mark}
use tributary.Tail.{Node, node_eq, Fs, Open, Tailer, stat, node, size, open_at}

abbrev pub live : Option Open → List Open
live none = []
live (some o) = o ∷ []

abbrev pub mark : Open → FileMark
mark o = record { dev = o.dev; ino = o.ino; offset = o.offset }

unfoldable pub marks : Tailer → List FileMark
marks t = map mark (t.draining ++ live t.current)

unfoldable pub unread : Fs → List Open → ℕ
unfolding size
unread fs [] = 0
unread fs (o ∷ os) = size fs o - o.offset + unread fs os

unfoldable pub unread_bytes : Fs → Tailer → ℕ
unfolding unread
unread_bytes fs t = unread fs (t.draining ++ live t.current)

abbrev is_sibling : Text → Text → Bool
unfolding strip_prefix
is_sibling path name =
    not (text_eq name path) && elim (strip_prefix path name) [ none ↦ false | some s ↦ true ]

-- The names that a rotation may have moved the file to.
unfoldable pub siblings : Text → List (Text × Node) → List Text
unfolding is_sibling
siblings path [] = []
siblings path ((name, n) ∷ names) =
    let rest = siblings path names in if is_sibling path name then name ∷ rest else rest

unfoldable pub sibling_paths : Fs → Text → List Text
unfolding siblings
sibling_paths fs path = path ∷ siblings path fs.names

abbrev pub stands_for : Node → Option Node → Bool
stands_for n none = false
stands_for n (some m) = node_eq m n

unfoldable pub find_inode : Fs → List Text → Node → Option Text
find_inode fs [] n = none
find_inode fs (p ∷ ps) n =
    let rest = find_inode fs ps n in if stands_for n (stat fs p) then some p else rest

-- A recorded file goes on at its offset; one that is gone is counted. An error of the file system
-- gives none.
unfoldable pub adopt : Fs → Text → Open → Tailer → Tailer
unfolding size
adopt fs p o t =
    if ltb o.offset (size fs o) || not (text_eq p t.path)
    then record t { draining = t.draining ++ o ∷ [] }
    else t

abbrev pub and_then : Option Tailer → (Tailer → Option Tailer) → Option Tailer
and_then none f = none
and_then (some t) f = f t

unfoldable pub resume_opened : Fs → Text → Tailer → Option Open → Option Tailer
unfolding adopt
resume_opened fs p t none = none
resume_opened fs p t (some o) = some (adopt fs p o t)

unfoldable pub resume_found : Fs → FileMark → Tailer → Option Text → Option Tailer
unfolding open_at resume_opened
resume_found fs m t none = some (record t { files_lost = u64_add t.files_lost 1 })
resume_found fs m t (some p) = resume_opened fs p t (open_at fs p m.offset)

unfoldable pub resume_marks : Fs → List FileMark → Tailer → Option Tailer
unfolding find_inode sibling_paths resume_found
resume_marks fs [] t = some t
resume_marks fs (m ∷ ms) t =
    and_then (resume_found fs m t (find_inode fs (sibling_paths fs t.path) (m.dev, m.ino)))
      (resume_marks fs ms)

-- The first open file with this node, and the others.
unfoldable pub take_known : Node → List Open → Option (Open × List Open)
take_known n [] = none
take_known n (o ∷ os) =
    let rest = take_known n os in
    if node_eq (node o) n
    then some (o, os)
    else elim rest [ none ↦ none | some (k, others) ↦ some (k, o ∷ others) ]

abbrev pub start_of : Option FileMark → ℕ
start_of none = 0
start_of (some m) = m.offset

abbrev pub live_at : Tailer → Option Open → Option Tailer
live_at t none = none
live_at t (some o) = some (record t { current = some o })

-- The live file, which goes on if it is a known one.
unfoldable pub resume_known :
    Fs → List FileMark → Tailer → Node → Option (Open × List Open) → Option Tailer
unfolding open_at find_mark
resume_known fs ms t n (some (o, others)) = some (record t { draining = others; current = some o })
resume_known fs ms t (dev, ino) none =
    live_at t (open_at fs t.path (start_of (find_mark dev ino ms)))

unfoldable pub resume_live : Fs → List FileMark → Tailer → Option Node → Option Tailer
unfolding take_known resume_known
resume_live fs ms t none = some t
resume_live fs ms t (some n) = resume_known fs ms t n (take_known n t.draining)

abbrev pub fresh : Text → Tailer
fresh path = record { path = path; draining = []; current = none; files_lost = 0; rotations = 0 }

unfoldable pub resume : Fs → Text → List FileMark → Option Tailer
unfolding resume_marks resume_live
resume fs path ms =
    and_then (resume_marks fs ms (fresh path)) (λ t. resume_live fs ms t (stat fs path))
