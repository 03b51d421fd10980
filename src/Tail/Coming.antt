-- ===== src/Tail/Coming.antt =====
-- The lines that a file followed by crates/tributary/src/tail.rs has to give, by the names and the bytes
-- alone, in agreement with what the look for a rotation leaves.
use tributary.Prelude.{
  ℕ, zero, suc, min, ◌≤◌, ◌≡◌, ◌∙◌, refl, sym, ap, Bool, true, false, List, [], ◌∷◌, ◌++◌, map,
  Option, none, some, Text, arith, if◌then◌else◌, append-nil, Bool-cases, inl, inr, ltb,
  text_has_eq, length, drop,
}
use tributary.Tail.{
  Node, node_eq, Fs, Open, Tailer, stat, node, size, contents, open_at, reopen, chomp,
  count_rotation, keep_old, rotate, check_rotation,
}
use tributary.Tail.Lines.{lines, all_lines, whole}
use tributary.Tail.Follow.{current_lines, upcoming, opened, open_at-opened, turn}

drop_all : (n : ℕ) (s : Text) → length s ≤ n → drop n s ≡ []
drop_all zero [] h = refl
drop_all zero (c ∷ s) h = absurd (omega (arith, h))
drop_all (suc n) [] h = refl
drop_all (suc n) (c ∷ s) h = drop_all n s (omega (arith, h))

module _ (fs : Fs) where
  -- The whole lines of the file at a path, from its start; none if there is none to open.
  abbrev from_start_of : Option Node → Bool → List Text
  from_start_of none b = []
  from_start_of (some n) true = map chomp (whole (contents fs n)).0
  from_start_of (some n) false = []

  abbrev from_start : Text → List Text
  from_start path = from_start_of (stat fs path) (fs.opens path)

  -- The file that a path came to stand for, if it is not the open one.
  abbrev replaced : Text → Open → Option Node → List Text
  replaced path cur none = []
  replaced path cur (some there) = if node_eq there (node cur) then [] else from_start path

  -- With no file open, the file at the path; if the open file was cut short of what was read of it, the
  -- file at the path again; else the rest of the open file, and the file that replaced it.
  abbrev live_lines : Text → Option Open → List Text
  live_lines path none = from_start path
  live_lines path (some cur) =
      if ltb (size fs cur) cur.offset
      then from_start path
      else lines fs cur ++ replaced path cur (stat fs path)

  -- The rest of the files that are rotated away, oldest first, and the live lines.
  abbrev pub coming : Tailer → List Text
  coming t = all_lines fs t.draining ++ live_lines t.path t.current

  opened-from_start :
      (path : Text) (s : Option Node) (b : Bool)
      → current_lines fs (opened fs path s b) ≡ from_start_of s b
  opened-from_start path none b = refl
  opened-from_start path (some n) true =
      ap (λ k. map chomp (whole (drop k (contents fs n))).0) (low (length (contents fs n)))
    where
      low : (k : ℕ) → min 0 k ≡ 0
      low k = omega arith
  opened-from_start path (some n) false = refl

  open_at-from_start : (path : Text) → current_lines fs (open_at fs path 0) ≡ from_start path
  open_at-from_start path =
      ap (current_lines fs) (open_at-opened fs path)
      ∙ opened-from_start path (stat fs path) (fs.opens path)

  -- What a tailer with nothing rotated away leaves to read.
  abbrev left : Tailer → List Text
  left t = all_lines fs t.draining ++ current_lines fs t.current

  read_all : (cur : Open) → ltb cur.offset (size fs cur) ≡ false → lines fs cur ≡ []
  unfolding size
  read_all cur h =
      ap (λ s. map chomp (whole s).0)
        (drop_all cur.offset (contents fs (node cur)) (ground (arith, h)))
      ∙ (unfold whole in refl)

  keep_old-lines :
      (cur : Open) (t : Tailer)
      → t.draining ≡ []
      → all_lines fs (keep_old fs cur t).draining ≡ lines fs cur
  unfolding keep_old
  keep_old-lines cur t e = elim (Bool-cases (ltb cur.offset (size fs cur))) [
    | inl more ↦ rw more (ap (λ os. all_lines fs (os ++ cur ∷ [])) e ∙ append-nil (lines fs cur))
    | inr none_left ↦ rw none_left (ap (all_lines fs) e ∙ sym (read_all cur none_left))
  ]

  keep_old-path : (cur : Open) (t : Tailer) → (keep_old fs cur t).path ≡ t.path
  unfolding keep_old
  keep_old-path cur t = refl

  reopen-left : (t : Tailer) → left (reopen fs t) ≡ all_lines fs t.draining ++ from_start t.path
  unfolding reopen
  reopen-left t = ap (λ ls. all_lines fs t.draining ++ ls) (open_at-from_start t.path)

  reopen-lines : (t : Tailer) → t.draining ≡ [] → left (reopen fs t) ≡ from_start t.path
  reopen-lines t d = reopen-left t ∙ ap (λ os. all_lines fs os ++ from_start t.path) d

  still :
      (t : Tailer) (cur : Open)
      → t.current ≡ some cur
      → t.draining ≡ []
      → left t ≡ lines fs cur ++ []
  still t cur e d =
      ap (λ c. all_lines fs t.draining ++ current_lines fs c) e
      ∙ ap (λ os. all_lines fs os ++ lines fs cur) d
      ∙ sym (append-nil (lines fs cur))

  rotate-left :
      (t : Tailer) (cur : Open) (s : Option Node)
      → t.current ≡ some cur
      → t.draining ≡ []
      → left (rotate fs cur s t) ≡ lines fs cur ++ replaced t.path cur s
  unfolding rotate
  rotate-left t cur none e d = still t cur e d
  rotate-left t cur (some there) e d = elim (Bool-cases (node_eq there (node cur))) [
    | inl same ↦ rw same (still t cur e d)
    | inr other ↦ rw other (
        reopen-left (keep_old fs cur (count_rotation t))
        ∙ ap (λ ls. ls ++ from_start t.path) (keep_old-lines cur (count_rotation t) d))
  ]

  turn-left :
      (t : Tailer) (c : Option Open)
      → t.current ≡ c
      → t.draining ≡ []
      → left (turn fs t c) ≡ live_lines t.path c
  unfolding turn
  turn-left t none e d = reopen-lines t d
  turn-left t (some cur) e d = elim (Bool-cases (ltb (size fs cur) cur.offset)) [
    | inl short ↦ rw short (reopen-lines (count_rotation t) d)
    | inr long ↦ rw long (rotate-left t cur (stat fs t.path) e d)
  ]

  pub upcoming-coming : (t : Tailer) → upcoming fs t ≡ coming t
  unfolding upcoming check_rotation turn
  upcoming-coming t =
      ap (λ ls. all_lines fs t.draining ++ ls)
        (turn-left (record t { draining = [] }) t.current refl refl)
