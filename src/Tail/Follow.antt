-- ===== src/Tail/Follow.antt =====
-- The look for a rotation in crates/tributary/src/tail.rs: what it finds, and that it finds it once.
use tributary.Prelude.{
  ◌≤◌, ◌≡◌, ◌∙◌, refl, sym, ap, Bool, true, false, List, [], ◌++◌, Option, none, some, Text, arith,
  if◌then◌else◌, length, Bool-cases, inl, inr, ◌⊎◌, subst, ltb, text_has_eq, min,
}
use tributary.Tail.{
  Node, node_eq, node_eq_iff, Fs, Open, Tailer, stat, node, size, contents, open_at, reopen,
  count_rotation, keep_old, rotate, check_rotation,
}
use tributary.Tail.Lines.{lines, all_lines}

module _ (fs : Fs) where
  abbrev pub current_lines : Option Open → List Text
  current_lines none = []
  current_lines (some o) = lines fs o

  -- What the tailer has to give: the rest of the files that are rotated away, and what the look for a
  -- rotation then finds: the rest of the old file, and the live one.
  unfoldable pub upcoming : Tailer → List Text
  upcoming t =
      let r = check_rotation fs (record t { draining = [] }) in
      all_lines fs t.draining ++ (all_lines fs r.draining ++ current_lines r.current)

  -- A live file that the path still stands for, if for any, and that is not cut short.
  abbrev pub Follows : Text → Option Open → Type 0
  Follows path none = open_at fs path 0 ≡ none
  Follows path (some o) =
      (o.offset ≤ size fs o) × ((stat fs path ≡ none) ⊎ (stat fs path ≡ some (node o)))

  abbrev pub opened : Text → Option Node → Bool → Option Open
  opened path none b = none
  opened path (some (dev, ino)) true = some (record {
    dev = dev;
    ino = ino;
    path = path;
    offset = min 0 (length (contents fs (dev, ino)));
  })
  opened path (some n) false = none

  pub open_at-opened :
      (path : Text) → open_at fs path 0 ≡ opened path (stat fs path) (fs.opens path)
  unfolding open_at
  open_at-opened path =
      elim (stat fs path)
        as (λ s.
          elim s as (λ x. Option Open) [
            | none ↦ none
            | some x ↦
                if fs.opens path
                then some (record {
                  dev = x.0;
                  ino = x.1;
                  path = path;
                  offset = min 0 (length (contents fs (x.0, x.1)));
                })
                else none
          ]
          ≡ opened path s (fs.opens path)) [
            | none ↦ refl
            | some x ↦
                elim (fs.opens path)
                  as (λ b.
                    (if b
                      then some (record {
                        dev = x.0;
                        ino = x.1;
                        path = path;
                        offset = min 0 (length (contents fs (x.0, x.1)));
                      })
                      else none)
                    ≡ opened path (some x) b) [ true ↦ refl | false ↦ refl ]
          ]

  opened-Follows :
      (path : Text) (s : Option Node) (b : Bool)
      → stat fs path ≡ s
      → open_at fs path 0 ≡ opened path s b
      → Follows path (opened path s b)
  opened-Follows path none b e k = k
  opened-Follows path (some n) false e k = k
  opened-Follows path (some (dev, ino)) true e k = (omega arith, inr e)

  pub open_at-Follows : (path : Text) → Follows path (open_at fs path 0)
  open_at-Follows path =
      subst (Follows path) (sym (open_at-opened path))
        (opened-Follows path (stat fs path) (fs.opens path) refl (open_at-opened path))

  rotate-Follows :
      (t : Tailer) (cur : Open) (s : Option Node)
      → t.current ≡ some cur
      → cur.offset ≤ size fs cur
      → stat fs t.path ≡ s
      → Follows t.path (rotate fs cur s t).current
  unfolding rotate reopen keep_old
  rotate-Follows t cur none e low k = subst (Follows t.path) (sym e) (low, inl k)
  rotate-Follows t cur (some there) e low k = elim (Bool-cases (node_eq there (node cur))) [
    | inl same ↦ rw same (
        subst (Follows t.path) (sym e)
          (low, inr (k ∙ ap some ((node_eq_iff there (node cur)).0 same))))
    | inr other ↦ rw other (open_at-Follows t.path)
  ]

  unfoldable pub turn : Tailer → Option Open → Tailer
  turn t none = reopen fs t
  turn t (some cur) =
      if ltb (size fs cur) cur.offset
      then reopen fs (count_rotation t)
      else rotate fs cur (stat fs t.path) t

  turn-Follows : (t : Tailer) (c : Option Open) → t.current ≡ c → Follows t.path (turn t c).current
  unfolding turn reopen
  turn-Follows t none e = open_at-Follows t.path
  turn-Follows t (some cur) e = elim (Bool-cases (ltb (size fs cur) cur.offset)) [
    | inl short ↦ rw short (open_at-Follows t.path)
    | inr long ↦ rw long (rotate-Follows t cur (stat fs t.path) e (ground (arith, long)) refl)
  ]

  pub check_rotation-current :
      (t : Tailer) (cur : Open)
      → t.current ≡ some cur
      → check_rotation fs t ≡ (
          if ltb (size fs cur) cur.offset
          then reopen fs (count_rotation t)
          else rotate fs cur (stat fs t.path) t)
  unfolding check_rotation turn
  check_rotation-current t cur e = ap (turn t) e

  pub check_rotation-Follows : (t : Tailer) → Follows t.path (check_rotation fs t).current
  unfolding check_rotation turn
  check_rotation-Follows t = turn-Follows t t.current refl

  -- A look for a rotation that changed nothing more finds nothing more.
  same_file : (t : Tailer) (cur : Open) → rotate fs cur (some (node cur)) t ≡ t
  unfolding rotate
  same_file t cur =
      let same : node_eq (node cur) (node cur) ≡ true =
        (node_eq_iff (node cur) (node cur)).1 refl in
      rw same

  turn-stays : (t : Tailer) (c : Option Open) → t.current ≡ c → Follows t.path c → turn t c ≡ t
  unfolding turn reopen rotate
  turn-stays t none e k = ap (λ c. record t { current = c }) (k ∙ sym e)
  turn-stays t (some cur) e k =
      let long : ltb (size fs cur) cur.offset ≡ false = ground (arith, k.0) in
      rw long (elim k.1 [
        | inl gone ↦ ap (λ s. rotate fs cur s t) gone
        | inr here ↦ ap (λ s. rotate fs cur s t) here ∙ same_file t cur
      ])

  check_rotation-stays : (t : Tailer) → Follows t.path t.current → check_rotation fs t ≡ t
  unfolding check_rotation turn
  check_rotation-stays t k = turn-stays t t.current refl k

  rotate-path : (t : Tailer) (cur : Open) (s : Option Node) → (rotate fs cur s t).path ≡ t.path
  unfolding rotate reopen keep_old
  rotate-path t cur none = refl
  rotate-path t cur (some there) = elim (Bool-cases (node_eq there (node cur))) [
    | inl same ↦ rw same
    | inr other ↦ rw other
  ]

  turn-path : (t : Tailer) (c : Option Open) → (turn t c).path ≡ t.path
  unfolding turn reopen
  turn-path t none = refl
  turn-path t (some cur) = elim (Bool-cases (ltb (size fs cur) cur.offset)) [
    | inl short ↦ rw short
    | inr long ↦ rw long (rotate-path t cur (stat fs t.path))
  ]

  pub check_rotation-path : (t : Tailer) → (check_rotation fs t).path ≡ t.path
  unfolding check_rotation turn
  check_rotation-path t = turn-path t t.current

  pub upcoming-stays :
      (t : Tailer)
      → Follows t.path t.current
      → upcoming t ≡ all_lines fs t.draining ++ current_lines t.current
  unfolding upcoming
  upcoming-stays t k =
      ap (λ r. all_lines fs t.draining ++ (all_lines fs r.draining ++ current_lines r.current))
        (check_rotation-stays (record t { draining = [] }) k)
