-- ===== src/Tail/Adopt.antt =====
-- `resume` of crates/tributary/src/tail.rs with one mark: the steps.
use tributary.Prelude.{
  ℕ, zero, suc, ◌≤◌, ◌≡◌, ◌≢◌, ◌∙◌, refl, sym, ap, true, false, List, [], ◌∷◌, map, Option, none,
  some, Text, arith, text_eq, text_eq_iff, text_has_eq, ltb, length, drop, Bool-cases, inl, inr,
  ◌⊎◌,
}
use tributary.Checkpoint.{find_mark}
use tributary.Tail.{
  Node, node_eq, node_eq_iff, Fs, Open, Tailer, stat, node, size, contents, open_at, chomp,
}
use tributary.Tail.Lines.{lines, whole, drop-nil}
use tributary.Tail.Resume.{
  mark, fresh, and_then, resume_found, resume_opened, resume_known, sibling_paths, stands_for,
  find_inode, adopt, resume_marks, take_known, live_at, resume_live, resume,
}

pub node_eq_self : (n : Node) → node_eq n n ≡ true
node_eq_self n = (node_eq_iff n n).1 refl

pub node_eq-other : (m n : Node) → m ≢ n → node_eq m n ≡ false
node_eq-other m n h = ground (arith, node_eq_iff m n)

drop-all : {A : Type 0} (n : ℕ) (xs : List A) → length xs ≤ n → drop n xs ≡ []
drop-all n [] h = drop-nil n
drop-all zero (x ∷ xs) h = absurd (omega (arith, h))
drop-all (suc n) (x ∷ xs) h = drop-all n xs (omega (arith, h))

module _ (fs : Fs) where
  pub find_inode-stat :
      (ps : List Text) (n : Node) (p : Text) → find_inode fs ps n ≡ some p → stat fs p ≡ some n
  unfolding find_inode
  find_inode-stat [] n p e = ground (arith, e)
  find_inode-stat (q ∷ ps) n p e = elim (Bool-cases (stands_for n (stat fs q))) [
    | inl t ↦ is_first (ground (arith, e, t)) t
    | inr f ↦ find_inode-stat ps n p (ground (arith, e, f))
  ]
    where
      stands : (s : Option Node) → stands_for n s ≡ true → s ≡ some n
      stands none h = ground (arith, h)
      stands (some m) h = ap some ((node_eq_iff m n).0 h)

      is_first : q ≡ p → stands_for n (stat fs q) ≡ true → stat fs p ≡ some n
      is_first same h = ap (stat fs) (sym same) ∙ stands (stat fs q) h

  -- A file at its own size or before it goes on where it was.
  abbrev pub at_path : Open → Text → Open
  at_path o p = record o { path = p }

  pub open_at-again :
      (o : Open) (p : Text)
      → stat fs p ≡ some (node o)
      → fs.opens p ≡ true
      → o.offset ≤ size fs o
      → open_at fs p o.offset ≡ some (at_path o p)
  unfolding open_at size
  open_at-again o p there can low =
      rw (there, can, open_at)
        (ap (λ k. some (record o { path = p; offset = k })) (omega (arith, low)))

  module _ (path : Text) (o : Open) (low : o.offset ≤ size fs o) (p : Text)
      (found : find_inode fs (sibling_paths fs path) (node o) ≡ some p)
      (can : fs.opens p ≡ true) where
    pub stat_found : stat fs p ≡ some (node o)
    stat_found = find_inode-stat (sibling_paths fs path) (node o) p found

    resume_marks-one :
        resume_marks fs (mark o ∷ []) (fresh path) ≡ some (adopt fs p (at_path o p) (fresh path))
    unfolding resume_marks resume_found resume_opened
    resume_marks-one =
        ap (λ x. and_then (resume_found fs (mark o) (fresh path) x) (resume_marks fs [])) found
        ∙ ap (λ x. and_then (resume_opened fs p (fresh path) x) (resume_marks fs []))
            (open_at-again o p stat_found can low)

    pub resume-one :
        resume fs path (mark o ∷ [])
        ≡ resume_live fs (mark o ∷ []) (adopt fs p (at_path o p) (fresh path)) (stat fs path)
    unfolding resume
    resume-one =
        ap (λ x. and_then x (λ t. resume_live fs (mark o ∷ []) t (stat fs path))) resume_marks-one

  -- The live file was not rotated.
  module _ (path : Text) (o : Open) (low : o.offset ≤ size fs o)
      (here : stat fs path ≡ some (node o)) (can : fs.opens path ≡ true) where
    pub found_here : find_inode fs (sibling_paths fs path) (node o) ≡ some path
    unfolding find_inode sibling_paths
    found_here =
        let yes_ : stands_for (node o) (stat fs path) ≡ true =
          ap (stands_for (node o)) here ∙ (node_eq_iff (node o) (node o)).1 refl in
        rw yes_

    abbrev pub goes_on : Tailer
    goes_on = record (fresh path) { current = some (at_path o path) }

    pub live-here :
        (t : Tailer)
        → (t ≡ record (fresh path) { draining = at_path o path ∷ [] })
          ⊎ ((t ≡ fresh path) × (size fs (at_path o path) ≤ o.offset) × (path ≡ path))
        → resume_live fs (mark o ∷ []) t (some (node o)) ≡ some goes_on
    unfolding resume_live resume_known take_known find_mark
    live-here t (inl k) =
        ap (λ x. resume_live fs (mark o ∷ []) x (some (node o))) k ∙ rw (node_eq_self (node o))
    live-here t (inr k) =
        ap (λ x. resume_live fs (mark o ∷ []) x (some (node o))) k.0
        ∙ rw (node_eq_self (node o)) (ap (live_at (fresh path)) (open_at-again o path here can low))

  pub adopt-cases :
      (p path : Text) (o : Open)
      → (adopt fs p o (fresh path) ≡ record (fresh path) { draining = o ∷ [] })
        ⊎ ((adopt fs p o (fresh path) ≡ fresh path) × (size fs o ≤ o.offset) × (p ≡ path))
  unfolding adopt
  adopt-cases p path o = elim (Bool-cases (ltb o.offset (size fs o))) [
    | inl left ↦ inl (rw left)
    | inr done_ ↦ elim (Bool-cases (text_eq p path)) [
      | inl same ↦ inr (rw (done_, same), ground (arith, done_), (text_eq_iff p path).0 same)
      | inr other ↦ inl (rw (done_, other))
    ]
  ]

  pub lines-empty : (o : Open) → size fs o ≤ o.offset → lines fs o ≡ []
  unfolding size whole
  lines-empty o h = ap (λ s. map chomp (whole s).0) (drop-all o.offset (contents fs (node o)) h)

  pub take_known-other :
      (o : Open) (n : Node) → node_eq (node o) n ≡ false → take_known n (o ∷ []) ≡ none
  unfolding take_known
  take_known-other o n other = rw other

  pub find_mark-other :
      (o : Open) (n : Node) → node_eq (node o) n ≡ false → find_mark n.0 n.1 (mark o ∷ []) ≡ none
  unfolding find_mark
  find_mark-other o n other = rw other
