-- ===== src/Tail/Marks.antt =====
-- A restart of the tailer of crates/tributary/src/tail.rs from its own marks.
use tributary.Prelude.{
  ◌≤◌, ◌≡◌, ◌≢◌, ◌∙◌, sym, ap, true, false, List, [], ◌∷◌, ◌++◌, append-nil, map, Option, some,
  Text, arith, text_has_eq, ltb, Bool-cases, inl, inr, subst,
}
use tributary.Checkpoint.{FileMark}
use tributary.Tail.{
  Node, node_eq, node_eq_iff, Fs, Open, Tailer, stat, node, size, open_at, check_rotation, rotate,
  reopen, keep_old, count_rotation,
}
use tributary.Tail.Lines.{lines, all_lines}
use tributary.Tail.Follow.{Follows, check_rotation-current, upcoming, upcoming-stays, current_lines}
use tributary.Tail.Resume.{
  mark, marks, live, fresh, resume_known, sibling_paths, find_inode, adopt, live_at, start_of,
  resume_live, resume,
}
use tributary.Tail.Adopt.{
  node_eq-other, at_path, open_at-again, stat_found, resume-one, found_here, goes_on, live-here,
  adopt-cases, lines-empty, take_known-other, find_mark-other,
}

module _ (fs : Fs) where
  -- What a tailer with one live file has to give when it starts again from its marks.
  module _ (t : Tailer) (o : Open) (quiet : t.draining ≡ []) (cur : t.current ≡ some o)
      (low : o.offset ≤ size fs o) (can_live : fs.opens t.path ≡ true) where
    abbrev ms : List FileMark
    ms = mark o ∷ []

    live-moved :
        (n : Node) (p : Text)
        → node o ≢ n
        → stat fs t.path ≡ some n
        → resume_live fs ms (record (fresh t.path) { draining = at_path fs o p ∷ [] }) (some n)
          ≡ some (record (fresh t.path) {
            draining = at_path fs o p ∷ [];
            current = some (record { dev = n.0; ino = n.1; path = t.path; offset = 0 });
          })
    unfolding resume_live resume_known
    live-moved (dev, ino) p ne new =
        let there = record (fresh t.path) { draining = at_path fs o p ∷ [] } in
        let other : node_eq (node o) (dev, ino) ≡ false = node_eq-other (node o) (dev, ino) ne in
        ap (resume_known fs ms there (dev, ino))
          (take_known-other fs (at_path fs o p) (dev, ino) other)
        ∙ ap (λ m. live_at there (open_at fs t.path (start_of m)))
            (find_mark-other fs o (dev, ino) other)
        ∙ ap (live_at there) (
            open_at-again fs (record { dev = dev; ino = ino; path = t.path; offset = 0 }) t.path new
              can_live (omega arith))

    -- The tailer that starts again.
    abbrev Continues : Option Tailer → Type 0
    Continues r = (t' : Tailer) × (r ≡ some t') × (upcoming fs t' ≡ upcoming fs t)

    here-Continues : stat fs t.path ≡ some (node o) → Continues (resume fs t.path ms)
    unfolding size
    here-Continues here = (
      goes_on fs t.path o low here can_live,
      resume-one fs t.path o low t.path (found_here fs t.path o low here can_live) can_live
          ∙ ap (resume_live fs ms (adopt fs t.path (at_path fs o t.path) (fresh t.path))) here
          ∙ live-here fs t.path o low here can_live
              (adopt fs t.path (at_path fs o t.path) (fresh t.path))
              (adopt-cases fs t.path t.path (at_path fs o t.path)),
      upcoming-stays fs (goes_on fs t.path o low here can_live) (low, inr here)
          ∙ sym (ap (λ c. current_lines fs c) cur)
          ∙ sym (ap (λ os. all_lines fs os ++ current_lines fs t.current) quiet)
          ∙ sym (upcoming-stays fs t (subst (Follows fs t.path) (sym cur) (low, inr here))),
    )

    -- The new live file, from its start.
    abbrev new_live : Node → Open
    new_live n = record { dev = n.0; ino = n.1; path = t.path; offset = 0 }

    open_at-new : (n : Node) → stat fs t.path ≡ some n → open_at fs t.path 0 ≡ some (new_live n)
    open_at-new n new = open_at-again fs (new_live n) t.path new can_live (omega arith)

    check_rotation-moved :
        (n : Node)
        → node o ≢ n
        → stat fs t.path ≡ some n
        → check_rotation fs (record t { draining = [] })
          ≡ reopen fs (keep_old fs o (count_rotation (record t { draining = [] })))
    unfolding rotate
    check_rotation-moved n ne new =
        let t₁ : Tailer = record t { draining = [] } in
        let long : ltb (size fs o) o.offset ≡ false = ground (arith, low) in
        let other : node_eq n (node o) ≡ false = node_eq-other n (node o) (λ e. ne (sym e)) in
        check_rotation-current fs t₁ o cur ∙ rw long (ap (λ s. rotate fs o s t₁) new ∙ rw other)

    kept-lines : all_lines fs (keep_old fs o (record t { draining = [] })).draining ≡ lines fs o
    unfolding keep_old
    kept-lines = elim (Bool-cases (ltb o.offset (size fs o))) [
      | inl left ↦ rw left (append-nil (lines fs o))
      | inr nothing ↦ rw nothing (sym (lines-empty fs o (ground (arith, nothing))))
    ]

    upcoming-moved :
        (n : Node)
        → node o ≢ n
        → stat fs t.path ≡ some n
        → upcoming fs t ≡ lines fs o ++ lines fs (new_live n)
    unfolding upcoming reopen keep_old
    upcoming-moved n ne new =
        ap
          (λ os. all_lines fs os ++ (all_lines fs Found.draining ++ current_lines fs Found.current))
          quiet
        ∙ ap (λ r. all_lines fs r.draining ++ current_lines fs r.current)
            (check_rotation-moved n ne new)
        ∙ ap (λ ls. ls ++ current_lines fs (open_at fs t.path 0)) kept-lines
        ∙ ap (λ c. lines fs o ++ current_lines fs c) (open_at-new n new)
      where
        Found : Tailer
        Found = check_rotation fs (record t { draining = [] })

    moved-Continues :
        (n : Node) (p : Text)
        → node o ≢ n
        → stat fs t.path ≡ some n
        → find_inode fs (sibling_paths fs t.path) (node o) ≡ some p
        → fs.opens p ≡ true
        → Continues (resume fs t.path ms)
    moved-Continues n p ne new found can = (
      t',
      resume-one fs t.path o low p found can
          ∙ ap (resume_live fs ms (adopt fs p (at_path fs o p) (fresh t.path))) new
          ∙ ap (λ x. resume_live fs ms x (some n)) adopted
          ∙ live-moved n p ne new,
      upcoming-stays fs t' (omega arith, inr new)
          ∙ ap (λ ls. ls ++ lines fs (new_live n)) (append-nil (lines fs o))
          ∙ sym (upcoming-moved n ne new),
    )
      where
        t' : Tailer
        t' = record (fresh t.path) { draining = at_path fs o p ∷ []; current = some (new_live n) }

        adopted :
            adopt fs p (at_path fs o p) (fresh t.path)
            ≡ record (fresh t.path) { draining = at_path fs o p ∷ [] }
        adopted = elim (adopt-cases fs p t.path (at_path fs o p)) [
          | inl e ↦ e
          | inr (e, less, same) ↦
              absurd (
                ne (ground (arith, stat_found fs t.path o low p found can, ap (stat fs) same, new)))
        ]

    marks-one : marks t ≡ ms
    unfolding marks
    marks-one = ap (λ os. map mark (os ++ live t.current)) quiet ∙ ap (λ c. map mark (live c)) cur

    -- A tailer that has a live file and none that is rotated away may stop, and the file may be rotated
    -- once while it is down: if the file still has a name beside the path, and the files can be opened,
    -- then the tailer that starts from its marks has the very lines to give that the old one had.
    pub resume-marks :
        (n : Node) (p : Text)
        → stat fs t.path ≡ some n
        → find_inode fs (sibling_paths fs t.path) (node o) ≡ some p
        → fs.opens p ≡ true
        → (t' : Tailer) × (resume fs t.path (marks t) ≡ some t') × (upcoming fs t' ≡ upcoming fs t)
    resume-marks n p there found can =
        subst (λ m. Continues (resume fs t.path m)) (sym marks-one)
          (elim (Bool-cases (node_eq (node o) n)) [
            | inl same ↦ here-Continues (there ∙ ap some (sym ((node_eq_iff (node o) n).0 same)))
            | inr other ↦
                moved-Continues n p (λ e. ground (arith, node_eq_iff (node o) n, other, e)) there
                  found can
          ])
