-- ===== src/Tail/Next.antt =====
-- `next_line` of crates/tributary/src/tail.rs: which line comes.
use tributary.Prelude.{
  ◌≡◌, ◌∙◌, refl, sym, ap, List, [], ◌∷◌, ◌++◌, Option, none, some, Text, arith, ◌⊎◌, subst,
  text_has_eq,
}
use tributary.Tail.{
  Fs, Open, Tailer, stat, read_line, drain_files, drain_pending, check_rotation, read_current,
  or_else, next_line,
}
use tributary.Tail.Lines.{lines, all_lines, Reads, read_line-Reads, Drains, drain_files-Drains}
use tributary.Tail.Coming.{coming, upcoming-coming}
use tributary.Tail.Follow.{
  current_lines, upcoming, Follows, check_rotation-Follows, check_rotation-path, upcoming-stays,
}

module _ (fs : Fs) where
  -- The line that an answer gives is the first one that there is to give, and the others are left.
  abbrev Gives : List Text → Option Text × Tailer → Type 0
  Gives [] (line, t) = line ≡ none
  Gives (l ∷ ls) (line, t) = (line ≡ some l) × (upcoming fs t ≡ ls)

  -- The live file, with nothing rotated away.
  abbrev from_current : Tailer → Option Open → Option Text × Tailer
  from_current t none = (none, t)
  from_current t (some cur) =
      ((read_line fs cur).0, record t { current = some (read_line fs cur).1 })

  read-Gives :
      (t : Tailer) (cur : Open) (ls : List Text) (r : Option Text × Open)
      → t.draining ≡ []
      → Follows fs t.path (some cur)
      → Reads fs cur ls r
      → Gives ls (r.0, record t { current = some r.1 })
  read-Gives t cur [] (line, o) e k h = h.0
  read-Gives t cur (l ∷ ls) (line, o) e k h = (
    h.0,
    upcoming-stays fs (record t { current = some o })
          (
            h.2.within,
            subst (λ n. (stat fs t.path ≡ none) ⊎ (stat fs t.path ≡ some n)) (sym h.2.same) k.1,
          )
        ∙ ap (λ os. all_lines fs os ++ lines fs o) e
        ∙ h.1,
  )

  from_current-Gives :
      (t : Tailer) (c : Option Open)
      → t.draining ≡ []
      → Follows fs t.path c
      → Gives (current_lines fs c) (from_current t c)
  from_current-Gives t none e k = refl
  from_current-Gives t (some cur) e k =
      read-Gives t cur (lines fs cur) (read_line fs cur) e k (read_line-Reads fs cur)

  read_current-Gives :
      (t : Tailer)
      → t.draining ≡ []
      → Follows fs t.path t.current
      → Gives (current_lines fs t.current) (read_current fs t)
  unfolding read_current
  read_current-Gives t e k =
      subst (Gives (current_lines fs t.current)) (same t.current)
        (from_current-Gives t t.current e k)
    where
      same :
          (c : Option Open)
          → from_current t c ≡ elim c as (λ x. Option Text × Tailer) [
            | none ↦ (none, t)
            | some cur ↦ ((read_line fs cur).0, record t { current = some (read_line fs cur).1 })
          ]
      same none = refl
      same (some cur) = refl

  -- After the look for a rotation.
  found-Gives :
      (t : Tailer) (ls : List Text) (r : Option Text × List Open)
      → Follows fs t.path t.current
      → Drains fs ls r
      → Gives
          (ls ++ current_lines fs t.current)
          (or_else (r.0, record t { draining = r.1 }) (read_current fs))
  found-Gives t [] (none, os) k h = read_current-Gives (record t { draining = os }) h.1 k
  found-Gives t (x ∷ xs) (none, os) k h = ground (arith, h.0)
  found-Gives t [] (some l, os) k h = ground (arith, h.0)
  found-Gives t (x ∷ xs) (some l, os) k h = (
    h.0,
    upcoming-stays fs (record t { draining = os }) k
        ∙ ap (λ ls. ls ++ current_lines fs t.current) h.1,
  )

  first-Gives :
      (t : Tailer) (ls : List Text) (r : Option Text × List Open)
      → Drains fs ls r
      → Gives
          (ls
            ++ (all_lines fs (check_rotation fs (record t { draining = [] })).draining
                ++ current_lines fs (check_rotation fs (record t { draining = [] })).current))
          (or_else
            (r.0, record t { draining = r.1 })
            (λ t₁. or_else (drain_pending fs (check_rotation fs t₁)) (read_current fs)))
  unfolding drain_pending upcoming
  first-Gives t [] (some l, os) h = ground (arith, h.0)
  first-Gives t (x ∷ xs) (none, os) h = ground (arith, h.0)
  first-Gives t (x ∷ xs) (some l, os) h = (
    h.0,
    ap
        (λ ls.
          ls
          ++ (all_lines fs (check_rotation fs (record t { draining = [] })).draining
              ++ current_lines fs (check_rotation fs (record t { draining = [] })).current))
        h.1,
  )
  first-Gives t [] (none, os) h =
      let t₁ : Tailer = record t { draining = [] } in
      let found = check_rotation fs t₁ in
      subst
        (λ ds. Gives (all_lines fs found.draining ++ current_lines fs found.current) (
          or_else (drain_pending fs (check_rotation fs (record t { draining = ds })))
            (read_current fs)))
        (sym h.1)
        (found-Gives found (all_lines fs found.draining) (drain_files fs found.draining)
          (subst (λ p. Follows fs p found.current) (sym (check_rotation-path fs t₁))
            (check_rotation-Follows fs t₁))
          (drain_files-Drains fs found.draining))

  next_line-upcoming : (t : Tailer) → Gives (upcoming fs t) (next_line fs t)
  unfolding next_line upcoming drain_pending
  next_line-upcoming t =
      first-Gives t (all_lines fs t.draining) (drain_files fs t.draining)
        (drain_files-Drains fs t.draining)

  -- The line is the first one to come, and the others are left to come.
  abbrev pub Brings : List Text → Option Text × Tailer → Type 0
  Brings [] (line, t) = line ≡ none
  Brings (l ∷ ls) (line, t) = (line ≡ some l) × (coming fs t ≡ ls)

  Gives-Brings : (ls : List Text) (r : Option Text × Tailer) → Gives ls r → Brings ls r
  Gives-Brings [] r h = h
  Gives-Brings (l ∷ ls) (line, t) h = (h.0, sym (upcoming-coming fs t) ∙ h.1)

  -- Whatever the tailer had open and whatever happened to the names, the next line is the first one of
  -- those to come, and the others are left to come; there is none exactly when the answer is none. To
  -- come are the rest of the files that are rotated away, oldest first, the rest of the open file, and
  -- the file at the path from its start if it is another one. If the open file is shorter than what was
  -- read of it, or there is none, it is the file at the path from its start instead.
  pub next_line-Brings : (t : Tailer) → Brings (coming fs t) (next_line fs t)
  next_line-Brings t =
      subst (λ ls. Brings ls (next_line fs t)) (upcoming-coming fs t)
        (Gives-Brings (upcoming fs t) (next_line fs t) (next_line-upcoming t))
