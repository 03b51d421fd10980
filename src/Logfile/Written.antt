-- ===== src/Logfile/Written.antt =====
-- What the rotating log of crates/tributary/src/logfile.rs keeps of what is written to it.
use mathlib.Core.Option.{some-ne-none}
use tributary.Prelude.{
  ℕ, ◌≡◌, ◌∙◌, refl, sym, ap, ap₂, subst, Bool, true, false, ◌&&◌, List, [], ◌∷◌, ◌++◌, Option,
  none, some, Text, ◌⊎◌, inl, inr, text_eq, text_eq_iff, text_has_eq, if◌then◌else◌, take, length,
  lookup, insert, remove, append_assoc, append-nil, Bool-cases, Option-cases,
}
use tributary.Logfile.Files.{
  Dir, contents, contents-append, contents-last, lookup-last, lookup-front, lookup-behind,
  lookup-value, insert-new, insert-last, remove-last, target-new,
}
use tributary.Logfile.{
  appended, RotatingLog, LogIo, target, prune, reopen, rename_aside, rotate, stamp_utc, write_bytes,
  write_line, should_rotate,
}

-- The open file is the last of the directory, and has the name of the log or is the one that was
-- renamed, when no file has that name.
abbrev pub IsLive : RotatingLog → Type 0
IsLive log =
    (before : Dir) × (bytes : Text) × (log.dir ≡ before ++ (log.file, bytes) ∷ [])
    × (lookup log.file before ≡ none)
    × ((log.file ≡ log.name) ⊎ (lookup log.name log.dir ≡ none))

abbrev Keeps : RotatingLog → RotatingLog → Type 0
Keeps log log' = IsLive log' × (contents log'.dir ≡ contents log.dir) × (log'.keep ≡ none)

if-Keeps :
    (log : RotatingLog) (b : Bool) (x y : RotatingLog)
    → Keeps log x
    → Keeps log y
    → Keeps log (if b then x else y)
if-Keeps log true x y h k = h
if-Keeps log false x y h k = k

prune-none : (unlink : Text → Bool) (log : RotatingLog) → log.keep ≡ none → prune unlink log ≡ log
unfolding prune
prune-none unlink log h = rw h refl

-- A log with its live file at the end of the directory, and a name that nothing has.
module _ (io : LogIo) (log : RotatingLog) (p bytes : Text) (before : Dir) (kept : log.keep ≡ none)
    (last : log.dir ≡ before ++ (log.name, bytes) ∷ []) (live : log.file ≡ log.name)
    (alone : lookup log.name before ≡ none) (fresh : lookup p log.dir ≡ none) where
  abbrev renamed : RotatingLog
  renamed = record log { dir = before ++ (p, bytes) ∷ []; file = p }

  stays-Keeps : Keeps log log
  stays-Keeps = (
    (
      before,
      bytes,
      last ∙ ap (λ f. before ++ (f, bytes) ∷ []) (sym live),
      ap (λ f. lookup f before) live ∙ alone,
      inl live,
    ),
    refl,
    kept,
  )

  -- The name of the log is in the directory.
  other_name : text_eq p log.name ≡ false
  other_name = elim (Bool-cases (text_eq p log.name)) [
    | inl t ↦ absurd (
        some-ne-none bytes (
          sym (lookup-last log.name bytes before alone)
          ∙ ap (lookup log.name) (sym last)
          ∙ ap (λ k. lookup k log.dir) (sym ((text_eq_iff p log.name).0 t))
          ∙ fresh))
    | inr e ↦ e
  ]

  fresh_before : lookup p before ≡ none
  fresh_before = lookup-front p before ((log.name, bytes) ∷ []) (ap (lookup p) (sym last) ∙ fresh)

  gone : lookup log.name (before ++ (p, bytes) ∷ []) ≡ none
  gone = lookup-behind log.name p bytes before alone other_name

  contents-renamed : contents (before ++ (p, bytes) ∷ []) ≡ contents log.dir
  contents-renamed =
      contents-append before ((p, bytes) ∷ [])
      ∙ sym (contents-append before ((log.name, bytes) ∷ []))
      ∙ ap contents (sym last)

  renamed-Keeps : Keeps log renamed
  renamed-Keeps = ((before, bytes, refl, fresh_before, inr gone), contents-renamed, kept)

  moved-renamed :
      record log {
        dir = insert p bytes (remove log.name log.dir);
        file = if text_eq log.file log.name then p else log.file;
      }
      ≡ renamed
  moved-renamed =
      ap₂ (λ d f. record log { dir = d; file = f })
        (ap (λ d. insert p bytes (remove log.name d)) last
          ∙ ap (insert p bytes) (remove-last log.name bytes before alone)
          ∙ insert-new p bytes before fresh_before)
        (rw ((text_eq_iff log.file log.name).1 live) refl)

  begun-Keeps : Keeps log (record renamed {
    dir = insert log.name [] renamed.dir;
    file = log.name;
    written = 0;
    opened = io.reopened;
  })
  begun-Keeps =
      let is = insert-new log.name [] (before ++ (p, bytes) ∷ []) gone in
      (
        (before ++ (p, bytes) ∷ [], [], is, gone, inl refl),
        ap contents is
            ∙ contents-append (before ++ (p, bytes) ∷ []) ((log.name, []) ∷ [])
            ∙ append-nil (contents (before ++ (p, bytes) ∷ []))
            ∙ contents-renamed,
        kept,
      )

  reopen-Keeps : Keeps log (reopen io renamed)
  unfolding reopen
  reopen-Keeps =
      if-Keeps log io.create _ _ (subst (Keeps log) (sym (prune-none io.unlink _ kept)) begun-Keeps)
        renamed-Keeps

  rename_aside-Keeps : Keeps log (rename_aside io p (some bytes) log)
  unfolding rename_aside
  rename_aside-Keeps =
      if-Keeps log (io.flush && io.rename) _ _
        (subst (λ l. Keeps log (reopen io l)) (sym moved-renamed) reopen-Keeps) stays-Keeps

aside-Keeps :
    (io : LogIo) (log : RotatingLog) (p : Text)
    → log.keep ≡ none
    → IsLive log
    → lookup p log.dir ≡ none
    → Keeps log (rename_aside io p (lookup log.name log.dir) log)
unfolding rename_aside
aside-Keeps io log p kept (before, bytes, last, alone, inl live) fresh =
    let last' : log.dir ≡ before ++ (log.name, bytes) ∷ [] =
      last ∙ ap (λ f. before ++ (f, bytes) ∷ []) live in
    let alone' : lookup log.name before ≡ none = ap (λ f. lookup f before) (sym live) ∙ alone in
    subst (λ o. Keeps log (rename_aside io p o log))
      (sym (ap (lookup log.name) last' ∙ lookup-last log.name bytes before alone'))
      (rename_aside-Keeps io log p bytes before kept last' live alone' fresh)
aside-Keeps io log p kept (before, bytes, last, alone, inr lost) fresh =
    rw (rename_aside, lost) ((before, bytes, last, alone, inr lost), refl, kept)

rotate-Keeps :
    (io : LogIo) (log : RotatingLog) → log.keep ≡ none → IsLive log → Keeps log (rotate io log)
unfolding rotate
rotate-Keeps io log kept h =
    elim (Option-cases (target 1001 log.name (stamp_utc io.now) 0 log.dir)) [
      | inl full ↦ rw (rotate, full) (h, refl, kept)
      | inr (p, found) ↦
          rw (rotate, found)
            (aside-Keeps io log p kept h
              (target-new 1001 log.name (stamp_utc io.now) 0 log.dir p found))
    ]

abbrev accepted : Option ℕ → Text → Text
accepted none buf = []
accepted (some n) buf = take n buf

write_bytes-contents :
    (wrote : Option ℕ) (buf : Text) (log : RotatingLog)
    → log.keep ≡ none
    → IsLive log
    → IsLive (write_bytes wrote buf log).1
      × (contents (write_bytes wrote buf log).1.dir ≡ contents log.dir ++ accepted wrote buf)
      × ((write_bytes wrote buf log).1.keep ≡ none)
unfolding write_bytes
write_bytes-contents none buf log kept h = (h, sym (append-nil (contents log.dir)), kept)
write_bytes-contents (some n) buf log kept (before, bytes, last, alone, named) =
    let new = bytes ++ take n buf in
    let found : lookup log.file log.dir ≡ some bytes =
      ap (lookup log.file) last ∙ lookup-last log.file bytes before alone in
    let is : appended log.file (lookup log.file log.dir) (take n buf) log.dir
        ≡ before ++ (log.file, new) ∷ [] =
      ap (λ o. appended log.file o (take n buf) log.dir) found
      ∙ ap (insert log.file new) last
      ∙ insert-last log.file new bytes before alone in
    (
      (
        before,
        new,
        is,
        alone,
        elim named [
          | inl live ↦ inl live
          | inr lost ↦ inr (
              ap (lookup log.name) is
              ∙ lookup-value log.name log.file bytes new before
                  (ap (lookup log.name) (sym last) ∙ lost))
        ],
      ),
      ap contents is
          ∙ contents-last log.file new before
          ∙ sym (append_assoc (contents before) bytes (take n buf))
          ∙ ap (λ t. t ++ take n buf)
              (sym (ap contents last ∙ contents-last log.file bytes before)),
      kept,
    )

-- Writes one after the other, with what each of them meets.
abbrev pub writes : List (LogIo × Text) → RotatingLog → RotatingLog
writes [] log = log
writes ((io, buf) ∷ rest) log = writes rest (write_line io buf log).1

-- What they were told was written.
abbrev pub acknowledged : List (LogIo × Text) → Text
acknowledged [] = []
acknowledged ((io, buf) ∷ rest) = accepted io.write buf ++ acknowledged rest

write_line-contents :
    (io : LogIo) (buf : Text) (log : RotatingLog)
    → log.keep ≡ none
    → IsLive log
    → IsLive (write_line io buf log).1
      × (contents (write_line io buf log).1.dir ≡ contents log.dir ++ accepted io.write buf)
      × ((write_line io buf log).1.keep ≡ none)
unfolding write_line
write_line-contents io buf log kept h =
    let rotated = if should_rotate log io.now (length buf) then rotate io log else log in
    let k : Keeps log rotated =
      if-Keeps log (should_rotate log io.now (length buf)) (rotate io log) log
        (rotate-Keeps io log kept h) (h, refl, kept) in
    let w = write_bytes-contents io.write buf rotated k.2 k.0 in
    (w.0, w.1 ∙ ap (λ t. t ++ accepted io.write buf) k.1, w.2)

-- With no limit on the files that are kept, any history of writes leaves, in the files one after the
-- other, what stood there before and then every byte that was acknowledged, in order: no rotation loses
-- any, whether it succeeds, fails at any of its steps, or finds no free name.
pub writes-contents :
    (history : List (LogIo × Text)) (log : RotatingLog)
    → log.keep ≡ none
    → IsLive log
    → contents (writes history log).dir ≡ contents log.dir ++ acknowledged history
writes-contents [] log kept h = sym (append-nil (contents log.dir))
writes-contents ((io, buf) ∷ rest) log kept h =
    let w = write_line-contents io buf log kept h in
    writes-contents rest (write_line io buf log).1 w.2 w.0
    ∙ ap (λ t. t ++ acknowledged rest) w.1
    ∙ append_assoc (contents log.dir) (accepted io.write buf) (acknowledged rest)
