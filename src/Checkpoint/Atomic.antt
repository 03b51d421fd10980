-- ===== src/Checkpoint/Atomic.antt =====
-- The checkpoints of crates/tributary/src/checkpoint.rs seen through `load`, before and after a `save`.
use tributary.Prelude.{
  ◌≤◌, ◌≡◌, ◌≢◌, refl, ap, ◌∙◌, Bool, true, false, Option, none, some, Text, codes, arith, lookup,
  insert, remove, lookup-insert, lookup-remove, text_eq, text_eq_iff, text_has_eq, strip_suffix,
  strip_prefix, strip_suffix-append, strip_suffix-other, Bool-cases, Option-cases, ◌↔◌, subst, inl,
  inr, ltb,
}
use tributary.Checkpoint.{
  Directory, Checkpoint, checkpoint_format_version, path_for, tmp_for, loaded, accept_format, load,
  Io, leave_partial, publish, save,
}

text_eq-ne : (a b : Text) → a ≢ b → text_eq a b ≡ false
text_eq-ne a b h = ground (arith, text_eq_iff a b)

text_eq-same : (a : Text) → text_eq a a ≡ true
text_eq-same a = ground (arith, text_eq_iff a a)

-- No checkpoint has the name of a temporary file.
tmp_for-ne : (stream other : Text) → tmp_for stream ≢ path_for other
tmp_for-ne stream other e =
    let is : strip_suffix (codes ".checkpoint") (path_for other) ≡ some other =
      strip_suffix-append (codes ".checkpoint") other in
    let is_not : strip_suffix (codes ".checkpoint") (tmp_for stream) ≡ none =
      strip_suffix-other (codes ".checkpoint") (codes ".checkpoint.tmp") stream
        (λ t. unfold strip_prefix in refl) in
    ground (arith, is, is_not, ap (strip_suffix (codes ".checkpoint")) e)

path_for-inj : (stream other : Text) → path_for stream ≡ path_for other → stream ≡ other
path_for-inj stream other e = ground (
  arith,
  strip_suffix-append (codes ".checkpoint") stream,
  strip_suffix-append (codes ".checkpoint") other,
  ap (strip_suffix (codes ".checkpoint")) e,
)

-- Every checkpoint is as it was.
abbrev Untouched : Directory → Directory → Type 0
Untouched dir dir' = (other : Text) → lookup (path_for other) dir' ≡ lookup (path_for other) dir

insert_tmp-Untouched :
    (stream part : Text) (dir : Directory) → Untouched dir (insert (tmp_for stream) part dir)
insert_tmp-Untouched stream part dir other =
    lookup-insert (tmp_for stream) (path_for other) part dir
    ∙ rw (text_eq-ne (tmp_for stream) (path_for other) (tmp_for-ne stream other)) refl

partial-Untouched :
    (stream : Text) (part : Option Text) (dir : Directory)
    → Untouched dir (leave_partial (tmp_for stream) part dir)
partial-Untouched stream none dir other = refl
partial-Untouched stream (some part) dir other = insert_tmp-Untouched stream part dir other

publish-Untouched :
    (io : Io) (stream bytes : Text) (dir : Directory)
    → (publish io stream bytes dir).0 ≡ false
    → Untouched dir (publish io stream bytes dir).1
unfolding publish
publish-Untouched io stream bytes dir failed_ = elim (Bool-cases io.writes) [
  | inr w ↦ rw w (partial-Untouched stream io.partial dir)
  | inl w ↦ elim (Bool-cases io.renames) [
    | inl r ↦ absurd (ground (arith, w, r, failed_))
    | inr r ↦ rw (w, r) (insert_tmp-Untouched stream bytes dir)
  ]
]

load-cong :
    (readable : Bool) (decode : Text → Option Checkpoint) (stream : Text) (dir dir' : Directory)
    → lookup (path_for stream) dir' ≡ lookup (path_for stream) dir
    → load readable decode stream dir' ≡ load readable decode stream dir
unfolding load
load-cong readable decode stream dir dir' e = rw (e, load) refl

-- A save that fails, at whichever step and whatever it leaves behind, changes no stream's checkpoint.
pub load-failed_save :
    (io : Io) (encode : Checkpoint → Option Text) (cp : Checkpoint) (stream : Text)
    (dir : Directory) (readable : Bool) (decode : Text → Option Checkpoint) (other : Text)
    → (save io encode cp stream dir).0 ≡ false
    → load readable decode other (save io encode cp stream dir).1 ≡ load readable decode other dir
load-failed_save io encode cp stream dir readable decode other failed_ =
    load-cong readable decode other dir (save io encode cp stream dir).1 (untouched other)
  where
    untouched : Untouched dir (save io encode cp stream dir).1
    untouched = elim (Bool-cases io.creates_dir) [
      | inr d ↦ unfold save in rw d (λ o. refl)
      | inl d ↦ elim (Option-cases (encode cp)) [
        | inl e ↦ unfold save in rw (d, e) (partial-Untouched stream io.partial dir)
        | inr (bytes, e) ↦
            unfold save in
            rw (d, e) (publish-Untouched io stream bytes dir (ground (arith, d, e, failed_)))
      ]
    ]

load-found :
    (decode : Text → Option Checkpoint) (stream bytes : Text) (cp : Checkpoint) (dir : Directory)
    → lookup (path_for stream) dir ≡ some bytes
    → decode bytes ≡ some cp
    → cp.format ≤ checkpoint_format_version
    → load true decode stream dir ≡ loaded cp
unfolding load accept_format
load-found decode stream bytes cp dir h d current =
    let test : ltb checkpoint_format_version cp.format ≡ false = ground arith in
    rw (h, d, test, load) refl

save-done :
    (io : Io) (encode : Checkpoint → Option Text) (cp : Checkpoint) (bytes stream : Text)
    (dir : Directory)
    → encode cp ≡ some bytes
    → io.creates_dir ≡ true
    → io.writes ≡ true
    → io.renames ≡ true
    → save io encode cp stream dir ≡ (
      true,
      insert (path_for stream) bytes (remove (tmp_for stream) (insert (tmp_for stream) bytes dir)),
    )
unfolding save publish
save-done io encode cp bytes stream dir e c w r = ground (arith, e, c, w, r)

accept_format-loaded :
    (cp cp' : Checkpoint)
    → accept_format cp' ≡ loaded cp
    → (cp' ≡ cp) × (cp'.format ≤ checkpoint_format_version)
unfolding accept_format
accept_format-loaded cp cp' e = (ground (arith, e), ground (arith, e))

-- A file is loaded exactly when it is there, can be read, is parsed, and is not of a newer format.
pub load-loaded_iff :
    (readable : Bool) (decode : Text → Option Checkpoint) (stream : Text) (dir : Directory)
    (cp : Checkpoint)
    → (load readable decode stream dir ≡ loaded cp) ↔ (
        (readable ≡ true)
        × (cp.format ≤ checkpoint_format_version)
        × (bytes : Text) × (lookup (path_for stream) dir ≡ some bytes)
        × (decode bytes ≡ some cp))
unfolding load
load-loaded_iff readable decode stream dir cp = (
  forth,
  λ (can, current, bytes, h, d).
      ap (λ b. load b decode stream dir) can ∙ load-found decode stream bytes cp dir h d current,
)
  where
    forth :
        load readable decode stream dir ≡ loaded cp
        → (readable ≡ true)
          × (cp.format ≤ checkpoint_format_version)
          × (bytes : Text) × (lookup (path_for stream) dir ≡ some bytes)
          × (decode bytes ≡ some cp)
    forth e = elim (Option-cases (lookup (path_for stream) dir)) [
      | inl missing ↦ absurd (ground (arith, e, missing))
      | inr (bytes, h) ↦ elim (Bool-cases readable) [
        | inr cannot ↦ absurd (ground (arith, e, h, cannot))
        | inl can ↦ elim (Option-cases (decode bytes)) [
          | inl broken ↦ absurd (ground (arith, e, h, can, broken))
          | inr (cp', d) ↦
              let (same, current) = accept_format-loaded cp cp' (ground (arith, e, h, can, d)) in
              (
                can,
                subst (λ x. x.format ≤ checkpoint_format_version) same current,
                bytes,
                h,
                d ∙ ap some same,
              )
        ]
      ]
    ]

-- If every step succeeds and the JSON of a checkpoint reads back as it, then a save of one in the
-- current format is what is loaded for the stream, and the other streams' are as they were.
pub load-save :
    (encode : Checkpoint → Option Text) (decode : Text → Option Checkpoint) (cp : Checkpoint)
    (bytes stream : Text) (dir : Directory) (io : Io)
    → encode cp ≡ some bytes
    → decode bytes ≡ some cp
    → cp.format ≤ checkpoint_format_version
    → io.creates_dir ≡ true
    → io.writes ≡ true
    → io.renames ≡ true
    → ((save io encode cp stream dir).0 ≡ true)
      × (load true decode stream (save io encode cp stream dir).1 ≡ loaded cp)
      × ((other : Text)
          → stream ≢ other
          → load true decode other (save io encode cp stream dir).1 ≡ load true decode other dir)
load-save encode decode cp bytes stream dir io e d current c w r =
    let path = path_for stream in
    let tmp = tmp_for stream in
    let dir₁ = remove tmp (insert tmp bytes dir) in
    let dir₂ = insert path bytes dir₁ in
    let saved = save-done io encode cp bytes stream dir e c w r in
    let there : lookup path dir₂ ≡ some bytes =
      lookup-insert path path bytes dir₁ ∙ rw (text_eq-same path) refl in
    rw saved (
      refl,
      load-found decode stream bytes cp dir₂ there d current,
      λ other ne. load-cong true decode other dir dir₂ (
          lookup-insert path (path_for other) bytes dir₁
          ∙ rw (text_eq-ne path (path_for other) (λ same. ne (path_for-inj stream other same))) (
              lookup-remove tmp (path_for other) (insert tmp bytes dir)
              ∙ rw (text_eq-ne tmp (path_for other) (tmp_for-ne stream other))
                  (insert_tmp-Untouched stream bytes dir other))),
    )
