-- ===== src/Queue/Fifo.antt =====
-- The queue of crates/tributary/src/queue.rs as a list of batches: its abstract view and its invariant.
use tributary.Prelude.{
  ℕ, ◌+◌, ◌<◌, ◌^◌, ◌≡◌, ◌≢◌, refl, sym, ◌∙◌, false, List, [], ◌∷◌, map, Option, some, Text, arith,
  lookup, insert, remove, lookup-insert, lookup-remove, All, Distinct, text_eq, text_eq_iff,
  text_has_eq,
}
use tributary.Queue.{Disk, Queue, segment_name, tmp_name, file_len}
use tributary.Queue.Names.{segment_name-ne, segment_name-ne-tmp_name}

-- The contents of the queued segments, oldest first.
abbrev pub batches_of : Disk → List Text → List (Option Text)
batches_of disk [] = []
batches_of disk (name ∷ names) = lookup name disk ∷ batches_of disk names

abbrev pub batches : Queue → Disk → List (Option Text)
batches q disk = batches_of disk q.segments

abbrev pub size_of : Disk → List ℕ → ℕ
size_of disk [] = 0
size_of disk (s ∷ seqs) = file_len disk (segment_name s) + size_of disk seqs

abbrev pub Held : Disk → ℕ → Type 0
Held disk s = (body : Text) × (lookup (segment_name s) disk ≡ some body)

-- The segments are the files numbered `seqs`, all below the next number; each is there, and the byte
-- count is exact.
pub record IsSound (seqs : List ℕ) (q : Queue) (disk : Disk) : Type 0 where
  pub named : q.segments ≡ map segment_name seqs
  pub fresh : All (λ s. s < q.next_seq) seqs
  pub distinct : Distinct seqs
  pub within : q.next_seq < 2 ^ 64
  pub held : All (Held disk) seqs
  pub counted : q.bytes ≡ size_of disk seqs

-- A change of the disk that leaves these segments alone.
abbrev pub Leaves : List ℕ → Disk → Disk → Type 0
Leaves seqs disk disk' =
    All (λ s. lookup (segment_name s) disk' ≡ lookup (segment_name s) disk) seqs

module _ (disk disk' : Disk) where
  pub batches-Leaves :
      (seqs : List ℕ)
      → Leaves seqs disk disk'
      → batches_of disk' (map segment_name seqs) ≡ batches_of disk (map segment_name seqs)
  batches-Leaves [] h = refl
  batches-Leaves (s ∷ seqs) h = ground (arith, h.0, batches-Leaves seqs h.1)

  pub size-Leaves :
      (seqs : List ℕ) → Leaves seqs disk disk' → size_of disk' seqs ≡ size_of disk seqs
  size-Leaves [] h = refl
  size-Leaves (s ∷ seqs) h = ground (arith, h.0, size-Leaves seqs h.1)

  pub Held-Leaves :
      (seqs : List ℕ) → Leaves seqs disk disk' → All (Held disk) seqs → All (Held disk') seqs
  Held-Leaves [] h k = tt
  Held-Leaves (s ∷ seqs) h k = ((k.0.0, h.0 ∙ k.0.1), Held-Leaves seqs h.1 k.1)

pub text_eq-ne : (a b : Text) → a ≢ b → text_eq a b ≡ false
text_eq-ne a b h = ground (arith, text_eq_iff a b)

-- Writes to temporary files, and to a segment with a new number, leave the older ones alone.
module _ (n : ℕ) (within : n < 2 ^ 64) where
  pub insert_tmp-Leaves :
      (seqs : List ℕ) (body : Text) (disk : Disk)
      → All (λ s. s < n) seqs
      → Leaves seqs disk (insert (tmp_name n) body disk)
  insert_tmp-Leaves [] body disk h = tt
  insert_tmp-Leaves (s ∷ seqs) body disk h = (
    lookup-insert (tmp_name n) (segment_name s) body disk
        ∙ rw (
            text_eq-ne (tmp_name n) (segment_name s)
              (λ e. segment_name-ne-tmp_name s n (omega arith) (sym e))),
    insert_tmp-Leaves seqs body disk h.1,
  )

  pub remove_tmp-Leaves :
      (seqs : List ℕ) (disk : Disk)
      → All (λ s. s < n) seqs
      → Leaves seqs disk (remove (tmp_name n) disk)
  remove_tmp-Leaves [] disk h = tt
  remove_tmp-Leaves (s ∷ seqs) disk h = (
    lookup-remove (tmp_name n) (segment_name s) disk
        ∙ rw (
            text_eq-ne (tmp_name n) (segment_name s)
              (λ e. segment_name-ne-tmp_name s n (omega arith) (sym e))),
    remove_tmp-Leaves seqs disk h.1,
  )

  pub insert_new-Leaves :
      (seqs : List ℕ) (body : Text) (disk : Disk)
      → All (λ s. s < n) seqs
      → Leaves seqs disk (insert (segment_name n) body disk)
  insert_new-Leaves [] body disk h = tt
  insert_new-Leaves (s ∷ seqs) body disk h = (
    lookup-insert (segment_name n) (segment_name s) body disk
        ∙ rw (
            text_eq-ne (segment_name n) (segment_name s)
              (segment_name-ne n s within (omega arith) (omega arith))),
    insert_new-Leaves seqs body disk h.1,
  )

pub Leaves-trans :
    (seqs : List ℕ) (d e f : Disk) → Leaves seqs d e → Leaves seqs e f → Leaves seqs d f
Leaves-trans [] d e f h k = tt
Leaves-trans (s ∷ seqs) d e f h k = (k.0 ∙ h.0, Leaves-trans seqs d e f h.1 k.1)

pub Leaves-refl : (seqs : List ℕ) (d : Disk) → Leaves seqs d d
Leaves-refl [] d = tt
Leaves-refl (s ∷ seqs) d = (refl, Leaves-refl seqs d)
