-- ===== src/Queue/Spool.antt =====
-- `spool` of crates/tributary/src/queue.rs: what it does to the files and to the queue.
use tributary.Prelude.{
  ℕ, ◌+◌, ◌<◌, ◌^◌, ◌≡◌, ◌≢◌, ◌∙◌, refl, sym, ap, true, false, List, [], ◌∷◌, ◌++◌, map, Option,
  some, none, Text, arith, lookup, insert, remove, All, All-append, Distinct, text_has_eq, text_eq,
  text_eq_iff, length, u64_add, if◌then◌else◌, ◌⊎◌, inl, inr, subst, ◌%◌,
}
use tributary.Queue.{
  Disk, Queue, Io, Outcome, done, failed, IoError, accepted, no_room, broken, spool, publish,
  commit, refuse, unlink, leave_partial, segment_name, tmp_name, file_len, out_of_space,
}
use tributary.Queue.Fifo.{
  batches, batches_of, size_of, Held, IsSound, Leaves, batches-Leaves, size-Leaves, Held-Leaves,
}

module _ {A B : Type 0} (f : A → B) where
  map-snoc : (xs : List A) (x : A) → map f (xs ++ x ∷ []) ≡ map f xs ++ f x ∷ []
  map-snoc [] x = refl
  map-snoc (y ∷ ys) x = ap (◌∷◌ (f y)) (map-snoc ys x)

Distinct-snoc : (n : ℕ) (ss : List ℕ) → All (λ s. s < n) ss → Distinct ss → Distinct (ss ++ n ∷ [])
Distinct-snoc n [] h d = (tt, tt)
Distinct-snoc n (s ∷ ss) h d = (
  All-append (λ y. s ≢ y) ss (n ∷ []) d.0 ((λ e. omega (arith, h.0, e)), tt),
  Distinct-snoc n ss h.1 d.1,
)

raise : (n : ℕ) (ss : List ℕ) → All (λ s. s < n) ss → All (λ s. s < n + 1) ss
raise n [] h = tt
raise n (s ∷ ss) h = (omega (arith, h.0), raise n ss h.1)

batches-snoc :
    (disk : Disk) (names : List Text) (name : Text)
    → batches_of disk (names ++ name ∷ []) ≡ batches_of disk names ++ lookup name disk ∷ []
batches-snoc disk [] name = refl
batches-snoc disk (m ∷ names) name = ap (◌∷◌ (lookup m disk)) (batches-snoc disk names name)

size-snoc :
    (disk : Disk) (ss : List ℕ) (n : ℕ)
    → size_of disk (ss ++ n ∷ []) ≡ size_of disk ss + file_len disk (segment_name n)
size-snoc disk [] n = omega arith
size-snoc disk (s ∷ ss) n = omega (arith, size-snoc disk ss n)

pub file_len-lookup :
    (name body : Text) (disk : Disk)
    → lookup name disk ≡ some body
    → file_len disk name ≡ length body
file_len-lookup name body disk e =
    ap {A = Option Text} (λ o. elim o [ none ↦ 0 | some b ↦ length b ]) e

pub text_eq-same : (a : Text) → text_eq a a ≡ true
text_eq-same a = ground (arith, text_eq_iff a a)

pub spool-done :
    (io : Io) (body : Text) (q : Queue) (disk : Disk)
    → io.write ≡ done
    → io.rename ≡ done
    → spool io body q disk ≡ (
      accepted,
      commit body q,
      insert
          (segment_name q.next_seq)
          body
          (remove (tmp_name q.next_seq) (insert (tmp_name q.next_seq) body disk)),
    )
unfolding spool
spool-done io body q disk written renamed = rw (written, renamed, spool, publish)

pub outcome-cases : (o : Outcome) → (o ≡ done) ⊎ ((e : IoError) × (o ≡ failed e))
outcome-cases done = inl refl
outcome-cases (failed e) = inr (e, refl)

pub spool-unwritten :
    (io : Io) (body : Text) (q : Queue) (disk : Disk) (e : IoError)
    → io.write ≡ failed e
    → spool io body q disk ≡ (
      refuse e,
      q,
      unlink io.unlinks (tmp_name q.next_seq) (leave_partial (tmp_name q.next_seq) io.partial disk),
    )
unfolding spool
spool-unwritten io body q disk e written = rw (written, spool)

pub spool-unrenamed :
    (io : Io) (body : Text) (q : Queue) (disk : Disk) (e : IoError)
    → io.write ≡ done
    → io.rename ≡ failed e
    → spool io body q disk ≡ (
      refuse e,
      q,
      unlink io.unlinks (tmp_name q.next_seq) (insert (tmp_name q.next_seq) body disk),
    )
unfolding spool
spool-unrenamed io body q disk e written renamed = rw (written, renamed, spool, publish)

pub refuse-ne : (e : IoError) → refuse e ≢ accepted
unfolding refuse
refuse-ne e = elim (out_of_space e) as (λ b. (if b then no_room else broken e) ≢ accepted) [
  | true ↦ ground arith
  | false ↦ ground arith
]

pub commit-bytes :
    (q : Queue) (body : Text)
    → q.bytes + length body < 2 ^ 64
    → (commit body q).bytes ≡ q.bytes + length body
unfolding commit u64_add
commit-bytes q body fits = omega (arith, fits)

module _ (seqs : List ℕ) (q : Queue) (disk disk' : Disk) (h : IsSound seqs q disk)
    (leaves : Leaves seqs disk disk') where
  pub kept-batches : batches q disk' ≡ batches q disk
  kept-batches =
      ap (batches_of disk') h.named
      ∙ batches-Leaves disk disk' seqs leaves
      ∙ ap (batches_of disk) (sym h.named)

  pub kept-IsSound : IsSound seqs q disk'
  kept-IsSound = record {
    named = h.named;
    fresh = h.fresh;
    distinct = h.distinct;
    within = h.within;
    held = Held-Leaves disk disk' seqs leaves h.held;
    counted = h.counted ∙ sym (size-Leaves disk disk' seqs leaves);
  }

-- What it takes for a batch to be the new last one.
module _ (seqs : List ℕ) (q : Queue) (body : Text) (disk disk' : Disk) (h : IsSound seqs q disk)
    (room : q.next_seq + 1 < 2 ^ 64) (fits : q.bytes + length body < 2 ^ 64)
    (leaves : Leaves seqs disk disk')
    (there : lookup (segment_name q.next_seq) disk' ≡ some body) where
  pub commit-batches : batches (commit body q) disk' ≡ batches q disk ++ some body ∷ []
  unfolding commit
  commit-batches =
      batches-snoc disk' q.segments (segment_name q.next_seq)
      ∙ ap (λ names. batches_of disk' names ++ lookup (segment_name q.next_seq) disk' ∷ []) h.named
      ∙ ap (λ bs. bs ++ lookup (segment_name q.next_seq) disk' ∷ [])
          (batches-Leaves disk disk' seqs leaves)
      ∙ ap (λ o. batches_of disk (map segment_name seqs) ++ o ∷ []) there
      ∙ ap (λ names. batches_of disk names ++ some body ∷ []) (sym h.named)

  pub commit-IsSound : IsSound (seqs ++ q.next_seq ∷ []) (commit body q) disk'
  unfolding commit u64_add
  commit-IsSound = record {
    named =
        ap (λ names. names ++ segment_name q.next_seq ∷ []) h.named
        ∙ sym (map-snoc segment_name seqs q.next_seq);
    fresh =
        let next : (q.next_seq + 1) % 2 ^ 64 ≡ q.next_seq + 1 = omega (arith, room) in
        subst (λ n. All (λ s. s < n) (seqs ++ q.next_seq ∷ [])) (sym next)
          (All-append (λ s. s < q.next_seq + 1) seqs (q.next_seq ∷ [])
            (raise q.next_seq seqs h.fresh) (omega arith, tt));
    distinct = Distinct-snoc q.next_seq seqs h.fresh h.distinct;
    within = omega (arith, room);
    held =
        All-append (Held disk') seqs (q.next_seq ∷ []) (Held-Leaves disk disk' seqs leaves h.held)
          ((body, there), tt);
    counted = omega (
      arith,
      fits,
      h.counted,
      size-snoc disk' seqs q.next_seq,
      size-Leaves disk disk' seqs leaves,
      file_len-lookup (segment_name q.next_seq) body disk' there,
    );
  }
