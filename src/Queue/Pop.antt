-- ===== src/Queue/Pop.antt =====
-- `pop` of crates/tributary/src/queue.rs.
use tributary.Prelude.{
  ℕ, ◌+◌, ◌-◌, ◌*◌, ◌%◌, ◌<◌, ◌^◌, ◌≡◌, ◌≢◌, ◌∙◌, sym, ap, false, List, [], ◌∷◌, Option, some, none,
  Text, arith, lookup, All, lookup-remove, text_has_eq, length, map, remove, leb, if◌then◌else◌,
  drop, Option-cases, inl, inr,
}
use tributary.Queue.{
  Disk, Queue, IoError, done, failed, not_found, pop, retire, file_len, segment_name,
}
use tributary.Queue.Names.{segment_name-ne}
use tributary.Queue.Fifo.{
  batches, batches_of, IsSound, Leaves, size_of, batches-Leaves, size-Leaves, Held-Leaves,
  text_eq-ne,
}

remove_front-Leaves :
    (n : ℕ) (seqs : List ℕ) (disk : Disk) (bound : ℕ)
    → n < 2 ^ 64
    → bound < 2 ^ 64
    → All (λ s. s < bound) seqs
    → All (λ s. n ≢ s) seqs
    → Leaves seqs disk (remove (segment_name n) disk)
remove_front-Leaves n [] disk bound within top h k = tt
remove_front-Leaves n (s ∷ seqs) disk bound within top h k = (
  lookup-remove (segment_name n) (segment_name s) disk
      ∙ rw (
          text_eq-ne (segment_name n) (segment_name s)
            (segment_name-ne n s within (omega (arith, h.0)) k.0)),
  remove_front-Leaves n seqs disk bound within top h.1 k.1,
)

file_len-lookup :
    (name body : Text) (disk : Disk)
    → lookup name disk ≡ some body
    → file_len disk name ≡ length body
file_len-lookup name body disk e =
    ap {A = Option Text} (λ o. elim o [ none ↦ 0 | some b ↦ length b ]) e

pop-removes :
    (name body : Text) (q : Queue) (disk : Disk)
    → lookup name disk ≡ some body
    → pop done name q disk ≡ (done, retire (length body) q, remove name disk)
unfolding pop
pop-removes name body q disk e =
    rw (e, pop) (ap (λ n. (done, retire n q, remove name disk)) (file_len-lookup name body disk e))

full-retire :
    (len : ℕ) (q : Queue)
    → q.bytes * 2 < 2 ^ 64
    → (retire len q).full ≡ (if leb ((q.bytes - len) * 2) q.max_bytes then false else q.full)
unfolding retire
full-retire len q small =
    let fits : (q.bytes - len) * 2 % 2 ^ 64 ≡ (q.bytes - len) * 2 = omega arith in
    ground (arith, fits)

-- The numbers of new segments go on.
pub pop-next_seq :
    (name body : Text) (q : Queue) (disk : Disk)
    → lookup name disk ≡ some body
    → (pop done name q disk).1.next_seq ≡ q.next_seq
unfolding retire
pop-next_seq name body q disk e = ap (λ r. r.1.next_seq) (pop-removes name body q disk e)

-- A file that cannot be removed leaves the queue as it is.
pub pop-kept :
    (name : Text) (e : IoError) (q : Queue) (disk : Disk)
    → (e' : IoError) × (pop (failed e) name q disk ≡ (failed e', q, disk))
unfolding pop
pop-kept name e q disk = elim (Option-cases (lookup name disk)) [
  | inl missing ↦ (not_found, rw (missing, pop))
  | inr (body, there) ↦ (e, rw (there, pop))
]

-- The front segment of a sound queue retires when its file can be removed. Then the batches are the
-- ones behind it, the queue is sound, and the pause is lifted exactly when what is left is at most half
-- of the cap.
pub pop-front :
    (s : ℕ) (seqs : List ℕ) (q : Queue) (disk : Disk)
    → IsSound (s ∷ seqs) q disk
    → q.bytes * 2 < 2 ^ 64
    → (body : Text) × (q' : Queue) × (disk' : Disk) × (pop done (segment_name s) q disk
        ≡ (done, q', disk'))
      × (batches q disk ≡ some body ∷ batches q' disk')
      × IsSound seqs q' disk'
      × (q.bytes ≡ length body + q'.bytes)
      × (q'.full ≡ (if leb (q'.bytes * 2) q.max_bytes then false else q.full))
unfolding retire
pop-front s seqs q disk h small =
    let body = h.held.0.0 in
    let there : lookup (segment_name s) disk ≡ some body = h.held.0.1 in
    let disk' = remove (segment_name s) disk in
    let low : s < 2 ^ 64 = omega (arith, h.fresh.0, h.within) in
    let kept : Leaves seqs disk disk' =
      remove_front-Leaves s seqs disk q.next_seq low h.within h.fresh.1 h.distinct.0 in
    let rest : size_of disk' seqs ≡ size_of disk seqs = size-Leaves disk disk' seqs kept in
    let all : q.bytes ≡ length body + size_of disk seqs =
      omega (arith, h.counted, file_len-lookup (segment_name s) body disk there) in
    (
      body,
      retire (length body) q,
      disk',
      pop-removes (segment_name s) body q disk there,
      ap (batches_of disk) h.named
          ∙ ap (λ o. o ∷ batches_of disk (map segment_name seqs)) there
          ∙ ap (◌∷◌ (some body)) (sym (batches-Leaves disk disk' seqs kept))
          ∙ ap (λ names. some body ∷ batches_of disk' (drop 1 names)) (sym h.named),
      record {
        named = ap (drop 1) h.named;
        fresh = h.fresh.1;
        distinct = h.distinct.1;
        within = h.within;
        held = Held-Leaves disk disk' seqs kept h.held.1;
        counted = omega (arith, all, rest);
      },
      omega (arith, all),
      full-retire (length body) q small,
    )
