-- ===== src/Pipeline/Queued.antt =====
-- `push` and `push_forced` of crates/tributary/src/queue.rs, as the pipeline of
-- crates/tributary/src/main.rs relies on them.
use tributary.Prelude.{
  ℕ, ◌+◌, ◌<◌, ◌≤◌, ◌^◌, ◌≡◌, refl, sym, true, false, List, [], ◌∷◌, ◌++◌, some, Text, arith,
  length, u64_add, subst, inl, inr, Bool-cases,
}
use tributary.Queue.{
  Disk, IoError, Io, Queue, Spooled, accepted, no_room, broken, push, push_forced, pause, force,
  refuse, spool, commit, out_of_space,
}
use tributary.Queue.Fifo.{IsSound, batches}
use tributary.Queue.Push.{IsQueued, IsRefused, push-cases, push_forced-cases, push-split}
use tributary.Queue.Spool.{outcome-cases, spool-done, spool-unwritten, spool-unrenamed}

-- How the next number moves, and which errors come through.
abbrev IsPlain : Queue → Spooled × Queue × Disk → Type 0
IsPlain q (accepted, q', disk') = q'.next_seq ≤ q.next_seq + 1
IsPlain q (no_room, q', disk') = q'.next_seq ≤ q.next_seq
IsPlain q (broken e, q', disk') = (q'.next_seq ≤ q.next_seq) × (out_of_space e ≡ false)

refuse-IsPlain : (q : Queue) (e : IoError) (disk : Disk) → IsPlain q (refuse e, q, disk)
unfolding refuse
refuse-IsPlain q e disk = elim (Bool-cases (out_of_space e)) [
  | inl t ↦ rw t (omega arith)
  | inr f ↦ rw f (omega arith, f)
]

spool-IsPlain : (io : Io) (body : Text) (q : Queue) (disk : Disk) → IsPlain q (spool io body q disk)
spool-IsPlain io body q disk = elim (outcome-cases io.write) [
  | inr (e, w) ↦ subst (IsPlain q) (sym (spool-unwritten io body q disk e w)) (refuse-IsPlain q e _)
  | inl w ↦ elim (outcome-cases io.rename) [
    | inr (e, r) ↦
        subst (IsPlain q) (sym (spool-unrenamed io body q disk e w r)) (refuse-IsPlain q e _)
    | inl r ↦
        subst (IsPlain q) (sym (spool-done io body q disk w r))
          (unfold commit u64_add in omega arith)
  ]
]

pause-IsPlain : (q : Queue) (r : Spooled × Queue × Disk) → IsPlain q r → IsPlain q (pause r)
pause-IsPlain q (accepted, q', disk') h = h
pause-IsPlain q (no_room, q', disk') h = h
pause-IsPlain q (broken e, q', disk') h = h

force-IsPlain : (q : Queue) (r : Spooled × Queue × Disk) → IsPlain q r → IsPlain q (force r)
force-IsPlain q (accepted, q', disk') h = h
force-IsPlain q (no_room, q', disk') h = h
force-IsPlain q (broken e, q', disk') h = h

push-IsPlain : (io : Io) (body : Text) (q : Queue) (disk : Disk) → IsPlain q (push io body q disk)
unfolding push
push-IsPlain io body q disk = elim (push-split io body q disk) [
  | inl e ↦ subst (IsPlain q) (sym e) (omega arith)
  | inr e ↦
      subst (IsPlain q) (sym e)
        (pause-IsPlain q (spool io body q disk) (spool-IsPlain io body q disk))
]

push_forced-IsPlain :
    (io : Io) (body : Text) (q : Queue) (disk : Disk) → IsPlain q (push_forced io body q disk)
unfolding push_forced
push_forced-IsPlain io body q disk =
    force-IsPlain q (spool io body q disk) (spool-IsPlain io body q disk)

-- What an addition leaves: the batch behind the others, or the others alone.
abbrev pub Adds : Text → Queue → Disk → Queue → Disk → Type 0
Adds body q disk q' disk' =
    (batches q' disk' ≡ batches q disk ++ some body ∷ [])
    × (q'.bytes ≡ q.bytes + length body)
    × (q'.next_seq ≤ q.next_seq + 1)

abbrev pub Stays : Queue → Disk → Queue → Disk → Type 0
Stays q disk q' disk' =
    (batches q' disk' ≡ batches q disk) × (q'.bytes ≡ q.bytes) × (q'.next_seq ≤ q.next_seq)

abbrev pub Sound : Queue → Disk → Type 0
Sound q disk = (seqs : List ℕ) × IsSound seqs q disk

abbrev pub Spools : Text → Queue → Disk → Spooled × Queue × Disk → Type 0
Spools body q disk (accepted, q', disk') = Sound q' disk' × Adds body q disk q' disk'
Spools body q disk (no_room, q', disk') = Sound q' disk' × Stays q disk q' disk'
Spools body q disk (broken e, q', disk') =
    Sound q' disk' × Stays q disk q' disk' × (out_of_space e ≡ false)

queued-Spools :
    (seqs : List ℕ) (body : Text) (q : Queue) (disk : Disk) (r : Spooled × Queue × Disk)
    → IsPlain q r
    → IsQueued seqs body q disk r
    → Spools body q disk r
queued-Spools seqs body q disk (accepted, q', disk') p k = ((_, k.2), (k.1, k.3, p))
queued-Spools seqs body q disk (no_room, q', disk') p k = ground (arith, k.0)
queued-Spools seqs body q disk (broken e, q', disk') p k = ground (arith, k.0)

refused-Spools :
    (seqs : List ℕ) (body : Text) (q : Queue) (disk : Disk) (r : Spooled × Queue × Disk)
    → IsPlain q r
    → IsRefused seqs q disk r
    → Spools body q disk r
refused-Spools seqs body q disk (accepted, q', disk') p k = ground (arith, k.0)
refused-Spools seqs body q disk (no_room, q', disk') p k = ((seqs, k.2), (k.1, k.3, p))
refused-Spools seqs body q disk (broken e, q', disk') p k = ((seqs, k.2), (k.1, k.3, p.0), p.1)

full-Sound : (q : Queue) (disk : Disk) → Sound q disk → Sound (record q { full = true }) disk
full-Sound q disk (seqs, h) = (
  seqs,
  record {
    named = h.named;
    fresh = h.fresh;
    distinct = h.distinct;
    within = h.within;
    held = h.held;
    counted = h.counted;
  },
)

module _ (body : Text) (q : Queue) (disk : Disk) (h : Sound q disk) (room : q.next_seq + 1 < 2 ^ 64)
    (fits : q.bytes + length body < 2 ^ 64) (io : Io) where
  pub push_forced-Spools : Spools body q disk (push_forced io body q disk)
  push_forced-Spools =
      let plain = push_forced-IsPlain io body q disk in
      elim (push_forced-cases h.0 q body disk h.1 room fits io).0 [
        | inl k ↦ queued-Spools h.0 body q disk (push_forced io body q disk) plain k.0
        | inr k ↦ refused-Spools h.0 body q disk (push_forced io body q disk) plain k
      ]

  pub push-Spools : Spools body q disk (push io body q disk)
  push-Spools =
      let plain = push-IsPlain io body q disk in
      elim (push-cases h.0 q body disk h.1 room fits io) [
        | inl k ↦
            subst (Spools body q disk) (sym k.1) (full-Sound q disk h, (refl, refl, omega arith))
        | inr (under, c) ↦ elim c [
          | inl k ↦ queued-Spools h.0 body q disk (push io body q disk) plain k
          | inr k ↦ refused-Spools h.0 body q disk (push io body q disk) plain k
        ]
      ]
