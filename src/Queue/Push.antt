-- ===== src/Queue/Push.antt =====
-- `push` and `push_forced` of crates/tributary/src/queue.rs.
use tributary.Prelude.{
  ℕ, ◌+◌, ◌<◌, ◌≤◌, ◌^◌, ◌≡◌, ◌≢◌, ◌∙◌, refl, sym, Bool, true, false, List, [], ◌∷◌, ◌++◌, Option,
  some, none, Text, arith, lookup, insert, remove, lookup-insert, text_has_eq, length, u64_add, ltb,
  leb, Bool-cases, ◌⊎◌, inl, inr, subst, ◌%◌,
}
use tributary.Queue.{
  Disk, Queue, Io, done, IoError, Spooled, accepted, no_room, broken, spool, push, push_forced,
  pause, force, refuse, unlink, leave_partial, segment_name, tmp_name,
}
use tributary.Queue.Fifo.{
  batches, IsSound, Leaves, Leaves-trans, Leaves-refl, insert_tmp-Leaves, remove_tmp-Leaves,
  insert_new-Leaves,
}
use tributary.Queue.Spool.{
  text_eq-same, spool-done, outcome-cases, spool-unwritten, spool-unrenamed, refuse-ne,
  commit-bytes, kept-batches, kept-IsSound, commit-batches, commit-IsSound,
}

-- The answer of an addition that was made, and of one that was refused.
abbrev pub IsQueued : List ℕ → Text → Queue → Disk → Spooled × Queue × Disk → Type 0
IsQueued seqs body q disk (answer, q', disk') =
    (answer ≡ accepted)
    × (batches q' disk' ≡ batches q disk ++ some body ∷ [])
    × IsSound (seqs ++ q.next_seq ∷ []) q' disk'
    × (q'.bytes ≡ q.bytes + length body)

abbrev pub IsRefused : List ℕ → Queue → Disk → Spooled × Queue × Disk → Type 0
IsRefused seqs q disk (answer, q', disk') =
    (answer ≢ accepted)
    × (batches q' disk' ≡ batches q disk)
    × IsSound seqs q' disk'
    × (q'.bytes ≡ q.bytes)

full-IsSound :
    (seqs : List ℕ) (q : Queue) (disk : Disk)
    → IsSound seqs q disk
    → IsSound seqs (record q { full = true }) disk
full-IsSound seqs q disk h = record {
  named = h.named;
  fresh = h.fresh;
  distinct = h.distinct;
  within = h.within;
  held = h.held;
  counted = h.counted;
}

module _ (seqs : List ℕ) (q : Queue) (body : Text) (disk : Disk) where
  pause-IsQueued :
      (r : Spooled × Queue × Disk)
      → IsQueued seqs body q disk r
      → IsQueued seqs body q disk (pause r)
  pause-IsQueued (accepted, q', disk') k = k
  pause-IsQueued (no_room, q', disk') k = ground (arith, k.0)
  pause-IsQueued (broken e, q', disk') k = ground (arith, k.0)

  pause-IsRefused :
      (r : Spooled × Queue × Disk) → IsRefused seqs q disk r → IsRefused seqs q disk (pause r)
  pause-IsRefused (accepted, q', disk') k = k
  pause-IsRefused (no_room, q', disk') k = (k.0, k.1, full-IsSound seqs q' disk' k.2, k.3)
  pause-IsRefused (broken e, q', disk') k = k

  force-IsQueued :
      (r : Spooled × Queue × Disk)
      → IsQueued seqs body q disk r
      → IsQueued seqs body q disk (force r) × ((force r).1.full ≡ true)
  force-IsQueued (accepted, q', disk') k =
      ((k.0, k.1, full-IsSound (seqs ++ q.next_seq ∷ []) q' disk' k.2, k.3), refl)
  force-IsQueued (no_room, q', disk') k = ground (arith, k.0)
  force-IsQueued (broken e, q', disk') k = ground (arith, k.0)

  force-IsRefused :
      (r : Spooled × Queue × Disk) → IsRefused seqs q disk r → IsRefused seqs q disk (force r)
  force-IsRefused (accepted, q', disk') k = ground (arith, k.0)
  force-IsRefused (no_room, q', disk') k = (k.0, k.1, full-IsSound seqs q' disk' k.2, k.3)
  force-IsRefused (broken e, q', disk') k = k

le-or-lt : (a b : ℕ) → (a ≤ b) ⊎ (b < a)
le-or-lt a b = elim (Bool-cases (leb a b)) [
  | inl t ↦ inl (ground (arith, t))
  | inr t ↦ inr (ground (arith, t))
]

pub push-over :
    (io : Io) (body : Text) (q : Queue) (disk : Disk)
    → q.bytes + length body < 2 ^ 64
    → q.max_bytes < q.bytes + length body
    → push io body q disk ≡ (no_room, record q { full = true }, disk)
unfolding push u64_add
push-over io body q disk fits over =
    let fit : (q.bytes + length body) % 2 ^ 64 ≡ q.bytes + length body = omega (arith, fits) in
    let test : ltb q.max_bytes ((q.bytes + length body) % 2 ^ 64) ≡ true =
      ground (arith, fit, over) in
    rw test

push-under :
    (io : Io) (body : Text) (q : Queue) (disk : Disk)
    → q.bytes + length body < 2 ^ 64
    → q.bytes + length body ≤ q.max_bytes
    → push io body q disk ≡ pause (spool io body q disk)
unfolding push u64_add
push-under io body q disk fits under =
    let fit : (q.bytes + length body) % 2 ^ 64 ≡ q.bytes + length body = omega (arith, fits) in
    let test : ltb q.max_bytes ((q.bytes + length body) % 2 ^ 64) ≡ false =
      ground (arith, fit, under) in
    rw test

-- A push is refused at the cap, or is a spool.
pub push-split :
    (io : Io) (body : Text) (q : Queue) (disk : Disk)
    → (push io body q disk ≡ (no_room, record q { full = true }, disk))
      ⊎ (push io body q disk ≡ pause (spool io body q disk))
unfolding push
push-split io body q disk = elim (Bool-cases (ltb q.max_bytes (u64_add q.bytes (length body)))) [
  | inl t ↦ inl (rw t)
  | inr f ↦ inr (rw f)
]

module _ (seqs : List ℕ) (q : Queue) (body : Text) (disk : Disk) (h : IsSound seqs q disk)
    (room : q.next_seq + 1 < 2 ^ 64) (fits : q.bytes + length body < 2 ^ 64) where
  spool-IsQueued :
      (io : Io)
      → io.write ≡ done
      → io.rename ≡ done
      → IsQueued seqs body q disk (spool io body q disk)
  spool-IsQueued io written renamed =
      let tmp = tmp_name q.next_seq in
      let name = segment_name q.next_seq in
      let d1 = insert tmp body disk in
      let d2 = remove tmp d1 in
      let d3 = insert name body d2 in
      let leaves : Leaves seqs disk d3 =
        Leaves-trans seqs disk d1 d3 (insert_tmp-Leaves q.next_seq h.within seqs body disk h.fresh)
          (Leaves-trans seqs d1 d2 d3 (remove_tmp-Leaves q.next_seq h.within seqs d1 h.fresh)
            (insert_new-Leaves q.next_seq h.within seqs body d2 h.fresh)) in
      let there : lookup name d3 ≡ some body =
        lookup-insert name name body d2 ∙ rw (text_eq-same name) in
      subst (IsQueued seqs body q disk) (sym (spool-done io body q disk written renamed)) (
        refl,
        commit-batches seqs q body disk d3 h room fits leaves there,
        commit-IsSound seqs q body disk d3 h room fits leaves there,
        commit-bytes q body fits,
      )

  refuse-IsRefused :
      (e : IoError) (disk' : Disk)
      → Leaves seqs disk disk'
      → IsRefused seqs q disk (refuse e, q, disk')
  refuse-IsRefused e disk' leaves = (
    refuse-ne e,
    kept-batches seqs q disk disk' h leaves,
    kept-IsSound seqs q disk disk' h leaves,
    refl,
  )

  unlink-Leaves :
      (b : Bool) (disk' : Disk)
      → Leaves seqs disk disk'
      → Leaves seqs disk (unlink b (tmp_name q.next_seq) disk')
  unlink-Leaves false disk' k = k
  unlink-Leaves true disk' k =
      Leaves-trans seqs disk disk' (remove (tmp_name q.next_seq) disk') k
        (remove_tmp-Leaves q.next_seq h.within seqs disk' h.fresh)

  partial-Leaves :
      (part : Option Text) → Leaves seqs disk (leave_partial (tmp_name q.next_seq) part disk)
  partial-Leaves none = Leaves-refl seqs disk
  partial-Leaves (some part) = insert_tmp-Leaves q.next_seq h.within seqs part disk h.fresh

  -- A batch is spooled whole, or the queue and its files are as they were, whatever the write left.
  spool-cases :
      (io : Io)
      → IsQueued seqs body q disk (spool io body q disk)
        ⊎ IsRefused seqs q disk (spool io body q disk)
  spool-cases io = elim (outcome-cases io.write) [
    | inr (e, w) ↦ inr (
        subst (IsRefused seqs q disk) (sym (spool-unwritten io body q disk e w))
          (refuse-IsRefused e _ (unlink-Leaves io.unlinks _ (partial-Leaves io.partial))))
    | inl w ↦ elim (outcome-cases io.rename) [
      | inl r ↦ inl (spool-IsQueued io w r)
      | inr (e, r) ↦ inr (
          subst (IsRefused seqs q disk) (sym (spool-unrenamed io body q disk e w r)) (
            refuse-IsRefused e _ (
              unlink-Leaves io.unlinks _
                (insert_tmp-Leaves q.next_seq h.within seqs body disk h.fresh))))
    ]
  ]

  -- A push over the cap only pauses reading. One within the cap adds the whole batch at the back or is
  -- refused with the batches as they were, whatever the file system answers and a failed write leaves.
  pub push-cases :
      (io : Io)
      → ((q.max_bytes < q.bytes + length body)
          × (push io body q disk ≡ (no_room, record q { full = true }, disk)))
        ⊎ ((q.bytes + length body ≤ q.max_bytes)
            × (IsQueued seqs body q disk (push io body q disk)
                ⊎ IsRefused seqs q disk (push io body q disk)))
  push-cases io = elim (le-or-lt (q.bytes + length body) q.max_bytes) [
    | inr over ↦ inl (over, push-over io body q disk fits over)
    | inl under ↦ inr (
      under,
      subst (λ r. IsQueued seqs body q disk r ⊎ IsRefused seqs q disk r)
          (sym (push-under io body q disk fits under))
          (elim (spool-cases io) [
            | inl k ↦ inl (pause-IsQueued seqs q body disk _ k)
            | inr k ↦ inr (pause-IsRefused seqs q body disk _ k)
          ]),
    )
  ]

  pub push-within :
      (io : Io)
      → io.write ≡ done
      → io.rename ≡ done
      → q.bytes + length body ≤ q.max_bytes
      → IsQueued seqs body q disk (push io body q disk)
  push-within io written renamed under =
      subst (IsQueued seqs body q disk) (sym (push-under io body q disk fits under))
        (pause-IsQueued seqs q body disk _ (spool-IsQueued io written renamed))

  -- A forced push takes no notice of the cap: the batch is added at the back and reading is paused, or
  -- the file system refuses it and the batches are as they were; it is added when the write and the
  -- rename succeed.
  pub push_forced-cases :
      (io : Io)
      → ((IsQueued seqs body q disk (push_forced io body q disk)
            × ((push_forced io body q disk).1.full ≡ true))
          ⊎ IsRefused seqs q disk (push_forced io body q disk))
        × (io.write ≡ done
            → io.rename ≡ done
            → IsQueued seqs body q disk (push_forced io body q disk))
  unfolding push_forced
  push_forced-cases io = (
    elim (spool-cases io) [
      | inl k ↦ inl (force-IsQueued seqs q body disk _ k)
      | inr k ↦ inr (force-IsRefused seqs q body disk _ k)
    ],
    λ written renamed. (force-IsQueued seqs q body disk _ (spool-IsQueued io written renamed)).0,
  )
