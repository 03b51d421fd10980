-- ===== src/Pipeline/Flushed.antt =====
-- `flush` of crates/tributary/src/main.rs.
use tributary.Prelude.{
  ℕ, zero, suc, ◌+◌, ◌<◌, ◌≤◌, ◌≡◌, ◌∙◌, refl, sym, ap, true, false, List, [], ◌∷◌, ◌++◌, map, Text,
  arith, length, length-append, Bool-cases, inl, inr, subst, ltb,
}
use tributary.Prelude.Int.{ℤ}
use tributary.Ship.{concat}
use tributary.Pipeline.{System, Agent, ok, and_then, reap_one, make_room, spawn, flush}
use tributary.Pipeline.Pool.{tally, size, IsSafe, Balance, Ends}
use tributary.Pipeline.Quarantined.{onward-Ends}
use tributary.Pipeline.Settled.{
  List-cases, and_then-Ends, Balance-refl, Balance-trans, Lands, reap_one-Ends,
}

module _ {ℓ} {World : Type ℓ} (sys : System World) (fuel : ℕ) (spare : List Text) where
  -- Room for one more batch.
  abbrev HasRoom : Agent World → Agent World → Type ℓ
  HasRoom a b =
      Balance sys fuel [] a b
      × IsSafe spare b
      × (length b.pipe.inflight < b.pipe.max_inflight)
      × (b.pipe.max_inflight ≡ a.pipe.max_inflight)
      × (b.state_dir ≡ a.state_dir)

  Lands-HasRoom :
      (n : ℕ) (a b c : Agent World) → Lands sys fuel spare n a b → HasRoom b c → HasRoom a c
  Lands-HasRoom n a b c h k = (Balance-trans sys fuel a b c h.0 k.0, k.1, k.2, k.3 ∙ h.3, k.4 ∙ h.4)

  make_room-free :
      (n : ℕ) (a : Agent World)
      → ltb (length a.pipe.inflight) a.pipe.max_inflight ≡ true
      → make_room sys fuel n a ≡ ok a
  unfolding make_room
  make_room-free zero a e = rw e
  make_room-free (suc n) a e = rw e

  make_room-full :
      (n : ℕ) (a : Agent World)
      → ltb (length a.pipe.inflight) a.pipe.max_inflight ≡ false
      → make_room sys fuel (suc n) a ≡ and_then (reap_one sys fuel a) (make_room sys fuel n)
  unfolding make_room
  make_room-full n a e = rw e

  make_room-Ends :
      (n : ℕ) (a : Agent World)
      → length a.pipe.inflight ≤ n
      → 0 < a.pipe.max_inflight
      → IsSafe spare a
      → Ends sys fuel a (HasRoom a) (make_room sys fuel n a)
  make_room-Ends zero a low some_room h =
      subst (Ends sys fuel a (HasRoom a))
        (sym (make_room-free zero a (ground (arith, low, some_room))))
        (Balance-refl sys fuel a, h, omega (arith, low, some_room), refl, refl)
  make_room-Ends (suc m) a low some_room h =
      elim (Bool-cases (ltb (length a.pipe.inflight) a.pipe.max_inflight)) [
        | inl t ↦
            subst (Ends sys fuel a (HasRoom a)) (sym (make_room-free (suc m) a t))
              (Balance-refl sys fuel a, h, ground (arith, t), refl, refl)
        | inr f ↦ elim (List-cases a.pipe.inflight) [
          | inl e ↦ absurd (ground (arith, f, some_room, ap length e))
          | inr (x, xs, e) ↦ subst (Ends sys fuel a (HasRoom a)) (sym (make_room-full m a f)) (
              and_then-Ends sys fuel a (Lands sys fuel spare 1 a) (HasRoom a) (reap_one sys fuel a)
                (make_room sys fuel m) (reap_one-Ends sys fuel spare a x xs e h)
                (λ b k.
                  onward-Ends sys fuel a b k.0.0 (HasRoom b) (HasRoom a) (make_room sys fuel m b)
                    k.0.1 k.4 (λ c r. Lands-HasRoom 1 a b c k r)
                    (make_room-Ends m b (omega (arith, low, k.2)) (omega (arith, some_room, k.3))
                      k.1)))
        ]
      ]

module _ {ℓ} {World : Type ℓ} (sys : System World) (fuel : ℕ) where
  -- The batch is in flight, with no more than `max_inflight` of them.
  abbrev pub Flushes : Text → Agent World → Agent World → Type ℓ
  Flushes body a b =
      Balance sys fuel (body ∷ []) a b
      × IsSafe [] b
      × (length b.pipe.inflight ≤ a.pipe.max_inflight)
      × (b.state_dir ≡ a.state_dir)

  tally-snoc :
      (t : Text) (xs : List (List Text)) (x : List Text)
      → tally t (map concat (xs ++ x ∷ [])) ≡ tally t (map concat xs) + tally t (concat x ∷ [])
  tally-snoc t [] x = omega arith
  tally-snoc t (y ∷ ys) x = ground (arith, tally-snoc t ys x)

  size-snoc :
      (xs : List (List Text)) (x : List Text)
      → size (map concat (xs ++ x ∷ [])) ≡ size (map concat xs) + length (concat x)
  size-snoc [] x = omega arith
  size-snoc (y ∷ ys) x = omega (arith, size-snoc ys x)

  -- A flush of a batch, from a pipeline that may have batches in flight and has numbers and bytes for
  -- all that is owed and for the batch, leaves at most `max_inflight` batches in flight: in the run from
  -- the one state to the other, every batch, the new one too, was answered by the database or is owed as
  -- often as before, and the lines refused in those answers are what the dead letters got, in order.
  -- Else it fails with a cause that is not a full disk, or a batch is never answered; the checkpoints
  -- stay as they were.
  pub flush-Flushes :
      (l : Text) (ls : List Text) (max_ts : ℤ) (a : Agent World)
      → 0 < a.pipe.max_inflight
      → IsSafe (concat (l ∷ ls) ∷ []) a
      → Ends sys fuel a (Flushes (concat (l ∷ ls)) a) (flush sys fuel (l ∷ ls) max_ts a)
  unfolding flush spawn
  flush-Flushes l ls max_ts a some_room h =
      let batch = l ∷ ls in
      let spare = concat batch ∷ [] in
      and_then-Ends sys fuel a (HasRoom sys fuel spare a) (Flushes (concat batch) a)
        (make_room sys fuel (length a.pipe.inflight) a) (λ b. ok (spawn sys fuel batch max_ts b))
        (make_room-Ends sys fuel spare (length a.pipe.inflight) a (omega arith) some_room h)
        (λ b k. (
          (k.0.0, k.0.1, λ t. omega (arith, k.0.2 t, tally-snoc t b.pipe.inflight batch)),
          (
            k.1.0,
            omega (arith, k.1.1, length-append b.pipe.inflight (batch ∷ [])),
            omega (arith, k.1.2, size-snoc b.pipe.inflight batch),
          ),
          omega (arith, k.2, k.3, length-append b.pipe.inflight (batch ∷ [])),
          k.4,
        ))
