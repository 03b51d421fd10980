-- ===== src/Pipeline/Settled.antt =====
-- `reap_one`, `drain_inflight`, `flush` and `checkpoint_now` of crates/tributary/src/main.rs: what becomes
-- of the batches in flight.
use tributary.Prelude.{
  ℕ, zero, suc, ◌+◌, ◌≤◌, ◌≡◌, ◌∙◌, refl, sym, ap, List, [], ◌∷◌, ◌++◌, map, Text, arith, length,
  inl, inr, ◌⊎◌, subst,
}
use tributary.Ship.{concat}
use tributary.Pipeline.{
  System, Agent, Run, ok, err, stuck, and_then, join_task, pick, reap_one, drain_steps,
  drain_inflight,
}
use tributary.Pipeline.Pool.{
  tally, size, tally-append, undelivered, IsSafe, Balance, seen, idle, joining, delivered,
  delivered-append, Moves, Ends,
}
use tributary.Pipeline.Quarantined.{onward-Ends, Runs-append}
use tributary.Pipeline.Reap.{tally-pick, size-pick, length-pick, join_task-Ends}

pub List-cases {ℓ} :
    {A : Type ℓ} (xs : List A) → (xs ≡ []) ⊎ ((x : A) × (rest : List A) × (xs ≡ x ∷ rest))
List-cases [] = inl refl
List-cases (x ∷ xs) = inr (x, xs, refl)

module _ {ℓ} {World : Type ℓ} (sys : System World) (fuel : ℕ) where
  pub and_then-Ends :
      (a : Agent World) (P Q : Agent World → Type ℓ) (r : Run World) (f : Agent World → Run World)
      → Ends sys fuel a P r
      → ((b : Agent World) → P b → Ends sys fuel a Q (f b))
      → Ends sys fuel a Q (and_then r f)
  and_then-Ends a P Q (ok b) f h k = k b h
  and_then-Ends a P Q (err c b) f h k = h
  and_then-Ends a P Q stuck f h k = h

  pub Balance-refl : (a : Agent World) → Balance sys fuel [] a a
  Balance-refl a = ([], refl, λ t. refl)

  abbrev pub Balance-trans :
      (a b c : Agent World)
      → Balance sys fuel [] a b
      → Balance sys fuel [] b c
      → Balance sys fuel [] a c
  Balance-trans a b c h k = (
    h.0 ++ k.0,
    Runs-append sys fuel h.0 k.0 (seen a) (seen b) (seen c) h.1 k.1,
    λ t. omega (
      arith,
      h.2 t,
      k.2 t,
      ap (tally t) (delivered-append h.0 k.0),
      tally-append t (delivered h.0) (delivered k.0),
    ),
  )

module _ {ℓ} {World : Type ℓ} (sys : System World) (fuel : ℕ) (spare : List Text) where
  -- `n` batches fewer in flight, each delivered or still owed.
  abbrev pub Lands : ℕ → Agent World → Agent World → Type ℓ
  Lands n a b =
      Balance sys fuel [] a b
      × IsSafe spare b
      × (length a.pipe.inflight ≡ n + length b.pipe.inflight)
      × (b.pipe.max_inflight ≡ a.pipe.max_inflight)
      × (b.state_dir ≡ a.state_dir)

  module _ (a : Agent World) (lines : List Text) (more : List (List Text))
      (e : a.pipe.inflight ≡ lines ∷ more) where
    abbrev picked : List Text × List (List Text)
    picked = pick (sys.join a.world).0.index lines more

    abbrev taken : Agent World
    taken = record a { pipe = record a.pipe { inflight = picked.1 }; world = (sys.join a.world).1 }

    reap_one-taken : reap_one sys fuel a ≡ join_task sys fuel picked.0 (sys.join a.world).0 taken
    unfolding reap_one
    reap_one-taken = rw (e, reap_one)

    tally-taken :
        (t : Text) → undelivered t a ≡ tally t (concat picked.0 ∷ []) + undelivered t taken
    tally-taken t = ground (
      arith,
      ap (λ xs. tally t (map concat xs)) e,
      tally-pick t (sys.join a.world).0.index lines more,
    )

    length-taken : length a.pipe.inflight ≡ 1 + length picked.1
    length-taken = omega (arith, ap length e, length-pick (sys.join a.world).0.index lines more)

    taken-IsSafe : IsSafe spare a → IsSafe (concat picked.0 ∷ spare) taken
    taken-IsSafe h = (
      h.0,
      omega (arith, h.1, length-taken),
      omega (
        arith,
        h.2,
        ap (λ xs. size (map concat xs)) e,
        size-pick (sys.join a.world).0.index lines more,
      ),
    )

    pub reap_one-Ends : IsSafe spare a → Ends sys fuel a (Lands 1 a) (reap_one sys fuel a)
    reap_one-Ends h = subst (Ends sys fuel a (Lands 1 a)) (sym reap_one-taken) (
        onward-Ends sys fuel a taken (idle joining ∷ [])
          (Moves sys fuel spare (concat picked.0 ∷ []) taken) (Lands 1 a)
          (join_task sys fuel picked.0 (sys.join a.world).0 taken) refl refl
          (λ b m. (
            (idle joining ∷ m.0.0, m.0.1, λ t. omega (arith, m.0.2 t, tally-taken t)),
            m.1,
            omega (arith, length-taken, ap length m.2),
            m.3,
            m.4,
          ))
          (join_task-Ends sys fuel spare picked.0 (sys.join a.world).0 taken (taken-IsSafe h)))

  -- Nothing in flight any more.
  abbrev pub Settles : Agent World → Agent World → Type ℓ
  Settles a b =
      Balance sys fuel [] a b
      × IsSafe spare b
      × (b.pipe.inflight ≡ [])
      × (b.state_dir ≡ a.state_dir)

  Lands-Settles : (n : ℕ) (a b c : Agent World) → Lands n a b → Settles b c → Settles a c
  Lands-Settles n a b c h k = (Balance-trans sys fuel a b c h.0 k.0, k.1, k.2, k.3 ∙ h.4)

  abbrev turn : ℕ → Agent World → List (List Text) → Run World
  turn n a [] = ok a
  turn n a (x ∷ xs) = and_then (reap_one sys fuel a) (drain_steps sys fuel n)

  drain_steps-idle :
      (n : ℕ) (a : Agent World) → a.pipe.inflight ≡ [] → drain_steps sys fuel (suc n) a ≡ ok a
  unfolding drain_steps
  drain_steps-idle n a e = ap (turn n a) e

  drain_steps-busy :
      (n : ℕ) (a : Agent World) (x : List Text) (xs : List (List Text))
      → a.pipe.inflight ≡ x ∷ xs
      → drain_steps sys fuel (suc n) a ≡ and_then (reap_one sys fuel a) (drain_steps sys fuel n)
  unfolding drain_steps
  drain_steps-busy n a x xs e = ap (turn n a) e

  drain_steps-Ends :
      (n : ℕ) (a : Agent World)
      → length a.pipe.inflight ≤ n
      → IsSafe spare a
      → Ends sys fuel a (Settles a) (drain_steps sys fuel n a)
  unfolding drain_steps
  drain_steps-Ends zero a fits h = elim (List-cases a.pipe.inflight) [
    | inl e ↦ (Balance-refl sys fuel a, h, e, refl)
    | inr (x, xs, e) ↦ absurd (omega (arith, fits, ap length e))
  ]
  drain_steps-Ends (suc n) a fits h = elim (List-cases a.pipe.inflight) [
    | inl e ↦
        subst (Ends sys fuel a (Settles a)) (sym (drain_steps-idle n a e))
          (Balance-refl sys fuel a, h, e, refl)
    | inr (x, xs, e) ↦ subst (Ends sys fuel a (Settles a)) (sym (drain_steps-busy n a x xs e)) (
        and_then-Ends sys fuel a (Lands 1 a) (Settles a) (reap_one sys fuel a)
          (drain_steps sys fuel n) (reap_one-Ends a x xs e h)
          (λ b m.
            onward-Ends sys fuel a b m.0.0 (Settles b) (Settles a) (drain_steps sys fuel n b) m.0.1
              m.4 (λ c k. Lands-Settles 1 a b c m k)
              (drain_steps-Ends n b (omega (arith, fits, m.2)) m.1)))
  ]

  -- Draining the batches in flight, from a pipeline whose queue is sound and has numbers and bytes for
  -- all that is owed, leaves none in flight: in the run from the one state to the other, each was answered
  -- by the database or is owed still, on the queue or held, as often as before; the lines refused in
  -- those answers are what the dead letters got, in order; and the queue is sound. Else it fails with a cause that is not a
  -- full disk, or a batch is never answered; the checkpoints stay as they were.
  pub drain_inflight-Settles :
      (a : Agent World) → IsSafe spare a → Ends sys fuel a (Settles a) (drain_inflight sys fuel a)
  unfolding drain_inflight
  drain_inflight-Settles a h = drain_steps-Ends (length a.pipe.inflight) a (omega arith) h
