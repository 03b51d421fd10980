-- ===== src/Pipeline/Held.antt =====
-- `drain_queue` of crates/tributary/src/main.rs: the loop over the batches held in memory.
use tributary.Prelude.{
  ℕ, ◌+◌, ◌≡◌, ◌∙◌, refl, ap, Bool, true, List, [], ◌∷◌, Text, arith, length, drop, text_has_eq,
}
use tributary.Queue.{Disk, Queue, Spooled, accepted, no_room, broken, push_forced}
use tributary.Pipeline.{System, Agent, with_queue}
use tributary.Pipeline.Drain.{Loop, release, land, drain_held}
use tributary.Pipeline.Pool.{
  Event, Runs, seen, tally, on_disk, size, undelivered, idle, spooling, any_refused-append, IsSafe,
  Moves,
}
use tributary.Pipeline.Quarantined.{Same, Same-Moves}
use tributary.Pipeline.Queued.{Sound, Spools, Adds, Stays, push_forced-Spools}
use tributary.Pipeline.Reap.{Adds-Moves}
use tributary.Pipeline.Shipped.{
  SameRefused, Moves-refl, Moves-trans, ship_body-Stops, Stops, Refuses, onward-Stops,
}

module _ {ℓ} {World : Type ℓ} (sys : System World) (fuel : ℕ) where
  Stays-Moves :
      (a : Agent World) (q : Queue) (disk : Disk)
      → IsSafe [] a
      → Sound q disk
      → Stays a.pipe.queue a.disk q disk
      → Moves sys fuel [] [] a (with_queue q disk a)
  Stays-Moves a q disk h sound k = (
    ([], refl, λ t. omega (arith, ap (λ o. tally t (on_disk o)) k.0)),
    (sound, omega (arith, h.1, k.2), omega (arith, h.2, k.1)),
    refl,
    refl,
    refl,
  )

  -- The first held batch goes.
  module _ (a : Agent World) (body : Text) (held : List Text) (e : a.pipe.held ≡ body ∷ held)
      (h : IsSafe [] a) where
    tally-release : (t : Text) → undelivered t a ≡ tally t (body ∷ []) + undelivered t (release a)
    tally-release t = ground (arith, ap (tally t) e, ap (λ bs. tally t (drop 1 bs)) e)

    release-IsSafe : IsSafe (body ∷ []) (release a)
    release-IsSafe = (
      h.0,
      omega (arith, h.1, ap length e, ap (λ bs. length (drop 1 bs)) e),
      omega (arith, h.2, ap size e, ap (λ bs. size (drop 1 bs)) e),
    )

    spooled-Moves :
        (q : Queue) (disk : Disk)
        → Sound q disk
        → Adds body a.pipe.queue a.disk q disk
        → Moves sys fuel [] [] a (release (with_queue q disk a))
    spooled-Moves q disk sound k =
        let m = Adds-Moves sys fuel [] body (release a) q disk release-IsSafe sound k in
        ((m.0.0, m.0.1, λ t. omega (arith, m.0.2 t, tally-release t)), m.1, m.2, m.3, m.4)

    -- A batch that is delivered while it was held goes too.
    shipped-Moves :
        (a₀ : Agent World)
        → Moves sys fuel [] (body ∷ []) a₀ a
        → Moves sys fuel [] [] a₀ (release a)
    shipped-Moves a₀ m = (
      (m.0.0, m.0.1, λ t. omega (arith, m.0.2 t, tally-release t)),
      (release-IsSafe.0, omega (arith, release-IsSafe.1), omega (arith, release-IsSafe.2)),
      m.2,
      m.3,
      m.4,
    )

  module _ (P T : Agent World → Type ℓ) (body : Text) (a₀ a : Agent World) (es : List Event)
      (run : Runs sys fuel es (seen a₀) (seen a)) (dirs : a.state_dir ≡ a₀.state_dir)
      (spooled sent_on : Agent World → Loop World)
      (room : (q : Queue) (disk : Disk)
        → Sound q disk
        → Adds body a.pipe.queue a.disk q disk
        → Stops sys fuel a₀ P T (spooled (release (with_queue q disk a))))
      (shut : (q : Queue) (disk : Disk)
        → Sound q disk
        → Stays a.pipe.queue a.disk q disk
        → (b : Agent World)
        → (Same sys fuel (body ∷ []) (with_queue q disk a) b
            → Stops sys fuel a₀ P T (sent_on (release b)))
          × (SameRefused sys fuel (with_queue q disk a) b → P b)) where
    land-Stops :
        (r : Spooled × Queue × Disk)
        → Spools body a.pipe.queue a.disk r
        → Stops sys fuel a₀ P T (land sys fuel body a r spooled sent_on)
    unfolding land
    land-Stops (accepted, q, disk) k = room q disk k.0 k.1
    land-Stops (no_room, q, disk) k =
        ship_body-Stops sys fuel P T body a₀ (with_queue q disk a) es run dirs
          (λ b. sent_on (release b)) (λ b same. (shut q disk k.0 k.1 b).0 same)
          (λ b same. (shut q disk k.0 k.1 b).1 same)
    land-Stops (broken e, q, disk) k = record { kept = dirs; cause = k.2 }

  abbrev pub Frees : Agent World → Agent World → Type ℓ
  Frees a b = Moves sys fuel [] [] a b × (b.pipe.held ≡ [])

  pub drain_held-Stops :
      (held : List Text) (drained : Bool) (a : Agent World)
      → a.pipe.held ≡ held
      → IsSafe [] a
      → Stops sys fuel a (Refuses sys fuel a) (Frees a) (drain_held sys fuel held drained a)
  unfolding drain_held
  drain_held-Stops [] drained a e h = (Moves-refl sys fuel a h, e)
  drain_held-Stops (body ∷ held) drained a e h =
      let a' : Agent World = record a { world = (sys.spool_io a.world).1 } in
      let go : (d : Bool) (b : Agent World)
          → Moves sys fuel [] [] a (release b)
          → (release b).pipe.held ≡ held
          → Stops sys fuel a (Refuses sys fuel a) (Frees a)
              (drain_held sys fuel held d (release b)) =
        λ d b m k.
          onward-Stops sys fuel a (release b) Frees (drain_held sys fuel held d (release b))
            (λ c n t. (Moves-trans sys fuel a (release b) c n t.0, t.1)) m
            (drain_held-Stops held d (release b) k m.1) in
      land-Stops (Refuses sys fuel a) (Frees a) body a a' (idle spooling ∷ []) refl refl
        (drain_held sys fuel held drained) (drain_held sys fuel held true)
        (λ q disk sound k.
          go drained (with_queue q disk a')
            (let m = spooled-Moves a' body held e h q disk sound k in
              ((idle spooling ∷ m.0.0, m.0.1, m.0.2), m.1, m.2, m.3, m.4))
            (ap (drop 1) e))
        (λ q disk sound k b.
          let c : Agent World = with_queue q disk a' in
          let m : Moves sys fuel [] [] a c =
            let m = Stays-Moves a' q disk h sound k in
            ((idle spooling ∷ m.0.0, m.0.1, m.0.2), m.1, m.2, m.3, m.4) in
          (
            λ same.
                let n = Same-Moves sys fuel [] (body ∷ []) c b same m.1 in
                let there : b.pipe.held ≡ body ∷ held = ap (λ c. c.2) same.cores ∙ e in
                go true b
                  (Moves-trans sys fuel a c (release b) m
                    (shipped-Moves b body held there (n.1.0, n.1.1, n.1.2) c n))
                  (ap (drop 1) there),
            λ (same, said).
                let n = Same-Moves sys fuel [] [] c b same m.1 in
                (Moves-trans sys fuel a c b m n, any_refused-append m.0.0 n.0.0 said),
          ))
        (push_forced (sys.spool_io a.world).0 body a.pipe.queue a.disk)
        (push_forced-Spools body a.pipe.queue a.disk h.0 (omega (arith, h.1, ap length e))
          (omega (arith, h.2, ap size e)) (sys.spool_io a.world).0)
