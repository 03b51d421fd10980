-- ===== src/Pipeline/Shipped.antt =====
-- The loops of `drain_queue` in crates/tributary/src/main.rs: one batch sent from memory or from the disk.
use tributary.Prelude.{
  ℕ, ◌≡◌, ◌∙◌, refl, ap, List, [], ◌∷◌, Option, none, some, Text, Bool-cases, inl, inr, true, subst,
  ◌==◌, text_has_eq,
}
use tributary.Ship.{Batch, sent, failed, Shipper, concat, send_lines}
use tributary.Pipeline.{System, Agent, Run, ok, err, stuck, quarantine}
use tributary.Pipeline.Drain.{Loop, through, over, go_on, glue, split_inclusive, shipped, ship_body}
use tributary.Pipeline.Pool.{
  Event, Runs, seen, refused, any_refused, any_refused-append, IsSafe, Moves, Ends,
}
use tributary.Pipeline.Quarantined.{
  onward-IsUnanswered, onward-Ends, Same, shipped_by, quarantine-Same,
}
use tributary.Pipeline.Settled.{Balance-refl, Balance-trans}

concat-glue : (c : ℕ) (ls : List Text) → concat (glue c ls) ≡ c ∷ concat ls
concat-glue c [] = refl
concat-glue c (l ∷ ls) = refl

concat-split_inclusive : (s : Text) → concat (split_inclusive s) ≡ s
unfolding split_inclusive
concat-split_inclusive [] = refl
concat-split_inclusive (c ∷ s) = elim (Bool-cases (c == b'\n')) [
  | inl t ↦ rw t (ap (◌∷◌ c) (concat-split_inclusive s))
  | inr f ↦ rw f (concat-glue c (split_inclusive s) ∙ ap (◌∷◌ c) (concat-split_inclusive s))
]

module _ {ℓ} {World : Type ℓ} (sys : System World) (fuel : ℕ) where
  pub Moves-refl : (a : Agent World) → IsSafe [] a → Moves sys fuel [] [] a a
  Moves-refl a h = (Balance-refl sys fuel a, h, refl, refl, refl)

  abbrev pub Moves-trans :
      (a b c : Agent World)
      → Moves sys fuel [] [] a b
      → Moves sys fuel [] [] b c
      → Moves sys fuel [] [] a c
  Moves-trans a b c h k =
      (Balance-trans sys fuel a b c h.0 k.0, k.1, k.2 ∙ h.2, k.3 ∙ h.3, k.4 ∙ h.4)

  -- A loop goes through with `T`, or its run is over.
  abbrev pub Stops :
      Agent World → (Agent World → Type ℓ) → (Agent World → Type ℓ) → Loop World → Type ℓ
  Stops a P T (through drained b) = T b
  Stops a P T (over r) = Ends sys fuel a P r

  pub go_on-Stops :
      (a : Agent World) (R P T : Agent World → Type ℓ) (r : Run World)
      (f : Agent World → Loop World)
      → Ends sys fuel a R r
      → ((b : Agent World) → R b → Stops a P T (f b))
      → Stops a P T (go_on r f)
  go_on-Stops a R P T (ok b) f h k = k b h
  go_on-Stops a R P T (err c b) f h k = h
  go_on-Stops a R P T stuck f h k = h

  -- The database refused a batch on the way.
  abbrev pub SameRefused : Agent World → Agent World → Type ℓ
  SameRefused a b = (k : Same sys fuel [] a b) × (any_refused k.events ≡ true)

  -- A batch is sent on the way from `a₀`.
  module _ (P T : Agent World → Type ℓ) (body : Text) (a₀ a : Agent World) (es : List Event)
      (run : Runs sys fuel es (seen a₀) (seen a)) (dirs : a.state_dir ≡ a₀.state_dir)
      (f : Agent World → Loop World)
      (sent_on : (b : Agent World) → Same sys fuel (body ∷ []) a b → Stops a₀ P T (f b))
      (refuses : (b : Agent World) → SameRefused a b → P b) where
    shipped-Stops :
        (o : Option (Batch × Shipper × World))
        → send_lines sys.post sys.gzip fuel (split_inclusive body) a.pipe.shipper a.world ≡ o
        → Stops a₀ P T (shipped sys fuel a o f)
    unfolding shipped
    shipped-Stops none e =
        (es, a.pipe.shipper, a.world, a.dead_letters, run, split_inclusive body, e)
    shipped-Stops (some (sent poison, s, w)) e =
        let lines = split_inclusive body in
        go_on-Stops a₀ (Same sys fuel (concat lines ∷ []) a) P T
          (quarantine sys fuel poison (shipped_by sys fuel lines a s w)) f
          (onward-Ends sys fuel a₀ a es (Same sys fuel (concat lines ∷ []) a)
            (Same sys fuel (concat lines ∷ []) a)
            (quarantine sys fuel poison (shipped_by sys fuel lines a s w)) run dirs (λ b k. k)
            (quarantine-Same sys fuel lines a s w poison e))
          (λ b k.
            sent_on b (subst (λ x. Same sys fuel (x ∷ []) a b) (concat-split_inclusive body) k))
    shipped-Stops (some (failed x, s, w)) e =
        refuses (record a { pipe = record a.pipe { shipper = s }; world = w })
          (
            record {
              events = refused (split_inclusive body) x ∷ [];
              runs = (s, w, e, refl);
              gives = refl;
              cores = refl;
              limits = refl;
              dirs = refl;
            },
            refl,
          )

    pub ship_body-Stops : Stops a₀ P T (ship_body sys fuel body a f)
    unfolding ship_body
    ship_body-Stops =
        shipped-Stops
          (send_lines sys.post sys.gzip fuel (split_inclusive body) a.pipe.shipper a.world) refl

  abbrev pub Refuses : Agent World → Agent World → Type ℓ
  Refuses a b = (m : Moves sys fuel [] [] a b) × (any_refused m.0.0 ≡ true)

  pub onward-Stops :
      (a b : Agent World) (T : Agent World → Agent World → Type ℓ) (r : Loop World)
      → ((c : Agent World) → Moves sys fuel [] [] a b → T b c → T a c)
      → Moves sys fuel [] [] a b
      → Stops b (Refuses b) (T b) r
      → Stops a (Refuses a) (T a) r
  onward-Stops a b T (through drained c) f m k = f c m k
  onward-Stops a b T (over (ok c)) f m k =
      (Moves-trans a b c m k.0, any_refused-append m.0.0 k.0.0.0 k.1)
  onward-Stops a b T (over (err x c)) f m k = record { kept = k.kept ∙ m.4; cause = k.cause }
  onward-Stops a b T (over stuck) f m k = onward-IsUnanswered sys fuel a b m.0.0 m.0.1 k
