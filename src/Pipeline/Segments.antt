-- ===== src/Pipeline/Segments.antt =====
-- `drain_queue` of crates/tributary/src/main.rs: the loop over the segments of the queue.
use tributary.Prelude.{
  ℕ, zero, suc, ◌+◌, ◌≤◌, ◌≡◌, ◌∙◌, refl, sym, ap, Bool, true, false, List, [], ◌∷◌, ◌++◌,
  append-nil, map, Option, none, some, Text, arith, length, inl, inr, subst, lookup, text_has_eq,
}
use tributary.Queue.{Queue, Outcome, pop, front, segment_name}
use tributary.Queue.Fifo.{IsSound, batches_of}
use tributary.Queue.Pop.{pop-front, pop-next_seq, pop-kept}
use tributary.Pipeline.{System, Agent, err, unreadable}
use tributary.Pipeline.Drain.{
  Loop, through, over, go_on, popped, ship_body, read_segment, retire_segment, drain_segment,
  drain_segments,
}
use tributary.Pipeline.Pool.{
  tally, on_disk, seen, idle, unlinking, reading, delivered, delivered-append, IsSafe, Moves, Ends,
}
use tributary.Pipeline.Quarantined.{Same, Same-Moves, Runs-append, onward-Ends}
use tributary.Pipeline.Settled.{List-cases}
use tributary.Pipeline.Shipped.{
  Moves-refl, Moves-trans, ship_body-Stops, go_on-Stops, Stops, Refuses, onward-Stops,
}

module _ {ℓ} {World : Type ℓ} (sys : System World) (fuel : ℕ) where
  -- The front segment's batch is the first of the queue.
  abbrev pub Empties : Agent World → Agent World → Type ℓ
  Empties a b =
      Moves sys fuel [] [] a b × (b.pipe.held ≡ a.pipe.held) × (b.pipe.queue.segments ≡ [])

  -- One segment less.
  abbrev Shorter : Agent World → Agent World → Agent World → Type ℓ
  Shorter a₀ a b =
      Moves sys fuel [] [] a₀ b
      × (b.pipe.held ≡ a.pipe.held)
      × (length a.pipe.queue.segments ≡ 1 + length b.pipe.queue.segments)

  abbrev Fewer : Agent World → Agent World → Type ℓ
  Fewer a b = Shorter a a b

  module _ (a : Agent World) (s : ℕ) (seqs : List ℕ)
      (sound : IsSound (s ∷ seqs) a.pipe.queue a.disk) (h : IsSafe [] a) (body : Text)
      (there : lookup (segment_name s) a.disk ≡ some body) where
    abbrev unlinked : Agent World
    unlinked = record a { world = (sys.unlink a.world).1 }

    -- The front batch, which was delivered on the way from `a₀`, is taken off the queue.
    popped-Ends :
        (a₀ : Agent World)
        → Moves sys fuel [] (body ∷ []) a₀ a
        → (outcome : Outcome)
        → Ends sys fuel a
            (Shorter a₀ a)
            (popped unlinked (pop outcome (segment_name s) a.pipe.queue a.disk))
    popped-Ends a₀ m (Outcome.failed e) =
        let (e', kept) = pop-kept (segment_name s) e a.pipe.queue a.disk in
        subst (λ r. Ends sys fuel a (Shorter a₀ a) (popped unlinked r)) (sym kept)
          (record { kept = refl; cause = tt })
    popped-Ends a₀ m Outcome.done =
        let (front_body, q', disk', is, order, sound', bytes, pause) =
          pop-front s seqs a.pipe.queue a.disk sound (omega (arith, h.2)) in
        let next : q'.next_seq ≡ a.pipe.queue.next_seq =
          ap (λ r. r.1.next_seq) (sym is)
          ∙ pop-next_seq (segment_name s) body a.pipe.queue a.disk there in
        let same : front_body ≡ body =
          ground (arith, order, ap (batches_of a.disk) sound.named, there) in
        subst (λ r. Ends sys fuel a (Shorter a₀ a) (popped unlinked r)) (sym is)
          ((
            (
              (
                m.0.0 ++ idle unlinking ∷ [],
                Runs-append sys fuel m.0.0 (idle unlinking ∷ []) (seen a₀) (seen a) (seen unlinked)
                    m.0.1 refl,
                λ t. ground (
                  arith,
                  m.0.2 t,
                  ap (tally t)
                      (delivered-append m.0.0 (idle unlinking ∷ []) ∙ append-nil (delivered m.0.0)),
                  ap (λ os. tally t (on_disk os)) order,
                  same,
                ),
              ),
              ((seqs, sound'), omega (arith, h.1, next), omega (arith, h.2, bytes)),
              m.2,
              m.3,
              m.4,
            ),
            refl,
            omega (arith, ap length sound.named, ap length sound'.named),
          ))

  module _ (a : Agent World) (s : ℕ) (seqs : List ℕ)
      (sound : IsSound (s ∷ seqs) a.pipe.queue a.disk) (h : IsSafe [] a) (T : Agent World → Type ℓ)
      (f : Agent World → Loop World)
      (onward : (b : Agent World) → Fewer a b → Stops sys fuel a (Refuses sys fuel a) T (f b)) where
    abbrev body : Text
    body = sound.held.0.0

    retire-Stops :
        (b : Agent World)
        → Same sys fuel (body ∷ []) a b
        → Stops sys fuel a
            (Refuses sys fuel a)
            T
            (go_on (retire_segment sys fuel (segment_name s) b) f)
    retire-Stops b same =
        let m = Same-Moves sys fuel [] (body ∷ []) a b same h in
        go_on-Stops sys fuel a (Shorter a b) (Refuses sys fuel a) T
          (retire_segment sys fuel (segment_name s) b) f
          (onward-Ends sys fuel a b same.events (Shorter a b) (Shorter a b)
            (retire_segment sys fuel (segment_name s) b) same.runs same.dirs (λ c k. k)
            (popped-Ends b s seqs (subst (λ c. IsSound (s ∷ seqs) c.0 c.1) (sym same.cores) sound)
              (m.1.0, m.1.1, m.1.2) body
              (ap (λ c. lookup (segment_name s) c.1) same.cores ∙ sound.held.0.1) a m
              (sys.unlink b.world).0))
          (λ c k. onward c (
            k.0,
            k.1 ∙ ap (λ x. x.2) same.cores,
            ap (λ x. length x.0.segments) (sym same.cores) ∙ k.2,
          ))

    abbrev read_on : Option Text → Loop World
    read_on none = over (err unreadable (record a { world = (sys.readable a.world).1 }))
    read_on (some text) =
        ship_body sys fuel text (record a { world = (sys.readable a.world).1 })
          (λ b. go_on (retire_segment sys fuel (segment_name s) b) f)

    -- The readable file is one more event.
    abbrev from_start :
        (bodies : List Text) (b : Agent World)
        → Same sys fuel bodies (record a { world = (sys.readable a.world).1 }) b
        → Same sys fuel bodies a b
    from_start bodies b same = record {
      events = idle reading ∷ same.events;
      runs = same.runs;
      gives = same.gives;
      cores = same.cores;
      limits = same.limits;
      dirs = same.dirs;
    }

    read_on-Stops : Stops sys fuel a (Refuses sys fuel a) T (read_on (some body))
    read_on-Stops =
        ship_body-Stops sys fuel (Refuses sys fuel a) T body a
          (record a { world = (sys.readable a.world).1 }) (idle reading ∷ []) refl refl
          (λ b. go_on (retire_segment sys fuel (segment_name s) b) f)
          (λ b same. retire-Stops b (from_start (body ∷ []) b same))
          (λ b same. (Same-Moves sys fuel [] [] a b (from_start [] b same.0) h, same.1))

    segment-Stops :
        Stops sys fuel a (Refuses sys fuel a) T (drain_segment sys fuel (segment_name s) a f)
    unfolding drain_segment
    segment-Stops = read (sys.readable a.world).0
      where
        read :
            (readable : Bool)
            → Stops sys fuel a
                (Refuses sys fuel a)
                T
                (read_on (read_segment sys fuel readable (lookup (segment_name s) a.disk)))
        read false = record { kept = refl; cause = tt }
        read true =
            subst (λ o. Stops sys fuel a (Refuses sys fuel a) T (read_on o)) (sym sound.held.0.1)
              read_on-Stops

  abbrev turn : ℕ → Bool → Agent World → Option Text → Loop World
  turn n drained a none = through drained a
  turn n drained a (some path) = drain_segment sys fuel path a (drain_segments sys fuel n true)

  drain_segments-turn :
      (n : ℕ) (drained : Bool) (a : Agent World) (o : Option Text)
      → front a.pipe.queue ≡ o
      → drain_segments sys fuel (suc n) drained a ≡ turn n drained a o
  unfolding drain_segments
  drain_segments-turn n drained a o e = ap (turn n drained a) e

  front-named :
      (q : Queue) (names : List Text)
      → q.segments ≡ names
      → front q ≡ elim names as (λ x. Option Text) [ [] ↦ none | name ∷ rest ↦ some name ]
  unfolding front
  front-named q names e =
      ap (λ xs. elim xs as (λ x. Option Text) [ [] ↦ none | name ∷ rest ↦ some name ]) e

  idle-Empties : (a : Agent World) → IsSafe [] a → a.pipe.queue.segments ≡ [] → Empties a a
  idle-Empties a h e = (Moves-refl sys fuel a h, refl, e)

  pub drain_segments-Stops :
      (n : ℕ) (drained : Bool) (a : Agent World)
      → length a.pipe.queue.segments ≤ n
      → IsSafe [] a
      → Stops sys fuel a (Refuses sys fuel a) (Empties a) (drain_segments sys fuel n drained a)
  drain_segments-Stops zero drained a low h = elim (List-cases a.pipe.queue.segments) [
    | inr (x, xs, e) ↦ absurd (omega (arith, low, ap length e))
    | inl e ↦ unfold drain_segments in idle-Empties a h e
  ]
  drain_segments-Stops (suc n) drained a low h = go h.0.0 h.0.1 (λ b k.
      onward-Stops sys fuel a b Empties (drain_segments sys fuel n true b)
        (λ c m t. (Moves-trans sys fuel a b c m t.0, t.1 ∙ k.1, t.2)) k.0
        (drain_segments-Stops n true b (omega (arith, low, k.2)) k.0.1))
    where
      go :
          (seqs : List ℕ)
          → IsSound seqs a.pipe.queue a.disk
          → ((b : Agent World)
              → Fewer a b
              → Stops sys fuel a
                  (Refuses sys fuel a)
                  (Empties a)
                  (drain_segments sys fuel n true b))
          → Stops sys fuel a
              (Refuses sys fuel a)
              (Empties a)
              (drain_segments sys fuel (suc n) drained a)
      go [] sound rest =
          subst (Stops sys fuel a (Refuses sys fuel a) (Empties a))
            (sym (drain_segments-turn n drained a none (front-named a.pipe.queue [] sound.named)))
            (idle-Empties a h sound.named)
      go (s ∷ seqs) sound rest =
          subst (Stops sys fuel a (Refuses sys fuel a) (Empties a))
            (sym (
              drain_segments-turn n drained a (some (segment_name s))
                (front-named a.pipe.queue (map segment_name (s ∷ seqs)) sound.named)))
            (segment-Stops a s seqs sound h (Empties a) (drain_segments sys fuel n true) rest)
