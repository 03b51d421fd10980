-- ===== src/Pipeline/Pool.antt =====
-- The batches that the pipeline of crates/tributary/src/main.rs still owes to the database: on the
-- queue, held in memory and in flight.
use tributary.Prelude.{
  ℕ, suc, ◌+◌, ◌*◌, ◌<◌, ◌^◌, ◌≡◌, refl, ap, Bool, true, false, List, [], ◌∷◌, ◌++◌, map, Option,
  none, some, Text, arith, length, text_eq, if◌then◌else◌,
}
use tributary.Checkpoint.{Directory}
use tributary.Queue.{out_of_space}
use tributary.Queue.Fifo.{batches}
use tributary.Ship.{sent, failed, ShipError, Shipper, concat, send_lines}
use tributary.Pipeline.{
  System, Agent, Run, ok, err, stuck, Cause, disk_error, panic, unlogged, unreadable, unremoved,
  unsaved,
}
use tributary.Pipeline.Queued.{Sound}

-- How often a batch stands in a list of batches.
abbrev pub tally : Text → List Text → ℕ
tally t [] = 0
tally t (x ∷ xs) = if text_eq x t then suc (tally t xs) else tally t xs

abbrev pub on_disk : List (Option Text) → List Text
on_disk [] = []
on_disk (none ∷ os) = on_disk os
on_disk (some body ∷ os) = body ∷ on_disk os

abbrev pub size : List Text → ℕ
size [] = 0
size (x ∷ xs) = length x + size xs

pub tally-append : (t : Text) (xs ys : List Text) → tally t (xs ++ ys) ≡ tally t xs + tally t ys
tally-append t [] ys = omega arith
tally-append t (x ∷ xs) ys = ground (arith, tally-append t xs ys)

pub size-append : (xs ys : List Text) → size (xs ++ ys) ≡ size xs + size ys
size-append [] ys = omega arith
size-append (x ∷ xs) ys = omega (arith, size-append xs ys)

pub on_disk-snoc :
    (os : List (Option Text)) (body : Text)
    → on_disk (os ++ some body ∷ []) ≡ on_disk os ++ body ∷ []
on_disk-snoc [] body = refl
on_disk-snoc (none ∷ os) body = on_disk-snoc os body
on_disk-snoc (some b ∷ os) body = ap (◌∷◌ b) (on_disk-snoc os body)

pub data IoCall : Type 0 where
  joining spooling reading unlinking appending saving_file : IoCall

-- What can happen: a call that the database has no part in, a batch that it answered, with the lines of
-- it that it refused, or a batch that failed.
pub data Event : Type 0 where
  idle : IoCall → Event
  answered : List Text → List Text → Event
  refused : List Text → ShipError → Event

-- The batches that were answered.
abbrev pub delivered : List Event → List Text
delivered [] = []
delivered (idle call ∷ es) = delivered es
delivered (answered lines poison ∷ es) = concat lines ∷ delivered es
delivered (refused lines e ∷ es) = delivered es

abbrev pub any_refused : List Event → Bool
any_refused [] = false
any_refused (idle call ∷ es) = any_refused es
any_refused (answered lines poison ∷ es) = any_refused es
any_refused (refused lines e ∷ es) = true

pub delivered-append : (xs ys : List Event) → delivered (xs ++ ys) ≡ delivered xs ++ delivered ys
delivered-append [] ys = refl
delivered-append (idle call ∷ xs) ys = delivered-append xs ys
delivered-append (answered lines poison ∷ xs) ys = ap (◌∷◌ (concat lines)) (delivered-append xs ys)
delivered-append (refused lines e ∷ xs) ys = delivered-append xs ys

pub any_refused-append :
    (xs ys : List Event) → any_refused ys ≡ true → any_refused (xs ++ ys) ≡ true
any_refused-append [] ys h = h
any_refused-append (idle call ∷ xs) ys h = any_refused-append xs ys h
any_refused-append (answered lines poison ∷ xs) ys h = any_refused-append xs ys h
any_refused-append (refused lines e ∷ xs) ys h = refl

module _ {ℓ} {World : Type ℓ} where
  -- What the events are about: the shipper, the world and the dead letters.
  abbrev pub seen : Agent World → Shipper × World × Text
  seen a = (a.pipe.shipper, a.world, a.dead_letters)

  abbrev pub queued : Agent World → List Text
  queued a = on_disk (batches a.pipe.queue a.disk)

  abbrev pub flying : Agent World → List Text
  flying a = map concat a.pipe.inflight

  -- How often a batch is owed.
  abbrev pub undelivered : Text → Agent World → ℕ
  undelivered t a = tally t (queued a) + tally t a.pipe.held + tally t (flying a)

  -- The queue is sound and has numbers and bytes for all that may come to it, with `owed` besides.
  abbrev pub IsSafe : List Text → Agent World → Type 0
  IsSafe owed a =
      Sound a.pipe.queue a.disk
      × (a.pipe.queue.next_seq + length a.pipe.held + length a.pipe.inflight + length owed < 2 ^ 64)
      × ((a.pipe.queue.bytes + size a.pipe.held + size (flying a) + size owed) * 2 < 2 ^ 64)

module _ {ℓ} {World : Type ℓ} (sys : System World) (fuel : ℕ) where
  -- The calls of the system that the database has no part in.
  abbrev pub after : IoCall → World → World
  after joining w = (sys.join w).1
  after spooling w = (sys.spool_io w).1
  after reading w = (sys.readable w).1
  after unlinking w = (sys.unlink w).1
  after appending w = (sys.append w).1
  after saving_file w = (sys.saving w).1

  -- A run through these events, one after the other, from one state to another: each batch is sent
  -- with the shipper and to the world that the last event left, and the lines of it that the database
  -- refuses are what the dead letters get.
  abbrev pub Runs : List Event → Shipper × World × Text → Shipper × World × Text → Type ℓ
  Runs [] x y = x ≡ y
  Runs (idle call ∷ es) (s, w, dead) y = Runs es (s, after call w, dead) y
  Runs (answered lines poison ∷ es) (s, w, dead) y =
      (s' : Shipper) × (w' : World) × (send_lines sys.post sys.gzip fuel lines s w
        ≡ some (sent poison, s', w'))
      × Runs es (s', w', dead ++ concat poison) y
  Runs (refused lines e ∷ es) (s, w, dead) y =
      (s' : Shipper) × (w' : World) × (send_lines sys.post sys.gzip fuel lines s w
        ≡ some (failed e, s', w'))
      × Runs es (s', w', dead) y

  -- A step from `a`, which owes `owed` besides, to `b`, with what happened in it: what is owed was
  -- delivered in one of these events or is still owed, and the dead letters got the lines that were
  -- refused in them, and nothing else.
  abbrev pub Balance : List Text → Agent World → Agent World → Type ℓ
  Balance owed a b =
      (es : List Event) × Runs es (seen a) (seen b)
      × ((t : Text) → tally t owed + undelivered t a ≡ tally t (delivered es) + undelivered t b)

  -- `spare` is what may still come besides.
  abbrev pub Moves : List Text → List Text → Agent World → Agent World → Type ℓ
  Moves spare owed a b =
      Balance owed a b
      × IsSafe spare b
      × (b.pipe.inflight ≡ a.pipe.inflight)
      × (b.pipe.max_inflight ≡ a.pipe.max_inflight)
      × (b.state_dir ≡ a.state_dir)

  -- A full disk is no cause.
  abbrev pub Reports : Cause → Type 0
  Reports (disk_error e) = out_of_space e ≡ false
  Reports panic = Unit
  Reports unlogged = Unit
  Reports unreadable = Unit
  Reports unremoved = Unit
  Reports unsaved = Unit

  pub record Dies (dir : Directory) (c : Cause) (b : Agent World) : Type ℓ where
    pub kept : b.state_dir ≡ dir
    pub cause : Reports c

  -- Behind some events of the run a batch is sent that is never answered.
  abbrev pub IsUnanswered : Agent World → Type ℓ
  IsUnanswered a =
      (es : List Event) × (s : Shipper) × (w : World) × (dead : Text) × Runs es (seen a)
        (s, w, dead)
      × (lines : List Text) × (send_lines sys.post sys.gzip fuel lines s w ≡ none)

  -- A run from `a` ends with `P`, fails with the checkpoints as they were and a cause that is not a full
  -- disk, or waits for an answer for ever.
  abbrev pub Ends : Agent World → (Agent World → Type ℓ) → Run World → Type ℓ
  Ends a P (ok b) = P b
  Ends a P (err c b) = Dies a.state_dir c b
  Ends a P stuck = IsUnanswered a
