-- ===== src/Queue/Examples.antt =====
-- Runs of the queue on a small directory.
use tributary.Prelude.{
  ◌+◌, ◌<◌, ◌≤◌, ◌*◌, ◌≡◌, refl, true, false, [], ◌∷◌, none, some, Text, codes, arith, length, ◌⊎◌,
  leb, if◌then◌else◌, lookup, decimal, parse_u64, text_has_eq,
}
use tributary.Queue.{Disk, Queue, Io, done, segment_name, push, pop, no_room, open_queue, padded}
use tributary.Prelude.Sort.{sort_by}
use tributary.Queue.Fifo.{IsSound, batches}
use tributary.Queue.Push.{IsQueued, IsRefused, push-cases}
use tributary.Queue.Pop.{pop-front}

abbrev body : Text
body = codes "cpu v=1i 5\n"

abbrev disk : Disk
disk = (segment_name 0, body) ∷ []

abbrev queue : Queue
queue = record {
  max_bytes = 30;
  bytes = 11;
  next_seq = 1;
  segments = segment_name 0 ∷ [];
  full = true;
  spilled_total = 1;
  drained_total = 0;
}

abbrev works : Io
works = record { write = done; partial = none; unlinks = true; rename = done }

queue-IsSound : IsSound (0 ∷ []) queue disk
unfolding segment_name padded lookup decimal
queue-IsSound = record {
  named = refl;
  fresh = (omega arith, tt);
  distinct = (tt, tt);
  within = omega arith;
  held = ((body, refl), tt);
  counted = refl;
}

test_open : (open_queue (λ t. true) 30 disk).0 ≡ record queue { full = false; spilled_total = 0 }
unfolding open_queue segment_name padded sort_by decimal lookup parse_u64
test_open = refl

push-cases_example :
    ((30 < 11 + length body)
      × (push works body queue disk ≡ (no_room, record queue { full = true }, disk)))
    ⊎ ((11 + length body ≤ 30)
        × (IsQueued (0 ∷ []) body queue disk (push works body queue disk)
            ⊎ IsRefused (0 ∷ []) queue disk (push works body queue disk)))
push-cases_example =
    push-cases (0 ∷ []) queue body disk queue-IsSound (omega arith) (omega arith) works

pop-front_example :
    (b : Text) × (q' : Queue) × (disk' : Disk) × (pop done (segment_name 0) queue disk
      ≡ (done, q', disk'))
    × (batches queue disk ≡ some b ∷ batches q' disk')
    × IsSound [] q' disk'
    × (11 ≡ length b + q'.bytes)
    × (q'.full ≡ (if leb (q'.bytes * 2) 30 then false else true))
pop-front_example = pop-front 0 [] queue disk queue-IsSound (omega arith)
