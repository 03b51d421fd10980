-- ===== src/Journald/Examples.antt =====
-- A journal of three entries, of which the second has nothing to ship, and a queue that is nearly full.
use tributary.Prelude.{
  Bool, true, false, List, [], ◌∷◌, Option, none, some, Text, codes, text_has_eq,
}
use tributary.Prelude.Int.{pos}
use tributary.Checkpoint.{Checkpoint}
use tributary.Pipeline.{System}
use tributary.Queue.{Queue, Outcome}
use tributary.Ship
use tributary.Ship.{Attempt, no_counts, concat, failure}
use tributary.Stamp.{Stamper}
use tributary.Journald.{Entry, ok, Read, got, fill}
use tributary.Journald.Loop.{Agent, join, progress}
use tributary.Journald.Fill.{Takes, fill-Takes}

abbrev entry : Text → Entry
entry message = record { fields = (codes "MESSAGE", message) ∷ []; realtime_usec = 7 }

-- An entry with no message has nothing to ship.
abbrev message_of : Entry → Option Text
message_of e = elim e.fields [
  | [] ↦ none
  | (key, value) ∷ more ↦ elim value [ [] ↦ none | c ∷ s ↦ some (c ∷ s) ]
]

abbrev journal : List (Read Entry)
journal =
    got (pos 0) (entry (codes "a")) (some (codes "c1"))
    ∷ got (pos 0) (entry []) (some (codes "c2"))
    ∷ got (pos 0) (entry (codes "b")) (some (codes "c3"))
    ∷ []

abbrev stamper : Stamper
stamper = record { tick_ns = 1; next = []; order = []; out_of_window = 0 }

fill-Takes_example :
    Takes
      (λ now e s. (ok (message_of e), s))
      2
      journal
      stamper
      (fill (λ now e s. (ok (message_of e), s)) 2 journal stamper)
fill-Takes_example = fill-Takes (λ now e s. (ok (message_of e), s)) 2 journal stamper

abbrev system : System Bool
system = record {
  post = λ w payload. (record { wire = failure []; elapsed_ns = 1; builds = true }, w);
  gzip = λ body. Ship.Encoded.bytes body;
  join = λ w. (record { index = 0; panicked = false }, w);
  spool_io = λ w.
      (record { write = Outcome.done; partial = none; unlinks = true; rename = Outcome.done }, w);
  readable = λ w. (true, w);
  unlink = λ w. (Outcome.done, w);
  append = λ w. (none, w);
  saving = λ w. (
    record {
      io = record { creates_dir = true; writes = true; partial = none; renames = true };
      error = none;
    },
    w,
  );
  to_json = λ cp. some (codes "{}");
  debug = λ text. text;
}

abbrev empty_queue : Queue
empty_queue = record {
  max_bytes = 4;
  bytes = 0;
  next_seq = 0;
  segments = [];
  full = false;
  spilled_total = 0;
  drained_total = 0;
}

abbrev agent : Agent Bool
agent = record {
  queue = empty_queue;
  disk = [];
  state_dir = [];
  shipper = record { client = 0; gzip = false; counters = no_counts };
  stamper = stamper;
  world = true;
}

abbrev decode : Text → Option Checkpoint
decode text = some (progress (some (codes "c3")) stamper)
