-- ===== src/Pipeline/Examples.antt =====
-- Runs of the pipeline on a small state: one batch in flight, one held, an empty queue.
use tributary.Prelude.{
  ◌<◌, refl, Bool, true, false, List, [], ◌∷◌, none, some, Text, codes, arith, length, ◌||◌, ◌==◌,
  if◌then◌else◌, ◌≡◌,
}
use tributary.Prelude.Int.{pos}
use tributary.Checkpoint.{FileMark}
use tributary.Queue.{Outcome}
use tributary.Ship
use tributary.Ship.{Attempt, Shipper, concat, no_counts, send, send_lines, response, failure}
use tributary.Stamp
use tributary.Stamp.{Stamper}
use tributary.Watermark
use tributary.Pipeline.{System, Agent, Run, ok, err, stuck, settle_batch, drain_inflight, flush}
use tributary.Pipeline.Save.{checkpoint_now}
use tributary.Pipeline.Drain.{drain_queue}
use tributary.Pipeline.Pool.{IsSafe, Ends}
use tributary.Pipeline.Settled.{Settles, drain_inflight-Settles}
use tributary.Pipeline.Flushed.{Flushes, flush-Flushes}
use tributary.Pipeline.Saved.{Records, IsSettled, checkpoint_now-Records}
use tributary.Pipeline.Emptied.{Drains, drain_queue-Records}

-- A body with an exclamation mark is refused.
abbrev has_mark : Text → Bool
has_mark [] = false
has_mark (c ∷ s) = c == b'!' || has_mark s

-- The database answers, or the network is down; the disk works.
abbrev answers : Bool → Text → Attempt
answers true payload = record {
  wire =
      response
        (record { status = if has_mark payload then 400 else 204; retry_after = none; text = [] });
  elapsed_ns = 1;
  builds = true;
}
answers false payload = record { wire = failure []; elapsed_ns = 1; builds = true }

abbrev system : System Bool
system = record {
  post = λ up payload. (answers up payload, up);
  gzip = λ body. Ship.Encoded.bytes body;
  join = λ up. (record { index = 0; panicked = false }, up);
  spool_io = λ up.
      (record { write = Outcome.done; partial = none; unlinks = true; rename = Outcome.done }, up);
  readable = λ up. (true, up);
  unlink = λ up. (Outcome.done, up);
  append = λ up. (none, up);
  saving = λ up. (
    record {
      io = record { creates_dir = true; writes = true; partial = none; renames = true };
      error = none;
    },
    up,
  );
  to_json = λ cp. some (codes "{}");
  debug = λ text. text;
}

abbrev line : Text
line = codes "a v=1i 5\n"

abbrev marked : Text
marked = codes "a v=1!\n"

abbrev agent : Bool → Agent Bool
agent up = record {
  pipe = record {
    shipper = record { client = 0; gzip = false; counters = no_counts };
    inflight = (line ∷ marked ∷ []) ∷ [];
    max_inflight = 1;
    read_ns = 0;
    queue = record {
      max_bytes = 30;
      bytes = 0;
      next_seq = 0;
      segments = [];
      full = false;
      spilled_total = 0;
      drained_total = 0;
    };
    watermark = Watermark.new (pos 0) (pos 1000);
    cp_path = codes "app";
    dead_letter = codes "dead-letter-app.lp";
    quarantined = 0;
    dropped_filter = 0;
    dropped_sample = 0;
    held = line ∷ [];
  };
  disk = [];
  state_dir = [];
  dead_letters = [];
  world = up;
}

abbrev marks : List FileMark
marks = record { dev = 1; ino = 2; offset = 9 } ∷ []

agent-IsSafe : (up : Bool) (owed : Text) → length owed < 100 → IsSafe (owed ∷ []) (agent up)
agent-IsSafe up owed h = (
  (
    [],
    record {
      named = refl;
      fresh = tt;
      distinct = tt;
      within = omega arith;
      held = tt;
      counted = refl;
    },
  ),
  omega arith,
  omega (arith, h),
)

agent-IsSafe-alone : (up : Bool) → IsSafe [] (agent up)
agent-IsSafe-alone up = ((agent-IsSafe up [] (omega arith)).0, omega arith, omega arith)

-- The line that the database refuses goes to the dead letters.
abbrev letters : Run Bool → Text
letters (ok a) = a.dead_letters
letters (err c a) = []
letters stuck = []

test_letters : letters (drain_inflight system 5 (agent true)) ≡ marked
unfolding drain_inflight send_lines send settle_batch
test_letters = refl

drain_inflight-Settles_example :
    Ends system 5
      (agent true)
      (Settles system 5 [] (agent true))
      (drain_inflight system 5 (agent true))
drain_inflight-Settles_example =
    drain_inflight-Settles system 5 [] (agent true) (agent-IsSafe-alone true)

flush-Flushes_example :
    Ends system 5
      (agent false)
      (Flushes system 5 line (agent false))
      (flush system 5 (line ∷ []) (pos 5) (agent false))
flush-Flushes_example =
    flush-Flushes system 5 line [] (pos 5) (agent false) (omega arith)
      (agent-IsSafe false line (omega arith))

checkpoint_now-Records_example :
    Records system 5 marks
      (Stamp.new Stamp.seconds)
      (agent false)
      (IsSettled system 5 marks (Stamp.new Stamp.seconds) (agent false))
      (checkpoint_now system 5 marks (Stamp.new Stamp.seconds) (agent false))
checkpoint_now-Records_example =
    checkpoint_now-Records system 5 marks (Stamp.new Stamp.seconds) (agent false)
      (agent-IsSafe-alone false)

drain_queue-Records_example :
    Records system 5 marks
      (Stamp.new Stamp.seconds)
      (agent true)
      (Drains system 5 marks (Stamp.new Stamp.seconds) (agent true))
      (drain_queue system 5 marks (Stamp.new Stamp.seconds) (agent true))
drain_queue-Records_example =
    drain_queue-Records system 5 marks (Stamp.new Stamp.seconds) (agent true)
      (agent-IsSafe-alone true)
