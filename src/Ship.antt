-- ===== src/Ship.antt =====
-- crates/tributary/src/ship.rs: a batch sent to the database, and the isolation of rejected lines.
-- The network and the server are a parameter: `post` answers one request and moves the world on.
-- Sleeping as long as a 429 asks has no effect on the shipper's state and is not modelled.
pub mod Database
pub mod Bisect
pub mod Streak
mod Examples
use tributary.Prelude.{
  ℕ, zero, suc, ◌+◌, ◌/◌, ◌%◌, ◌||◌, Bool, true, false, List, [], ◌∷◌, ◌++◌, Option, none, some,
  Text, codes, decimal, parse_u64, u64_add, ◌==◌, if◌then◌else◌, length, take, drop,
}

pub record Counters : Type 0 where
  pub shipped : ℕ
  pub rejected : ℕ
  pub bisects : ℕ
  pub ship_ns : ℕ
  pub requests : ℕ
  pub unauthorized : ℕ
  pub transport_streak : ℕ
  pub transport_rebuilds : ℕ

abbrev pub no_counts : Counters
no_counts = record {
  shipped = 0;
  rejected = 0;
  bisects = 0;
  ship_ns = 0;
  requests = 0;
  unauthorized = 0;
  transport_streak = 0;
  transport_rebuilds = 0;
}

-- `Backpressure` carries the seconds to wait.
pub data ShipError : Type 0 where
  rejected unauthorized wrong_node transport : Text → ShipError
  backpressure : ℕ → ShipError

pub data ShipResult : Type 0 where
  ok : ShipResult
  err : ShipError → ShipResult

-- An answer of the peer: its status, the `Retry-After` header if it is text, and the body.
pub record Response : Type 0 where
  pub status : ℕ
  pub retry_after : Option Text
  pub text : Text

-- What one attempt brings: a response or the wire's error, the time that it took, and whether a
-- client could be built if this attempt asks for a new one.
pub data Wire : Type 0 where
  response : Response → Wire
  failure : Text → Wire

pub record Attempt : Type 0 where
  pub wire : Wire
  pub elapsed_ns : ℕ
  pub builds : Bool

-- The live client is named by how often it was replaced.
pub record Shipper : Type 0 where
  pub client : ℕ
  pub gzip : Bool
  pub counters : Counters

abbrev rebuild_after : ℕ
rebuild_after = 3

unfoldable pub rebuild_transport : Bool → Shipper → Shipper
rebuild_transport builds s =
    if builds
    then record s {
      client = s.client + 1;
      counters = record s.counters {
        transport_streak = 0;
        transport_rebuilds = u64_add s.counters.transport_rebuilds 1;
      };
    }
    else s

unfoldable pub note_write_path_answered : Shipper → Shipper
note_write_path_answered s = record s { counters = record s.counters { transport_streak = 0 } }

unfoldable pub note_transport_failure : Bool → Shipper → Shipper
unfolding rebuild_transport
note_transport_failure builds s =
    let streak = u64_add s.counters.transport_streak 1 in
    let noted = record s { counters = record s.counters { transport_streak = streak } } in
    if streak % rebuild_after == 0 then rebuild_transport builds noted else noted

-- `body.lines().count()`: a last line without its newline counts too.
unfoldable pub count_lines : Text → ℕ
count_lines [] = 0
count_lines (c ∷ []) = 1
count_lines (c ∷ d ∷ rest) =
    let more = count_lines (d ∷ rest) in if c == b'\n' then suc more else more

unfoldable pub retry_secs : Option Text → ℕ
retry_secs none = 1
retry_secs (some v) = elim (parse_u64 v) [ none ↦ 1 | some secs ↦ secs ]

abbrev http_error : ℕ → Text → Text
http_error status text = codes "HTTP " ++ decimal status ++ codes ": " ++ text

-- The `match` on the status.
unfoldable pub classify : Bool → Text → Response → Shipper → ShipResult × Shipper
unfolding note_write_path_answered note_transport_failure rebuild_transport
classify builds body res s =
    let answered = note_write_path_answered s in
    let c = answered.counters in
    if res.status == 204
    then (
      ok,
      record answered { counters = record c { shipped = u64_add c.shipped (count_lines body) } },
    )
    else if res.status == 429
    then (err (backpressure (retry_secs res.retry_after)), answered)
    else if res.status == 400
    then (
      err (rejected res.text),
      record answered { counters = record c { rejected = u64_add c.rejected 1 } },
    )
    else if (res.status == 401) || (res.status == 403)
    then (
      err (unauthorized (http_error res.status res.text)),
      record answered { counters = record c { unauthorized = u64_add c.unauthorized 1 } },
    )
    else if res.status == 501
    then (err (wrong_node (codes "HTTP 501: " ++ res.text)), rebuild_transport builds s)
    else (err (transport (http_error res.status res.text)), note_transport_failure builds s)

unfoldable pub finish : ℕ → ShipResult × Shipper → ShipResult × Shipper
finish elapsed (out, s) = (
  out,
  record s {
    counters = record s.counters {
      ship_ns = u64_add s.counters.ship_ns elapsed;
      requests = u64_add s.counters.requests 1;
    };
  },
)

-- What `send` does once the attempt is over. A failure on the wire returns early, uncounted.
unfoldable pub settle : Text → Attempt → Shipper → ShipResult × Shipper
unfolding classify finish note_transport_failure
settle body a s = elim a.wire [
  | failure e ↦ (err (transport e), note_transport_failure a.builds s)
  | response res ↦ finish a.elapsed_ns (classify a.builds body res s)
]

-- A batch that was dealt with leaves its poison lines.
pub data Batch : Type 0 where
  sent : List Text → Batch
  failed : ShipError → Batch

abbrev pub concat : List Text → Text
concat [] = []
concat (l ∷ ls) = l ++ concat ls

abbrev pub count_bisect : Shipper → Shipper
count_bisect s = record s {
  counters = record s.counters { bisects = u64_add s.counters.bisects 1 };
}

-- What the gzip encoder, which is the library's, makes of a body: bytes, or an error's text.
pub data Encoded : Type 0 where
  bytes broken : Text → Encoded

module _ {ℓ} {World : Type ℓ} (post : World → Text → Attempt × World)
    (encode : Text → Encoded) where
  unfoldable pub send : Text → Shipper → World → ShipResult × Shipper × World
  unfolding settle
  send [] s w = (ok, s, w)
  send (b ∷ body) s w = elim (if s.gzip then encode (b ∷ body) else bytes (b ∷ body)) [
    | broken e ↦ (err (transport e), s, w)
    | bytes payload ↦
        let (a, w') = post w payload in let (out, s') = settle (b ∷ body) a s in (out, s', w')
  ]

  -- The loop over the stack of chunks, whose top is the head; `none` is the model's own, for fuel
  -- that has run out.
  unfoldable pub send_loop :
      ℕ → List (List Text) → List Text → Shipper → World → Option (Batch × Shipper × World)
  send_loop zero stack poison s w = none
  send_loop (suc fuel) [] poison s w = some (sent poison, s, w)
  send_loop (suc fuel) ([] ∷ stack) poison s w = send_loop fuel stack poison s w
  send_loop (suc fuel) ((l ∷ ls) ∷ stack) poison s w =
      let chunk = l ∷ ls in
      let (out, s', w') = send (concat chunk) s w in
      let mid = length chunk / 2 in
      elim out [
        | ok ↦ send_loop fuel stack poison s' w'
        | err e ↦ elim e [
          | rejected _ ↦ elim (length chunk == 1) [
            | true ↦ send_loop fuel stack (poison ++ l ∷ []) s' w'
            | false ↦
                send_loop fuel (take mid chunk ∷ drop mid chunk ∷ stack) poison (count_bisect s') w'
          ]
          | backpressure _ ↦ send_loop fuel (chunk ∷ stack) poison s' w'
          | other ↦ some (failed other, s', w')
        ]
      ]

  unfoldable pub send_lines : ℕ → List Text → Shipper → World → Option (Batch × Shipper × World)
  unfolding send_loop
  send_lines fuel lines s w = send_loop fuel (lines ∷ []) [] s w
