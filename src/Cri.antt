-- ===== src/Cri.antt =====
-- crates/tributary/src/cri.rs: fragments of container log lines put together, each stream for itself.
-- `Instant::now()` is an argument, in milliseconds. The `HashMap` of streams is an association list,
-- whose order stands for that in which the map is iterated. `envelope` is the library's JSON.
pub mod Parse
pub mod History
pub mod Conserve
pub mod Bounds
mod Examples
use tributary.Prelude.{
  ℕ, ◌+◌, ◌-◌, Bool, true, false, not, ◌&&◌, ◌||◌, List, [], ◌∷◌, ◌++◌, Option, none, some, Text,
  codes, text_eq, text_has_eq, leb, ◌==◌, if◌then◌else◌, length, max, u64_add, lookup, insert,
  remove,
}

pub record Pending : Type 0 where
  pub log : Text
  pub time : Text
  pub since : ℕ

pub record Reassembler : Type 0 where
  pub max_bytes : ℕ
  pub timeout : ℕ
  pub streams : List (Text × Pending)
  pub truncated : ℕ

unfoldable pub new : ℕ → ℕ → Reassembler
new max_bytes timeout_ms = record {
  max_bytes = max max_bytes 1;
  timeout = timeout_ms;
  streams = [];
  truncated = 0;
}

unfoldable pub has_pending : Reassembler → Bool
has_pending r = elim r.streams [ [] ↦ false | p ∷ ps ↦ true ]

pub data CriError : Type 0 where
  empty_line no_stream no_tag : CriError
  wrong_stream wrong_tag : Text → CriError

pub record Fragment : Type 0 where
  pub time : Text
  pub stream : Text
  pub partial : Bool
  pub msg : Text

pub data Parsed : Type 0 where
  fragment : Fragment → Parsed
  malformed : CriError → Parsed

-- What stands before the first space, and what behind it if there is one: a step of `splitn(4, ' ')`.
unfoldable pub split_space : Text → Text × Option Text
split_space [] = ([], none)
split_space (c ∷ s) =
    let (field, rest) = split_space s in if c == b' ' then ([], some s) else (c ∷ field, rest)

abbrev pub is_partial : Text → Option Bool
is_partial tag =
    if text_eq tag (codes "P")
    then some true
    else if text_eq tag (codes "F")
    then some false
    else none

abbrev or_empty : Option Text → Text
or_empty none = []
or_empty (some s) = s

-- The checks of the stream and of the tag.
unfoldable pub checked : Text → Text → Text → Text → Parsed
checked time stream tag msg =
    if text_eq stream (codes "stdout") || text_eq stream (codes "stderr")
    then elim (is_partial tag) [
      | none ↦ malformed (wrong_tag tag)
      | some partial ↦
          fragment (record { time = time; stream = stream; partial = partial; msg = msg })
    ]
    else malformed (wrong_stream stream)

-- The third, the second and the first field, each with what is left behind it.
unfoldable pub parse_tag : Text → Text → Text × Option Text → Parsed
unfolding checked
parse_tag time stream (tag, msg) = checked time stream tag (or_empty msg)

unfoldable pub parse_stream : Text → Text × Option Text → Parsed
unfolding parse_tag split_space
parse_stream time (stream, none) = malformed no_tag
parse_stream time (stream, some rest) = parse_tag time stream (split_space rest)

unfoldable pub parse_time : Text × Option Text → Parsed
unfolding parse_stream split_space
parse_time ([], rest) = malformed empty_line
parse_time (c ∷ s, none) = malformed no_stream
parse_time (c ∷ s, some rest) = parse_stream (c ∷ s) (split_space rest)

unfoldable pub parse : Text → Parsed
unfolding parse_time split_space
parse line = parse_time (split_space line)

pub data Pushed {ℓ} (E : Type ℓ) : Type ℓ where
  ok : Option E → Pushed E
  err : CriError → Pushed E

-- The stream's entry with the fragment behind what it held.
unfoldable pub extended : ℕ → Fragment → Option Pending → Pending
extended now f none = record { log = f.msg; time = f.time; since = now }
extended now f (some p) = record p { log = p.log ++ f.msg }

module _ {ℓ} {E : Type ℓ} (envelope : Text → Text → Text → E) where
  unfoldable pub accept : ℕ → Fragment → Reassembler → Option E × Reassembler
  unfolding extended
  accept now f r =
      let p = extended now f (lookup f.stream r.streams) in
      let over = leb r.max_bytes (length p.log) in
      if not f.partial || over
      then (
        some (envelope p.log f.stream p.time),
        record r {
          streams = remove f.stream r.streams;
          truncated = if over && f.partial then u64_add r.truncated 1 else r.truncated;
        },
      )
      else (none, record r { streams = insert f.stream p r.streams })

  unfoldable pub push : ℕ → Text → Reassembler → Pushed E × Reassembler
  unfolding accept parse
  push now line r = elim (parse line) [
    | malformed e ↦ (err e, r)
    | fragment f ↦ let (out, r') = accept now f r in (ok out, r')
  ]

  -- The first stream, in the map's order, whose fragment is older than the timeout.
  unfoldable pub find_expired : ℕ → ℕ → List (Text × Pending) → Option (Text × Pending)
  find_expired now timeout [] = none
  find_expired now timeout ((stream, p) ∷ streams) =
      let rest = find_expired now timeout streams in
      if leb timeout (now - p.since) then some (stream, p) else rest

  unfoldable pub emit : Option (Text × Pending) → Reassembler → Option E × Reassembler
  emit none r = (none, r)
  emit (some (stream, p)) r =
      (some (envelope p.log stream p.time), record r { streams = remove stream r.streams })

  unfoldable pub expire : ℕ → Reassembler → Option E × Reassembler
  unfolding find_expired emit
  expire now r = emit (find_expired now r.timeout r.streams) r

  unfoldable pub drain : Reassembler → Option E × Reassembler
  unfolding emit
  drain r = emit (elim r.streams [ [] ↦ none | p ∷ ps ↦ some p ]) r
