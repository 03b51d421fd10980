-- ===== src/Docker.antt =====
-- crates/tributary/src/docker.rs: the chunks of docker's json-file lines put together. The state is
-- that of crates/tributary/src/cri.rs: both reassemblers have the same fields, and the same code but
-- for `push`. `decode` is the library's JSON: a frame, or the reason why the line is none; `envelope`
-- is its printer. The clock is an argument, in milliseconds.
pub mod Same
mod Examples
use tributary.Prelude.{
  ℕ, Bool, true, false, not, ◌&&◌, ◌||◌, List, [], ◌∷◌, ◌++◌, reverse, Option, none, some, Text,
  text_has_eq, leb, ◌==◌, if◌then◌else◌, length, u64_add, lookup, insert, remove,
}
use tributary.Cri
use tributary.Cri.{Pending, Reassembler, CriError}

pub record Frame : Type 0 where
  pub log : Text
  pub stream : Text
  pub time : Text

pub data DockerError : Type 0 where
  not_a_line no_object : DockerError
  no_string : Text → DockerError

pub data Decoded : Type 0 where
  frame : Frame → Decoded
  malformed : DockerError → Decoded

pub data Framed {ℓ} (E : Type ℓ) : Type ℓ where
  ok : Option E → Framed E
  err : DockerError → Framed E

-- `ends_with('\n')`, and `pop`, on the reversed text.
abbrev newline_first : Text → Bool
newline_first [] = false
newline_first (c ∷ s) = c == b'\n'

abbrev rest_of : Text → Text
rest_of [] = []
rest_of (c ∷ s) = s

unfoldable pub closes : Text → Bool
closes log = newline_first (reverse log)

unfoldable pub chomped : Text → Text
chomped log = reverse (rest_of (reverse log))

-- The stream's entry, made if there is none, with the chunk behind what it held.
unfoldable pub entered : ℕ → Frame → Option Pending → Pending
entered now f none = record { log = f.log; time = f.time; since = now }
entered now f (some p) = record p { log = p.log ++ f.log }

unfoldable pub content : Frame → Text → Text
unfolding closes chomped
content f log = if closes f.log && closes log then chomped log else log

module _ {ℓ} {E : Type ℓ} (envelope : Text → Text → Text → E) where
  unfoldable pub accept_frame : ℕ → Frame → Reassembler → Option E × Reassembler
  unfolding entered closes content
  accept_frame now f r =
      let p = entered now f (lookup f.stream r.streams) in
      let over = leb r.max_bytes (length p.log) in
      if closes f.log || over
      then (
        some (envelope (content f p.log) f.stream p.time),
        record r {
          streams = remove f.stream r.streams;
          truncated = if over && not (closes f.log) then u64_add r.truncated 1 else r.truncated;
        },
      )
      else (none, record r { streams = insert f.stream p r.streams })

  unfoldable pub push : (Text → Decoded) → ℕ → Text → Reassembler → Framed E × Reassembler
  unfolding accept_frame
  push decode now line r = elim (decode line) [
    | malformed e ↦ (err e, r)
    | frame f ↦ let (out, r') = accept_frame now f r in (ok out, r')
  ]

  unfoldable pub expire : ℕ → Reassembler → Option E × Reassembler
  unfolding Cri.expire
  expire now r = Cri.expire envelope now r

  unfoldable pub drain : Reassembler → Option E × Reassembler
  unfolding Cri.drain
  drain r = Cri.drain envelope r
