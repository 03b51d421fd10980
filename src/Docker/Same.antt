-- ===== src/Docker/Same.antt =====
-- The reassembler of crates/tributary/src/docker.rs beside that of crates/tributary/src/cri.rs.
use tributary.Prelude.{
  Bool, not, ◌&&◌, ◌||◌, Option, none, some, Text, text_has_eq, leb, if◌then◌else◌, length, u64_add,
  insert, remove,
}
use tributary.Cri
use tributary.Cri.{Pending, Reassembler, Fragment}
use tributary.Docker.{Frame, closes, chomped}

-- A frame as a fragment: one that ends a line is the last of its message.
abbrev pub fragment_of : Frame → Fragment
unfolding closes
fragment_of f = record {
  time = f.time;
  stream = f.stream;
  partial = not (closes f.log);
  msg = f.log;
}

-- The newline that closes a message is not of its text.
abbrev pub unclosed : Frame → Text → Text
unfolding closes chomped
unclosed f log = if closes f.log then chomped log else log

module _ {ℓ} {E : Type ℓ} (envelope : Text → Text → Text → E) where
  -- What either reassembler does with the stream's entry: whether the chunk closes it, whether the
  -- chunk is a part, and the text of the message are given.
  unfoldable after : Bool → Bool → Text → Text → Pending → Reassembler → Option E × Reassembler
  after closed partial text stream p r =
      let over = leb r.max_bytes (length p.log) in
      if closed || over
      then (
        some (envelope text stream p.time),
        record r {
          streams = remove stream r.streams;
          truncated = if over && partial then u64_add r.truncated 1 else r.truncated;
        },
      )
      else (none, record r { streams = insert stream p r.streams })
