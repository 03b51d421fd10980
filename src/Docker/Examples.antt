-- ===== src/Docker/Examples.antt =====
-- Frames of the json-file log driver.
use tributary.Prelude.{◌≡◌, refl, [], ◌∷◌, some, Text, codes, lookup, insert, remove, text_has_eq}
use tributary.Cri
use tributary.Cri.{Reassembler}
use tributary.Docker.{Frame, ok, frame, accept_frame, push, closes, chomped, entered, content}

abbrev shown : Text → Text → Text → Text × Text × Text
shown log stream time = (log, stream, time)

abbrev chunk : Frame
chunk = record { log = codes "ab"; stream = codes "stdout"; time = codes "t1" }

abbrev last_chunk : Frame
last_chunk = record { log = b'c' ∷ b'\n' ∷ []; stream = codes "stdout"; time = codes "t2" }

abbrev pending : Reassembler
unfolding Cri.new accept_frame entered closes content insert
pending = (accept_frame shown 5 chunk (Cri.new 100 500)).1

test_joined :
    (push shown (λ line. frame last_chunk) 7 [] pending).0
    ≡ ok (some (codes "abc", codes "stdout", codes "t1"))
unfolding push accept_frame entered closes content chomped lookup insert remove pending Cri.new
test_joined = refl
