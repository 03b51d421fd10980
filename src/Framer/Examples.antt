-- ===== src/Framer/Examples.antt =====
-- A framer with a partial message when the source ends.
use tributary.Prelude.{
  ◌≡◌, refl, arith, [], ◌∷◌, ◌++◌, Text, codes, lookup, insert, remove, text_has_eq, false,
}
use tributary.Cri
use tributary.Cri.{checked, extended, emit, parse, parse_time, parse_stream, parse_tag, split_space}
use tributary.Docker.{Decoded, malformed, not_a_line}
use tributary.Framer.{Framer, cri, has_pending, push, drain, drain_all}
use tributary.Framer.Emptied.{IsAmong, message, drain_all-Empties}

abbrev shown : Text → Text → Text → Text
shown log stream time = log ++ b'/' ∷ (stream ++ b'/' ∷ time)

abbrev undecoded : Text → Decoded
undecoded line = malformed not_a_line

abbrev partial_message : Framer
unfolding push Cri.new Cri.push Cri.accept parse parse_time parse_stream parse_tag split_space
    checked extended lookup insert remove
partial_message = (push shown undecoded 1 (codes "t1 stderr P tail") (cri (Cri.new 100 500))).1

test_drained : (drain_all shown 2 partial_message).0 ≡ codes "tail/stderr/t1" ∷ []
unfolding drain_all drain Cri.drain emit remove partial_message
test_drained = refl

drain_all-Empties_example :
    (has_pending (drain_all shown 2 partial_message).1 ≡ false)
    × IsAmong (message shown (codes "stderr") partial_message) (drain_all shown 2 partial_message).0
unfolding partial_message
drain_all-Empties_example = drain_all-Empties shown 2 (codes "stderr") partial_message (omega arith)
