-- ===== src/Cri/Examples.antt =====
-- Histories of the reassembler.
use tributary.Prelude.{◌≡◌, refl, List, [], ◌∷◌, ◌++◌, codes, lookup, insert, remove, text_has_eq}
use tributary.Cri.{
  new, parse, parse_time, parse_stream, parse_tag, split_space, checked, push, accept, expire,
  drain, extended, find_expired, emit,
}
use tributary.Cri.History.{Event, line, tick, flush, emitted, after, step, logs, pending, fed}
use tributary.Cri.Conserve.{emitted-fed}

abbrev history : List Event
history =
    line 0 (codes "t1 stdout P ab")
    ∷ line 1 (codes "t2 stderr F err")
    ∷ line 2 (codes "t3 stdout F c d")
    ∷ line 3 (codes "no line of this format")
    ∷ line 4 (codes "t4 stdout P tail")
    ∷ tick 900
    ∷ flush
    ∷ []

test_emitted :
    emitted history (new 100 500)
    ≡ (codes "err", codes "stderr", codes "t2")
      ∷ (codes "abc d", codes "stdout", codes "t1")
      ∷ (codes "tail", codes "stdout", codes "t4")
      ∷ []
unfolding emitted step new push accept expire drain extended find_expired emit parse parse_time
    parse_stream parse_tag split_space checked lookup insert remove
test_emitted = refl

emitted-fed_example :
    logs (codes "stdout") (emitted history (new 4 500))
      ++ pending (codes "stdout") (after history (new 4 500)).streams
    ≡ fed (codes "stdout") history
emitted-fed_example = emitted-fed 4 500 history (codes "stdout")
