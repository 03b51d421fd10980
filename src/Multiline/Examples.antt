-- ===== src/Multiline/Examples.antt =====
-- Runs of the joiner.
use tributary.Prelude.{◌≡◌, refl, Bool, false, List, [], ◌∷◌, some, Text, codes, ◌==◌}
use tributary.Multiline.{new, join, push, expire, drain}
use tributary.Multiline.Joined.{Event, line, tick, lines_of, records, records-join}
use tributary.Multiline.Bounds.{after, IsWithin, after_bounds}

-- A record starts with a bracket.
abbrev starts : Text → Bool
starts [] = false
starts (c ∷ s) = c == b'['

abbrev history : List Event
history =
    line 0 (codes "[a")
    ∷ line 5 (codes " b")
    ∷ line 9 (codes "[c")
    ∷ tick 900
    ∷ line 901 (codes "d")
    ∷ []

test_records :
    records history (new (some starts) 10 100 500) ≡ codes "[a\n b" ∷ codes "[c" ∷ codes "d" ∷ []
unfolding records push new join expire drain
test_records = refl

records-join_example :
    join (records history (new (some starts) 10 100 500)) ≡ join (lines_of history)
records-join_example = records-join (some starts) 10 100 500 history

after_bounds_example : IsWithin (after history (new (some starts) 2 100 500))
after_bounds_example = after_bounds (some starts) 2 100 500 history
