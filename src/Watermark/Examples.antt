-- ===== src/Watermark/Examples.antt =====
-- Histories of a watermark.
use tributary.Prelude.{List, [], ◌∷◌}
use tributary.Prelude.Int.{pos, ◌≤ℤ◌}
use tributary.Watermark.{new}
use tributary.Watermark.Claims.{Event, observed, acked, run, published-run_mono}

abbrev history : List Event
history =
    observed (pos 700)
    ∷ observed (pos 500)
    ∷ acked (pos 700)
    ∷ observed (pos 900)
    ∷ acked (pos 900)
    ∷ []

published-run_mono_example :
    (new (pos 10) (pos 100)).published_ns ≤ℤ (run history (new (pos 10) (pos 100))).published_ns
published-run_mono_example = published-run_mono history (new (pos 10) (pos 100))
