-- ===== src/Winlog.antt =====
-- crates/tributary/src/winlog.rs: events of the Windows event log, queued on the disk and shipped. The
-- loop is that of crates/tributary/src/journald.rs, with which it shares the queue's part; a bookmark is
-- a cursor. It differs in the time of an event and in what it does with nothing to ship.
use tributary.Prelude.{
  ℕ, zero, suc, Bool, true, false, List, [], ◌∷◌, ◌++◌, Option, none, some, Text,
}
use tributary.Prelude.Int.{ℤ}
use tributary.Checkpoint.{Checkpoint}
use tributary.Map.{Library, Source}
use tributary.Pipeline.{System}
use tributary.Stamp.{Stamper}
use tributary.Journald.{Mapped, map_json, Read, full, fault, fill, unread}
use tributary.Journald.Loop.{
  Agent, Run, ok, err, stuck, and_then, drain, persist, save_cursor, restored, cursor_of,
}

pub record Event : Type 0 where
  pub fields : List (Text × Text)
  pub time_created_ns : ℤ

abbrev pub Wait : Type 0
Wait = Option (List (Read Event))

module _ (show_float : ℕ → Text) {Number Other : Type 0} (lib : Library Number Other)
    (event_to_json : Event → Text) (src : Source) where
  -- The channel's own time stands for any other.
  unfoldable pub map_event : ℤ → Event → Stamper → Mapped × Stamper
  unfolding map_json
  map_event now event stamper =
      map_json show_float lib src now (event_to_json event) event.time_created_ns stamper

module _ {ℓ} {World : Type ℓ} (sys : System World) (fuel : ℕ) (name : Text) where
  -- The end of a turn: with nothing to ship, a bookmark behind what was read is saved at the end of the
  -- channel.
  unfoldable pub ship_events : List Text → Bool → Option Text → Agent World → Run World
  unfolding persist drain save_cursor
  ship_events (l ∷ ls) at_tail bookmark a =
      and_then (persist sys fuel name (l ∷ ls) bookmark a) (drain sys fuel)
  ship_events [] true (some bookmark) a = save_cursor sys fuel name (some bookmark) a
  ship_events [] true none a = ok a
  ship_events [] false bookmark a = ok a

module _ {ℓ} {World : Type ℓ} (sys : System World) (fuel : ℕ) (show_float : ℕ → Text)
    {Number Other : Type 0} (lib : Library Number Other) (event_to_json : Event → Text)
    (src : Source) where
  unfoldable pub pass : ℕ → List (Read Event) → Agent World → Run World × Bool × List (Read Event)
  unfolding fill map_event ship_events
  pass batch_lines reads a =
      elim (fill (map_event show_float lib event_to_json src) batch_lines reads a.stamper) [
        | fault e stamper ↦ (err e (record a { stamper = stamper }), true, [])
        | full f ↦ (
          ship_events sys fuel src.name f.batch f.at_tail f.last_cursor
              (record a { stamper = f.stamper }),
          f.at_tail,
          f.rest,
        )
      ]

  -- The loop, on fuel. Behind the last wait the caller's shutdown wins and the loop is dropped.
  unfoldable pub passes : ℕ → ℕ → Bool → List Wait → List (Read Event) → Agent World → Run World
  unfolding pass drain
  passes zero batch_lines once waits reads a = stuck
  passes (suc n) batch_lines once waits reads a =
      let (r, at_tail, rest) = pass batch_lines reads a in
      and_then r (λ b. elim at_tail [
        | false ↦ passes n batch_lines once waits rest b
        | true ↦ elim once [
          | true ↦ drain sys fuel b
          | false ↦ elim waits [
            | [] ↦ ok b
            | wait ∷ more ↦ elim wait [
              | none ↦ err unread b
              | some news ↦ passes n batch_lines false more (rest ++ news) b
            ]
          ]
        ]
      ])

  -- With the checkpoint that was loaded, and what the reader gives from its bookmark on.
  unfoldable pub run_winlog :
      ℕ
      → ℕ
      → Bool
      → List Wait
      → (Option Text → List (Read Event))
      → Option Checkpoint
      → Agent World
      → Run World
  unfolding passes drain restored
  run_winlog rounds batch_lines once waits seek cp a =
      and_then (drain sys fuel (record a { stamper = restored a.stamper cp }))
        (passes rounds batch_lines once waits (seek (cursor_of cp)))
