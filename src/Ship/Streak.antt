-- ===== src/Ship/Streak.antt =====
-- The transport backstop: consecutive failures, and the client that is rebuilt for them.
use tributary.Prelude.{
  ℕ, Bool, true, false, List, [], ◌∷◌, length, if◌then◌else◌, ◌+◌, ◌%◌, ◌^◌, ◌≤◌, ◌<◌, ◌≡◌, refl,
  arith, Text, u64_add, ◌↔◌,
}
use tributary.Ship.{
  Shipper, ok, Response, Wire, response, failure, Attempt, settle, note_transport_failure,
  rebuild_transport, note_write_path_answered,
}

-- A run of transport failures, each with whether a client could be built if one was due.
unfoldable pub failures : List Bool → Shipper → Shipper
failures [] s = s
failures (builds ∷ more) s = failures more (note_transport_failure builds s)

abbrev one_if : Bool → ℕ
one_if b = if b then 1 else 0

-- How many of every third failure could build a client.
abbrev pub thirds : List Bool → ℕ
thirds [] = 0
thirds (a ∷ []) = 0
thirds (a ∷ b ∷ []) = 0
thirds (a ∷ b ∷ c ∷ more) = one_if c + thirds more

-- The client is another one for each rebuild that is counted.
abbrev Rebuilds : ℕ → Shipper → Shipper → Type 0
Rebuilds n s s' =
    (s'.counters.transport_rebuilds ≡ s.counters.transport_rebuilds + n)
    × (s'.client ≡ s.client + n)

module _ (builds : Bool) (s : Shipper) (low : s.counters.transport_streak + 1 < 2 ^ 64) where
  failure-Quiet :
      s.counters.transport_streak % 3 < 2
      → Rebuilds 0 s (note_transport_failure builds s)
        × ((note_transport_failure builds s).counters.transport_streak
            ≡ s.counters.transport_streak + 1)
  unfolding note_transport_failure u64_add
  failure-Quiet h = ground arith

failure-Due :
    (builds : Bool) (s : Shipper)
    → s.counters.transport_streak + 1 < 2 ^ 64
    → s.counters.transport_rebuilds + 1 < 2 ^ 64
    → s.counters.transport_streak % 3 ≡ 2
    → Rebuilds (one_if builds) s (note_transport_failure builds s)
      × ((note_transport_failure builds s).counters.transport_streak % 3 ≡ 0)
      × ((note_transport_failure builds s).counters.transport_streak
          ≤ s.counters.transport_streak + 1)
unfolding note_transport_failure rebuild_transport u64_add
failure-Due true s low room h = ground arith
failure-Due false s low room h = ground arith

-- Three failures from a streak of full rounds.
three-Rebuilds :
    (a b c : Bool) (s : Shipper)
    → s.counters.transport_streak % 3 ≡ 0
    → s.counters.transport_streak + 3 < 2 ^ 64
    → s.counters.transport_rebuilds + 1 < 2 ^ 64
    → Rebuilds (one_if c) s (failures (a ∷ b ∷ c ∷ []) s)
      × ((failures (a ∷ b ∷ c ∷ []) s).counters.transport_streak % 3 ≡ 0)
      × ((failures (a ∷ b ∷ c ∷ []) s).counters.transport_streak ≤ s.counters.transport_streak + 3)
unfolding failures
three-Rebuilds a b c s h low room =
    let s₁ = note_transport_failure a s in
    let s₂ = note_transport_failure b s₁ in
    let one = failure-Quiet a s (omega arith) (omega arith) in
    let two = failure-Quiet b s₁ (omega (arith, one.1)) (omega (arith, one.1)) in
    let three =
      failure-Due c s₂ (omega (arith, one.1, two.1)) (omega (arith, one.0.0, two.0.0))
        (omega (arith, one.1, two.1)) in
    (
      (omega (arith, one.0.0, two.0.0, three.0.0), omega (arith, one.0.1, two.0.1, three.0.1)),
      three.1,
      omega (arith, one.1, two.1, three.2),
    )

failures-Rounds :
    (outcomes : List Bool) (s : Shipper)
    → s.counters.transport_streak % 3 ≡ 0
    → s.counters.transport_streak + length outcomes < 2 ^ 64
    → s.counters.transport_rebuilds + length outcomes < 2 ^ 64
    → Rebuilds (thirds outcomes) s (failures outcomes s)
      × ((failures outcomes s).counters.transport_streak % 3 ≡ length outcomes % 3)
unfolding failures
failures-Rounds [] s h low room = ((omega arith, omega arith), h)
failures-Rounds (a ∷ []) s h low room =
    let one = failure-Quiet a s (omega arith) (omega arith) in (one.0, omega (arith, one.1))
failures-Rounds (a ∷ b ∷ []) s h low room =
    let one = failure-Quiet a s (omega arith) (omega arith) in
    let two =
      failure-Quiet b (note_transport_failure a s) (omega (arith, one.1)) (omega (arith, one.1)) in
    (
      (omega (arith, one.0.0, two.0.0), omega (arith, one.0.1, two.0.1)),
      omega (arith, one.1, two.1),
    )
failures-Rounds (a ∷ b ∷ c ∷ more) s h low room =
    let step = three-Rebuilds a b c s h (omega arith) (omega arith) in
    let bit : one_if c ≤ 1 = elim c as (λ k. one_if k ≤ 1) [
      | true ↦ omega arith
      | false ↦ omega arith
    ] in
    let rest =
      failures-Rounds more (failures (a ∷ b ∷ c ∷ []) s) step.1 (omega (arith, step.2))
        (omega (arith, step.0.0, bit)) in
    ((omega (arith, step.0.0, rest.0.0), omega (arith, step.0.1, rest.0.1)), omega (arith, rest.1))

-- From an answered state, while the counters stay within 64 bits, every third consecutive transport
-- failure replaces the client if another one can be built, and counts a rebuild exactly then; in every
-- other failure, and when none can be built, the client is kept and nothing is counted.
pub failures-rebuild :
    (outcomes : List Bool) (s : Shipper)
    → length outcomes < 2 ^ 64
    → s.counters.transport_rebuilds + length outcomes < 2 ^ 64
    → ((failures outcomes (note_write_path_answered s)).counters.transport_rebuilds
        ≡ s.counters.transport_rebuilds + thirds outcomes)
      × ((failures outcomes (note_write_path_answered s)).client ≡ s.client + thirds outcomes)
      × ((failures outcomes (note_write_path_answered s)).counters.transport_streak % 3
          ≡ length outcomes % 3)
unfolding note_write_path_answered
failures-rebuild outcomes s low room =
    let is =
      failures-Rounds outcomes (note_write_path_answered s) (omega arith) (omega arith) room in
    (is.0.0, is.0.1, is.1)

module _ (body : Text) (a : Attempt) (s : Shipper) where
  settle-ok : (r : Response) → a.wire ≡ response r → (settle body a s).0 ≡ ok → r.status ≡ 204
  unfolding settle
  settle-ok r e h = ground arith

  settle-204 : (r : Response) → a.wire ≡ response r → r.status ≡ 204 → (settle body a s).0 ≡ ok
  unfolding settle
  settle-204 r e h = ground arith

  settle-failure : (t : Text) → a.wire ≡ failure t → (settle body a s).0 ≡ ok → ⊥
  unfolding settle
  settle-failure t e h = ground arith

-- An attempt is a success exactly when a response with status 204 came.
pub settle-ok_iff :
    (body : Text) (a : Attempt) (s : Shipper)
    → ((settle body a s).0 ≡ ok) ↔ ((r : Response) × (a.wire ≡ response r) × (r.status ≡ 204))
settle-ok_iff body a s = (λ h. forth a.wire refl h, λ (r, e, h). settle-204 body a s r e h)
  where
    forth :
        (wire : Wire)
        → a.wire ≡ wire
        → (settle body a s).0 ≡ ok
        → (r : Response) × (a.wire ≡ response r) × (r.status ≡ 204)
    forth (response r) e h = (r, e, settle-ok body a s r e h)
    forth (failure t) e h = absurd (settle-failure body a s t e h)
