-- ===== src/Ship/Examples.antt =====
-- A database that keeps the contract, and runs against it.
use tributary.Prelude.{
  ℕ, zero, suc, ◌+◌, ◌<◌, ◌≤◌, ◌⊎◌, ◌%◌, ◌≡◌, refl, Bool, true, false, List, [], ◌∷◌, ◌++◌, none,
  some, Text, codes, arith, ◌==◌, inl, inr, not, ◌&&◌, All, ap, sym, ◌∙◌, subst, append_assoc,
}
use tributary.Pipeline.Drain.{split_inclusive}
use tributary.Ship.{
  Shipper, Response, response, Attempt, bytes, concat, send_lines, sent, note_write_path_answered,
  no_counts,
}
use tributary.Ship.Database.{IsLine, Database, any_bad, poison_of, clean_of, payload_of}
use tributary.Ship.Bisect.{send_lines-isolates}
use tributary.Ship.Streak.{failures, failures-rebuild}

-- A line is refused if it cannot be parsed, for want of an equals sign.
abbrev unparseable : Text → Bool
unparseable [] = true
unparseable (c ∷ s) = not (c == b'=') && unparseable s

-- The database takes a payload apart into its lines.
split-line :
    (t s : Text)
    → All (λ c. (c == b'\n') ≡ false) t
    → split_inclusive (t ++ b'\n' ∷ s) ≡ (t ++ b'\n' ∷ []) ∷ split_inclusive s
unfolding split_inclusive
split-line [] s h = refl
split-line (c ∷ t) s h = ground (arith, h.0, split-line t s h.1)

split-concat : (lines : List Text) → All IsLine lines → split_inclusive (concat lines) ≡ lines
split-concat [] h = unfold split_inclusive in refl
split-concat (l ∷ ls) ((t, e, k), h) =
    ap (λ x. split_inclusive (x ++ concat ls)) e
    ∙ ap split_inclusive (append_assoc t (b'\n' ∷ []) (concat ls))
    ∙ split-line t (concat ls) k
    ∙ ap (λ x. x ∷ split_inclusive (concat ls)) (sym e)
    ∙ ap (λ ls. l ∷ ls) (split-concat ls h)

abbrev refused : Text → Bool
refused pay = any_bad unparseable (split_inclusive pay)

abbrev answer : ℕ → Attempt
answer status = record {
  wire = response (record { status = status; retry_after = none; text = [] });
  elapsed_ns = 5;
  builds = true;
}

abbrev post_by : Bool → Text × ℕ → Text → Attempt × (Text × ℕ)
post_by bad (st, suc n) pay = (answer 429, (st, n))
post_by true (st, zero) pay = (answer 400, (st, 0))
post_by false (st, zero) pay = (answer 204, (st ++ pay, 0))

payload_of-bytes : (gzip : Bool) (s pay : Text) → payload_of bytes gzip s ≡ bytes pay → s ≡ pay
payload_of-bytes true s pay e = ground arith
payload_of-bytes false s pay e = ground arith

-- What `Database.answers` asks of one answer, with the lines put together.
abbrev Keeps : Bool → Text → Text × ℕ → Attempt × (Text × ℕ) → Type 0
Keeps bad body w (a, w') =
    (r : Response) × (a.wire ≡ response r)
    × (((r.status ≡ 204) × (bad ≡ false) × (w'.0 ≡ w.0 ++ body) × (w'.1 ≤ w.1))
        ⊎ ((r.status ≡ 400) × (bad ≡ true) × (w'.0 ≡ w.0) × (w'.1 ≤ w.1))
        ⊎ ((r.status ≡ 429) × (w'.0 ≡ w.0) × (w'.1 < w.1)))

post_by-Keeps : (bad : Bool) (w : Text × ℕ) (body : Text) → Keeps bad body w (post_by bad w body)
post_by-Keeps bad (st, suc n) body = (_, refl, inr (inr (refl, refl, omega arith)))
post_by-Keeps true (st, zero) body = (_, refl, inr (inl (refl, refl, refl, omega arith)))
post_by-Keeps false (st, zero) body = (_, refl, inl (refl, refl, refl, omega arith))

toy-Keeps :
    (w : Text × ℕ) (gzip : Bool) (lines : List Text) (pay : Text)
    → All IsLine lines
    → payload_of bytes gzip (concat lines) ≡ bytes pay
    → Keeps (any_bad unparseable lines) (concat lines) w (post_by (refused pay) w pay)
toy-Keeps w gzip lines pay k e = rw (← payload_of-bytes gzip (concat lines) pay e) (
    subst
      (λ ls.
        Keeps (any_bad unparseable ls) (concat lines) w
          (post_by (refused (concat lines)) w (concat lines)))
      (split-concat lines k) (post_by-Keeps (refused (concat lines)) w (concat lines)))

abbrev toy : Database
toy = record {
  World = Text × ℕ;
  post = λ w pay. post_by (refused pay) w pay;
  encode = bytes;
  bad = unparseable;
  stored = λ w. w.0;
  deferrals = λ w. w.1;
  encodes = λ body. (body, refl);
  answers = toy-Keeps;
}

abbrev shipper : Shipper
shipper = record { client = 0; gzip = true; counters = no_counts }

abbrev lines : List Text
lines = codes "m v=1\n" ∷ codes "m\n" ∷ codes "m v=2\n" ∷ []

lines-IsLine : All IsLine lines
lines-IsLine =
    let line : (t : Text) → All (λ c. (c == b'\n') ≡ false) t → IsLine (t ++ b'\n' ∷ []) =
      λ t h. (t, refl, h) in
    (
      line (codes "m v=1") (ground arith),
      (line (codes "m") (ground arith), (line (codes "m v=2") (ground arith), tt)),
    )

send_lines-isolates_example :
    (s' : Shipper) × (w' : Text × ℕ) × (send_lines toy.post bytes 20 lines shipper ([], 2)
      ≡ some (sent (poison_of unparseable lines), s', w'))
    × (w'.0 ≡ [] ++ concat (clean_of unparseable lines))
send_lines-isolates_example =
    send_lines-isolates toy lines 20 shipper ([], 2) lines-IsLine (omega arith)

abbrev outcomes : List Bool
outcomes = true ∷ true ∷ true ∷ true ∷ true ∷ false ∷ true ∷ []

failures-rebuild_example :
    ((failures outcomes (note_write_path_answered shipper)).counters.transport_rebuilds ≡ 0 + 1)
    × ((failures outcomes (note_write_path_answered shipper)).client ≡ 0 + 1)
    × ((failures outcomes (note_write_path_answered shipper)).counters.transport_streak % 3 ≡ 7 % 3)
failures-rebuild_example = failures-rebuild outcomes shipper (omega arith) (omega arith)
