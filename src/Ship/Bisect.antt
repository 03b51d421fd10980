-- ===== src/Ship/Bisect.antt =====
-- The loop of `send_lines` in crates/tributary/src/ship.rs, against a database as Ship.Database has it.
use tributary.Prelude.{
  ℕ, zero, suc, ◌+◌, ◌-◌, ◌*◌, ◌/◌, ◌<◌, ◌≡◌, refl, sym, ap, ◌∙◌, inl, inr, true, false, List, [],
  ◌∷◌, ◌++◌, append-nil, append_assoc, some, Text, arith, ◌==◌, length, take, drop,
  take-append-drop, length-take, length-drop, All, Bool-cases,
}
use tributary.Ship.{
  Shipper, ShipResult, ok, err, rejected, backpressure, sent, concat, send, send_loop, send_lines,
  count_bisect,
}
use tributary.Ship.Database.{
  any_bad, poison_of, clean_of, poison_of-append, clean_of-append, poison_of-none, clean_of-all,
  concat-append, IsLine, Database, send-Fares,
}

module _ (d : Database) where
  open d use {World, post, encode, bad, stored, deferrals}

  -- Rounds that a stack of chunks can take: a chunk of n lines is cut at most n - 1 times.
  abbrev rounds : List (List Text) → ℕ
  rounds [] = 0
  rounds (chunk ∷ stack) = 2 * length chunk - 1 + rounds stack

  abbrev flat : List (List Text) → List Text
  flat [] = []
  flat (chunk ∷ stack) = chunk ++ flat stack

  -- The loop ends; it leaves the poison lines in order, and exactly the others are stored, in order.
  abbrev Ends : ℕ → List (List Text) → List Text → Shipper → World → Type 0
  Ends fuel stack poison s w =
      (s' : Shipper) × (w' : World) × (send_loop post encode fuel stack poison s w
        ≡ some (sent (poison ++ poison_of bad (flat stack)), s', w'))
      × (stored w' ≡ stored w ++ concat (clean_of bad (flat stack)))

  module _ (fuel : ℕ) (l : Text) (ls : List Text) (stack : List (List Text)) (poison : List Text)
      (s : Shipper) (w : World) where
    abbrev Sent : ShipResult × Shipper × World
    Sent = send post encode (concat (l ∷ ls)) s w

    loop-ok :
        Sent.0 ≡ ok
        → send_loop post encode (suc fuel) ((l ∷ ls) ∷ stack) poison s w
          ≡ send_loop post encode fuel stack poison Sent.1 Sent.2
    unfolding send_loop
    loop-ok e = rw (e, send_loop)

    loop-one :
        (t : Text)
        → Sent.0 ≡ err (rejected t)
        → (length (l ∷ ls) == 1) ≡ true
        → send_loop post encode (suc fuel) ((l ∷ ls) ∷ stack) poison s w
          ≡ send_loop post encode fuel stack (poison ++ l ∷ []) Sent.1 Sent.2
    unfolding send_loop
    loop-one t e one = rw (e, one, send_loop)

    loop-cut :
        (t : Text)
        → Sent.0 ≡ err (rejected t)
        → (length (l ∷ ls) == 1) ≡ false
        → send_loop post encode (suc fuel) ((l ∷ ls) ∷ stack) poison s w
          ≡ send_loop post encode fuel
              (take (length (l ∷ ls) / 2) (l ∷ ls) ∷ drop (length (l ∷ ls) / 2) (l ∷ ls) ∷ stack)
              poison
              (count_bisect Sent.1)
              Sent.2
    unfolding send_loop
    loop-cut t e many = rw (e, many, send_loop)

    loop-busy :
        (n : ℕ)
        → Sent.0 ≡ err (backpressure n)
        → send_loop post encode (suc fuel) ((l ∷ ls) ∷ stack) poison s w
          ≡ send_loop post encode fuel ((l ∷ ls) ∷ stack) poison Sent.1 Sent.2
    unfolding send_loop
    loop-busy n e = rw (e, send_loop)

  Ends-step :
      (fuel fuel' : ℕ) (stack stack' : List (List Text)) (poison poison' : List Text)
      (s s₁ : Shipper) (w w₁ : World)
      → send_loop post encode fuel' stack' poison' s w
        ≡ send_loop post encode fuel stack poison s₁ w₁
      → poison ++ poison_of bad (flat stack) ≡ poison' ++ poison_of bad (flat stack')
      → stored w₁ ++ concat (clean_of bad (flat stack))
        ≡ stored w ++ concat (clean_of bad (flat stack'))
      → Ends fuel stack poison s₁ w₁
      → Ends fuel' stack' poison' s w
  Ends-step fuel fuel' stack stack' poison poison' s s₁ w w₁ run po st (s', w', e, z) =
      (s', w', run ∙ e ∙ ap (λ p. some (sent p, s', w')) po, z ∙ st)

  abbrev IsChunk : List Text → Type 0
  IsChunk chunk = (0 < length chunk) × All IsLine chunk

  line_cons :
      (l : Text) (ls : List Text)
      → IsLine l
      → (b : ℕ) × (body : Text) × (concat (l ∷ ls) ≡ b ∷ body)
  line_cons [] ls ([], e, h) = ground (arith, e)
  line_cons [] ls (c ∷ t, e, h) = ground (arith, e)
  line_cons (b ∷ l) ls h = (b, l ++ concat ls, refl)

  All-take : {A : Type 0} (P : A → Type 0) (n : ℕ) (xs : List A) → All P xs → All P (take n xs)
  All-take P zero xs h = tt
  All-take P (suc n) [] h = tt
  All-take P (suc n) (x ∷ xs) h = (h.0, All-take P n xs h.1)

  All-drop : {A : Type 0} (P : A → Type 0) (n : ℕ) (xs : List A) → All P xs → All P (drop n xs)
  All-drop P zero xs h = h
  All-drop P (suc n) [] h = tt
  All-drop P (suc n) (x ∷ xs) h = All-drop P n xs h.1

  single : (ls : List Text) (l : Text) → (length (l ∷ ls) == 1) ≡ true → ls ≡ []
  single [] l h = refl
  single (x ∷ ls) l h = ground arith

  stored_clean :
      (chunk : List Text) (stack : List (List Text)) (w w₁ : World)
      → any_bad bad chunk ≡ false
      → stored w₁ ≡ stored w ++ concat chunk
      → stored w₁ ++ concat (clean_of bad (flat stack))
        ≡ stored w ++ concat (clean_of bad (flat (chunk ∷ stack)))
  stored_clean chunk stack w w₁ good st =
      rw
        (
          st,
          clean_of-append bad chunk (flat stack),
          clean_of-all bad chunk good,
          concat-append chunk (clean_of bad (flat stack)),
        )
        (append_assoc (stored w) (concat chunk) (concat (clean_of bad (flat stack))))

  -- A refused chunk of one line: the line is poison.
  rest_poison :
      (l : Text) (ls : List Text) (stack : List (List Text)) (poison : List Text)
      → (length (l ∷ ls) == 1) ≡ true
      → any_bad bad (l ∷ ls) ≡ true
      → (poison ++ l ∷ []) ++ poison_of bad (flat stack)
        ≡ poison ++ poison_of bad (flat ((l ∷ ls) ∷ stack))
  rest_poison l [] stack poison one refused =
      ground (arith, append_assoc poison (l ∷ []) (poison_of bad (flat stack)))
  rest_poison l (x ∷ ls) stack poison one refused = ground arith

  rest_clean :
      (l : Text) (ls : List Text) (stack : List (List Text)) (w w₁ : World)
      → (length (l ∷ ls) == 1) ≡ true
      → any_bad bad (l ∷ ls) ≡ true
      → stored w₁ ≡ stored w
      → stored w₁ ++ concat (clean_of bad (flat stack))
        ≡ stored w ++ concat (clean_of bad (flat ((l ∷ ls) ∷ stack)))
  rest_clean l [] stack w w₁ one refused st = ground arith
  rest_clean l (x ∷ ls) stack w w₁ one refused st = ground arith

  module _ (chunk : List Text) (many : (length chunk == 1) ≡ false) where
    take_pos : 0 < length chunk → 0 < length (take (length chunk / 2) chunk)
    take_pos h = rw (length-take (length chunk / 2) chunk) (ground arith)

    drop_pos : 0 < length chunk → 0 < length (drop (length chunk / 2) chunk)
    drop_pos h = rw (length-drop (length chunk / 2) chunk) (ground arith)

    rounds_cut :
        0 < length chunk
        → rounds (take (length chunk / 2) chunk ∷ drop (length chunk / 2) chunk ∷ [])
          < rounds (chunk ∷ [])
    rounds_cut h =
        rw (length-take (length chunk / 2) chunk, length-drop (length chunk / 2) chunk)
          (ground arith)

  loop-Ends :
      (fuel : ℕ) (stack : List (List Text)) (poison : List Text) (s : Shipper) (w : World)
      → All IsChunk stack
      → deferrals w + rounds stack < fuel
      → Ends fuel stack poison s w
  loop-Ends zero stack poison s w c h = absurd (omega arith)
  loop-Ends (suc fuel) [] poison s w c h = (
    s,
    w,
    unfold send_loop in ap (λ p. some (sent p, s, w)) (sym (append-nil poison)),
    sym (append-nil (stored w)),
  )
  loop-Ends (suc fuel) ([] ∷ stack) poison s w c h = absurd (omega arith)
  loop-Ends (suc fuel) ((l ∷ ls) ∷ stack) poison s w c h =
      let chunk : List Text = l ∷ ls in
      let (b, body, cons) = line_cons l ls c.0.1.0 in
      let (out, s₁, w₁) = send post encode (concat chunk) s w in
      elim (send-Fares d chunk b body s w c.0.1 cons) [
        | inl (e, good, st, df) ↦
            Ends-step fuel (suc fuel) stack (chunk ∷ stack) poison poison s s₁ w w₁
              (loop-ok fuel l ls stack poison s w e)
              (ap (λ p. poison ++ p)
                (sym (
                  poison_of-append bad chunk (flat stack)
                  ∙ ap (λ p. p ++ poison_of bad (flat stack)) (poison_of-none bad chunk good))))
              (stored_clean chunk stack w w₁ good st)
              (loop-Ends fuel stack poison s₁ w₁ c.1 (omega arith))
        | inr (inl (t, e, refused, st, df)) ↦ elim (Bool-cases (length chunk == 1)) [
          | inl one ↦
              Ends-step fuel (suc fuel) stack (chunk ∷ stack) (poison ++ l ∷ []) poison s s₁ w w₁
                (loop-one fuel l ls stack poison s w t e one)
                (rest_poison l ls stack poison one refused)
                (rest_clean l ls stack w w₁ one refused st)
                (loop-Ends fuel stack (poison ++ l ∷ []) s₁ w₁ c.1 (omega arith))
          | inr many ↦
              let mid = length chunk / 2 in
              let same : flat (take mid chunk ∷ drop mid chunk ∷ stack) ≡ flat (chunk ∷ stack) =
                sym (append_assoc (take mid chunk) (drop mid chunk) (flat stack))
                ∙ ap (λ c. c ++ flat stack) (take-append-drop mid chunk) in
              Ends-step fuel (suc fuel) (take mid chunk ∷ drop mid chunk ∷ stack) (chunk ∷ stack)
                poison poison s (count_bisect s₁) w w₁
                (loop-cut fuel l ls stack poison s w t e many)
                (ap (λ c. poison ++ poison_of bad c) same) (rw (same, st))
                (loop-Ends fuel (take mid chunk ∷ drop mid chunk ∷ stack) poison (count_bisect s₁)
                  w₁
                  (
                    (take_pos chunk many c.0.0, All-take IsLine mid chunk c.0.1),
                    ((drop_pos chunk many c.0.0, All-drop IsLine mid chunk c.0.1), c.1),
                  )
                  (omega (arith, rounds_cut chunk many c.0.0)))
        ]
        | inr (inr (n, e, st, df)) ↦
            Ends-step fuel (suc fuel) (chunk ∷ stack) (chunk ∷ stack) poison poison s s₁ w w₁
              (loop-busy fuel l ls stack poison s w n e) refl (rw st)
              (loop-Ends fuel (chunk ∷ stack) poison s₁ w₁ c (omega arith))
      ]

  -- Lines that end in their newline and have no other, and fuel for the 429s to come and for two rounds a line: the batch ends, it
  -- returns exactly the lines that the database refuses, in order, and exactly the other lines
  -- have been stored, in order.
  pub send_lines-isolates :
      (lines : List Text) (fuel : ℕ) (s : Shipper) (w : World)
      → All IsLine lines
      → deferrals w + 2 * length lines + 1 < fuel
      → (s' : Shipper) × (w' : World) × (send_lines post encode fuel lines s w
          ≡ some (sent (poison_of bad lines), s', w'))
        × (stored w' ≡ stored w ++ concat (clean_of bad lines))
  unfolding send_lines
  send_lines-isolates [] (suc fuel) s w c h =
      let (s', w', e, st) = loop-Ends fuel [] [] s w tt (omega arith) in
      (s', w', unfold send_loop in e, st)
  send_lines-isolates [] zero s w c h = absurd (omega arith)
  send_lines-isolates (l ∷ ls) fuel s w c h =
      let (s', w', e, st) =
        loop-Ends fuel ((l ∷ ls) ∷ []) [] s w ((omega arith, c), tt) (omega arith) in
      let one : flat ((l ∷ ls) ∷ []) ≡ l ∷ ls = append-nil (l ∷ ls) in
      (
        s',
        w',
        e ∙ ap (λ c. some (sent (poison_of bad c), s', w')) one,
        st ∙ ap (λ c. stored w ++ concat (clean_of bad c)) one,
      )
