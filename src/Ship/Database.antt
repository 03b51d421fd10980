-- ===== src/Ship/Database.antt =====
-- The database behind crates/tributary/src/ship.rs, as an interface, and one chunk sent to it.
use tributary.Prelude.{
  ℕ, ◌≤◌, ◌<◌, ◌≡◌, refl, sym, ap, ◌∙◌, ◌⊎◌, inl, inr, Bool, true, false, ◌||◌, List, [], ◌∷◌, ◌++◌,
  append_assoc, Text, arith, ◌==◌, All, if◌then◌else◌,
}
use tributary.Ship.{
  Shipper, ShipResult, ok, err, rejected, backpressure, Response, response, Attempt, Encoded,
  retry_secs, bytes, concat, settle, send,
}

-- What is sent for a body.
abbrev pub payload_of : (Text → Encoded) → Bool → Text → Encoded
payload_of encode gzip body = if gzip then encode body else bytes body

-- Whether some line is one that the database refuses, and the lines of either kind, in order.
module _ (bad : Text → Bool) where
  abbrev pub any_bad : List Text → Bool
  any_bad [] = false
  any_bad (l ∷ ls) = bad l || any_bad ls

  abbrev pub poison_of : List Text → List Text
  poison_of [] = []
  poison_of (l ∷ ls) = if bad l then l ∷ poison_of ls else poison_of ls

  abbrev pub clean_of : List Text → List Text
  clean_of [] = []
  clean_of (l ∷ ls) = if bad l then clean_of ls else l ∷ clean_of ls

module _ (bad : Text → Bool) where
  pub poison_of-append :
      (xs ys : List Text) → poison_of bad (xs ++ ys) ≡ poison_of bad xs ++ poison_of bad ys
  poison_of-append [] ys = refl
  poison_of-append (x ∷ xs) ys = ground (arith, poison_of-append xs ys)

  pub clean_of-append :
      (xs ys : List Text) → clean_of bad (xs ++ ys) ≡ clean_of bad xs ++ clean_of bad ys
  clean_of-append [] ys = refl
  clean_of-append (x ∷ xs) ys = ground (arith, clean_of-append xs ys)

  pub poison_of-none : (xs : List Text) → any_bad bad xs ≡ false → poison_of bad xs ≡ []
  poison_of-none [] h = refl
  poison_of-none (x ∷ xs) h = ground (arith, poison_of-none xs)

  pub clean_of-all : (xs : List Text) → any_bad bad xs ≡ false → clean_of bad xs ≡ xs
  clean_of-all [] h = refl
  clean_of-all (x ∷ xs) h = ground (arith, clean_of-all xs)

pub concat-append : (xs ys : List Text) → concat (xs ++ ys) ≡ concat xs ++ concat ys
concat-append [] ys = refl
concat-append (x ∷ xs) ys = rw (concat-append xs ys) (sym (append_assoc x (concat xs) (concat ys)))

-- A line of the line protocol: a newline at its end, and none before it.
abbrev pub IsLine : Text → Type 0
IsLine l = (t : Text) × (l ≡ t ++ b'\n' ∷ []) × All (λ c. (c == b'\n') ≡ false) t

-- The database, the network and the encoder, as the shipper relies on them: a body of whole lines is
-- stored if the database takes each of them, refused with 400 if it does not, or put off. `stored` is
-- what is durable, and `deferrals` bounds the 429s to come.
pub record Database : Type 1 where
  pub World : Type 0
  pub post : World → Text → Attempt × World
  pub encode : Text → Encoded
  pub bad : Text → Bool
  pub stored : World → Text
  pub deferrals : World → ℕ
  pub encodes : (body : Text) → (pay : Text) × (encode body ≡ bytes pay)
  pub answers :
      (w : World) (gzip : Bool) (lines : List Text) (pay : Text)
      → All IsLine lines
      → payload_of encode gzip (concat lines) ≡ bytes pay
      → (r : Response) × ((post w pay).0.wire ≡ response r)
        × (((r.status ≡ 204)
              × (any_bad bad lines ≡ false)
              × (stored (post w pay).1 ≡ stored w ++ concat lines)
              × (deferrals (post w pay).1 ≤ deferrals w))
            ⊎ ((r.status ≡ 400)
                × (any_bad bad lines ≡ true)
                × (stored (post w pay).1 ≡ stored w)
                × (deferrals (post w pay).1 ≤ deferrals w))
            ⊎ ((r.status ≡ 429)
                × (stored (post w pay).1 ≡ stored w)
                × (deferrals (post w pay).1 < deferrals w)))

module _ (d : Database) where
  open d use {World, post, encode, bad, stored, deferrals, encodes, answers}

  pub payload :
      (gzip : Bool) (body : Text) → (pay : Text) × (payload_of encode gzip body ≡ bytes pay)
  payload true body = encodes body
  payload false body = (body, refl)

  -- The three ways in which one chunk can fare.
  abbrev pub Fares : List Text → World → ShipResult × Shipper × World → Type 0
  Fares chunk w (out, s', w') =
      ((out ≡ ok)
        × (any_bad bad chunk ≡ false)
        × (stored w' ≡ stored w ++ concat chunk)
        × (deferrals w' ≤ deferrals w))
      ⊎ ((t : Text) × (out ≡ err (rejected t))
          × (any_bad bad chunk ≡ true)
          × (stored w' ≡ stored w)
          × (deferrals w' ≤ deferrals w))
      ⊎ ((n : ℕ) × (out ≡ err (backpressure n))
          × (stored w' ≡ stored w)
          × (deferrals w' < deferrals w))

  pub settle-204 :
      (body : Text) (a : Attempt) (s : Shipper) (r : Response)
      → a.wire ≡ response r
      → r.status ≡ 204
      → (settle body a s).0 ≡ ok
  unfolding settle
  settle-204 body a s r e h = ground arith

  settle-400 :
      (body : Text) (a : Attempt) (s : Shipper) (r : Response)
      → a.wire ≡ response r
      → r.status ≡ 400
      → (t : Text) × ((settle body a s).0 ≡ err (rejected t))
  unfolding settle
  settle-400 body a s r e h = (r.text, ground arith)

  settle-429 :
      (body : Text) (a : Attempt) (s : Shipper) (r : Response)
      → a.wire ≡ response r
      → r.status ≡ 429
      → (n : ℕ) × ((settle body a s).0 ≡ err (backpressure n))
  unfolding settle
  settle-429 body a s r e h = (retry_secs r.retry_after, ground arith)

  send-eq :
      (b : ℕ) (body pay : Text) (s : Shipper) (w : World)
      → payload_of encode s.gzip (b ∷ body) ≡ bytes pay
      → send post encode (b ∷ body) s w ≡ (
        (settle (b ∷ body) (post w pay).0 s).0,
        (settle (b ∷ body) (post w pay).0 s).1,
        (post w pay).1,
      )
  unfolding send
  send-eq b body pay s w e = rw (e, send)

  pub send-Fares :
      (chunk : List Text) (b : ℕ) (body : Text) (s : Shipper) (w : World)
      → All IsLine chunk
      → concat chunk ≡ b ∷ body
      → Fares chunk w (send post encode (concat chunk) s w)
  send-Fares chunk b body s w c e =
      let (pay, is_pay) = payload s.gzip (concat chunk) in
      let (r, wire, how) = answers w s.gzip chunk pay c is_pay in
      let a = (post w pay).0 in
      let sends = ap (λ c. send post encode c s w) e ∙ send-eq b body pay s w (rw (← e) is_pay) in
      rw sends (elim how [
        | inl (status, good, st, df) ↦ inl (settle-204 (b ∷ body) a s r wire status, good, st, df)
        | inr (inl (status, refused, st, df)) ↦
            let (t, out) = settle-400 (b ∷ body) a s r wire status in
            inr (inl (t, out, refused, st, df))
        | inr (inr (status, st, df)) ↦
            let (n, out) = settle-429 (b ∷ body) a s r wire status in inr (inr (n, out, st, df))
      ])
