-- ===== src/Cri/Parse.antt =====
-- The parsing of a line in crates/tributary/src/cri.rs.
use tributary.Prelude.{
  ℕ, ◌≡◌, ◌≢◌, refl, ap, ◌∙◌, Bool, true, false, [], ◌∷◌, ◌++◌, some, Text, codes, arith, All, ◌⊎◌,
  inl, inr,
}
use tributary.Cri.{fragment, parse, parse_time, parse_stream, parse_tag, split_space, checked}

abbrev pub IsField : Text → Type 0
IsField s = All (λ c. c ≢ b' ') s

abbrev pub tag_of : Bool → Text
tag_of true = codes "P"
tag_of false = codes "F"

split_space-field : (s rest : Text) → IsField s → split_space (s ++ b' ' ∷ rest) ≡ (s, some rest)
unfolding split_space
split_space-field [] rest h = refl
split_space-field (c ∷ s) rest h = rw (split_space-field s rest h.1) (ground (arith, h.0))

tag_of-IsField : (b : Bool) → IsField (tag_of b)
tag_of-IsField true = ((λ e. omega (arith, e)), tt)
tag_of-IsField false = ((λ e. omega (arith, e)), tt)

checked-known :
    (time stream msg : Text) (b : Bool)
    → (stream ≡ codes "stdout") ⊎ (stream ≡ codes "stderr")
    → checked time stream (tag_of b) msg
      ≡ fragment (record { time = time; stream = stream; partial = b; msg = msg })
unfolding checked
checked-known time stream msg true (inl e) = rw e refl
checked-known time stream msg false (inl e) = rw e refl
checked-known time stream msg true (inr e) = rw e refl
checked-known time stream msg false (inr e) = rw e refl

known-IsField :
    (stream : Text) → (stream ≡ codes "stdout") ⊎ (stream ≡ codes "stderr") → IsField stream
known-IsField stream (inl e) = rw e (
  (λ x. omega (arith, x)),
  (
    (λ x. omega (arith, x)),
    (
      (λ x. omega (arith, x)),
      ((λ x. omega (arith, x)), ((λ x. omega (arith, x)), ((λ x. omega (arith, x)), tt))),
    ),
  ),
)
known-IsField stream (inr e) = rw e (
  (λ x. omega (arith, x)),
  (
    (λ x. omega (arith, x)),
    (
      (λ x. omega (arith, x)),
      ((λ x. omega (arith, x)), ((λ x. omega (arith, x)), ((λ x. omega (arith, x)), tt))),
    ),
  ),
)

-- A line of a time without spaces, a known stream, a tag and any message, spaces included, is parsed
-- to just these.
pub parse-line :
    (c : ℕ) (time stream msg : Text) (b : Bool)
    → IsField (c ∷ time)
    → (stream ≡ codes "stdout") ⊎ (stream ≡ codes "stderr")
    → parse ((c ∷ time) ++ b' ' ∷ (stream ++ b' ' ∷ (tag_of b ++ b' ' ∷ msg)))
      ≡ fragment (record { time = c ∷ time; stream = stream; partial = b; msg = msg })
unfolding parse parse_time parse_stream parse_tag
parse-line c time stream msg b h known =
    ap parse_time (split_space-field (c ∷ time) (stream ++ b' ' ∷ (tag_of b ++ b' ' ∷ msg)) h)
    ∙ ap (parse_stream (c ∷ time))
        (split_space-field stream (tag_of b ++ b' ' ∷ msg) (known-IsField stream known))
    ∙ ap (parse_tag (c ∷ time) stream) (split_space-field (tag_of b) msg (tag_of-IsField b))
    ∙ checked-known (c ∷ time) stream msg b known
