-- ===== src/Lp/Escape.antt =====
-- `esc_key` and `esc_str` of crates/tributary/src/lp.rs, with readers of what they write.
use tributary.Prelude.{
  ℕ, ◌≤◌, ◌<◌, ◌≡◌, ◌≢◌, refl, Bool, true, ◌||◌, [], ◌∷◌, ◌++◌, append_assoc, Option, none, some,
  Text, arith, All, ltb, ◌==◌, if◌then◌else◌, ap, ◌∙◌, sym,
}
use tributary.Lp.{esc_key_byte, esc_key, esc_str_byte, esc_body}

-- A reader of a quoted string, after its opening quote: the text, and what follows the closing
-- quote. A backslash escapes a quote or a backslash, and stands for itself before anything else.
abbrev prepend : ℕ → Option (Text × Text) → Option (Text × Text)
prepend c none = none
prepend c (some (s, rest)) = some (c ∷ s, rest)

unfoldable pub read_quoted : Text → Option (Text × Text)
read_quoted [] = none
read_quoted (c ∷ []) = if c == 34 then some ([], []) else none
read_quoted (c ∷ d ∷ rest) =
    let plain = prepend c (read_quoted (d ∷ rest)) in
    let escaped = prepend d (read_quoted rest) in
    if c == 34
    then some ([], d ∷ rest)
    else if c == 92
    then (if (d == 34) || (d == 92) then escaped else plain)
    else plain

-- What the encoder means a string to be: newlines as `\n` in two characters, no carriage returns,
-- and spaces for the other control characters.
unfoldable pub shown_byte : ℕ → Text
shown_byte c =
    if c == 10
    then 92 ∷ b'n' ∷ []
    else if c == 13
    then []
    else if ltb c 0x20
    then b' ' ∷ []
    else c ∷ []

unfoldable pub shown : Text → Text
unfolding shown_byte
shown [] = []
shown (c ∷ s) = shown_byte c ++ shown s

-- What is written after an opening quote is never empty.
body_cons : (s rest : Text) → (b : ℕ) × (t : Text) × (esc_body s ++ 34 ∷ rest ≡ b ∷ t)
body_cons s rest = first (esc_body s)
  where
    first : (x : Text) → (b : ℕ) × (t : Text) × (x ++ 34 ∷ rest ≡ b ∷ t)
    first [] = (34, rest, refl)
    first (b ∷ t) = (b, t ++ 34 ∷ rest, refl)

read_plain :
    (c b : ℕ) (t : Text)
    → c ≢ 34
    → c ≢ 92
    → read_quoted (c ∷ b ∷ t) ≡ prepend c (read_quoted (b ∷ t))
unfolding read_quoted
read_plain c b t h k = ground arith

read_escaped :
    (d : ℕ) (t : Text)
    → ((d == 34) || (d == 92)) ≡ true
    → read_quoted (92 ∷ d ∷ t) ≡ prepend d (read_quoted t)
unfolding read_quoted
read_escaped d t h = ground arith

read_n :
    (b : ℕ) (t : Text)
    → read_quoted (92 ∷ b'n' ∷ b ∷ t) ≡ prepend 92 (prepend b'n' (read_quoted (b ∷ t)))
unfolding read_quoted
read_n b t = refl

abbrev prepend_all : Text → Option (Text × Text) → Option (Text × Text)
prepend_all [] o = o
prepend_all (c ∷ s) o = prepend c (prepend_all s o)

read_byte :
    (c b : ℕ) (t : Text)
    → read_quoted (esc_str_byte c ++ b ∷ t) ≡ prepend_all (shown_byte c) (read_quoted (b ∷ t))
unfolding esc_str_byte shown_byte
read_byte c b t =
    ground (arith, read_plain c b t, read_plain b' ' b t, read_escaped c (b ∷ t), read_n b t)

prepend_all-some : (xs s rest : Text) → prepend_all xs (some (s, rest)) ≡ some (xs ++ s, rest)
prepend_all-some [] s rest = refl
prepend_all-some (x ∷ xs) s rest = ap (prepend x) (prepend_all-some xs s rest)

-- A quoted field value, with whatever follows it in the line, is read back as the text that the
-- encoder means to show.
pub read_quoted-esc_body :
    (s rest : Text) → read_quoted (esc_body s ++ 34 ∷ rest) ≡ some (shown s, rest)
unfolding esc_body shown
read_quoted-esc_body [] [] = unfold read_quoted in refl
read_quoted-esc_body [] (r ∷ rest) = unfold read_quoted in refl
read_quoted-esc_body (c ∷ s) rest =
    let (b, t, e) = body_cons s rest in
    ap read_quoted
      (append_assoc (esc_str_byte c) (esc_body s) (34 ∷ rest) ∙ ap (λ x. esc_str_byte c ++ x) e)
    ∙ read_byte c b t
    ∙ ap (λ x. prepend_all (shown_byte c) (read_quoted x)) (sym e)
    ∙ ap (prepend_all (shown_byte c)) (read_quoted-esc_body s rest)
    ∙ prepend_all-some (shown_byte c) (shown s) rest

-- A reader of a key or a tag's value: up to a separator that no backslash precedes.
unfoldable pub is_separator : ℕ → Bool
is_separator c = (c == b',') || (c == b'=') || (c == b' ')

unfoldable pub read_key : Text → Text × Text
unfolding is_separator
read_key [] = ([], [])
read_key (c ∷ []) = if is_separator c then ([], c ∷ []) else (c ∷ [], [])
read_key (c ∷ d ∷ rest) =
    let plain = read_key (d ∷ rest) in
    let escaped = read_key rest in
    if is_separator c
    then ([], c ∷ d ∷ rest)
    else if (c == 92)
    then (if is_separator d then (d ∷ escaped.0, escaped.1) else (c ∷ plain.0, plain.1))
    else (c ∷ plain.0, plain.1)

-- A byte that is no backslash and no control character.
abbrev pub IsPlain : ℕ → Type 0
IsPlain c = (c ≢ 92) × (0x20 ≤ c)

stop_cons : (x rest : Text) (stop : ℕ) → (b : ℕ) × (t : Text) × (x ++ stop ∷ rest ≡ b ∷ t)
stop_cons [] rest stop = (stop, rest, refl)
stop_cons (b ∷ x) rest stop = (b, x ++ stop ∷ rest, refl)

read_key_byte :
    (c b : ℕ) (t : Text)
    → IsPlain c
    → read_key (esc_key_byte c ++ b ∷ t) ≡ (c ∷ (read_key (b ∷ t)).0, (read_key (b ∷ t)).1)
unfolding esc_key_byte read_key
read_key_byte c b t h = ground arith

-- A key, a tag's value or a measurement's name of plain bytes, with a separator behind it, is read
-- back as it was, and the separator is still there.
read_key-esc_key :
    (s rest : Text) (stop : ℕ)
    → All IsPlain s
    → is_separator stop ≡ true
    → read_key (esc_key s ++ stop ∷ rest) ≡ (s, stop ∷ rest)
unfolding esc_key
read_key-esc_key [] [] stop h e = unfold read_key in ground arith
read_key-esc_key [] (r ∷ rest) stop h e = unfold read_key in ground arith
read_key-esc_key (c ∷ s) rest stop h e =
    let (b, t, cons) = stop_cons (esc_key s) rest stop in
    let later = read_key-esc_key s rest stop h.1 e in
    ap read_key
      (append_assoc (esc_key_byte c) (esc_key s) (stop ∷ rest) ∙ ap (λ x. esc_key_byte c ++ x) cons)
    ∙ read_key_byte c b t h.0
    ∙ ap (λ x. (c ∷ (read_key x).0, (read_key x).1)) (sym cons)
    ∙ ap (λ (p : Text × Text). (c ∷ p.0, p.1)) later

esc_key-append : (s t : Text) → esc_key (s ++ t) ≡ esc_key s ++ esc_key t
unfolding esc_key
esc_key-append [] t = refl
esc_key-append (c ∷ s) t =
    ap (λ x. esc_key_byte c ++ x) (esc_key-append s t)
    ∙ sym (append_assoc (esc_key_byte c) (esc_key s) (esc_key t))

swallowed :
    (stop : ℕ) (rest : Text)
    → is_separator stop ≡ true
    → esc_key (92 ∷ []) ++ stop ∷ rest ≡ esc_key (stop ∷ []) ++ rest
unfolding esc_key is_separator
swallowed stop rest e = ground arith

-- A text that ends in a backslash swallows the separator behind it: what is written is what a text
-- that ends in that separator is written as, whatever follows.
pub esc_key-backslash :
    (s rest : Text) (stop : ℕ)
    → is_separator stop ≡ true
    → esc_key (s ++ 92 ∷ []) ++ stop ∷ rest ≡ esc_key (s ++ stop ∷ []) ++ rest
esc_key-backslash s rest stop e =
    rw
      (
        esc_key-append s (92 ∷ []),
        esc_key-append s (stop ∷ []),
        append_assoc (esc_key s) (esc_key (92 ∷ [])) (stop ∷ rest),
        append_assoc (esc_key s) (esc_key (stop ∷ [])) rest,
      )
      (ap (λ x. esc_key s ++ x) (swallowed stop rest e))

control_space : (c : ℕ) (t : Text) → c < 0x20 → esc_key (c ∷ t) ≡ b' ' ∷ esc_key t
unfolding esc_key
control_space c t h = ground arith

-- A control character in a key, such as a newline, is written as a space that nothing escapes: a
-- reader ends the key there and takes the rest for the next part of the line.
pub read_key-control :
    (s t rest : Text) (c : ℕ)
    → All IsPlain s
    → c < 0x20
    → read_key (esc_key (s ++ c ∷ t) ++ rest) ≡ (s, b' ' ∷ (esc_key t ++ rest))
read_key-control s t rest c h k =
    rw
      (
        esc_key-append s (c ∷ t),
        control_space c t k,
        append_assoc (esc_key s) (b' ' ∷ esc_key t) rest,
      )
      (read_key-esc_key s (esc_key t ++ rest) b' ' h (unfold is_separator in refl))
