-- ===== src/Transform/Decision.antt =====
-- `keeps` and `sample_keeps` of crates/tributary/src/transform.rs, and the hash.
use Prim.Native.Nat.{bit_xor}
use tributary.Prelude.{
  ℕ, ◌+◌, ◌-◌, ◌*◌, ◌/◌, ◌^◌, ◌%◌, ◌<◌, ◌≡◌, refl, sym, ap, ◌∙◌, Bool, true, false, not, ◌||◌, List,
  [], ◌∷◌, ◌++◌, append_assoc, Text, arith, All, if◌then◌else◌, ◌↔◌, ◌⊎◌, inl, inr, Bool-cases,
}
use tributary.Prelude.Int.{ℤ, pos, negsuc, rem_euclid}
use tributary.Lp.{Value, Record}
use tributary.Transform.{
  Filter, Sample, rule_matches, any_deny, has_allow, allowed, keeps, applies, record_hash,
  sample_keeps, feed, feed_bytes, feed_tags, feed_fields, fnv_byte, fnv_seed, to_le_bytes,
  low_bytes, value_text,
}

-- The published parameters of the 64-bit FNV-1a hash, which multiplies after the exclusive or.
abbrev pub offset_basis : ℕ
offset_basis = 14695981039346656037

abbrev prime : ℕ
prime = 2 ^ 40 + 2 ^ 8 + 179

abbrev pub fnv1a : Text → ℕ → ℕ
fnv1a [] h = h
fnv1a (b ∷ bs) h = fnv1a bs (prime * bit_xor h b % 2 ^ 64)

-- The bytes of a number below 2 ^ 64 and of an `i64` in two's complement, the lowest first.
abbrev bytes_of : ℕ → Text
bytes_of n =
    n % 256
    ∷ n / 2 ^ 8 % 256
    ∷ n / 2 ^ 16 % 256
    ∷ n / 2 ^ 24 % 256
    ∷ n / 2 ^ 32 % 256
    ∷ n / 2 ^ 40 % 256
    ∷ n / 2 ^ 48 % 256
    ∷ n / 2 ^ 56 % 256
    ∷ []

abbrev eight_bytes : ℤ → Text
eight_bytes (pos n) = bytes_of (n % 2 ^ 64)
eight_bytes (negsuc n) = bytes_of (2 ^ 64 - 1 - n % 2 ^ 64)

feed_bytes-fnv1a : (s : Text) (h : ℕ) → feed_bytes s h ≡ fnv1a s h
unfolding feed_bytes fnv_byte
feed_bytes-fnv1a [] h = refl
feed_bytes-fnv1a (b ∷ s) h =
    feed_bytes-fnv1a s (bit_xor h b * 0x100000001b3 % 2 ^ 64)
    ∙ ap (λ x. fnv1a s (x % 2 ^ 64)) (omega (arith, times (bit_xor h b)))
  where
    times : (x : ℕ) → x * 0x100000001b3 ≡ prime * x
    times x = omega arith

low_bytes-eq : (n : ℕ) → low_bytes 8 n ≡ bytes_of n
unfolding low_bytes
low_bytes-eq n =
    let two : n / 256 / 256 ≡ n / 2 ^ 16 = omega arith in
    let three : n / 2 ^ 16 / 256 ≡ n / 2 ^ 24 = omega arith in
    let four : n / 2 ^ 24 / 256 ≡ n / 2 ^ 32 = omega arith in
    let five : n / 2 ^ 32 / 256 ≡ n / 2 ^ 40 = omega arith in
    let six : n / 2 ^ 40 / 256 ≡ n / 2 ^ 48 = omega arith in
    let seven : n / 2 ^ 48 / 256 ≡ n / 2 ^ 56 = omega arith in
    rw (two, three, four, five, six, seven) refl

to_le_bytes-eq : (ts : ℤ) → to_le_bytes ts ≡ eight_bytes ts
unfolding to_le_bytes
to_le_bytes-eq (pos n) = unfold rem_euclid in low_bytes-eq (n % 2 ^ 64)
to_le_bytes-eq (negsuc n) = unfold rem_euclid in low_bytes-eq (2 ^ 64 - 1 - n % 2 ^ 64)

feed_bytes-append : (s t : Text) (h : ℕ) → feed_bytes (s ++ t) h ≡ feed_bytes t (feed_bytes s h)
unfolding feed_bytes
feed_bytes-append [] t h = refl
feed_bytes-append (b ∷ s) t h = feed_bytes-append s t (fnv_byte h b)

feed-cons : (s t : Text) (h : ℕ) → feed_bytes (s ++ 0 ∷ t) h ≡ feed_bytes t (feed s h)
unfolding feed
feed-cons s t h = feed_bytes-append s (0 ∷ t) h ∙ (unfold feed_bytes in refl)

feed_pair :
    (k v rest t : Text) (h : ℕ)
    → feed_bytes ((k ++ 0 ∷ (v ++ 0 ∷ rest)) ++ t) h ≡ feed_bytes (rest ++ t) (feed v (feed k h))
feed_pair k v rest t h =
    ap (λ x. feed_bytes x h) (append_assoc k (0 ∷ (v ++ 0 ∷ rest)) t)
    ∙ feed-cons k ((v ++ 0 ∷ rest) ++ t) h
    ∙ ap (λ x. feed_bytes x (feed k h)) (append_assoc v (0 ∷ rest) t)
    ∙ feed-cons v (rest ++ t) (feed k h)

decided :
    (deny allow fits : Bool)
    → ((if deny then false else not allow || fits) ≡ true)
      ↔ ((deny ≡ false) × ((allow ≡ false) ⊎ (fits ≡ true)))
decided true allow fits = (λ e. ground arith, λ h. ground (arith, h.0))
decided false true fits =
    (λ e. (refl, inr e), λ (h, k). elim k [ inl x ↦ ground (arith, x) | inr x ↦ x ])
decided false false fits = (λ e. (refl, inl refl), λ h. refl)

module _ (show_float : ℕ → Text) (r : Record) where
  -- No deny rule matches.
  abbrev pub Undenied : List Filter → Type 0
  Undenied filters = All (λ f. f.drop ≡ true → rule_matches show_float r f ≡ false) filters

  -- Some allow rule matches.
  abbrev pub Allowed : List Filter → Type 0
  Allowed [] = ⊥
  Allowed (f ∷ filters) =
      ((f.drop ≡ false) × (rule_matches show_float r f ≡ true)) ⊎ Allowed filters

  -- There are no allow rules.
  abbrev pub NoAllow : List Filter → Type 0
  NoAllow filters = All (λ f. f.drop ≡ true) filters

  any_deny-false :
      (filters : List Filter) → (any_deny show_float r filters ≡ false) ↔ Undenied filters
  unfolding any_deny
  any_deny-false [] = (λ e. tt, λ h. refl)
  any_deny-false (f ∷ filters) =
      let (there, back) = any_deny-false filters in
      (
        λ e. (λ d. ground (arith, e, d), there (ground (arith, e))),
        λ (h, t). ground (arith, h, back t),
      )

  has_allow-false : (filters : List Filter) → (has_allow filters ≡ false) ↔ NoAllow filters
  unfolding has_allow
  has_allow-false [] = (λ e. tt, λ h. refl)
  has_allow-false (f ∷ filters) =
      let (there, back) = has_allow-false filters in
      (λ e. (ground (arith, e), there (ground (arith, e))), λ (h, t). ground (arith, h, back t))

  allowed-true : (filters : List Filter) → (allowed show_float r filters ≡ true) ↔ Allowed filters
  unfolding allowed
  allowed-true [] = (λ e. ground arith, λ h. absurd h)
  allowed-true (f ∷ filters) =
      let (there, back) = allowed-true filters in
      (
        λ e. elim (Bool-cases f.drop) [
          | inl drops ↦ inr (there (ground (arith, e, drops)))
          | inr allows ↦ elim (Bool-cases (rule_matches show_float r f)) [
            | inl fits ↦ inl (allows, fits)
            | inr other ↦ inr (there (ground (arith, e, allows, other)))
          ]
        ],
        λ h. elim h [
          | inl (allows, fits) ↦ ground (arith, allows, fits)
          | inr rest ↦ ground (arith, back rest)
        ],
      )

  -- A record is kept exactly when no deny rule matches it, and there are no allow rules or one of them
  -- matches it.
  pub keeps_iff :
      (filters : List Filter)
      → (keeps show_float r filters ≡ true)
        ↔ (Undenied filters × (NoAllow filters ⊎ Allowed filters))
  unfolding keeps
  keeps_iff [] = (λ e. (tt, inl tt), λ h. refl)
  keeps_iff (f ∷ filters) =
      let (d, d') = any_deny-false (f ∷ filters) in
      let (n, n') = has_allow-false (f ∷ filters) in
      let (a, a') = allowed-true (f ∷ filters) in
      let (forth, back) =
        decided (any_deny show_float r (f ∷ filters)) (has_allow (f ∷ filters))
          (allowed show_float r (f ∷ filters)) in
      (
        λ e.
            let (no_deny, how) = forth e in
            (d no_deny, elim how [ inl none_allow ↦ inl (n none_allow) | inr one ↦ inr (a one) ]),
        λ (h, how). back (d' h, elim how [ inl x ↦ inl (n' x) | inr x ↦ inr (a' x) ]),
      )

  -- Every rule that applies and samples has the hash among the multiples of its rate.
  abbrev pub IsSampled : ℤ → Sample → Type 0
  IsSampled source_ts rule =
      applies show_float r rule.field rule.equals ≡ true
      → 1 < rule.rate
      → record_hash show_float r source_ts % rule.rate ≡ 0

  -- A record is kept exactly when, for every rule that applies to it and has a rate above one, its
  -- hash is a multiple of the rate.
  pub sample_keeps_iff :
      (source_ts : ℤ) (rules : List Sample)
      → (sample_keeps show_float r source_ts rules ≡ true) ↔ All (IsSampled source_ts) rules
  unfolding sample_keeps
  sample_keeps_iff source_ts [] = (λ e. tt, λ h. refl)
  sample_keeps_iff source_ts (rule ∷ rules) =
      let (there, back) = sample_keeps_iff source_ts rules in
      (
        λ e. (λ fits many. ground (arith, e, fits, many), there (ground (arith, e))),
        λ (h, t). ground (arith, h, back t),
      )

  -- The bytes that identify a record: each text ended by a zero, then the timestamp.
  abbrev tag_bytes : List (Text × Text) → Text
  tag_bytes [] = []
  tag_bytes ((k, v) ∷ tags) = k ++ 0 ∷ (v ++ 0 ∷ tag_bytes tags)

  abbrev field_bytes : List (Text × Value) → Text
  field_bytes [] = []
  field_bytes ((k, v) ∷ fields) = k ++ 0 ∷ (value_text show_float v ++ 0 ∷ field_bytes fields)

  abbrev pub identity : ℤ → Text
  identity source_ts = tag_bytes r.tags ++ (field_bytes r.fields ++ eight_bytes source_ts)

  feed_tags-eq :
      (tags : List (Text × Text)) (t : Text) (h : ℕ)
      → feed_bytes (tag_bytes tags ++ t) h ≡ feed_bytes t (feed_tags tags h)
  unfolding feed_tags
  feed_tags-eq [] t h = refl
  feed_tags-eq ((k, v) ∷ tags) t h =
      feed_pair k v (tag_bytes tags) t h ∙ feed_tags-eq tags t (feed v (feed k h))

  feed_fields-eq :
      (fields : List (Text × Value)) (t : Text) (h : ℕ)
      → feed_bytes (field_bytes fields ++ t) h ≡ feed_bytes t (feed_fields show_float fields h)
  unfolding feed_fields
  feed_fields-eq [] t h = refl
  feed_fields-eq ((k, v) ∷ fields) t h =
      feed_pair k (value_text show_float v) (field_bytes fields) t h
      ∙ feed_fields-eq fields t (feed (value_text show_float v) (feed k h))

  -- The hash of a record is the 64-bit FNV-1a hash of the bytes that identify it: the tags, the fields
  -- as texts, each text ended by a zero, and the eight bytes of the timestamp.
  pub record_hash-eq :
      (source_ts : ℤ) → record_hash show_float r source_ts ≡ fnv1a (identity source_ts) offset_basis
  unfolding record_hash
  record_hash-eq source_ts = sym (
      sym (feed_bytes-fnv1a (identity source_ts) offset_basis)
      ∙ feed_tags-eq r.tags (field_bytes r.fields ++ eight_bytes source_ts) fnv_seed
      ∙ feed_fields-eq r.fields (eight_bytes source_ts) (feed_tags r.tags fnv_seed)
      ∙ ap (λ s. feed_bytes s (feed_fields show_float r.fields (feed_tags r.tags fnv_seed)))
          (sym (to_le_bytes-eq source_ts)))
