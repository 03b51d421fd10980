-- ===== src/Config/Loaded.antt =====
-- What the checks of crates/tributary/src/config.rs give the code behind them.
use mathlib.Core.Bool.{false≢true}
use mathlib.Core.Option.{some-ne-none, some-injective}
use tributary.Prelude.{
  ◌<◌, ◌≡◌, ◌∙◌, ◌≢◌, refl, sym, ap, subst, Bool, true, false, not, List, [], ◌∷◌, Option, none,
  some, Text, arith, ltb, ◌==◌, if◌then◌else◌, length, All, text_eq, text_eq_iff, Bool-cases, inl,
  inr,
}
use tributary.Reload.SourceSet.{has}
use tributary.Stamp.{parse_resolution}
use tributary.Config.{
  Features, Config, Source, Redact, first, each, bail_if, check_resolution, check_sample,
  check_both, check_redact, check_source, check_names, check_alone, check_many, validate,
  check_work, check_framing, check_filter, check_metrics, check_otlp, check_path, check_tls,
  is_blank,
}
use tributary.Config.Read.{expand_sources, accept, read}
use tributary.Transform.{Sample}
use tributary.Config.Expand.{Env, ConfigError, Loading, ok, err, chain}
use tributary.Config.Start.{started}

first-none : (a b : Option ConfigError) → first a b ≡ none → (a ≡ none) × (b ≡ none)
unfolding first
first-none none b h = (refl, h)
first-none (some e) b h = absurd (some-ne-none e h)

each-All {ℓ κ} :
    {A : Type ℓ} (f : A → Option ConfigError) (P : A → Type κ)
    → ((x : A) → f x ≡ none → P x)
    → (xs : List A) → each f xs ≡ none
    → All P xs
unfolding each
each-All f P g [] h = tt
each-All f P g (x ∷ xs) h =
    let both = first-none (f x) (each f xs) h in (g x both.0, each-All f P g xs both.1)

bail_if-none : (b : Bool) (e : ConfigError) → bail_if b e ≡ none → b ≡ false
bail_if-none true e h = absurd (some-ne-none e h)
bail_if-none false e h = refl

if-none :
    (b : Bool) (e : ConfigError) (o : Option ConfigError)
    → (if b then some e else o) ≡ none
    → (b ≡ false) × (o ≡ none)
if-none true e o h = absurd (some-ne-none e h)
if-none false e o h = (refl, h)

-- No name is that of a later source.
abbrev pub AreUnique : List Source → Type 0
AreUnique [] = Unit
AreUnique (s ∷ ss) = All (λ t. text_eq s.name t.name ≡ false) ss × AreUnique ss

check_names-cons :
    (seen : List Text) (s : Source) (ss : List Source)
    → check_names seen (s ∷ ss) ≡ none
    → (has s.name seen ≡ false) × (check_names (s.name ∷ seen) ss ≡ none)
unfolding check_names
check_names-cons seen s ss h =
    if-none (has s.name seen) ConfigError.shared_name (check_names (s.name ∷ seen) ss) h

check_names-unseen :
    (x : Text) (seen : List Text) (ss : List Source)
    → check_names seen ss ≡ none
    → has x seen ≡ true
    → All (λ t. text_eq x t.name ≡ false) ss
check_names-unseen x seen [] h k = tt
check_names-unseen x seen (s ∷ ss) h k =
    let (new, rest) = check_names-cons seen s ss h in
    (
      elim (Bool-cases (text_eq x s.name)) [
        | inl t ↦
            absurd
              (false≢true (sym new ∙ ap (λ y. has y seen) (sym ((text_eq_iff x s.name).0 t)) ∙ k))
        | inr e ↦ e
      ],
      check_names-unseen x (s.name ∷ seen) ss rest (ground (arith, k)),
    )

check_names-AreUnique :
    (seen : List Text) (ss : List Source) → check_names seen ss ≡ none → AreUnique ss
check_names-AreUnique seen [] h = tt
check_names-AreUnique seen (s ∷ ss) h =
    let (new, rest) = check_names-cons seen s ss h in
    (
      check_names-unseen s.name (s.name ∷ seen) ss rest
          (ground (arith, (text_eq_iff s.name s.name).1 refl)),
      check_names-AreUnique (s.name ∷ seen) ss rest,
    )

check_many-AreUnique : (ss : List Source) → check_many ss ≡ none → AreUnique ss
unfolding check_many
check_many-AreUnique [] h = tt
check_many-AreUnique (s ∷ []) h = (tt, tt)
check_many-AreUnique (s ∷ t ∷ ss) h =
    let many : ltb 1 (length (s ∷ t ∷ ss)) ≡ true = ground arith in
    let h' : first (each check_alone (s ∷ t ∷ ss)) (check_names [] (s ∷ t ∷ ss)) ≡ none =
      sym (rw many refl) ∙ h in
    check_names-AreUnique [] (s ∷ t ∷ ss)
      (first-none (each check_alone (s ∷ t ∷ ss)) (check_names [] (s ∷ t ∷ ss)) h').1

check_resolution-some : (r : Text) → check_resolution r ≡ none → parse_resolution r ≢ none
unfolding check_resolution
check_resolution-some r h e =
    some-ne-none ConfigError.bad_resolution (sym (rw (check_resolution, e) refl) ∙ h)

check_sample-rate : (s : Sample) → check_sample s ≡ none → 0 < s.rate
unfolding check_sample
check_sample-rate s h =
    let e =
      bail_if-none (s.rate == 0) ConfigError.zero_rate
        (first-none (bail_if (s.rate == 0) ConfigError.zero_rate) (check_both s.field s.equals)
          h).0 in
    ground (arith, e)

-- What the code behind a source relies on: the resolution is one, which the source unwraps; no rate is
-- 0, by which it divides; and the regex of every redaction compiles.
abbrev pub IsUsable : (Text → Bool) → Source → Type 0
IsUsable compiles s =
    (parse_resolution s.resolution ≢ none)
    × All (λ r. 0 < r.rate) s.sample
    × All (λ r. compiles r.pattern ≡ true) s.redact

module _ (compiles : Text → Bool) where
  check_redact-compiles : (r : Redact) → check_redact compiles r ≡ none → compiles r.pattern ≡ true
  unfolding check_redact
  check_redact-compiles r h = elim (Bool-cases (compiles r.pattern)) [
    | inl t ↦ t
    | inr e ↦
        let ok_pattern : not (compiles r.pattern) ≡ false =
          bail_if-none (not (compiles r.pattern)) ConfigError.bad_pattern
            (first-none (bail_if (is_blank r.field) ConfigError.empty_redact)
              (bail_if (not (compiles r.pattern)) ConfigError.bad_pattern) h).1 in
        absurd (false≢true (sym ok_pattern ∙ ap not e))
  ]

  check_source-IsUsable : (s : Source) → check_source compiles s ≡ none → IsUsable compiles s
  unfolding check_source
  check_source-IsUsable s h =
      let a = first-none (check_framing s) _ h in
      let b = first-none (check_resolution s.resolution) _ a.1 in
      let c = first-none (each check_filter s.filter) _ b.1 in
      let d = first-none (each check_sample s.sample) _ c.1 in
      (
        check_resolution-some s.resolution b.0,
        each-All check_sample (λ r. 0 < r.rate) check_sample-rate s.sample d.0,
        each-All (check_redact compiles) (λ r. compiles r.pattern ≡ true) check_redact-compiles
            s.redact d.1,
      )

  validate_sound :
      (built : Features) (c : Config)
      → validate compiles built c ≡ none
      → AreUnique c.sources × All (IsUsable compiles) c.sources
  unfolding validate
  validate_sound built c h =
      let paths = first-none (check_work compiles c) _ h in
      let a = first-none (check_metrics c.metrics) _ paths.1 in
      let b = first-none (check_otlp c.otlp) _ a.1 in
      let d = first-none (each (check_path built) c.sources) _ b.1 in
      let many = first-none (check_many c.sources) _ d.1 in
      (
        check_many-AreUnique c.sources many.0,
        each-All (check_source compiles) (IsUsable compiles) check_source-IsUsable c.sources
            (first-none (check_tls c.url c.tls) _ many.1).1,
      )

  accept-none :
      (o : Option ConfigError) (c d : Config) (u : List Text)
      → started (accept o c u) ≡ some d
      → (o ≡ none) × (c ≡ d)
  accept-none none c d u h = (refl, some-injective c d h)
  accept-none (some e) c d u h = absurd (some-ne-none d (sym h))

  accepted_sound :
      (built : Features) (c d : Config) (x : Loading (List Source))
      → started (
          chain x (λ ss u.
            accept
              (validate compiles built (record c { sources = ss }))
              (record c { sources = ss })
              u))
        ≡ some d
      → AreUnique d.sources × All (IsUsable compiles) d.sources
  unfolding chain
  accepted_sound built c d (err e) h = absurd (some-ne-none d (sym h))
  accepted_sound built c d (ok ss u) h =
      let e = record c { sources = ss } in
      let (valid, same) = accept-none (validate compiles built e) e d u h in
      subst (λ x. AreUnique x.sources × All (IsUsable compiles) x.sources) same
        (validate_sound built e valid)

  -- In every configuration that loads, whatever the environment: no two sources have the same name, and
  -- in each source the resolution is one of those that are known, no sample has the rate 0, and every
  -- redaction compiles.
  pub read_sound :
      (built : Features) (env : Env) (vars : Text → Option Text) (file : Option Config) (c : Config)
      → started (read compiles built env vars file) ≡ some c
      → AreUnique c.sources × All (IsUsable compiles) c.sources
  unfolding read
  read_sound built env vars none c h = absurd (some-ne-none c (sym h))
  read_sound built env vars (some f) c h =
      accepted_sound built f c (expand_sources env vars f.sources []) h
