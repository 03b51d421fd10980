-- ===== src/Config/Start.antt =====
-- Loading for a start against loading for a check (`Config::load` and `Config::check` of
-- crates/tributary/src/config.rs).
use mathlib.Core.Option.{some-ne-none, some-injective}
use tributary.Prelude.{
  ℕ, zero, suc, ◌≡◌, ◌∙◌, refl, sym, ap, Bool, List, [], ◌∷◌, ◌++◌, Option, none, some, Text, codes,
  length, Option-cases, Bool-cases, inl, inr,
}
use tributary.Reload.SourceSet.{has}
use tributary.Config.{Features, Config, Source, validate}
use tributary.Config.Read.{expand_tags, expand_sources, accept, read}
use tributary.Config.Expand.{
  Env, note, require, ConfigError, Loading, ok, err, chain, split_at, find_ref, note_unset, prepend,
  expand_loop, expand_env_into,
}

-- What is started with, and what a check accepts without a variable that is missing here.
abbrev pub started {ℓ} : {A : Type ℓ} → Loading A → Option A
started (ok a unset) = some a
started (err e) = none

abbrev pub clean {ℓ} : {A : Type ℓ} → Loading A → Option A
clean (ok a []) = some a
clean (ok a (var ∷ vars)) = none
clean (err e) = none

-- A step for a start and one for a check come to the same, and a missing variable stays one.
abbrev Agrees {ℓ} : {A : Type ℓ} → (List Text → Loading A) → (List Text → Loading A) → Type ℓ
Agrees req chk =
    ((u : List Text) → started (req u) ≡ clean (chk []))
    × ((x : Text) (u : List Text) → clean (chk (x ∷ u)) ≡ none)

module _ {ℓ κ} {A : Type ℓ} {B : Type κ} (f g : A → List Text → Loading B)
    (agree : (a : A) → Agrees (f a) (g a)) where
  chain-started : (x y : Loading A) → started x ≡ clean y → started (chain x f) ≡ clean (chain y g)
  unfolding chain
  chain-started (ok a u) (ok b []) h =
      (agree a).0 u ∙ ap (λ x. clean (g x [])) (some-injective a b h)
  chain-started (ok a u) (ok b (z ∷ zs)) h = absurd (some-ne-none a h)
  chain-started (ok a u) (err e) h = absurd (some-ne-none a h)
  chain-started (err e) (ok b []) h = absurd (some-ne-none b (sym h))
  chain-started (err e) (ok b (z ∷ zs)) h = sym ((agree b).1 z zs)
  chain-started (err e) (err d) h = refl

  chain-clean : (y : Loading A) → clean y ≡ none → clean (chain y g) ≡ none
  unfolding chain
  chain-clean (ok b []) h = absurd (some-ne-none b h)
  chain-clean (ok b (z ∷ zs)) h = (agree b).1 z zs
  chain-clean (err e) h = refl

  chain-Agrees :
      (req chk : List Text → Loading A)
      → Agrees req chk
      → Agrees (λ u. chain (req u) f) (λ u. chain (chk u) g)
  chain-Agrees req chk h =
      (λ u. chain-started (req u) (chk []) (h.0 u), λ x u. chain-clean (chk (x ∷ u)) (h.1 x u))

ok-Agrees : {A : Type 0} (a : A) → Agrees (ok a) (ok a)
ok-Agrees a = (λ u. refl, λ x u. refl)

accept-Agrees : (o : Option ConfigError) (c : Config) → Agrees (accept o c) (accept o c)
accept-Agrees none c = (λ u. refl, λ x u. refl)
accept-Agrees (some e) c = (λ u. refl, λ x u. refl)

prepend-started :
    (b : Text) (x y : Loading Text)
    → started x ≡ clean y
    → started (prepend b x) ≡ clean (prepend b y)
prepend-started b (ok a u) (ok c []) h = ap (λ t. some (b ++ t)) (some-injective a c h)
prepend-started b (ok a u) (ok c (z ∷ zs)) h = absurd (some-ne-none a h)
prepend-started b (ok a u) (err e) h = absurd (some-ne-none a h)
prepend-started b (err e) (ok c []) h = absurd (some-ne-none c (sym h))
prepend-started b (err e) (ok c (z ∷ zs)) h = refl
prepend-started b (err e) (err d) h = refl

prepend-clean : (b : Text) (y : Loading Text) → clean y ≡ none → clean (prepend b y) ≡ none
prepend-clean b (ok c []) h = absurd (some-ne-none c h)
prepend-clean b (ok c (z ∷ zs)) h = refl
prepend-clean b (err e) h = refl

note_unset-cons :
    (var x : Text) (u : List Text) → (y : Text) × (v : List Text) × (note_unset var (x ∷ u) ≡ y ∷ v)
unfolding note_unset
note_unset-cons var x u = elim (Bool-cases (has var (x ∷ u))) [
  | inl t ↦ (x, u, rw t refl)
  | inr e ↦ (x, u ++ var ∷ [], rw e refl)
]

module _ (vars : Text → Option Text) where
  loop-clean :
      (n : ℕ) (s x : Text) (u : List Text) → clean (expand_loop note vars n s (x ∷ u)) ≡ none
  unfolding expand_loop
  loop-clean zero s x u = refl
  loop-clean (suc n) s x u = elim (Option-cases (find_ref s)) [
    | inl e ↦ rw (expand_loop, e) refl
    | inr ((before, after), e) ↦ elim (Option-cases (split_at b'}' after)) [
      | inl d ↦ rw (expand_loop, e, d) refl
      | inr ((var, rest), d) ↦ elim (Option-cases (vars var)) [
        | inl m ↦
            let (y, v, is) = note_unset-cons var x u in
            rw (expand_loop, e, d, m, is)
              (prepend-clean (before ++ codes "${" ++ var ++ codes "}") _ (loop-clean n rest y v))
        | inr (val, m) ↦
            rw (expand_loop, e, d, m) (prepend-clean (before ++ val) _ (loop-clean n rest x u))
      ]
    ]
  ]

  loop-started :
      (n : ℕ) (s : Text) (u : List Text)
      → started (expand_loop require vars n s u) ≡ clean (expand_loop note vars n s [])
  unfolding expand_loop
  loop-started zero s u = refl
  loop-started (suc n) s u = elim (Option-cases (find_ref s)) [
    | inl e ↦ rw (expand_loop, e) refl
    | inr ((before, after), e) ↦ elim (Option-cases (split_at b'}' after)) [
      | inl d ↦ rw (expand_loop, e, d) refl
      | inr ((var, rest), d) ↦ elim (Option-cases (vars var)) [
        | inl m ↦
            rw (expand_loop, e, d, m)
              (sym (
                prepend-clean (before ++ codes "${" ++ var ++ codes "}") _
                  (loop-clean n rest var [])))
        | inr (val, m) ↦
            rw (expand_loop, e, d, m) (prepend-started (before ++ val) _ _ (loop-started n rest u))
      ]
    ]
  ]

  env-Agrees : (s : Text) → Agrees (expand_env_into require vars s) (expand_env_into note vars s)
  unfolding expand_env_into
  env-Agrees s = (λ u. loop-started (suc (length s)) s u, λ x u. loop-clean (suc (length s)) s x u)

  tags-Agrees :
      (tags : List (Text × Text))
      → Agrees (expand_tags require vars tags) (expand_tags note vars tags)
  unfolding expand_tags
  tags-Agrees [] = ok-Agrees []
  tags-Agrees ((k, v) ∷ tags) =
      let with_tags : Env → Text → List Text → Loading (List (Text × Text)) =
        λ env w u. chain (expand_tags env vars tags u) (λ ts. ok ((k, w) ∷ ts)) in
      chain-Agrees (with_tags require) (with_tags note)
        (λ w.
          chain-Agrees (λ ts. ok ((k, w) ∷ ts)) (λ ts. ok ((k, w) ∷ ts))
            (λ ts. ok-Agrees ((k, w) ∷ ts)) (expand_tags require vars tags)
            (expand_tags note vars tags) (tags-Agrees tags))
        (expand_env_into require vars v) (expand_env_into note vars v) (env-Agrees v)

  sources-Agrees :
      (ss : List Source) → Agrees (expand_sources require vars ss) (expand_sources note vars ss)
  unfolding expand_sources
  sources-Agrees [] = ok-Agrees []
  sources-Agrees (s ∷ ss) =
      let put : List (Text × Text) → Source = λ ts. record s { tags_static = ts } in
      let with_sources : Env → List (Text × Text) → List Text → Loading (List Source) =
        λ env ts u. chain (expand_sources env vars ss u) (λ rest. ok (put ts ∷ rest)) in
      chain-Agrees (with_sources require) (with_sources note)
        (λ ts.
          chain-Agrees (λ rest. ok (put ts ∷ rest)) (λ rest. ok (put ts ∷ rest))
            (λ rest. ok-Agrees (put ts ∷ rest)) (expand_sources require vars ss)
            (expand_sources note vars ss) (sources-Agrees ss))
        (expand_tags require vars s.tags_static) (expand_tags note vars s.tags_static)
        (tags-Agrees s.tags_static)

  -- What the agent starts with is what a check accepts without naming a missing variable: a
  -- configuration that is checked so loads, with the same values, and one that loads is checked so.
  pub read-started :
      (compiles : Text → Bool) (built : Features) (file : Option Config)
      → started (read compiles built require vars file) ≡ clean (read compiles built note vars file)
  unfolding read
  read-started compiles built none = refl
  read-started compiles built (some c) =
      let accepted : List Source → List Text → Loading Config =
        λ ss u. let d = record c { sources = ss } in accept (validate compiles built d) d u in
      (chain-Agrees accepted accepted
          (λ ss.
            accept-Agrees (validate compiles built (record c { sources = ss }))
              (record c { sources = ss }))
          (expand_sources require vars c.sources) (expand_sources note vars c.sources)
          (sources-Agrees c.sources)).0
        []
