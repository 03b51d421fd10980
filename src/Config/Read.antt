-- ===== src/Config/Read.antt =====
-- `Config::read` of crates/tributary/src/config.rs: the tags expanded, then every check.
use tributary.Prelude.{Bool, List, [], ◌∷◌, Option, none, some, Text}
use tributary.Config.{Source, Config, Features, validate}
use tributary.Config.Expand.{Env, Loading, ok, err, chain, ConfigError, expand_env_into}

-- The tag values of a source, which may refer to the environment, and then those of the others.
module _ (env : Env) (vars : Text → Option Text) where
  unfoldable pub expand_tags : List (Text × Text) → List Text → Loading (List (Text × Text))
  unfolding expand_env_into chain
  expand_tags [] unset = ok [] unset
  expand_tags ((k, v) ∷ tags) unset =
      chain (expand_env_into env vars v unset)
        (λ w u. chain (expand_tags tags u) (λ ts z. ok ((k, w) ∷ ts) z))

  unfoldable pub expand_sources : List Source → List Text → Loading (List Source)
  unfolding expand_tags chain
  expand_sources [] unset = ok [] unset
  expand_sources (s ∷ ss) unset =
      chain (expand_tags s.tags_static unset) (λ ts u.
        chain (expand_sources ss u) (λ rest z. ok (record s { tags_static = ts } ∷ rest) z))

abbrev pub accept : Option ConfigError → Config → List Text → Loading Config
accept none c unset = ok c unset
accept (some e) c unset = err e

-- With the parsed file, or none if it cannot be read or parsed.
unfoldable pub read :
    (Text → Bool) → Features → Env → (Text → Option Text) → Option Config → Loading Config
unfolding expand_sources validate chain
read compiles built env vars none = err ConfigError.unread
read compiles built env vars (some c) =
    chain (expand_sources env vars c.sources [])
      (λ ss u. let d = record c { sources = ss } in accept (validate compiles built d) d u)
