-- ===== src/Config/Examples.antt =====
-- A configuration of two sources, one of which names the node.
use tributary.Prelude.{
  ◌≡◌, refl, true, false, [], ◌∷◌, Option, none, some, Text, codes, text_eq, All,
}
use tributary.Map.{json}
use tributary.Map.Trim.{trim}
use tributary.Stamp.{parse_resolution}
use tributary.Config.{
  Features, Source, Config, validate, first, each, check_metrics, check_otlp, check_path,
  check_many, check_names, check_tls, check_source, check_framing, check_resolution, check_filter,
  check_sample, check_redact, is_blank,
}
use tributary.Config.Read.{read, expand_sources, expand_tags}
use tributary.Config.Expand.{
  note, require, ok, err, unterminated, unset_variable, expand_env_into, expand_loop, find_ref,
  ref_at, split_at, note_unset, chain,
}
use tributary.Config.Start.{started, clean, read-started}
use tributary.Config.Loaded.{AreUnique, IsUsable, read_sound}

abbrev vars : Text → Option Text
vars var = elim (text_eq var (codes "NODE")) [ true ↦ some (codes "n1") | false ↦ none ]

test_expanded : expand_env_into require vars (codes "a-${NODE}-$b") [] ≡ ok (codes "a-n1-$b") []
unfolding expand_env_into expand_loop find_ref ref_at split_at note_unset
test_expanded = refl

test_noted :
    expand_env_into note vars (codes "${X}/${X}") [] ≡ ok (codes "${X}/${X}") (codes "X" ∷ [])
unfolding expand_env_into expand_loop find_ref ref_at split_at note_unset
test_noted = refl

test_unset : expand_env_into require vars (codes "${X}") [] ≡ err (unset_variable (codes "X"))
unfolding expand_env_into expand_loop find_ref ref_at split_at note_unset
test_unset = refl

test_unterminated : expand_env_into note vars (codes "${NODE") [] ≡ err unterminated
unfolding expand_env_into expand_loop find_ref ref_at split_at note_unset
test_unterminated = refl

abbrev source : Text → Text → Source
source name node = record {
  name = name;
  path = codes "/v/a.log";
  parser = json;
  resolution = codes "ms";
  tags_static = (codes "node", node) ∷ [];
  is_multiline = false;
  filter = [];
  sample = record { field = none; equals = none; rate = 2 } ∷ [];
  redact = record { field = codes "msg"; pattern = codes "x" } ∷ [];
}

abbrev config : Text → Config
config node = record {
  url = codes "https://db";
  tls = none;
  sources = source (codes "a") node ∷ source (codes "b") (codes "-") ∷ [];
  otlp = none;
  metrics = none;
}

abbrev built : Features
built = record { journald = false; winlog = false }

test_loads :
    started (read (λ p. true) built require vars (some (config (codes "${NODE}"))))
    ≡ some (config (codes "n1"))
unfolding read validate expand_sources expand_tags expand_env_into expand_loop find_ref ref_at
    split_at note_unset chain first each check_metrics check_otlp check_path check_many check_names
    check_tls check_source check_framing check_resolution check_filter check_sample check_redact
    is_blank trim parse_resolution
test_loads = refl

read-started_example :
    started (read (λ p. true) built require vars (some (config (codes "${NODE}"))))
    ≡ clean (read (λ p. true) built note vars (some (config (codes "${NODE}"))))
read-started_example = read-started vars (λ p. true) built (some (config (codes "${NODE}")))

read_sound_example :
    AreUnique (config (codes "n1")).sources
    × All (IsUsable (λ p. true)) (config (codes "n1")).sources
read_sound_example =
    read_sound (λ p. true) built require vars (some (config (codes "${NODE}")))
      (config (codes "n1")) test_loads
