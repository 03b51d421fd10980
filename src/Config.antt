-- ===== src/Config.antt =====
-- crates/tributary/src/config.rs: what is checked when a configuration is loaded. The TOML
-- library gives the parsed file; the environment, and whether a regex compiles, are arguments, and so is
-- which optional readers the binary was built with.
pub mod Expand
pub mod Ends
pub mod Read
pub mod Start
pub mod Loaded
mod Examples
use tributary.Prelude.{
  ◌+◌, Bool, true, false, not, ◌&&◌, ◌||◌, List, [], ◌∷◌, map, Option, none, some, Text, codes, ltb,
  leb, ◌==◌, if◌then◌else◌, length, strip_prefix,
}
use tributary.Logfile.Limits.{parse_duration}
use tributary.Map.{Parser, docker_json, cri, journald, winlog}
use tributary.Map.Trim.{trim}
use tributary.Reload.SourceSet.{has}
use tributary.Stamp.{parse_resolution}
use tributary.Transform.{Filter, Sample}
use tributary.Config.Expand.{ConfigError}

pub record Redact : Type 0 where
  pub field : Text
  pub pattern : Text

pub record Source : Type 0 where
  pub name : Text
  pub path : Text
  pub parser : Parser
  pub resolution : Text
  pub tags_static : List (Text × Text)
  pub is_multiline : Bool
  pub filter : List Filter
  pub sample : List Sample
  pub redact : List Redact

pub record Tls : Type 0 where
  pub cert_file : Option Text
  pub key_file : Option Text

pub record Exec : Type 0 where
  pub command : List Text
  pub interval : Option Text
  pub timeout : Option Text
  pub data_format : Option Text

pub record Metrics : Type 0 where
  pub interval : Text
  pub collectors : List Text
  pub exec : List Exec

pub record Otlp : Type 0 where
  pub listen : Text
  pub table : Text
  pub name : Text

pub record Config : Type 0 where
  pub url : Text
  pub tls : Option Tls
  pub sources : List Source
  pub otlp : Option Otlp
  pub metrics : Option Metrics

-- Which readers the binary has.
pub record Features : Type 0 where
  pub journald : Bool
  pub winlog : Bool

-- An early return, or what comes after it.
unfoldable pub first : Option ConfigError → Option ConfigError → Option ConfigError
first (some e) rest = some e
first none rest = rest

unfoldable pub each {ℓ} : {A : Type ℓ} → (A → Option ConfigError) → List A → Option ConfigError
unfolding first
each f [] = none
each f (x ∷ xs) = first (f x) (each f xs)

abbrev pub bail_if : Bool → ConfigError → Option ConfigError
bail_if b e = if b then some e else none

abbrev is_empty : Text → Bool
is_empty [] = true
is_empty (c ∷ s) = false

unfoldable pub is_blank : Text → Bool
unfolding trim
is_blank s = is_empty (trim s)

abbrev known_collectors : List Text
known_collectors =
    codes "cpu"
    ∷ codes "mem"
    ∷ codes "disk"
    ∷ codes "diskio"
    ∷ codes "net"
    ∷ codes "system"
    ∷ codes "swap"
    ∷ []

-- A duration that may be left out.
abbrev check_duration : ConfigError → Option Text → Option ConfigError
unfolding parse_duration
check_duration e none = none
check_duration e (some s) = elim (parse_duration s) [ none ↦ some e | some d ↦ none ]

abbrev lower : Text → Text
lower s = map (λ c. if leb 65 c && leb c 90 then c + 32 else c) s

abbrev check_format : Option Text → Option ConfigError
check_format none = none
check_format (some f) =
    bail_if (not (has (lower f) (codes "influx" ∷ codes "lp" ∷ codes "line-protocol" ∷ [])))
      ConfigError.bad_format

abbrev check_command : List Text → Option ConfigError
unfolding is_blank
check_command [] = some ConfigError.empty_command
check_command (c ∷ cs) = bail_if (is_blank c) ConfigError.empty_command

abbrev check_exec : Exec → Option ConfigError
unfolding first check_duration check_command
check_exec e = first (check_command e.command) (
    first (check_duration ConfigError.bad_exec_interval e.interval)
      (first (check_duration ConfigError.bad_exec_timeout e.timeout) (check_format e.data_format)))

-- `Metrics::validate`.
unfoldable pub check_metrics : Option Metrics → Option ConfigError
unfolding first each check_duration check_exec
check_metrics none = none
check_metrics (some m) = first (check_duration ConfigError.bad_interval (some m.interval)) (
    first (bail_if (leb (length m.collectors) 0 && leb (length m.exec) 0) ConfigError.no_collectors)
      (first
        (each (λ c. bail_if (not (has c known_collectors)) ConfigError.unknown_collector)
          m.collectors)
        (each check_exec m.exec)))

unfoldable pub check_otlp : Option Otlp → Option ConfigError
unfolding first is_blank
check_otlp none = none
check_otlp (some o) = first (bail_if (is_blank o.listen) ConfigError.no_listen) (
    first (bail_if (is_blank o.table) ConfigError.no_table)
      (bail_if (is_blank o.name) ConfigError.no_name))

unfoldable pub check_path : Features → Source → Option ConfigError
unfolding is_blank
check_path built s = elim s.parser [
  | journald ↦ bail_if (not built.journald) ConfigError.not_built
  | winlog ↦
      if built.winlog
      then bail_if (is_blank s.path) ConfigError.no_channel
      else some ConfigError.not_built
  | other ↦ bail_if (is_blank s.path) ConfigError.no_path
]

abbrev pub check_alone : Source → Option ConfigError
check_alone s = elim s.parser [
  | journald ↦ some ConfigError.not_alone
  | winlog ↦ some ConfigError.not_alone
  | other ↦ none
]

unfoldable pub check_names : List Text → List Source → Option ConfigError
check_names seen [] = none
check_names seen (s ∷ ss) =
    let rest = check_names (s.name ∷ seen) ss in
    if has s.name seen then some ConfigError.shared_name else rest

unfoldable pub check_many : List Source → Option ConfigError
unfolding first each check_names
check_many sources =
    if ltb 1 (length sources)
    then first (each check_alone sources) (check_names [] sources)
    else none

-- `Tls::validate`, and that a certificate is not given to a plain connection.
unfoldable pub check_tls : Text → Option Tls → Option ConfigError
unfolding strip_prefix
check_tls url none = none
check_tls url (some tls) = elim tls.cert_file [
  | none ↦ elim tls.key_file [ none ↦ none | some key ↦ some ConfigError.half_identity ]
  | some cert ↦ elim tls.key_file [
    | none ↦ some ConfigError.half_identity
    | some key ↦ elim (strip_prefix (codes "http://") url) [
      | none ↦ none
      | some host ↦ some ConfigError.identity_over_http
    ]
  ]
]

unfoldable pub check_framing : Source → Option ConfigError
check_framing s = elim s.parser [
  | docker_json ↦ bail_if s.is_multiline ConfigError.owns_framing
  | cri ↦ bail_if s.is_multiline ConfigError.owns_framing
  | other ↦ none
]

unfoldable pub check_resolution : Text → Option ConfigError
unfolding parse_resolution
check_resolution r = elim (parse_resolution r) [
  | none ↦ some ConfigError.bad_resolution
  | some tick ↦ none
]

unfoldable pub check_filter : Filter → Option ConfigError
unfolding is_blank
check_filter f = bail_if (is_blank f.field || is_blank f.equals) ConfigError.empty_filter

abbrev pub check_both : Option Text → Option Text → Option ConfigError
check_both none none = none
check_both (some field) (some equals) = none
check_both none (some equals) = some ConfigError.half_sample
check_both (some field) none = some ConfigError.half_sample

unfoldable pub check_sample : Sample → Option ConfigError
unfolding first
check_sample s = first (bail_if (s.rate == 0) ConfigError.zero_rate) (check_both s.field s.equals)

module _ (compiles : Text → Bool) where
  unfoldable pub check_redact : Redact → Option ConfigError
  unfolding first is_blank
  check_redact r =
      first (bail_if (is_blank r.field) ConfigError.empty_redact)
        (bail_if (not (compiles r.pattern)) ConfigError.bad_pattern)

  unfoldable pub check_source : Source → Option ConfigError
  unfolding first each check_framing check_resolution check_filter check_sample check_redact
  check_source s = first (check_framing s) (
      first (check_resolution s.resolution) (
        first (each check_filter s.filter)
          (first (each check_sample s.sample) (each check_redact s.redact))))

  abbrev pub check_work : Config → Option ConfigError
  check_work c = elim c.sources [
    | [] ↦ elim c.otlp [
      | none ↦ elim c.metrics [ none ↦ some ConfigError.nothing_to_do | some m ↦ none ]
      | some o ↦ none
    ]
    | s ∷ ss ↦ none
  ]

  -- Every check, in the order of the source.
  unfoldable pub validate : Features → Config → Option ConfigError
  unfolding first each check_metrics check_otlp check_path check_many check_tls check_source
  validate built c = first (check_work c) (
      first (check_metrics c.metrics) (
        first (check_otlp c.otlp) (
          first (each (check_path built) c.sources) (
            first (check_many c.sources)
              (first (check_tls c.url c.tls) (each check_source c.sources))))))
