-- ===== src/Reload.antt =====
-- crates/tributary/src/main.rs: `apply_reload` and `reload_config`, which take over a new configuration on
-- SIGHUP. What is only compared, and never swapped, is a value of any type with an
-- equality; the compilation of the redactions is the regex library's.
pub mod Applied
pub mod SourceSet
mod Examples
use tributary.Prelude.{
  ℕ, zero, suc, ◌-◌, ◌^◌, Bool, true, false, not, ◌&&◌, List, [], ◌∷◌, ◌++◌, Option, none, some,
  Text, text_eq, ◌==◌, if◌then◌else◌, u64_add, Eq,
}
use tributary.Transform.{Filter, Sample, CompiledRedact}

-- The schema of a source, fixed at the start.
pub record Frozen (V : Type 0) : Type 0 where
  pub table : V
  pub tags : V
  pub tags_static : V
  pub fields : V
  pub timestamp : V
  pub visibility : V
  pub multiline : V

pub record Source (V Redact : Type 0) : Type 0 where
  pub name : Text
  pub path : V
  pub parser : V
  pub frozen : Frozen V
  pub filter : List Filter
  pub sample : List Sample
  pub redact : List Redact

pub record Output (V : Type 0) : Type 0 where
  pub batch_lines : ℕ
  pub max_inflight : ℕ
  pub watermark_every_secs : ℕ
  pub rpo_report_secs : ℕ
  pub url : V
  pub tls : V
  pub queue_max_bytes : ℕ
  pub database : V
  pub watermark_floor_ms : ℕ
  pub watermark_ceiling_ms : ℕ

pub record Config (V Redact : Type 0) : Type 0 where
  pub sources : List (Source V Redact)
  pub output : Output V

-- What a reload changes in place; the time between reports in seconds.
pub record Reloadable : Type 0 where
  pub filters : List Filter
  pub samples : List Sample
  pub redacts : List CompiledRedact
  pub batch_lines : ℕ
  pub watermark_every : ℕ
  pub max_inflight : ℕ
  pub rpo_every : ℕ

pub data Knob : Type 0 where
  transforms batch_lines max_inflight watermark_every rpo_report : Knob
  removed identity table tags tags_static fields timestamp visibility multiline : Knob
  url tls queue_max_bytes database watermark_bounds : Knob

pub record ReloadReport : Type 0 where
  pub applied : List Knob
  pub restart_required : List Knob

abbrev pub apply_knob : Knob → ReloadReport → ReloadReport
apply_knob k report = record report { applied = report.applied ++ k ∷ [] }

abbrev pub require : Knob → ReloadReport → ReloadReport
require k report = record report { restart_required = report.restart_required ++ k ∷ [] }

-- `u64::MAX` seconds for never.
abbrev pub rpo_of : ℕ → ℕ
rpo_of zero = 2 ^ 64 - 1
rpo_of (suc n) = suc n

abbrev pub Applying : Type 0
Applying = ReloadReport × Reloadable

-- `Result<ReloadReport>`, and the knobs behind their references as the call leaves them.
abbrev pub Outcome : Type 0
Outcome = Option ReloadReport × Reloadable

-- A knob of the output that the loop reads on each pass.
abbrev pub retune : Knob → ℕ → ℕ → Reloadable → Applying → Applying
retune k new old r' (report, r) =
    if not (new == old) then (apply_knob k report, r') else (report, r)

unfoldable pub retune_batch : ℕ → Applying → Applying
retune_batch new (report, r) =
    retune batch_lines new r.batch_lines (record r { batch_lines = new }) (report, r)

unfoldable pub retune_inflight : ℕ → Applying → Applying
retune_inflight new (report, r) =
    retune max_inflight new r.max_inflight (record r { max_inflight = new }) (report, r)

unfoldable pub retune_watermark : ℕ → Applying → Applying
retune_watermark new (report, r) =
    retune watermark_every new r.watermark_every (record r { watermark_every = new }) (report, r)

unfoldable pub retune_rpo : ℕ → Applying → Applying
retune_rpo new (report, r) =
    retune rpo_report (rpo_of new) r.rpo_every (record r { rpo_every = rpo_of new }) (report, r)

abbrev pub report_unless : Bool → Knob → ReloadReport → ReloadReport
report_unless same k report = if same then report else require k report

-- The counters of `Telemetry` that a reload moves.
pub record Reloads : Type 0 where
  pub config_reloads : ℕ
  pub config_reloads_refused : ℕ
  pub config_last_reload_ok : Bool

abbrev pub refuse : Reloads → Reloads
refuse t = record t {
  config_reloads_refused = u64_add t.config_reloads_refused 1;
  config_last_reload_ok = false;
}

abbrev pub accept : Reloads → Reloads
accept t = record t { config_reloads = u64_add t.config_reloads 1; config_last_reload_ok = true }

module _ {V Redact : Type 0} ⦃e : Eq V⦄ (compile : List Redact → Option (List CompiledRedact)) where
  -- A changed schema is reported and not taken over.
  unfoldable pub report_frozen : Frozen V → Frozen V → ReloadReport → ReloadReport
  report_frozen new old report = report_unless (e.beq new.multiline old.multiline) multiline (
      report_unless (e.beq new.visibility old.visibility) visibility (
        report_unless (e.beq new.timestamp old.timestamp) timestamp (
          report_unless (e.beq new.fields old.fields) fields (
            report_unless (e.beq new.tags_static old.tags_static) tags_static (
              report_unless (e.beq new.tags old.tags) tags
                (report_unless (e.beq new.table old.table) table report))))))

  unfoldable pub find_source : Text → List (Source V Redact) → Option (Source V Redact)
  find_source name [] = none
  find_source name (s ∷ ss) =
      let rest = find_source name ss in if text_eq s.name name then some s else rest

  abbrev pub same_source : Source V Redact → Source V Redact → Bool
  same_source ns source =
      text_eq ns.name source.name && e.beq ns.path source.path && e.beq ns.parser source.parser

  -- The rules of a source that is still the same, once its redactions compile.
  unfoldable pub swap_rules :
      Source V Redact → Source V Redact → Applying → Option (List CompiledRedact) → Outcome
  unfolding report_frozen
  swap_rules source ns (report, r) none = (none, r)
  swap_rules source ns (report, r) (some redacts) = (
    some (apply_knob transforms (report_frozen ns.frozen source.frozen report)),
    record r { filters = ns.filter; samples = ns.sample; redacts = redacts },
  )

  unfoldable pub reload_rules : Source V Redact → Option (Source V Redact) → Applying → Outcome
  unfolding swap_rules
  reload_rules source none (report, r) = (some (require removed report), r)
  reload_rules source (some ns) (report, r) =
      if same_source ns source
      then swap_rules source ns (report, r) (compile ns.redact)
      else (some (require identity report), r)

  -- What was captured at the start is reported.
  unfoldable pub report_output : Output V → Output V → ReloadReport → ReloadReport
  report_output new old report =
      report_unless
        ((new.watermark_floor_ms == old.watermark_floor_ms)
          && (new.watermark_ceiling_ms == old.watermark_ceiling_ms))
        watermark_bounds
        (report_unless (e.beq new.database old.database) database (
          report_unless (new.queue_max_bytes == old.queue_max_bytes) queue_max_bytes (
            report_unless (e.beq new.tls old.tls) tls
              (report_unless (e.beq new.url old.url) url report))))

  unfoldable pub reload_output : Output V → Output V → Applying → Applying
  unfolding retune_batch retune_inflight retune_watermark retune_rpo report_output
  reload_output new old a =
      let (report, r) = retune_rpo new.rpo_report_secs (
        retune_watermark new.watermark_every_secs
          (retune_inflight new.max_inflight (retune_batch new.batch_lines a))) in
      (report_output new old report, r)

  -- No report is an error; the state is what was written before it.
  unfoldable pub apply_reload :
      Source V Redact → Config V Redact → Config V Redact → Reloadable → Outcome
  unfolding find_source reload_rules reload_output
  apply_reload source current new r =
      let (report, swapped) =
        reload_rules source (find_source source.name new.sources)
          (record { applied = []; restart_required = [] }, r) in
      elim report [
        | none ↦ (none, swapped)
        | some report ↦
            let (all, tuned) = reload_output new.output current.output (report, swapped) in
            (some all, tuned)
      ]

  -- `Config::load` gives none for a file that does not load or validate.
  unfoldable pub reload_config :
      Source V Redact
      → Config V Redact
      → Option (Config V Redact)
      → Reloadable × Reloads
      → Reloadable × Reloads
  unfolding apply_reload
  reload_config source current none (r, t) = (r, refuse t)
  reload_config source current (some new) (r, t) =
      let (report, after) = apply_reload source current new r in
      elim report [ none ↦ (after, refuse t) | some report ↦ (after, accept t) ]
