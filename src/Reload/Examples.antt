-- ===== src/Reload/Examples.antt =====
-- A source whose rules, and an output whose knobs, change between two configurations.
use tributary.Prelude.{
  ℕ, ◌≡◌, refl, true, ◌^◌, ◌-◌, List, [], ◌∷◌, Option, some, Text, codes, text_has_eq,
}
use tributary.Prelude.Sort.{sort_by}
use tributary.Queue.{name_le}
use tributary.Transform.{CompiledRedact}
use tributary.Reload.{
  Frozen, Source, Output, Config, Reloadable, Reloads, Knob, apply_reload, find_source,
  reload_rules, swap_rules, report_frozen, reload_output, report_output, retune_batch,
  retune_inflight, retune_watermark, retune_rpo,
}
use tributary.Reload.SourceSet.{
  SourceSet, Resources, reload_source_set, diff_source_set, reload_source_set-Resources,
}

abbrev no_counts : Reloads
no_counts = record { config_reloads = 0; config_reloads_refused = 0; config_last_reload_ok = true }

abbrev schema : Text → Frozen Text
schema table = record {
  table = table;
  tags = [];
  tags_static = [];
  fields = [];
  timestamp = [];
  visibility = [];
  multiline = [];
}

abbrev source : Text → Source Text Text
source table = record {
  name = codes "app";
  path = codes "/v/app.log";
  parser = codes "json";
  frozen = schema table;
  filter = [];
  sample = [];
  redact = codes "secret" ∷ [];
}

abbrev output : ℕ → Output Text
output n = record {
  batch_lines = n;
  max_inflight = 2;
  watermark_every_secs = 10;
  rpo_report_secs = 0;
  url = codes "http://db";
  tls = [];
  queue_max_bytes = 100;
  database = codes "logs";
  watermark_floor_ms = 1;
  watermark_ceiling_ms = 9;
}

abbrev before : Config Text Text
before = record { sources = source (codes "t") ∷ []; output = output 10 }

abbrev after : Config Text Text
after = record { sources = source (codes "u") ∷ []; output = output 20 }

abbrev live : Reloadable
live = record {
  filters = [];
  samples = [];
  redacts = [];
  batch_lines = 10;
  watermark_every = 10;
  max_inflight = 2;
  rpo_every = 2 ^ 64 - 1;
}

-- A regex library that takes every expression.
abbrev compile_all : List Text → Option (List CompiledRedact)
compile_all rs = some []

-- The table is captured at the start, the size of a batch is not.
test_report : apply_reload compile_all (source (codes "t")) before after live ≡ (
  some record {
    applied = Knob.transforms ∷ Knob.batch_lines ∷ [];
    restart_required = Knob.table ∷ [];
  },
  record live { batch_lines = 20 },
)
unfolding apply_reload find_source reload_rules swap_rules report_frozen reload_output report_output
    retune_batch retune_inflight retune_watermark retune_rpo
test_report = refl

abbrev running : SourceSet
running = record {
  running = codes "b" ∷ codes "app" ∷ codes "a" ∷ [];
  reload_gen = 0;
  reloads = no_counts;
}

test_diff :
    diff_source_set running.running (codes "new" ∷ codes "app" ∷ [])
    ≡ (codes "a" ∷ codes "b" ∷ [], 0 ∷ [])
unfolding diff_source_set sort_by name_le
test_diff = refl

reload_source_set-Resources_example :
    Resources
      (codes "new")
      (some (codes "new" ∷ codes "app" ∷ []))
      running
      (reload_source_set (some (codes "new" ∷ codes "app" ∷ [])) running)
reload_source_set-Resources_example =
    reload_source_set-Resources (some (codes "new" ∷ codes "app" ∷ [])) running (codes "new")
