-- ===== src/Reload/Applied.antt =====
-- What a reload takes over, and what it reports (`apply_reload` of crates/tributary/src/main.rs).
use tributary.Prelude.{◌≡◌, Bool, true, false, List, Option, none, some, Eq}
use tributary.Transform.{CompiledRedact}
use tributary.Reload.{Source, Output, Reloadable, Outcome, rpo_of, same_source, reload_output}

abbrev pub SameRules : Reloadable → Reloadable → Type 0
SameRules r r' = (r'.filters ≡ r.filters) × (r'.samples ≡ r.samples) × (r'.redacts ≡ r.redacts)

-- The knobs of the output are the new ones, and the rules as they were.
abbrev pub IsTuned : {V : Type 0} → Output V → Reloadable → Type 0
IsTuned new r =
    (r.batch_lines ≡ new.batch_lines)
    × (r.max_inflight ≡ new.max_inflight)
    × (r.watermark_every ≡ new.watermark_every_secs)
    × (r.rpo_every ≡ rpo_of new.rpo_report_secs)

module _ {V Redact : Type 0} ⦃e : Eq V⦄ (compile : List Redact → Option (List CompiledRedact)) where
  -- A source with this name: if it is still the same one, the rules are its, or its redactions do not
  -- compile, there is no report and all is as it was; else the rules are as before.
  abbrev SwapsIf : Bool → Source V Redact → Reloadable → Outcome → Type 0
  SwapsIf true ns r (none, r') = (compile ns.redact ≡ none) × (r' ≡ r)
  SwapsIf true ns r (some report, r') =
      (r'.filters ≡ ns.filter) × (r'.samples ≡ ns.sample) × (compile ns.redact ≡ some r'.redacts)
  SwapsIf false ns r (none, r') = ⊥
  SwapsIf false ns r (some report, r') = SameRules r r'

  abbrev pub Swaps : Source V Redact → Option (Source V Redact) → Reloadable → Outcome → Type 0
  Swaps source (some ns) r o = SwapsIf (same_source compile ns source) ns r o
  Swaps source none r (none, r') = ⊥
  Swaps source none r (some report, r') = SameRules r r'

  abbrev pub TunedIf : Output V → Outcome → Type 0
  TunedIf new (none, r') = Unit
  TunedIf new (some report, r') = IsTuned new r'

  -- The rest of the reload, once the rules are there.
  abbrev tuned : Output V → Output V → Outcome → Outcome
  tuned new old (report, swapped) = elim report [
    | none ↦ (none, swapped)
    | some report ↦ let (all, r) = reload_output compile new old (report, swapped) in (some all, r)
  ]
