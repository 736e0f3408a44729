-- ===== src/Collector/Valid.antt =====
-- `Validate` of internal/slurm/collector.go.
use slurm_insights_exporter.Prelude.{◌≡◌, ◌≢◌, ◌↔◌, [], none, text_eq_iff, ◌<ℤ◌, pos, arith}
use slurm_insights_exporter.Collector.{Config, validate}

-- A configuration is accepted exactly if it names a cluster and the three durations are above zero.
pub validate_lem :
    (c : Config)
    → (validate c ≡ none) ↔ (
        (c.cluster ≢ [])
        × (pos 0 <ℤ c.timeout)
        × (pos 0 <ℤ c.accounting_window)
        × (pos 0 <ℤ c.slow_refresh))
unfolding validate
validate_lem c = ground (arith, text_eq_iff c.cluster [])
