-- ===== src/Collector/Catalog/Accounting.antt =====
-- The samples of the collector `accounting`, and their metrics.
use slurm_insights_exporter.Prelude.{refl, [], ◌∷◌, Text, Dict, codes, lookup, text_eq, All-append}
use slurm_insights_exporter.Float.{Float}
use slurm_insights_exporter.Clock.{Formats}
use slurm_insights_exporter.Collector.{Config, sample}
use slurm_insights_exporter.Collector.Accounting.{
  Agg, is_positive, ratio_sample, accounting_samples, read_accounting,
}
use slurm_insights_exporter.Collector.Catalog.{IsListed, is_line}
use slurm_insights_exporter.Collector.Catalog.Rows.{All-if, AreListed}

module _ (F : Type 0) ⦃fl : Float F⦄ (cfg : Config) where
  ratio_sample-AreListed :
      (part whole : F) (c a p q v w : Text)
      → let l : Dict Text =
          (codes "cluster", c)
          ∷ (codes "account", a)
          ∷ (codes "partition", p)
          ∷ (codes "qos", q)
          ∷ (codes "state", v)
          ∷ (codes "window", w)
          ∷ [] in
        AreListed F cfg (
          ratio_sample
            (codes "accounting_cpu_efficiency_ratio")
            (codes "CPU seconds divided by allocated CPU capacity")
            part
            whole
            l)
        × AreListed F cfg (
            ratio_sample
              (codes "accounting_memory_efficiency_ratio")
              (codes "Maximum RSS divided by requested memory")
              part
              whole
              l)
  unfolding ratio_sample sample lookup text_eq is_line
  ratio_sample-AreListed part whole c a p q v w = (
    All-if (IsListed cfg) (is_positive whole) _ [] ((refl, refl), tt) tt,
    All-if (IsListed cfg) (is_positive whole) _ [] ((refl, refl), tt) tt,
  )

  accounting_samples-AreListed :
      (formats : Formats) (m : Dict (Agg F)) → AreListed F cfg (accounting_samples formats cfg m)
  unfolding accounting_samples sample lookup text_eq is_line
  accounting_samples-AreListed formats [] = tt
  accounting_samples-AreListed formats ((k, a) ∷ m) = (
    (refl, refl),
    (
      (refl, refl),
      (
        (refl, refl),
        (
          (refl, refl),
          (
            (refl, refl),
            All-append (IsListed cfg) _ _ (ratio_sample-AreListed a.cpu a.capacity _ _ _ _ _ _).0 (
              (refl, refl),
              (
                (refl, refl),
                (
                  (refl, refl),
                  All-append (IsListed cfg) _ _
                      (ratio_sample-AreListed a.memory_used a.memory_requested _ _ _ _ _ _).1
                      (accounting_samples-AreListed formats m),
                ),
              ),
            ),
          ),
        ),
      ),
    ),
  )

  pub read_accounting-AreListed :
      (formats : Formats) (b : Text) → AreListed F cfg (read_accounting formats cfg b).samples
  unfolding read_accounting
  read_accounting-AreListed formats b = accounting_samples-AreListed formats _
