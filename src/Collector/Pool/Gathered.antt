-- ===== src/Collector/Pool/Gathered.antt =====
-- What the snapshot of `Collect` in internal/slurm/collector.go holds when every goroutine has sent.
use mathlib.Core.List.{Perm}
use mathlib.Core.List.Perm
use slurm_insights_exporter.Prelude.{◌≡◌, List, [], ◌∷◌, ◌++◌}
use slurm_insights_exporter.Float.{Float}
use slurm_insights_exporter.Model.{Time}
use slurm_insights_exporter.Collector.{Config, Outcome}
use slurm_insights_exporter.Collector.Pool.{
  Phase, waiting, started, loaded, ran, answered, sent, Thread, Pool,
}

abbrev pub sent_by : {F : Type 0} → Phase F → List (Outcome F)
sent_by (sent o) = o ∷ []
sent_by waiting = []
sent_by (started t) = []
sent_by (loaded t old) = []
sent_by (ran t old o) = []
sent_by (answered t o) = []

module _ {F W : Type 0} where
  -- What the goroutines have sent, in the order of the collectors.
  abbrev pub results : List (Thread F W) → List (Outcome F)
  results [] = []
  results (t ∷ ts) = sent_by t.phase ++ results ts

module _ {F W : Type 0} ⦃fl : Float F⦄ (now : W → Time) (cfg : Config) where
  -- A step sends `new`, which is one result or none.
  abbrev IsAdded :
      List (Outcome F) → List (Outcome F) → List (Outcome F) → List (Outcome F) → Type 0
  IsAdded channel channel' rs rs' =
      (new : List (Outcome F)) × (channel' ≡ channel ++ new) × Perm (new ++ rs) rs'
