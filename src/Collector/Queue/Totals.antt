-- ===== src/Collector/Queue/Totals.antt =====
-- The aggregates of the collector `queue` and the keys that they are filed under.
use slurm_insights_exporter.Prelude.{◌≡◌, List, [], ◌∷◌, Text, All, Lacks, arith}
use slurm_insights_exporter.Float.{Float}
use slurm_insights_exporter.Strings.{split}
use slurm_insights_exporter.Strings.Parts.{split-join}
use slurm_insights_exporter.Parse.{base_state, clean}
use slurm_insights_exporter.Collector.Shared.{cell}
use slurm_insights_exporter.Collector.Queue.{nul, queue_key}

-- The fields that a row is filed under.
abbrev pub queue_parts : List Text → List Text
queue_parts r =
    base_state (cell r 0)
    ∷ clean (cell r 1)
    ∷ clean (cell r 2)
    ∷ clean (cell r 3)
    ∷ clean (cell r 8)
    ∷ []

-- The key, split at NUL, gives the five fields back, if no field holds a NUL.
pub split-queue_key :
    (r : List Text) → All (Lacks nul) (queue_parts r) → split nul (queue_key r) ≡ queue_parts r
unfolding queue_key
split-queue_key r h = split-join nul (queue_parts r) (λ e. cc) h

-- Two rows are filed under one key only if their state, partition, account, QoS and reason, as they
-- are reported, agree, if none of these holds a NUL.
pub queue_key-inj :
    (r q : List Text)
    → All (Lacks nul) (queue_parts r)
    → All (Lacks nul) (queue_parts q)
    → queue_key r ≡ queue_key q
    → queue_parts r ≡ queue_parts q
queue_key-inj r q h k e = ground (arith, split-queue_key r h, split-queue_key q k)
