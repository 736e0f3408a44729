-- ===== src/Collector/Shared.antt =====
-- What the collector functions of internal/slurm/collector.go share: running a command, cells of a
-- row and samples of a gauge.
use slurm_insights_exporter.Prelude.{ℕ, List, [], ◌∷◌, none, some, Text, Dict, codes, get_or}
use slurm_insights_exporter.Model.{Sample}
use slurm_insights_exporter.Clock.{Duration}
use slurm_insights_exporter.Collector.{Config, Outcome, sample, merge}
use slurm_insights_exporter.Float.{Float}
use slurm_insights_exporter.Parse.{number}

-- What `Runner.Run` returns: the output of a command, or an error.
pub data Reply : Type 0 where
  output : Text → Reply
  failed : Text → Reply

-- The runner, by timeout, command and arguments.
abbrev pub Runner : Type 0 → Type 0
Runner W = Duration → Text → List Text → W → Reply × W

-- `c.run`: the command under the configured timeout.
unfoldable pub run : {W : Type 0} → Runner W → Config → Text → List Text → W → Reply × W
run runner cfg command args w = runner cfg.timeout command args w

abbrev pub read_reply : {F : Type 0} → (Text → Outcome F) → Reply → Outcome F
read_reply read (output b) = read b
read_reply read (failed e) = record { samples = []; jobs = []; err = some e }

-- A collector function: `return nil, nil, e` if the command fails, else what is read from it.
unfoldable pub command :
    {F W : Type 0} → Runner W → Config → Text → List Text → (Text → Outcome F) → W → Outcome F × W
unfolding run
command runner cfg name args read w =
    let (reply, w') = run runner cfg name args w in (read_reply read reply, w')

abbrev pub only_samples : {F : Type 0} → List (Sample F) → Outcome F
only_samples xs = record { samples = xs; jobs = []; err = none }

abbrev pub cell : List Text → ℕ → Text
cell r i = get_or r i []

abbrev pub gauge : {F : Type 0} → Text → Text → F → Dict Text → Sample F
gauge name help value labels = sample name help (codes "gauge") value labels

-- `merge(l, map[string]string{"status": n})`
abbrev pub with_status : Dict Text → Text → Dict Text
with_status l n = merge l ((codes "status", n) ∷ [])

module _ {F : Type 0} ⦃fl : Float F⦄ where
  -- The four counts of `%C`, if the field has four parts.
  unfoldable pub dispositions : Text → Text → Dict Text → List Text → List (Sample F)
  dispositions name help l (a ∷ i ∷ o ∷ t ∷ []) =
      gauge name help (number a) (with_status l (codes "allocated"))
      ∷ gauge name help (number i) (with_status l (codes "idle"))
      ∷ gauge name help (number o) (with_status l (codes "other"))
      ∷ gauge name help (number t) (with_status l (codes "total"))
      ∷ []
  dispositions name help l _ = []
