-- ===== src/Collector.antt =====
-- The parts of internal/slurm/collector.go that the ten collectors share: the configuration, the
-- slow tier's cache and `Collect`. An error is its message.
pub mod Catalog
pub mod Shared
pub mod Valid
pub mod Slow
pub mod Collect
pub mod Groups
pub mod Inventory
pub mod Queue
pub mod Accounting
pub mod Limits
pub mod Scheduler
pub mod KeyValues
pub mod Tres
pub mod Schedule
pub mod Exec
pub mod Pool
use slurm_insights_exporter.Prelude.{
  ℕ, ◌≡◌, Bool, true, false, ◌||◌, not, List, [], ◌∷◌, ◌++◌, Option, none, some, Text, Dict, codes,
  text_eq, lookup, insert, if◌then◌else◌, ℤ, pos, ltb_ℤ,
}
use slurm_insights_exporter.Float.{Float, num}
use slurm_insights_exporter.Model.{Time, Sample, JobRecord, Snapshot}
use slurm_insights_exporter.Clock.{Duration, time_sub, seconds}
use slurm_insights_exporter.Sorting.{SliceSort}

pub record Config : Type 0 where
  pub cluster : Text
  pub timeout : Duration
  pub accounting_window : Duration
  pub slow_refresh : Duration
  pub include_users : Bool
  pub include_jobs : Bool

abbrev pub is_positive : Duration → Bool
is_positive d = ltb_ℤ (pos 0) d

-- `none` is a nil error.
unfoldable pub validate : Config → Option Text
validate c =
    if text_eq c.cluster []
    then some (codes "cluster must not be empty")
    else if not (is_positive c.timeout)
        || not (is_positive c.accounting_window)
        || not (is_positive c.slow_refresh)
    then some (codes "durations must be positive")
    else none

-- What a collector function returns.
pub record Outcome (F : Type 0) : Type 0 where
  pub samples : List (Sample F)
  pub jobs : List (JobRecord F)
  pub err : Option Text

pub record SlowResult (F : Type 0) : Type 0 where
  pub at : Time
  pub outcome : Outcome F

unfoldable pub sample : {F : Type 0} → Text → Text → Text → F → Dict Text → Sample F
sample name help kind value labels = record {
  name = codes "slurm_" ++ name;
  help = help;
  kind = kind;
  labels = labels;
  value = value;
}

-- `merge(a, b)`: the entries of `a`, then those of `b` over them.
unfoldable pub merge : Dict Text → Dict Text → Dict Text
merge a [] = a
merge a ((k, v) ∷ b) = merge (insert k v a) b

-- The world of a collection: the runner's side with its clock, and the shared `slowData`.
pub record World (F W : Type 0) : Type 0 where
  pub env : W
  pub slow_data : Dict (SlowResult F)

abbrev pub last_outcome : {F : Type 0} → Option (SlowResult F) → Outcome F
last_outcome none = record { samples = []; jobs = []; err = none }
last_outcome (some old) = old.outcome

module _ {F W : Type 0} where
  -- A collector that leaves `slowData` alone.
  unfoldable pub fast : (W → Outcome F × W) → World F W → Outcome F × World F W
  fast fn w = let (o, e) = fn w.env in (o, record w { env = e })

module _ {F W : Type 0} (now : W → Time) where
  -- `c.slowData[name] = slowResult{time.Now(), s, j, e}`
  unfoldable pub store : Text → Outcome F → World F W → Outcome F × World F W
  store name o w =
      let entry : SlowResult F = record { at = now w.env; outcome = o } in
      (o, record w { slow_data = insert name entry w.slow_data })

  -- What `slow` does with a new outcome, by the old entry and the new error.
  unfoldable pub settle :
      Text → Option (SlowResult F) → Option Text → Outcome F → World F W → Outcome F × World F W
  settle name (some old) (some e) o w = (record old.outcome { err = some e }, w)
  settle name _ _ o w = store name o w

  abbrev pub is_recent : Duration → Option (SlowResult F) → World F W → Bool
  is_recent refresh none w = false
  is_recent refresh (some old) w = ltb_ℤ (time_sub (now w.env) old.at) refresh

  unfoldable pub slow : Config → Text → (W → Outcome F × W) → World F W → Outcome F × World F W
  slow cfg name fn w =
      let old = lookup name w.slow_data in
      let (o, w') = fast fn w in
      if is_recent cfg.slow_refresh old w then (last_outcome old, w) else settle name old o.err o w'

pub record Named (F W : Type 0) : Type 0 where
  pub name : Text
  pub fn : World F W → Outcome F × World F W

module _ {F : Type 0} ⦃fl : Float F⦄ where
  abbrev pub success : Option Text → F
  success none = num 1
  success (some e) = num 0

  -- The result of a collector with the two samples about the collector itself.
  unfoldable pub report : Text → Time → Time → Outcome F → Outcome F
  report name started ended o =
      let l : Dict Text = (codes "collector", name) ∷ [] in
      let ok =
        sample (codes "exporter_collector_success") (codes "Whether this collector succeeded")
          (codes "gauge") (success o.err) l in
      let took =
        sample (codes "exporter_collector_duration_seconds") (codes "Collector duration")
          (codes "gauge") (seconds (time_sub ended started)) l in
      record o { samples = o.samples ++ ok ∷ took ∷ [] }

module _ {F W : Type 0} ⦃fl : Float F⦄ (now : W → Time) where
  -- The body of the goroutine, run from its start to its end.
  unfoldable pub run_one : Named F W → World F W → Outcome F × World F W
  run_one c w = let (o, w') = c.fn w in (report c.name (now w.env) (now w'.env) o, w')

  -- The outcomes in the order in which they reach the channel.
  unfoldable pub run_all : List (Named F W) → World F W → List (Outcome F) × World F W
  run_all [] w = ([], w)
  run_all (c ∷ cs) w = let (o, w') = run_one c w in let (os, w'') = run_all cs w' in (o ∷ os, w'')

abbrev pub message : Option Text → List Text
message none = []
message (some e) = e ∷ []

module _ {F : Type 0} where
  -- The loop over the channel.
  unfoldable pub gather : List (Outcome F) → Snapshot F → Snapshot F
  gather [] snap = snap
  gather (o ∷ os) snap = gather os (record snap {
    samples = snap.samples ++ o.samples;
    jobs = snap.jobs ++ o.jobs;
    errors = snap.errors ++ message o.err;
  })

module _ {F : Type 0} ⦃fl : Float F⦄ (by_name : SliceSort {A = Sample F} (λ s. s.name)) where
  -- The snapshot of what was sent to the channel, for the times of the collection's start and end.
  unfoldable pub snapshot_of : Time → Time → List (Outcome F) → Snapshot F
  snapshot_of began ended os =
      let start : Snapshot F = record {
        collected_at = began;
        duration = num 0;
        samples = [];
        jobs = [];
        errors = [];
      } in
      let snap = gather os start in
      record snap { samples = by_name.sort snap.samples; duration = seconds (time_sub ended began) }

module _ {F W : Type 0} ⦃fl : Float F⦄ (now : W → Time)
    (by_name : SliceSort {A = Sample F} (λ s. s.name)) where
  -- `Collect`, for collectors that run one after the other in the order of the list.
  unfoldable pub collect : List (Named F W) → World F W → Snapshot F × World F W
  collect schedule w =
      let (os, w') = run_all now schedule w in (snapshot_of by_name (now w.env) (now w'.env) os, w')
