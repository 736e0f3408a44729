-- ===== src/Tests/Collections.antt =====
-- internal/slurm/cache.go and the slow tier and `Collect` of internal/slurm/collector.go in a world
-- that is its clock.
use slurm_insights_exporter.Prelude.{
  ℕ, ◌+◌, ◌≡◌, refl, false, List, [], ◌∷◌, none, some, codes, arith, ℤ, pos, lookup, text_eq,
}
use slurm_insights_exporter.Float.Whole.{whole}
use slurm_insights_exporter.Model.{Time, Sample, Snapshot}
use slurm_insights_exporter.Clock.{Formats, time_sub}
use slurm_insights_exporter.Sorting.{SliceSort}
use slurm_insights_exporter.Sorting.Insertion.{insertion_sort}
use slurm_insights_exporter.Collector.{
  Config, Outcome, SlowResult, World, Named, slow, sample, collect,
}
use slurm_insights_exporter.Collector.Shared.{Runner, failed}
use slurm_insights_exporter.Collector.Slow.{slow_retries, slow_first_failure}
use slurm_insights_exporter.Collector.Schedule.{schedule, fast_entry}
use slurm_insights_exporter.Collector.Schedule.Kept.{IsGood, collect-IsGood}
use slurm_insights_exporter.Tests.Archive.{two_jobs}

abbrev pub now : ℕ → Time
now w = w + 1

abbrev snapshot_at : ℕ → Snapshot ℤ × ℕ
snapshot_at w = (record two_jobs { collected_at = now w }, w + 2)

abbrev delays : List (ℕ → ℕ)
delays = (λ w. w) ∷ (λ w. w + 5) ∷ (λ w. w + 50) ∷ []

abbrev pub cfg : Config
cfg = record {
  cluster = codes "a";
  timeout = pos 15;
  accounting_window = pos 100;
  slow_refresh = pos 30;
  include_users = false;
  include_jobs = false;
}

abbrev pub success_of : ℕ → Outcome ℤ
success_of n = record {
  samples = sample (codes "x") (codes "X") (codes "gauge") (pos n) [] ∷ [];
  jobs = [];
  err = none;
}

abbrev pub failure : Outcome ℤ
failure = record { samples = []; jobs = []; err = some (codes "exit 1") }

abbrev pub failing : ℕ → Outcome ℤ × ℕ
failing w = (failure, w + 1)

abbrev pub good_entry : SlowResult ℤ
good_entry = record { at = 1; outcome = success_of 7 }

-- At the time 101 the entry of `fairshare` is too old.
abbrev pub later_world : World ℤ ℕ
later_world = record { env = 100; slow_data = (codes "fairshare", good_entry) ∷ [] }

abbrev empty_world : World ℤ ℕ
empty_world = record { env = 100; slow_data = [] }

good_entry_found : lookup (codes "fairshare") later_world.slow_data ≡ some good_entry
unfolding lookup text_eq
good_entry_found = refl

slow_retries_example :
    let (o, w') = slow now cfg (codes "fairshare") failing later_world in
    let (again, w'') = slow now cfg (codes "fairshare") failing (record w' { env = 110 }) in
    (o ≡ record good_entry.outcome { err = some (codes "exit 1") })
    × (w'.slow_data ≡ later_world.slow_data)
    × (w''.env ≡ (failing 110).1)
slow_retries_example =
    slow_retries now cfg (codes "fairshare") failing later_world good_entry (codes "exit 1") 110
      good_entry_found (unfold time_sub in refl) refl (omega arith) (omega arith)

slow_first_failure_example :
    let (o, w') = slow now cfg (codes "fairshare") failing empty_world in
    let (again, w'') = slow now cfg (codes "fairshare") failing (record w' { env = 110 }) in
    (o.err ≡ some (codes "exit 1")) × (again ≡ o) × (w'' ≡ record w' { env = 110 })
slow_first_failure_example =
    slow_first_failure now cfg (codes "fairshare") failing empty_world (codes "exit 1") 110
      (unfold lookup in refl) refl (unfold time_sub in refl)

abbrev pub by_name : SliceSort {A = Sample ℤ} (λ s. s.name)
by_name = insertion_sort (λ s. s.name)

abbrev two_collectors : List (Named ℤ ℕ)
two_collectors =
    fast_entry now (codes "nodes") (λ w. (success_of 3, w + 4))
    ∷ fast_entry now (codes "queue") failing
    ∷ []

abbrev pub formats : Formats
formats = record {
  parse_time = λ t. none;
  format_time = λ t. [];
  format_duration = λ d. codes "24h0m0s";
}

-- No command runs.
abbrev pub broken : Runner ℕ
broken timeout command args w = (failed (codes "no such file"), w + 1)

collect-IsGood_example :
    IsGood
      (codes "fairshare")
      (collect now by_name (schedule now formats (λ t. t) broken cfg) later_world).1
collect-IsGood_example =
    collect-IsGood now formats (λ t. t) broken cfg by_name (codes "fairshare") later_world
      (good_entry, good_entry_found, refl)
