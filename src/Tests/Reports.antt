-- ===== src/Tests/Reports.antt =====
-- The accounting, queue and resource collectors, the jobs handler and the text of a snapshot at
-- concrete inputs.
use mathlib.Core.List.{Mem, Nodup, Pairwise}
use slurm_insights_exporter.Prelude.{
  keys, ◌↔◌, join_map, text_lt, false, ◌<◌, ◌≤◌, ◌≡◌, List, [], ◌∷◌, none, some, Option, Text,
  codes, All, arith, ℤ, pos, lookup, text_eq, filter, map, take, length, if◌then◌else◌, Lacks,
}
use slurm_insights_exporter.Float.{num}
use slurm_insights_exporter.Float.Whole.{whole, whole-IsIrreflexive}
use slurm_insights_exporter.Model.{Sample}
use slurm_insights_exporter.Strings.{
  to_upper, trim_suffix, trim_space, trim_left, is_space, cut, before, fields,
}
use slurm_insights_exporter.Parse.{lines, number, duration, clean, base_state}
use slurm_insights_exporter.Collector.{sample}
use slurm_insights_exporter.Collector.Groups.{or_zero, entry_from}
use slurm_insights_exporter.Collector.Accounting.{
  is_job_row, accounting_key, accounting_loop, job_of, max_rss_of, read_accounting,
}
use slurm_insights_exporter.Collector.Accounting as Accounting
use slurm_insights_exporter.Collector.Accounting.Jobs.{
  read_accounting-jobs, lookup-accounting_loop, max_rss_of-eq-max, is_step_of, max_from,
  job_of-ratios,
}
use slurm_insights_exporter.Collector.Queue as Queue
use slurm_insights_exporter.Collector.Queue.Totals.{queue_parts}
use slurm_insights_exporter.Collector.Tres.{Profiles, node_lines, read_nodes}
use slurm_insights_exporter.Collector.Tres.Cluster.{
  mentions, add_node, zero_totals, lookup-cluster_totals,
}
use slurm_insights_exporter.Collector.Tres.Available.{NonNeg, is_available, read_nodes-available}
use slurm_insights_exporter.Render.{families, render_family, render_families}
use slurm_insights_exporter.Collector.KeyValues.{text_lines, tres_values}
use slurm_insights_exporter.Collector.KeyValues.Pairs.{
  IsPair, print_pair, last_value, lookup-tres_values,
}
use slurm_insights_exporter.Strings.{join}
use slurm_insights_exporter.Render.Order.{named, sample_names, render_families-order}
use slurm_insights_exporter.Sorting.{sort_strings}
use slurm_insights_exporter.Server.{limit_of, is_wanted, jobs_handler}
use slurm_insights_exporter.Server.Jobs.{jobs_handler_lem}
use slurm_insights_exporter.Tests.Archive.{two_jobs}
use slurm_insights_exporter.Tests.Collections.{cfg, formats}

-- A job of `sacct` and a step of it.
abbrev sacct : Text
sacct =
    codes
      "a|7|alice|phys|gpu|normal|COMPLETED|4|60|0:0|00:02:00|2024-01-01T00:00:00|2024-01-01T00:00:10|16G|\na|7.batch|||||COMPLETED|4|60|0:0|00:02:00|2024-01-01T00:00:00|2024-01-01T00:00:10||2G"

abbrev sacct_rows : List (List Text)
sacct_rows = lines sacct

abbrev job_row : List Text
job_row =
    codes "a"
    ∷ codes "7"
    ∷ codes "alice"
    ∷ codes "phys"
    ∷ codes "gpu"
    ∷ codes "normal"
    ∷ codes "COMPLETED"
    ∷ codes "4"
    ∷ codes "60"
    ∷ codes "0:0"
    ∷ codes "00:02:00"
    ∷ []

read_accounting-jobs_example :
    (read_accounting {F = ℤ} formats cfg sacct).jobs
    ≡ map (job_of formats cfg (max_rss_of (lines sacct) [])) (filter is_job_row (lines sacct))
read_accounting-jobs_example = read_accounting-jobs {F = ℤ} formats cfg sacct

lookup-accounting_loop_example :
    lookup
      (accounting_key job_row)
      (accounting_loop {F = ℤ} formats cfg (max_rss_of sacct_rows []) sacct_rows [] []).0
    ≡ entry_from accounting_key
        (Accounting.accounting_step formats cfg (max_rss_of sacct_rows []))
        Accounting.zero_agg
        none
        (filter
          (λ r. text_eq (accounting_key r) (accounting_key job_row))
          (filter is_job_row sacct_rows))
lookup-accounting_loop_example =
    lookup-accounting_loop {F = ℤ} formats cfg sacct_rows (max_rss_of sacct_rows [])
      (accounting_key job_row)

max_rss_of-eq-max_example :
    ◌≡◌ {A = ℤ}
      (or_zero (num 0) (lookup (codes "7") (max_rss_of sacct_rows [])))
      (max_from (num 0) (filter (is_step_of (codes "7")) sacct_rows))
max_rss_of-eq-max_example = max_rss_of-eq-max (codes "7") sacct_rows

job_of-ratios_example :
    let capacity : ℤ = whole.mul (number (codes "4")) (number (codes "60")) in
    let j = job_of {F = ℤ} formats cfg [] job_row in
    (j.cpu_efficiency_ratio ≡ (
      if whole.lt (num 0) capacity
      then whole.div (duration (codes "00:02:00")) capacity
      else num 0))
    × (j.memory_efficiency_ratio ≡ (
        if whole.lt (num 0) j.requested_memory_bytes
        then whole.div j.max_rss_bytes j.requested_memory_bytes
        else num 0))
job_of-ratios_example = job_of-ratios formats cfg [] job_row whole-IsIrreflexive

abbrev squeue_row : List Text
squeue_row =
    codes "RUNNING"
    ∷ codes "gpu"
    ∷ codes "phys"
    ∷ codes "normal"
    ∷ codes "2"
    ∷ codes "8"
    ∷ codes "1:00"
    ∷ codes "2:00"
    ∷ codes "None"
    ∷ codes "7"
    ∷ []

squeue_row-Lacks : All (Lacks 0) (queue_parts squeue_row)
unfolding base_state clean trim_suffix trim_space trim_left is_space text_eq cut before fields
    to_upper
squeue_row-Lacks = ground arith

-- More memory is allocated than configured.
abbrev scontrol : Text
scontrol = codes "NodeName=n1 State=IDLE CfgTRES=cpu=4,mem=2G AllocTRES=cpu=6,mem=1G Partitions=gpu"

read_nodes-available_example :
    All (NonNeg {F = ℤ}) (filter is_available (read_nodes (λ t. t) cfg scontrol))
read_nodes-available_example = read_nodes-available whole-IsIrreflexive (λ t. t) cfg scontrol

abbrev no_nodes : Profiles ℤ
no_nodes = record {
  cluster_totals = [];
  profile_counts = [];
  profile_config = [];
  profile_tres = [];
  out = [];
}

lookup-cluster_totals_example :
    lookup (codes "cpu") (node_lines (λ t. t) cfg (text_lines scontrol) no_nodes).cluster_totals
    ≡ entry_from
        (λ line. [])
        (add_node ℤ (codes "cpu"))
        (zero_totals ℤ)
        (lookup (codes "cpu") no_nodes.cluster_totals)
        (filter (mentions ℤ (codes "cpu")) (text_lines scontrol))
lookup-cluster_totals_example =
    lookup-cluster_totals ℤ (λ t. t) cfg (codes "cpu") (text_lines scontrol) no_nodes

abbrev some_samples : List (Sample ℤ)
some_samples =
    sample (codes "b") (codes "B") (codes "gauge") (pos 1) []
    ∷ sample (codes "a") (codes "A") (codes "gauge") (pos 2) []
    ∷ sample (codes "b") (codes "B") (codes "gauge") (pos 3) []
    ∷ []

render_families-order_example :
    let ns = sort_strings (keys (families some_samples)) in
    (render_families (λ t. t) (families some_samples) ns
      ≡ join_map (λ n. render_family (λ t. t) n (named n some_samples)) ns)
    × Pairwise (λ a b. text_lt b a ≡ false) ns
    × Nodup ns
    × ((n : Text) → Mem n ns ↔ Mem n (sample_names some_samples))
render_families-order_example = render_families-order (λ t. t) some_samples

abbrev atoi : Text → Option ℤ
atoi [] = none
atoi (c ∷ t) = some (whole.parse (c ∷ t))

jobs_handler_example :
    let reply = jobs_handler atoi (codes "1") (codes "failed") [] two_jobs in
    let most = limit_of (atoi (codes "1")) in
    (reply.jobs ≡ take most (filter (is_wanted (to_upper (codes "failed")) []) two_jobs.jobs))
    × (reply.count ≡ length reply.jobs)
    × (0 < most)
    × (most ≤ 10_000)
    × (reply.errors ≡ two_jobs.errors)
jobs_handler_example = jobs_handler_lem atoi (codes "1") (codes "failed") [] two_jobs

abbrev some_pairs : List (Text × Text)
some_pairs =
    (codes "cpu", codes "4") ∷ (codes "gres/gpu", codes "2") ∷ (codes "cpu", codes "8") ∷ []

some_pairs-IsPair : All IsPair some_pairs
some_pairs-IsPair = (
  record {
    key = λ e. cc;
    key_part = ground arith;
    key_text = ground arith;
    value_text = ground arith;
  },
  (
    record {
      key = λ e. cc;
      key_part = ground arith;
      key_text = ground arith;
      value_text = ground arith;
    },
    (
      record {
        key = λ e. cc;
        key_part = ground arith;
        key_text = ground arith;
        value_text = ground arith;
      },
      tt,
    ),
  ),
)

lookup-tres_values_example :
    lookup (codes "cpu") (tres_values (join b',' (map print_pair some_pairs)))
    ≡ last_value (codes "cpu") some_pairs
lookup-tres_values_example = lookup-tres_values (codes "cpu") some_pairs (λ e. cc) some_pairs-IsPair

abbrev two_errors : List Text
two_errors = codes "exit status 1: a\nb" ∷ codes "timeout" ∷ []
