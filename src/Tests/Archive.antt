-- ===== src/Tests/Archive.antt =====
-- An archive with a snapshot for it: whole numbers for float64, and the `Codec` of a text coding.
use slurm_insights_exporter.Prelude.{List, [], ◌∷◌, ◌++◌, none, some, Text, codes, ℤ, pos}
use slurm_insights_exporter.Float.Whole.{whole}
use slurm_insights_exporter.Model.{JobRecord, Snapshot}
use slurm_insights_exporter.Sorting.{SliceSort}
use slurm_insights_exporter.Sorting.Insertion.{insertion_sort}
use slurm_insights_exporter.History.{
  Payload, observed, changed, Codec, Fault, no_fault, Disk, Store, fresh_state, opened,
}
use slurm_insights_exporter.Tests.Coding.{envelope_code, state_code, read_state}

abbrev pub join_texts : List Text → Text
join_texts [] = []
join_texts (t ∷ ts) = t ++ join_texts ts

abbrev pub payload_code : Payload ℤ → Text
payload_code (observed o) = codes "o" ++ join_texts o.errors
payload_code (changed j) = b'j' ∷ (j.job_id ++ b' ' ∷ j.state)

abbrev pub codec : Codec ℤ
codec = record {
  marshal = λ p. some (payload_code p);
  canonical = envelope_code;
  sha256_hex = λ t. 1 ∷ t;
  day_path = λ dir t. dir ++ t ∷ [];
  encode_state = state_code;
  decode_state = read_state;
}

abbrev pub job_numbered : Text → Text → JobRecord ℤ
job_numbered id state = record {
  cluster = codes "a";
  job_id = id;
  user = [];
  account = codes "phys";
  partition = codes "gpu";
  qos = [];
  state = state;
  alloc_cpus = pos 4;
  elapsed_seconds = pos 60;
  cpu_seconds = pos 120;
  wait_seconds = pos 0;
  requested_memory_bytes = pos 1024;
  max_rss_bytes = pos 512;
  energy_joules = pos 0;
  allocated_tres = [];
  requested_tres = [];
  cpu_efficiency_ratio = pos 0;
  memory_efficiency_ratio = pos 0;
}

abbrev pub two_jobs : Snapshot ℤ
two_jobs = record {
  collected_at = 100;
  duration = pos 2;
  samples = [];
  jobs =
      job_numbered (codes "8") (codes "RUNNING") ∷ job_numbered (codes "7") (codes "FAILED") ∷ [];
  errors = [];
}

abbrev pub by_job_id : SliceSort {A = JobRecord ℤ} (λ j. j.job_id)
by_job_id = insertion_sort (λ j. j.job_id)

abbrev pub disk_with : List Fault → Disk
disk_with faults = record {
  lines = [];
  state_file = none;
  faults = faults;
  write_error = none;
  rename_error = none;
}

abbrev pub archive : Store
archive = opened (codes "/h") (disk_with []) fresh_state

-- The disk is full: nothing of the second line is written.
abbrev pub full_disk : Store
full_disk =
    opened (codes "/h")
      (disk_with (no_fault ∷ record no_fault { open_error = some (codes "full") } ∷ [])) fresh_state

-- The first line reaches the file and its `Sync` fails.
abbrev pub late_disk : Store
late_disk =
    opened (codes "/h") (disk_with (record no_fault { sync_error = some (codes "sync") } ∷ []))
      fresh_state
