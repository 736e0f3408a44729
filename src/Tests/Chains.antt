-- ===== src/Tests/Chains.antt =====
-- internal/history/store.go at concrete archives.
use mathlib.Core.Option
use mathlib.Core.List.{Mem, not-mem-nil, eq-or-mem_of_mem-cons}
use mathlib.Core.Logic.Or
use slurm_insights_exporter.Prelude.{
  ◌≡◌, ◌≢◌, refl, sym, subst, List, [], ◌∷◌, none, some, Text, codes, lookup, All, ℤ, insert,
  text_eq, text_lt,
}
use slurm_insights_exporter.Model.{JobRecord}
use slurm_insights_exporter.History.{
  Store, append, append_snapshot, append_jobs, append_raw, save_state, observation_of, open_store,
  opened, after_observation, write_envelope, write_line, after_jobs, is_known, remember,
  replace_state, envelope, text_or_empty, fingerprint, job_key,
}
use slurm_insights_exporter.Sorting.{sort_by, insert_by}
use slurm_insights_exporter.History.Chain.{
  IsChain, append_snapshot-IsChain, late_failure-breaks-IsChain,
}
use slurm_insights_exporter.History.Dedup.{append_snapshot_again}
use slurm_insights_exporter.History.Restart.{open_store-append_snapshot}
use slurm_insights_exporter.Tests.Coding.{read_state-state_code}
use slurm_insights_exporter.Tests.Archive.{
  codec, payload_code, two_jobs, by_job_id, archive, full_disk, late_disk,
}

-- Three lines are written, the two jobs in the order of their ids.
abbrev after : Store
after = (append_snapshot codec by_job_id 101 two_jobs archive).0

abbrev after_full : Store
after_full = (append_snapshot codec by_job_id 101 two_jobs full_disk).0

ok_without_error : (append_snapshot codec by_job_id 101 two_jobs archive).1 ≡ none
unfolding append_snapshot after_observation append append_raw envelope write_envelope write_line
    after_jobs append_jobs sort_by insert_by text_lt is_known text_eq lookup insert fingerprint
    job_key remember save_state replace_state
ok_without_error = refl

cons-ne-nil {ℓ} : {A : Type ℓ} (c : A) (s : List A) → c ∷ s ≢ []
cons-ne-nil c s e = cc

append_snapshot-IsChain_example : IsChain codec [] after_full.disk.lines after_full.state.last_hash
append_snapshot-IsChain_example =
    append_snapshot-IsChain codec by_job_id 101 two_jobs full_disk (refl, (tt, tt)) refl

late_failure-breaks-IsChain_example :
    let (s', result) = append codec late_disk (codes "observation") 100 (observation_of two_jobs) in
    (result ≡ some (codes "sync"))
    × (s'.state.last_hash ≡ late_disk.state.last_hash)
    × (¬ IsChain codec [] s'.disk.lines s'.state.last_hash)
late_failure-breaks-IsChain_example =
    late_failure-breaks-IsChain codec late_disk (codes "observation") 100 (observation_of two_jobs)
      (payload_code (observation_of two_jobs)) (codes "sync") refl refl refl refl
      (unfold envelope in cons-ne-nil _ _)

open_store-append_snapshot_example :
    open_store codec (codes "/h") none none after.disk
    ≡ some (opened (codes "/h") after.disk after.state)
open_store-append_snapshot_example =
    open_store-append_snapshot codec by_job_id 101 two_jobs archive (codes "/h")
      read_state-state_code ok_without_error

abbrev prints : Text → Text
prints k = text_or_empty (lookup k after.state.jobs)

abbrev IsPrinted : JobRecord ℤ → Type 0
IsPrinted j = fingerprint codec j ≡ prints (job_key j)

from_all : (js : List (JobRecord ℤ)) → All IsPrinted js → (j : JobRecord ℤ) → Mem j js → IsPrinted j
from_all [] h j m = absurd (not-mem-nil m)
from_all (k ∷ js) h j m =
    Or.elim (hlevel) (eq-or-mem_of_mem-cons m) (λ e. subst IsPrinted (sym e) h.0)
      (λ t. from_all js h.1 j t)

all-IsPrinted : All IsPrinted two_jobs.jobs
unfolding append_snapshot after_observation append append_raw envelope write_envelope write_line
    after_jobs append_jobs sort_by insert_by text_lt is_known text_eq lookup insert fingerprint
    job_key remember save_state replace_state
all-IsPrinted = (refl, (refl, tt))

again_ok :
    (append codec after (codes "observation") two_jobs.collected_at (observation_of two_jobs)).1
    ≡ none
unfolding append append_raw envelope write_envelope write_line append_snapshot after_observation
    after_jobs append_jobs sort_by insert_by text_lt is_known text_eq lookup insert fingerprint
    job_key remember save_state replace_state
again_ok = refl

append_snapshot_again_example :
    let again =
      (append codec after
        (codes "observation")
        two_jobs.collected_at
        (observation_of two_jobs)).0 in
    (append_snapshot codec by_job_id 400 two_jobs after
      ≡ save_state codec (record again { last_write = 400 }))
    × (again.state.jobs ≡ after.state.jobs)
append_snapshot_again_example =
    append_snapshot_again codec by_job_id prints 101 400 two_jobs archive
      (from_all two_jobs.jobs all-IsPrinted) ok_without_error again_ok
