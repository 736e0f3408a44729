-- ===== src/Tests/Events.antt =====
-- The lines that internal/history/store.go writes for a snapshot of two jobs.
use mathlib.Core.List.{Mem, Nodup, Nodup-cons, Pairwise, not-mem-nil}
use slurm_insights_exporter.Prelude.{
  ◌≡◌, true, [], ◌∷◌, none, codes, map, ℤ, text_eq, text_eq_iff, arith,
}
use slurm_insights_exporter.Model.{JobRecord}
use slurm_insights_exporter.History.{append_snapshot, observation_of, changed, is_known, job_key}
use slurm_insights_exporter.History.Induction.{event}
use slurm_insights_exporter.History.Events.{
  only_mem, contents, entry, news, append_snapshot-contents,
}
use slurm_insights_exporter.Tests.Archive.{codec, two_jobs, by_job_id, archive}
use slurm_insights_exporter.Tests.Processes.{encodes, archive-IsHealthy}

apart : ¬ (b'a' ∷ (b'/' ∷ codes "8") ≡ b'a' ∷ (b'/' ∷ codes "7"))
unfolding text_eq
apart e = ground (arith, (text_eq_iff (codes "a/8") (codes "a/7")).1 e)

two_jobs-Nodup : Nodup (map job_key two_jobs.jobs)
two_jobs-Nodup =
    unfold job_key in
    Nodup-cons.1 ((λ m. apart (only_mem m)), Nodup-cons.1 ((λ m. not-mem-nil m), Pairwise.nil))

append_snapshot-contents_example :
    let (s, err) = append_snapshot codec by_job_id 101 two_jobs archive in
    (err ≡ none)
    × (contents s
        ≡ entry codec (codes "observation") (observation_of two_jobs)
          ∷ map (λ j. entry codec event (changed j)) (news codec [] (by_job_id.sort two_jobs.jobs)))
    × ((j : JobRecord ℤ) → Mem j two_jobs.jobs → is_known codec s.state.jobs j ≡ true)
append_snapshot-contents_example =
    append_snapshot-contents codec by_job_id 101 two_jobs archive encodes archive-IsHealthy
      two_jobs-Nodup
