-- ===== src/History/Events/Growth.antt =====
-- The archive of internal/history/store.go grows behind the lines that it has.
use slurm_insights_exporter.Prelude.{
  ◌≡◌, sym, ◌∙◌, Bool-cases, inl, inr, List, [], ◌∷◌, ◌++◌, append_assoc, append-nil, Text, codes,
}
use slurm_insights_exporter.Model.{Time, JobRecord, Snapshot}
use slurm_insights_exporter.Sorting.{SliceSort}
use slurm_insights_exporter.History.{
  Store, Codec, changed, append, append_jobs, append_snapshot, observation_of, is_known,
}
use slurm_insights_exporter.History.Induction.{event, append_jobs_old}
use slurm_insights_exporter.History.Healthy.{IsHealthy, Encodes, append-IsDone}
use slurm_insights_exporter.History.Events.{
  contents, entry, append-contents, told, told-IsHealthy, told-contents, append_jobs-told,
  after_observation-kept,
}

-- What the second archive has behind the first.
abbrev pub Behind : Store → List (Text × Text) → Store → Type 0
Behind s es s' = contents s' ≡ contents s ++ es

module _ {F : Type 0} (codec : Codec F) (total : Encodes codec) where
  append_jobs-Behind :
      (at : Time) (js : List (JobRecord F)) (s : Store)
      → IsHealthy s
      → (es : List (Text × Text)) × Behind s es (append_jobs codec at js s).0
  append_jobs-Behind at [] s h = ([], unfold append_jobs in sym (append-nil (contents s)))
  append_jobs-Behind at (j ∷ js) s h = elim (Bool-cases (is_known codec s.state.jobs j)) [
    | inl old ↦
        let (es, e) = append_jobs-Behind at js s h in
        (es, rw (append_jobs_old codec at j js s old) e)
    | inr new ↦
        let s' = told codec total at s j in
        let (es, e) = append_jobs-Behind at js s' (told-IsHealthy codec total at s j h) in
        (
          entry codec event (changed j) ∷ es,
          rw (append_jobs-told codec total at s j js h new) (
              e
              ∙ rw (told-contents codec total at s j h)
                  (append_assoc (contents s) (entry codec event (changed j) ∷ []) es)),
        )
  ]

  -- Archiving a snapshot leaves all lines and adds its observation, and then events of jobs, if no file
  -- operation fails and every value can be encoded.
  pub append_snapshot-Behind :
      (by_job_id : SliceSort {A = JobRecord F} (λ j. j.job_id)) (now : Time) (snap : Snapshot F)
      (s : Store)
      → IsHealthy s
      → (es : List (Text × Text)) × Behind s
          (entry codec (codes "observation") (observation_of snap) ∷ es)
          (append_snapshot codec by_job_id now snap s).0
  unfolding append_snapshot
  append_snapshot-Behind by_job_id now snap s h =
      let at = snap.collected_at in
      let js = by_job_id.sort snap.jobs in
      let first = append codec s (codes "observation") at (observation_of snap) in
      let done = append-IsDone codec total s (codes "observation") at (observation_of snap) h in
      let lines = append-contents codec total s (codes "observation") at (observation_of snap) h in
      let (es, e) = append_jobs-Behind at js first.0 done.1 in
      (
        es,
        (after_observation-kept codec total at now js first done).0
            ∙ e
            ∙ rw lines (append_assoc (contents s) (_ ∷ []) es),
      )
