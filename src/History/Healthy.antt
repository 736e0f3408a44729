-- ===== src/History/Healthy.antt =====
-- The archive of internal/history/store.go while no file operation fails.
use slurm_insights_exporter.Prelude.{
  ◌≡◌, refl, Bool-cases, inl, inr, List, [], ◌∷◌, Option, none, some, Text, codes, arith,
}
use slurm_insights_exporter.Model.{Time, JobRecord, Snapshot}
use slurm_insights_exporter.Sorting.{SliceSort}
use slurm_insights_exporter.History.{
  State, Store, Codec, Payload, changed, append, append_raw, write_envelope, write_line,
  append_jobs, is_known, remember, append_snapshot, after_jobs, after_observation, observation_of,
  save_state, replace_state,
}
use slurm_insights_exporter.History.Induction.{append_jobs_old, append_jobs_new, event}

-- No file operation to come fails.
pub record IsHealthy (s : Store) : Type 0 where
  pub no_faults : s.disk.faults ≡ []
  pub writes : s.disk.write_error ≡ none
  pub renames : s.disk.rename_error ≡ none

-- What a call that succeeds leaves.
abbrev pub IsDone : Store × Option Text → Type 0
IsDone r = (r.1 ≡ none) × IsHealthy r.0

-- Every value can be encoded.
pub record Encodes {F : Type 0} (codec : Codec F) : Type 0 where
  pub marshals : (v : Payload F) → (raw : Text) × (codec.marshal v ≡ some raw)
  pub saves : (st : State) → (b : Text) × (codec.encode_state st ≡ some b)

module _ {F : Type 0} (codec : Codec F) (total : Encodes codec) where
  append_raw-IsDone :
      (s : Store) (kind : Text) (at : Time) (raw : Text)
      → IsHealthy s
      → IsDone (append_raw codec s kind at raw)
  unfolding append_raw write_envelope write_line
  append_raw-IsDone s kind at raw h =
      rw (h.no_faults) (refl, record { no_faults = refl; writes = h.writes; renames = h.renames })

  pub append-IsDone :
      (s : Store) (kind : Text) (at : Time) (v : Payload F)
      → IsHealthy s
      → IsDone (append codec s kind at v)
  unfolding append
  append-IsDone s kind at v h =
      let (raw, e) = total.marshals v in rw (e, append) (append_raw-IsDone s kind at raw h)

  pub remember-IsHealthy :
      (s : Store) (j : JobRecord F) → IsHealthy s → IsHealthy (remember codec s j)
  unfolding remember
  remember-IsHealthy s j h = record {
    no_faults = h.no_faults;
    writes = h.writes;
    renames = h.renames;
  }

  pub append_jobs-IsDone :
      (at : Time) (js : List (JobRecord F)) (s : Store)
      → IsHealthy s
      → IsDone (append_jobs codec at js s)
  append_jobs-IsDone at [] s h = unfold append_jobs in (refl, h)
  append_jobs-IsDone at (j ∷ js) s h = elim (Bool-cases (is_known codec s.state.jobs j)) [
    | inl old ↦ rw (append_jobs_old codec at j js s old) (append_jobs-IsDone at js s h)
    | inr new ↦
        let (ok, kept) = append-IsDone s event at (changed j) h in
        rw (append_jobs_new codec at j js s new ok)
          (append_jobs-IsDone at js _ (remember-IsHealthy _ j kept))
  ]

  replace_state-IsDone :
      (s : Store) (b : Text) (encoded written renamed : Option Text)
      → encoded ≡ some b
      → written ≡ none
      → renamed ≡ none
      → IsHealthy s
      → IsDone (replace_state s encoded written renamed)
  unfolding replace_state
  replace_state-IsDone s b encoded written renamed e w r h =
      rw (e, w, r)
        (refl, record { no_faults = h.no_faults; writes = h.writes; renames = h.renames })

  save_state-IsDone : (s : Store) → IsHealthy s → IsDone (save_state codec s)
  unfolding save_state
  save_state-IsDone s h =
      let (b, e) = total.saves s.state in replace_state-IsDone s b _ _ _ e h.writes h.renames h

  after_jobs-IsDone :
      (now : Time) (r : Store × Option Text) → IsDone r → IsDone (after_jobs codec now r)
  unfolding after_jobs
  after_jobs-IsDone now (s, none) h =
      save_state-IsDone (record s { last_write = now })
        (record { no_faults = h.1.no_faults; writes = h.1.writes; renames = h.1.renames })
  after_jobs-IsDone now (s, some e) h = absurd (ground (arith, h.0))

  after_observation-IsDone :
      (now at : Time) (js : List (JobRecord F)) (r : Store × Option Text)
      → IsDone r
      → IsDone (after_observation codec now at js r)
  unfolding after_observation
  after_observation-IsDone now at js (s, none) h =
      after_jobs-IsDone now (append_jobs codec at js s) (append_jobs-IsDone at js s h.1)
  after_observation-IsDone now at js (s, some e) h = absurd (ground (arith, h.0))

  -- A snapshot is archived with no error if no file operation fails and every value can be encoded.
  pub append_snapshot-IsDone :
      (by_job_id : SliceSort {A = JobRecord F} (λ j. j.job_id)) (now : Time) (snap : Snapshot F)
      (s : Store)
      → IsHealthy s
      → IsDone (append_snapshot codec by_job_id now snap s)
  unfolding append_snapshot
  append_snapshot-IsDone by_job_id now snap s h =
      after_observation-IsDone now snap.collected_at (by_job_id.sort snap.jobs) _
        (append-IsDone s (codes "observation") snap.collected_at (observation_of snap) h)
