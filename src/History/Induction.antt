-- ===== src/History/Induction.antt =====
-- One rule for the loops of `AppendSnapshot`: what every `append` keeps, a snapshot keeps.
use slurm_insights_exporter.Prelude.{
  ℕ, ◌≡◌, List, [], ◌∷◌, Option, none, some, Text, codes, arith, Bool-cases, true, false,
  Option-cases, inl, inr,
}
use slurm_insights_exporter.Model.{Time, JobRecord, Snapshot}
use slurm_insights_exporter.Sorting.{SliceSort}
use slurm_insights_exporter.History.{
  Store, Codec, Payload, changed, Line, Fault, append, append_jobs, append_snapshot, save_state,
  after_jobs, after_observation, observation_of, remember, is_known,
}

-- A property of the lines, the outcomes to come, the sequence and the last hash.
abbrev pub Property : Type 1
Property = List (Text × Line) → List Fault → ℕ → Text → Type 0

abbrev pub At : Property → Store → Type 0
At P s = P s.disk.lines s.disk.faults s.state.sequence s.state.last_hash

abbrev pub event : Text
event = codes "job_state_change"

-- The three ways of a round of the loop.
module _ {F : Type 0} (codec : Codec F) (at : Time) (j : JobRecord F) (js : List (JobRecord F))
    (s : Store) where
  pub append_jobs_old :
      is_known codec s.state.jobs j ≡ true
      → append_jobs codec at (j ∷ js) s ≡ append_jobs codec at js s
  unfolding append_jobs
  append_jobs_old h = rw h

  pub append_jobs_new :
      is_known codec s.state.jobs j ≡ false
      → (append codec s event at (changed j)).1 ≡ none
      → append_jobs codec at (j ∷ js) s
        ≡ append_jobs codec at js (remember codec (append codec s event at (changed j)).0 j)
  unfolding append_jobs
  append_jobs_new h e = rw (h, e)

  pub append_jobs_error :
      {x : Text}
      → is_known codec s.state.jobs j ≡ false
      → (append codec s event at (changed j)).1 ≡ some x
      → append_jobs codec at (j ∷ js) s ≡ ((append codec s event at (changed j)).0, some x)
  unfolding append_jobs
  append_jobs_error h e = rw (h, e)

module _ {F : Type 0} (codec : Codec F) (P : Store → Type 0)
    (step : (s : Store) (kind : Text) (at : Time) (v : Payload F)
      → P s
      → P (append codec s kind at v).0)
    (noted : (s : Store) (j : JobRecord F) → P s → P (remember codec s j)) where
  -- The loop over the jobs keeps what each `append` and each entry in the index keeps.
  pub append_jobs_keeps :
      (at : Time) (js : List (JobRecord F)) (s : Store) → P s → P (append_jobs codec at js s).0
  unfolding append_jobs
  append_jobs_keeps at [] s h = h
  append_jobs_keeps at (j ∷ js) s h =
      let kept = step s event at (changed j) h in
      let r = append codec s event at (changed j) in
      elim (Bool-cases (is_known codec s.state.jobs j)) [
        | inl old ↦ rw (append_jobs_old codec at j js s old) (append_jobs_keeps at js s h)
        | inr new ↦ elim (Option-cases r.1) [
          | inl e ↦
              rw (append_jobs_new codec at j js s new e)
                (append_jobs_keeps at js (remember codec r.0 j) (noted r.0 j kept))
          | inr (x, e) ↦ rw (append_jobs_error codec at j js s new e) kept
        ]
      ]

module _ {F : Type 0} (codec : Codec F) (P : Property)
    (step : (s : Store) (kind : Text) (at : Time) (v : Payload F)
      → At P s
      → At P (append codec s kind at v).0) where
  noted_keeps : (s : Store) (j : JobRecord F) → At P s → At P (remember codec s j)
  unfolding remember
  noted_keeps s j h = h

  save_state_keeps : (s : Store) → At P s → At P (save_state codec s).0
  unfolding save_state
  save_state_keeps s h = ground arith

  after_jobs_keeps :
      (now : Time) (r : Store × Option Text) → At P r.0 → At P (after_jobs codec now r).0
  unfolding after_jobs
  after_jobs_keeps now (s, none) h = save_state_keeps (record s { last_write = now }) h
  after_jobs_keeps now (s, some e) h = h

  after_observation_keeps :
      (now at : Time) (js : List (JobRecord F)) (r : Store × Option Text)
      → At P r.0
      → At P (after_observation codec now at js r).0
  unfolding after_observation
  after_observation_keeps now at js (s, none) h =
      after_jobs_keeps now (append_jobs codec at js s)
        (append_jobs_keeps codec (At P) step noted_keeps at js s h)
  after_observation_keeps now at js (s, some e) h = h

  pub append_snapshot_keeps :
      (by_job_id : SliceSort {A = JobRecord F} (λ j. j.job_id)) (now : Time) (snap : Snapshot F)
      (s : Store)
      → At P s
      → At P (append_snapshot codec by_job_id now snap s).0
  unfolding append_snapshot
  append_snapshot_keeps by_job_id now snap s h =
      after_observation_keeps now snap.collected_at (by_job_id.sort snap.jobs)
        (append codec s (codes "observation") snap.collected_at (observation_of snap))
        (step s (codes "observation") snap.collected_at (observation_of snap) h)
