-- ===== src/History/Restart.antt =====
-- What a restart finds: the state file of internal/history/store.go.
use mathlib.Core.Option
use slurm_insights_exporter.Prelude.{◌≡◌, refl, sym, List, Option, none, some, Text, arith}
use slurm_insights_exporter.Model.{Time, JobRecord, Snapshot}
use slurm_insights_exporter.Sorting.{SliceSort}
use slurm_insights_exporter.History.{
  State, Store, Codec, Payload, append, append_raw, write_envelope, append_snapshot, after_jobs,
  after_observation, save_state, replace_state, remember, open_store, opened,
}
use slurm_insights_exporter.History.Induction.{append_jobs_keeps}

module _ {F : Type 0} (codec : Codec F) where
  -- The state file holds `file`.
  abbrev HasFile : Option Text → Store → Type 0
  HasFile file s = s.disk.state_file ≡ file

  append-HasFile :
      (file : Option Text) (s : Store) (kind : Text) (at : Time) (v : Payload F)
      → HasFile file s
      → HasFile file (append codec s kind at v).0
  unfolding append append_raw write_envelope
  append-HasFile file s kind at v h = ground arith

  remember-HasFile :
      (file : Option Text) (s : Store) (j : JobRecord F)
      → HasFile file s
      → HasFile file (remember codec s j)
  unfolding remember
  remember-HasFile file s j h = h

  -- What a call leaves in the state file: the new state if it reports no error, else the old file.
  abbrev pub IsSaved : Option Text → Store × Option Text → Type 0
  IsSaved file (s, none) =
      (b : Text) × (codec.encode_state s.state ≡ some b) × (s.disk.state_file ≡ some b)
  IsSaved file (s, some e) = s.disk.state_file ≡ file

  replace_state-IsSaved :
      (file : Option Text) (s : Store) (encoded written renamed : Option Text)
      → encoded ≡ codec.encode_state s.state
      → HasFile file s
      → IsSaved file (replace_state s encoded written renamed)
  unfolding replace_state
  replace_state-IsSaved file s none written renamed e h = h
  replace_state-IsSaved file s (some b) (some x) renamed e h = h
  replace_state-IsSaved file s (some b) none (some x) e h = h
  replace_state-IsSaved file s (some b) none none e h = (b, sym e, refl)

  save_state-IsSaved :
      (file : Option Text) (s : Store) → HasFile file s → IsSaved file (save_state codec s)
  unfolding save_state
  save_state-IsSaved file s h = replace_state-IsSaved file s _ _ _ refl h

  after_jobs-IsSaved :
      (file : Option Text) (now : Time) (r : Store × Option Text)
      → HasFile file r.0
      → IsSaved file (after_jobs codec now r)
  unfolding after_jobs
  after_jobs-IsSaved file now (s, none) h =
      save_state-IsSaved file (record s { last_write = now }) h
  after_jobs-IsSaved file now (s, some e) h = h

  after_observation-IsSaved :
      (file : Option Text) (now at : Time) (js : List (JobRecord F)) (r : Store × Option Text)
      → HasFile file r.0
      → IsSaved file (after_observation codec now at js r)
  unfolding after_observation
  after_observation-IsSaved file now at js (s, none) h = after_jobs-IsSaved file now _ (
      append_jobs_keeps codec (HasFile file) (append-HasFile file) (remember-HasFile file) at js s
        h)
  after_observation-IsSaved file now at js (s, some e) h = h

  append_snapshot-IsSaved :
      (by_job_id : SliceSort {A = JobRecord F} (λ j. j.job_id)) (now : Time) (snap : Snapshot F)
      (s : Store)
      → IsSaved s.disk.state_file (append_snapshot codec by_job_id now snap s)
  unfolding append_snapshot
  append_snapshot-IsSaved by_job_id now snap s =
      after_observation-IsSaved s.disk.state_file now snap.collected_at _ _
        (append-HasFile s.disk.state_file s _ _ _ refl)

  IsSaved-none :
      (file : Option Text) (r : Store × Option Text)
      → IsSaved file r
      → r.1 ≡ none
      → (b : Text) × (codec.encode_state r.0.state ≡ some b) × (r.0.disk.state_file ≡ some b)
  IsSaved-none file (s, none) h e = h
  IsSaved-none file (s, some x) h e = absurd (cc)

  module _ (by_job_id : SliceSort {A = JobRecord F} (λ j. j.job_id)) (now : Time)
      (snap : Snapshot F) (s : Store) (dir : Text) where
    -- A store that is opened after a snapshot was archived with no error has the state that the
    -- call left, so numbering, chain and job index go on, if the state file's format reads back.
    pub open_store-append_snapshot :
        ((st : State) (b : Text)
          → codec.encode_state st ≡ some b
          → codec.decode_state b
            ≡ some
                (record { sequence = st.sequence; last_hash = st.last_hash; jobs = some st.jobs }))
        → (append_snapshot codec by_job_id now snap s).1 ≡ none
        → let s' = (append_snapshot codec by_job_id now snap s).0 in
          open_store codec dir none none s'.disk ≡ some (opened dir s'.disk s'.state)
    unfolding open_store
    open_store-append_snapshot reads e =
        let r = append_snapshot codec by_job_id now snap s in
        let (b, encoded, file) =
          IsSaved-none _ r (append_snapshot-IsSaved by_job_id now snap s) e in
        ground (arith, encoded, file, reads r.0.state b)
