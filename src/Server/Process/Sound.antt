-- ===== src/Server/Process/Sound.antt =====
-- The archive of every process that can be reached.
use slurm_insights_exporter.Prelude.{◌≡◌, refl, subst, [], none, some, Text, arith}
use slurm_insights_exporter.Float.{Float}
use slurm_insights_exporter.Model.{Time, JobRecord, Snapshot}
use slurm_insights_exporter.Sorting.{SliceSort}
use slurm_insights_exporter.History.{
  State, Codec, Store, opened, open_store, fresh_state, append_snapshot,
}
use slurm_insights_exporter.History.Chain.{IsChain, append_snapshot-IsChain}
use slurm_insights_exporter.History.Numbering.{IsNumbered, append_snapshot-IsNumbered}
use slurm_insights_exporter.History.Restart.{open_store-append_snapshot}
use slurm_insights_exporter.History.Healthy.{IsHealthy, Encodes, append_snapshot-IsDone}
use slurm_insights_exporter.Server.Process.{
  Process, Deployment, Step, waits, requests, takes, writes, restarts, Reach, here, later, clock,
}

-- The state file's format reads back.
abbrev pub ReadsBack : {F : Type 0} → Codec F → Type 0
ReadsBack codec =
    (st : State) (b : Text)
    → codec.encode_state st ≡ some b
    → codec.decode_state b
      ≡ some (record { sequence = st.sequence; last_hash = st.last_hash; jobs = some st.jobs })

module _ {F : Type 0} (codec : Codec F) where
  pub record IsSound (s : Store) : Type 0 where
    pub chain : IsChain codec [] s.disk.lines s.state.last_hash
    pub numbered : IsNumbered 0 s.disk.lines s.state.sequence
    pub healthy : IsHealthy s
    pub resumes : open_store codec s.dir none none s.disk ≡ some (opened s.dir s.disk s.state)

  module _ (total : Encodes codec) (reads : ReadsBack codec)
      (by_job_id : SliceSort {A = JobRecord F} (λ j. j.job_id)) where
    append_snapshot-IsSound :
        (now : Time) (snap : Snapshot F) (s : Store)
        → IsSound s
        → IsSound (append_snapshot codec by_job_id now snap s).0
    append_snapshot-IsSound now snap s h =
        let s' = (append_snapshot codec by_job_id now snap s).0 in
        let (ok, healthy) = append_snapshot-IsDone codec total by_job_id now snap s h.healthy in
        record {
          chain =
              append_snapshot-IsChain codec by_job_id now snap s (rw (h.healthy.no_faults) tt)
                h.chain;
          numbered =
              append_snapshot-IsNumbered codec by_job_id now snap s h.healthy.no_faults h.numbered;
          healthy = healthy;
          resumes = open_store-append_snapshot codec by_job_id now snap s s'.dir reads ok;
        }

  opened-IsSound :
      (s s' : Store) → IsSound s → open_store codec s.dir none none s.disk ≡ some s' → IsSound s'
  opened-IsSound s s' h e =
      let same : opened s.dir s.disk s.state ≡ s' = ground (arith, h.resumes, e) in
      subst IsSound same (record {
        chain = h.chain;
        numbered = h.numbered;
        healthy = record {
          no_faults = h.healthy.no_faults;
          writes = h.healthy.writes;
          renames = h.healthy.renames;
        };
        resumes = h.resumes;
      })

module _ {F W : Type 0} ⦃fl : Float F⦄ (d : Deployment F W) (total : Encodes d.codec)
    (reads : ReadsBack d.codec) where
  Step-IsSound :
      {p q : Process F W} → Step d p q → IsSound d.codec p.archive → IsSound d.codec q.archive
  Step-IsSound (waits env) h = h
  Step-IsSound (requests r) h = h
  Step-IsSound (takes e) h = h
  Step-IsSound {p} (writes {snap = snap} e) h =
      append_snapshot-IsSound d.codec total reads d.by_job_id (clock d p.world) snap p.archive h
  Step-IsSound {p} (restarts env archive e) h = opened-IsSound d.codec p.archive archive h e

  pub Reach-IsSound :
      {p q : Process F W} → Reach d p q → IsSound d.codec p.archive → IsSound d.codec q.archive
  Reach-IsSound here h = h
  Reach-IsSound (later r st) h = Step-IsSound st (Reach-IsSound r h)

  fresh_resumes :
      (s : Store)
      → s.disk.state_file ≡ none
      → s.state ≡ fresh_state
      → open_store d.codec s.dir none none s.disk ≡ some (opened s.dir s.disk s.state)
  unfolding open_store
  fresh_resumes s file state = ground (arith, file, state)

  pub fresh-IsSound :
      (s : Store)
      → IsHealthy s
      → s.disk.lines ≡ []
      → s.disk.state_file ≡ none
      → s.state ≡ fresh_state
      → IsSound d.codec s
  fresh-IsSound s h lines file state = record {
    chain = rw (lines, state) refl;
    numbered = rw (lines, state) refl;
    healthy = h;
    resumes = fresh_resumes s file state;
  }
