-- ===== src/History/Dedup.antt =====
-- The job index of internal/history/store.go: a job whose record has not changed is not written.
use mathlib.Core.List.{Mem}
use mathlib.Core.List.Perm
use slurm_insights_exporter.Prelude.{
  All-of_mem, ◌≡◌, refl, sym, ◌∙◌, ap, subst, true, Bool-cases, List, [], ◌∷◌, Option, none, some,
  Option-cases, inl, inr, Text, codes, arith, All, lookup-insert, text_eq, text_eq_iff,
  text_eq_refl, if◌then◌else◌,
}
use slurm_insights_exporter.Model.{Time, JobRecord, Snapshot}
use slurm_insights_exporter.Sorting.{SliceSort}
use slurm_insights_exporter.History.{
  Store, Codec, Payload, changed, Reached, Envelope, append, append_raw, write_envelope,
  append_jobs, append_snapshot, after_jobs, after_observation, observation_of, save_state, remember,
  is_known, fingerprint, job_key,
}
use slurm_insights_exporter.History.Induction.{
  event, append_jobs_old, append_jobs_new, append_jobs_error,
}

module _ {F : Type 0} (codec : Codec F) where
  write_envelope-jobs :
      (s : Store) (opened : Option Text) (reached : Reached) (outcome : Option Text) (path : Text)
      (e : Envelope)
      → (write_envelope codec s opened reached outcome path e).0.state.jobs ≡ s.state.jobs
  unfolding write_envelope
  write_envelope-jobs s (some x) reached outcome path e = refl
  write_envelope-jobs s none reached (some x) path e = refl
  write_envelope-jobs s none reached none path e = refl

  pub append-jobs :
      (s : Store) (kind : Text) (at : Time) (v : Payload F)
      → (append codec s kind at v).0.state.jobs ≡ s.state.jobs
  unfolding append append_raw
  append-jobs s kind at v = elim (Option-cases (codec.marshal v)) [
    | inl e ↦ rw (e, append)
    | inr (raw, e) ↦ rw (e, append) (write_envelope-jobs _ _ _ _ _ _)
  ]

  save_state-jobs : (s : Store) → (save_state codec s).0.state.jobs ≡ s.state.jobs
  unfolding save_state
  save_state-jobs s = ground arith

  -- Behind `remember`, a job of the same key is known by its fingerprint.
  pub is_known-remember :
      (s : Store) (i j : JobRecord F)
      → is_known codec (remember codec s j).state.jobs i ≡ (
          if text_eq (job_key j) (job_key i)
          then text_eq (fingerprint codec j) (fingerprint codec i)
          else is_known codec s.state.jobs i)
  unfolding is_known remember
  is_known-remember s i j = rw lookup-insert (ground arith)

  pub is_known-remember_self :
      (s : Store) (j : JobRecord F) → is_known codec (remember codec s j).state.jobs j ≡ true
  is_known-remember_self s j =
      rw (is_known-remember, text_eq_refl (job_key j)) (text_eq_refl (fingerprint codec j))

  -- Every job of the list is in the index, with its fingerprint.
  abbrev pub AllKnown : List (JobRecord F) → Store × Option Text → Type 0
  AllKnown js r = All (λ j. is_known codec r.0.state.jobs j ≡ true) js

  module _ (prints : Text → Text) where
    -- The jobs of one key have one fingerprint.
    abbrev pub IsConsistent : List (JobRecord F) → Type 0
    IsConsistent = All (λ j. fingerprint codec j ≡ prints (job_key j))

    is_known-remember_keeps :
        (s : Store) (i j : JobRecord F)
        → fingerprint codec i ≡ prints (job_key i)
        → fingerprint codec j ≡ prints (job_key j)
        → is_known codec s.state.jobs i ≡ true
        → is_known codec (remember codec s j).state.jobs i ≡ true
    is_known-remember_keeps s i j p q k = rw is_known-remember (
        ground (
          arith,
          text_eq_iff (job_key j) (job_key i),
          text_eq_iff (fingerprint codec j) (fingerprint codec i),
          ap prints,
        ))

    append_jobs-is_known :
        (at : Time) (js : List (JobRecord F)) (s : Store) (i : JobRecord F)
        → fingerprint codec i ≡ prints (job_key i)
        → IsConsistent js
        → is_known codec s.state.jobs i ≡ true
        → is_known codec (append_jobs codec at js s).0.state.jobs i ≡ true
    append_jobs-is_known at [] s i p c k = unfold append_jobs in k
    append_jobs-is_known at (j ∷ js) s i p c k =
        let r = append codec s event at (changed j) in
        let kept : is_known codec r.0.state.jobs i ≡ true = rw append-jobs k in
        elim (Bool-cases (is_known codec s.state.jobs j)) [
          | inl old ↦
              rw (append_jobs_old codec at j js s old) (append_jobs-is_known at js s i p c.1 k)
          | inr new ↦ elim (Option-cases r.1) [
            | inl e ↦ rw (append_jobs_new codec at j js s new e) (
                append_jobs-is_known at js (remember codec r.0 j) i p c.1
                  (is_known-remember_keeps r.0 i j p c.0 kept))
            | inr (x, e) ↦ rw (append_jobs_error codec at j js s new e) kept
          ]
        ]

    -- Behind a loop with no error every job is known.
    append_jobs-All :
        (at : Time) (js : List (JobRecord F)) (s : Store)
        → IsConsistent js
        → (append_jobs codec at js s).1 ≡ none
        → AllKnown js (append_jobs codec at js s)
    append_jobs-All at [] s c e = tt
    append_jobs-All at (j ∷ js) s c e =
        let r = append codec s event at (changed j) in
        elim (Bool-cases (is_known codec s.state.jobs j)) [
          | inl old ↦
              let here = append_jobs_old codec at j js s old in
              subst (AllKnown (j ∷ js)) (sym here) (
                append_jobs-is_known at js s j c.0 c.1 old,
                append_jobs-All at js s c.1 (rw here at e),
              )
          | inr new ↦ elim (Option-cases r.1) [
            | inl ok ↦
                let next = remember codec r.0 j in
                let here = append_jobs_new codec at j js s new ok in
                subst (AllKnown (j ∷ js)) (sym here) (
                  append_jobs-is_known at js next j c.0 c.1 (is_known-remember_self r.0 j),
                  append_jobs-All at js next c.1 (rw here at e),
                )
            | inr (x, failed) ↦
                absurd (ground (arith, append_jobs_error codec at j js s new failed))
          ]
        ]

  -- A loop over known jobs does nothing.
  append_jobs_known :
      (at : Time) (js : List (JobRecord F)) (s : Store)
      → All (λ j. is_known codec s.state.jobs j ≡ true) js
      → append_jobs codec at js s ≡ (s, none)
  append_jobs_known at [] s k = unfold append_jobs in refl
  append_jobs_known at (j ∷ js) s k =
      append_jobs_old codec at j js s k.0 ∙ append_jobs_known at js s k.1

  module _ (prints : Text → Text) (at : Time) (js : List (JobRecord F)) where
    after_jobs-AllKnown :
        (now : Time) (r : Store × Option Text)
        → (r.1 ≡ none → AllKnown js r)
        → (after_jobs codec now r).1 ≡ none
        → AllKnown js (after_jobs codec now r)
    unfolding after_jobs
    after_jobs-AllKnown now (s, some e) h n = absurd (cc)
    after_jobs-AllKnown now (s, none) h n = rw save_state-jobs (h refl)

    after_observation-AllKnown :
        (now : Time) (r : Store × Option Text)
        → IsConsistent prints js
        → (after_observation codec now at js r).1 ≡ none
        → AllKnown js (after_observation codec now at js r)
    unfolding after_observation
    after_observation-AllKnown now (s, some e) c n = absurd (cc)
    after_observation-AllKnown now (s, none) c n =
        after_jobs-AllKnown now _ (append_jobs-All prints at js s c) n

  after_observation_known :
      (now at : Time) (js : List (JobRecord F)) (r : Store × Option Text)
      → r.1 ≡ none
      → AllKnown js r
      → after_observation codec now at js r ≡ after_jobs codec now (r.0, none)
  unfolding after_observation
  after_observation_known now at js (s, some e) n k = absurd (cc)
  after_observation_known now at js (s, none) n k = rw (append_jobs_known at js s k)

  -- After a snapshot is archived with no error, archiving it again writes its observation and no
  -- job event, and leaves the job index alone, if the observation is written with no error and the
  -- snapshot's jobs of one cluster and id have one fingerprint.
  pub append_snapshot_again :
      (by_job_id : SliceSort {A = JobRecord F} (λ j. j.job_id)) (prints : Text → Text)
      (now now' : Time) (snap : Snapshot F) (s : Store)
      → ((j : JobRecord F) → Mem j snap.jobs → fingerprint codec j ≡ prints (job_key j))
      → (append_snapshot codec by_job_id now snap s).1 ≡ none
      → (append codec
          (append_snapshot codec by_job_id now snap s).0
          (codes "observation")
          snap.collected_at
          (observation_of snap)).1
        ≡ none
      → let s1 = (append_snapshot codec by_job_id now snap s).0 in
        let s2 =
          (append codec s1 (codes "observation") snap.collected_at (observation_of snap)).0 in
        (append_snapshot codec by_job_id now' snap s1
          ≡ save_state codec (record s2 { last_write = now' }))
        × (s2.state.jobs ≡ s1.state.jobs)
  unfolding append_snapshot
  append_snapshot_again by_job_id prints now now' snap s c e1 e2 =
      let js = by_job_id.sort snap.jobs in
      let at = snap.collected_at in
      let first = append codec s (codes "observation") at (observation_of snap) in
      let s1 = (after_observation codec now at js first).0 in
      let again = append codec s1 (codes "observation") at (observation_of snap) in
      let consistent : IsConsistent prints js =
        All-of_mem js (λ j m. c j (Perm.subset (by_job_id.sort-perm snap.jobs) j m)) in
      let known = after_observation-AllKnown prints at js now first consistent e1 in
      (
        after_observation_known now' at js again e2 (rw append-jobs known)
            ∙ unfold after_jobs in refl,
        append-jobs s1 (codes "observation") at (observation_of snap),
      )
