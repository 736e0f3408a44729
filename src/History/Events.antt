-- ===== src/History/Events.antt =====
-- What `AppendSnapshot` of internal/history/store.go writes, while no file operation fails.
pub mod Growth
use mathlib.Core.List.{
  Mem, Nodup, Nodup-cons, not-mem-nil, eq-or-mem_of_mem-cons, mem-cons_self, mem-cons_of_mem,
}
use mathlib.Core.Logic.Or
use mathlib.Core.List.Perm
use slurm_insights_exporter.Prelude.{
  ◌≡◌, refl, sym, ◌∙◌, ap, subst, true, false, not, Bool-cases, List, [], ◌∷◌, ◌++◌, append_assoc,
  append-nil, map, map-append, filter, Option, none, some, inl, inr, Text, Dict, codes, arith, All,
  All-mem, text_eq, text_eq_iff,
}
use slurm_insights_exporter.Model.{Time, JobRecord, Snapshot}
use slurm_insights_exporter.Sorting.{SliceSort}
use slurm_insights_exporter.History.{
  Store, Codec, Payload, changed, Envelope, Line, whole, torn, append, append_raw, write_envelope,
  write_line, envelope, append_jobs, append_snapshot, after_jobs, after_observation, observation_of,
  save_state, remember, is_known, job_key, text_or_empty, replace_state,
}
use slurm_insights_exporter.History.Induction.{event, append_jobs_old, append_jobs_new}
use slurm_insights_exporter.History.Chain.{envelopes}
use slurm_insights_exporter.History.Dedup.{
  AllKnown, append-jobs, is_known-remember, is_known-remember_self,
}
use slurm_insights_exporter.History.Healthy.{
  IsHealthy, IsDone, Encodes, append-IsDone, append_jobs-IsDone, remember-IsHealthy,
  append_snapshot-IsDone,
}

-- The kinds and payloads of the whole lines of an archive.
abbrev pub contents : Store → List (Text × Text)
contents s = map (λ e. (e.kind, e.payload)) (envelopes s.disk.lines)

pub only_mem : {a b : Text} → Mem a (b ∷ []) → a ≡ b
only_mem m = Or.elim (hlevel) (eq-or-mem_of_mem-cons m) (λ e. e) (λ t. absurd (not-mem-nil t))

envelopes-append :
    (ls : List (Text × Line)) (path : Text) (e : Envelope)
    → envelopes (ls ++ (path, whole e) ∷ []) ≡ envelopes ls ++ e ∷ []
envelopes-append [] path e = refl
envelopes-append ((p, whole d) ∷ ls) path e = ap (◌∷◌ d) (envelopes-append ls path e)
envelopes-append ((p, torn d) ∷ ls) path e = envelopes-append ls path e

module _ {F : Type 0} (codec : Codec F) where
  -- The line of a value: its kind and its encoding.
  abbrev pub entry : Text → Payload F → Text × Text
  entry kind v = (kind, text_or_empty (codec.marshal v))

  module _ (total : Encodes codec) where
    append_raw-contents :
        (s : Store) (kind : Text) (at : Time) (raw : Text)
        → IsHealthy s
        → contents (append_raw codec s kind at raw).0 ≡ contents s ++ (kind, raw) ∷ []
    unfolding append_raw write_envelope write_line envelope
    append_raw-contents s kind at raw h =
        rw (h.no_faults, envelopes-append s.disk.lines)
          (map-append _ (envelopes s.disk.lines) (_ ∷ []))

    append-contents :
        (s : Store) (kind : Text) (at : Time) (v : Payload F)
        → IsHealthy s
        → contents (append codec s kind at v).0 ≡ contents s ++ entry kind v ∷ []
    unfolding append
    append-contents s kind at v h =
        let (raw, e) = total.marshals v in rw (e, append) (append_raw-contents s kind at raw h)

  -- The jobs whose fingerprint is not that of the index.
  abbrev pub news : Dict Text → List (JobRecord F) → List (JobRecord F)
  news jobs = filter (λ j. not (is_known codec jobs j))

  -- Two indexes know the same jobs of a list.
  abbrev Agree : Dict Text → Dict Text → List (JobRecord F) → Type 0
  Agree m n = All (λ j. is_known codec m j ≡ is_known codec n j)

  news-Agree : (m n : Dict Text) (js : List (JobRecord F)) → Agree m n js → news m js ≡ news n js
  news-Agree m n [] h = refl
  news-Agree m n (j ∷ js) h = rw (h.0, news-Agree m n js h.1) refl

  -- Taking in a job changes nothing for the jobs of other keys.
  remember-Agree :
      (s : Store) (j : JobRecord F) (js : List (JobRecord F))
      → ¬ Mem (job_key j) (map job_key js)
      → Agree (remember codec s j).state.jobs s.state.jobs js
  remember-Agree s j [] n = tt
  remember-Agree s j (i ∷ js) n = (
    elim (Bool-cases (text_eq (job_key j) (job_key i))) [
      | inl same ↦ absurd (
          n (
            subst (λ k. Mem k (map job_key (i ∷ js)))
              (sym ((text_eq_iff (job_key j) (job_key i)).0 same)) mem-cons_self))
      | inr other ↦ is_known-remember codec s i j ∙ rw other refl
    ],
    remember-Agree s j js (λ m. n (mem-cons_of_mem (job_key i) m)),
  )

  Agree-trans :
      (l m n : Dict Text) (js : List (JobRecord F)) → Agree l m js → Agree m n js → Agree l n js
  Agree-trans l m n [] h k = tt
  Agree-trans l m n (j ∷ js) h k = (h.0 ∙ k.0, Agree-trans l m n js h.1 k.1)

  -- The lines and the index behind the loop over the jobs, if no job key stands twice.
  module _ (total : Encodes codec) (at : Time) where
    -- The store behind the event of a job that is not known.
    abbrev told : Store → JobRecord F → Store
    told s j = remember codec (append codec s event at (changed j)).0 j

    told-IsHealthy : (s : Store) (j : JobRecord F) → IsHealthy s → IsHealthy (told s j)
    told-IsHealthy s j h =
        remember-IsHealthy codec total _ j (append-IsDone codec total s event at (changed j) h).1

    told-contents :
        (s : Store) (j : JobRecord F)
        → IsHealthy s
        → contents (told s j) ≡ contents s ++ entry event (changed j) ∷ []
    told-contents s j h = unfold remember in append-contents total s event at (changed j) h

    told-Agree :
        (s : Store) (j : JobRecord F) (js : List (JobRecord F))
        → ¬ Mem (job_key j) (map job_key js)
        → Agree (told s j).state.jobs s.state.jobs js
    told-Agree s j js n =
        subst (λ m. Agree (told s j).state.jobs m js) (append-jobs codec s event at (changed j))
          (remember-Agree (append codec s event at (changed j)).0 j js n)

    append_jobs-told :
        (s : Store) (j : JobRecord F) (js : List (JobRecord F))
        → IsHealthy s
        → is_known codec s.state.jobs j ≡ false
        → append_jobs codec at (j ∷ js) s ≡ append_jobs codec at js (told s j)
    append_jobs-told s j js h new =
        append_jobs_new codec at j js s new (append-IsDone codec total s event at (changed j) h).0

    append_jobs-contents :
        (js : List (JobRecord F)) (s : Store)
        → IsHealthy s
        → Nodup (map job_key js)
        → contents (append_jobs codec at js s).0
          ≡ contents s ++ map (λ j. entry event (changed j)) (news s.state.jobs js)
    append_jobs-contents [] s h d = unfold append_jobs in sym (append-nil (contents s))
    append_jobs-contents (j ∷ js) s h d =
        let (fresh, rest) = Nodup-cons.0 d in
        elim (Bool-cases (is_known codec s.state.jobs j)) [
          | inl old ↦
              rw (append_jobs_old codec at j js s old, old) (append_jobs-contents js s h rest)
          | inr new ↦
              rw (append_jobs-told s j js h new, new)
                (append_jobs-contents js (told s j) (told-IsHealthy s j h) rest
                  ∙ rw
                      (
                        told-contents s j h,
                        news-Agree (told s j).state.jobs s.state.jobs js (told-Agree s j js fresh),
                      )
                      (append_assoc (contents s) (_ ∷ []) _))
        ]

    append_jobs-other :
        (js : List (JobRecord F)) (s : Store) (i : JobRecord F)
        → IsHealthy s
        → ¬ Mem (job_key i) (map job_key js)
        → is_known codec (append_jobs codec at js s).0.state.jobs i ≡ is_known codec s.state.jobs i
    append_jobs-other [] s i h n = unfold append_jobs in refl
    append_jobs-other (j ∷ js) s i h n =
        let n' : ¬ Mem (job_key i) (map job_key js) = λ m. n (mem-cons_of_mem (job_key j) m) in
        elim (Bool-cases (is_known codec s.state.jobs j)) [
          | inl old ↦ rw (append_jobs_old codec at j js s old) (append_jobs-other js s i h n')
          | inr new ↦ rw (append_jobs-told s j js h new) (
              append_jobs-other js (told s j) i (told-IsHealthy s j h) n'
              ∙ (told-Agree s j (i ∷ []) (λ m.
                  n (subst (λ k. Mem k (map job_key (j ∷ js))) (only_mem m) mem-cons_self))).0)
        ]

    append_jobs-is_known_all :
        (js : List (JobRecord F)) (s : Store)
        → IsHealthy s
        → Nodup (map job_key js)
        → AllKnown codec js (append_jobs codec at js s)
    append_jobs-is_known_all [] s h d = tt
    append_jobs-is_known_all (j ∷ js) s h d =
        let (fresh, rest) = Nodup-cons.0 d in
        elim (Bool-cases (is_known codec s.state.jobs j)) [
          | inl old ↦
              subst (AllKnown codec (j ∷ js)) (sym (append_jobs_old codec at j js s old))
                (append_jobs-other js s j h fresh ∙ old, append_jobs-is_known_all js s h rest)
          | inr new ↦ subst (AllKnown codec (j ∷ js)) (sym (append_jobs-told s j js h new)) (
            append_jobs-other js (told s j) j (told-IsHealthy s j h) fresh
                ∙ is_known-remember_self codec _ j,
            append_jobs-is_known_all js (told s j) (told-IsHealthy s j h) rest,
          )
        ]

    save_state-kept :
        (s : Store)
        → (contents (save_state codec s).0 ≡ contents s)
          × ((save_state codec s).0.state.jobs ≡ s.state.jobs)
    unfolding save_state replace_state
    save_state-kept s = (ground arith, ground arith)

    after_jobs-kept :
        (now : Time) (r : Store × Option Text)
        → r.1 ≡ none
        → (contents (after_jobs codec now r).0 ≡ contents r.0)
          × ((after_jobs codec now r).0.state.jobs ≡ r.0.state.jobs)
    unfolding after_jobs
    after_jobs-kept now (s, none) e = save_state-kept (record s { last_write = now })
    after_jobs-kept now (s, some x) e = absurd (ground (arith, e))

    after_observation-kept :
        (now : Time) (js : List (JobRecord F)) (r : Store × Option Text)
        → IsDone r
        → let r' = after_observation codec now at js r in
          (contents r'.0 ≡ contents (append_jobs codec at js r.0).0)
          × (r'.0.state.jobs ≡ (append_jobs codec at js r.0).0.state.jobs)
    unfolding after_observation
    after_observation-kept now js (s, none) h =
        after_jobs-kept now (append_jobs codec at js s)
          (append_jobs-IsDone codec total at js s h.1).0
    after_observation-kept now js (s, some x) h = absurd (ground (arith, h.0))

  -- While no file operation fails and every value can be encoded, archiving a snapshot in which no job
  -- key stands twice reports no error, and writes exactly its observation and then, in the order of the
  -- job ids, an event for each job whose fingerprint is not that of the index; and then all its jobs are
  -- known to the index.
  pub append_snapshot-contents :
      (by_job_id : SliceSort {A = JobRecord F} (λ j. j.job_id)) (now : Time) (snap : Snapshot F)
      (s : Store)
      → Encodes codec
      → IsHealthy s
      → Nodup (map job_key snap.jobs)
      → let (s', err) = append_snapshot codec by_job_id now snap s in
        (err ≡ none)
        × (contents s'
            ≡ contents s
              ++ entry (codes "observation") (observation_of snap)
                ∷ map (λ j. entry event (changed j)) (news s.state.jobs (by_job_id.sort snap.jobs)))
        × ((j : JobRecord F) → Mem j snap.jobs → is_known codec s'.state.jobs j ≡ true)
  unfolding append_snapshot
  append_snapshot-contents by_job_id now snap s total h d =
      let at = snap.collected_at in
      let js = by_job_id.sort snap.jobs in
      let sorted = by_job_id.sort-perm snap.jobs in
      let d' : Nodup (map job_key js) = Perm.nodup (Perm.map job_key (Perm.symm sorted)) d in
      let first = append codec s (codes "observation") at (observation_of snap) in
      let done = append-IsDone codec total s (codes "observation") at (observation_of snap) h in
      let kept = after_observation-kept total at now js first done in
      let lines = append-contents total s (codes "observation") at (observation_of snap) h in
      let same = append-jobs codec s (codes "observation") at (observation_of snap) in
      (
        (append_snapshot-IsDone codec total by_job_id now snap s h).0,
        kept.0
            ∙ append_jobs-contents total at js first.0 done.1 d'
            ∙ rw (lines, same) (append_assoc (contents s) (_ ∷ []) _),
        (λ j m.
            ap (λ jobs. is_known codec jobs j) kept.1
            ∙ All-mem (λ i. is_known codec (append_jobs codec at js first.0).0.state.jobs i ≡ true)
                (λ i. hlevel) js (append_jobs-is_known_all total at js first.0 done.1 d') j
                (Perm.subset (Perm.symm sorted) j m)),
      )
