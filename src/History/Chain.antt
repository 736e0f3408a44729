-- ===== src/History/Chain.antt =====
-- The hash chain of internal/history/store.go.
use slurm_insights_exporter.Prelude.{
  ◌+◌, ◌%◌, ◌^◌, ◌≡◌, ◌≢◌, refl, sym, ◌∙◌, List, [], ◌∷◌, ◌++◌, Option, none, some, Option-cases,
  inl, inr, Text, All, append-nil,
}
use slurm_insights_exporter.Model.{Time, JobRecord, Snapshot}
use slurm_insights_exporter.Sorting.{SliceSort}
use slurm_insights_exporter.History.{
  Store, Envelope, Codec, Payload, Line, whole, torn, Fault, Reached, nothing, all, write_outcome,
  append, append_raw, write_envelope, append_snapshot, envelope, next_fault, rest_faults,
}
use slurm_insights_exporter.History.Induction.{Property, At, append_snapshot_keeps}

-- A call that fails leaves nothing of its line in the file, and one that succeeds the whole line.
abbrev pub IsAllOrNothing : Option Text → Reached → Option Text → Type 0
IsAllOrNothing (some e) reached outcome = Unit
IsAllOrNothing none reached (some e) = reached ≡ nothing
IsAllOrNothing none reached none = reached ≡ all

abbrev pub IsAtomic : Fault → Type 0
IsAtomic f = IsAllOrNothing f.open_error f.reached (write_outcome f)

next-IsAtomic : (fs : List Fault) → All IsAtomic fs → IsAtomic (next_fault fs)
next-IsAtomic [] h = refl
next-IsAtomic (f ∷ fs) h = h.0

rest-IsAtomic : (fs : List Fault) → All IsAtomic fs → All IsAtomic (rest_faults fs)
rest-IsAtomic [] h = tt
rest-IsAtomic (f ∷ fs) h = h.1

-- The envelopes of the whole lines.
abbrev pub envelopes : List (Text × Line) → List Envelope
envelopes [] = []
envelopes ((path, whole e) ∷ ls) = e ∷ envelopes ls
envelopes ((path, torn e) ∷ ls) = envelopes ls

module _ {F : Type 0} (codec : Codec F) where
  -- The hash that belongs into an envelope.
  abbrev pub seal : Envelope → Text
  seal e = codec.sha256_hex (codec.canonical (record e { hash = [] }))

  -- Every line is whole, names the hash of the line before it, from `first` on, and holds its own
  -- hash; the last hash is `final`.
  abbrev pub IsChain : Text → List (Text × Line) → Text → Type 0
  IsChain first [] final = first ≡ final
  IsChain first ((path, torn e) ∷ ls) final = ⊥
  IsChain first ((path, whole e) ∷ ls) final =
      (e.previous_hash ≡ first) × (e.hash ≡ seal e) × IsChain e.hash ls final

  IsChain-append :
      (ls : List (Text × Line)) (first mid : Text) (path : Text) (e : Envelope)
      → IsChain first ls mid
      → e.previous_hash ≡ mid
      → e.hash ≡ seal e
      → IsChain first (ls ++ (path, whole e) ∷ []) e.hash
  IsChain-append [] first mid path e c p q = (p ∙ sym c, q, refl)
  IsChain-append ((_, torn d) ∷ ls) first mid path e c p q = absurd c
  IsChain-append ((_, whole d) ∷ ls) first mid path e c p q =
      (c.0, c.1, IsChain-append ls d.hash mid path e c.2 p q)

  -- The chain up to the store's last hash, if the writes to come are atomic.
  Audited : Property
  Audited lines faults sequence last = IsChain [] lines last × All IsAtomic faults

  write_envelope-Audited :
      (s : Store) (opened : Option Text) (reached : Reached) (outcome : Option Text) (path : Text)
      (e : Envelope)
      → At Audited s
      → IsAllOrNothing opened reached outcome
      → e.previous_hash ≡ s.state.last_hash
      → e.hash ≡ seal e
      → At Audited (write_envelope codec s opened reached outcome path e).0
  unfolding write_envelope Audited
  write_envelope-Audited s (some x) reached outcome path e v a p q = v
  write_envelope-Audited s none reached (some x) path e v a p q = rw (a, append-nil) v
  write_envelope-Audited s none reached none path e v a p q =
      rw a (IsChain-append s.disk.lines [] s.state.last_hash path e v.0 p q, v.1)

  append_raw-Audited :
      (s : Store) (kind : Text) (at : Time) (raw : Text)
      → At Audited s
      → At Audited (append_raw codec s kind at raw).0
  unfolding append_raw Audited
  append_raw-Audited s kind at raw h =
      let f = next_fault s.disk.faults in
      write_envelope-Audited _ f.open_error f.reached (write_outcome f) _ _
        (h.0, rest-IsAtomic s.disk.faults h.1) (next-IsAtomic s.disk.faults h.1) refl refl

  append-Audited :
      (s : Store) (kind : Text) (at : Time) (v : Payload F)
      → At Audited s
      → At Audited (append codec s kind at v).0
  unfolding append
  append-Audited s kind at v h = elim (Option-cases (codec.marshal v)) [
    | inl e ↦ rw (e, append) h
    | inr (raw, e) ↦ rw (e, append) (append_raw-Audited s kind at raw h)
  ]

  -- Whatever a snapshot holds and wherever it stops, the archive's lines stay one chain that ends
  -- in the store's last hash, if each failed write leaves nothing in the file.
  pub append_snapshot-IsChain :
      (by_job_id : SliceSort {A = JobRecord F} (λ j. j.job_id)) (now : Time) (snap : Snapshot F)
      (s : Store)
      → All IsAtomic s.disk.faults
      → IsChain [] s.disk.lines s.state.last_hash
      → let s' = (append_snapshot codec by_job_id now snap s).0 in
        IsChain [] s'.disk.lines s'.state.last_hash
  unfolding Audited
  append_snapshot-IsChain by_job_id now snap s a c =
      (append_snapshot_keeps codec Audited append-Audited by_job_id now snap s (c, a)).0

  -- Two texts with one SHA-256.
  abbrev pub Collision : Type 0
  Collision = (s t : Text) × (s ≢ t) × (codec.sha256_hex s ≡ codec.sha256_hex t)

  IsChain-final :
      (ls : List (Text × Line)) (first final : Text) (path : Text) (e : Envelope)
      → IsChain first (ls ++ (path, whole e) ∷ []) final
      → e.hash ≡ final
  IsChain-final [] first final path e c = c.2
  IsChain-final ((_, torn d) ∷ ls) first final path e c = absurd c
  IsChain-final ((_, whole d) ∷ ls) first final path e c = IsChain-final ls d.hash final path e c.2

  write_envelope-late :
      (s : Store) (opened : Option Text) (reached : Reached) (outcome : Option Text)
      (err path : Text) (e : Envelope)
      → opened ≡ none
      → reached ≡ all
      → outcome ≡ some err
      → e.hash ≢ s.state.last_hash
      → let (s', result) = write_envelope codec s opened reached outcome path e in
        (result ≡ some err)
        × (s'.state.last_hash ≡ s.state.last_hash)
        × (¬ IsChain [] s'.disk.lines s'.state.last_hash)
  unfolding write_envelope
  write_envelope-late s opened reached outcome err path e o r w ne =
      rw (o, r, w) (refl, refl, λ c. ne (IsChain-final s.disk.lines [] _ path e c))

  -- If a line reaches the file whole and the call still fails, as `Sync` or `Close` may, the store
  -- keeps its old last hash: the lines no longer end in it, unless the two hashes collide.
  pub late_failure-breaks-IsChain :
      (s : Store) (kind : Text) (at : Time) (v : Payload F) (raw err : Text)
      → codec.marshal v ≡ some raw
      → (next_fault s.disk.faults).open_error ≡ none
      → (next_fault s.disk.faults).reached ≡ all
      → write_outcome (next_fault s.disk.faults) ≡ some err
      → let sequence = (s.state.sequence + 1) % 2 ^ 64 in
        (envelope codec (record s.state { sequence = sequence }) kind at raw).hash
          ≢ s.state.last_hash
        → let (s', result) = append codec s kind at v in
          (result ≡ some err)
          × (s'.state.last_hash ≡ s.state.last_hash)
          × (¬ IsChain [] s'.disk.lines s'.state.last_hash)
  unfolding append append_raw
  late_failure-breaks-IsChain s kind at v raw err m o r w ne =
      let f = next_fault s.disk.faults in
      rw (m, append)
        (write_envelope-late _ f.open_error f.reached (write_outcome f) err _ _ o r w ne)
