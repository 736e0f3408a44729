-- ===== src/History/Numbering.antt =====
-- The sequence numbers of internal/history/store.go while no file operation fails.
use slurm_insights_exporter.Prelude.{
  ℕ, ◌+◌, ◌%◌, ◌^◌, ◌≡◌, ◌<◌, length, arith, refl, List, [], ◌∷◌, ◌++◌, Option-cases, inl, inr,
  Text,
}
use slurm_insights_exporter.Model.{Time, JobRecord, Snapshot}
use slurm_insights_exporter.Sorting.{SliceSort}
use slurm_insights_exporter.History.{
  Store, Envelope, Codec, Payload, Line, whole, torn, append, append_raw, write_envelope,
  append_snapshot,
}
use slurm_insights_exporter.History.Induction.{Property, At, append_snapshot_keeps}

-- Every line is whole, and its number is the one before it plus one, as a uint64, from `first` on;
-- the last number is `final`.
abbrev pub IsNumbered : ℕ → List (Text × Line) → ℕ → Type 0
IsNumbered first [] final = first ≡ final
IsNumbered first ((path, torn e) ∷ ls) final = ⊥
IsNumbered first ((path, whole e) ∷ ls) final =
    (e.sequence ≡ (first + 1) % 2 ^ 64) × IsNumbered e.sequence ls final

IsNumbered-append :
    (ls : List (Text × Line)) (first mid : ℕ) (path : Text) (e : Envelope)
    → IsNumbered first ls mid
    → e.sequence ≡ (mid + 1) % 2 ^ 64
    → IsNumbered first (ls ++ (path, whole e) ∷ []) e.sequence
IsNumbered-append [] first mid path e c p = (rw c p, refl)
IsNumbered-append ((_, torn d) ∷ ls) first mid path e c p = absurd c
IsNumbered-append ((_, whole d) ∷ ls) first mid path e c p =
    (c.0, IsNumbered-append ls d.sequence mid path e c.1 p)

-- The last number counts the lines, as a uint64.
pub IsNumbered-length :
    (first : ℕ) (ls : List (Text × Line)) (final : ℕ)
    → first < 2 ^ 64
    → IsNumbered first ls final
    → final ≡ (first + length ls) % 2 ^ 64
IsNumbered-length first [] final h c = omega (arith, c)
IsNumbered-length first ((path, torn e) ∷ ls) final h c = absurd c
IsNumbered-length first ((path, whole e) ∷ ls) final h c =
    omega (arith, c.0, IsNumbered-length e.sequence ls final (omega (arith, c.0)) c.1)

Counted : Property
Counted lines faults sequence last = IsNumbered 0 lines sequence × (faults ≡ [])

module _ {F : Type 0} (codec : Codec F) where
  append_raw-Counted :
      (s : Store) (kind : Text) (at : Time) (raw : Text)
      → At Counted s
      → At Counted (append_raw codec s kind at raw).0
  unfolding append_raw write_envelope Counted
  append_raw-Counted s kind at raw h =
      rw h.1 (IsNumbered-append s.disk.lines 0 s.state.sequence _ _ h.0 refl, refl)

  append-Counted :
      (s : Store) (kind : Text) (at : Time) (v : Payload F)
      → At Counted s
      → At Counted (append codec s kind at v).0
  unfolding append
  append-Counted s kind at v h = elim (Option-cases (codec.marshal v)) [
    | inl e ↦ rw (e, append) h
    | inr (raw, e) ↦ rw (e, append) (append_raw-Counted s kind at raw h)
  ]

  -- While no file operation fails, the lines of the archive bear the numbers 1, 2, 3 and so on, as
  -- uint64, with no gap, and the store's sequence is that of the last line.
  pub append_snapshot-IsNumbered :
      (by_job_id : SliceSort {A = JobRecord F} (λ j. j.job_id)) (now : Time) (snap : Snapshot F)
      (s : Store)
      → s.disk.faults ≡ []
      → IsNumbered 0 s.disk.lines s.state.sequence
      → let s' = (append_snapshot codec by_job_id now snap s).0 in
        IsNumbered 0 s'.disk.lines s'.state.sequence
  unfolding Counted
  append_snapshot-IsNumbered by_job_id now snap s f c =
      (append_snapshot_keeps codec Counted append-Counted by_job_id now snap s (c, f)).0
