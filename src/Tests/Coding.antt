-- ===== src/Tests/Coding.antt =====
-- A coding of envelopes and of the archive's state as texts, that reads back: each part's code points
-- are raised by one and a zero ends it.
use slurm_insights_exporter.Prelude.{
  ℕ, zero, suc, ◌≡◌, refl, [], ◌∷◌, Option, none, some, Text, Dict, length, arith,
}
use slurm_insights_exporter.History.{State, SavedState, Envelope}

abbrev pub part_code : Text → Text → Text
part_code [] rest = 0 ∷ rest
part_code (c ∷ t) rest = suc c ∷ part_code t rest

part_code-inj : (s t r q : Text) → part_code s r ≡ part_code t q → (s ≡ t) × (r ≡ q)
part_code-inj [] [] r q e = ground arith
part_code-inj [] (d ∷ t) r q e = ground arith
part_code-inj (c ∷ s) [] r q e = ground arith
part_code-inj (c ∷ s) (d ∷ t) r q e = ground (arith, part_code-inj s t r q)

abbrev pub read_part : Text → Text × Text
read_part [] = ([], [])
read_part (zero ∷ r) = ([], r)
read_part (suc c ∷ r) = let (a, b) = read_part r in (c ∷ a, b)

read_part-part_code : (t rest : Text) → read_part (part_code t rest) ≡ (t, rest)
read_part-part_code [] rest = refl
read_part-part_code (c ∷ t) rest = rw (read_part-part_code t rest) refl

abbrev pub envelope_code : Envelope → Text
envelope_code e =
    e.sequence ∷ e.timestamp ∷ part_code e.kind (part_code e.previous_hash (part_code e.payload []))

-- Equal codes are those of envelopes that agree but for the hash.
pub envelope_code-inj :
    (d e : Envelope)
    → envelope_code (record d { hash = [] }) ≡ envelope_code (record e { hash = [] })
    → record d { hash = [] } ≡ record e { hash = [] }
envelope_code-inj d e h =
    let parts : (d.sequence ≡ e.sequence)
        × (d.timestamp ≡ e.timestamp)
        × (part_code d.kind (part_code d.previous_hash (part_code d.payload []))
            ≡ part_code e.kind (part_code e.previous_hash (part_code e.payload []))) =
      ground (arith, h) in
    let (sequence, timestamp, texts) = parts in
    let (kind, rest) = part_code-inj d.kind e.kind _ _ texts in
    let (previous, last) = part_code-inj d.previous_hash e.previous_hash _ _ rest in
    let (payload, _) = part_code-inj d.payload e.payload _ _ last in
    λ i. record {
      sequence = sequence i;
      timestamp = timestamp i;
      kind = kind i;
      previous_hash = previous i;
      payload = payload i;
      hash = [];
    }

abbrev entries_code : Dict Text → Text
entries_code [] = []
entries_code ((k, v) ∷ m) = part_code k (part_code v (entries_code m))

abbrev read_entries : ℕ → Text → Dict Text
read_entries zero t = []
read_entries (suc n) t =
    let (k, r) = read_part t in let (v, q) = read_part r in (k, v) ∷ read_entries n q

read_entries-code : (m : Dict Text) → read_entries (length m) (entries_code m) ≡ m
read_entries-code [] = refl
read_entries-code ((k, v) ∷ m) =
    rw
      (
        read_part-part_code k (part_code v (entries_code m)),
        read_part-part_code v (entries_code m),
        read_entries-code m,
      )
      refl

abbrev pub state_code : State → Option Text
state_code st = some (st.sequence ∷ length st.jobs ∷ part_code st.last_hash (entries_code st.jobs))

abbrev pub read_state : Text → Option SavedState
read_state (n ∷ size ∷ t) =
    let (last, r) = read_part t in
    some (record { sequence = n; last_hash = last; jobs = some (read_entries size r) })
read_state _ = none

pub read_state-state_code :
    (st : State) (b : Text)
    → state_code st ≡ some b
    → read_state b
      ≡ some (record { sequence = st.sequence; last_hash = st.last_hash; jobs = some st.jobs })
read_state-state_code st b e =
    ground
      (arith, e, read_part-part_code st.last_hash (entries_code st.jobs), read_entries-code st.jobs)
