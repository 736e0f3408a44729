-- ===== src/History.antt =====
-- internal/history/store.go. JSON encoding, SHA-256 and the file system are not the store's: their
-- functions are the record `Codec`, and the outcomes of file operations are the disk's `faults`.
pub mod Induction
pub mod Chain
pub mod Numbering
pub mod Restart
pub mod Dedup
pub mod Healthy
pub mod Events
use slurm_insights_exporter.Prelude.{
  ℕ, suc, ◌+◌, ◌%◌, ◌^◌, ◌≡◌, Bool, true, false, List, [], ◌∷◌, ◌++◌, Option, none, some, Text,
  Dict, codes, text_eq, lookup, insert, if◌then◌else◌, length,
}
use slurm_insights_exporter.Model.{Time, Sample, JobRecord, Snapshot}
use slurm_insights_exporter.Sorting.{SliceSort}

pub record State : Type 0 where
  pub sequence : ℕ
  pub last_hash : Text
  pub jobs : Dict Text

-- What `json.Unmarshal` puts into the state; `none` is a nil map.
pub record SavedState : Type 0 where
  pub sequence : ℕ
  pub last_hash : Text
  pub jobs : Option (Dict Text)

pub record Envelope : Type 0 where
  pub sequence : ℕ
  pub timestamp : Time
  pub kind : Text
  pub previous_hash : Text
  pub payload : Text
  pub hash : Text

pub record Observation (F : Type 0) : Type 0 where
  pub duration : F
  pub metrics : List (Sample F)
  pub errors : List Text

pub record Status : Type 0 where
  pub directory : Text
  pub sequence : ℕ
  pub last_hash : Text
  pub tracked_jobs : ℕ
  pub last_write : Time

-- The value that `append` is given.
pub data Payload (F : Type 0) : Type 0 where
  observed : Observation F → Payload F
  changed : JobRecord F → Payload F

-- What the store calls: `json.Marshal` (`none` is an error), the canonical text that is hashed,
-- `sha256` in hexadecimal, the path of a day's file in the directory, and the state file's format.
pub record Codec (F : Type 0) : Type 0 where
  pub marshal : Payload F → Option Text
  pub canonical : Envelope → Text
  pub sha256_hex : Text → Text
  pub day_path : Text → Time → Text
  pub encode_state : State → Option Text
  pub decode_state : Text → Option SavedState

-- A line of a day's file: whole, or cut off by a failed write.
pub data Line : Type 0 where
  whole torn : Envelope → Line

pub data Reached : Type 0 where
  nothing part all : Reached

-- The outcomes of one `append`'s file operations, and how much of the line reached the file.
pub record Fault : Type 0 where
  pub open_error : Option Text
  pub encode_error : Option Text
  pub flush_error : Option Text
  pub sync_error : Option Text
  pub close_error : Option Text
  pub reached : Reached

abbrev pub no_fault : Fault
no_fault = record {
  open_error = none;
  encode_error = none;
  flush_error = none;
  sync_error = none;
  close_error = none;
  reached = all;
}

-- The directory: lines in the order of writing, each with its file, and the state file. `faults` are
-- the outcomes of the calls to come; behind them every call succeeds.
pub record Disk : Type 0 where
  pub lines : List (Text × Line)
  pub state_file : Option Text
  pub faults : List Fault
  pub write_error : Option Text
  pub rename_error : Option Text

pub record Store : Type 0 where
  pub dir : Text
  pub state : State
  pub last_write : Time
  pub disk : Disk

abbrev pub next_fault : List Fault → Fault
next_fault [] = no_fault
next_fault (f ∷ fs) = f

abbrev pub rest_faults : List Fault → List Fault
rest_faults [] = []
rest_faults (f ∷ fs) = fs

-- The first of two errors, as `if err == nil { err = next }` keeps it.
abbrev pub first_error : Option Text → Option Text → Option Text
first_error none e = e
first_error (some e) _ = some e

abbrev pub line_for : Reached → Text → Envelope → List (Text × Line)
line_for nothing path e = []
line_for part path e = (path, torn e) ∷ []
line_for all path e = (path, whole e) ∷ []

-- The error after the file is opened: of the encoder, else of the flush, of the sync, of the close.
abbrev pub write_outcome : Fault → Option Text
write_outcome f =
    first_error (first_error (first_error f.encode_error f.flush_error) f.sync_error) f.close_error

-- What Go has for a missing key, or for the bytes beside an error: the zero value.
abbrev pub text_or_empty : Option Text → Text
text_or_empty none = []
text_or_empty (some b) = b

abbrev pub fresh_state : State
fresh_state = record { sequence = 0; last_hash = []; jobs = [] }

abbrev pub jobs_or_empty : Option (Dict Text) → Dict Text
jobs_or_empty none = []
jobs_or_empty (some m) = m

abbrev pub opened : Text → Disk → State → Store
opened dir disk st = record { dir = dir; state = st; last_write = 0; disk = disk }

abbrev pub observation_of : {F : Type 0} → Snapshot F → Payload F
observation_of snap =
    observed (record { duration = snap.duration; metrics = snap.samples; errors = snap.errors })

-- `j.Cluster + "/" + j.JobID`
unfoldable pub job_key : {F : Type 0} → JobRecord F → Text
job_key j = j.cluster ++ b'/' ∷ j.job_id

-- From the encoded state on, by the errors of `WriteFile` and `Rename`.
unfoldable pub replace_state : Store → Option Text → Option Text → Option Text → Store × Option Text
replace_state s none write_error rename_error = (s, some (codes "json: unsupported value"))
replace_state s (some b) (some e) rename_error = (s, some e)
replace_state s (some b) none (some e) = (s, some e)
replace_state s (some b) none none =
    (record s { disk = record s.disk { state_file = some b } }, none)

module _ {F : Type 0} (codec : Codec F) where
  -- The envelope that `append` builds from the state, whose sequence is already raised.
  unfoldable pub envelope : State → Text → Time → Text → Envelope
  envelope st kind at raw =
      let e : Envelope = record {
        sequence = st.sequence;
        timestamp = at;
        kind = kind;
        previous_hash = st.last_hash;
        payload = raw;
        hash = [];
      } in
      record e { hash = codec.sha256_hex (codec.canonical e) }

  -- Behind a successful `OpenFile`: what reached the file, and the new hash if there was no error.
  unfoldable pub write_line : Store → Reached → Option Text → Text → Envelope → Store × Option Text
  write_line s reached outcome path e =
      let st = s.state in
      let disk = record s.disk { lines = s.disk.lines ++ line_for reached path e } in
      elim outcome [
        | none ↦ (record s { state = record st { last_hash = e.hash }; disk = disk }, none)
        | some err ↦ (record s { disk = disk }, some err)
      ]

  -- From `OpenFile` on, by its error, by what reaches the file and by the error behind it.
  unfoldable pub write_envelope :
      Store → Option Text → Reached → Option Text → Text → Envelope → Store × Option Text
  unfolding write_line
  write_envelope s (some err) reached outcome path e = (s, some err)
  write_envelope s none reached outcome path e = write_line s reached outcome path e

  -- Behind a successful `json.Marshal`: the sequence is raised before the file is opened.
  unfoldable pub append_raw : Store → Text → Time → Text → Store × Option Text
  unfolding envelope write_envelope
  append_raw s kind at raw =
      let st : State = record s.state { sequence = (s.state.sequence + 1) % 2 ^ 64 } in
      let disk = record s.disk { faults = rest_faults s.disk.faults } in
      let f = next_fault s.disk.faults in
      write_envelope (record s { state = st; disk = disk }) f.open_error f.reached (write_outcome f)
        (codec.day_path s.dir at) (envelope st kind at raw)

  unfoldable pub append : Store → Text → Time → Payload F → Store × Option Text
  append s kind at value = elim (codec.marshal value) [
    | none ↦ (s, some (codes "json: unsupported value"))
    | some raw ↦ append_raw s kind at raw
  ]

  unfoldable pub fingerprint : JobRecord F → Text
  fingerprint j = codec.sha256_hex (text_or_empty (codec.marshal (changed j)))

  -- `s.state.Jobs[key] == fp`, where a missing key reads as the empty text.
  unfoldable pub is_known : Dict Text → JobRecord F → Bool
  is_known jobs j = text_eq (text_or_empty (lookup (job_key j) jobs)) (fingerprint j)

  unfoldable pub remember : Store → JobRecord F → Store
  remember s j =
      let st = s.state in
      record s { state = record st { jobs = insert (job_key j) (fingerprint j) st.jobs } }

  -- The loop over the sorted jobs; an error ends it.
  unfoldable pub append_jobs : Time → List (JobRecord F) → Store → Store × Option Text
  append_jobs at [] s = (s, none)
  append_jobs at (j ∷ js) s =
      let (s', err) = append s (codes "job_state_change") at (changed j) in
      let skip = append_jobs at js s in
      let next = append_jobs at js (remember s' j) in
      if is_known s.state.jobs j then skip else elim err [ some e ↦ (s', some e) | none ↦ next ]

  unfoldable pub save_state : Store → Store × Option Text
  unfolding replace_state
  save_state s = replace_state s (codec.encode_state s.state) s.disk.write_error s.disk.rename_error

  -- What follows the loop over the jobs, by its error; `now` is `time.Now().UTC()`.
  unfoldable pub after_jobs : Time → Store × Option Text → Store × Option Text
  after_jobs now (s, some e) = (s, some e)
  after_jobs now (s, none) = save_state (record s { last_write = now })

  -- What follows the observation, by its error.
  unfoldable pub after_observation :
      Time → Time → List (JobRecord F) → Store × Option Text → Store × Option Text
  after_observation now at jobs (s, some e) = (s, some e)
  after_observation now at jobs (s, none) = after_jobs now (append_jobs at jobs s)

  module _ (by_job_id : SliceSort {A = JobRecord F} (λ j. j.job_id)) where
    unfoldable pub append_snapshot : Time → Snapshot F → Store → Store × Option Text
    append_snapshot now snap s =
        after_observation now snap.collected_at (by_job_id.sort snap.jobs)
          (append s (codes "observation") snap.collected_at (observation_of snap))

  -- `Open`, by the error of `MkdirAll` and that of `ReadFile` other than a missing file. A missing
  -- state file starts a new chain, one that cannot be decoded is an error.
  unfoldable pub open_store : Text → Option Text → Option Text → Disk → Option Store
  open_store dir (some mkdir_error) read_error disk = none
  open_store dir none (some read_error) disk = none
  open_store dir none none disk = elim disk.state_file [
    | none ↦ some (opened dir disk fresh_state)
    | some b ↦ elim (codec.decode_state b) [
      | none ↦ none
      | some saved ↦ some (
          opened dir disk (record {
            sequence = saved.sequence;
            last_hash = saved.last_hash;
            jobs = jobs_or_empty saved.jobs;
          }))
    ]
  ]

unfoldable pub status : Store → Status
status s = record {
  directory = s.dir;
  sequence = s.state.sequence;
  last_hash = s.state.last_hash;
  tracked_jobs = length s.state.jobs;
  last_write = s.last_write;
}
