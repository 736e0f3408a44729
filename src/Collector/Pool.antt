-- ===== src/Collector/Pool.antt =====
-- The goroutines of `Collect` in internal/slurm/collector.go, interleaved in any order: a step of a
-- goroutine is one access to `slowData` under its lock, one run of the collector function, or one
-- send to the channel. Between two steps the world outside moves on freely.
pub mod Ends
pub mod Answers
pub mod Gathered
pub mod Alone
pub mod Ordered
use slurm_insights_exporter.Prelude.{
  ℕ, suc, ◌≡◌, Bool, true, false, ◌&&◌, is_some, List, [], ◌∷◌, ◌++◌, map, Option, none, some, Text,
  Dict, lookup, insert,
}
use slurm_insights_exporter.Float.{Float, num}
use slurm_insights_exporter.Model.{Time, Sample, Snapshot}
use slurm_insights_exporter.Clock.{time_sub, seconds}
use slurm_insights_exporter.Sorting.{SliceSort}
use slurm_insights_exporter.Collector.{
  Config, Outcome, SlowResult, World, is_recent, last_outcome, report, gather,
}

-- What a goroutine is started with; `is_slow` if the function is wrapped by `slow`.
pub record Task (F W : Type 0) : Type 0 where
  pub name : Text
  pub is_slow : Bool
  pub fn : W → Outcome F × W

-- Where a goroutine stands, with its local variables: the time it started, `old` with `ok`, and the
-- result. `sent` keeps what it sent.
pub data Phase (F : Type 0) : Type 0 where
  waiting : Phase F
  started : Time → Phase F
  loaded : Time → Option (SlowResult F) → Phase F
  ran : Time → Option (SlowResult F) → Outcome F → Phase F
  answered : Time → Outcome F → Phase F
  sent : Outcome F → Phase F

pub record Thread (F W : Type 0) : Type 0 where
  pub task : Task F W
  pub phase : Phase F

-- What the goroutines share: `slowData` and the channel.
pub record Shared (F : Type 0) : Type 0 where
  pub slow_data : Dict (SlowResult F)
  pub channel : List (Outcome F)

pub record Pool (F W : Type 0) : Type 0 where
  pub threads : List (Thread F W)
  pub shared : Shared F

-- `e != nil && ok`
abbrev pub keeps_old : {F : Type 0} → Option (SlowResult F) → Outcome F → Bool
keeps_old old o = is_some o.err && is_some old

-- `time.Since(old.at) < c.cfg.SlowRefresh`, for an entry that is there.
abbrev pub recent_at : {F W : Type 0} → (W → Time) → Config → W → Option (SlowResult F) → Bool
recent_at now cfg env old =
    is_recent now cfg.slow_refresh old (record { env = env; slow_data = [] })

-- One step of a goroutine, in the world `env`.
pub data Move {F W : Type 0} ⦃fl : Float F⦄ (now : W → Time) (cfg : Config) (k : Task F W)
    (s : Shared F) : Phase F → Phase F → Shared F → Type 0 where
  begins : (env : W) → Move now cfg k s waiting (started (now env)) s
  runs_fast :
      (env : W) {t : Time}
      → k.is_slow ≡ false
      → Move now cfg k s (started t) (answered t (k.fn env).0) s
  reads :
      {t : Time}
      → k.is_slow ≡ true
      → Move now cfg k s (started t) (loaded t (lookup k.name s.slow_data)) s
  reuses :
      (env : W) {t : Time} {old : Option (SlowResult F)}
      → recent_at now cfg env old ≡ true
      → Move now cfg k s (loaded t old) (answered t (last_outcome old)) s
  runs :
      (env : W) {t : Time} {old : Option (SlowResult F)}
      → recent_at now cfg env old ≡ false
      → Move now cfg k s (loaded t old) (ran t old (k.fn env).0) s
  serves :
      {t : Time} {old : Option (SlowResult F)} {o : Outcome F}
      → keeps_old old o ≡ true
      → Move now cfg k s (ran t old o) (answered t (record (last_outcome old) { err = o.err })) s
  stores :
      (env : W) {t : Time} {old : Option (SlowResult F)} {o : Outcome F}
      → keeps_old old o ≡ false
      → Move now cfg k s (ran t old o) (answered t o) (record s {
        slow_data = insert k.name (record { at = now env; outcome = o }) s.slow_data;
      })
  sends :
      (env : W) {t : Time} {o : Outcome F}
      → Move now cfg k s
          (answered t o)
          (sent (report k.name t (now env) o))
          (record s { channel = s.channel ++ report k.name t (now env) o ∷ [] })

-- One goroutine of a list makes a step.
pub data Picks {F W : Type 0} ⦃fl : Float F⦄ (now : W → Time) (cfg : Config) (s : Shared F)
    : List (Thread F W) → List (Thread F W) → Shared F → Type 0 where
  here :
      {k : Task F W} {p q : Phase F} {s' : Shared F} {ts : List (Thread F W)}
      → Move now cfg k s p q s'
      → Picks now cfg s
          (record { task = k; phase = p } ∷ ts)
          (record { task = k; phase = q } ∷ ts)
          s'
  there :
      {t : Thread F W} {ts us : List (Thread F W)} {s' : Shared F}
      → Picks now cfg s ts us s'
      → Picks now cfg s (t ∷ ts) (t ∷ us) s'

-- A run of so many steps.
pub data Run {F W : Type 0} ⦃fl : Float F⦄ (now : W → Time) (cfg : Config)
    : ℕ → Pool F W → Pool F W → Type 0 where
  stay : {p : Pool F W} → Run now cfg 0 p p
  next :
      {n : ℕ} {p : Pool F W} {ts : List (Thread F W)} {s : Shared F} {q : Pool F W}
      → Picks now cfg p.shared p.threads ts s
      → Run now cfg n (record { threads = ts; shared = s }) q
      → Run now cfg (suc n) p q

module _ {F W : Type 0} where
  abbrev pub thread_of : Task F W → Thread F W
  thread_of k = record { task = k; phase = waiting }

  -- The pool as `Collect` starts it: an empty channel.
  abbrev pub pool_of : List (Task F W) → Dict (SlowResult F) → Pool F W
  pool_of tasks m = record {
    threads = map thread_of tasks;
    shared = record { slow_data = m; channel = [] };
  }

abbrev pub is_sent : {F : Type 0} → Phase F → Bool
is_sent (sent o) = true
is_sent _ = false
