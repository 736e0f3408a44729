-- ===== src/Cache.antt =====
-- internal/slurm/cache.go. `W` is the world that a collection runs in, with a clock; the mutex makes
-- every call of `Get` one step on the cache and the world.
pub mod Sharing
use slurm_insights_exporter.Prelude.{◌&&◌, not, ◌==◌, if◌then◌else◌, ltb_ℤ, Bool}
use slurm_insights_exporter.Model.{Time, Snapshot}
use slurm_insights_exporter.Clock.{Duration, time_sub}

pub record Cache (F : Type 0) : Type 0 where
  pub ttl : Duration
  pub at : Time
  pub snap : Snapshot F

-- `NewCache`, with the zero time and the zero snapshot.
unfoldable pub new_cache : {F : Type 0} → Duration → Snapshot F → Cache F
new_cache ttl zero_snapshot = record { ttl = ttl; at = 0; snap = zero_snapshot }

module _ {F W : Type 0} (now : W → Time) (collect : W → Snapshot F × W) where
  -- `!c.at.IsZero() && time.Since(c.at) < c.ttl`
  unfoldable pub is_fresh : Cache F → W → Bool
  is_fresh c w = not (c.at == 0) && ltb_ℤ (time_sub (now w) c.at) c.ttl

  unfoldable pub get : Cache F → W → Snapshot F × Cache F × W
  get c w =
      let (s, w') = collect w in
      if is_fresh c w then (c.snap, c, w) else (s, record c { at = now w'; snap = s }, w')
