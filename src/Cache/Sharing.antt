-- ===== src/Cache/Sharing.antt =====
-- What callers see of the cache of internal/slurm/cache.go over a run of calls.
use slurm_insights_exporter.Prelude.{
  ◌<◌, ◌≡◌, Bool, true, false, not, List, [], ◌∷◌, Option, none, some, ltb_ℤ,
}
use slurm_insights_exporter.Model.{Time, Snapshot}
use slurm_insights_exporter.Clock.{Duration, time_sub}
use slurm_insights_exporter.Cache.{Cache, is_fresh, get}

-- One call of `Get`: when it was made, when it returned, whether it collected, what it returned.
pub record Call (F : Type 0) : Type 0 where
  pub asked : Time
  pub ended : Time
  pub collected : Bool
  pub snapshot : Snapshot F

-- The last collection: its end and its snapshot.
abbrev pub Last : Type 0 → Type 0
Last F = Option (Time × Snapshot F)

-- The age of the last collection is below the lifetime.
abbrev pub is_young : {F : Type 0} → Duration → Last F → Time → Bool
is_young ttl none now = false
is_young ttl (some (ended, s)) now = ltb_ℤ (time_sub now ended) ttl

abbrev pub IsAnswer : {F : Type 0} → Last F → Call F → Type 0
IsAnswer none c = ⊥
IsAnswer (some (ended, s)) c = c.snapshot ≡ s

-- Each call collects exactly if no collection that is younger than the lifetime went before; if it
-- does not, it returns the snapshot of the last collection.
pub data IsShared {F : Type 0} (ttl : Duration) : Last F → List (Call F) → Type 0 where
  done : {last : Last F} → IsShared ttl last []
  collects :
      {last : Last F} (c : Call F) {rest : List (Call F)}
      → c.collected ≡ true
      → is_young ttl last c.asked ≡ false
      → IsShared ttl (some (c.ended, c.snapshot)) rest
      → IsShared ttl last (c ∷ rest)
  shares :
      {last : Last F} (c : Call F) {rest : List (Call F)}
      → c.collected ≡ false
      → is_young ttl last c.asked ≡ true
      → IsAnswer last c
      → IsShared ttl last rest
      → IsShared ttl last (c ∷ rest)

module _ {F W : Type 0} (now : W → Time) (collect : W → Snapshot F × W) where
  -- Calls in the order in which they take the lock; before each the world moves on.
  unfoldable pub calls : List (W → W) → Cache F → W → List (Call F)
  calls [] c w = []
  calls (delay ∷ delays) c w =
      let w1 = delay w in
      let (s, c', w2) = get now collect c w1 in
      record {
        asked = now w1;
        ended = now w2;
        collected = not (is_fresh now collect c w1);
        snapshot = s;
      }
      ∷ calls delays c' w2

  -- What the cache's fields say of the last collection.
  abbrev Holds : Cache F → Last F → Type 0
  Holds c none = c.at ≡ 0
  Holds c (some (ended, s)) = (0 < c.at) × (c.at ≡ ended) × (c.snap ≡ s)
