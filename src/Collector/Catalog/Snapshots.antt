-- ===== src/Collector/Catalog/Snapshots.antt =====
-- The metrics of the snapshots of internal/slurm/collector.go, whatever the order of its goroutines.
use mathlib.Core.List.Perm
use slurm_insights_exporter.Prelude.{
  ℕ, refl, Bool-cases, inl, inr, List, [], ◌∷◌, map, Option, none, some, Text, Dict, lookup, insert,
  lookup-insert, text_eq, All, All-append, join_map, All-Perm,
}
use slurm_insights_exporter.Float.{Float}
use slurm_insights_exporter.Model.{Time, Sample}
use slurm_insights_exporter.Clock.{Formats}
use slurm_insights_exporter.Sorting.{SliceSort}
use slurm_insights_exporter.Collector.{
  Config, Outcome, SlowResult, last_outcome, report, snapshot_of, sample,
}
use slurm_insights_exporter.Collector.Shared.{Runner}
use slurm_insights_exporter.Collector.Collect.{snapshot_of-IsSnapshot}
use slurm_insights_exporter.Collector.Pool.{
  Task, Phase, waiting, started, loaded, ran, answered, sent, Thread, Shared, Pool, Move, begins,
  runs_fast, reads, reuses, runs, serves, stores, sends, Picks, here, there, Run, stay, next,
  pool_of, thread_of,
}
use slurm_insights_exporter.Collector.Schedule.{tasks}
use slurm_insights_exporter.Collector.Catalog.{IsListed, is_line}
use slurm_insights_exporter.Collector.Catalog.Tasks.{AlwaysLists, tasks-AlwaysLists}

module _ {F : Type 0} (cfg : Config) where
  abbrev pub IsEntryListed : Option (SlowResult F) → Type 0
  IsEntryListed none = Unit
  IsEntryListed (some r) = All (IsListed cfg) r.outcome.samples

  -- All entries of the slow tier hold samples of the catalog.
  abbrev pub AreEntriesListed : Dict (SlowResult F) → Type 0
  AreEntriesListed m = (k : Text) → IsEntryListed (lookup k m)

  abbrev IsPhaseListed : Phase F → Type 0
  IsPhaseListed waiting = Unit
  IsPhaseListed (started t) = Unit
  IsPhaseListed (loaded t old) = IsEntryListed old
  IsPhaseListed (ran t old o) = IsEntryListed old × All (IsListed cfg) o.samples
  IsPhaseListed (answered t o) = All (IsListed cfg) o.samples
  IsPhaseListed (sent o) = All (IsListed cfg) o.samples

  abbrev IsSharedListed : Shared F → Type 0
  IsSharedListed s =
      AreEntriesListed s.slow_data × All (λ o. All (IsListed cfg) o.samples) s.channel

  last_outcome-AreListed :
      (old : Option (SlowResult F))
      → IsEntryListed old
      → All (IsListed cfg) (last_outcome old).samples
  last_outcome-AreListed none h = tt
  last_outcome-AreListed (some r) h = h

  insert-AreEntriesListed :
      (k : Text) (r : SlowResult F) (m : Dict (SlowResult F))
      → All (IsListed cfg) r.outcome.samples
      → AreEntriesListed m
      → AreEntriesListed (insert k r m)
  insert-AreEntriesListed k r m new h j = elim (Bool-cases (text_eq k j)) [
    | inl e ↦ rw (lookup-insert k j r m, e) new
    | inr e ↦ rw (lookup-insert k j r m, e) (h j)
  ]

  join_map-AreListed :
      (os : List (Outcome F))
      → All (λ o. All (IsListed cfg) o.samples) os
      → All (IsListed cfg) (join_map (λ o. o.samples) os)
  join_map-AreListed [] h = tt
  join_map-AreListed (o ∷ os) h =
      All-append (IsListed cfg) o.samples (join_map (λ o. o.samples) os) h.0
        (join_map-AreListed os h.1)

module _ {F W : Type 0} ⦃fl : Float F⦄ (now : W → Time) (cfg : Config) where
  abbrev IsThreadListed : Thread F W → Type 0
  IsThreadListed t = AlwaysLists cfg t.task × IsPhaseListed cfg t.phase

  report-AreListed :
      (name : Text) (began ended : Time) (o : Outcome F)
      → All (IsListed cfg) o.samples
      → All (IsListed cfg) (report name began ended o).samples
  unfolding report
  report-AreListed name began ended o h =
      All-append (IsListed cfg) o.samples _ h
        (unfold sample lookup text_eq is_line in ((refl, refl), ((refl, refl), tt)))

  Move-IsPhaseListed :
      {k : Task F W} {s s' : Shared F} {p q : Phase F}
      → Move now cfg k s p q s'
      → AlwaysLists cfg k
      → IsPhaseListed cfg p
      → IsSharedListed cfg s
      → IsPhaseListed cfg q × IsSharedListed cfg s'
  Move-IsPhaseListed (begins env) a h sh = (tt, sh)
  Move-IsPhaseListed (runs_fast env e) a h sh = (a env, sh)
  Move-IsPhaseListed {k} (reads e) a h sh = (sh.0 k.name, sh)
  Move-IsPhaseListed (reuses env {old = old} e) a h sh = (last_outcome-AreListed cfg old h, sh)
  Move-IsPhaseListed (runs env e) a h sh = ((h, a env), sh)
  Move-IsPhaseListed (serves {old = old} e) a h sh = (last_outcome-AreListed cfg old h.0, sh)
  Move-IsPhaseListed {k} {s} (stores env {o = o} e) a h sh =
      (h.1, (insert-AreEntriesListed cfg k.name _ s.slow_data h.1 sh.0, sh.1))
  Move-IsPhaseListed {k} {s} (sends env {t = t} {o = o}) a h sh =
      let new = report-AreListed k.name t (now env) o h in
      (
        new,
        (
          sh.0,
          All-append (λ (r : Outcome F). All (IsListed cfg) r.samples) s.channel _ sh.1 (new, tt),
        ),
      )

  Picks-IsThreadListed :
      {s s' : Shared F} {ts us : List (Thread F W)}
      → Picks now cfg s ts us s'
      → All IsThreadListed ts
      → IsSharedListed cfg s
      → All IsThreadListed us × IsSharedListed cfg s'
  Picks-IsThreadListed (here mv) h sh =
      let (p, sh') = Move-IsPhaseListed mv h.0.0 h.0.1 sh in (((h.0.0, p), h.1), sh')
  Picks-IsThreadListed (there st) h sh =
      let (ts, sh') = Picks-IsThreadListed st h.1 sh in ((h.0, ts), sh')

  Run-IsSharedListed :
      {n : ℕ} {p q : Pool F W}
      → Run now cfg n p q
      → All IsThreadListed p.threads
      → IsSharedListed cfg p.shared
      → IsSharedListed cfg q.shared
  Run-IsSharedListed stay h sh = sh
  Run-IsSharedListed (next st r) h sh =
      let (ts, sh') = Picks-IsThreadListed st h sh in Run-IsSharedListed r ts sh'

  start-IsThreadListed :
      (ks : List (Task F W)) → All (AlwaysLists cfg) ks → All IsThreadListed (map thread_of ks)
  start-IsThreadListed [] h = tt
  start-IsThreadListed (k ∷ ks) h = ((h.0, tt), start-IsThreadListed ks h.1)

  -- However the ten collectors run beside each other and whatever their commands print, each sample
  -- of the snapshot has a metric name of the catalog with the type and the label names that the catalog
  -- has for it, and a help of one line, if this holds of the entries that the slow tier has; and then it
  -- holds of those that it has next.
  pub collection_metrics :
      (formats : Formats) (digest : Text → Text) (runner : Runner W)
      (by_name : SliceSort {A = Sample F} (λ s. s.name)) (began ended : Time)
      (m : Dict (SlowResult F)) {n : ℕ} {q : Pool F W}
      → AreEntriesListed cfg m
      → Run now cfg n (pool_of (tasks now formats digest runner cfg) m) q
      → All (IsListed cfg) (snapshot_of by_name began ended q.shared.channel).samples
        × AreEntriesListed cfg q.shared.slow_data
  collection_metrics formats digest runner by_name began ended m {q = q} h r =
      let all =
        Run-IsSharedListed r
          (start-IsThreadListed _ (tasks-AlwaysLists F W now formats digest runner cfg)) (h, tt) in
      (
        All-Perm (IsListed cfg) (λ s. hlevel)
            (Perm.symm (snapshot_of-IsSnapshot by_name began ended q.shared.channel).0)
            (join_map-AreListed cfg q.shared.channel all.1),
        all.0,
      )
