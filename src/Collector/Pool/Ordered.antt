-- ===== src/Collector/Pool/Ordered.antt =====
-- `Collect` of internal/slurm/collector.go one collector behind the other, as a run of its goroutines.
use slurm_insights_exporter.Prelude.{
  ℕ, suc, ◌≡◌, refl, sym, ◌∙◌, ap, subst, Bool, true, false, Bool-cases, inl, inr, List, [], ◌∷◌,
  ◌++◌, map, append_assoc, append-nil, Option, none, some, Text, Dict, lookup, All, if◌then◌else◌,
}
use slurm_insights_exporter.Float.{Float}
use slurm_insights_exporter.Model.{Time, Sample}
use slurm_insights_exporter.Sorting.{SliceSort}
use slurm_insights_exporter.Collector.{
  Config, Outcome, SlowResult, World, Named, fast, store, settle, is_recent, last_outcome, slow,
  report, run_one, run_all, collect, snapshot_of,
}
use slurm_insights_exporter.Collector.Slow.{slow_recent, slow_old, entry_of}
use slurm_insights_exporter.Collector.Pool.{
  Task, Phase, answered, sent, Thread, Pool, begins, runs_fast, reads, reuses, runs, serves, stores,
  sends, here, there, Run, stay, next, pool_of, thread_of, keeps_old, recent_at,
}
use slurm_insights_exporter.Collector.Pool.Ends.{IsSent}
use slurm_insights_exporter.Collector.Pool.Alone.{no_entry, recent_at-is_recent}
use slurm_insights_exporter.Collector.Schedule.{named_of, slow_entry, fast_entry}

module _ {F W : Type 0} ⦃fl : Float F⦄ (now : W → Time) (cfg : Config) where
  abbrev pub Reaches : Pool F W → Pool F W → Type 0
  Reaches p q = (n : ℕ) × Run now cfg n p q

  Reaches-trans : {p q r : Pool F W} → Reaches p q → Reaches q r → Reaches p r
  Reaches-trans (_, stay) r = r
  Reaches-trans (_, next st s) r = let (n, t) = Reaches-trans (_, s) r in (suc n, next st t)

  abbrev pool : List (Thread F W) → Dict (SlowResult F) → List (Outcome F) → Pool F W
  pool ts m ch = record { threads = ts; shared = record { slow_data = m; channel = ch } }

  abbrev at_phase : Task F W → Phase F → Thread F W
  at_phase k p = record { task = k; phase = p }

  Run-there :
      {n : ℕ} {p q : Pool F W} (t : Thread F W)
      → Run now cfg n p q
      → Run now cfg n (record p { threads = t ∷ p.threads }) (record q { threads = t ∷ q.threads })
  Run-there t stay = stay
  Run-there t (next st r) = next (there st) (Run-there t r)

  module _ (k : Task F W) (ts : List (Thread F W)) (ch : List (Outcome F)) where
    -- The goroutine comes to its answer alone.
    abbrev Comes : World F W → Outcome F × World F W → Type 0
    Comes w (o, w') =
        Reaches (pool (thread_of k ∷ ts) w.slow_data ch)
          (pool (at_phase k (answered (now w.env) o) ∷ ts) w'.slow_data ch)

    fast-Comes : (w : World F W) → k.is_slow ≡ false → Comes w (fast k.fn w)
    unfolding fast
    fast-Comes w e = (2, next (here (begins w.env)) (next (here (runs_fast w.env e)) stay))

    module _ (is_slow : k.is_slow ≡ true) where
      recent-Comes :
          (w : World F W)
          → recent_at now cfg w.env (lookup k.name w.slow_data) ≡ true
          → Comes w (last_outcome (lookup k.name w.slow_data), w)
      recent-Comes w e = (
        3,
        next (here (begins w.env))
            (next (here (reads is_slow)) (next (here (reuses w.env e)) stay)),
      )

      serves-Comes :
          (w w' : World F W)
          → let old = lookup k.name w.slow_data in
            let o = (k.fn w.env).0 in
            recent_at now cfg w.env old ≡ false
            → keeps_old old o ≡ true
            → w'.slow_data ≡ w.slow_data
            → Comes w (record (last_outcome old) { err = o.err }, w')
      serves-Comes w w' stale keeps same = rw same (
        4,
        next (here (begins w.env)) (
            next (here (reads is_slow))
              (next (here (runs w.env stale)) (next (here (serves keeps)) stay))),
      )

      stores-Comes :
          (w w' : World F W)
          → recent_at now cfg w.env (lookup k.name w.slow_data) ≡ false
          → keeps_old (lookup k.name w.slow_data) (k.fn w.env).0 ≡ false
          → w'.slow_data ≡ w.slow_data
          → Comes w (store now k.name (k.fn w.env).0 w')
      unfolding store
      stores-Comes w w' stale new same = rw same (
        4,
        next (here (begins w.env)) (
            next (here (reads is_slow))
              (next (here (runs w.env stale)) (next (here (stores w'.env new)) stay))),
      )

      settle-Comes :
          (w w' : World F W) (old : Option (SlowResult F)) (err : Option Text)
          → lookup k.name w.slow_data ≡ old
          → (k.fn w.env).0.err ≡ err
          → recent_at now cfg w.env old ≡ false
          → w'.slow_data ≡ w.slow_data
          → Comes w (settle now k.name old err (k.fn w.env).0 w')
      unfolding settle
      settle-Comes w w' (some old) (some e) l failed stale same =
          subst (λ x. Comes w (record old.outcome { err = x }, w')) failed
            (rw l at (serves-Comes w w' (rw l stale) (rw (l, failed) refl) same))
      settle-Comes w w' (some old) none l ok stale same =
          stores-Comes w w' (rw l stale) (rw (l, ok) refl) same
      settle-Comes w w' none err l e stale same =
          stores-Comes w w' (rw l stale) (rw (l, e) (no_entry err)) same

      slow-Comes : (w : World F W) → Comes w (slow now cfg k.name k.fn w)
      slow-Comes w =
          let old = entry_of now cfg k.name k.fn w in
          let same = recent_at-is_recent now cfg k is_slow old w in
          elim (Bool-cases (is_recent now cfg.slow_refresh old w)) [
            | inl recent ↦
                rw (slow_recent now cfg k.name k.fn w recent) (recent-Comes w (same ∙ recent))
            | inr stale ↦ rw (slow_old now cfg k.name k.fn w stale) (
                unfold fast in
                settle-Comes w (fast k.fn w).1 old (k.fn w.env).0.err refl refl (same ∙ stale) refl)
          ]

    abbrev by_tier : Bool → Named F W
    by_tier b = if b then slow_entry now cfg k.name k.fn else fast_entry now k.name k.fn

    named-Comes : (w : World F W) → Comes w ((named_of now cfg k).fn w)
    named-Comes w = elim (Bool-cases k.is_slow) [
      | inl e ↦ subst (λ (c : Named F W). Comes w (c.fn w)) (sym (ap by_tier e)) (slow-Comes e w)
      | inr e ↦ subst (λ (c : Named F W). Comes w (c.fn w)) (sym (ap by_tier e)) (fast-Comes w e)
    ]

    tier_name : (b : Bool) → (by_tier b).name ≡ k.name
    tier_name true = refl
    tier_name false = refl

    ended :
        (w : World F W) (o : Outcome F) (w' : World F W)
        → let r = report (named_of now cfg k).name (now w.env) (now w'.env) o in
          Run now cfg 1
            (pool (at_phase k (answered (now w.env) o) ∷ ts) w'.slow_data ch)
            (pool (at_phase k (sent r) ∷ ts) w'.slow_data (ch ++ r ∷ []))
    ended w o w' = rw (tier_name k.is_slow) (next (here (sends w'.env)) stay)

    -- The goroutine runs alone from its start to its end.
    one-Reaches :
        (w : World F W)
        → let (o, w') = run_one now (named_of now cfg k) w in
          Reaches
            (pool (thread_of k ∷ ts) w.slow_data ch)
            (pool (at_phase k (sent o) ∷ ts) w'.slow_data (ch ++ o ∷ []))
    unfolding run_one
    one-Reaches w =
        let (o, w') = (named_of now cfg k).fn w in Reaches-trans (named-Comes w) (1, ended w o w')

  abbrev ordered : List (Task F W) → List (Named F W)
  ordered = map (named_of now cfg)

  -- The goroutines run one behind the other, to the end of each.
  all-Reaches :
      (ks : List (Task F W)) (w : World F W) (ch : List (Outcome F))
      → let (os, w') = run_all now (ordered ks) w in
        (ts : List (Thread F W)) × All IsSent ts
        × Reaches (pool (map thread_of ks) w.slow_data ch) (pool ts w'.slow_data (ch ++ os))
  unfolding run_all
  all-Reaches [] w ch = ([], tt, (0, rw (append-nil ch) stay))
  all-Reaches (k ∷ ks) w ch =
      let (o, w1) = run_one now (named_of now cfg k) w in
      let (os, w2) = run_all now (ordered ks) w1 in
      let (ts, done, (n, r)) = all-Reaches ks w1 (ch ++ o ∷ []) in
      (
        at_phase k (sent o) ∷ ts,
        (refl, done),
        Reaches-trans (one-Reaches k (map thread_of ks) ch w) (
          n,
          subst
              (λ c.
                Run now cfg n
                  (pool (at_phase k (sent o) ∷ map thread_of ks) w1.slow_data (ch ++ o ∷ []))
                  (pool (at_phase k (sent o) ∷ ts) w2.slow_data c))
              (append_assoc ch (o ∷ []) os) (Run-there (at_phase k (sent o)) r),
        ),
      )

  pub collect-Run :
      (by_name : SliceSort {A = Sample F} (λ s. s.name)) (ks : List (Task F W)) (w : World F W)
      → let (snap, w') = collect now by_name (map (named_of now cfg) ks) w in
        (n : ℕ) × (q : Pool F W) × Run now cfg n (pool_of ks w.slow_data) q
        × All IsSent q.threads
        × (snap ≡ snapshot_of by_name (now w.env) (now w'.env) q.shared.channel)
        × (w'.slow_data ≡ q.shared.slow_data)
  unfolding collect
  collect-Run by_name ks w =
      let (ts, done, (n, r)) = all-Reaches ks w [] in (n, _, r, done, refl, refl)
