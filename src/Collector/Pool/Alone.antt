-- ===== src/Collector/Pool/Alone.antt =====
-- A call of `slow` in internal/slurm/collector.go with no other goroutine beside it.
use slurm_insights_exporter.Prelude.{
  ◌≡◌, refl, ◌∙◌, ap, subst, true, false, Bool-cases, inl, inr, Option, is_some, ◌&&◌, none, some,
  Text, lookup, arith,
}
use slurm_insights_exporter.Model.{Time}
use slurm_insights_exporter.Collector.{
  Config, SlowResult, World, fast, store, settle, is_recent, slow,
}
use slurm_insights_exporter.Collector.Slow.{
  slow_recent, slow_old, slow_data-fast, lookup-store_self, entry_of,
}
use slurm_insights_exporter.Collector.Pool.{Task, recent_at, keeps_old}
use slurm_insights_exporter.Collector.Pool.Answers.{Answer, reused, served, refreshed}

pub no_entry : (err : Option Text) → (is_some err && false) ≡ false
no_entry err = ground arith

module _ {F W : Type 0} (now : W → Time) (cfg : Config) (k : Task F W)
    (is_slow : k.is_slow ≡ true) where
  pub recent_at-is_recent :
      (old : Option (SlowResult F)) (w : World F W)
      → recent_at now cfg w.env old ≡ is_recent now cfg.slow_refresh old w
  recent_at-is_recent none w = refl
  recent_at-is_recent (some old) w = refl

  store-Answer :
      (old : Option (SlowResult F)) (env : W) (w : World F W)
      → recent_at now cfg env old ≡ false
      → keeps_old old (k.fn env).0 ≡ false
      → let (o, w') = store now k.name (k.fn env).0 w in
        Answer now cfg k old o (lookup k.name w'.slow_data)
  store-Answer old env w stale new =
      rw (lookup-store_self now k.name (k.fn env).0 w)
        (unfold store in refreshed env w.env is_slow stale new)

  settle-Answer :
      (old : Option (SlowResult F)) (err : Option Text) (env : W) (w : World F W)
      → (k.fn env).0.err ≡ err
      → recent_at now cfg env old ≡ false
      → lookup k.name w.slow_data ≡ old
      → let (o, w') = settle now k.name old err (k.fn env).0 w in
        Answer now cfg k old o (lookup k.name w'.slow_data)
  unfolding settle
  settle-Answer (some old) (some e) env w failed stale l = rw l (
      subst (λ x. Answer now cfg k (some old) (record old.outcome { err = x }) (some old)) failed
        (served env is_slow stale (rw failed refl)))
  settle-Answer (some old) none env w ok stale l = store-Answer (some old) env w stale (rw ok refl)
  settle-Answer none err env w e stale l = store-Answer none env w stale (rw e (no_entry err))

  -- A call of `slow` by itself is one of the calls that `Answer` describes, and leaves the entry that
  -- it says.
  pub slow-Answer :
      (w : World F W)
      → let (o, w') = slow now cfg k.name k.fn w in
        Answer now cfg k (lookup k.name w.slow_data) o (lookup k.name w'.slow_data)
  slow-Answer w =
      let old = entry_of now cfg k.name k.fn w in
      let same = recent_at-is_recent old w in
      elim (Bool-cases (is_recent now cfg.slow_refresh old w)) [
        | inl recent ↦
            rw (slow_recent now cfg k.name k.fn w recent) (reused w.env is_slow (same ∙ recent))
        | inr stale ↦ rw (slow_old now cfg k.name k.fn w stale) (
            unfold fast in
            settle-Answer old (k.fn w.env).0.err w.env (fast k.fn w).1 refl (same ∙ stale)
              (ap (lookup k.name) (slow_data-fast now cfg k.name k.fn w)))
      ]
