-- ===== src/Server/Process/Answers.antt =====
-- What the running exporter of cmd/slurm-insights-exporter/main.go answers.
use slurm_insights_exporter.Prelude.{
  ◌≡◌, ◌⊎◌, refl, sym, subst, true, false, Bool-cases, inl, inr, Option, none, some, lookup, All,
  arith, ltb_ℤ,
}
use slurm_insights_exporter.Float.{Float}
use slurm_insights_exporter.Model.{Time, Snapshot}
use slurm_insights_exporter.Clock.{time_sub}
use slurm_insights_exporter.Cache.{Cache, get, is_fresh, new_cache}
use slurm_insights_exporter.Collector.{World}
use slurm_insights_exporter.Collector.Pool.Ordered.{collect-Run}
use slurm_insights_exporter.Collector.Schedule.{schedule, tasks}
use slurm_insights_exporter.Collector.Catalog.{IsListed}
use slurm_insights_exporter.Collector.Catalog.Snapshots.{AreEntriesListed, collection_metrics}
use slurm_insights_exporter.History.{Store}
use slurm_insights_exporter.Server.Http.{
  Request, Response, Route, metrics, snapshot, jobs, history, healthy, index, metrics_reply,
  snapshot_reply, jobs_reply, history_reply, healthy_reply, index_reply, route_of, handle, serve,
  serve_route, with_snapshot,
}
use slurm_insights_exporter.Server.Process.{
  Process, Deployment, Step, waits, requests, takes, writes, restarts, Reach, here, later, clock,
  collection, answered, restarted,
}

module _ {F W : Type 0} ⦃fl : Float F⦄ (d : Deployment F W) where
  collection-metrics :
      (w : World F W)
      → AreEntriesListed d.cfg w.slow_data
      → All (IsListed d.cfg) (collection d w).0.samples
        × AreEntriesListed d.cfg (collection d w).1.slow_data
  unfolding schedule
  collection-metrics w h =
      let ks = tasks d.now d.formats d.digest d.runner d.cfg in
      let (n, q, r, done, same, entries) = collect-Run d.now d.cfg d.by_name ks w in
      let listed =
        collection_metrics d.now d.cfg d.formats d.digest d.runner d.by_name _ _ w.slow_data h r in
      (
        subst (λ (s : Snapshot F). All (IsListed d.cfg) s.samples) (sym same) listed.0,
        subst (AreEntriesListed d.cfg) (sym entries) listed.1,
      )

  -- The snapshot is that of a collection of the ten collectors which ended at the time.
  abbrev pub IsCollected : Snapshot F → Time → Type 0
  IsCollected snap at =
      (w : World F W) × AreEntriesListed d.cfg w.slow_data
      × (snap ≡ (collection d w).0)
      × (at ≡ clock d (collection d w).1)

  abbrev IsCached : Cache F → Type 0
  IsCached c = (c.ttl ≡ d.ttl) × ((c.at ≡ 0) ⊎ IsCollected c.snap c.at)

  abbrev pub IsServing : Cache F → World F W → Type 0
  IsServing c w = AreEntriesListed d.cfg w.slow_data × IsCached c

  -- The age of a snapshot that ended at the time: below the lifetime, or it has just ended.
  abbrev pub IsYoung : Time → World F W → Type 0
  IsYoung at w = (ltb_ℤ (time_sub (clock d w) at) d.ttl ≡ true) ⊎ (at ≡ clock d w)

  -- What a call of the cache gives and leaves.
  abbrev IsGot : Snapshot F × Cache F × World F W → Type 0
  IsGot (snap, c, w) = IsServing c w × IsCollected snap c.at × IsYoung c.at w

  fresh-at :
      (c : Cache F) (w : World F W) → c.at ≡ 0 → is_fresh (clock d) (collection d) c w ≡ false
  unfolding is_fresh
  fresh-at c w e = rw e refl

  fresh-young :
      (c : Cache F) (w : World F W)
      → is_fresh (clock d) (collection d) c w ≡ true
      → ltb_ℤ (time_sub (clock d w) c.at) c.ttl ≡ true
  unfolding is_fresh
  fresh-young c w e = ground (arith, e)

  get_fresh :
      (c : Cache F) (w : World F W)
      → is_fresh (clock d) (collection d) c w ≡ true
      → get (clock d) (collection d) c w ≡ (c.snap, c, w)
  unfolding get
  get_fresh c w e = rw e refl

  get_stale :
      (c : Cache F) (w : World F W)
      → is_fresh (clock d) (collection d) c w ≡ false
      → let (s, w') = collection d w in
        get (clock d) (collection d) c w ≡ (s, record c { at = clock d w'; snap = s }, w')
  unfolding get
  get_stale c w e = rw e refl

  pub get-IsGot :
      (c : Cache F) (w : World F W) → IsServing c w → IsGot (get (clock d) (collection d) c w)
  get-IsGot c w (entries, (ttl, inl never)) =
      let made : IsCollected (collection d w).0 (clock d (collection d w).1) =
        (w, entries, refl, refl) in
      subst IsGot (sym (get_stale c w (fresh-at c w never)))
        (((collection-metrics w entries).1, (ttl, inr made)), made, inr refl)
  get-IsGot c w (entries, (ttl, inr old)) =
      let made : IsCollected (collection d w).0 (clock d (collection d w).1) =
        (w, entries, refl, refl) in
      elim (Bool-cases (is_fresh (clock d) (collection d) c w)) [
        | inl e ↦ subst IsGot (sym (get_fresh c w e)) (
          (entries, (ttl, inr old)),
          old,
          inl (subst (λ t. ltb_ℤ (time_sub (clock d w) c.at) t ≡ true) ttl (fresh-young c w e)),
        )
        | inr e ↦
            subst IsGot (sym (get_stale c w e))
              (((collection-metrics w entries).1, (ttl, inr made)), made, inr refl)
      ]

  abbrev Serves : Response × Cache F × World F W → Type 0
  Serves (response, c, w) = IsServing c w

  serve_route-Serves :
      (archive : Option Store) (o : Option Route) (r : Request) (c : Cache F) (w : World F W)
      → IsServing c w
      → Serves (serve_route d.web (clock d) (collection d) archive o r c w)
  unfolding handle with_snapshot
  serve_route-Serves archive none r c w h = h
  serve_route-Serves archive (some metrics) r c w h = (get-IsGot c w h).0
  serve_route-Serves archive (some snapshot) r c w h = (get-IsGot c w h).0
  serve_route-Serves archive (some jobs) r c w h = (get-IsGot c w h).0
  serve_route-Serves archive (some history) r c w h = h
  serve_route-Serves archive (some healthy) r c w h = h
  serve_route-Serves archive (some index) r c w h = h

  pub restarted-IsServing :
      (env : W) (archive : Store)
      → IsServing (restarted d env archive).cache (restarted d env archive).world
  restarted-IsServing env archive =
      ((λ k. unfold lookup in tt), (unfold new_cache in refl, inl (unfold new_cache in refl)))

  Step-IsServing :
      {p q : Process F W} → Step d p q → IsServing p.cache p.world → IsServing q.cache q.world
  Step-IsServing (waits env) h = h
  Step-IsServing {p} (requests r) h =
      unfold serve in serve_route-Serves (some p.archive) (route_of d.web r) r p.cache p.world h
  Step-IsServing {p} (takes e) h = (get-IsGot p.cache p.world h).0
  Step-IsServing (writes e) h = h
  Step-IsServing (restarts env archive e) h = restarted-IsServing env archive

  pub Reach-IsServing :
      {p q : Process F W} → Reach d p q → IsServing p.cache p.world → IsServing q.cache q.world
  Reach-IsServing here h = h
  Reach-IsServing (later r st) h = Step-IsServing st (Reach-IsServing r h)

  -- The response shows a snapshot of a collection of the ten collectors that is not older than the
  -- lifetime, and all its samples are of the catalog.
  abbrev pub Shows : (Snapshot F → Response) → Response × Cache F × World F W → Type 0
  Shows reply (response, c, w) =
      (snap : Snapshot F) × (response ≡ reply snap)
      × IsCollected snap c.at
      × IsYoung c.at w
      × All (IsListed d.cfg) snap.samples

  -- The response is the same whatever was collected, and nothing is collected for it.
  abbrev pub Tells : Process F W → Response → Response × Cache F × World F W → Type 0
  Tells q told answer = answer ≡ (told, q.cache, q.world)

  abbrev pub IsAnswer :
      Process F W → Request → Option Route → Response × Cache F × World F W → Type 0
  IsAnswer q r none = Tells q (d.web.unmatched r.path)
  IsAnswer q r (some metrics) = Shows (metrics_reply d.web (some q.archive))
  IsAnswer q r (some snapshot) = Shows (snapshot_reply d.web)
  IsAnswer q r (some jobs) = Shows (jobs_reply d.web r)
  IsAnswer q r (some history) = Tells q (history_reply d.web (some q.archive))
  IsAnswer q r (some healthy) = Tells q (healthy_reply d.web)
  IsAnswer q r (some index) = Tells q (index_reply d.web)

  with_snapshot-Shows :
      (reply : Snapshot F → Response) (c : Cache F) (w : World F W)
      → IsServing c w
      → Shows reply (with_snapshot (clock d) (collection d) reply c w)
  unfolding with_snapshot
  with_snapshot-Shows reply c w h =
      let (snap, c', w') = get (clock d) (collection d) c w in
      let (kept, made, young) = get-IsGot c w h in
      let (before, entries, same, at) = made in
      (
        snap,
        refl,
        made,
        young,
        subst (λ (s : Snapshot F). All (IsListed d.cfg) s.samples) (sym same)
            (collection-metrics before entries).0,
      )

  serve_route-IsAnswer :
      (q : Process F W) (o : Option Route) (r : Request)
      → IsServing q.cache q.world
      → IsAnswer q r o
          (serve_route d.web (clock d) (collection d) (some q.archive) o r q.cache q.world)
  unfolding handle
  serve_route-IsAnswer q none r h = refl
  serve_route-IsAnswer q (some metrics) r h = with_snapshot-Shows _ q.cache q.world h
  serve_route-IsAnswer q (some snapshot) r h = with_snapshot-Shows _ q.cache q.world h
  serve_route-IsAnswer q (some jobs) r h = with_snapshot-Shows _ q.cache q.world h
  serve_route-IsAnswer q (some history) r h = refl
  serve_route-IsAnswer q (some healthy) r h = refl
  serve_route-IsAnswer q (some index) r h = refl

  -- After any requests, writes of the archive, lapses of time and restarts since the start, a request
  -- for the metrics, the snapshot or the jobs is answered from a snapshot of a collection of the ten
  -- collectors, by a handler that renders nothing else of it, and the collection has ended when the
  -- request is answered or less than the lifetime before, and all its samples have a name, a type and
  -- label names of the catalog; any other request is answered without a collection.
  pub process_answers :
      (env : W) (archive : Store) {q : Process F W}
      → Reach d (restarted d env archive) q
      → (r : Request) → IsAnswer q r (route_of d.web r) (answered d r q)
  unfolding serve
  process_answers env archive {q} reach r =
      serve_route-IsAnswer q (route_of d.web r) r
        (Reach-IsServing reach (restarted-IsServing env archive))
