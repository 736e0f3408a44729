-- ===== src/Server/Process.antt =====
-- The running exporter of cmd/slurm-insights-exporter/main.go with its archive: requests, ticks of the
-- archive's timer and restarts in any order. A step is a request, a call of the cache by the goroutine
-- of the archive, or a call of the archive by it; a restart may come between the two.
pub mod Sound
pub mod Answers
pub mod Pages
pub mod Writes
use slurm_insights_exporter.Prelude.{◌≡◌, [], Option, none, some, Text, Dict}
use slurm_insights_exporter.Float.{Float}
use slurm_insights_exporter.Model.{Time, Sample, JobRecord, Snapshot}
use slurm_insights_exporter.Clock.{Formats, Duration}
use slurm_insights_exporter.Sorting.{SliceSort}
use slurm_insights_exporter.Cache.{Cache, new_cache, get}
use slurm_insights_exporter.Collector.{Config, SlowResult, World, collect}
use slurm_insights_exporter.Collector.Shared.{Runner}
use slurm_insights_exporter.Collector.Schedule.{schedule}
use slurm_insights_exporter.History.{Codec, Store, open_store, append_snapshot}
use slurm_insights_exporter.Server.Http.{Web, Request, Response, serve}

pub record Process (F W : Type 0) : Type 0 where
  pub world : World F W
  pub cache : Cache F
  pub archive : Store
  -- The snapshot that the goroutine of the archive has taken and not yet written.
  pub writing : Option (Snapshot F)

-- What the process is started with, and the code that it calls.
pub record Deployment (F W : Type 0) : Type 0 where
  pub now : W → Time
  pub formats : Formats
  pub digest : Text → Text
  pub runner : Runner W
  pub cfg : Config
  pub ttl : Duration
  pub zero_snapshot : Snapshot F
  pub codec : Codec F
  pub by_name : SliceSort {A = Sample F} (λ s. s.name)
  pub by_job_id : SliceSort {A = JobRecord F} (λ j. j.job_id)
  pub web : Web F

module _ {F W : Type 0} ⦃fl : Float F⦄ (d : Deployment F W) where
  abbrev pub clock : World F W → Time
  clock w = d.now w.env

  abbrev pub collection : World F W → Snapshot F × World F W
  collection = collect d.now d.by_name (schedule d.now d.formats d.digest d.runner d.cfg)

  abbrev pub fresh_cache : Cache F
  fresh_cache = new_cache d.ttl d.zero_snapshot

  -- What is answered to a request, and what the request leaves.
  abbrev pub answered : Request → Process F W → Response × Cache F × World F W
  answered r p = serve d.web clock collection (some p.archive) r p.cache p.world

  abbrev pub requested : Request → Process F W → Process F W
  requested r p =
      let (response, cache, world) = answered r p in record p { cache = cache; world = world }

  -- `write`, which is called at the start and at each tick of the timer: `cache.Get`.
  abbrev pub taken : Process F W → Process F W
  taken p =
      let (snap, cache, world) = get clock collection p.cache p.world in
      record p { world = world; cache = cache; writing = some snap }

  -- `write`: `AppendSnapshot`, whose error is logged.
  abbrev pub written : Snapshot F → Process F W → Process F W
  written snap p =
      let result = append_snapshot d.codec d.by_job_id (clock p.world) snap p.archive in
      record p { archive = result.0; writing = none }

  -- `main` once more, on what the old process left in the directory.
  abbrev pub restarted : W → Store → Process F W
  restarted env archive = record {
    world = record { env = env; slow_data = [] };
    cache = fresh_cache;
    archive = archive;
    writing = none;
  }

pub data Step {F W : Type 0} ⦃fl : Float F⦄ (d : Deployment F W) (p : Process F W)
    : Process F W → Type 0 where
  waits : (env : W) → Step d p (record p { world = record p.world { env = env } })
  requests : (r : Request) → Step d p (requested d r p)
  takes : p.writing ≡ none → Step d p (taken d p)
  writes : {snap : Snapshot F} → p.writing ≡ some snap → Step d p (written d snap p)
  restarts :
      (env : W) (archive : Store)
      → open_store d.codec p.archive.dir none none p.archive.disk ≡ some archive
      → Step d p (restarted d env archive)

pub data Reach {F W : Type 0} ⦃fl : Float F⦄ (d : Deployment F W) (p : Process F W)
    : Process F W → Type 0 where
  here : Reach d p p
  later : {q r : Process F W} → Reach d p q → Step d q r → Reach d p r
