-- ===== src/Tests/Processes.antt =====
-- A run of the exporter of cmd/slurm-insights-exporter/main.go: two ticks, a restart, a request and
-- one more tick, in a world that is its clock and in which no command runs.
use slurm_insights_exporter.Prelude.{
  All, ◌++◌, ◌∷◌, lookup, text_eq, arith, codes, ℕ, ◌≡◌, refl, [], some, none, ℤ, pos,
}
use slurm_insights_exporter.Float.Whole.{whole, print-Lacks}
use slurm_insights_exporter.History.{Store, opened, open_store}
use slurm_insights_exporter.History.Healthy.{IsHealthy, Encodes, append_snapshot-IsDone}
use slurm_insights_exporter.History.Restart.{open_store-append_snapshot}
use slurm_insights_exporter.Cache.{get}
use slurm_insights_exporter.Server.Http.{Web, Request, metrics, route_of}
use slurm_insights_exporter.Server.Process.{
  Process, Deployment, Reach, here, later, requests, takes, writes, restarts, requested, answered,
  taken, written, restarted, clock, collection,
}
use slurm_insights_exporter.Server.Process.Answers.{IsAnswer, IsCollected, IsYoung, process_answers}
use slurm_insights_exporter.Server.Process.Pages.{process_pages}
use slurm_insights_exporter.Server.Page.{page_lines}
use slurm_insights_exporter.Render.Rows.{IsPlain}
use slurm_insights_exporter.Render.Errors.{replace_all-Lacks}
use slurm_insights_exporter.Strings.{split, replace_all}
use slurm_insights_exporter.Model.{Snapshot}
use slurm_insights_exporter.Collector.Catalog.{IsListed}
use slurm_insights_exporter.Tests.Coding.{read_state-state_code}
use slurm_insights_exporter.Tests.Archive.{codec, payload_code, archive, by_job_id, two_jobs}
use slurm_insights_exporter.Tests.Collections.{now, cfg, formats, broken, by_name}

-- A router of exact paths, a quotation without quotes, and plain texts for JSON.
abbrev web : Web ℤ
web = record {
  quote = replace_all b'\n' b' ';
  print = λ n. [];
  atoi = λ t. none;
  encode_snapshot = λ s. [];
  encode_jobs = λ j. [];
  encode_status = λ s. s.last_hash;
  http_error = λ t n. record { code = n; content_type = none; body = t };
  mux = λ ps path. some path;
  unmatched = λ path. record { code = 404; content_type = none; body = path };
  version = codes "dev";
}

abbrev deployment : Deployment ℤ ℕ
deployment = record {
  now = now;
  formats = formats;
  digest = λ t. t;
  runner = broken;
  cfg = cfg;
  ttl = pos 30;
  zero_snapshot = two_jobs;
  codec = codec;
  by_name = by_name;
  by_job_id = by_job_id;
  web = web;
}

pub encodes : Encodes codec
encodes = record { marshals = λ v. (payload_code v, refl); saves = λ st. (_, refl) }

pub archive-IsHealthy : IsHealthy archive
archive-IsHealthy = record { no_faults = refl; writes = refl; renames = refl }

abbrev started : Process ℤ ℕ
started = restarted deployment 0 archive

-- The goroutine of the archive takes a snapshot and writes it.
abbrev ticked : Process ℤ ℕ → Process ℤ ℕ
ticked p =
    let (snap, cache, w) = get (clock deployment) (collection deployment) p.cache p.world in
    written deployment snap (taken deployment p)

abbrev ticked_once : Process ℤ ℕ
ticked_once = ticked started

abbrev stored : Store
stored = opened ticked_once.archive.dir ticked_once.archive.disk ticked_once.archive.state

resumes : open_store codec ticked_once.archive.dir none none ticked_once.archive.disk ≡ some stored
resumes =
    let (snap, cache, w) =
      get (clock deployment) (collection deployment) started.cache started.world in
    open_store-append_snapshot codec by_job_id (clock deployment w) snap archive
      ticked_once.archive.dir read_state-state_code
      (append_snapshot-IsDone codec encodes by_job_id (clock deployment w) snap archive
        archive-IsHealthy).0

abbrev after_restart : Process ℤ ℕ
after_restart = restarted deployment 400 stored

abbrev scrape : Request
scrape = record { path = codes "/metrics"; limit = []; state = []; account = [] }

abbrev last : Process ℤ ℕ
last = ticked (requested deployment scrape after_restart)

-- Two ticks, with a restart and a request between them.
run : Reach deployment started last
run =
    later
      (later
        (later (later (later (later here (takes refl)) (writes refl)) (restarts 400 stored resumes))
          (requests scrape))
        (takes refl))
      (writes refl)

process_answers_example :
    IsAnswer deployment last scrape (route_of web scrape) (answered deployment scrape last)
process_answers_example = process_answers deployment 0 archive run scrape

web-IsPlain : IsPlain ℤ web.quote
web-IsPlain = record { quotes = replace_all-Lacks; formats = print-Lacks b'\n' (omega arith) }

scraped : route_of web scrape ≡ some metrics
unfolding lookup text_eq
scraped = refl

process_pages_example :
    (snap : Snapshot ℤ) × IsCollected deployment snap (answered deployment scrape last).1.at
    × IsYoung deployment (answered deployment scrape last).1.at (answered deployment scrape last).2
    × All (IsListed cfg) snap.samples
    × (split b'\n' (answered deployment scrape last).0.body
        ≡ page_lines web.quote web.print snap (some last.archive) ++ [] ∷ [])
process_pages_example = process_pages deployment 0 archive run scrape scraped web-IsPlain (λ z. tt)
