-- ===== src/Server/Startup.antt =====
-- The start of `main` in cmd/slurm-insights-exporter/main.go: the settings, the check of the
-- configuration and the archive. What the flag package finds on the command line is `Flags`.
pub mod Outcomes
use slurm_insights_exporter.Prelude.{
  ℕ, ◌*◌, Bool, false, not, List, [], ◌∷◌, Option, none, some, Text, Dict, codes, text_eq,
  if◌then◌else◌, pos,
}
use slurm_insights_exporter.Clock.{Duration}
use slurm_insights_exporter.Collector.{Config, validate}
use slurm_insights_exporter.History.{Codec, Store, Disk, open_store}
use slurm_insights_exporter.Server.{env, duration_env}

-- The values of the flags that the command line sets.
pub record Flags : Type 0 where
  pub text : Text → Option Text
  pub duration : Text → Option Duration
  pub switch : Text → Option Bool

pub record Settings : Type 0 where
  pub listen : Text
  pub cluster : Text
  pub timeout : Duration
  pub window : Duration
  pub ttl : Duration
  pub slow : Duration
  pub users : Bool
  pub jobs : Bool
  pub history_dir : Text
  pub history_interval : Duration

-- A flag that is not set has its default value.
abbrev pub or_default {ℓ} : {A : Type ℓ} → Option A → A → A
or_default none d = d
or_default (some v) d = v

abbrev pub seconds_of : ℕ → Duration
seconds_of n = pos (n * 1_000_000_000)

abbrev pub minutes_of : ℕ → Duration
minutes_of n = seconds_of (n * 60)

unfoldable pub settings : (Text → Option Duration) → Flags → Dict Text → Settings
settings parse_duration flags vars =
    let duration = λ (flag k : Text) (d : Duration).
      or_default (flags.duration flag) (duration_env parse_duration vars k d) in
    let text = λ (flag k d : Text). or_default (flags.text flag) (env vars k d) in
    record {
      listen = text (codes "web.listen-address") (codes "LISTEN_ADDRESS") (codes ":9341");
      cluster = text (codes "slurm.cluster") (codes "SLURM_CLUSTER") (codes "default");
      timeout = duration (codes "slurm.timeout") (codes "SLURM_TIMEOUT") (seconds_of 15);
      window =
          duration (codes "accounting.window") (codes "ACCOUNTING_WINDOW") (minutes_of (24 * 60));
      ttl = duration (codes "cache.ttl") (codes "CACHE_TTL") (seconds_of 30);
      slow = duration (codes "cache.slow-ttl") (codes "SLOW_CACHE_TTL") (minutes_of 5);
      users = or_default (flags.switch (codes "labels.users")) false;
      jobs = or_default (flags.switch (codes "metrics.per-job")) false;
      history_dir = text (codes "history.dir") (codes "HISTORY_DIR") [];
      history_interval =
          duration (codes "history.interval") (codes "HISTORY_INTERVAL") (minutes_of 5);
    }

unfoldable pub config_of : Settings → Config
config_of s = record {
  cluster = s.cluster;
  timeout = s.timeout;
  accounting_window = s.window;
  slow_refresh = s.slow;
  include_users = s.users;
  include_jobs = s.jobs;
}

-- The process ends with a code, or runs with or without an archive.
pub data Startup : Type 0 where
  exits : ℕ → Startup
  runs : Config → Option Store → Startup

abbrev pub with_archive : Config → Option Store → Startup
with_archive c none = exits 1
with_archive c (some archive) = runs c (some archive)

abbrev pub checked : Config → Option Text → Startup → Startup
checked c (some e) next = exits 2
checked c none next = next

-- By the errors of `MkdirAll` and `ReadFile`, and the directory.
unfoldable pub startup :
    {F : Type 0} → Codec F → Settings → Option Text → Option Text → Disk → Startup
startup codec s mkdir_error read_error disk =
    let c = config_of s in
    let opened = with_archive c (open_store codec s.history_dir mkdir_error read_error disk) in
    checked c (validate c) (if not (text_eq s.history_dir []) then opened else runs c none)

-- The errors of `ListenAndServe`: `http.ErrServerClosed`, or another.
pub data ServeError : Type 0 where
  server_closed : ServeError
  other : Text → ServeError

-- The end of `main`, by what `ListenAndServe` returns.
unfoldable pub stop_code : Option ServeError → ℕ
stop_code none = 0
stop_code (some server_closed) = 0
stop_code (some (other e)) = 1

-- The code with which the process ends, by its start and what `ListenAndServe` returns.
unfoldable pub exit_code : Startup → Option ServeError → ℕ
exit_code (exits n) served = n
exit_code (runs c h) served = stop_code served
