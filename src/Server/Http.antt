-- ===== src/Server/Http.antt =====
-- The handlers that `main` of cmd/slurm-insights-exporter/main.go registers, over `http.ServeMux`.
use slurm_insights_exporter.Prelude.{
  ℕ, ℤ, List, [], ◌∷◌, ◌++◌, map, Option, none, some, Text, Dict, codes, lookup,
}
use slurm_insights_exporter.Float.{Float}
use slurm_insights_exporter.Model.{Time, Snapshot}
use slurm_insights_exporter.Cache.{Cache, get}
use slurm_insights_exporter.History.{Store, Status}
use slurm_insights_exporter.Server.{
  JobsReply, jobs_handler, history_handler, metrics_handler, newline,
}

-- A status, the `Content-Type` that the handler sets, and the body.
pub record Response : Type 0 where
  pub code : ℕ
  pub content_type : Option Text
  pub body : Text

-- `r.URL.Path`, and what `r.URL.Query().Get` gives for the three parameters.
pub record Request : Type 0 where
  pub path : Text
  pub limit : Text
  pub state : Text
  pub account : Text

-- The code that the handlers call: `strconv.Quote`, `%d`, `strconv.Atoi` (`none` is an error), the JSON
-- encoder for three types, `http.Error`, the choice of `ServeMux` among the registered patterns for a
-- path with what it answers if there is none, and the version.
pub record Web (F : Type 0) : Type 0 where
  pub quote : Text → Text
  pub print : ℤ → Text
  pub atoi : Text → Option ℤ
  pub encode_snapshot : Snapshot F → Text
  pub encode_jobs : JobsReply F → Text
  pub encode_status : Status → Text
  pub http_error : Text → ℕ → Response
  pub mux : List Text → Text → Option Text
  pub unmatched : Text → Response
  pub version : Text

pub data Route : Type 0 where
  metrics snapshot jobs history healthy index : Route

-- The calls of `mux.HandleFunc`.
abbrev pub registered : Dict Route
registered =
    (codes "/metrics", metrics)
    ∷ (codes "/api/v1/snapshot", snapshot)
    ∷ (codes "/api/v1/jobs", jobs)
    ∷ (codes "/api/v1/history/status", history)
    ∷ (codes "/-/healthy", healthy)
    ∷ (codes "/", index)
    ∷ []

abbrev pub patterns : List Text
patterns = map (λ e. e.0) registered

abbrev pub json : Text → Response
json body = record { code = 200; content_type = some (codes "application/json"); body = body }

abbrev pub plain : Text → Response
plain body = record { code = 200; content_type = none; body = body }

-- `cache.Get(r.Context())`, and what is answered with its snapshot.
unfoldable pub with_snapshot :
    {F W : Type 0} (now : W → Time) (collect : W → Snapshot F × W)
    → (Snapshot F → Response)
    → Cache F
    → W
    → Response × Cache F × W
with_snapshot now collect answer cache w =
    let (snap, cache', w') = get now collect cache w in (answer snap, cache', w')

module _ {F : Type 0} ⦃fl : Float F⦄ (web : Web F) where
  -- `/metrics`
  unfoldable pub metrics_reply : Option Store → Snapshot F → Response
  metrics_reply archive snap = record {
    code = 200;
    content_type = some (codes "text/plain; version=0.0.4; charset=utf-8");
    body = metrics_handler web.quote web.print snap archive;
  }

  -- `/api/v1/snapshot`
  unfoldable pub snapshot_reply : Snapshot F → Response
  snapshot_reply snap = json (web.encode_snapshot snap)

  -- `/api/v1/jobs`
  unfoldable pub jobs_reply : Request → Snapshot F → Response
  jobs_reply r snap = json (web.encode_jobs (jobs_handler web.atoi r.limit r.state r.account snap))

  abbrev pub status_or_error : Option Status → Response
  status_or_error none = web.http_error (codes "history is disabled") 404
  status_or_error (some s) = json (web.encode_status s)

  -- `/api/v1/history/status`
  unfoldable pub history_reply : Option Store → Response
  history_reply archive = status_or_error (history_handler archive)

  unfoldable pub healthy_reply : Response
  healthy_reply = plain (codes "ok" ++ newline ∷ [])

  unfoldable pub index_reply : Response
  index_reply = plain (
      codes "slurm-insights-exporter "
      ++ web.version
      ++ newline ∷ codes "/metrics"
      ++ newline ∷ codes "/api/v1/snapshot"
      ++ newline ∷ codes "/api/v1/jobs"
      ++ newline ∷ codes "/api/v1/history/status"
      ++ newline ∷ codes "/-/healthy"
      ++ newline ∷ [])

  abbrev pub route_at : Option Text → Option Route
  route_at none = none
  route_at (some pattern) = lookup pattern registered

  abbrev pub route_of : Request → Option Route
  route_of r = route_at (web.mux patterns r.path)

  module _ {W : Type 0} (now : W → Time) (collect : W → Snapshot F × W)
      (archive : Option Store) where
    -- The handler of a route.
    unfoldable pub handle : Route → Request → Cache F → W → Response × Cache F × W
    handle metrics r cache w = with_snapshot now collect (metrics_reply archive) cache w
    handle snapshot r cache w = with_snapshot now collect snapshot_reply cache w
    handle jobs r cache w = with_snapshot now collect (jobs_reply r) cache w
    handle history r cache w = (history_reply archive, cache, w)
    handle healthy r cache w = (healthy_reply, cache, w)
    handle index r cache w = (index_reply, cache, w)

    abbrev pub serve_route : Option Route → Request → Cache F → W → Response × Cache F × W
    serve_route none r cache w = (web.unmatched r.path, cache, w)
    serve_route (some route) r cache w = handle route r cache w

    -- The answer to a request.
    unfoldable pub serve : Request → Cache F → W → Response × Cache F × W
    serve r cache w = serve_route (route_of r) r cache w
