-- ===== src/Server/Process/Pages.antt =====
-- The page `/metrics` of the running exporter of cmd/slurm-insights-exporter/main.go.
use slurm_insights_exporter.Prelude.{
  ◌≡◌, ◌∙◌, ap, subst, [], ◌∷◌, ◌++◌, some, All, All-imp, Lacks, ℤ,
}
use slurm_insights_exporter.Float.{Float}
use slurm_insights_exporter.Model.{Sample, Snapshot}
use slurm_insights_exporter.Strings.{split}
use slurm_insights_exporter.History.{Store}
use slurm_insights_exporter.Collector.Catalog.{IsListed}
use slurm_insights_exporter.Collector.Catalog.Plain.{IsListed-Lacks}
use slurm_insights_exporter.Render.{newline}
use slurm_insights_exporter.Render.Rows.{IsRow, IsPlain}
use slurm_insights_exporter.Server.Http.{Request, Response, metrics, route_of, metrics_reply}
use slurm_insights_exporter.Server.Page.{page_lines, split-metrics_handler}
use slurm_insights_exporter.Server.Process.{Process, Deployment, Reach, answered, restarted}
use slurm_insights_exporter.Server.Process.Answers.{IsAnswer, IsCollected, IsYoung, process_answers}

module _ {F W : Type 0} ⦃fl : Float F⦄ (d : Deployment F W) where
  IsListed-IsRow : (s : Sample F) → IsListed d.cfg s → IsRow s
  IsListed-IsRow s h =
      let all = IsListed-Lacks d.cfg s h in
      record { help = all.0; name = all.1.0; kind = all.1.1.0; labels = all.1.1.1 }

  -- After any run of the process, a request for the metrics is answered with a page that has exactly the
  -- lines of the archive and of a snapshot that was collected when or less than the lifetime before it
  -- is answered, one for each sample and each error whatever Slurm's commands printed, and all samples
  -- are of the catalog, if quoted texts and printed numbers hold no line break.
  pub process_pages :
      (env : W) (archive : Store) {q : Process F W}
      → Reach d (restarted d env archive) q
      → (r : Request) → route_of d.web r ≡ some metrics
      → IsPlain F d.web.quote
      → ((z : ℤ) → Lacks newline (d.web.print z))
      → (snap : Snapshot F) × IsCollected d snap (answered d r q).1.at
        × IsYoung d (answered d r q).1.at (answered d r q).2
        × All (IsListed d.cfg) snap.samples
        × (split newline (answered d r q).0.body
            ≡ page_lines d.web.quote d.web.print snap (some q.archive) ++ [] ∷ [])
  process_pages env archive {q} reach r route plain prints =
      let (snap, shown, made, young, listed) =
        subst (λ o. IsAnswer d q r o (answered d r q)) route
          (process_answers d env archive reach r) in
      (
        snap,
        made,
        young,
        listed,
        ap (λ (reply : Response). split newline reply.body) shown
            ∙ unfold metrics_reply in
              split-metrics_handler d.web.quote d.web.print snap (some q.archive) plain prints
                (All-imp IsRow snap.samples (λ s h. IsListed-IsRow s h) listed),
      )
