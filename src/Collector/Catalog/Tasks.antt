-- ===== src/Collector/Catalog/Tasks.antt =====
-- The metrics of what the ten collectors of `Collect` in internal/slurm/collector.go return.
use slurm_insights_exporter.Prelude.{List, [], ◌∷◌, Text, All, All-append}
use slurm_insights_exporter.Float.{Float}
use slurm_insights_exporter.Model.{Time, Sample}
use slurm_insights_exporter.Clock.{Formats}
use slurm_insights_exporter.Strings.{split}
use slurm_insights_exporter.Strings.Parts.{split-Lacks}
use slurm_insights_exporter.Parse.{lines}
use slurm_insights_exporter.Collector.{Config, Outcome}
use slurm_insights_exporter.Collector.Shared.{
  Runner, Reply, output, failed, read_reply, run, command,
}
use slurm_insights_exporter.Collector.KeyValues.{text_lines}
use slurm_insights_exporter.Collector.Inventory.{
  partition_row, node_row, fairshare_row, nodes, partitions, fairshare,
}
use slurm_insights_exporter.Collector.Queue.{queue}
use slurm_insights_exporter.Collector.Accounting.{accounting}
use slurm_insights_exporter.Collector.Limits.{
  each_line, reservation_line, license_line, limit_row, reservations, licenses, account_limits,
}
use slurm_insights_exporter.Collector.Scheduler.{diagnostics}
use slurm_insights_exporter.Collector.Tres.{tres_profiles}
use slurm_insights_exporter.Collector.Pool.{Task}
use slurm_insights_exporter.Collector.Schedule.{tasks}
use slurm_insights_exporter.Collector.Catalog.{IsListed}
use slurm_insights_exporter.Collector.Catalog.Rows.{
  AreListed, each_row-AreListed, partition_row-AreListed, node_row-AreListed,
  fairshare_row-AreListed, reservation_line-AreListed, license_line-AreListed, limit_row-AreListed,
}
use slurm_insights_exporter.Collector.Catalog.Readings.{read_queue-AreListed, read_nodes-AreListed}
use slurm_insights_exporter.Collector.Catalog.Diagnostics.{read_diagnostics-AreListed}
use slurm_insights_exporter.Collector.Catalog.Accounting.{read_accounting-AreListed}

module _ {F : Type 0} ⦃fl : Float F⦄ (cfg : Config) where
  read_reply-AreListed :
      (read : Text → Outcome F) (r : Reply)
      → ((b : Text) → AreListed F cfg (read b).samples)
      → AreListed F cfg (read_reply read r).samples
  read_reply-AreListed read (output b) h = h b
  read_reply-AreListed read (failed e) h = tt

  command-AreListed :
      {W : Type 0} (runner : Runner W) (name : Text) (args : List Text) (read : Text → Outcome F)
      (w : W)
      → ((b : Text) → AreListed F cfg (read b).samples)
      → AreListed F cfg (command runner cfg name args read w).0.samples
  unfolding command
  command-AreListed runner name args read w h =
      read_reply-AreListed read (run runner cfg name args w).0 h

  each_line-AreListed :
      (f : Text → List (Sample F)) (ls : List Text)
      → ((l : Text) → AreListed F cfg (f l))
      → AreListed F cfg (each_line f ls)
  each_line-AreListed f [] h = tt
  each_line-AreListed f (l ∷ ls) h =
      All-append (IsListed cfg) (f l) (each_line f ls) (h l) (each_line-AreListed f ls h)

  -- Whatever the commands print, the task returns samples of the catalog.
  abbrev pub AlwaysLists : {W : Type 0} → Task F W → Type 0
  AlwaysLists {W} k = (env : W) → AreListed F cfg (k.fn env).0.samples

module _ (F W : Type 0) ⦃fl : Float F⦄ (now : W → Time) (formats : Formats) (digest : Text → Text)
    (runner : Runner W) (cfg : Config) where
  pub tasks-AlwaysLists :
      All (AlwaysLists {F = F} cfg {W = W}) (tasks now formats digest runner cfg)
  unfolding tasks nodes partitions queue tres_profiles reservations accounting fairshare diagnostics
      licenses account_limits
  tasks-AlwaysLists = (
    (λ w.
        command-AreListed cfg runner _ _ _ w
          (λ b. each_row-AreListed F cfg (node_row cfg) (lines b) (node_row-AreListed F cfg))),
    (
      (λ w. command-AreListed cfg runner _ _ _ w (λ b.
          each_row-AreListed F cfg (partition_row cfg) (lines b) (partition_row-AreListed F cfg))),
      (
        (λ w. command-AreListed cfg runner _ _ _ w (read_queue-AreListed F cfg formats)),
        (
          (λ w. command-AreListed cfg runner _ _ _ w (read_nodes-AreListed F cfg digest)),
          (
            (λ w. command-AreListed cfg runner _ _ _ w (λ b.
                each_line-AreListed cfg (reservation_line formats cfg) (text_lines b)
                  (reservation_line-AreListed F cfg formats))),
            (
              (λ w. command-AreListed cfg runner _ _ _ w (read_accounting-AreListed F cfg formats)),
              (
                (λ w. command-AreListed cfg runner _ _ _ w (λ b.
                    each_row-AreListed F cfg (fairshare_row cfg) (lines b)
                      (fairshare_row-AreListed F cfg))),
                (
                  (λ w. command-AreListed cfg runner _ _ _ w (λ b.
                      read_diagnostics-AreListed F cfg (split b'\n' b) (split-Lacks b'\n' b))),
                  (
                    (λ w. command-AreListed cfg runner _ _ _ w (λ b.
                        each_line-AreListed cfg (license_line cfg) (text_lines b)
                          (license_line-AreListed F cfg))),
                    (
                      (λ w. command-AreListed cfg runner _ _ _ w (λ b.
                          each_row-AreListed F cfg limit_row (lines b)
                            (limit_row-AreListed F cfg))),
                      tt,
                    ),
                  ),
                ),
              ),
            ),
          ),
        ),
      ),
    ),
  )
