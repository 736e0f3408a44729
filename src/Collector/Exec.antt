-- ===== src/Collector/Exec.antt =====
-- internal/slurm/runner.go: `ExecRunner`, over `exec.Cmd.Run`.
use slurm_insights_exporter.Prelude.{List, ◌++◌, Option, none, some, Text, codes}
use slurm_insights_exporter.Clock.{Duration}
use slurm_insights_exporter.Collector.Shared.{Runner, Reply, output, failed}

-- What a finished command leaves: the error of `Run`, and the two buffers.
pub record Finished : Type 0 where
  pub err : Option Text
  pub stdout : Text
  pub stderr : Text

-- `fmt.Errorf("%s: %w: %s", name, err, stderr.String())`, or the output.
unfoldable pub reply_of : Text → Finished → Reply
reply_of name f = elim f.err [
  | some e ↦ failed (name ++ codes ": " ++ e ++ codes ": " ++ f.stderr)
  | none ↦ output f.stdout
]

-- `ExecRunner.Run`; `execute` is `exec.CommandContext` with its `Run`, under a context that ends after
-- the timeout.
unfoldable pub exec_runner :
    {W : Type 0} → (Duration → Text → List Text → W → Finished × W) → Runner W
exec_runner execute timeout name args w =
    let (f, w') = execute timeout name args w in (reply_of name f, w')
