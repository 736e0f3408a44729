-- ===== src/Render/Errors.antt =====
-- The lines for errors of internal/slurm/render.go.
use slurm_insights_exporter.Prelude.{[], ◌∷◌, ◌++◌, Text, codes, All-append, Lacks, arith}
use slurm_insights_exporter.Strings.{replace_all}
use slurm_insights_exporter.Render.{newline}

-- The line of an error.
abbrev pub error_line : Text → Text
error_line e = codes "# ERROR " ++ replace_all newline b' ' e

pub replace_all-Lacks : (e : Text) → Lacks newline (replace_all newline b' ' e)
unfolding replace_all
replace_all-Lacks [] = tt
replace_all-Lacks (c ∷ e) = (ground arith, replace_all-Lacks e)

pub error_line-Lacks : (e : Text) → Lacks newline (error_line e)
error_line-Lacks e =
    All-append _ (codes "# ERROR ") (replace_all newline b' ' e) (ground arith)
      (replace_all-Lacks e)
