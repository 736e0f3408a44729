-- ===== src/Parse/Rows.antt =====
-- `lines` of internal/slurm/parse.go reads back what a command prints.
use slurm_insights_exporter.Prelude.{◌≡◌, ◌≢◌, false, List, [], ◌∷◌, Text, Lacks, All}
use slurm_insights_exporter.Strings.{is_space, join}
use slurm_insights_exporter.Strings.Trim.{IsSolid}

-- The text begins with a character that is no white space.
abbrev Begins : Text → Type 0
Begins [] = ⊥
Begins (c ∷ s) = is_space c ≡ false

-- A line that is printed: not empty, with no white space in it.
pub record IsLine (l : Text) : Type 0 where
  pub nonempty : l ≢ []
  pub solid : IsSolid l

-- A row of fields whose printed line is no blank one.
pub record IsRow (r : List Text) : Type 0 where
  pub some_field : r ≢ []
  pub fields : All (Lacks b'|') r
  pub line : IsLine (join b'|' r)
