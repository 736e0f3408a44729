-- ===== src/Tests/Generated.antt =====
-- `main` of tools/dashboardgen/main.go on a file system that is a map of paths to bytes.
use slurm_insights_exporter.Prelude.{
  List, [], ◌∷◌, ◌++◌, none, some, Text, codes, Dict, lookup, insert,
}
use slurm_insights_exporter.Dashboards.Generate.{FileSystem}

-- Every value is encoded as a blank object.
abbrev file_map : FileSystem (Dict Text)
file_map = record {
  marshal = λ j. some (codes "{}");
  join_path = λ out f. out ++ b'/' ∷ f;
  mkdir = λ p m. (m, none);
  write = λ p b m. (insert p b m, none);
  read = lookup;
}

abbrev arguments : List Text
arguments = codes "dashboardgen" ∷ codes "out" ∷ []
