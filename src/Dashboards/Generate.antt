-- ===== src/Dashboards/Generate.antt =====
-- `main` of tools/dashboardgen/main.go. The file system is an interface with its contract, and
-- `json.MarshalIndent` and `filepath.Join` are functions of it; `panic` ends the program with the error.
pub mod Written
use mathlib.Core.Option
use slurm_insights_exporter.Prelude.{
  ◌≡◌, ◌≢◌, List, [], ◌∷◌, ◌++◌, Option, none, some, Text, codes, All,
}
use slurm_insights_exporter.Dashboards.{Json, DashboardDef, build}
use slurm_insights_exporter.Dashboards.Files.{dashboards}

-- `os.MkdirAll` and `os.WriteFile` on a state `D` of the file system, with what a file holds.
pub record FileSystem (D : Type 0) : Type 0 where
  pub marshal : Json → Option Text
  pub join_path : Text → Text → Text
  pub mkdir : Text → D → D × Option Text
  pub write : Text → Text → D → D × Option Text
  pub read : Text → D → Option Text

-- A write that succeeds leaves its bytes in the file, and leaves the other files; the names of a
-- directory's files are different paths.
pub record IsFileSystem {D : Type 0} (fs : FileSystem D) : Type 0 where
  pub read-write :
      (p b : Text) (dir : D) → (fs.write p b dir).1 ≡ none → fs.read p (fs.write p b dir).0 ≡ some b
  pub read-write_ne :
      (p q b : Text) (dir : D) → q ≢ p → fs.read q (fs.write p b dir).0 ≡ fs.read q dir
  pub join_path-inj : (out f g : Text) → fs.join_path out f ≡ fs.join_path out g → f ≡ g

-- `out`, by `os.Args`.
unfoldable pub out_of : List Text → Text
out_of (name ∷ out ∷ rest) = out
out_of _ = codes "deploy/grafana/dashboards"

-- `panic` on an error, and what follows it otherwise.
unfoldable pub or_panic {ℓ κ} :
    {D : Type ℓ} → {E : Type κ} → D × Option E → D × Option E → D × Option E
or_panic (dir, some e) rest = (dir, some e)
or_panic (dir, none) rest = rest

module _ {D : Type 0} (fs : FileSystem D) where
  abbrev pub with_newline : Text → Text
  with_newline b = b ++ b'\n' ∷ []

  -- A round of the loop: the encoding of a dashboard goes into its file.
  unfoldable pub write_dashboard : Text → DashboardDef → Option Text → D → D × Option Text
  write_dashboard out d none dir = (dir, some (codes "json: unsupported value"))
  write_dashboard out d (some b) dir = fs.write (fs.join_path out d.file) (with_newline b) dir

  -- The loop over the dashboards, with the error of `panic`.
  unfoldable pub write_all : Text → List DashboardDef → D → D × Option Text
  write_all out [] dir = (dir, none)
  write_all out (d ∷ ds) dir =
      let r = write_dashboard out d (fs.marshal (build d)) dir in or_panic r (write_all out ds r.0)

  -- `main`, by the arguments of the command line.
  unfoldable pub generate : List Text → D → D × Option Text
  generate args dir =
      let out = out_of args in let r = fs.mkdir out dir in or_panic r (write_all out dashboards r.0)

  -- The file of a dashboard holds its encoding.
  abbrev pub IsWritten : Text → D → DashboardDef → Type 0
  IsWritten out dir d =
      fs.read (fs.join_path out d.file) dir ≡ Option.map with_newline (fs.marshal (build d))

-- The causes of a panic.
pub data Failed {D : Type 0} (fs : FileSystem D) : Type 0 where
  unopened : (p : Text) (dir : D) (x : Text) → (fs.mkdir p dir).1 ≡ some x → Failed fs
  unencodable : (d : DashboardDef) → fs.marshal (build d) ≡ none → Failed fs
  unwritten : (p b : Text) (dir : D) (x : Text) → (fs.write p b dir).1 ≡ some x → Failed fs

-- Each name differs from those behind it.
abbrev pub DifferentFiles : List DashboardDef → Type 0
DifferentFiles [] = Unit
DifferentFiles (d ∷ ds) = All (λ c. d.file ≢ c.file) ds × DifferentFiles ds
