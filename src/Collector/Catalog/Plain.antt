-- ===== src/Collector/Catalog/Plain.antt =====
-- What is written for a metric of the catalog holds no line break.
use slurm_insights_exporter.Prelude.{
  ◌≡◌, refl, Bool, true, false, Bool-cases, inl, inr, if◌then◌else◌, List, [], ◌∷◌, some, Text,
  Dict, lookup, keys, text_eq_iff, All, Lacks, arith,
}
use slurm_insights_exporter.Model.{Sample}
use slurm_insights_exporter.Collector.{Config}
use slurm_insights_exporter.Collector.Catalog.{
  catalog_of, catalog, is_line, is_line-Lacks, IsListed,
}

abbrev are_lines : List Text → Bool
are_lines [] = true
are_lines (t ∷ ts) = if is_line t then are_lines ts else false

abbrev entries_are_lines : Dict (Text × List Text) → Bool
entries_are_lines [] = true
entries_are_lines ((n, (kind, labels)) ∷ m) =
    if are_lines (n ∷ kind ∷ labels) then entries_are_lines m else false

are_lines-Lacks : (ts : List Text) → are_lines ts ≡ true → All (Lacks b'\n') ts
are_lines-Lacks [] h = tt
are_lines-Lacks (t ∷ ts) h = elim (Bool-cases (is_line t)) [
  | inl e ↦ (is_line-Lacks t e, are_lines-Lacks ts (ground (arith, h, e)))
  | inr e ↦ absurd (ground (arith, h, e))
]

lookup-are_lines :
    (m : Dict (Text × List Text)) (n kind : Text) (labels : List Text)
    → entries_are_lines m ≡ true
    → lookup n m ≡ some (kind, labels)
    → are_lines (n ∷ kind ∷ labels) ≡ true
unfolding lookup
lookup-are_lines [] n kind labels h e = absurd (ground (arith, e))
lookup-are_lines ((j, (k, ls)) ∷ m) n kind labels h e =
    ground (arith, text_eq_iff j n, h, e, lookup-are_lines m n kind labels)

catalog-are_lines : (users : Bool) → entries_are_lines (catalog_of users) ≡ true
unfolding is_line
catalog-are_lines true = refl
catalog-are_lines false = refl

pub IsListed-Lacks :
    {F : Type 0} (cfg : Config) (s : Sample F)
    → IsListed cfg s
    → All (Lacks b'\n') (s.help ∷ s.name ∷ s.kind ∷ keys s.labels)
IsListed-Lacks cfg s h = (
  is_line-Lacks s.help h.1,
  are_lines-Lacks (s.name ∷ s.kind ∷ keys s.labels) (
      lookup-are_lines (catalog cfg) s.name s.kind (keys s.labels)
        (catalog-are_lines cfg.include_users) h.0),
)
