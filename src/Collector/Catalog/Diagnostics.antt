-- ===== src/Collector/Catalog/Diagnostics.antt =====
-- The samples of the collector `diagnostics`, and their metrics.
use slurm_insights_exporter.Prelude.{
  ◌≡◌, refl, subst, Bool-cases, inl, inr, Lacks, Option-cases, List, [], ◌∷◌, ◌++◌, Option, none,
  some, Text, Dict, codes, lookup, text_eq, All, All-append, if◌then◌else◌, arith,
}
use slurm_insights_exporter.Float.{Float}
use slurm_insights_exporter.Strings.{has_suffix, trim_space, cut}
use slurm_insights_exporter.Strings.Parts.{cut-Lacks}
use slurm_insights_exporter.Collector.{Config, sample}
use slurm_insights_exporter.Collector.Scheduler.{
  mapping, diag_line, diag_label, diag_number, is_blank, diag_sample, diag_samples,
  read_diagnostics,
}
use slurm_insights_exporter.Collector.Catalog.{catalog, IsListed, is_line, is_line_lem}
use slurm_insights_exporter.Collector.Catalog.Rows.{AreListed}

-- The metric that `diagnostics` gives a name has the type that it is given there.
abbrev IsMapped : Config → Text → Type 0
IsMapped cfg n =
    lookup (codes "slurm_" ++ n) (catalog cfg)
    ≡ some (
      if has_suffix n (codes "_total") then codes "counter" else codes "gauge",
      codes "cluster" ∷ [],
    )

lookup-All {ℓ} :
    (P : Text → Type ℓ) (m : Dict Text) (k n : Text)
    → All (λ e. P e.1) m
    → lookup k m ≡ some n
    → P n
unfolding lookup
lookup-All P [] k n h e = absurd (ground (arith, e))
lookup-All P ((j, v) ∷ m) k n h e = elim (Bool-cases (text_eq j k)) [
  | inl same ↦ subst P (ground (arith, e, same)) h.0
  | inr other ↦ lookup-All P m k n h.1 (ground (arith, e, other))
]

mapping-IsMapped : (cfg : Config) → All (λ e. IsMapped cfg e.1) mapping
unfolding lookup text_eq has_suffix
mapping-IsMapped cfg = (
  refl,
  (
    refl,
    (
      refl,
      (
        refl,
        (
          refl,
          (
            refl,
            (
              refl,
              (
                refl,
                (refl, (refl, (refl, (refl, (refl, (refl, (refl, (refl, (refl, (refl, tt)))))))))),
              ),
            ),
          ),
        ),
      ),
    ),
  ),
)

diag_label-Lacks : (t : Text) → Lacks b'\n' t → Lacks b'\n' (diag_label t)
unfolding diag_label
diag_label-Lacks [] h = tt
diag_label-Lacks (c ∷ []) h = h
diag_label-Lacks (c ∷ d ∷ t) h = elim (Bool-cases (is_blank c)) [
  | inl e ↦ rw e (diag_label-Lacks (d ∷ t) h.1)
  | inr e ↦ rw e h
]

diag_number-label :
    (t rest label digits : Text) → diag_number t rest ≡ some (label, digits) → t ≡ label
unfolding diag_number
diag_number-label t rest label digits e = ground (arith, e)

diag_line-Lacks :
    (line label digits : Text)
    → Lacks b'\n' line
    → diag_line line ≡ some (label, digits)
    → Lacks b'\n' label
unfolding diag_line
diag_line-Lacks line label digits h e = elim (Option-cases (cut b':' line)) [
  | inl none_cut ↦ absurd (ground (arith, rw (none_cut, diag_line) at e))
  | inr ((before, rest), found) ↦
      subst (Lacks b'\n')
        (diag_number-label (diag_label before) rest label digits (rw (found, diag_line) at e))
        (diag_label-Lacks before (cut-Lacks b':' b'\n' line before rest found h).1)
]

module _ (F : Type 0) ⦃fl : Float F⦄ (cfg : Config) where
  diag_sample-AreListed :
      (label digits : Text) (k : Text) (o : Option Text)
      → Lacks b'\n' label
      → lookup k mapping ≡ o
      → AreListed F cfg (diag_sample cfg label digits o)
  unfolding diag_sample sample is_line
  diag_sample-AreListed label digits k none l e = tt
  diag_sample-AreListed label digits k (some n) l e =
      ((lookup-All (IsMapped cfg) mapping k n (mapping-IsMapped cfg) e, is_line_lem label l), tt)

  diag_samples-AreListed :
      (line : Text) → Lacks b'\n' line → AreListed F cfg (diag_samples cfg (diag_line line))
  unfolding diag_samples
  diag_samples-AreListed line l = elim (Option-cases (diag_line line)) [
    | inl e ↦ rw e tt
    | inr ((label, digits), e) ↦ rw e (
        diag_sample-AreListed label digits (trim_space label) _
          (diag_line-Lacks line label digits l e) refl)
  ]

  pub read_diagnostics-AreListed :
      (ls : List Text) → All (Lacks b'\n') ls → AreListed F cfg (read_diagnostics cfg ls)
  unfolding read_diagnostics
  read_diagnostics-AreListed [] h = tt
  read_diagnostics-AreListed (l ∷ ls) h =
      All-append (IsListed cfg) (diag_samples cfg (diag_line l)) (read_diagnostics cfg ls)
        (diag_samples-AreListed l h.0) (read_diagnostics-AreListed ls h.1)
