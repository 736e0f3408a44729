-- ===== src/Render/Lines.antt =====
-- Texts whose lines are known, and the lines that begin a family of internal/slurm/render.go.
use slurm_insights_exporter.Prelude.{
  ◌≡◌, refl, sym, ◌∙◌, ap, List, [], ◌∷◌, ◌++◌, Text, codes, append_assoc, Lacks, arith, subst,
}
use slurm_insights_exporter.Strings.{split}
use slurm_insights_exporter.Strings.Parts.{split-append}
use slurm_insights_exporter.Render.{newline, header}

-- A text with its lines, whatever comes behind it.
pub record Splits (t : Text) (ls : List Text) : Type 0 where
  pub before : (s : Text) → split newline (t ++ s) ≡ ls ++ split newline s

pub Splits-nil : Splits [] []
Splits-nil = record { before = λ s. refl }

pub Splits-append :
    {t u : Text} {ls ms : List Text} → Splits t ls → Splits u ms → Splits (t ++ u) (ls ++ ms)
Splits-append {t} {u} {ls} {ms} h k = record {
  before = λ s.
      ap (split newline) (append_assoc t u s)
      ∙ h.before (u ++ s)
      ∙ ap (λ r. ls ++ r) (k.before s)
      ∙ sym (append_assoc ls ms (split newline s));
}

-- A line that is ended.
pub Splits-cons :
    {t u : Text} {ms : List Text}
    → Lacks newline t
    → Splits u ms
    → Splits (t ++ newline ∷ u) (t ∷ ms)
Splits-cons {t} {u} h k = record {
  before = λ s.
      ap (split newline) (append_assoc t (newline ∷ u) s)
      ∙ split-append newline t (u ++ s) h
      ∙ ap (◌∷◌ t) (k.before s);
}

split-more :
    (p t l : Text) (ls : List Text)
    → Lacks newline p
    → split newline t ≡ l ∷ ls
    → split newline (p ++ t) ≡ (p ++ l) ∷ ls
unfolding split
split-more [] t l ls h e = e
split-more (c ∷ p) t l ls h e = ground (arith, h.0, split-more p t l ls h.1 e)

-- A beginning of a line.
pub Splits-more :
    (p : Text) {u l : Text} {ms : List Text}
    → Lacks newline p
    → Splits u (l ∷ ms)
    → Splits (p ++ u) ((p ++ l) ∷ ms)
Splits-more p {u} {l} {ms} h k = record {
  before = λ s.
      ap (split newline) (append_assoc p u s)
      ∙ split-more p (u ++ s) l (ms ++ split newline s) h (k.before s);
}

-- The two lines above the samples of a family.
abbrev pub header_lines : Text → Text → Text → List Text
header_lines name help kind =
    (codes "# HELP " ++ (name ++ b' ' ∷ help)) ∷ (codes "# TYPE " ++ (name ++ b' ' ∷ kind)) ∷ []

header-nested :
    (name help kind : Text)
    → header name help kind
      ≡ codes "# HELP "
        ++ (name
            ++ ((b' ' ∷ [])
                ++ (help
                    ++ newline
                      ∷ (codes "# TYPE " ++ (name ++ ((b' ' ∷ []) ++ (kind ++ newline ∷ [])))))))
header-nested name help kind = simp (append_assoc)

pub header-Splits :
    (name help kind : Text)
    → Lacks newline name
    → Lacks newline help
    → Lacks newline kind
    → Splits (header name help kind) (header_lines name help kind)
header-Splits name help kind n h k =
    let blank : Lacks newline (b' ' ∷ []) = ground arith in
    let hash : Lacks newline (codes "# HELP ") = ground arith in
    let hash' : Lacks newline (codes "# TYPE ") = ground arith in
    subst (λ t. Splits t (header_lines name help kind)) (sym (header-nested name help kind))
      (Splits-more (codes "# HELP ") hash (
        Splits-more name n (
          Splits-more (b' ' ∷ []) blank (
            Splits-cons h (
              Splits-more (codes "# TYPE ") hash'
                (Splits-more name n (Splits-more (b' ' ∷ []) blank (Splits-cons k Splits-nil))))))))
