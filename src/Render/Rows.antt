-- ===== src/Render/Rows.antt =====
-- The lines of the samples and of the families of internal/slurm/render.go.
use slurm_insights_exporter.Prelude.{
  ℕ, ◌≡◌, ◌≢◌, List, [], ◌∷◌, ◌++◌, map, Text, Dict, All, All-imp, All-append, All-Perm, Lacks,
  arith, join_map, keys, Bool-cases, inl, inr, text_eq, text_eq_iff, subst,
}
use slurm_insights_exporter.Float.{Float}
use slurm_insights_exporter.Model.{Sample}
use slurm_insights_exporter.Sorting.Unique.{sort_strings-perm}
use mathlib.Core.List.Perm
use slurm_insights_exporter.Strings.{join}
use slurm_insights_exporter.Strings.Parts.{Lacks-prop}
use slurm_insights_exporter.Render.{
  newline, label_parts, render_labels, render_sample, render_group, render_family,
}
use slurm_insights_exporter.Render.Order.{named}
use slurm_insights_exporter.Render.Lines.{
  Splits, Splits-nil, Splits-append, Splits-cons, header_lines, header-Splits,
}

-- The parts of a sample that are written as they are hold no line break.
pub record IsRow {F : Type 0} (s : Sample F) : Type 0 where
  pub name : Lacks newline s.name
  pub kind : Lacks newline s.kind
  pub help : Lacks newline s.help
  pub labels : All (Lacks newline) (keys s.labels)

-- Neither a quoted text nor a printed number holds a line break.
pub record IsPlain (F : Type 0) ⦃fl : Float F⦄ (quote : Text → Text) : Type 0 where
  pub quotes : (t : Text) → Lacks newline (quote t)
  pub formats : (x : F) → Lacks newline (fl.format x)

module _ {F : Type 0} ⦃fl : Float F⦄ (quote : Text → Text) where
  -- The line of a sample.
  abbrev pub sample_line : Text → Sample F → Text
  sample_line name s = name ++ render_labels quote s.labels ++ b' ' ∷ fl.format s.value

  -- A family: its help, its type and its samples; no line without a sample.
  abbrev pub family_lines : Text → List (Sample F) → List Text
  family_lines n [] = []
  family_lines n (s ∷ g) = header_lines n s.help s.kind ++ map (sample_line n) (s ∷ g)

join-Lacks :
    (sep : ℕ) (ps : List Text)
    → sep ≢ newline
    → All (Lacks newline) ps
    → Lacks newline (join sep ps)
unfolding join
join-Lacks sep [] n h = tt
join-Lacks sep (p ∷ []) n h = h.0
join-Lacks sep (p ∷ q ∷ ps) n h =
    All-append (λ c. c ≢ newline) p _ h.0 (n, join-Lacks sep (q ∷ ps) n h.1)

module _ {F : Type 0} ⦃fl : Float F⦄ (quote : Text → Text) (plain : IsPlain F quote) where
  label_parts-Lacks :
      (m : Dict Text) (ks : List Text)
      → All (Lacks newline) ks
      → All (Lacks newline) (label_parts quote m ks)
  unfolding label_parts
  label_parts-Lacks m [] h = tt
  label_parts-Lacks m (k ∷ ks) h = (
    All-append (λ c. c ≢ newline) k _ h.0 (ground arith, plain.quotes _),
    label_parts-Lacks m ks h.1,
  )

  render_labels-Lacks :
      (m : Dict Text) → All (Lacks newline) (keys m) → Lacks newline (render_labels quote m)
  unfolding render_labels
  render_labels-Lacks [] h = tt
  render_labels-Lacks (l ∷ m) h = (
    ground arith,
    All-append (λ c. c ≢ newline) (join b',' _) (b'}' ∷ [])
        (join-Lacks b',' _ (ground arith) (
          label_parts-Lacks (l ∷ m) _ (
            All-Perm (Lacks newline) (λ t. Lacks-prop newline t)
              (Perm.symm (sort_strings-perm (keys (l ∷ m)))) h)))
        (ground arith),
  )

  sample_line-Lacks :
      (n : Text) (s : Sample F) → Lacks newline n → IsRow s → Lacks newline (sample_line quote n s)
  sample_line-Lacks n s h r =
      All-append (λ c. c ≢ newline) (n ++ render_labels quote s.labels) _
        (All-append (λ c. c ≢ newline) n _ h (render_labels-Lacks s.labels r.labels))
        (ground arith, plain.formats s.value)

  group-Splits :
      (n : Text) (g : List (Sample F))
      → Lacks newline n
      → All IsRow g
      → Splits (render_group quote n g) (map (sample_line quote n) g)
  unfolding render_group render_sample
  group-Splits n [] l h = Splits-nil
  group-Splits n (s ∷ g) l h =
      Splits-append (Splits-cons (sample_line-Lacks n s l h.0) Splits-nil) (group-Splits n g l h.1)

  abbrev IsOwn : Text → Sample F → Type 0
  IsOwn n s = IsRow s × (s.name ≡ n)

  family-Splits :
      (n : Text) (g : List (Sample F))
      → All (IsOwn n) g
      → Splits (render_family quote n g) (family_lines quote n g)
  unfolding render_family
  family-Splits n [] h = Splits-nil
  family-Splits n (s ∷ g) h =
      let l = subst (Lacks newline) h.0.1 h.0.0.name in
      Splits-append (header-Splits n s.help s.kind l h.0.0.help h.0.0.kind)
        (group-Splits n (s ∷ g) l (All-imp IsRow (s ∷ g) (λ t o. o.0) h))

  named-IsOwn : (n : Text) (xs : List (Sample F)) → All IsRow xs → All (IsOwn n) (named n xs)
  named-IsOwn n [] h = tt
  named-IsOwn n (s ∷ xs) h = elim (Bool-cases (text_eq s.name n)) [
    | inl e ↦ rw e ((h.0, (text_eq_iff s.name n).0 e), named-IsOwn n xs h.1)
    | inr e ↦ rw e (named-IsOwn n xs h.1)
  ]

  pub families-Splits :
      (xs : List (Sample F)) (ns : List Text)
      → All IsRow xs
      → Splits
          (join_map (λ n. render_family quote n (named n xs)) ns)
          (join_map (λ n. family_lines quote n (named n xs)) ns)
  families-Splits xs [] h = Splits-nil
  families-Splits xs (n ∷ ns) h =
      Splits-append (family-Splits n (named n xs) (named-IsOwn n xs h)) (families-Splits xs ns h)
