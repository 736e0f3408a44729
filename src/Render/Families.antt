-- ===== src/Render/Families.antt =====
-- The families of internal/slurm/render.go.
use slurm_insights_exporter.Prelude.{
  ◌≡◌, refl, sym, ◌∙◌, ap, List, [], ◌∷◌, ◌++◌, Option, none, some, Text, lookup, filter, text_eq,
  append_assoc, append-nil,
}
use slurm_insights_exporter.Model.{Sample}
use slurm_insights_exporter.Collector.Groups.{entry_from, lookup-group}
use slurm_insights_exporter.Render.{families}

-- A family that has a sample.
abbrev pub nonempty {ℓ} : {A : Type ℓ} → List A → Option (List A)
nonempty [] = none
nonempty (x ∷ xs) = some (x ∷ xs)

module _ (F : Type 0) where
  entry_from-some :
      (g xs : List (Sample F))
      → entry_from (λ s. s.name) (λ s g. g ++ s ∷ []) [] (some g) xs ≡ some (g ++ xs)
  entry_from-some g [] = ap some (sym (append-nil g))
  entry_from-some g (x ∷ xs) =
      entry_from-some (g ++ x ∷ []) xs ∙ ap some (append_assoc g (x ∷ []) xs)

  entry_from-none :
      (xs : List (Sample F))
      → entry_from (λ s. s.name) (λ s g. g ++ s ∷ []) [] none xs ≡ nonempty xs
  entry_from-none [] = refl
  entry_from-none (x ∷ xs) = entry_from-some (x ∷ []) xs

  -- The family of a name holds exactly the snapshot's samples with that name, in their order, and a
  -- name that no sample has is no family.
  pub lookup-families :
      (n : Text) (xs : List (Sample F))
      → lookup n (families xs) ≡ nonempty (filter (λ s. text_eq s.name n) xs)
  unfolding families
  lookup-families n xs =
      lookup-group (λ s. s.name) (λ s g. g ++ s ∷ []) [] n xs []
      ∙ unfold lookup in entry_from-none (filter (λ s. text_eq s.name n) xs)
