-- ===== src/Render/Order.antt =====
-- The order and the contents of the families in the text of internal/slurm/render.go.
use mathlib.Core.List.{
  Mem, Nodup, Pairwise, not-mem-nil, eq-or-mem_of_mem-cons, mem-cons_self, mem-cons_of_mem,
}
use mathlib.Core.List.Perm
use mathlib.Core.HLevel.{⊥_prop}
use mathlib.Core.Logic.Or
use slurm_insights_exporter.Prelude.{
  ◌≡◌, ◌↔◌, refl, sym, ◌∙◌, subst, Bool-cases, Option-cases, inl, inr, false, List, [], ◌∷◌, map,
  none, some, Text, Dict, lookup, filter, text_eq, text_eq_iff, text_lt, join_map, keys,
  absent-keys, present-keys, insert-Nodup, arith,
}
use slurm_insights_exporter.Float.{Float}
use slurm_insights_exporter.Model.{Sample}
use slurm_insights_exporter.Sorting.{sort_strings}
use slurm_insights_exporter.Sorting.Insertion.{insertion_sort}
use slurm_insights_exporter.Collector.Groups.{group, add_row, or_zero}
use slurm_insights_exporter.Render.{families, render_family, render_families}
use slurm_insights_exporter.Render.Families.{nonempty, lookup-families}

module _ {V : Type 0} where
  group-Nodup :
      {R : Type 0} (key : R → Text) (step : R → V → V) (zero_value : V) (rs : List R) (m : Dict V)
      → Nodup (keys m)
      → Nodup (keys (group key step zero_value rs m))
  unfolding group add_row
  group-Nodup key step zero_value [] m h = h
  group-Nodup key step zero_value (r ∷ rs) m h =
      group-Nodup key step zero_value rs _ (insert-Nodup (key r) _ m h)

module _ {F : Type 0} where
  abbrev pub named : Text → List (Sample F) → List (Sample F)
  named n = filter (λ s. text_eq s.name n)

  abbrev pub sample_names : List (Sample F) → List Text
  sample_names = map (λ s. s.name)

  named-mem :
      (n : Text) (xs g : List (Sample F)) → nonempty (named n xs) ≡ some g → Mem n (sample_names xs)
  named-mem n [] g e = absurd (ground (arith, e))
  named-mem n (s ∷ xs) g e = elim (Bool-cases (text_eq s.name n)) [
    | inl same ↦
        subst (λ t. Mem n (t ∷ sample_names xs)) (sym ((text_eq_iff s.name n).0 same)) mem-cons_self
    | inr other ↦ mem-cons_of_mem s.name (named-mem n xs g (rw other at e))
  ]

  named-absent :
      (n : Text) (xs : List (Sample F)) → nonempty (named n xs) ≡ none → ¬ Mem n (sample_names xs)
  named-absent n [] e h = not-mem-nil h
  named-absent n (s ∷ xs) e h = elim (Bool-cases (text_eq s.name n)) [
    | inl same ↦ absurd (ground (arith, rw same at e))
    | inr other ↦
        Or.elim ⊥_prop (eq-or-mem_of_mem-cons h)
          (λ here. ground (arith, other, (text_eq_iff s.name n).1 (sym here)))
          (λ t. named-absent n xs (rw other at e) t)
  ]

  families-keys :
      (n : Text) (xs : List (Sample F)) → Mem n (keys (families xs)) ↔ Mem n (sample_names xs)
  families-keys n xs = elim (Option-cases (lookup n (families xs))) [
    | inl e ↦ (
      (λ h. absurd (absent-keys n (families xs) e h)),
      (λ h. absurd (named-absent n xs (sym (lookup-families F n xs) ∙ e) h)),
    )
    | inr (g, e) ↦ (
      (λ h. named-mem n xs g (sym (lookup-families F n xs) ∙ e)),
      (λ h. present-keys n g (families xs) e),
    )
  ]

  families-Nodup : (xs : List (Sample F)) → Nodup (keys (families xs))
  unfolding families
  families-Nodup xs = group-Nodup _ _ [] xs [] (Pairwise.nil)

  or_zero-nonempty : (g : List (Sample F)) → or_zero [] (nonempty g) ≡ g
  or_zero-nonempty [] = refl
  or_zero-nonempty (s ∷ g) = refl

module _ {F : Type 0} ⦃fl : Float F⦄ (quote : Text → Text) (xs : List (Sample F)) where
  family_by_family :
      (ns : List Text)
      → render_families quote (families xs) ns
        ≡ join_map (λ n. render_family quote n (named n xs)) ns
  unfolding render_families
  family_by_family [] = refl
  family_by_family (n ∷ ns) =
      rw (lookup-families F n xs, or_zero-nonempty (named n xs), family_by_family ns) refl

  -- The text of the families is that of one family after the other, in the order of their names and
  -- each name once, with all samples of the name together in their order; and the names are those
  -- of the samples.
  pub render_families-order :
      let ns = sort_strings (keys (families xs)) in
      (render_families quote (families xs) ns
        ≡ join_map (λ n. render_family quote n (named n xs)) ns)
      × Pairwise (λ a b. text_lt b a ≡ false) ns
      × Nodup ns
      × ((n : Text) → Mem n ns ↔ Mem n (sample_names xs))
  unfolding sort_strings
  render_families-order =
      let sorted = (insertion_sort (λ (t : Text). t)).sort-perm (keys (families xs)) in
      (
        family_by_family _,
        (insertion_sort (λ (t : Text). t)).sort-IsSorted (keys (families xs)),
        Perm.nodup (Perm.symm sorted) (families-Nodup xs),
        (λ n. (
          (λ h. (families-keys n xs).0 ((Perm.mem_iff sorted).0 h)),
          (λ h. (Perm.mem_iff sorted).1 ((families-keys n xs).1 h)),
        )),
      )
