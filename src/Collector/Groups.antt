-- ===== src/Collector/Groups.antt =====
-- A map of aggregates as the loops of `queue` and `accounting` fill it: the aggregate of a key starts
-- from the zero value and takes in each of the key's rows in their order.
use slurm_insights_exporter.Prelude.{
  ◌≡◌, refl, ◌∙◌, Bool, Bool-cases, inl, inr, List, [], ◌∷◌, Option, none, some, Text, Dict, lookup,
  insert, lookup-insert, text_eq, text_eq_iff, filter,
}

abbrev pub or_zero {ℓ} : {V : Type ℓ} → V → Option V → V
or_zero z none = z
or_zero z (some v) = v

module _ {R V : Type 0} (key : R → Text) (step : R → V → V) (zero_value : V) where
  -- `if m[k] == nil { m[k] = &agg{} }`, then the changes to `*m[k]`.
  unfoldable pub add_row : Dict V → R → Dict V
  add_row m r = insert (key r) (step r (or_zero zero_value (lookup (key r) m))) m

  unfoldable pub group : List R → Dict V → Dict V
  group [] m = m
  group (r ∷ rs) m = group rs (add_row m r)

  abbrev pub has_key : Text → R → Bool
  has_key k r = text_eq (key r) k

  abbrev pub take_in : V → R → V
  take_in v r = step r v

  -- What the rows of a key make of the key's entry.
  abbrev pub entry_from : Option V → List R → Option V
  entry_from o [] = o
  entry_from o (r ∷ rs) = entry_from (some (step r (or_zero zero_value o))) rs

  pub lookup-group :
      (k : Text) (rs : List R) (m : Dict V)
      → lookup k (group rs m) ≡ entry_from (lookup k m) (filter (has_key k) rs)
  unfolding group add_row
  lookup-group k [] m = refl
  lookup-group k (r ∷ rs) m =
      let v = step r (or_zero zero_value (lookup (key r) m)) in
      let found = lookup-insert (key r) k v m in
      elim (Bool-cases (text_eq (key r) k)) [
        | inl same ↦
            let here : key r ≡ k = (text_eq_iff (key r) k).0 same in
            lookup-group k rs (add_row m r) ∙ rw (found, same) (rw here refl)
        | inr other ↦ lookup-group k rs (add_row m r) ∙ rw (found, other) refl
      ]
