-- ===== src/Sorting.antt =====
-- `sort.Strings`, and the contract of `sort.Slice` with a comparison of a text key: some
-- permutation in which no element is below one that stands before it.
pub mod Insertion
pub mod Unique
use mathlib.Core.List.{Perm, Pairwise}
use slurm_insights_exporter.Prelude.{◌≡◌, Bool, false, List, [], ◌∷◌, Text, text_lt, if◌then◌else◌}

pub record SliceSort {A : Type 0} (key : A → Text) : Type 0 where
  pub sort : List A → List A
  pub sort-perm : (xs : List A) → Perm (sort xs) xs
  pub sort-IsSorted : (xs : List A) → Pairwise (λ a b. text_lt (key b) (key a) ≡ false) (sort xs)

unfoldable pub insert_by : {A : Type 0} → (A → Text) → A → List A → List A
insert_by key x [] = x ∷ []
insert_by key x (y ∷ ys) =
    let later = y ∷ insert_by key x ys in if text_lt (key y) (key x) then later else x ∷ y ∷ ys

unfoldable pub sort_by : {A : Type 0} → (A → Text) → List A → List A
unfolding insert_by
sort_by key [] = []
sort_by key (x ∷ xs) = insert_by key x (sort_by key xs)

-- `sort.Strings`.
unfoldable pub sort_strings : List Text → List Text
unfolding sort_by
sort_strings = sort_by (λ s. s)
