-- ===== src/Sorting/Insertion.antt =====
-- The insertion sort as an instance of the contract of `sort.Slice`.
use mathlib.Core.List.{Perm, Pairwise, Mem, not-mem-nil, eq-or-mem_of_mem-cons}
use mathlib.Core.List.Perm
use mathlib.Core.Logic.Or
use slurm_insights_exporter.Prelude.{
  ◌≡◌, refl, ◌∙◌, ap, true, false, Bool-cases, inl, inr, List, [], ◌∷◌, Text, text_lt, arith,
}
use slurm_insights_exporter.Sorting.{SliceSort, insert_by, sort_by}

text_lt_asym : (s t : Text) → text_lt s t ≡ true → text_lt t s ≡ false
unfolding text_lt
text_lt_asym [] [] h = ground arith
text_lt_asym [] (d ∷ t) h = refl
text_lt_asym (c ∷ s) [] h = ground arith
text_lt_asym (c ∷ s) (d ∷ t) h = ground (arith, text_lt_asym s t)

-- No text is below a text that is not below a third one, if it is not below the first.
text_lt_le_trans : (r s t : Text) → text_lt r s ≡ false → text_lt s t ≡ false → text_lt r t ≡ false
unfolding text_lt
text_lt_le_trans [] [] t h k = k
text_lt_le_trans [] (d ∷ s) t h k = ground arith
text_lt_le_trans (c ∷ r) [] [] h k = refl
text_lt_le_trans (c ∷ r) [] (e ∷ t) h k = ground arith
text_lt_le_trans (c ∷ r) (d ∷ s) [] h k = refl
text_lt_le_trans (c ∷ r) (d ∷ s) (e ∷ t) h k = ground (arith, text_lt_le_trans r s t)

module _ {A : Type 0} (key : A → Text) where
  abbrev pub InOrder : List A → Type 0
  InOrder = Pairwise (λ a b. text_lt (key b) (key a) ≡ false)

  -- What no element of `x ∷ ys` is below, if neither `x` nor an element of `ys` is.
  above_cons :
      (bound : Text) (x : A) (ys : List A) (a : A)
      → text_lt (key x) bound ≡ false
      → ((b : A) → Mem b ys → text_lt (key b) bound ≡ false)
      → Mem a (x ∷ ys)
      → text_lt (key a) bound ≡ false
  above_cons bound x ys a head tail m =
      Or.elim (hlevel) (eq-or-mem_of_mem-cons m) (λ e. ap (λ z. text_lt (key z) bound) e ∙ head)
        (λ t. tail a t)

  insert_by-perm : (x : A) (ys : List A) → Perm (insert_by key x ys) (x ∷ ys)
  unfolding insert_by
  insert_by-perm x [] = Perm.refl (x ∷ [])
  insert_by-perm x (y ∷ ys) = elim (Bool-cases (text_lt (key y) (key x))) [
    | inl low ↦ rw low (Perm.trans (Perm.cons y (insert_by-perm x ys)) (Perm.swap x y ys))
    | inr high ↦ rw high (Perm.refl (x ∷ y ∷ ys))
  ]

  insert_by-InOrder : (x : A) (ys : List A) → InOrder ys → InOrder (insert_by key x ys)
  unfolding insert_by
  insert_by-InOrder x [] h = Pairwise.cons (λ a m. absurd (not-mem-nil m)) Pairwise.nil
  insert_by-InOrder x (y ∷ ys) (Pairwise.cons above h) =
      elim (Bool-cases (text_lt (key y) (key x))) [
        | inl low ↦ rw low (
            Pairwise.cons
              (λ a m.
                above_cons (key y) x ys a (text_lt_asym (key y) (key x) low) above
                  (Perm.subset (insert_by-perm x ys) a m))
              (insert_by-InOrder x ys h))
        | inr high ↦ rw high (
            Pairwise.cons
              (λ a m.
                above_cons (key x) y ys a high
                  (λ b n. text_lt_le_trans (key b) (key y) (key x) (above b n) high) m)
              (Pairwise.cons above h))
      ]

  pub sort_by-perm : (xs : List A) → Perm (sort_by key xs) xs
  unfolding sort_by
  sort_by-perm [] = Perm.nil
  sort_by-perm (x ∷ xs) =
      Perm.trans (insert_by-perm x (sort_by key xs)) (Perm.cons x (sort_by-perm xs))

  pub sort_by-InOrder : (xs : List A) → InOrder (sort_by key xs)
  unfolding sort_by
  sort_by-InOrder [] = Pairwise.nil
  sort_by-InOrder (x ∷ xs) = insert_by-InOrder x (sort_by key xs) (sort_by-InOrder xs)

  abbrev pub insertion_sort : SliceSort key
  insertion_sort = record {
    sort = sort_by key;
    sort-perm = sort_by-perm;
    sort-IsSorted = sort_by-InOrder;
  }
