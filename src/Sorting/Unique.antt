-- ===== src/Sorting/Unique.antt =====
-- Two sorted lists of the same texts are one list: the sorted keys of a map do not depend on the order
-- of Go's iteration over it.
use mathlib.Core.Path.{ap₂}
use mathlib.Core.List.{Mem, Pairwise, Perm, eq-or-mem_of_mem-cons, mem-cons_self}
use mathlib.Core.List.Perm
use mathlib.Core.Logic.Or
use slurm_insights_exporter.Prelude.{
  ◌≡◌, refl, sym, subst, false, List, [], ◌∷◌, Text, text_lt, arith,
}
use slurm_insights_exporter.Sorting.{sort_strings}
use slurm_insights_exporter.Sorting.Insertion.{sort_by-perm, sort_by-InOrder}

text_lt_antisym : (s t : Text) → text_lt s t ≡ false → text_lt t s ≡ false → s ≡ t
unfolding text_lt
text_lt_antisym [] [] h k = refl
text_lt_antisym [] (d ∷ t) h k = ground arith
text_lt_antisym (c ∷ s) [] h k = ground arith
text_lt_antisym (c ∷ s) (d ∷ t) h k = ground (arith, text_lt_antisym s t)

abbrev pub IsInOrder : List Text → Type 0
IsInOrder = Pairwise (λ a b. text_lt b a ≡ false)

heads :
    (x y : Text) (xs ys : List Text)
    → ((b : Text) → Mem b xs → text_lt b x ≡ false)
    → ((b : Text) → Mem b ys → text_lt b y ≡ false)
    → Mem x (y ∷ ys)
    → Mem y (x ∷ xs)
    → x ≡ y
heads x y xs ys hx hy mx my =
    Or.elim (hlevel) (eq-or-mem_of_mem-cons mx) (λ e. e)
      (λ m.
        Or.elim (hlevel) (eq-or-mem_of_mem-cons my) (λ e. sym e)
          (λ n. text_lt_antisym x y (hy x m) (hx y n)))

pub sorted_unique : (xs ys : List Text) → IsInOrder xs → IsInOrder ys → Perm xs ys → xs ≡ ys
sorted_unique [] ys hx hy p = sym (Perm.eq-nil (Perm.symm p))
sorted_unique (x ∷ xs) [] hx hy p = Perm.eq-nil p
sorted_unique (x ∷ xs) (y ∷ ys) (Pairwise.cons above hx) (Pairwise.cons above' hy) p =
    let here =
      heads x y xs ys above above' (Perm.subset p x mem-cons_self)
        (Perm.subset (Perm.symm p) y mem-cons_self) in
    ap₂ (λ h t. h ∷ t) here
      (sorted_unique xs ys hx hy (Perm.cons_inv (subst (λ h. Perm (x ∷ xs) (h ∷ ys)) (sym here) p)))

pub sort_strings-perm : (xs : List Text) → Perm (sort_strings xs) xs
unfolding sort_strings
sort_strings-perm = sort_by-perm (λ s. s)

pub sort_strings-Perm : (xs ys : List Text) → Perm xs ys → sort_strings xs ≡ sort_strings ys
unfolding sort_strings
sort_strings-Perm xs ys p =
    sorted_unique _ _ (sort_by-InOrder (λ s. s) xs) (sort_by-InOrder (λ s. s) ys)
      (Perm.trans (sort_by-perm (λ s. s) xs) (Perm.trans p (Perm.symm (sort_by-perm (λ s. s) ys))))
