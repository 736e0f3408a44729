-- ===== src/Prelude/Perms.antt =====
-- Permutations of joined lists.
use mathlib.Core.Path.{◌≡◌, subst, sym}
use mathlib.Core.Logic.{∥∥₁_elim, ∥∥₁_prop}
use mathlib.Core.List.{
  List, [], ◌∷◌, ◌++◌, append_assoc, Perm, Mem, not-mem-nil, eq-or-mem_of_mem-cons,
}
use mathlib.Core.List.Perm
use mathlib.Core.List.{Permᴰ}
use mathlib.Core.List.Permᴰ
use mathlib.Core.Logic.Or
use slurm_insights_exporter.Prelude.Lists.{All, All-of_mem}

-- The parts that a loop over lists joins, in their order.
abbrev pub join_map {ℓ κ} : {A : Type ℓ} {B : Type κ} → (A → List B) → List A → List B
join_map f [] = []
join_map f (x ∷ xs) = f x ++ join_map f xs

module _ {ℓ} {A : Type ℓ} where
  pub append-Perm_comm : (xs ys : List A) → Perm (xs ++ ys) (ys ++ xs)
  append-Perm_comm xs ys = ∣ Permᴰ.append_comm xs ys ∣₁

  -- Two lists before a third change places.
  pub append-Perm_left : (xs ys zs : List A) → Perm (xs ++ (ys ++ zs)) (ys ++ (xs ++ zs))
  append-Perm_left xs ys zs =
      subst (λ l. Perm l (ys ++ (xs ++ zs))) (append_assoc xs ys zs)
        (subst (λ l. Perm ((xs ++ ys) ++ zs) l) (append_assoc ys xs zs)
          (Perm.append_right zs (append-Perm_comm xs ys)))

  pub nil_of_Perm : (xs ys : List A) → Perm xs ys → xs ≡ [] → ys ≡ []
  nil_of_Perm xs ys p e = Perm.eq-nil (Perm.symm (subst (λ l. Perm l ys) e p))

module _ {ℓ κ} {A : Type ℓ} {B : Type κ} (f : A → List B) where
  join_map-Permᴰ : {xs ys : List A} → Permᴰ xs ys → Perm (join_map f xs) (join_map f ys)
  join_map-Permᴰ Permᴰ.nil = Perm.nil
  join_map-Permᴰ (Permᴰ.cons {a = a} {b = b} {l₁ = xs} {l₂ = ys} e d) =
      subst (λ c. Perm (f a ++ join_map f xs) (f c ++ join_map f ys)) e
        (Perm.append_left (f a) (join_map-Permᴰ d))
  join_map-Permᴰ (Permᴰ.swap {a = a} {b = b} {a' = c} {b' = d} {l = l} p q) =
      subst (λ x. Perm (f a ++ (f b ++ join_map f l)) (f c ++ (f x ++ join_map f l))) p
        (subst (λ x. Perm (f a ++ (f b ++ join_map f l)) (f x ++ (f a ++ join_map f l))) q
          (append-Perm_left (f a) (f b) (join_map f l)))
  join_map-Permᴰ (Permᴰ.trans d e) = Perm.trans (join_map-Permᴰ d) (join_map-Permᴰ e)

  pub join_map-Perm : {xs ys : List A} → Perm xs ys → Perm (join_map f xs) (join_map f ys)
  join_map-Perm p = ∥∥₁_elim p ∥∥₁_prop join_map-Permᴰ

module _ {ℓ κ} {A : Type ℓ} (P : A → Type κ) (prop : (a : A) → IsProp (P a)) where
  pub All-mem : (xs : List A) → All P xs → (a : A) → Mem a xs → P a
  All-mem [] h a m = absurd (not-mem-nil m)
  All-mem (x ∷ xs) h a m =
      Or.elim (prop a) (eq-or-mem_of_mem-cons m) (λ e. subst P (sym e) h.0)
        (λ t. All-mem xs h.1 a t)

  pub All-Perm : {xs ys : List A} → Perm xs ys → All P xs → All P ys
  All-Perm {xs} {ys} p h = All-of_mem ys (λ a m. All-mem xs h a ((Perm.mem_iff p).1 m))
