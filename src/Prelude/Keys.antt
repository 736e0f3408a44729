-- ===== src/Prelude/Keys.antt =====
-- The keys of dictionaries: each stands once, and they are what can be looked up.
use mathlib.Core.Path.{◌≡◌, refl, sym, subst}
use mathlib.Core.Logic.{inl, inr}
use mathlib.Core.Logic.Or
use mathlib.Core.HLevel.{⊥_prop}
use mathlib.Core.Option.{none, some}
use mathlib.Core.List.{
  List, [], ◌∷◌, ◌++◌, Mem, Nodup, not-mem-nil, eq-or-mem_of_mem-cons, mem-cons_self,
  mem-cons_of_mem, Nodup-cons,
}
use mathlib.Core.List.Perm
use native.Mathlib.Omega.{arith}
use slurm_insights_exporter.Prelude.Booleans.{if◌then◌else◌, Bool-cases, Option-cases, is_some}
use slurm_insights_exporter.Prelude.Texts.{Text, text_eq, text_eq_iff}
use slurm_insights_exporter.Prelude.Dicts.{Dict, lookup, insert}
use slurm_insights_exporter.Prelude.Perms.{append-Perm_comm}

abbrev pub keys {ℓ} : {V : Type ℓ} → Dict V → List Text
keys [] = []
keys ((k, v) ∷ m) = k ∷ keys m

module _ {ℓ} {V : Type ℓ} where
  pub keys-insert :
      (k : Text) (v : V) (m : Dict V)
      → keys (insert k v m) ≡ (if is_some (lookup k m) then keys m else keys m ++ k ∷ [])
  unfolding insert lookup
  keys-insert k v [] = refl
  keys-insert k v ((j, w) ∷ m) = ground (arith, keys-insert k v m, text_eq_iff j k)

  pub absent-keys : (k : Text) (m : Dict V) → lookup k m ≡ none → ¬ Mem k (keys m)
  unfolding lookup
  absent-keys k [] e h = not-mem-nil h
  absent-keys k ((j, w) ∷ m) e h = elim (Bool-cases (text_eq j k)) [
    | inl same ↦ ground (arith, e, same)
    | inr other ↦
        Or.elim ⊥_prop (eq-or-mem_of_mem-cons h)
          (λ here. ground (arith, other, (text_eq_iff j k).1 (sym here)))
          (λ t. absent-keys k m (ground (arith, e, other)) t)
  ]

  pub present-keys : (k : Text) (v : V) (m : Dict V) → lookup k m ≡ some v → Mem k (keys m)
  unfolding lookup
  present-keys k v [] e = absurd (ground (arith, e))
  present-keys k v ((j, w) ∷ m) e = elim (Bool-cases (text_eq j k)) [
    | inl same ↦ subst (λ t. Mem k (t ∷ keys m)) (sym ((text_eq_iff j k).0 same)) mem-cons_self
    | inr other ↦ mem-cons_of_mem j (present-keys k v m (ground (arith, e, other)))
  ]

  pub insert-Nodup : (k : Text) (v : V) (m : Dict V) → Nodup (keys m) → Nodup (keys (insert k v m))
  insert-Nodup k v m h = elim (Option-cases (lookup k m)) [
    | inl e ↦
        rw (keys-insert k v m, e)
          (Perm.nodup (append-Perm_comm (k ∷ []) (keys m)) (Nodup-cons.1 (absent-keys k m e, h)))
    | inr (w, e) ↦ rw (keys-insert k v m, e) h
  ]
