-- ===== src/Collector/Tres/Unions.antt =====
-- The keys of a node's two maps of resources in the collector `tresProfiles`, each once.
use mathlib.Core.List.{
  Mem, Nodup, not-mem-nil, eq-or-mem_of_mem-cons, mem-cons_self, mem-cons_of_mem, Mem-prop,
  Nodup-cons,
}
use mathlib.Core.HLevel.{⊥_prop}
use mathlib.Core.Logic.{◌∨₁◌}
use mathlib.Core.Logic.Or
use slurm_insights_exporter.Prelude.{
  ◌≢◌, sym, subst, ◌∙◌, Bool-cases, inl, inr, List, [], ◌∷◌, Text, text_eq, text_eq_iff, arith,
}
use slurm_insights_exporter.Collector.Tres.{without, union_keys}

without-mem : (k : Text) (js : List Text) (j : Text) → Mem j (without k js) → Mem j js
unfolding without
without-mem k [] j h = h
without-mem k (i ∷ js) j h = elim (Bool-cases (text_eq i k)) [
  | inl same ↦ mem-cons_of_mem i (without-mem k js j (rw same at h))
  | inr other ↦
      Or.elim Mem-prop (eq-or-mem_of_mem-cons (rw other at h))
        (λ here. subst (λ t. Mem t (i ∷ js)) (sym here) mem-cons_self)
        (λ t. mem-cons_of_mem i (without-mem k js j t))
]

not-mem-without : (k : Text) (js : List Text) → ¬ Mem k (without k js)
unfolding without
not-mem-without k [] h = not-mem-nil h
not-mem-without k (i ∷ js) h = elim (Bool-cases (text_eq i k)) [
  | inl same ↦ not-mem-without k js (rw same at h)
  | inr other ↦
      Or.elim ⊥_prop (eq-or-mem_of_mem-cons (rw other at h))
        (λ here. ground (arith, other, (text_eq_iff i k).1 (sym here)))
        (λ t. not-mem-without k js t)
]

mem-without : (k : Text) (js : List Text) (j : Text) → j ≢ k → Mem j js → Mem j (without k js)
unfolding without
mem-without k [] j n h = h
mem-without k (i ∷ js) j n h = elim (Bool-cases (text_eq i k)) [
  | inl same ↦ rw same (
      Or.elim Mem-prop (eq-or-mem_of_mem-cons h)
        (λ here. absurd (n (here ∙ (text_eq_iff i k).0 same))) (λ t. mem-without k js j n t))
  | inr other ↦ rw other (
      Or.elim Mem-prop (eq-or-mem_of_mem-cons h)
        (λ here. subst (λ t. Mem t (i ∷ without k js)) (sym here) mem-cons_self)
        (λ t. mem-cons_of_mem i (mem-without k js j n t)))
]

without-Nodup : (k : Text) (js : List Text) → Nodup js → Nodup (without k js)
unfolding without
without-Nodup k [] h = h
without-Nodup k (i ∷ js) h =
    let (new, rest) = Nodup-cons.0 h in
    elim (Bool-cases (text_eq i k)) [
      | inl same ↦ rw same (without-Nodup k js rest)
      | inr other ↦
          rw other (Nodup-cons.1 ((λ t. new (without-mem k js i t)), without-Nodup k js rest))
    ]

-- A key of the union is one of the first list or of the second.
pub union_keys-mem : (a b : List Text) (j : Text) → Mem j (union_keys a b) → Mem j a ∨₁ Mem j b
unfolding union_keys
union_keys-mem [] b j h = Or.inr h
union_keys-mem (k ∷ a) b j h =
    Or.elim (hlevel) (eq-or-mem_of_mem-cons h)
      (λ here. Or.inl (subst (λ t. Mem t (k ∷ a)) (sym here) mem-cons_self))
      (λ t.
        Or.elim (hlevel) (union_keys-mem a (without k b) j t) (λ l. Or.inl (mem-cons_of_mem k l))
          (λ r. Or.inr (without-mem k b j r)))

pub mem-union_keys_left : (a b : List Text) (j : Text) → Mem j a → Mem j (union_keys a b)
unfolding union_keys
mem-union_keys_left [] b j h = absurd (not-mem-nil h)
mem-union_keys_left (k ∷ a) b j h =
    Or.elim Mem-prop (eq-or-mem_of_mem-cons h)
      (λ here. subst (λ t. Mem t (k ∷ union_keys a (without k b))) (sym here) mem-cons_self)
      (λ t. mem-cons_of_mem k (mem-union_keys_left a (without k b) j t))

pub mem-union_keys_right : (a b : List Text) (j : Text) → Mem j b → Mem j (union_keys a b)
unfolding union_keys
mem-union_keys_right [] b j h = h
mem-union_keys_right (k ∷ a) b j h = elim (Bool-cases (text_eq j k)) [
  | inl same ↦
      subst (λ t. Mem t (k ∷ union_keys a (without k b))) (sym ((text_eq_iff j k).0 same))
        mem-cons_self
  | inr other ↦ mem-cons_of_mem k (
      mem-union_keys_right a (without k b) j
        (mem-without k b j (λ e. ground (arith, other, (text_eq_iff j k).1 e)) h))
]

pub union_keys-Nodup : (a b : List Text) → Nodup a → Nodup b → Nodup (union_keys a b)
unfolding union_keys
union_keys-Nodup [] b ha hb = hb
union_keys-Nodup (k ∷ a) b ha hb =
    let (new, rest) = Nodup-cons.0 ha in
    Nodup-cons.1 (
      (λ t. Or.elim ⊥_prop (union_keys-mem a (without k b) k t) new (not-mem-without k b)),
      union_keys-Nodup a (without k b) rest (without-Nodup k b hb),
    )
