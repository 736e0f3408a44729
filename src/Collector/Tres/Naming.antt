-- ===== src/Collector/Tres/Naming.antt =====
-- Which nodes share a hardware profile in the collector `tresProfiles` of internal/slurm/collector.go.
use mathlib.Core.Option
use mathlib.Core.List.{Mem, not-mem-nil, eq-or-mem_of_mem-cons}
use mathlib.Core.List.Perm
use mathlib.Core.Logic.Or
use slurm_insights_exporter.Prelude.{
  ◌≡◌, ◌↔◌, sym, subst, Bool-cases, Option-cases, inl, inr, List, [], ◌∷◌, Text, Dict, lookup,
  insert, text_eq, keys, keys-insert, append-Perm_comm, All, Lacks,
}
use slurm_insights_exporter.Float.{Float}
use slurm_insights_exporter.Strings.{split, cut}
use slurm_insights_exporter.Strings.Parts.{Lacks-prop, split-Lacks, cut-Lacks}
use slurm_insights_exporter.Collector.KeyValues.{
  put_pair, put_pairs, tres_values, tres_numeric, normalized_tres,
}
use slurm_insights_exporter.Collector.KeyValues.Normal.{IsKey, normalized_tres_lem}
use slurm_insights_exporter.Collector.Tres.Cluster.{tres_numeric-Nodup, keys-numeric_values}

IsKey-prop : (k : Text) → IsProp (IsKey k)
IsKey-prop k = hlevel (Lacks-prop b'=' k, Lacks-prop b',' k)

AreKeys : Dict Text → Type 0
AreKeys m = (k : Text) → Mem k (keys m) → IsKey k

insert-AreKeys : (j v : Text) (m : Dict Text) → IsKey j → AreKeys m → AreKeys (insert j v m)
unfolding AreKeys
insert-AreKeys j v m new h k t = elim (Option-cases (lookup j m)) [
  | inr (w, e) ↦ h k (rw (keys-insert j v m, e) at t)
  | inl e ↦
      Or.elim (IsKey-prop k)
        (eq-or-mem_of_mem-cons
          (Perm.subset (append-Perm_comm (keys m) (j ∷ [])) k (rw (keys-insert j v m, e) at t)))
        (λ here. subst IsKey (sym here) new) (h k)
]

put_pairs-AreKeys :
    (fs : List Text) (m : Dict Text) → All (Lacks b',') fs → AreKeys m → AreKeys (put_pairs fs m)
unfolding put_pairs put_pair
put_pairs-AreKeys [] m l h = h
put_pairs-AreKeys (f ∷ fs) m l h = elim (Option-cases (cut b'=' f)) [
  | inl e ↦ rw e (put_pairs-AreKeys fs m l.1 h)
  | inr ((k, v), e) ↦ elim (Bool-cases (text_eq k [])) [
    | inl nothing ↦ rw (e, nothing) (put_pairs-AreKeys fs m l.1 h)
    | inr key ↦
        rw (e, key)
          (put_pairs-AreKeys fs (insert k v m) l.1
            (insert-AreKeys k v m (cut-Lacks b'=' b',' f k v e l.0) h))
  ]
]

module _ (F : Type 0) ⦃fl : Float F⦄ where
  tres_numeric-AreKeys : (s k : Text) → Mem k (keys (tres_numeric {F = F} s)) → IsKey k
  unfolding tres_numeric tres_values AreKeys
  tres_numeric-AreKeys s k t =
      put_pairs-AreKeys (split b',' s) [] (split-Lacks b',' s) (λ j n. absurd (not-mem-nil n)) k
        (rw (keys-numeric_values F (tres_values s)) at t)

  -- Two lists of configured resources give one normalized text, of which the profile's name is the digest,
  -- exactly if they name the same resources with amounts that are printed the same, in whatever order the
  -- lists are written, if no printed number has a comma.
  pub normalized_tres_iff :
      ((x : F) → Lacks b',' (fl.format x))
      → (s t : Text)
      → (normalized_tres (tres_numeric {F = F} s) ≡ normalized_tres (tres_numeric {F = F} t)) ↔ (
          (resource : Text)
          → Option.map fl.format (lookup resource (tres_numeric s))
            ≡ Option.map fl.format (lookup resource (tres_numeric t)))
  normalized_tres_iff printable s t =
      normalized_tres_lem printable (tres_numeric s) (tres_numeric t) (tres_numeric-Nodup F s)
        (tres_numeric-Nodup F t) (tres_numeric-AreKeys s) (tres_numeric-AreKeys t)
