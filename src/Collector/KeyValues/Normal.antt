-- ===== src/Collector/KeyValues/Normal.antt =====
-- `normalizedTRES` of internal/slurm/collector.go: the text of a map of resources, which names a profile.
use mathlib.Core.List.{
  Mem, Nodup, perm_ext_iff_of_Nodup, not-mem-nil, eq-or-mem_of_mem-cons, mem-cons_self,
  mem-cons_of_mem,
}
use mathlib.Core.List.Perm
use mathlib.Core.Logic.Or
use mathlib.Core.Option
use slurm_insights_exporter.Prelude.{
  ◌≡◌, ◌≢◌, ◌↔◌, refl, sym, ◌∙◌, ap, subst, Bool-cases, Option-cases, inl, inr, List, [], ◌∷◌, map,
  Option, none, some, Text, Dict, lookup, text_eq, text_eq_iff, keys, absent-keys, present-keys,
  All, All-append, All-of_mem, Lacks, arith,
}
use slurm_insights_exporter.Float.{Float, num}
use slurm_insights_exporter.Strings.{join, split, cut}
use slurm_insights_exporter.Strings.Parts.{split-join, cut-append}
use slurm_insights_exporter.Sorting.{sort_strings}
use slurm_insights_exporter.Sorting.Unique.{sort_strings-Perm, sort_strings-perm}
use slurm_insights_exporter.Collector.Groups.{or_zero}
use slurm_insights_exporter.Collector.KeyValues.{normalized_tres, printed_parts}
use slurm_insights_exporter.Collector.KeyValues.Pairs.{print_pair}

-- A text that neither ends a key nor a pair.
abbrev pub IsKey : Text → Type 0
IsKey k = Lacks b'=' k × Lacks b',' k

abbrev NonEmpty : Text → Type 0
NonEmpty p = p ≢ []

join-inj :
    (ps qs : List Text)
    → All (Lacks b',') ps
    → All (Lacks b',') qs
    → All NonEmpty ps
    → All NonEmpty qs
    → join b',' ps ≡ join b',' qs
    → ps ≡ qs
join-inj [] [] hp hq np nq e = refl
join-inj [] (q ∷ qs) hp hq np nq e =
    let parts : [] ∷ [] ≡ q ∷ qs =
      unfold split join in ap (split b',') e ∙ split-join b',' (q ∷ qs) (λ h. cc) hq in
    absurd (nq.0 (ground (arith, parts)))
join-inj (p ∷ ps) [] hp hq np nq e =
    let parts : p ∷ ps ≡ [] ∷ [] =
      unfold split join in sym (split-join b',' (p ∷ ps) (λ h. cc) hp) ∙ ap (split b',') e in
    absurd (np.0 (ground (arith, parts)))
join-inj (p ∷ ps) (q ∷ qs) hp hq np nq e =
    sym (split-join b',' (p ∷ ps) (λ h. cc) hp)
    ∙ ap (split b',') e
    ∙ split-join b',' (q ∷ qs) (λ h. cc) hq

nonempty_pair : (k v : Text) → print_pair (k, v) ≢ []
nonempty_pair [] v e = cc
nonempty_pair (c ∷ k) v e = cc

read_pair : Text → Text × Text
read_pair p = or_zero ([], []) (cut b'=' p)

read_pairs :
    (es : List (Text × Text))
    → All (λ e. Lacks b'=' e.0) es
    → map read_pair (map print_pair es) ≡ es
unfolding read_pair
read_pairs [] h = refl
read_pairs ((k, v) ∷ es) h = rw (cut-append b'=' k v h.0) (ap (◌∷◌ (k, v)) (read_pairs es h.1))

not_mapped : {v : Text} → some v ≡ none → ⊥
not_mapped e = ground (arith, e)

module _ {F : Type 0} ⦃fl : Float F⦄ where
  -- What is printed for a key.
  abbrev printed : Dict F → Text → Text
  printed m k = fl.format (or_zero (num 0) (lookup k m))

  abbrev pairs : Dict F → List Text → List (Text × Text)
  pairs m = map (λ k. (k, printed m k))

  printed_parts-pairs :
      (m : Dict F) (ks : List Text) → printed_parts m ks ≡ map print_pair (pairs m ks)
  printed_parts-pairs m [] = refl
  printed_parts-pairs m (k ∷ ks) = ap (◌∷◌ (print_pair (k, printed m k))) (printed_parts-pairs m ks)

  pairs-absent :
      (m : Dict F) (ks : List Text) (k : Text) → ¬ Mem k ks → lookup k (pairs m ks) ≡ none
  unfolding lookup
  pairs-absent m [] k n = refl
  pairs-absent m (j ∷ ks) k n = elim (Bool-cases (text_eq j k)) [
    | inl e ↦ absurd (n (subst (λ t. Mem t (j ∷ ks)) ((text_eq_iff j k).0 e) mem-cons_self))
    | inr e ↦ rw e (pairs-absent m ks k (λ t. n (mem-cons_of_mem j t)))
  ]

  pairs-present :
      (m : Dict F) (ks : List Text) (k : Text)
      → Mem k ks
      → lookup k (pairs m ks) ≡ some (printed m k)
  unfolding lookup
  pairs-present m [] k h = absurd (not-mem-nil h)
  pairs-present m (j ∷ ks) k h = elim (Bool-cases (text_eq j k)) [
    | inl e ↦ rw e (ap (λ t. some (printed m t)) ((text_eq_iff j k).0 e))
    | inr e ↦ rw e (
        pairs-present m ks k (
          Or.elim (hlevel) (eq-or-mem_of_mem-cons h)
            (λ here. absurd (ground (arith, e, (text_eq_iff j k).1 (sym here)))) (λ t. t)))
  ]

  printed_of :
      (o : Option F)
      → fl.format (or_zero (num 0) o) ≡ or_zero (fl.format (num 0)) (Option.map fl.format o)
  printed_of none = refl
  printed_of (some v) = refl

  -- The printed pairs of a map, in the order of the keys.
  abbrev sorted_pairs : Dict F → List (Text × Text)
  sorted_pairs m = pairs m (sort_strings (keys m))

  lookup-sorted_pairs :
      (m : Dict F) (k : Text) → lookup k (sorted_pairs m) ≡ Option.map fl.format (lookup k m)
  lookup-sorted_pairs m k =
      let sorted = sort_strings-perm (keys m) in
      elim (Option-cases (lookup k m)) [
        | inl e ↦
            pairs-absent m (sort_strings (keys m)) k
              (λ t. absent-keys k m e (Perm.subset sorted k t))
            ∙ rw e refl
        | inr (v, e) ↦
            pairs-present m (sort_strings (keys m)) k
              (Perm.subset (Perm.symm sorted) k (present-keys k v m e))
            ∙ (ap (λ o. some (fl.format (or_zero (num 0) o))) e ∙ sym (ap (Option.map fl.format) e))
      ]

  pairs-keys : (m : Dict F) (ks : List Text) → All IsKey ks → All (λ e. Lacks b'=' e.0) (pairs m ks)
  pairs-keys m [] h = tt
  pairs-keys m (k ∷ ks) h = (h.0.0, pairs-keys m ks h.1)

  pairs_cong :
      (m n : Dict F) (ks : List Text)
      → ((k : Text) → Mem k ks → printed m k ≡ printed n k)
      → pairs m ks ≡ pairs n ks
  pairs_cong m n [] h = refl
  pairs_cong m n (k ∷ ks) h =
      rw (h k mem-cons_self, pairs_cong m n ks (λ j t. h j (mem-cons_of_mem k t))) refl

  -- Maps that print the same values.
  abbrev PrintSame : Dict F → Dict F → Type 0
  PrintSame m n = (k : Text) → Option.map fl.format (lookup k m) ≡ Option.map fl.format (lookup k n)

  same-keys : (m n : Dict F) → PrintSame m n → (k : Text) → Mem k (keys m) → Mem k (keys n)
  same-keys m n h k t = elim (Option-cases (lookup k n)) [
    | inr (v, e) ↦ present-keys k v n e
    | inl e ↦ elim (Option-cases (lookup k m)) [
      | inl e' ↦ absurd (absent-keys k m e' t)
      | inr (v, e') ↦
          absurd
            (not_mapped (sym (ap (Option.map fl.format) e') ∙ h k ∙ ap (Option.map fl.format) e))
    ]
  ]

  same-printed : (m n : Dict F) → PrintSame m n → (k : Text) → printed m k ≡ printed n k
  same-printed m n h k =
      printed_of (lookup k m)
      ∙ ap (or_zero (fl.format (num 0))) (h k)
      ∙ sym (printed_of (lookup k n))

  module _ (printable : (x : F) → Lacks b',' (fl.format x)) where
    parts-Lacks :
        (m : Dict F) (ks : List Text)
        → All IsKey ks
        → All (Lacks b',') (map print_pair (pairs m ks))
          × All NonEmpty (map print_pair (pairs m ks))
    parts-Lacks m [] h = (tt, tt)
    parts-Lacks m (k ∷ ks) h =
        let (l, n) = parts-Lacks m ks h.1 in
        (
          (All-append _ k (b'=' ∷ printed m k) h.0.1 (ground arith, printable _), l),
          (nonempty_pair k (printed m k), n),
        )

    -- Two maps, which have the keys of their lists each once, are normalized to one text exactly if they
    -- have the same keys with values that are printed the same.
    pub normalized_tres_lem :
        (m n : Dict F)
        → Nodup (keys m)
        → Nodup (keys n)
        → ((k : Text) → Mem k (keys m) → IsKey k)
        → ((k : Text) → Mem k (keys n) → IsKey k)
        → (normalized_tres m ≡ normalized_tres n)
          ↔ ((k : Text) → Option.map fl.format (lookup k m) ≡ Option.map fl.format (lookup k n))
    unfolding normalized_tres
    normalized_tres_lem m n dm dn hm hn = (
      (λ e k.
          let same = ap (map read_pair) (
            join-inj _ _ (parts-Lacks m km sm).0 (parts-Lacks n kn sn).0 (parts-Lacks m km sm).1
              (parts-Lacks n kn sn).1
              (sym (ap (join b',') (printed_parts-pairs m km))
                ∙ e
                ∙ ap (join b',') (printed_parts-pairs n kn))) in
          sym (lookup-sorted_pairs m k)
          ∙ ap (lookup k) (
              sym (read_pairs (sorted_pairs m) (pairs-keys m km sm))
              ∙ same
              ∙ read_pairs (sorted_pairs n) (pairs-keys n kn sn))
          ∙ lookup-sorted_pairs n k),
      (λ h.
          let perm =
            (perm_ext_iff_of_Nodup dm dn).1
              (λ k. (same-keys m n h k, same-keys n m (λ j. sym (h j)) k)) in
          ap (join b',') (
            printed_parts-pairs m km
            ∙ ap (map print_pair) (
                ap (pairs m) (sort_strings-Perm (keys m) (keys n) perm)
                ∙ pairs_cong m n kn (λ k t. same-printed m n h k))
            ∙ sym (printed_parts-pairs n kn))),
    )
      where
        km : List Text
        km = sort_strings (keys m)

        kn : List Text
        kn = sort_strings (keys n)

        sm : All IsKey km
        sm = All-of_mem km (λ k t. hm k (Perm.subset (sort_strings-perm (keys m)) k t))

        sn : All IsKey kn
        sn = All-of_mem kn (λ k t. hn k (Perm.subset (sort_strings-perm (keys n)) k t))
