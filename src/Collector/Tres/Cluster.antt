-- ===== src/Collector/Tres/Cluster.antt =====
-- The totals of the cluster in the collector `tresProfiles` of internal/slurm/collector.go.
use mathlib.Core.List.{
  Mem, Nodup, Pairwise, not-mem-nil, eq-or-mem_of_mem-cons, mem-cons_self, mem-cons_of_mem,
  Nodup-cons,
}
use mathlib.Core.HLevel.{⊥_prop}
use mathlib.Core.Logic.Or
use slurm_insights_exporter.Prelude.{
  ◌≡◌, refl, sym, subst, ◌∙◌, ap, Bool, true, false, not, ◌&&◌, ◌||◌, Bool-cases, inl, inr, List,
  [], ◌∷◌, Option, none, some, is_some, Text, Dict, codes, lookup, lookup-insert, text_eq,
  text_eq_iff, filter, arith, if◌then◌else◌, keys, absent-keys, present-keys, insert-Nodup,
  Option-cases,
}
use slurm_insights_exporter.Float.{Float, num}
use slurm_insights_exporter.Strings.{cut, split}
use slurm_insights_exporter.Parse.{clean}
use slurm_insights_exporter.Collector.{Config}
use slurm_insights_exporter.Collector.Groups.{or_zero, entry_from}
use slurm_insights_exporter.Collector.KeyValues.{
  key_values, value_at, put_pair, put_pairs, tres_values, numeric_values, tres_numeric,
}
use slurm_insights_exporter.Collector.Tres.{
  Totals, Profiles, union_keys, at_key, add_totals, node_resources, node_line, node_lines,
}
use slurm_insights_exporter.Collector.Tres.Unions.{
  union_keys-mem, mem-union_keys_left, mem-union_keys_right, union_keys-Nodup,
}

if_true {ℓ} : {A : Type ℓ} (b : Bool) (x y : A) → b ≡ true → x ≡ (if b then x else y)
if_true b x y e = rw e refl

if_false {ℓ} : {A : Type ℓ} (b : Bool) (x y : A) → b ≡ false → y ≡ (if b then x else y)
if_false b x y e = rw e refl

if_false_at {ℓ κ} :
    {A : Type ℓ} {B : Type κ} (b : Bool) (f : A → B) (x y : A)
    → b ≡ false
    → f (if b then x else y) ≡ f y
if_false_at b f x y e = rw e refl

put_pair-Nodup :
    (o : Option (Text × Text)) (m : Dict Text) → Nodup (keys m) → Nodup (keys (put_pair o m))
unfolding put_pair
put_pair-Nodup none m h = h
put_pair-Nodup (some (k, v)) m h = elim (Bool-cases (text_eq k [])) [
  | inl e ↦ rw e h
  | inr e ↦ rw e (insert-Nodup k v m h)
]

put_pairs-Nodup : (fs : List Text) (m : Dict Text) → Nodup (keys m) → Nodup (keys (put_pairs fs m))
unfolding put_pairs
put_pairs-Nodup [] m h = h
put_pairs-Nodup (f ∷ fs) m h =
    put_pairs-Nodup fs (put_pair (cut b'=' f) m) (put_pair-Nodup (cut b'=' f) m h)

later_mem : {r : Text} (x : Text) (rs : List Text) → text_eq x r ≡ false → Mem r (x ∷ rs) → Mem r rs
later_mem {r} x rs other m =
    Or.elim (hlevel) (eq-or-mem_of_mem-cons m)
      (λ here. absurd (ground (arith, other, (text_eq_iff x r).1 (sym here)))) (λ t. t)

module _ (F : Type 0) ⦃fl : Float F⦄ where
  open fl use {add}

  pub keys-numeric_values : (m : Dict Text) → keys (numeric_values {F = F} m) ≡ keys m
  unfolding numeric_values
  keys-numeric_values [] = refl
  keys-numeric_values ((k, v) ∷ m) = ap (◌∷◌ k) (keys-numeric_values m)

  pub tres_numeric-Nodup : (s : Text) → Nodup (keys (tres_numeric {F = F} s))
  unfolding tres_numeric tres_values
  tres_numeric-Nodup s =
      rw (keys-numeric_values (tres_values s)) (put_pairs-Nodup (split b',' s) [] Pairwise.nil)

  abbrev pub zero_totals : Totals F
  zero_totals = record { configured = num 0; allocated = num 0 }

  -- What a node adds to the totals of a resource.
  abbrev plus : F → F → Totals F → Totals F
  plus total used t = record {
    configured = add t.configured total;
    allocated = add t.allocated used;
  }

  lookup-add_totals :
      (r x : Text) (total used : F) (m : Dict (Totals F))
      → lookup r (add_totals x total used m) ≡ (
          if text_eq x r
          then some (plus total used (or_zero zero_totals (lookup x m)))
          else lookup r m)
  unfolding add_totals
  lookup-add_totals r x total used m = lookup-insert x r _ m

  module _ (cfg : Config) (node : Text) (have used : Dict F) (r : Text) where
    other_resources :
        (rs : List Text) (acc : Profiles F)
        → ¬ Mem r rs
        → lookup r (node_resources cfg node have used rs acc).cluster_totals
          ≡ lookup r acc.cluster_totals
    unfolding node_resources
    other_resources [] acc n = refl
    other_resources (x ∷ rs) acc n = elim (Bool-cases (text_eq x r)) [
      | inl same ↦ absurd (n (subst (λ t. Mem t (x ∷ rs)) ((text_eq_iff x r).0 same) mem-cons_self))
      | inr other ↦
          other_resources rs _ (λ t. n (mem-cons_of_mem x t))
          ∙ (lookup-add_totals r x _ _ acc.cluster_totals ∙ rw other refl)
    ]

    own_resource :
        (rs : List Text) (acc : Profiles F)
        → Nodup rs
        → Mem r rs
        → lookup r (node_resources cfg node have used rs acc).cluster_totals
          ≡ some (
              plus
                (at_key r have)
                (at_key r used)
                (or_zero zero_totals (lookup r acc.cluster_totals)))
    unfolding node_resources
    own_resource [] acc d m = absurd (not-mem-nil m)
    own_resource (x ∷ rs) acc d m =
        let (new, rest) = Nodup-cons.0 d in
        elim (Bool-cases (text_eq x r)) [
          | inl same ↦
              let here : x ≡ r = (text_eq_iff x r).0 same in
              other_resources rs _ (subst (λ t. ¬ Mem t rs) here new)
              ∙ (lookup-add_totals r x _ _ acc.cluster_totals ∙ rw same (rw here refl))
          | inr other ↦
              own_resource rs _ rest (later_mem x rs other m)
              ∙ rw (lookup-add_totals r x (at_key x have) (at_key x used) acc.cluster_totals, other)
                  refl
        ]

-- What a line of `scontrol show nodes` says: the node's name and its resources, configured and
-- allocated.
abbrev pub node_of : Text → Text
node_of line = clean (value_at (codes "NodeName") (key_values line))

module _ {F : Type 0} ⦃fl : Float F⦄ where
  abbrev pub configured_of : Text → Dict F
  configured_of line = tres_numeric (value_at (codes "CfgTRES") (key_values line))

  abbrev pub allocated_of : Text → Dict F
  allocated_of line = tres_numeric (value_at (codes "AllocTRES") (key_values line))

module _ (F : Type 0) ⦃fl : Float F⦄ where
  -- The line is a node's and names the resource in one of its two lists.
  abbrev pub mentions : Text → Text → Bool
  mentions r line =
      not (text_eq (node_of line) [])
      && (is_some (lookup r (configured_of {F = F} line))
          || is_some (lookup r (allocated_of {F = F} line)))

  abbrev pub add_node : Text → Text → Totals F → Totals F
  add_node r line t = plus F (at_key r (configured_of line)) (at_key r (allocated_of line)) t

  resources_of-Nodup :
      (line : Text)
      → Nodup (union_keys (keys (configured_of {F = F} line)) (keys (allocated_of {F = F} line)))
  resources_of-Nodup line =
      union_keys-Nodup (keys (configured_of line)) (keys (allocated_of line))
        (tres_numeric-Nodup F _) (tres_numeric-Nodup F _)

  lookup-node_resources :
      (cfg : Config) (r line : Text) (acc : Profiles F)
      → text_eq (node_of line) [] ≡ false
      → lookup r
          (node_resources cfg
            (node_of line)
            (configured_of line)
            (allocated_of line)
            (union_keys (keys (configured_of {F = F} line)) (keys (allocated_of {F = F} line)))
            acc).cluster_totals
        ≡ (if mentions r line
            then some (add_node r line (or_zero (zero_totals F) (lookup r acc.cluster_totals)))
            else lookup r acc.cluster_totals)
  lookup-node_resources cfg r line acc named =
      let have : Dict F = configured_of line in
      let used : Dict F = allocated_of line in
      let own = own_resource F cfg (node_of line) have used r _ acc (resources_of-Nodup line) in
      elim (Option-cases (lookup r have)) [
        | inr (v, e) ↦
            own (mem-union_keys_left (keys have) (keys used) r (present-keys r v have e))
            ∙ if_true (mentions r line) _ _ (rw (named, e) refl)
        | inl e ↦ elim (Option-cases (lookup r used)) [
          | inr (v, e') ↦
              own (mem-union_keys_right (keys have) (keys used) r (present-keys r v used e'))
              ∙ if_true (mentions r line) _ _ (rw (named, e, e') refl)
          | inl e' ↦
              other_resources F cfg (node_of line) have used r _ acc (λ m.
                Or.elim ⊥_prop (union_keys-mem (keys have) (keys used) r m) (absent-keys r have e)
                  (absent-keys r used e'))
              ∙ if_false (mentions r line) _ _ (rw (named, e, e') refl)
        ]
      ]

  lookup-node_line :
      (digest : Text → Text) (cfg : Config) (r line : Text) (acc : Profiles F)
      → lookup r (node_line digest cfg line acc).cluster_totals ≡ (
          if mentions r line
          then some (add_node r line (or_zero (zero_totals F) (lookup r acc.cluster_totals)))
          else lookup r acc.cluster_totals)
  unfolding node_line
  lookup-node_line digest cfg r line acc = elim (Bool-cases (text_eq (node_of line) [])) [
    | inl e ↦ rw e refl
    | inr e ↦
        if_false_at (text_eq (node_of line) []) (λ (p : Profiles F). lookup r p.cluster_totals) _ _
          e
        ∙ lookup-node_resources cfg r line _ e
  ]

  -- The total of a resource takes in, in their order, what is configured and what is allocated on each
  -- node that names the resource, each line once, onto the total before, which is zero for a resource
  -- that has none; a resource that no node names keeps its total or has none.
  pub lookup-cluster_totals :
      (digest : Text → Text) (cfg : Config) (r : Text) (ls : List Text) (acc : Profiles F)
      → lookup r (node_lines digest cfg ls acc).cluster_totals
        ≡ entry_from
            (λ line. [])
            (add_node r)
            (zero_totals F)
            (lookup r acc.cluster_totals)
            (filter (mentions r) ls)
  unfolding node_lines
  lookup-cluster_totals digest cfg r [] acc = refl
  lookup-cluster_totals digest cfg r (l ∷ ls) acc =
      let first = lookup-node_line digest cfg r l acc in
      elim (Bool-cases (mentions r l)) [
        | inl e ↦
            lookup-cluster_totals digest cfg r ls (node_line digest cfg l acc) ∙ rw (first, e) refl
        | inr e ↦
            lookup-cluster_totals digest cfg r ls (node_line digest cfg l acc) ∙ rw (first, e) refl
      ]
