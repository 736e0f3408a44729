-- ===== src/Collector/Tres/Available.antt =====
-- What is left of a resource, and the totals of the cluster, in the collector `tresProfiles`.
use slurm_insights_exporter.Prelude.{
  ◌≡◌, refl, Bool, false, List, [], ◌∷◌, ◌++◌, Option, none, some, Text, Dict, codes, lookup,
  text_eq, text_eq_refl, lookup-insert, All, All-append, filter, filter-append, arith, Bool-cases,
  inl, inr,
}
use slurm_insights_exporter.Float.{Float, num, IsIrreflexive}
use slurm_insights_exporter.Model.{Sample}
use slurm_insights_exporter.Parse.{clean}
use slurm_insights_exporter.Collector.{Config, sample, merge}
use slurm_insights_exporter.Collector.Shared.{gauge}
use slurm_insights_exporter.Collector.KeyValues.{text_lines, key_values, value_at}
use slurm_insights_exporter.Collector.Tres.{
  available, three_ways, cluster_samples, count_samples, expected_samples, profile_samples, Totals,
  node_resources, node_line, node_lines, read_nodes, Profiles,
}

abbrev is_text : Text → Option Text → Bool
is_text t none = false
is_text t (some s) = text_eq s t

-- The sample is labelled with the status `available`.
abbrev pub is_available : {F : Type 0} → Sample F → Bool
is_available s = is_text (codes "available") (lookup (codes "status") s.labels)

status_of :
    (l : Dict Text) (v : Text)
    → lookup (codes "status") (merge l ((codes "status", v) ∷ [])) ≡ some v
unfolding merge
status_of l v =
    rw (lookup-insert (codes "status") (codes "status") v l, text_eq_refl (codes "status")) refl

module _ {F : Type 0} ⦃fl : Float F⦄ where
  abbrev pub NonNeg : Sample F → Type 0
  NonNeg s = fl.lt s.value (num 0) ≡ false

module _ {F : Type 0} ⦃fl : Float F⦄ (irr : IsIrreflexive fl) where
  available_nonneg : (total used : F) → fl.lt (available total used) (num 0) ≡ false
  unfolding available
  available_nonneg total used = ground (arith, irr.irrefl (num 0))

  abbrev NoneBelow : List (Sample F) → Type 0
  NoneBelow xs = All NonNeg (filter is_available xs)

  NoneBelow-append : (xs ys : List (Sample F)) → NoneBelow xs → NoneBelow ys → NoneBelow (xs ++ ys)
  NoneBelow-append xs ys h k =
      rw (filter-append is_available xs ys)
        (All-append NonNeg (filter is_available xs) (filter is_available ys) h k)

  three_ways-NoneBelow :
      (name help : Text) (resource_labels : Dict Text) (total used : F)
      → NoneBelow (three_ways name help resource_labels total used)
  unfolding three_ways sample
  three_ways-NoneBelow name help l total used =
      rw
        (
          status_of l (codes "total"),
          status_of l (codes "allocated"),
          status_of l (codes "available"),
        )
        (unfold text_eq in (available_nonneg total used, tt))

  plain :
      (name help : Text) (value : F) (ls : Dict Text) (xs : List (Sample F))
      → lookup (codes "status") ls ≡ none
      → NoneBelow xs
      → NoneBelow (gauge name help value ls ∷ xs)
  unfolding sample
  plain name help value ls xs e h = rw e h

  cluster_samples-NoneBelow :
      (cfg : Config) (m : Dict (Totals F)) → NoneBelow (cluster_samples cfg m)
  unfolding cluster_samples
  cluster_samples-NoneBelow cfg [] = tt
  cluster_samples-NoneBelow cfg ((r, t) ∷ m) =
      NoneBelow-append (three_ways _ _ _ t.configured t.allocated) (cluster_samples cfg m)
        (three_ways-NoneBelow _ _ _ t.configured t.allocated) (cluster_samples-NoneBelow cfg m)

  count_samples-NoneBelow : (cfg : Config) (m : Dict F) → NoneBelow (count_samples cfg m)
  unfolding count_samples
  count_samples-NoneBelow cfg [] = tt
  count_samples-NoneBelow cfg ((key, count) ∷ m) =
      plain _ _ _ _ (count_samples cfg m) (unfold lookup text_eq in refl)
        (count_samples-NoneBelow cfg m)

  expected_samples-NoneBelow :
      (cfg : Config) (profile : Text) (m : Dict F) → NoneBelow (expected_samples cfg profile m)
  unfolding expected_samples
  expected_samples-NoneBelow cfg profile [] = tt
  expected_samples-NoneBelow cfg profile ((resource, value) ∷ m) =
      plain _ _ _ _ (expected_samples cfg profile m) (unfold lookup text_eq in refl)
        (expected_samples-NoneBelow cfg profile m)

  profile_samples-NoneBelow :
      (cfg : Config) (configs : Dict Text) (m : Dict (Dict F))
      → NoneBelow (profile_samples cfg configs m)
  unfolding profile_samples
  profile_samples-NoneBelow cfg configs [] = tt
  profile_samples-NoneBelow cfg configs ((profile, values) ∷ m) =
      plain _ _ _ _ _ (unfold lookup text_eq in refl) (
        NoneBelow-append (expected_samples cfg profile values) (profile_samples cfg configs m)
          (expected_samples-NoneBelow cfg profile values) (profile_samples-NoneBelow cfg configs m))

  node_resources-NoneBelow :
      (cfg : Config) (node : Text) (have used : Dict F) (rs : List Text) (acc : Profiles F)
      → NoneBelow acc.out
      → NoneBelow (node_resources cfg node have used rs acc).out
  unfolding node_resources
  node_resources-NoneBelow cfg node have used [] acc h = h
  node_resources-NoneBelow cfg node have used (r ∷ rs) acc h =
      node_resources-NoneBelow cfg node have used rs _
        (NoneBelow-append acc.out (three_ways _ _ _ _ _) h (three_ways-NoneBelow _ _ _ _ _))

  assigned-NoneBelow :
      (name help : Text) (value : F) (cluster node profile state partitions : Text)
      → NoneBelow (
          gauge name help value (
            (codes "cluster", cluster)
            ∷ (codes "node", node)
            ∷ (codes "profile", profile)
            ∷ (codes "state", state)
            ∷ (codes "partitions", partitions)
            ∷ [])
          ∷ [])
  assigned-NoneBelow name help value c n p s q =
      plain name help value _ [] (unfold lookup text_eq in refl) tt

  node_line-NoneBelow :
      (digest : Text → Text) (cfg : Config) (line : Text) (acc : Profiles F)
      → NoneBelow acc.out
      → NoneBelow (node_line digest cfg line acc).out
  unfolding node_line
  node_line-NoneBelow digest cfg line acc h =
      elim (Bool-cases (text_eq (clean (value_at (codes "NodeName") (key_values line))) [])) [
        | inl e ↦ rw e h
        | inr e ↦ rw e (
            node_resources-NoneBelow cfg _ _ _ _ _ (
              NoneBelow-append acc.out (gauge _ _ _ _ ∷ []) h (assigned-NoneBelow _ _ _ _ _ _ _ _)))
      ]

  node_lines-NoneBelow :
      (digest : Text → Text) (cfg : Config) (ls : List Text) (acc : Profiles F)
      → NoneBelow acc.out
      → NoneBelow (node_lines digest cfg ls acc).out
  unfolding node_lines
  node_lines-NoneBelow digest cfg [] acc h = h
  node_lines-NoneBelow digest cfg (l ∷ ls) acc h =
      node_lines-NoneBelow digest cfg ls (node_line digest cfg l acc)
        (node_line-NoneBelow digest cfg l acc h)

  -- No sample with the status `available`, of a node or of the cluster, has a value below zero,
  -- whatever is allocated, if no number is below itself.
  pub read_nodes-available :
      (digest : Text → Text) (cfg : Config) (b : Text)
      → All (NonNeg {F = F}) (filter is_available (read_nodes digest cfg b))
  unfolding read_nodes
  read_nodes-available digest cfg b =
      let start : Profiles F = record {
        cluster_totals = [];
        profile_counts = [];
        profile_config = [];
        profile_tres = [];
        out = [];
      } in
      let acc = node_lines digest cfg (text_lines b) start in
      let totals = cluster_samples cfg acc.cluster_totals in
      let counts = count_samples cfg acc.profile_counts in
      let profiles = profile_samples cfg acc.profile_config acc.profile_tres in
      let samples = node_lines-NoneBelow digest cfg (text_lines b) start tt in
      NoneBelow-append (acc.out ++ totals ++ counts) profiles
        (NoneBelow-append (acc.out ++ totals) counts
          (NoneBelow-append acc.out totals samples
            (cluster_samples-NoneBelow cfg acc.cluster_totals))
          (count_samples-NoneBelow cfg acc.profile_counts))
        (profile_samples-NoneBelow cfg acc.profile_config acc.profile_tres)
