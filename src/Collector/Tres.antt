-- ===== src/Collector/Tres.antt =====
-- The collector `tresProfiles` of internal/slurm/collector.go: trackable resources by node and for
-- the cluster, and hardware profiles of nodes with the same configuration.
pub mod Available
pub mod Unions
pub mod Cluster
pub mod Naming
use slurm_insights_exporter.Prelude.{
  keys, ℕ, Bool, ◌||◌, List, [], ◌∷◌, ◌++◌, Option, none, some, Text, Dict, codes, text_eq, lookup,
  insert, if◌then◌else◌,
}
use slurm_insights_exporter.Float.{Float, num}
use slurm_insights_exporter.Model.{Sample}
use slurm_insights_exporter.Strings.{split, join}
use slurm_insights_exporter.Parse.{clean, base_state}
use slurm_insights_exporter.Collector.{Config, Outcome}
use slurm_insights_exporter.Collector.Shared.{
  Runner, command, only_samples, cell, gauge, with_status,
}
use slurm_insights_exporter.Collector.Groups.{or_zero}
use slurm_insights_exporter.Collector.Queue.{nul}
use slurm_insights_exporter.Collector.KeyValues.{
  key_values, value_at, text_lines, tres_numeric, normalized_tres,
}

pub record Totals (F : Type 0) : Type 0 where
  pub configured : F
  pub allocated : F

-- The maps of the loop over the nodes, and `out`.
pub record Profiles (F : Type 0) : Type 0 where
  pub cluster_totals : Dict (Totals F)
  pub profile_counts : Dict F
  pub profile_config : Dict Text
  pub profile_tres : Dict (Dict F)
  pub out : List (Sample F)

unfoldable pub without : Text → List Text → List Text
without k [] = []
without k (j ∷ js) = let rest = without k js in if text_eq j k then rest else j ∷ rest

-- The keys of `b` that are not yet in `a`, behind those of `a`.
unfoldable pub union_keys : List Text → List Text → List Text
union_keys [] b = b
union_keys (k ∷ a) b = k ∷ union_keys a (without k b)

-- `"profile-" + hex.EncodeToString(d[:6])`: `digest` is the text of the first six bytes of the SHA-256.
unfoldable pub profile_name : (Text → Text) → Text → Text
profile_name digest normalized = codes "profile-" ++ digest normalized

module _ {F : Type 0} ⦃fl : Float F⦄ where
  open fl use {add, sub, lt}

  abbrev pub at_key : Text → Dict F → F
  at_key k m = or_zero (num 0) (lookup k m)

  -- `available := total - used; if available < 0 { available = 0 }`
  unfoldable pub available : F → F → F
  available total used = let a = sub total used in if lt a (num 0) then num 0 else a

  -- The three samples of a resource.
  unfoldable pub three_ways : Text → Text → Dict Text → F → F → List (Sample F)
  three_ways name help l total used =
      gauge name help total (with_status l (codes "total"))
      ∷ gauge name help used (with_status l (codes "allocated"))
      ∷ gauge name help (available total used) (with_status l (codes "available"))
      ∷ []

  unfoldable pub add_totals : Text → F → F → Dict (Totals F) → Dict (Totals F)
  add_totals resource total used m =
      let old : Totals F =
        or_zero (record { configured = num 0; allocated = num 0 }) (lookup resource m) in
      insert resource
        (record { configured = add old.configured total; allocated = add old.allocated used }) m

  -- The loop over a node's resources.
  unfoldable pub node_resources :
      Config → Text → Dict F → Dict F → List Text → Profiles F → Profiles F
  node_resources cfg node have used [] acc = acc
  node_resources cfg node have used (resource ∷ rs) acc =
      let l : Dict Text =
        (codes "cluster", cfg.cluster) ∷ (codes "node", node) ∷ (codes "resource", resource) ∷ [] in
      let total = at_key resource have in
      let taken = at_key resource used in
      node_resources cfg node have used rs (record acc {
        out =
            acc.out
            ++ three_ways (codes "node_tres") (codes "Per-node trackable resources by disposition")
                l total taken;
        cluster_totals = add_totals resource total taken acc.cluster_totals;
      })

  unfoldable pub node_line : (Text → Text) → Config → Text → Profiles F → Profiles F
  node_line digest cfg line acc =
      let kv = key_values line in
      let node = clean (value_at (codes "NodeName") kv) in
      let have : Dict F = tres_numeric (value_at (codes "CfgTRES") kv) in
      let used : Dict F = tres_numeric (value_at (codes "AllocTRES") kv) in
      let normalized = normalized_tres have in
      let profile = profile_name digest normalized in
      let state = base_state (value_at (codes "State") kv) in
      let counted = join nul (profile ∷ state ∷ []) in
      let l : Dict Text =
        (codes "cluster", cfg.cluster)
        ∷ (codes "node", node)
        ∷ (codes "profile", profile)
        ∷ (codes "state", state)
        ∷ (codes "partitions", clean (value_at (codes "Partitions") kv))
        ∷ [] in
      let noted = record acc {
        profile_config = insert profile normalized acc.profile_config;
        profile_tres = insert profile have acc.profile_tres;
        profile_counts =
            insert counted (add (at_key counted acc.profile_counts) (num 1)) acc.profile_counts;
        out =
            acc.out
            ++ gauge (codes "node_profile_assignment")
                (codes "Configured hardware profile assigned to a node") (num 1) l
              ∷ [];
      } in
      if text_eq node []
      then acc
      else node_resources cfg node have used (union_keys (keys have) (keys used)) noted

  unfoldable pub node_lines : (Text → Text) → Config → List Text → Profiles F → Profiles F
  node_lines digest cfg [] acc = acc
  node_lines digest cfg (l ∷ ls) acc = node_lines digest cfg ls (node_line digest cfg l acc)

  unfoldable pub cluster_samples : Config → Dict (Totals F) → List (Sample F)
  cluster_samples cfg [] = []
  cluster_samples cfg ((resource, t) ∷ m) =
      three_ways (codes "cluster_tres")
        (codes "Cluster trackable resources by disposition; memory is bytes")
        ((codes "cluster", cfg.cluster) ∷ (codes "resource", resource) ∷ []) t.configured
        t.allocated
      ++ cluster_samples cfg m

  unfoldable pub count_samples : Config → Dict F → List (Sample F)
  count_samples cfg [] = []
  count_samples cfg ((key, count) ∷ m) =
      let p = split nul key in
      gauge (codes "node_profile_nodes")
        (codes "Nodes by inferred configured hardware profile and state") count
        ((codes "cluster", cfg.cluster)
          ∷ (codes "profile", cell p 0)
          ∷ (codes "state", cell p 1)
          ∷ [])
      ∷ count_samples cfg m

  unfoldable pub expected_samples : Config → Text → Dict F → List (Sample F)
  expected_samples cfg profile [] = []
  expected_samples cfg profile ((resource, value) ∷ m) =
      gauge (codes "node_profile_tres")
        (codes "Expected per-node TRES for an inferred hardware profile; memory is bytes") value
        ((codes "cluster", cfg.cluster)
          ∷ (codes "profile", profile)
          ∷ (codes "resource", resource)
          ∷ [])
      ∷ expected_samples cfg profile m

  unfoldable pub profile_samples : Config → Dict Text → Dict (Dict F) → List (Sample F)
  profile_samples cfg configs [] = []
  profile_samples cfg configs ((profile, values) ∷ m) =
      gauge (codes "node_profile_info") (codes "Inferred profile and normalized CfgTRES definition")
        (num 1)
        ((codes "cluster", cfg.cluster)
          ∷ (codes "profile", profile)
          ∷ (codes "configuration", value_at profile configs)
          ∷ [])
      ∷ (expected_samples cfg profile values ++ profile_samples cfg configs m)

  unfoldable pub read_nodes : (Text → Text) → Config → Text → List (Sample F)
  read_nodes digest cfg b =
      let start : Profiles F = record {
        cluster_totals = [];
        profile_counts = [];
        profile_config = [];
        profile_tres = [];
        out = [];
      } in
      let acc = node_lines digest cfg (text_lines b) start in
      acc.out
      ++ cluster_samples cfg acc.cluster_totals
      ++ count_samples cfg acc.profile_counts
      ++ profile_samples cfg acc.profile_config acc.profile_tres

  unfoldable pub tres_profiles :
      {W : Type 0} → (Text → Text) → Runner W → Config → W → Outcome F × W
  tres_profiles digest runner cfg =
      command runner cfg (codes "scontrol") (codes "show" ∷ codes "nodes" ∷ codes "--oneliner" ∷ [])
        (λ b. only_samples (read_nodes digest cfg b))
