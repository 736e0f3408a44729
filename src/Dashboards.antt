-- ===== src/Dashboards.antt =====
-- tools/dashboardgen/main.go: the Grafana dashboards that `build` makes of their definitions. The
-- values of `map[string]any` are `Json`; its encoding and the writing of files are not modelled.
pub mod Grid
pub mod Overview
pub mod Capacity
pub mod Jobs
pub mod Usage
pub mod Policy
pub mod Controller
pub mod Health
pub mod Files
pub mod Generate
use slurm_insights_exporter.Prelude.{
  ℕ, suc, ◌+◌, ◌*◌, ◌/◌, ◌%◌, Bool, true, false, not, ◌||◌, List, [], ◌∷◌, Option, none, some, Text,
  codes, text_eq, if◌then◌else◌,
}

mutual
  pub data Json : Type 0 where
    null : Json
    boolean : Bool → Json
    number : ℕ → Json
    text : Text → Json
    array : Items → Json
    object : Fields → Json

  pub data Items : Type 0 where
    no_items : Items
    item : Json → Items → Items

  pub data Fields : Type 0 where
    no_fields : Fields
    field : Text → Json → Fields → Fields

pub record Query : Type 0 where
  pub expr : Text
  pub legend : Text

pub record PanelDef : Type 0 where
  pub title : Text
  pub kind : Text
  pub unit : Text
  pub queries : List Query
  pub description : Text

pub record DashboardDef : Type 0 where
  pub file : Text
  pub uid : Text
  pub title : Text
  pub panels : List PanelDef

-- `q(expr, legend)`
abbrev pub q : Text → Text → List Query
q expr legend = record { expr = expr; legend = legend } ∷ []

abbrev pub panel : Text → Text → Text → List Query → Text → PanelDef
panel title kind unit queries description = record {
  title = title;
  kind = kind;
  unit = unit;
  queries = queries;
  description = description;
}

abbrev pub texts : List Text → Items
texts [] = no_items
texts (t ∷ ts) = item (text t) (texts ts)

-- `"refId": string(rune('A' + j))`
unfoldable pub target : Text → ℕ → Query → Json
target kind j t = object (
    field (codes "refId") (text ((b'A' + j) ∷ [])) (
      field (codes "expr") (text t.expr) (
        field (codes "legendFormat") (text t.legend) (
          field (codes "range") (boolean (not (text_eq kind (codes "table"))))
            (field (codes "instant") (boolean (text_eq kind (codes "table"))) no_fields)))))

unfoldable pub targets : Text → ℕ → List Query → Items
targets kind j [] = no_items
targets kind j (t ∷ ts) = item (target kind j t) (targets kind (suc j) ts)

unfoldable pub grid_pos : ℕ → Json
grid_pos i = object (
    field (codes "h") (number 8) (
      field (codes "w") (number 6) (
        field (codes "x") (number (i % 4 * 6)) (field (codes "y") (number (i / 4 * 8)) no_fields))))

unfoldable pub options : Text → Json
options t =
    let last = object (
      field (codes "calcs") (array (texts (codes "lastNotNull" ∷ [])))
        (field (codes "values") (boolean false) no_fields)) in
    if text_eq t (codes "stat") || text_eq t (codes "gauge")
    then object (
        field (codes "reduceOptions") last
          (field (codes "orientation") (text (codes "auto")) no_fields))
    else if text_eq t (codes "bargauge")
    then object (
        field (codes "reduceOptions") last (
          field (codes "orientation") (text (codes "horizontal"))
            (field (codes "displayMode") (text (codes "gradient")) no_fields)))
    else if text_eq t (codes "table")
    then object (field (codes "showHeader") (boolean true) no_fields)
    else object (
        field (codes "legend")
          (object (
            field (codes "displayMode") (text (codes "table"))
              (field (codes "placement") (text (codes "bottom")) no_fields)))
          (field (codes "tooltip") (object (field (codes "mode") (text (codes "multi")) no_fields))
            no_fields))

-- A panel of the loop in `build`, with its index.
unfoldable pub build_panel : ℕ → PanelDef → Json
build_panel i p = object (
    field (codes "id") (number (i + 1)) (
      field (codes "title") (text p.title) (
        field (codes "type") (text p.kind) (
          field (codes "description") (text p.description) (
            field (codes "datasource")
              (object (
                field (codes "type") (text (codes "prometheus"))
                  (field (codes "uid") (text (codes "${DS_PROMETHEUS}")) no_fields)))
              (field (codes "gridPos") (grid_pos i) (
                field (codes "fieldConfig")
                  (object (
                    field (codes "defaults") (object (field (codes "unit") (text p.unit) no_fields))
                      (field (codes "overrides") (array no_items) no_fields)))
                  (field (codes "options") (options p.kind)
                    (field (codes "targets") (array (targets p.kind 0 p.queries)) no_fields)))))))))

unfoldable pub build_panels : ℕ → List PanelDef → Items
build_panels i [] = no_items
build_panels i (p ∷ ps) = item (build_panel i p) (build_panels (suc i) ps)

unfoldable pub variable : Text → Text → Text → Text → Text → Json
variable name label kind query all =
    let last =
      if text_eq kind (codes "datasource")
      then field (codes "current")
          (object (
            field (codes "text") (text (codes "Prometheus"))
              (field (codes "value") (text (codes "prometheus")) no_fields)))
          no_fields
      else field (codes "includeAll") (boolean true)
          (field (codes "allValue") (text all) (field (codes "multi") (boolean true) no_fields)) in
    object (
      field (codes "name") (text name) (
        field (codes "label") (text label) (
          field (codes "type") (text kind)
            (field (codes "query") (text query) (field (codes "refresh") (number 1) last)))))

unfoldable pub variables : Items
variables =
    item
      (variable (codes "DS_PROMETHEUS") (codes "Datasource") (codes "datasource")
        (codes "prometheus") [])
      (item
        (variable (codes "cluster") (codes "Cluster") (codes "query")
          (codes "label_values(slurm_node_info, cluster)") (codes ".*"))
        (item
          (variable (codes "partition") (codes "Partition") (codes "query")
            (codes "label_values(slurm_node_info{cluster=~\"$cluster\"}, partition)") (codes ".*"))
          (item
            (variable (codes "account") (codes "Account") (codes "query")
              (codes "label_values(slurm_queue_jobs{cluster=~\"$cluster\"}, account)") (codes ".*"))
            (item
              (variable (codes "qos") (codes "QoS") (codes "query")
                (codes "label_values(slurm_queue_jobs{cluster=~\"$cluster\"}, qos)") (codes ".*"))
              (item
                (variable (codes "node") (codes "Node") (codes "query")
                  (codes
                    "label_values(slurm_node_info{cluster=~\"$cluster\",partition=~\"$partition\"}, node)")
                  (codes ".*"))
                (item
                  (variable (codes "resource") (codes "TRES") (codes "query")
                    (codes "label_values(slurm_cluster_tres{cluster=~\"$cluster\"}, resource)")
                    (codes ".*"))
                  (item
                    (variable (codes "profile") (codes "Node Profile") (codes "query")
                      (codes
                        "label_values(slurm_node_profile_info{cluster=~\"$cluster\"}, profile)")
                      (codes ".*"))
                    no_items)))))))

unfoldable pub build : DashboardDef → Json
build d = object (
    field (codes "id") null (
      field (codes "uid") (text d.uid) (
        field (codes "title") (text d.title) (
          field (codes "description")
            (text (codes "Generated for slurm-insights-exporter metrics."))
            (field (codes "tags")
              (array (texts (codes "slurm" ∷ codes "hpc" ∷ codes "slurm-insights-exporter" ∷ [])))
              (field (codes "timezone") (text (codes "browser")) (
                field (codes "schemaVersion") (number 39) (
                  field (codes "version") (number 1) (
                    field (codes "refresh") (text (codes "30s")) (
                      field (codes "time")
                        (object (
                          field (codes "from") (text (codes "now-24h"))
                            (field (codes "to") (text (codes "now")) no_fields)))
                        (field (codes "templating")
                          (object (field (codes "list") (array variables) no_fields))
                          (field (codes "annotations")
                            (object (field (codes "list") (array no_items) no_fields))
                            (field (codes "panels") (array (build_panels 0 d.panels))
                              no_fields)))))))))))))
