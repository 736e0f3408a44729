-- ===== src/Render/Page.antt =====
-- The lines of the whole text of internal/slurm/render.go.
use slurm_insights_exporter.Prelude.{
  ◌≡◌, ◌≢◌, sym, subst, List, [], ◌∷◌, ◌++◌, map, Text, codes, All, All-append, append_assoc, Lacks,
  arith, join_map, keys,
}
use slurm_insights_exporter.Float.{Float}
use slurm_insights_exporter.Model.{Snapshot}
use slurm_insights_exporter.Sorting.{sort_strings}
use slurm_insights_exporter.Render.{
  newline, families, header, no_errors, error_lines, render_families, render_prometheus,
}
use slurm_insights_exporter.Render.Errors.{error_line, error_line-Lacks}
use slurm_insights_exporter.Render.Order.{named, render_families-order}
use slurm_insights_exporter.Render.Lines.{
  Splits, Splits-nil, Splits-append, Splits-cons, header_lines, header-Splits,
}
use slurm_insights_exporter.Render.Rows.{IsRow, IsPlain, family_lines, families-Splits}

error_lines-Splits : (es : List Text) → Splits (error_lines es) (map error_line es)
unfolding error_lines
error_lines-Splits [] = Splits-nil
error_lines-Splits (e ∷ es) = Splits-cons (error_line-Lacks e) (error_lines-Splits es)

-- A metric with one value and no label.
abbrev pub value_line : Text → Text → Text
value_line name value = name ++ b' ' ∷ value

pub value_line-Lacks :
    (name value : Text)
    → Lacks newline name
    → Lacks newline value
    → Lacks newline (value_line name value)
value_line-Lacks name value n v =
    All-append (λ c. c ≢ newline) name (b' ' ∷ value) n (ground arith, v)

abbrev up_name : Text
up_name = codes "slurm_exporter_up"

abbrev up_help : Text
up_help = codes "Whether every collector succeeded."

abbrev took_name : Text
took_name = codes "slurm_exporter_collection_duration_seconds"

abbrev took_help : Text
took_help = codes "Total collection duration."

no_errors-Lacks : (es : List Text) → Lacks newline (no_errors es)
no_errors-Lacks [] = ground arith
no_errors-Lacks (e ∷ es) = ground arith

module _ {F : Type 0} ⦃fl : Float F⦄ (quote : Text → Text) where
  -- The lines of a snapshot: its families in the order of their names, whether there was no error, the
  -- duration, and a line for each error.
  abbrev pub snapshot_lines : Snapshot F → List Text
  snapshot_lines snap =
      join_map (λ n. family_lines quote n (named n snap.samples))
        (sort_strings (keys (families snap.samples)))
      ++ (header_lines up_name up_help (codes "gauge")
          ++ (value_line up_name (no_errors snap.errors)
              ∷ (header_lines took_name took_help (codes "gauge")
                  ++ (value_line took_name (fl.format snap.duration)
                      ∷ map error_line snap.errors))))

  render_prometheus-nested :
      (snap : Snapshot F)
      → render_prometheus quote snap
        ≡ render_families quote
            (families snap.samples)
            (sort_strings (keys (families snap.samples)))
          ++ (header up_name up_help (codes "gauge")
              ++ (value_line up_name (no_errors snap.errors)
                  ++ newline
                    ∷ (header took_name took_help (codes "gauge")
                        ++ (value_line took_name (fl.format snap.duration)
                            ++ newline ∷ error_lines snap.errors))))
  unfolding render_prometheus
  render_prometheus-nested snap = simp (append_assoc)

  pub render_prometheus-Splits :
      (snap : Snapshot F)
      → IsPlain F quote
      → All IsRow snap.samples
      → Splits (render_prometheus quote snap) (snapshot_lines snap)
  render_prometheus-Splits snap plain rows =
      let gauge_line : Lacks newline (codes "gauge") = ground arith in
      let up : Lacks newline up_name = ground arith in
      let took : Lacks newline took_name = ground arith in
      let ns = sort_strings (keys (families snap.samples)) in
      subst (λ t. Splits t (snapshot_lines snap)) (sym (render_prometheus-nested snap))
        (Splits-append
          (subst (λ t. Splits t (join_map (λ n. family_lines quote n (named n snap.samples)) ns))
            (sym (render_families-order quote snap.samples).0)
            (families-Splits quote plain snap.samples ns rows))
          (Splits-append
            (header-Splits up_name up_help (codes "gauge") up (ground arith) gauge_line)
            (Splits-cons (value_line-Lacks up_name _ up (no_errors-Lacks snap.errors)) (
              Splits-append
                (header-Splits took_name took_help (codes "gauge") took (ground arith) gauge_line)
                (Splits-cons (value_line-Lacks took_name _ took (plain.formats snap.duration))
                  (error_lines-Splits snap.errors))))))
