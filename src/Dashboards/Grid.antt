-- ===== src/Dashboards/Grid.antt =====
-- Where the panels of a dashboard of tools/dashboardgen/main.go stand, read back from what `build`
-- makes.
use slurm_insights_exporter.Prelude.{
  ℕ, suc, ◌+◌, ◌*◌, ◌/◌, ◌%◌, ◌≤◌, ◌<◌, ◌≡◌, ◌≢◌, ◌⊎◌, refl, List, [], ◌∷◌, Text, codes, text_eq,
  if◌then◌else◌, All, length, arith, Bool-cases, ltb, ltb→lt, inl, inr, subst, sym,
}
use slurm_insights_exporter.Dashboards.{
  Json, null, number, array, object, Items, no_items, item, Fields, no_fields, field, PanelDef,
  DashboardDef, grid_pos, build_panel, build_panels, build,
}

unfoldable pub field_value : Text → Fields → Json
field_value k no_fields = null
field_value k (field j v fs) = let rest = field_value k fs in if text_eq j k then v else rest

abbrev pub value : Text → Json → Json
value k (object fs) = field_value k fs
value k _ = null

abbrev pub as_number : Json → ℕ
as_number (number n) = n
as_number _ = 0

abbrev pub as_items : Json → Items
as_items (array xs) = xs
as_items _ = no_items

-- The rectangle of a panel in the units of the grid.
pub record Rect : Type 0 where
  pub x : ℕ
  pub y : ℕ
  pub w : ℕ
  pub h : ℕ

abbrev pub rect_of : Json → Rect
rect_of panel =
    let pos = value (codes "gridPos") panel in
    record {
      x = as_number (value (codes "x") pos);
      y = as_number (value (codes "y") pos);
      w = as_number (value (codes "w") pos);
      h = as_number (value (codes "h") pos);
    }

abbrev pub rects : Items → List Rect
rects no_items = []
rects (item p ps) = rect_of p ∷ rects ps

abbrev pub ids : Items → List ℕ
ids no_items = []
ids (item p ps) = as_number (value (codes "id") p) ∷ ids ps

abbrev pub panels_of : Json → Items
panels_of dashboard = as_items (value (codes "panels") dashboard)

-- The first rectangle lies left or right of the second, or above or below it.
abbrev pub IsApart : Rect → Rect → Type 0
IsApart r s = (r.x + r.w ≤ s.x) ⊎ ((s.x + s.w ≤ r.x) ⊎ ((r.y + r.h ≤ s.y) ⊎ (s.y + s.h ≤ r.y)))

-- A relation between each element and those behind it.
abbrev pub Pairs : {A : Type 0} → (A → A → Type 0) → List A → Type 0
Pairs R [] = Unit
Pairs R (x ∷ xs) = All (R x) xs × Pairs R xs

-- A panel inside the 24 columns of the grid.
abbrev pub IsInside : Rect → Type 0
IsInside r = r.x + r.w ≤ 24

abbrev rect_at : ℕ → Rect
rect_at i = record { x = i % 4 * 6; y = i / 4 * 8; w = 6; h = 8 }

rect_of-build_panel : (i : ℕ) (p : PanelDef) → rect_of (build_panel i p) ≡ rect_at i
unfolding build_panel grid_pos field_value text_eq
rect_of-build_panel i p = refl

id_of-build_panel :
    (i : ℕ) (p : PanelDef) → as_number (value (codes "id") (build_panel i p)) ≡ i + 1
unfolding build_panel field_value text_eq
id_of-build_panel i p = refl

-- The row of a later panel is a lower one or the same.
row_cases : (i j : ℕ) → i < j → (i / 4 < j / 4) ⊎ (i / 4 ≡ j / 4)
row_cases i j h = elim (Bool-cases (ltb (i / 4) (j / 4))) [
  | inl low ↦ inl (ltb→lt (i / 4) (j / 4) low)
  | inr same ↦ inr (ground arith)
]

rect_at-IsApart : (i j : ℕ) → i < j → IsApart (rect_at i) (rect_at j)
rect_at-IsApart i j h = elim (row_cases i j h) [
  | inl low ↦ inr (inr (inl (omega (arith, low))))
  | inr same ↦ inl (omega (arith, h, same))
]

later-IsApart :
    (i j : ℕ) (ps : List PanelDef) → i < j → All (IsApart (rect_at i)) (rects (build_panels j ps))
unfolding build_panels
later-IsApart i j [] h = tt
later-IsApart i j (p ∷ ps) h = (
  subst (IsApart (rect_at i)) (sym (rect_of-build_panel j p)) (rect_at-IsApart i j h),
  later-IsApart i (suc j) ps (omega (arith, h)),
)

panels-IsApart : (i : ℕ) (ps : List PanelDef) → Pairs IsApart (rects (build_panels i ps))
unfolding build_panels
panels-IsApart i [] = tt
panels-IsApart i (p ∷ ps) = (
  subst (λ r. All (IsApart r) (rects (build_panels (suc i) ps))) (sym (rect_of-build_panel i p))
      (later-IsApart i (suc i) ps (omega arith)),
  panels-IsApart (suc i) ps,
)

panels-IsInside : (i : ℕ) (ps : List PanelDef) → All IsInside (rects (build_panels i ps))
unfolding build_panels
panels-IsInside i [] = tt
panels-IsInside i (p ∷ ps) =
    (subst IsInside (sym (rect_of-build_panel i p)) (omega arith), panels-IsInside (suc i) ps)

later-ids : (i j : ℕ) (ps : List PanelDef) → i ≤ j → All (λ n. i ≢ n) (ids (build_panels j ps))
unfolding build_panels
later-ids i j [] h = tt
later-ids i j (p ∷ ps) h =
    (rw (id_of-build_panel j p) (omega (arith, h)), later-ids i (suc j) ps (omega (arith, h)))

panels-ids : (i : ℕ) (ps : List PanelDef) → Pairs ◌≢◌ (ids (build_panels i ps))
unfolding build_panels
panels-ids i [] = tt
panels-ids i (p ∷ ps) =
    (rw (id_of-build_panel i p) (later-ids (i + 1) (suc i) ps (omega arith)), panels-ids (suc i) ps)

length-rects : (i : ℕ) (ps : List PanelDef) → length (rects (build_panels i ps)) ≡ length ps
unfolding build_panels
length-rects i [] = refl
length-rects i (p ∷ ps) = omega (arith, length-rects (suc i) ps)

panels_of-build : (d : DashboardDef) → panels_of (build d) ≡ build_panels 0 d.panels
unfolding build field_value text_eq
panels_of-build d = refl

-- Whatever panels a dashboard is defined with, the dashboard that is built has one for each, no two of
-- them overlap, all lie within the 24 columns of Grafana's grid, and their ids differ.
pub build_grid :
    (d : DashboardDef)
    → let ps = panels_of (build d) in
      (length (rects ps) ≡ length d.panels)
      × Pairs IsApart (rects ps)
      × All IsInside (rects ps)
      × Pairs ◌≢◌ (ids ps)
build_grid d = rw (panels_of-build d) (
  length-rects 0 d.panels,
  panels-IsApart 0 d.panels,
  panels-IsInside 0 d.panels,
  panels-ids 0 d.panels,
)
