-- ===== src/Collector/Catalog/Rows.antt =====
-- The samples of the collectors that give a few samples for each row, and their metrics.
use slurm_insights_exporter.Prelude.{
  ◌≡◌, ap, keys, insert, ltb, leb, length, refl, Bool, true, false, List, [], ◌∷◌, Option, none,
  some, not, ◌||◌, Text, Dict, codes, lookup, text_eq, All, All-append, if◌then◌else◌,
}
use slurm_insights_exporter.Float.{Float}
use slurm_insights_exporter.Model.{Sample, Time}
use slurm_insights_exporter.Collector.{Config, sample, merge}
use slurm_insights_exporter.Collector.Shared.{dispositions, cell}
use slurm_insights_exporter.Collector.Inventory.{each_row, partition_row, node_row, fairshare_row}
use slurm_insights_exporter.Collector.Queue.{start_samples, wait_samples, running_job}
use slurm_insights_exporter.Collector.Limits.{
  end_samples, reservation_line, license_line, license_name, limit_row,
}
use slurm_insights_exporter.Collector.KeyValues.{key_values, value_at}
use slurm_insights_exporter.Strings.{split}
use slurm_insights_exporter.Parse.{clean, base_state}
use slurm_insights_exporter.Clock.{Formats}
use slurm_insights_exporter.Collector.Catalog.{IsListed, is_line, fairshare_label_names}

-- Both branches of a test.
pub All-if {ℓ κ} :
    {A : Type ℓ} (P : A → Type κ) (b : Bool) (xs ys : List A)
    → All P xs
    → All P ys
    → All P (if b then xs else ys)
All-if P true xs ys h k = h
All-if P false xs ys h k = k

fairshare_keys :
    (users : Bool) (c a u : Text)
    → fairshare_label_names users
      ≡ keys (
          let l : Dict Text = (codes "cluster", c) ∷ (codes "account", a) ∷ [] in
          if users then insert (codes "user") u l else l)
unfolding insert text_eq
fairshare_keys true c a u = refl
fairshare_keys false c a u = refl

module _ (F : Type 0) ⦃fl : Float F⦄ (cfg : Config) where
  abbrev pub AreListed : List (Sample F) → Type 0
  AreListed = All (IsListed cfg)

  pub each_row-AreListed :
      (f : List Text → List (Sample F)) (rs : List (List Text))
      → ((r : List Text) → AreListed (f r))
      → AreListed (each_row f rs)
  each_row-AreListed f [] h = tt
  each_row-AreListed f (r ∷ rs) h =
      All-append (IsListed cfg) (f r) (each_row f rs) (h r) (each_row-AreListed f rs h)

  partition_cpus-AreListed :
      (p v : Text) (parts : List Text)
      → AreListed (
          dispositions
            (codes "partition_cpus")
            (codes "CPUs in partition by disposition")
            ((codes "cluster", cfg.cluster)
              ∷ (codes "partition", p)
              ∷ (codes "availability", v)
              ∷ [])
            parts)
  unfolding dispositions sample lookup text_eq is_line merge insert
  partition_cpus-AreListed p v (a ∷ i ∷ o ∷ t ∷ []) =
      ((refl, refl), ((refl, refl), ((refl, refl), ((refl, refl), tt))))
  partition_cpus-AreListed p v _ = tt

  pub fairshare_row-AreListed : (r : List Text) → AreListed (fairshare_row cfg r)
  unfolding fairshare_row sample lookup text_eq is_line
  fairshare_row-AreListed r =
      let e =
        ap (λ ks. some (codes "gauge", ks))
          (fairshare_keys cfg.include_users cfg.cluster (clean (cell r 0)) (clean (cell r 1))) in
      All-if (IsListed cfg) (ltb (length r) 7) [] _ tt
        ((e, refl), ((e, refl), ((e, refl), ((e, refl), ((e, refl), tt)))))

  node_cpu_count-AreListed :
      (n p v : Text) (parts : List Text)
      → AreListed (
          dispositions
            (codes "node_cpu_count")
            (codes "CPU count by disposition")
            ((codes "cluster", cfg.cluster)
              ∷ (codes "node", n)
              ∷ (codes "partition", p)
              ∷ (codes "state", v)
              ∷ [])
            parts)
  unfolding dispositions sample lookup text_eq is_line merge insert
  node_cpu_count-AreListed n p v (a ∷ i ∷ o ∷ t ∷ []) =
      ((refl, refl), ((refl, refl), ((refl, refl), ((refl, refl), tt))))
  node_cpu_count-AreListed n p v _ = tt

  pub partition_row-AreListed : (r : List Text) → AreListed (partition_row cfg r)
  unfolding partition_row sample lookup text_eq is_line merge insert
  partition_row-AreListed r =
      All-if (IsListed cfg) (ltb (length r) 5) [] _ tt
        ((refl, refl), ((refl, refl), partition_cpus-AreListed _ _ (split b'/' (cell r 4))))

  pub node_row-AreListed : (r : List Text) → AreListed (node_row cfg r)
  unfolding node_row sample lookup text_eq is_line merge insert
  node_row-AreListed r = All-if (IsListed cfg) (ltb (length r) 7) [] _ tt (
    (refl, refl),
    (
      (refl, refl),
      (
        (refl, refl),
        (
          (refl, refl),
          All-append (IsListed cfg) _ _
              (All-append (IsListed cfg) _ _
                (All-append (IsListed cfg) _ _
                  (node_cpu_count-AreListed _ _ _ (split b'/' (cell r 6)))
                  (All-if (IsListed cfg) (leb 9 (length r)) _ [] ((refl, refl), ((refl, refl), tt))
                    tt))
                (All-if (IsListed cfg) (leb 10 (length r)) _ [] ((refl, refl), tt) tt))
              (All-if (IsListed cfg) (leb 11 (length r)) _ [] ((refl, refl), tt) tt),
        ),
      ),
    ),
  )

  pub end_samples-AreListed :
      (end : Option Time) (r p v : Text)
      → AreListed (
          end_samples end (
            (codes "cluster", cfg.cluster)
            ∷ (codes "reservation", r)
            ∷ (codes "partition", p)
            ∷ (codes "state", v)
            ∷ []))
  unfolding end_samples sample lookup text_eq is_line merge insert
  end_samples-AreListed none r p v = tt
  end_samples-AreListed (some t) r p v = ((refl, refl), tt)

  pub reservation_line-AreListed :
      (formats : Formats) (line : Text) → AreListed (reservation_line formats cfg line)
  unfolding reservation_line sample lookup text_eq is_line merge insert
  reservation_line-AreListed formats line =
      All-if (IsListed cfg) (text_eq (value_at (codes "ReservationName") (key_values line)) []) [] _
        tt ((refl, refl), ((refl, refl), ((refl, refl), end_samples-AreListed _ _ _ _)))

  pub license_line-AreListed : (line : Text) → AreListed (license_line cfg line)
  unfolding license_line sample lookup text_eq is_line merge insert
  license_line-AreListed line =
      All-if (IsListed cfg) (text_eq (license_name (key_values line)) []) [] _ tt
        ((refl, refl), ((refl, refl), ((refl, refl), ((refl, refl), tt))))

  pub limit_row-AreListed : (r : List Text) → AreListed (limit_row r)
  unfolding limit_row sample lookup text_eq is_line merge insert
  limit_row-AreListed r =
      All-if (IsListed cfg) (ltb (length r) 5 || text_eq (clean (cell r 1)) []) [] _ tt
        ((refl, refl), ((refl, refl), ((refl, refl), ((refl, refl), tt))))

  start_samples-AreListed :
      (start : Option Time) (a b c d e f : Text)
      → AreListed (
          start_samples start (
            (codes "cluster", cfg.cluster)
            ∷ (codes "job_id", a)
            ∷ (codes "job_name", b)
            ∷ (codes "user", c)
            ∷ (codes "partition", d)
            ∷ (codes "account", e)
            ∷ (codes "nodelist", f)
            ∷ []))
  unfolding start_samples sample lookup text_eq is_line merge insert
  start_samples-AreListed none a b c d e f = tt
  start_samples-AreListed (some t) a b c d e f = ((refl, refl), tt)

  wait_samples-AreListed :
      (start submit : Option Time) (a b c d e f : Text)
      → AreListed (
          wait_samples start submit (
            (codes "cluster", cfg.cluster)
            ∷ (codes "job_id", a)
            ∷ (codes "job_name", b)
            ∷ (codes "user", c)
            ∷ (codes "partition", d)
            ∷ (codes "account", e)
            ∷ (codes "nodelist", f)
            ∷ []))
  unfolding wait_samples sample lookup text_eq is_line merge insert
  wait_samples-AreListed (some t) (some u) a b c d e f = ((refl, refl), tt)
  wait_samples-AreListed _ _ a b c d e f = tt

  pub running_job-AreListed :
      (formats : Formats) (r : List Text) → AreListed (running_job formats cfg r)
  unfolding running_job sample lookup text_eq is_line merge insert
  running_job-AreListed formats r =
      All-if (IsListed cfg)
        (ltb (length r) 17 || not (text_eq (base_state (cell r 0)) (codes "RUNNING"))) [] _ tt
        (
          (refl, refl),
          (
            (refl, refl),
            (
              (refl, refl),
              (
                (refl, refl),
                (
                  (refl, refl),
                  (
                    (refl, refl),
                    All-append (IsListed cfg) _ _ (start_samples-AreListed _ _ _ _ _ _ _)
                        (wait_samples-AreListed _ _ _ _ _ _ _ _),
                  ),
                ),
              ),
            ),
          ),
        )
