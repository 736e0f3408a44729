-- ===== src/Collector/Accounting/Jobs.antt =====
-- The job records of the collector `accounting`.
use slurm_insights_exporter.Prelude.{
  ◌≡◌, refl, ◌∙◌, ap, Bool, false, Bool-cases, inl, inr, ◌&&◌, List, [], ◌∷◌, ◌++◌, map,
  append_assoc, append-nil, none, Text, Dict, length, ltb, leb, lookup, insert, lookup-insert,
  text_eq, text_eq_iff, filter, if◌then◌else◌, All, arith,
}
use slurm_insights_exporter.Float.{Float, num, IsIrreflexive}
use slurm_insights_exporter.Model.{JobRecord}
use slurm_insights_exporter.Clock.{Formats}
use slurm_insights_exporter.Strings.{before}
use slurm_insights_exporter.Parse.{lines, number, duration, parse_bytes}
use slurm_insights_exporter.Collector.{Config}
use slurm_insights_exporter.Collector.Shared.{cell}
use slurm_insights_exporter.Collector.Groups.{group, add_row, or_zero, lookup-group, entry_from}
use slurm_insights_exporter.Collector.Accounting.{
  Agg, zero_agg, is_step, is_job_row, accounting_key, accounting_step, rss_row, max_rss_of, job_of,
  with_user, with_ratios, with_usage, basic_job, accounting_loop, read_accounting,
}

module _ {F : Type 0} ⦃fl : Float F⦄ (formats : Formats) (cfg : Config) where
  accounting_loop_lem :
      (rss : Dict F) (rows : List (List Text)) (m : Dict (Agg F)) (jobs : List (JobRecord F))
      → accounting_loop formats cfg rss rows m jobs ≡ (
        group accounting_key (accounting_step formats cfg rss) zero_agg (filter is_job_row rows) m,
        jobs ++ map (job_of formats cfg rss) (filter is_job_row rows),
      )
  unfolding accounting_loop
  accounting_loop_lem rss [] m jobs = unfold group in rw append-nil
  accounting_loop_lem rss (r ∷ rows) m jobs = elim (Bool-cases (ltb (length r) 11)) [
    | inl short ↦ rw short (accounting_loop_lem rss rows m jobs)
    | inr long ↦ elim (Bool-cases (is_step r)) [
      | inl step ↦ rw (long, step) (accounting_loop_lem rss rows m jobs)
      | inr job ↦
          let a =
            accounting_step formats cfg rss r (or_zero zero_agg (lookup (accounting_key r) m)) in
          rw (long, job)
            (accounting_loop_lem rss rows (insert (accounting_key r) a m)
                (jobs ++ job_of formats cfg rss r ∷ [])
              ∙ unfold group add_row in rw append_assoc refl)
    ]
  ]

  -- The jobs are one record for each row of at least eleven fields that is no step's, in order.
  pub read_accounting-jobs :
      (b : Text)
      → (read_accounting {F = F} formats cfg b).jobs
        ≡ map (job_of formats cfg (max_rss_of (lines b) [])) (filter is_job_row (lines b))
  unfolding read_accounting
  read_accounting-jobs b =
      ap (λ (x : Dict (Agg F) × List (JobRecord F)). x.1)
        (accounting_loop_lem (max_rss_of (lines b) []) (lines b) [] [])

  -- The aggregate of a key takes in, in their order, the job rows with that key, starting from
  -- zero, and no other row.
  pub lookup-accounting_loop :
      (rows : List (List Text)) (rss : Dict F) (k : Text)
      → lookup k (accounting_loop formats cfg rss rows [] []).0
        ≡ entry_from accounting_key
            (accounting_step formats cfg rss)
            zero_agg
            none
            (filter (λ r. text_eq (accounting_key r) k) (filter is_job_row rows))
  lookup-accounting_loop rows rss k =
      ap (λ (x : Dict (Agg F) × List (JobRecord F)). lookup k x.0)
        (accounting_loop_lem rss rows [] [])
      ∙ lookup-group accounting_key (accounting_step formats cfg rss) zero_agg k
          (filter is_job_row rows) []
      ∙ unfold lookup in refl

  user-with_user :
      (r : List Text) (j : JobRecord F)
      → cfg.include_users ≡ false
      → (with_user cfg r j).user ≡ j.user
  unfolding with_user
  user-with_user r j h = rw h

  user-job_of :
      (rss : Dict F) (r : List Text)
      → cfg.include_users ≡ false
      → (job_of formats cfg rss r).user ≡ []
  unfolding job_of with_ratios with_usage basic_job
  user-job_of rss r h = user-with_user r _ h ∙ ground arith

  map-users :
      (rss : Dict F) (rows : List (List Text))
      → cfg.include_users ≡ false
      → All (λ j. j.user ≡ []) (map (job_of formats cfg rss) rows)
  map-users rss [] h = tt
  map-users rss (r ∷ rows) h = (user-job_of rss r h, map-users rss rows h)

module _ (F : Type 0) ⦃fl : Float F⦄ (formats : Formats) (cfg : Config) where
  -- With user names switched off no job record has one, whatever `sacct` prints.
  pub read_accounting-users :
      (b : Text)
      → cfg.include_users ≡ false
      → All (λ j. j.user ≡ []) (read_accounting {F = F} formats cfg b).jobs
  read_accounting-users b h =
      rw (read_accounting-jobs formats cfg b)
        (map-users formats cfg (max_rss_of (lines b) []) (filter is_job_row (lines b)) h)

-- The rows of the steps of a job that have a MaxRSS field.
abbrev pub is_step_of : Text → List Text → Bool
is_step_of root r = leb 15 (length r) && is_step r && text_eq (before b'.' (cell r 1)) root

module _ {F : Type 0} ⦃fl : Float F⦄ where
  open fl use {mul, div, lt}

  -- The running maximum, by the comparison of the source.
  abbrev pub max_from : F → List (List Text) → F
  max_from v [] = v
  max_from v (r ∷ rs) = let x = parse_bytes (cell r 14) in max_from (if lt v x then x else v) rs

  abbrev found : Text → Dict F → F
  found root m = or_zero (num 0) (lookup root m)

  rss_row_lem :
      (root : Text) (m : Dict F) (r : List Text)
      → found root (rss_row m r) ≡ (
          let x = parse_bytes (cell r 14) in
          if is_step_of root r
          then (if lt (found root m) x then x else found root m)
          else found root m)
  unfolding rss_row
  rss_row_lem root m r =
      let id = before b'.' (cell r 1) in
      ground (arith, lookup-insert id root (parse_bytes (cell r 14)) m, text_eq_iff id root)

  max_rss_of_lem :
      (root : Text) (rows : List (List Text)) (m : Dict F)
      → found root (max_rss_of rows m) ≡ max_from (found root m) (filter (is_step_of root) rows)
  unfolding max_rss_of
  max_rss_of_lem root [] m = refl
  max_rss_of_lem root (r ∷ rows) m = elim (Bool-cases (is_step_of root r)) [
    | inl mine ↦ max_rss_of_lem root rows (rss_row m r) ∙ rw (rss_row_lem, mine) refl
    | inr other ↦ max_rss_of_lem root rows (rss_row m r) ∙ rw (rss_row_lem, other) refl
  ]

  -- What the first pass finds for a job is the largest MaxRSS of its own steps' rows, in the
  -- order of the rows, and zero if it has none.
  pub max_rss_of-eq-max :
      (root : Text) (rows : List (List Text))
      → or_zero (num 0) (lookup root (max_rss_of rows []))
        ≡ max_from (num 0) (filter (is_step_of root) rows)
  max_rss_of-eq-max root rows = max_rss_of_lem root rows [] ∙ unfold lookup in refl

  -- The ratios of a job: CPU seconds by allocated CPUs times elapsed seconds, and MaxRSS by
  -- requested memory; each is zero where its divisor is not above zero, if no number is below
  -- itself.
  pub job_of-ratios :
      (formats : Formats) (cfg : Config) (rss : Dict F) (r : List Text)
      → IsIrreflexive fl
      → let capacity : F = mul (number (cell r 7)) (number (cell r 8)) in
        let j = job_of formats cfg rss r in
        (j.cpu_efficiency_ratio
          ≡ (if lt (num 0) capacity then div (duration (cell r 10)) capacity else num 0))
        × (j.memory_efficiency_ratio ≡ (
            if lt (num 0) j.requested_memory_bytes
            then div j.max_rss_bytes j.requested_memory_bytes
            else num 0))
  unfolding job_of with_user with_ratios with_usage basic_job
  job_of-ratios formats cfg rss r irr = ground (arith, irr.irrefl (num 0))
