-- ===== src/Server/Jobs.antt =====
-- The handler of `/api/v1/jobs` in cmd/slurm-insights-exporter/main.go.
use slurm_insights_exporter.Prelude.{
  ℕ, zero, suc, ◌+◌, ◌≡◌, ◌≤◌, ◌<◌, refl, ◌∙◌, true, false, Bool-cases, inl, inr, List, [], ◌∷◌,
  ◌++◌, Option, none, some, Text, length, length-append, take, filter, append_assoc, append-nil,
  leb, ℤ, pos, negsuc, arith, sym,
}
use slurm_insights_exporter.Model.{Snapshot, JobRecord}
use slurm_insights_exporter.Strings.{to_upper}
use slurm_insights_exporter.Server.{limit_of, is_wanted, select_jobs, jobs_handler}

limit_of-bounds : (parsed : Option ℤ) → (0 < limit_of parsed) × (limit_of parsed ≤ 10_000)
unfolding limit_of
limit_of-bounds none = ground arith
limit_of-bounds (some (pos n)) = ground arith
limit_of-bounds (some (negsuc n)) = ground arith

module _ {F : Type 0} (state account : Text) where
  select_skip :
      (limit : ℕ) (j : JobRecord F) (js jobs : List (JobRecord F))
      → is_wanted state account j ≡ false
      → select_jobs state account limit (j ∷ js) jobs ≡ select_jobs state account limit js jobs
  unfolding select_jobs
  select_skip limit j js jobs other = rw other refl

  select_last :
      (limit : ℕ) (j : JobRecord F) (js jobs : List (JobRecord F))
      → is_wanted state account j ≡ true
      → leb limit (length (jobs ++ j ∷ [])) ≡ true
      → select_jobs state account limit (j ∷ js) jobs ≡ jobs ++ j ∷ []
  unfolding select_jobs
  select_last limit j js jobs wanted full = rw (wanted, full) refl

  select_more :
      (limit : ℕ) (j : JobRecord F) (js jobs : List (JobRecord F))
      → is_wanted state account j ≡ true
      → leb limit (length (jobs ++ j ∷ [])) ≡ false
      → select_jobs state account limit (j ∷ js) jobs
        ≡ select_jobs state account limit js (jobs ++ j ∷ [])
  unfolding select_jobs
  select_more limit j js jobs wanted room = rw (wanted, room) refl

  -- Below the limit, the loop adds the first wanted jobs up to it.
  select_jobs_from :
      (limit room : ℕ) (js jobs : List (JobRecord F))
      → limit ≡ length jobs + suc room
      → select_jobs state account limit js jobs
        ≡ jobs ++ take (suc room) (filter (is_wanted state account) js)
  select_jobs_from limit room [] jobs e = unfold select_jobs in sym (append-nil jobs)
  select_jobs_from limit zero (j ∷ js) jobs e =
      let n = length-append jobs (j ∷ []) in
      elim (Bool-cases (is_wanted state account j)) [
        | inr other ↦
            rw (select_skip limit j js jobs other, other) (select_jobs_from limit zero js jobs e)
        | inl wanted ↦ rw (select_last limit j js jobs wanted (ground (arith, e, n)), wanted) refl
      ]
  select_jobs_from limit (suc r) (j ∷ js) jobs e =
      let n = length-append jobs (j ∷ []) in
      elim (Bool-cases (is_wanted state account j)) [
        | inr other ↦
            rw (select_skip limit j js jobs other, other) (select_jobs_from limit (suc r) js jobs e)
        | inl wanted ↦
            rw (select_more limit j js jobs wanted (ground (arith, e, n)), wanted)
              (select_jobs_from limit r js (jobs ++ j ∷ []) (omega (arith, e, n))
                ∙ append_assoc jobs (j ∷ []) _)
      ]

  -- The loop returns the first `limit` jobs of those that are wanted, in their order.
  select_jobs_lem :
      (limit : ℕ) (js : List (JobRecord F))
      → 0 < limit
      → select_jobs state account limit js [] ≡ take limit (filter (is_wanted state account) js)
  select_jobs_lem zero js h = absurd (omega (arith, h))
  select_jobs_lem (suc room) js h = select_jobs_from (suc room) room js [] (omega arith)

-- `/api/v1/jobs` answers with the first jobs of the snapshot that have the wanted state and
-- account, in their order, as many as the limit of the request allows, and with their number; the
-- limit lies between 1 and 10000 whatever the request says, and the errors are the snapshot's.
pub jobs_handler_lem :
    {F : Type 0} (atoi : Text → Option ℤ) (limit state account : Text) (snap : Snapshot F)
    → let reply = jobs_handler atoi limit state account snap in
      let most = limit_of (atoi limit) in
      (reply.jobs ≡ take most (filter (is_wanted (to_upper state) account) snap.jobs))
      × (reply.count ≡ length reply.jobs)
      × (0 < most)
      × (most ≤ 10_000)
      × (reply.errors ≡ snap.errors)
unfolding jobs_handler
jobs_handler_lem atoi limit state account snap =
    let bounds = limit_of-bounds (atoi limit) in
    (
      select_jobs_lem (to_upper state) account (limit_of (atoi limit)) snap.jobs bounds.0,
      refl,
      bounds.0,
      bounds.1,
      refl,
    )
