-- ===== src/Collector/Pool/Ends.antt =====
-- That the goroutines of `Collect` in internal/slurm/collector.go come to an end.
use slurm_insights_exporter.Prelude.{
  ℕ, zero, suc, ◌+◌, ◌≤◌, ◌≡◌, ◌⊎◌, inl, inr, refl, true, Bool-cases, List, [], ◌∷◌, All, arith,
}
use slurm_insights_exporter.Float.{Float}
use slurm_insights_exporter.Model.{Time}
use slurm_insights_exporter.Collector.{Config}
use slurm_insights_exporter.Collector.Pool.{
  Task, Phase, waiting, started, loaded, ran, answered, sent, Thread, Shared, Pool, Move, begins,
  runs_fast, reads, reuses, runs, serves, stores, sends, Picks, here, there, Run, stay, next,
  is_sent, recent_at, keeps_old,
}

-- The steps that a goroutine has before it at most.
abbrev weight : {F : Type 0} → Phase F → ℕ
weight waiting = 5
weight (started t) = 4
weight (loaded t old) = 3
weight (ran t old o) = 2
weight (answered t o) = 1
weight (sent o) = 0

abbrev pub work : {F W : Type 0} → List (Thread F W) → ℕ
work [] = 0
work (t ∷ ts) = weight t.phase + work ts

abbrev pub IsSent : {F W : Type 0} → Thread F W → Type 0
IsSent t = is_sent t.phase ≡ true

module _ {F W : Type 0} ⦃fl : Float F⦄ (now : W → Time) (cfg : Config) where
  Move-weight :
      {k : Task F W} {s s' : Shared F} {p q : Phase F}
      → Move now cfg k s p q s'
      → weight q + 1 ≤ weight p
  Move-weight (begins env) = omega arith
  Move-weight (runs_fast env h) = omega arith
  Move-weight (reads h) = omega arith
  Move-weight (reuses env h) = omega arith
  Move-weight (runs env h) = omega arith
  Move-weight (serves h) = omega arith
  Move-weight (stores env h) = omega arith
  Move-weight (sends env) = omega arith

  Picks-work :
      {s s' : Shared F} {ts us : List (Thread F W)}
      → Picks now cfg s ts us s'
      → work us + 1 ≤ work ts
  Picks-work (here mv) = omega (arith, Move-weight mv)
  Picks-work (there r) = omega (arith, Picks-work r)

  -- What a goroutine can do next.
  abbrev CanMove : Task F W → Shared F → Phase F → Type 0
  CanMove k s p = (q : Phase F) × (s' : Shared F) × Move now cfg k s p q s'

  next_move :
      (env : W) (k : Task F W) (s : Shared F) (p : Phase F) → (is_sent p ≡ true) ⊎ CanMove k s p
  next_move env k s waiting = inr (_, _, begins env)
  next_move env k s (started t) = elim (Bool-cases k.is_slow) [
    | inl slow ↦ inr (_, _, reads slow)
    | inr fast ↦ inr (_, _, runs_fast env fast)
  ]
  next_move env k s (loaded t old) = elim (Bool-cases (recent_at now cfg env old)) [
    | inl recent ↦ inr (_, _, reuses env recent)
    | inr stale ↦ inr (_, _, runs env stale)
  ]
  next_move env k s (ran t old o) = elim (Bool-cases (keeps_old old o)) [
    | inl keeps ↦ inr (_, _, serves keeps)
    | inr new ↦ inr (_, _, stores env new)
  ]
  next_move env k s (answered t o) = inr (_, _, sends env)
  next_move env k s (sent o) = inl refl

  abbrev pub CanGoOn : Pool F W → Type 0
  CanGoOn p = (us : List (Thread F W)) × (s' : Shared F) × Picks now cfg p.shared p.threads us s'

  next_pick :
      (env : W) (s : Shared F) (ts : List (Thread F W))
      → All IsSent ts ⊎ CanGoOn (record { threads = ts; shared = s })
  next_pick env s [] = inl tt
  next_pick env s (t ∷ ts) = elim (next_move env t.task s t.phase) [
    | inr (q, s', mv) ↦ inr (_, _, here mv)
    | inl done ↦ elim (next_pick env s ts) [
      | inl all_done ↦ inl (done, all_done)
      | inr (us, s', st) ↦ inr (_, _, there st)
    ]
  ]

  -- A run that goes on to its end, with the first goroutine that can move at every step.
  pub finish :
      (env : W) (fuel : ℕ) (p : Pool F W)
      → work p.threads ≤ fuel
      → (n : ℕ) × (q : Pool F W) × Run now cfg n p q × All IsSent q.threads
  finish env zero p h = elim (next_pick env p.shared p.threads) [
    | inl done ↦ (0, p, stay, done)
    | inr (us, s', st) ↦ absurd (omega (arith, Picks-work st))
  ]
  finish env (suc fuel) p h = elim (next_pick env p.shared p.threads) [
    | inl done ↦ (0, p, stay, done)
    | inr (us, s', st) ↦
        let (n, q, r, done) =
          finish env fuel (record { threads = us; shared = s' }) (omega (arith, Picks-work st)) in
        (suc n, q, next st r, done)
  ]
