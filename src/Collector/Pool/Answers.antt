-- ===== src/Collector/Pool/Answers.antt =====
-- What each goroutine of `Collect` in internal/slurm/collector.go answers, whatever the others do.
use slurm_insights_exporter.Prelude.{
  ℕ, ◌≡◌, ◌≢◌, refl, sym, ap, subst, true, false, List, [], ◌∷◌, map, Option, some, Text, Dict,
  lookup, insert, lookup-insert, text_eq_iff, All, All-imp, arith,
}
use slurm_insights_exporter.Float.{Float}
use slurm_insights_exporter.Model.{Time}
use slurm_insights_exporter.Collector.{Config, Outcome, SlowResult, last_outcome, report}
use slurm_insights_exporter.Collector.Pool.{
  Task, Phase, waiting, started, loaded, ran, answered, sent, Thread, Shared, Pool, Move, begins,
  runs_fast, reads, reuses, runs, serves, stores, sends, Picks, here, there, Run, stay, next,
  pool_of, thread_of, recent_at, keeps_old,
}

-- What a call of a collector may answer, by the entry that it finds, and the entry that it leaves:
-- a fast one runs; a slow one answers from an entry that is recent, or else runs and, if it fails
-- beside an entry, answers with the entry's data and the error, and otherwise stores what it got.
pub data Answer {F W : Type 0} (now : W → Time) (cfg : Config) (k : Task F W)
    (old : Option (SlowResult F)) : Outcome F → Option (SlowResult F) → Type 0 where
  fast : (env : W) → k.is_slow ≡ false → Answer now cfg k old (k.fn env).0 old
  reused :
      (env : W)
      → k.is_slow ≡ true
      → recent_at now cfg env old ≡ true
      → Answer now cfg k old (last_outcome old) old
  served :
      (env : W)
      → k.is_slow ≡ true
      → recent_at now cfg env old ≡ false
      → keeps_old old (k.fn env).0 ≡ true
      → Answer now cfg k old (record (last_outcome old) { err = (k.fn env).0.err }) old
  refreshed :
      (env later : W)
      → k.is_slow ≡ true
      → recent_at now cfg env old ≡ false
      → keeps_old old (k.fn env).0 ≡ false
      → Answer now cfg k old (k.fn env).0 (some (record { at = now later; outcome = (k.fn env).0 }))

module _ {F W : Type 0} where
  abbrev pub names : List (Thread F W) → List Text
  names [] = []
  names (t ∷ ts) = t.task.name ∷ names ts

  abbrev pub task_names : List (Task F W) → List Text
  task_names [] = []
  task_names (k ∷ ks) = k.name ∷ task_names ks

-- No text stands in a list twice.
abbrev pub Distinct : List Text → Type 0
Distinct [] = Unit
Distinct (n ∷ ns) = All (λ m. n ≢ m) ns × Distinct ns

module _ {F W : Type 0} ⦃fl : Float F⦄ (now : W → Time) (cfg : Config) where
  -- What is known of a goroutine, by the entry `old` that the collection found and the entry `cur`.
  abbrev IsAt : Option (SlowResult F) → Option (SlowResult F) → Task F W → Phase F → Type 0
  IsAt old cur k waiting = cur ≡ old
  IsAt old cur k (started t) = cur ≡ old
  IsAt old cur k (loaded t found) = (cur ≡ old) × (found ≡ old) × (k.is_slow ≡ true)
  IsAt old cur k (ran t found o) =
      (cur ≡ old)
      × (found ≡ old)
      × (k.is_slow ≡ true)
      × ((env : W) × (recent_at now cfg env old ≡ false) × (o ≡ (k.fn env).0))
  IsAt old cur k (answered t o) = Answer now cfg k old o cur
  IsAt old cur k (sent r) =
      (began ended : Time) × (o : Outcome F) × (r ≡ report k.name began ended o)
      × Answer now cfg k old o cur

  lookup-insert_self :
      (k : Text) (v : SlowResult F) (m : Dict (SlowResult F)) → lookup k (insert k v m) ≡ some v
  lookup-insert_self k v m = ground (arith, lookup-insert k k v m, (text_eq_iff k k).1 refl)

  Move-IsAt :
      {k : Task F W} {s s' : Shared F} {p q : Phase F} (old : Option (SlowResult F))
      → Move now cfg k s p q s'
      → IsAt old (lookup k.name s.slow_data) k p
      → IsAt old (lookup k.name s'.slow_data) k q
  Move-IsAt old (begins env) h = h
  Move-IsAt old (runs_fast env e) h = rw h (fast env e)
  Move-IsAt old (reads e) h = (h, h, e)
  Move-IsAt old (reuses env e) (cur, found, slow) =
      rw (cur, found) (reused env slow (rw found at e))
  Move-IsAt old (runs env e) (cur, found, slow) = (cur, found, slow, (env, rw found at e, refl))
  Move-IsAt old (serves e) (cur, found, slow, (env, stale, result)) =
      rw (cur, found, result) (served env slow stale (rw (found, result) at e))
  Move-IsAt {k} {s} old (stores later {o = o} e) (cur, found, slow, (env, stale, result)) =
      rw (lookup-insert_self k.name (record { at = now later; outcome = o }) s.slow_data, result)
        (refreshed env later slow stale (rw (found, result) at e))
  Move-IsAt old (sends env {t = t} {o = o}) h = (t, now env, o, refl, h)

  -- A step of a goroutine leaves the entries of other names alone.
  Move-frame :
      {k : Task F W} {s s' : Shared F} {p q : Phase F} (j : Text)
      → Move now cfg k s p q s'
      → j ≢ k.name
      → lookup j s'.slow_data ≡ lookup j s.slow_data
  Move-frame j (begins env) n = refl
  Move-frame j (runs_fast env e) n = refl
  Move-frame j (reads e) n = refl
  Move-frame j (reuses env e) n = refl
  Move-frame j (runs env e) n = refl
  Move-frame j (serves e) n = refl
  Move-frame {k} {s} j (stores later {o = o} e) n = ground (
    arith,
    lookup-insert k.name j (record { at = now later; outcome = o }) s.slow_data,
    text_eq_iff k.name j,
  )
  Move-frame j (sends env) n = refl

  Picks-frame :
      {s s' : Shared F} {ts us : List (Thread F W)} (j : Text)
      → Picks now cfg s ts us s'
      → All (λ n. j ≢ n) (names ts)
      → lookup j s'.slow_data ≡ lookup j s.slow_data
  Picks-frame j (here mv) h = Move-frame j mv h.0
  Picks-frame j (there st) h = Picks-frame j st h.1

  names-Picks :
      {s s' : Shared F} {ts us : List (Thread F W)} → Picks now cfg s ts us s' → names us ≡ names ts
  names-Picks (here mv) = refl
  names-Picks (there {t = t} st) = ap (◌∷◌ t.task.name) (names-Picks st)

  abbrev IsAtIn : Dict (SlowResult F) → Dict (SlowResult F) → Thread F W → Type 0
  IsAtIn m cur t = IsAt (lookup t.task.name m) (lookup t.task.name cur) t.task t.phase

  IsAtIn-frame :
      (m cur new : Dict (SlowResult F)) (t : Thread F W)
      → lookup t.task.name new ≡ lookup t.task.name cur
      → IsAtIn m cur t
      → IsAtIn m new t
  IsAtIn-frame m cur new t e h =
      subst (λ (o : Option (SlowResult F)). IsAt (lookup t.task.name m) o t.task t.phase) (sym e) h

  -- Goroutines of other names than the one that moves.
  others-IsAtIn :
      {k : Task F W} {s s' : Shared F} {p q : Phase F} (m : Dict (SlowResult F))
      (ts : List (Thread F W))
      → Move now cfg k s p q s'
      → All (λ n. k.name ≢ n) (names ts)
      → All (IsAtIn m s.slow_data) ts
      → All (IsAtIn m s'.slow_data) ts
  others-IsAtIn m [] mv d h = tt
  others-IsAtIn {s = s} {s' = s'} m (t ∷ ts) mv d h = (
    IsAtIn-frame m s.slow_data s'.slow_data t (Move-frame t.task.name mv (λ e. d.0 (sym e))) h.0,
    others-IsAtIn m ts mv d.1 h.1,
  )

  Picks-IsAtIn :
      {s s' : Shared F} {ts us : List (Thread F W)} (m : Dict (SlowResult F))
      → Picks now cfg s ts us s'
      → Distinct (names ts)
      → All (IsAtIn m s.slow_data) ts
      → All (IsAtIn m s'.slow_data) us
  Picks-IsAtIn m (here {k = k} {ts = ts} mv) d h =
      (Move-IsAt (lookup k.name m) mv h.0, others-IsAtIn m ts mv d.0 h.1)
  Picks-IsAtIn {s} {s'} m (there {t = t} st) d h = (
    IsAtIn-frame m s.slow_data s'.slow_data t (Picks-frame t.task.name st d.0) h.0,
    Picks-IsAtIn m st d.1 h.1,
  )

  Run-IsAtIn :
      {n : ℕ} {p q : Pool F W} (m : Dict (SlowResult F))
      → Run now cfg n p q
      → Distinct (names p.threads)
      → All (IsAtIn m p.shared.slow_data) p.threads
      → All (IsAtIn m q.shared.slow_data) q.threads
  Run-IsAtIn m stay d h = h
  Run-IsAtIn m (next st r) d h =
      Run-IsAtIn m r (subst Distinct (sym (names-Picks st)) d) (Picks-IsAtIn m st d h)

  -- What a goroutine that has sent its result has sent, by the entries that the collection found
  -- and those that there are now.
  abbrev pub IsReplyAt : Option (SlowResult F) → Option (SlowResult F) → Task F W → Phase F → Type 0
  IsReplyAt old cur k (sent r) =
      (began ended : Time) × (o : Outcome F) × (r ≡ report k.name began ended o)
      × Answer now cfg k old o cur
  IsReplyAt old cur k _ = Unit

  abbrev pub IsReply : Dict (SlowResult F) → Dict (SlowResult F) → Thread F W → Type 0
  IsReply m cur t = IsReplyAt (lookup t.task.name m) (lookup t.task.name cur) t.task t.phase

  IsAt-IsReplyAt :
      (old cur : Option (SlowResult F)) (k : Task F W) (p : Phase F)
      → IsAt old cur k p
      → IsReplyAt old cur k p
  IsAt-IsReplyAt old cur k waiting h = tt
  IsAt-IsReplyAt old cur k (started t) h = tt
  IsAt-IsReplyAt old cur k (loaded t found) h = tt
  IsAt-IsReplyAt old cur k (ran t found o) h = tt
  IsAt-IsReplyAt old cur k (answered t o) h = tt
  IsAt-IsReplyAt old cur k (sent r) h = h

  start-IsAtIn :
      (m : Dict (SlowResult F)) (ks : List (Task F W)) → All (IsAtIn m m) (map thread_of ks)
  start-IsAtIn m [] = tt
  start-IsAtIn m (k ∷ ks) = (refl, start-IsAtIn m ks)

  names_start : (ks : List (Task F W)) → names (map thread_of ks) ≡ task_names ks
  names_start [] = refl
  names_start (k ∷ ks) = ap (◌∷◌ k.name) (names_start ks)

  -- Whatever steps the goroutines of a collection take in whatever order, and however the world
  -- moves between them, a goroutine that has sent its result has sent a report of what a call of
  -- its collector alone may answer from the entry that the collection found, and the entry is now
  -- the one that such a call leaves, if the collectors have different names.
  pub collection_answers :
      (ks : List (Task F W)) (m : Dict (SlowResult F)) {n : ℕ} {q : Pool F W}
      → Distinct (task_names ks)
      → Run now cfg n (pool_of ks m) q
      → All (IsReply m q.shared.slow_data) q.threads
  collection_answers ks m {q = q} d r =
      All-imp (IsReply m q.shared.slow_data) q.threads (λ t h. IsAt-IsReplyAt _ _ t.task t.phase h)
        (Run-IsAtIn m r (subst Distinct (sym (names_start ks)) d) (start-IsAtIn m ks))
