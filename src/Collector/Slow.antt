-- ===== src/Collector/Slow.antt =====
-- The slow tier of internal/slurm/collector.go.
use slurm_insights_exporter.Prelude.{
  ◌≡◌, ◌≢◌, refl, sym, ◌∙◌, ap, subst, pos, negsuc, true, false, Bool-cases, Option, none, some,
  inl, inr, Text, arith, lookup, lookup-insert, text_eq, text_eq_iff, text_eq_refl, if◌then◌else◌,
  ltb_ℤ, ◌≤◌,
}
use slurm_insights_exporter.Model.{Time}
use slurm_insights_exporter.Clock.{Duration, time_sub}
use slurm_insights_exporter.Collector.{
  Config, Outcome, SlowResult, World, fast, store, settle, is_recent, last_outcome, slow,
}

time_sub_mono :
    (a b c : Time) (d : Duration)
    → c ≤ a
    → a ≤ b
    → ltb_ℤ (time_sub a c) d ≡ false
    → ltb_ℤ (time_sub b c) d ≡ false
unfolding time_sub
time_sub_mono a b c (pos d) h k e = ground arith
time_sub_mono a b c (negsuc d) h k e = ground arith

module _ {F W : Type 0} (now : W → Time) where
  store-answer : (name : Text) (o : Outcome F) (w : World F W) → (store now name o w).0 ≡ o
  unfolding store
  store-answer name o w = refl

  settle-env :
      (name : Text) (old : Option (SlowResult F)) (err : Option Text) (o : Outcome F)
      (w : World F W)
      → (settle now name old err o w).1.env ≡ w.env
  unfolding settle store
  settle-env name (some old) (some e) o w = refl
  settle-env name (some old) none o w = refl
  settle-env name none err o w = refl

  lookup-store :
      (name k : Text) (o : Outcome F) (w : World F W)
      → lookup k (store now name o w).1.slow_data ≡ (
          if text_eq name k
          then some (record { at = now w.env; outcome = o })
          else lookup k w.slow_data)
  unfolding store
  lookup-store name k o w = lookup-insert name k _ w.slow_data

  pub lookup-store_self :
      (name : Text) (o : Outcome F) (w : World F W)
      → lookup name (store now name o w).1.slow_data ≡ some (record { at = now w.env; outcome = o })
  lookup-store_self name o w = rw (lookup-store, text_eq_refl name)

  lookup-settle_ne :
      (name k : Text) (old : Option (SlowResult F)) (err : Option Text) (o : Outcome F)
      (w : World F W)
      → k ≢ name
      → lookup k (settle now name old err o w).1.slow_data ≡ lookup k w.slow_data
  unfolding settle
  lookup-settle_ne name k (some old) (some e) o w h = refl
  lookup-settle_ne name k (some old) none o w h =
      lookup-store name k o w ∙ ground (arith, text_eq_iff name k)
  lookup-settle_ne name k none err o w h =
      lookup-store name k o w ∙ ground (arith, text_eq_iff name k)

  -- A usable entry: the answer's samples and jobs are those of an entry with no error.
  abbrev pub IsServed : Text → Outcome F × World F W → Type 0
  IsServed name (o, w) =
      (entry : SlowResult F) × (lookup name w.slow_data ≡ some entry)
      × (entry.outcome.err ≡ none)
      × (o.samples ≡ entry.outcome.samples)
      × (o.jobs ≡ entry.outcome.jobs)

  settle-IsServed :
      (name : Text) (old : SlowResult F) (err : Option Text) (o : Outcome F) (w : World F W)
      → o.err ≡ err
      → lookup name w.slow_data ≡ some old
      → old.outcome.err ≡ none
      → IsServed name (settle now name (some old) err o w)
  unfolding settle
  settle-IsServed name old (some e) o w oe l g = (old, l, g, refl, refl)
  settle-IsServed name old none o w oe l g =
      unfold store in
      (record { at = now w.env; outcome = o }, lookup-store_self name o w, oe, refl, refl)

module _ {F W : Type 0} (now : W → Time) (cfg : Config) (name : Text) (fn : W → Outcome F × W) where
  abbrev pub entry_of : World F W → Option (SlowResult F)
  entry_of w = lookup name w.slow_data

  pub slow_recent :
      (w : World F W)
      → is_recent now cfg.slow_refresh (entry_of w) w ≡ true
      → slow now cfg name fn w ≡ (last_outcome (entry_of w), w)
  unfolding slow
  slow_recent w h = rw h

  pub slow_old :
      (w : World F W)
      → is_recent now cfg.slow_refresh (entry_of w) w ≡ false
      → slow now cfg name fn w
        ≡ settle now name (entry_of w) (fast fn w).0.err (fast fn w).0 (fast fn w).1
  unfolding slow
  slow_old w h = rw h

  pub slow_data-fast : (w : World F W) → (fast fn w).1.slow_data ≡ w.slow_data
  unfolding fast
  slow_data-fast w = refl

  -- A call for one collector leaves the entries of the others alone.
  pub lookup-slow_ne :
      (w : World F W) (k : Text)
      → k ≢ name
      → lookup k (slow now cfg name fn w).1.slow_data ≡ lookup k w.slow_data
  lookup-slow_ne w k h = elim (Bool-cases (is_recent now cfg.slow_refresh (entry_of w) w)) [
    | inl recent ↦ rw (slow_recent w recent)
    | inr old ↦ rw (slow_old w old) (
        lookup-settle_ne now name k (entry_of w) _ _ (fast fn w).1 h
        ∙ ap (lookup k) (slow_data-fast w))
  ]

  -- Once a collector has succeeded its entry is never again one with an error: a call returns the
  -- samples and jobs of the entry that it leaves, whether it answers from the entry, refreshes it,
  -- or fails to refresh it.
  pub slow-IsServed :
      (w : World F W) (good : SlowResult F)
      → lookup name w.slow_data ≡ some good
      → good.outcome.err ≡ none
      → IsServed now name (slow now cfg name fn w)
  slow-IsServed w good l g = elim (Bool-cases (is_recent now cfg.slow_refresh (entry_of w) w)) [
    | inl recent ↦ rw (slow_recent w recent) (
      good,
      l,
      g,
      ap (λ (o : Option (SlowResult F)). (last_outcome o).samples) l,
      ap (λ (o : Option (SlowResult F)). (last_outcome o).jobs) l,
    )
    | inr old ↦
        let (o, w') = fast fn w in
        let kept : lookup name w'.slow_data ≡ some good = ap (lookup name) (slow_data-fast w) ∙ l in
        rw (slow_old w old) (
          subst (λ e. IsServed now name (settle now name e o.err o w')) (sym l)
            (settle-IsServed now name good o.err o w' refl kept g))
  ]

  slow-env :
      (w : World F W)
      → is_recent now cfg.slow_refresh (entry_of w) w ≡ false
      → (slow now cfg name fn w).1.env ≡ (fn w.env).1
  slow-env w old =
      rw (slow_old w old) (settle-env now name (entry_of w) _ _ _ ∙ unfold fast in refl)

  slow_fails :
      (w : World F W) (old : SlowResult F) (e : Text)
      → lookup name w.slow_data ≡ some old
      → is_recent now cfg.slow_refresh (some old) w ≡ false
      → (fn w.env).0.err ≡ some e
      → slow now cfg name fn w
        ≡ (record old.outcome { err = some e }, record w { env = (fn w.env).1 })
  unfolding settle fast
  slow_fails w old e l stale failed =
      slow_old w (ap (λ (o : Option (SlowResult F)). is_recent now cfg.slow_refresh o w) l ∙ stale)
      ∙ rw (l, failed)

  slow_fails_first :
      (w : World F W) (e : Text)
      → lookup name w.slow_data ≡ none
      → (fn w.env).0.err ≡ some e
      → slow now cfg name fn w ≡ store now name (fn w.env).0 (record w { env = (fn w.env).1 })
  unfolding settle fast
  slow_fails_first w e l failed =
      slow_old w (ap (λ (o : Option (SlowResult F)). is_recent now cfg.slow_refresh o w) l)
      ∙ rw (l, failed)

  -- A refresh that fails beside an older entry reports the new error with the entry's data and
  -- leaves the entry, so the next call, unless the clock goes back, runs the collector again.
  pub slow_retries :
      (w : World F W) (old : SlowResult F) (e : Text) (later : W)
      → lookup name w.slow_data ≡ some old
      → is_recent now cfg.slow_refresh (some old) w ≡ false
      → (fn w.env).0.err ≡ some e
      → now w.env ≤ now later
      → old.at ≤ now w.env
      → let (o, w') = slow now cfg name fn w in
        let (again, w'') = slow now cfg name fn (record w' { env = later }) in
        (o ≡ record old.outcome { err = some e })
        × (w'.slow_data ≡ w.slow_data)
        × (w''.env ≡ (fn later).1)
  slow_retries w old e later l stale failed mono past =
      let w2 : World F W = record { env = later; slow_data = w.slow_data } in
      let waits : is_recent now cfg.slow_refresh (entry_of w2) w2 ≡ false =
        ap (λ (o : Option (SlowResult F)). is_recent now cfg.slow_refresh o w2) l
        ∙ time_sub_mono (now w.env) (now later) old.at cfg.slow_refresh past mono stale in
      rw (slow_fails w old e l stale failed) (refl, refl, slow-env w2 waits)

  -- A first refresh that fails is stored: until the slow interval has passed every call answers
  -- with the stored error and does not run the collector.
  pub slow_first_failure :
      (w : World F W) (e : Text) (later : W)
      → lookup name w.slow_data ≡ none
      → (fn w.env).0.err ≡ some e
      → ltb_ℤ (time_sub (now later) (now (fn w.env).1)) cfg.slow_refresh ≡ true
      → let (o, w') = slow now cfg name fn w in
        let (again, w'') = slow now cfg name fn (record w' { env = later }) in
        (o.err ≡ some e) × (again ≡ o) × (w'' ≡ record w' { env = later })
  slow_first_failure w e later l failed soon =
      let w1 : World F W = record w { env = (fn w.env).1 } in
      let o = (fn w.env).0 in
      let w2 : World F W = record (store now name o w1).1 { env = later } in
      let found = lookup-store_self now name o w1 in
      let recent : is_recent now cfg.slow_refresh (entry_of w2) w2 ≡ true =
        ap (λ (x : Option (SlowResult F)). is_recent now cfg.slow_refresh x w2) found ∙ soon in
      rw (slow_fails_first w e l failed, slow_recent w2 recent)
        (unfold store in failed, ap last_outcome found ∙ sym (store-answer now name o w1), refl)
