-- ===== src/Strings/Parts.antt =====
-- Splitting, cutting and joining at a separator.
use slurm_insights_exporter.Prelude.{
  ℕ, ◌≡◌, ◌≢◌, refl, List, [], ◌∷◌, ◌++◌, some, none, arith, Bool-cases, Option-cases, inl, inr,
  subst, ◌==◌, Text, Lacks, All, ap,
}
use slurm_insights_exporter.Strings.{split, join, push, cut, before}

pub split-ne-nil : (sep : ℕ) (s : Text) → split sep s ≢ []
unfolding split
split-ne-nil sep [] e = cc
split-ne-nil sep (c ∷ s) e = ground (arith, split-ne-nil sep s)

join-push : (sep c : ℕ) (ps : List Text) → ps ≢ [] → join sep (push c ps) ≡ c ∷ join sep ps
unfolding join
join-push sep c [] h = absurd (h refl)
join-push sep c (p ∷ []) h = refl
join-push sep c (p ∷ q ∷ ps) h = refl

join-nil : (sep : ℕ) (ps : List Text) → ps ≢ [] → join sep ([] ∷ ps) ≡ sep ∷ join sep ps
unfolding join
join-nil sep [] h = absurd (h refl)
join-nil sep (p ∷ ps) h = refl

-- The parts of a text, joined again, are the text.
pub join-split : (sep : ℕ) (s : Text) → join sep (split sep s) ≡ s
unfolding split
join-split sep [] = unfold join in refl
join-split sep (c ∷ s) = ground (
  arith,
  join-split sep s,
  join-push sep c (split sep s) (split-ne-nil sep s),
  join-nil sep (split sep s) (split-ne-nil sep s),
)

-- A part with no separator in it ends at the first separator.
pub split-append : (sep : ℕ) (p s : Text) → Lacks sep p → split sep (p ++ sep ∷ s) ≡ p ∷ split sep s
unfolding split
split-append sep [] s h = ground arith
split-append sep (c ∷ p) s h = ground (arith, split-append sep p s h.1)

pub split_self : (sep : ℕ) (p : Text) → Lacks sep p → split sep p ≡ p ∷ []
unfolding split
split_self sep [] h = refl
split_self sep (c ∷ p) h = ground (arith, split_self sep p h.1)

-- Parts that hold no separator are the parts of the joined text.
pub split-join :
    (sep : ℕ) (ps : List Text) → ps ≢ [] → All (Lacks sep) ps → split sep (join sep ps) ≡ ps
unfolding join
split-join sep [] h a = absurd (h refl)
split-join sep (p ∷ []) h a = split_self sep p a.0
split-join sep (p ∷ q ∷ ps) h a =
    rw (split-append sep p (join sep (q ∷ ps)) a.0)
      (ap (◌∷◌ p) (split-join sep (q ∷ ps) (λ e. cc) a.1))

pub cut-append : (sep : ℕ) (p s : Text) → Lacks sep p → cut sep (p ++ sep ∷ s) ≡ some (p, s)
unfolding cut
cut-append sep [] s h = ground arith
cut-append sep (c ∷ p) s h = ground (arith, cut-append sep p s h.1)

pub cut-none : (sep : ℕ) (p : Text) → Lacks sep p → cut sep p ≡ none
unfolding cut
cut-none sep [] h = refl
cut-none sep (c ∷ p) h = ground (arith, cut-none sep p h.1)

pub before_self : (sep : ℕ) (p : Text) → Lacks sep p → before sep p ≡ p
unfolding before
before_self sep [] h = refl
before_self sep (c ∷ p) h = ground (arith, before_self sep p h.1)

pub before-append : (sep : ℕ) (p s : Text) → Lacks sep p → before sep (p ++ sep ∷ s) ≡ p
unfolding before
before-append sep [] s h = ground arith
before-append sep (c ∷ p) s h = ground (arith, before-append sep p s h.1)

push-Lacks :
    (sep c : ℕ) (ps : List Text) → c ≢ sep → All (Lacks sep) ps → All (Lacks sep) (push c ps)
push-Lacks sep c [] n h = ((n, tt), tt)
push-Lacks sep c (p ∷ ps) n h = ((n, h.0), h.1)

pub split-Lacks : (sep : ℕ) (s : Text) → All (Lacks sep) (split sep s)
unfolding split
split-Lacks sep [] = (tt, tt)
split-Lacks sep (c ∷ s) = elim (Bool-cases (c == sep)) [
  | inl e ↦ rw e (tt, split-Lacks sep s)
  | inr e ↦ rw e (push-Lacks sep c (split sep s) (λ h. ground (arith, e, h)) (split-Lacks sep s))
]

pub cut-Lacks :
    (sep b : ℕ) (s p r : Text) → cut sep s ≡ some (p, r) → Lacks b s → Lacks sep p × Lacks b p
unfolding cut
cut-Lacks sep b [] p r e h = absurd (ground (arith, e))
cut-Lacks sep b (c ∷ s) p r e h = elim (Bool-cases (c == sep)) [
  | inl here ↦
      let same : [] ≡ p = ground (arith, rw here at e) in
      subst (λ q. Lacks sep q × Lacks b q) same (tt, tt)
  | inr other ↦ elim (Option-cases (cut sep s)) [
    | inl e' ↦ absurd (ground (arith, rw (other, e') at e))
    | inr ((q, t), e') ↦
        let (l, m) = cut-Lacks sep b s q t e' h.1 in
        let same : c ∷ q ≡ p = ground (arith, rw (other, e') at e) in
        subst (λ x. Lacks sep x × Lacks b x) same
          (((λ same. ground (arith, other, same)), l), (h.0, m))
  ]
]

pub Lacks-prop : (b : ℕ) (t : Text) → IsProp (Lacks b t)
Lacks-prop b [] = hlevel
Lacks-prop b (c ∷ t) = hlevel (Lacks-prop b t)
