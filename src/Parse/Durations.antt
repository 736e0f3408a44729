-- ===== src/Parse/Durations.antt =====
-- `duration` of internal/slurm/parse.go on Slurm's formats.
use slurm_insights_exporter.Prelude.{
  ℕ, ◌≡◌, ◌≢◌, refl, ◌∙◌, true, false, Bool-cases, [], ◌∷◌, ◌++◌, none, arith, Text, Lacks, All,
  All-append, codes, text_eq, text_eq_iff, inl, inr, ◌⊎◌,
}
use slurm_insights_exporter.Float.{Float, num}
use slurm_insights_exporter.Strings.{is_space, cut, split}
use slurm_insights_exporter.Strings.Parts.{
  cut-append, cut-none, before_self, before-append, split-append, split_self,
}
use slurm_insights_exporter.Strings.Trim.{IsSolid, trim_space_self}
use slurm_insights_exporter.Parse.{is_endless, number, clock_parts, with_days, duration}

-- A number as Slurm prints it in a duration: no white space and none of the separators.
pub record IsField (s : Text) : Type 0 where
  pub solid : IsSolid s
  pub no_dot : Lacks b'.' s
  pub no_dash : Lacks b'-' s
  pub no_colon : Lacks b':' s

endless_ind :
    (P : Text → Type 0)
    → P []
    → P (codes "Unknown")
    → P (codes "UNLIMITED")
    → P (codes "Partition_Limit")
    → (t : Text) → is_endless t ≡ true
    → P t
endless_ind P a b c d t h = elim (Bool-cases (text_eq t [])) [
  | inl e ↦ rw ((text_eq_iff t []).0 e) a
  | inr n1 ↦ elim (Bool-cases (text_eq t (codes "Unknown"))) [
    | inl e ↦ rw ((text_eq_iff t _).0 e) b
    | inr n2 ↦ elim (Bool-cases (text_eq t (codes "UNLIMITED"))) [
      | inl e ↦ rw ((text_eq_iff t _).0 e) c
      | inr n3 ↦ rw ((text_eq_iff t (codes "Partition_Limit")).0 (rw (n1, n2, n3) at h)) d
    ]
  ]
]

-- None of the words for "no limit" holds a dash or a colon.
is_endless-cut : (t : Text) → is_endless t ≡ true → (cut b'-' t ≡ none) × (cut b':' t ≡ none)
unfolding cut
is_endless-cut =
    endless_ind (λ t. (cut b'-' t ≡ none) × (cut b':' t ≡ none)) (refl, refl) (refl, refl)
      (refl, refl) (refl, refl)

not-is_endless : (t : Text) → (cut b'-' t ≢ none) ⊎ (cut b':' t ≢ none) → is_endless t ≡ false
not-is_endless t h = elim (Bool-cases (is_endless t)) [
  | inr e ↦ e
  | inl e ↦ let (dash, colon) = is_endless-cut t e in ground arith
]

abbrev pub clock : Text → Text → Text → Text
clock h m s = h ++ b':' ∷ (m ++ b':' ∷ s)

split-clock :
    (h m s : Text) → IsField h → IsField m → IsField s → split b':' (clock h m s) ≡ h ∷ m ∷ s ∷ []
split-clock h m s ih im is = rw (
  split-append b':' h (m ++ b':' ∷ s) ih.no_colon,
  split-append b':' m s im.no_colon,
  split_self b':' s is.no_colon,
)

All-joined :
    (P : ℕ → Type 0) (sep : ℕ) (p s : Text) → P sep → All P p → All P s → All P (p ++ sep ∷ s)
All-joined P sep p s x hp hs = All-append P p (sep ∷ s) hp (x, hs)

-- White space and a dot stand nowhere in the text, so it is read as it is.
abbrev IsPlain : Text → Type 0
IsPlain t = IsSolid t × Lacks b'.' t

clock-IsPlain : (h m s : Text) → IsField h → IsField m → IsField s → IsPlain (clock h m s)
unfolding is_space
clock-IsPlain h m s ih im is = (
  All-joined _ b':' h _ refl ih.solid (All-joined _ b':' m s refl im.solid is.solid),
  All-joined _ b':' h _ (omega arith) ih.no_dot
      (All-joined _ b':' m s (omega arith) im.no_dot is.no_dot),
)

clock-Lacks : (h m s : Text) → IsField h → IsField m → IsField s → Lacks b'-' (clock h m s)
clock-Lacks h m s ih im is =
    All-joined _ b':' h _ (omega arith) ih.no_dash
      (All-joined _ b':' m s (omega arith) im.no_dash is.no_dash)

module _ {F : Type 0} ⦃fl : Float F⦄ where
  open fl use {add, mul}

  duration_plain :
      (t : Text)
      → IsPlain t
      → (cut b'-' t ≢ none) ⊎ (cut b':' t ≢ none)
      → ◌≡◌ {A = F} (duration t) (with_days t (cut b'-' t))
  unfolding duration
  duration_plain t p h = rw (before_self b'.' t p.1, trim_space_self t p.0, not-is_endless t h)

  -- A dot behind a text with no dot, and all that follows it, is dropped.
  pub duration-fraction :
      (t fraction : Text)
      → Lacks b'.' t
      → ◌≡◌ {A = F} (duration (t ++ b'.' ∷ fraction)) (duration t)
  unfolding duration
  duration-fraction t f h = rw (before-append b'.' t f h, before_self b'.' t h)

  -- `days-hours:minutes:seconds`, and `hours:minutes:seconds`: the sum of the parts in seconds, for
  -- parts with no white space and none of `.`, `-` and `:`.
  pub duration-clock :
      (d h m s : Text)
      → IsField d
      → IsField h
      → IsField m
      → IsField s
      → let sum : F → F = λ days.
        add
          (add (add (mul days (num 86400)) (mul (number h) (num 3600))) (mul (number m) (num 60)))
          (number s) in
        (duration (d ++ b'-' ∷ clock h m s) ≡ sum (number d))
        × (duration (clock h m s) ≡ sum (num 0))
  duration-clock d h m s id ih im is =
      let t = clock h m s in
      let plain = clock-IsPlain h m s ih im is in
      let dash = cut-append b'-' d t id.no_dash in
      let colon = cut-append b':' h (m ++ b':' ∷ s) ih.no_colon in
      (
        duration_plain (d ++ b'-' ∷ t)
              (
                All-joined _ b'-' d t (unfold is_space in refl) id.solid plain.0,
                All-joined _ b'-' d t (omega arith) id.no_dot plain.1,
              )
              (inl (λ e. cc))
            ∙ rw dash
                (unfold with_days in rw (split-clock h m s ih im is) (unfold clock_parts in refl)),
        duration_plain t plain (inr (λ e. cc))
            ∙ rw (cut-none b'-' t (clock-Lacks h m s ih im is))
                (unfold with_days in rw (split-clock h m s ih im is) (unfold clock_parts in refl)),
      )
