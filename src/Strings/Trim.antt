-- ===== src/Strings/Trim.antt =====
-- Trimming of white space.
use mathlib.Core.List.{reverse}
use slurm_insights_exporter.Prelude.{
  ◌≡◌, refl, false, [], ◌∷◌, Text, All, All-append, reverse-reverse, reverse-append,
}
use slurm_insights_exporter.Strings.{is_space, trim_left, trim_space}

-- A text with no white space in it.
abbrev pub IsSolid : Text → Type 0
IsSolid = All (λ c. is_space c ≡ false)

pub trim_left_self : (s : Text) → IsSolid s → trim_left s ≡ s
unfolding trim_left
trim_left_self [] h = refl
trim_left_self (c ∷ s) h = rw h.0

reverse-IsSolid : (s : Text) → IsSolid s → IsSolid (reverse s)
reverse-IsSolid [] h = tt
reverse-IsSolid (c ∷ s) h =
    rw (reverse-append (c ∷ []) s)
      (All-append (λ c. is_space c ≡ false) (reverse s) (c ∷ []) (reverse-IsSolid s h.1) (h.0, tt))

pub trim_space_self : (s : Text) → IsSolid s → trim_space s ≡ s
unfolding trim_space
trim_space_self s h =
    rw (trim_left_self s h, trim_left_self (reverse s) (reverse-IsSolid s h)) (reverse-reverse s)
