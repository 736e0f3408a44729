-- ===== src/Parse/Gpu.antt =====
-- `gpuCount` of internal/slurm/parse.go: the matches of
-- `(?i)(?:^|,)gpu(?::[^:,()]+)?(?::|=)([0-9]+)` in a text, leftmost first.
pub mod Counts
pub mod Entries
use slurm_insights_exporter.Prelude.{
  ℕ, zero, suc, Bool, true, false, ◌&&◌, ◌||◌, not, List, [], ◌∷◌, Option, none, some, Text, codes,
  text_eq, ◌==◌, if◌then◌else◌, length,
}
use slurm_insights_exporter.Strings.{to_lower}
use slurm_insights_exporter.Float.{Float, num}
use slurm_insights_exporter.Parse.{is_digit, span, number}

-- The captured digits and the text behind the match.
abbrev pub Match : Type 0
Match = Option (Text × Text)

abbrev pub or_else : Match → Match → Match
or_else (some m) other = some m
or_else none other = other

-- `([0-9]+)`
unfoldable pub count_digits : Text → Match
unfolding span
count_digits s = let (d, r) = span is_digit s in if text_eq d [] then none else some (d, r)

-- `(?::|=)([0-9]+)`
unfoldable pub count_at : Text → Match
unfolding count_digits
count_at [] = none
count_at (c ∷ s) = if c == b':' || c == b'=' then count_digits s else none

-- `[^:,()]`
abbrev pub is_type_char : ℕ → Bool
is_type_char c = not (c == b':' || c == b',' || c == b'(' || c == b')')

-- Behind the first character of a type: as many more as can be, given back one by one.
unfoldable pub type_rest : Text → Match
unfolding count_at
type_rest [] = none
type_rest (c ∷ s) =
    let longer = or_else (type_rest s) (count_at (c ∷ s)) in
    if is_type_char c then longer else count_at (c ∷ s)

-- `:[^:,()]+` and what follows it.
unfoldable pub typed_count : Text → Match
unfolding type_rest
typed_count (c ∷ t ∷ s) = if c == b':' && is_type_char t then type_rest s else none
typed_count _ = none

-- `gpu(?::[^:,()]+)?(?::|=)([0-9]+)`
unfoldable pub gpu_entry : Text → Match
unfolding typed_count
gpu_entry (g ∷ p ∷ u ∷ s) =
    if text_eq (to_lower (g ∷ p ∷ u ∷ [])) (codes "gpu")
    then or_else (typed_count s) (count_at s)
    else none
gpu_entry _ = none

-- A match at this position; `^` holds only at the start of the text.
unfoldable pub gpu_match : Bool → Text → Match
unfolding gpu_entry
gpu_match at_start [] = none
gpu_match at_start (c ∷ s) =
    let first = if at_start then gpu_entry (c ∷ s) else none in
    or_else first (if c == b',' then gpu_entry s else none)

-- `FindAllStringSubmatch(s, -1)`, whose search goes on behind each match. Every round takes at
-- least one character, so the length of the text plus one is enough fuel.
unfoldable pub gpu_matches : ℕ → Bool → Text → List Text
gpu_matches zero at_start s = []
gpu_matches (suc f) at_start [] = []
gpu_matches (suc f) at_start (c ∷ s) = elim (gpu_match at_start (c ∷ s)) [
  | some (d, rest) ↦ d ∷ gpu_matches f false rest
  | none ↦ gpu_matches f false s
]

module _ {F : Type 0} ⦃fl : Float F⦄ where
  abbrev pub sum_numbers : F → List Text → F
  sum_numbers n [] = n
  sum_numbers n (d ∷ ds) = sum_numbers (fl.add n (number d)) ds

  unfoldable pub gpu_count : Text → F
  gpu_count s = sum_numbers (num 0) (gpu_matches (suc (length s)) true s)
