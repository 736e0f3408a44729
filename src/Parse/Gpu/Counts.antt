-- ===== src/Parse/Gpu/Counts.antt =====
-- One match of the pattern of internal/slurm/parse.go's `gpuCount`, at an entry of a GRES text.
use slurm_insights_exporter.Prelude.{
  append_assoc, ◌==◌, ◌||◌, ℕ, ◌≡◌, ◌≢◌, refl, true, [], ◌∷◌, ◌++◌, none, some, Text, codes, All,
  text_eq, arith,
}
use slurm_insights_exporter.Strings.{to_lower}
use slurm_insights_exporter.Parse.{is_digit, span}
use slurm_insights_exporter.Parse.Gpu.{
  count_digits, count_at, is_type_char, type_rest, typed_count, gpu_entry,
}

-- Decimal digits, at least one.
pub record IsCount (d : Text) : Type 0 where
  pub nonempty : d ≢ []
  pub digits : All (λ c. is_digit c ≡ true) d

-- The name of a type: at least one character, and none of `:`, `,`, `(` and `)`.
pub record IsType (t : Text) : Type 0 where
  pub nonempty : t ≢ []
  pub chars : All (λ c. is_type_char c ≡ true) t

-- What may stand behind an entry: nothing, a comma or an opening parenthesis.
abbrev pub IsEnd : Text → Type 0
IsEnd [] = Unit
IsEnd (c ∷ s) = (c == b',' || c == b'(') ≡ true

span_digits :
    (d rest : Text)
    → All (λ c. is_digit c ≡ true) d
    → IsEnd rest
    → span is_digit (d ++ rest) ≡ (d, rest)
unfolding span
span_digits [] [] h e = refl
span_digits [] (c ∷ s) h e = ground (arith, e)
span_digits (c ∷ d) rest h e = rw (h.0, span_digits d rest h.1 e)

count_digits_lem :
    (d rest : Text) → IsCount d → IsEnd rest → count_digits (d ++ rest) ≡ some (d, rest)
unfolding count_digits text_eq
count_digits_lem [] rest h e = absurd (h.nonempty refl)
count_digits_lem (c ∷ d) rest h e = rw (span_digits (c ∷ d) rest h.digits e)

count_at-colon :
    (d rest : Text) → IsCount d → IsEnd rest → count_at (b':' ∷ (d ++ rest)) ≡ some (d, rest)
unfolding count_at
count_at-colon d rest h e = count_digits_lem d rest h e

count_at-equals :
    (d rest : Text) → IsCount d → IsEnd rest → count_at (b'=' ∷ (d ++ rest)) ≡ some (d, rest)
unfolding count_at
count_at-equals d rest h e = count_digits_lem d rest h e

-- Digits are read as a type, and then no count is left.
type_rest-digits :
    (d rest : Text) → All (λ c. is_digit c ≡ true) d → IsEnd rest → type_rest (d ++ rest) ≡ none
unfolding type_rest count_at
type_rest-digits [] [] h e = refl
type_rest-digits [] (c ∷ s) h e = ground (arith, e)
type_rest-digits (c ∷ d) rest h e = ground (arith, type_rest-digits d rest h.1 e, h.0)

type_rest-colon :
    (t d rest : Text)
    → All (λ c. is_type_char c ≡ true) t
    → IsCount d
    → IsEnd rest
    → type_rest (t ++ b':' ∷ (d ++ rest)) ≡ some (d, rest)
unfolding type_rest
type_rest-colon [] d rest h n e = count_at-colon d rest n e
type_rest-colon (c ∷ t) d rest h n e = rw (type_rest-colon t d rest h.1 n e, h.0)

type_rest-equals :
    (t d rest : Text)
    → All (λ c. is_type_char c ≡ true) t
    → IsCount d
    → IsEnd rest
    → type_rest (t ++ b'=' ∷ (d ++ rest)) ≡ some (d, rest)
unfolding type_rest
type_rest-equals [] d rest h n e =
    rw (type_rest-digits d rest n.digits e) (count_at-equals d rest n e)
type_rest-equals (c ∷ t) d rest h n e = rw (type_rest-equals t d rest h.1 n e, h.0)

typed_count-digits :
    (d rest : Text) → IsCount d → IsEnd rest → typed_count (b':' ∷ (d ++ rest)) ≡ none
unfolding typed_count
typed_count-digits [] rest h e = absurd (h.nonempty refl)
typed_count-digits (c ∷ d) rest h e = ground (arith, type_rest-digits d rest h.digits.1 e)

typed_count-colon :
    (t d rest : Text)
    → IsType t
    → IsCount d
    → IsEnd rest
    → typed_count (b':' ∷ (t ++ b':' ∷ (d ++ rest))) ≡ some (d, rest)
unfolding typed_count
typed_count-colon [] d rest h n e = absurd (h.nonempty refl)
typed_count-colon (c ∷ t) d rest h n e = rw (h.chars.0, type_rest-colon t d rest h.chars.1 n e)

typed_count-type_equals :
    (t d rest : Text)
    → IsType t
    → IsCount d
    → IsEnd rest
    → typed_count (b':' ∷ (t ++ b'=' ∷ (d ++ rest))) ≡ some (d, rest)
unfolding typed_count
typed_count-type_equals [] d rest h n e = absurd (h.nonempty refl)
typed_count-type_equals (c ∷ t) d rest h n e =
    rw (h.chars.0, type_rest-equals t d rest h.chars.1 n e)

typed_count-equals : (s : Text) → typed_count (b'=' ∷ s) ≡ none
unfolding typed_count
typed_count-equals [] = refl
typed_count-equals (c ∷ s) = refl

-- The four forms of what follows `gpu` in an entry.
pub data Form : Type 0 where
  colon equals : Form
  typed_colon typed_equals : Text → Form

abbrev pub IsForm : Form → Type 0
IsForm (typed_colon t) = IsType t
IsForm (typed_equals t) = IsType t
IsForm _ = Unit

-- What follows `gpu`, up to the digits.
abbrev pub lead : Form → Text
lead colon = b':' ∷ []
lead equals = b'=' ∷ []
lead (typed_colon t) = b':' ∷ (t ++ b':' ∷ [])
lead (typed_equals t) = b':' ∷ (t ++ b'=' ∷ [])

pub gpu_entry-lead :
    (g p u : ℕ) (k : Form) (d rest : Text)
    → text_eq (to_lower (g ∷ p ∷ u ∷ [])) (codes "gpu") ≡ true
    → IsForm k
    → IsCount d
    → IsEnd rest
    → gpu_entry (g ∷ p ∷ u ∷ (lead k ++ (d ++ rest))) ≡ some (d, rest)
unfolding gpu_entry
gpu_entry-lead g p u colon d rest l h n e =
    rw (l, typed_count-digits d rest n e) (count_at-colon d rest n e)
gpu_entry-lead g p u equals d rest l h n e =
    rw (l, typed_count-equals (d ++ rest)) (count_at-equals d rest n e)
gpu_entry-lead g p u (typed_colon t) d rest l h n e =
    rw (l, append_assoc t (b':' ∷ []) (d ++ rest), typed_count-colon t d rest h n e) refl
gpu_entry-lead g p u (typed_equals t) d rest l h n e =
    rw (l, append_assoc t (b'=' ∷ []) (d ++ rest), typed_count-type_equals t d rest h n e) refl
