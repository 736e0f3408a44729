-- ===== src/Collector/KeyValues.antt =====
-- `keyValues`, `tresValues` and the other map helpers at the end of internal/slurm/collector.go.
pub mod Pairs
pub mod Normal
use slurm_insights_exporter.Prelude.{
  keys, List, [], ◌∷◌, ◌++◌, Option, none, some, Text, Dict, codes, text_eq, lookup, insert, ◌||◌,
  ◌==◌, if◌then◌else◌,
}
use slurm_insights_exporter.Float.{Float, num}
use slurm_insights_exporter.Strings.{trim_space, split, cut, before, fields, join}
use slurm_insights_exporter.Sorting.{sort_strings}
use slurm_insights_exporter.Parse.{is_digit, span, number, parse_bytes}
use slurm_insights_exporter.Collector.Groups.{or_zero}

-- `if p := strings.IndexByte(f, '='); p > 0 { m[f[:p]] = f[p+1:] }`
unfoldable pub put_pair : Option (Text × Text) → Dict Text → Dict Text
put_pair none m = m
put_pair (some (k, v)) m = if text_eq k [] then m else insert k v m

unfoldable pub put_pairs : List Text → Dict Text → Dict Text
put_pairs [] m = m
put_pairs (f ∷ fs) m = put_pairs fs (put_pair (cut b'=' f) m)

unfoldable pub key_values : Text → Dict Text
key_values line = put_pairs (fields line) []

unfoldable pub tres_values : Text → Dict Text
tres_values s = put_pairs (split b',' s) []

-- `m[k]`, with the empty text for a missing key.
abbrev pub value_at : Text → Dict Text → Text
value_at k m = or_zero [] (lookup k m)

-- The lines of `strings.Split(strings.TrimSpace(b), "\n")`.
abbrev pub text_lines : Text → List Text
text_lines b = split b'\n' (trim_space b)

module _ {F : Type 0} ⦃fl : Float F⦄ where
  open fl use {format}

  unfoldable pub leading_number : Text → F
  leading_number s = number (span (λ c. is_digit c || c == b'.') (trim_space s)).0

  unfoldable pub tres_number : Text → Text → F
  tres_number k v =
      let w = before b'(' v in if text_eq k (codes "mem") then parse_bytes w else leading_number w

  -- The loop of `tresNumeric`, whose keys are those of its argument, each once.
  unfoldable pub numeric_values : Dict Text → Dict F
  numeric_values [] = []
  numeric_values ((k, v) ∷ m) = (k, tres_number k v) ∷ numeric_values m

  unfoldable pub tres_numeric : Text → Dict F
  tres_numeric s = numeric_values (tres_values s)

  abbrev pub printed_parts : Dict F → List Text → List Text
  printed_parts m [] = []
  printed_parts m (k ∷ ks) =
      (k ++ b'=' ∷ format (or_zero (num 0) (lookup k m))) ∷ printed_parts m ks

  unfoldable pub normalized_tres : Dict F → Text
  normalized_tres m = join b',' (printed_parts m (sort_strings (keys m)))
