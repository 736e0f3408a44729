-- ===== src/Parse.antt =====
-- internal/slurm/parse.go: reading the fields of Slurm's command output.
pub mod Gpu
pub mod Durations
pub mod Quantities
pub mod Rows
use slurm_insights_exporter.Prelude.{
  ℕ, zero, suc, ◌≡◌, refl, Bool, true, false, ◌&&◌, ◌||◌, not, List, [], ◌∷◌, map, Option, none,
  some, Text, codes, text_eq, leb, ◌==◌, if◌then◌else◌, length,
}
use slurm_insights_exporter.Strings.{
  trim_space, trim_suffix, split, cut, before, to_upper, to_lower,
}
use slurm_insights_exporter.Float.{Float, num}

-- Keeps the rows of the lines that are not blank.
rows_of : List Text → List (List Text)
rows_of [] = []
rows_of (l ∷ ls) =
    let rest = rows_of ls in if text_eq (trim_space l) [] then rest else split b'|' l ∷ rest

unfoldable pub lines : Text → List (List Text)
unfolding rows_of
lines b = rows_of (split b'\n' (trim_space b))

unfoldable pub base_state : Text → Text
base_state s = before b' ' (trim_suffix b'+' (to_upper (trim_space s)))

unfoldable pub clean : Text → Text
clean s = trim_space (trim_suffix b'*' s)

abbrev pub is_digit : ℕ → Bool
is_digit c = leb b'0' c && leb c b'9'

-- The longest prefix of characters in a class, and the rest.
unfoldable pub span : (ℕ → Bool) → Text → Text × Text
span p [] = ([], [])
span p (c ∷ s) = let (d, r) = span p s in if p c then (c ∷ d, r) else ([], c ∷ s)

-- `[KMGTPE]` and `[cn]` under `(?i)`; U+212A folds to `k`.
abbrev pub is_unit : ℕ → Bool
is_unit c =
    let u = to_upper (c ∷ []) in
    text_eq u (codes "K")
    || text_eq u (codes "M")
    || text_eq u (codes "G")
    || text_eq u (codes "T")
    || text_eq u (codes "P")
    || text_eq u (codes "E")
    || c == 0x212a

abbrev pub is_scope : ℕ → Bool
is_scope c = text_eq (to_lower (c ∷ [])) (codes "c") || text_eq (to_lower (c ∷ [])) (codes "n")

abbrev pub Quantity : Type 0
Quantity = record { digits : Text; suffix : Text; scope : Text }

-- What may follow the digits: a unit, a scope, both or nothing, up to the end of the text.
unfoldable pub quantity_tail : Text → Text → Option Quantity
quantity_tail d [] = some (record { digits = d; suffix = []; scope = [] })
quantity_tail d (u ∷ []) =
    if is_unit u
    then some (record { digits = d; suffix = u ∷ []; scope = [] })
    else if is_scope u
    then some (record { digits = d; suffix = []; scope = u ∷ [] })
    else none
quantity_tail d (u ∷ v ∷ []) =
    if is_unit u && is_scope v
    then some (record { digits = d; suffix = u ∷ []; scope = v ∷ [] })
    else none
quantity_tail d (u ∷ v ∷ w ∷ s) = none

-- `quantityRE.FindStringSubmatch`.
unfoldable pub quantity : Text → Option Quantity
unfolding quantity_tail span
quantity s =
    let (d, r) = span (λ c. is_digit c || c == b'.') s in
    if text_eq d [] then none else quantity_tail d r

-- The map `powers` of `parseBytes`, at an upper-case suffix; a missing key gives 0.
unfoldable pub power : Text → ℕ
power s =
    if text_eq s (codes "K")
    then 1
    else if text_eq s (codes "M")
    then 2
    else if text_eq s (codes "G")
    then 3
    else if text_eq s (codes "T")
    then 4
    else if text_eq s (codes "P")
    then 5
    else if text_eq s (codes "E")
    then 6
    else 0

abbrev is_absent : Text → Bool
is_absent s =
    text_eq s []
    || text_eq s (codes "N/A")
    || text_eq s (codes "Unknown")
    || text_eq s (codes "UNLIMITED")

abbrev is_endless : Text → Bool
is_endless s =
    text_eq s []
    || text_eq s (codes "Unknown")
    || text_eq s (codes "UNLIMITED")
    || text_eq s (codes "Partition_Limit")

module _ {F : Type 0} ⦃fl : Float F⦄ where
  open fl use {add, mul, parse}

  unfoldable pub number : Text → F
  number s = let t = trim_space s in if is_absent t then num 0 else parse t

  -- The switch over the parts between colons, behind the days.
  unfoldable pub clock_parts : F → List Text → F
  clock_parts days (h ∷ m ∷ s ∷ []) =
      add (add (add (mul days (num 86400)) (mul (number h) (num 3600))) (mul (number m) (num 60)))
        (number s)
  clock_parts days (m ∷ s ∷ []) =
      add (add (add (mul days (num 86400)) (mul (num 0) (num 3600))) (mul (number m) (num 60)))
        (number s)
  clock_parts days (s ∷ []) =
      add (add (add (mul days (num 86400)) (mul (num 0) (num 3600))) (mul (num 0) (num 60)))
        (number s)
  clock_parts days _ =
      add (add (add (mul days (num 86400)) (mul (num 0) (num 3600))) (mul (num 0) (num 60))) (num 0)

  -- Splits the days off at the first dash.
  unfoldable pub with_days : Text → Option (Text × Text) → F
  with_days t none = clock_parts (num 0) (split b':' t)
  with_days t (some (d, rest)) = clock_parts (number d) (split b':' rest)

  unfoldable pub duration : Text → F
  duration s =
      let t = trim_space (before b'.' s) in if is_endless t then num 0 else with_days t (cut b'-' t)

  -- The loop `v *= 1024`.
  unfoldable pub scale : ℕ → F → F
  scale zero v = v
  scale (suc n) v = scale n (mul v (num 1024))

  unfoldable pub bytes_of : Text → Option Quantity → F
  bytes_of s none = number s
  bytes_of s (some q) = scale (power (to_upper q.suffix)) (number q.digits)

  unfoldable pub parse_bytes : Text → F
  parse_bytes s = bytes_of s (quantity (trim_space s))

  unfoldable pub allocation_of : F → F → F → Option Quantity → F
  allocation_of v cpus nodes none = v
  allocation_of v cpus nodes (some q) =
      if text_eq (to_lower q.scope) (codes "c")
      then mul v cpus
      else if text_eq (to_lower q.scope) (codes "n")
      then mul v nodes
      else v

  unfoldable pub memory_allocation : Text → F → F → F
  memory_allocation s cpus nodes =
      allocation_of (parse_bytes s) cpus nodes (quantity (trim_space s))
