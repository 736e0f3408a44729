-- ===== src/Strings.antt =====
-- The functions of Go's `strings` package that the exporter calls, over code points. Case mapping
-- is that of ASCII letters: Slurm's states, units and resource names hold no others.
pub mod Parts
pub mod Trim
use slurm_insights_exporter.Prelude.{
  ℕ, ◌-◌, ◌+◌, Bool, true, false, ◌&&◌, ◌||◌, List, [], ◌∷◌, ◌++◌, map, reverse, Option, none, some,
  Text, text_eq, ltb, leb, ◌==◌, if◌then◌else◌, is_some, codes, ◌≡◌, refl,
}

-- `unicode.IsSpace`.
unfoldable pub is_space : ℕ → Bool
is_space c =
    (leb 9 c && leb c 13)
    || c == 32
    || c == 0x85
    || c == 0xa0
    || c == 0x1680
    || (leb 0x2000 c && leb c 0x200a)
    || c == 0x2028
    || c == 0x2029
    || c == 0x202f
    || c == 0x205f
    || c == 0x3000

unfoldable pub trim_left : Text → Text
trim_left [] = []
trim_left (c ∷ s) = if is_space c then trim_left s else c ∷ s

-- `strings.TrimSpace`.
unfoldable pub trim_space : Text → Text
unfolding trim_left
trim_space s = reverse (trim_left (reverse (trim_left s)))

-- Puts a code point in front of the first part.
abbrev pub push : ℕ → List Text → List Text
push c [] = (c ∷ []) ∷ []
push c (p ∷ ps) = (c ∷ p) ∷ ps

-- `strings.Split` at a separator of one code point.
unfoldable pub split : ℕ → Text → List Text
split sep [] = [] ∷ []
split sep (c ∷ s) = let rest = split sep s in if c == sep then [] ∷ rest else push c rest

-- `strings.Join` with a separator of one code point.
unfoldable pub join : ℕ → List Text → Text
join sep [] = []
join sep (p ∷ []) = p
join sep (p ∷ q ∷ ps) = p ++ sep ∷ join sep (q ∷ ps)

abbrev pub into_before : ℕ → Option (Text × Text) → Option (Text × Text)
into_before c none = none
into_before c (some (p, q)) = some (c ∷ p, q)

-- The texts on both sides of the first `sep`: `s[:p]` and `s[p+1:]` with `p` of `IndexByte`.
unfoldable pub cut : ℕ → Text → Option (Text × Text)
cut sep [] = none
cut sep (c ∷ s) = if c == sep then some ([], s) else into_before c (cut sep s)

-- `strings.SplitN(s, sep, 2)[0]`: what stands before the first `sep`.
unfoldable pub before : ℕ → Text → Text
before sep [] = []
before sep (c ∷ s) = if c == sep then [] else c ∷ before sep s

-- `strings.Contains` of one code point.
unfoldable pub contains : ℕ → Text → Bool
contains b [] = false
contains b (c ∷ s) = c == b || contains b s

abbrev pub is_last : ℕ → Text → Bool
is_last b [] = false
is_last b (c ∷ []) = c == b
is_last b (c ∷ d ∷ s) = is_last b (d ∷ s)

abbrev pub init : Text → Text
init [] = []
init (c ∷ []) = []
init (c ∷ d ∷ s) = c ∷ init (d ∷ s)

-- `strings.TrimSuffix` of one code point.
unfoldable pub trim_suffix : ℕ → Text → Text
trim_suffix b s = if is_last b s then init s else s

-- `strings.HasPrefix` and `strings.HasSuffix`.
unfoldable pub has_prefix : Text → Text → Bool
has_prefix s [] = true
has_prefix [] (d ∷ t) = false
has_prefix (c ∷ s) (d ∷ t) = c == d && has_prefix s t

unfoldable pub has_suffix : Text → Text → Bool
unfolding has_prefix
has_suffix s t = has_prefix (reverse s) (reverse t)

unfoldable pub upper : ℕ → ℕ
upper c = if leb b'a' c && leb c b'z' then c - 32 else c

unfoldable pub lower : ℕ → ℕ
lower c = if leb b'A' c && leb c b'Z' then c + 32 else c

-- `strings.ToUpper` and `strings.ToLower`.
unfoldable pub to_upper : Text → Text
unfolding upper
to_upper s = map upper s

unfoldable pub to_lower : Text → Text
unfolding lower
to_lower s = map lower s

-- Closes a field, if there is one.
abbrev pub emit_field : Text → List Text → List Text
emit_field [] fs = fs
emit_field (c ∷ w) fs = (c ∷ w) ∷ fs

fields_from : Text → Text → List Text
fields_from word [] = emit_field word []
fields_from word (c ∷ s) =
    let stop = emit_field word (fields_from [] s) in
    let more = fields_from (word ++ c ∷ []) s in if is_space c then stop else more

-- `strings.Fields`.
unfoldable pub fields : Text → List Text
unfolding fields_from is_space
fields s = fields_from [] s

-- `strings.ReplaceAll` of one code point by another.
unfoldable pub replace_all : ℕ → ℕ → Text → Text
replace_all a b s = map (λ c. if c == a then b else c) s
