-- ===== src/Parse/Gpu/Entries.antt =====
-- `gpuCount` of internal/slurm/parse.go on whole GRES texts.
use slurm_insights_exporter.Prelude.{
  ℕ, zero, suc, length, ◌≡◌, ◌≢◌, ◌≤◌, refl, sym, ◌∙◌, ap, Bool, true, false, List, [], ◌∷◌, ◌++◌,
  append_assoc, append-nil, none, some, map, Text, codes, All, Lacks, text_eq, arith, ◌==◌,
  if◌then◌else◌, length-append,
}
use slurm_insights_exporter.Float.{Float, num}
use slurm_insights_exporter.Strings.{to_lower, join}
use slurm_insights_exporter.Parse.Gpu.{
  or_else, gpu_entry, gpu_match, gpu_matches, sum_numbers, gpu_count,
}
use slurm_insights_exporter.Parse.Gpu.Counts.{IsCount, IsEnd, Form, IsForm, lead, gpu_entry-lead}

-- A part of a GRES text between commas: an entry for GPUs, its digits and what stands behind them, or
-- anything else.
pub data Part : Type 0 where
  gpu : (g p u : ℕ) (k : Form) (d suffix : Text) → Part
  other : Text → Part

abbrev pub part_text : Part → Text
part_text (gpu g p u k d x) = g ∷ p ∷ u ∷ (lead k ++ (d ++ x))
part_text (other t) = t

abbrev pub spells_gpu : ℕ → ℕ → ℕ → Bool
spells_gpu g p u = text_eq (to_lower (g ∷ p ∷ u ∷ [])) (codes "gpu")

abbrev pub names_gpu : Text → Bool
names_gpu (g ∷ p ∷ u ∷ s) = spells_gpu g p u
names_gpu _ = false

-- Behind the digits stands nothing or something in parentheses, with no comma.
abbrev pub IsSuffix : Text → Type 0
IsSuffix [] = Unit
IsSuffix (c ∷ x) = (c ≡ b'(') × Lacks b',' x

abbrev pub IsPart : Part → Type 0
IsPart (gpu g p u k d x) = (spells_gpu g p u ≡ true) × IsForm k × IsCount d × IsSuffix x
IsPart (other t) = (names_gpu t ≡ false) × Lacks b',' t

-- The digits of the entries for GPUs.
abbrev pub counts : List Part → List Text
counts [] = []
counts (gpu g p u k d x ∷ ps) = d ∷ counts ps
counts (other t ∷ ps) = counts ps

-- What stands behind a part.
abbrev tail_text : List Part → Text
tail_text [] = []
tail_text (q ∷ ps) = b',' ∷ (part_text q ++ tail_text ps)

join-tail_text :
    (q : Part) (ps : List Part) → join b',' (map part_text (q ∷ ps)) ≡ part_text q ++ tail_text ps
unfolding join
join-tail_text q [] = sym (append-nil (part_text q))
join-tail_text q (r ∷ ps) = ap (λ t. part_text q ++ b',' ∷ t) (join-tail_text r ps)

gpu_matches-nil : (f : ℕ) (at_start : Bool) → gpu_matches f at_start [] ≡ []
unfolding gpu_matches
gpu_matches-nil zero at_start = refl
gpu_matches-nil (suc f) at_start = refl

gpu_matches_found :
    (f c : ℕ) (at_start : Bool) (s d rest : Text)
    → gpu_match at_start (c ∷ s) ≡ some (d, rest)
    → gpu_matches (suc f) at_start (c ∷ s) ≡ d ∷ gpu_matches f false rest
unfolding gpu_matches
gpu_matches_found f c at_start s d rest h = rw (h, gpu_matches)

gpu_matches_missed :
    (f c : ℕ) (at_start : Bool) (s : Text)
    → gpu_match at_start (c ∷ s) ≡ none
    → gpu_matches (suc f) at_start (c ∷ s) ≡ gpu_matches f false s
unfolding gpu_matches
gpu_matches_missed f c at_start s h = rw (h, gpu_matches)

-- A text with no comma has no match, unless the search begins with it.
skip :
    (p t : Text) (n : ℕ)
    → Lacks b',' p
    → length (p ++ t) ≤ n
    → (m : ℕ) × (length t ≤ m) × (gpu_matches n false (p ++ t) ≡ gpu_matches m false t)
skip [] t n h l = (n, l, refl)
skip (c ∷ p) t zero h l = absurd (omega (arith, l))
skip (c ∷ p) t (suc n) h l =
    let (m, k, e) = skip p t n h.1 (omega (arith, l)) in
    (m, k, gpu_matches_missed n c false (p ++ t) (unfold gpu_match in ground (arith, h.0)) ∙ e)

tail_text-IsEnd : (x : Text) (ps : List Part) → IsSuffix x → IsEnd (x ++ tail_text ps)
tail_text-IsEnd [] [] h = tt
tail_text-IsEnd [] (q ∷ ps) h = refl
tail_text-IsEnd (c ∷ x) ps h = ground (arith, h.0)

IsSuffix-Lacks : (x : Text) → IsSuffix x → Lacks b',' x
IsSuffix-Lacks [] h = tt
IsSuffix-Lacks (c ∷ x) h = ((λ e. ground (arith, e, h.0)), h.1)

part_entry :
    (g p u : ℕ) (k : Form) (d x : Text) (ps : List Part)
    → IsPart (gpu g p u k d x)
    → gpu_entry (part_text (gpu g p u k d x) ++ tail_text ps) ≡ some (d, x ++ tail_text ps)
part_entry g p u k d x ps (l, h, n, e) =
    ap (λ t. gpu_entry (g ∷ p ∷ u ∷ t))
      (append_assoc (lead k) (d ++ x) (tail_text ps)
        ∙ ap (λ t. lead k ++ t) (append_assoc d x (tail_text ps)))
    ∙ gpu_entry-lead g p u k d (x ++ tail_text ps) l h n (tail_text-IsEnd x ps e)

comma_entry : (s : Text) → gpu_entry (b',' ∷ s) ≡ none
unfolding gpu_entry to_lower text_eq
comma_entry [] = refl
comma_entry (p ∷ []) = refl
comma_entry (p ∷ u ∷ s) = refl

second_comma : (a : ℕ) (s : Text) → gpu_entry (a ∷ b',' ∷ s) ≡ none
unfolding gpu_entry to_lower text_eq
second_comma a [] = refl
second_comma a (u ∷ s) = ground arith

other_entry :
    (t : Text) (ps : List Part) → names_gpu t ≡ false → gpu_entry (t ++ tail_text ps) ≡ none
unfolding gpu_entry to_lower text_eq
other_entry [] [] h = refl
other_entry [] (q ∷ ps) h = comma_entry (part_text q ++ tail_text ps)
other_entry (a ∷ []) [] h = refl
other_entry (a ∷ []) (q ∷ ps) h = second_comma a (part_text q ++ tail_text ps)
other_entry (a ∷ b ∷ []) [] h = refl
other_entry (a ∷ b ∷ []) (q ∷ ps) h = ground arith
other_entry (a ∷ b ∷ c ∷ s) ps h = rw h refl

start_found :
    (g : ℕ) (s d rest : Text)
    → gpu_entry (g ∷ s) ≡ some (d, rest)
    → gpu_match true (g ∷ s) ≡ some (d, rest)
unfolding gpu_match
start_found g s d rest h = ap (λ m. or_else m (if g == b',' then gpu_entry s else none)) h

start_missed :
    (c : ℕ) (s : Text) → c ≢ b',' → gpu_entry (c ∷ s) ≡ none → gpu_match true (c ∷ s) ≡ none
unfolding gpu_match
start_missed c s n h =
    ap (λ m. or_else m (if c == b',' then gpu_entry s else none)) h ∙ ground (arith, n)

start_comma : (s : Text) → gpu_match true (b',' ∷ s) ≡ gpu_match false (b',' ∷ s)
unfolding gpu_match
start_comma s = ap (λ m. or_else m (gpu_entry s)) (comma_entry s)

gpu_matches_start :
    (f c : ℕ) (s : Text)
    → gpu_match true (c ∷ s) ≡ gpu_match false (c ∷ s)
    → gpu_matches (suc f) true (c ∷ s) ≡ gpu_matches (suc f) false (c ∷ s)
unfolding gpu_matches
gpu_matches_start f c s h = rw (h, gpu_matches) refl

suffix_shorter :
    (g p u : ℕ) (k : Form) (d x t : Text)
    → length (x ++ t) ≤ length (part_text (gpu g p u k d x) ++ t)
suffix_shorter g p u k d x t = ground (
  arith,
  length-append x t,
  length-append (lead k ++ (d ++ x)) t,
  length-append (lead k) (d ++ x),
  length-append d x,
)

-- The matches behind a comma, with as much fuel as there are characters.
tail_matches :
    (ps : List Part) (n : ℕ)
    → All IsPart ps
    → length (tail_text ps) ≤ n
    → gpu_matches n false (tail_text ps) ≡ counts ps
tail_matches [] n h l = gpu_matches-nil n false
tail_matches (q ∷ ps) zero h l = absurd (omega (arith, l))
tail_matches (gpu g p u k d x ∷ ps) (suc n) h l =
    let (m, fuel, e) =
      skip x (tail_text ps) n (IsSuffix-Lacks x h.0.3)
        (omega (arith, l, suffix_shorter g p u k d x (tail_text ps))) in
    gpu_matches_found n b',' false (part_text (gpu g p u k d x) ++ tail_text ps) d
      (x ++ tail_text ps) (unfold gpu_match in part_entry g p u k d x ps h.0)
    ∙ ap (◌∷◌ d) (e ∙ tail_matches ps m h.1 fuel)
tail_matches (other t ∷ ps) (suc n) h l =
    let (m, fuel, e) = skip t (tail_text ps) n h.0.1 (omega (arith, l)) in
    gpu_matches_missed n b',' false (t ++ tail_text ps) (unfold gpu_match in other_entry t ps h.0.0)
    ∙ e
    ∙ tail_matches ps m h.1 fuel

-- The matches of a whole text.
text_matches :
    (q : Part) (ps : List Part) (n : ℕ)
    → IsPart q
    → All IsPart ps
    → length (part_text q ++ tail_text ps) ≤ n
    → gpu_matches (suc n) true (part_text q ++ tail_text ps) ≡ counts (q ∷ ps)
text_matches (gpu g p u k d x) ps n h hs l =
    let (m, fuel, e) =
      skip x (tail_text ps) n (IsSuffix-Lacks x h.3)
        (omega (arith, l, suffix_shorter g p u k d x (tail_text ps))) in
    gpu_matches_found n g true _ d (x ++ tail_text ps)
      (start_found g _ d (x ++ tail_text ps) (part_entry g p u k d x ps h))
    ∙ ap (◌∷◌ d) (e ∙ tail_matches ps m hs fuel)
text_matches (other []) [] n h hs l = gpu_matches-nil (suc n) true
text_matches (other []) (q ∷ ps) n h hs l =
    gpu_matches_start n b',' (part_text q ++ tail_text ps) (start_comma _)
    ∙ tail_matches (q ∷ ps) (suc n) hs (omega (arith, l))
text_matches (other (c ∷ t)) ps n h hs l =
    let (m, fuel, e) = skip t (tail_text ps) n h.1.1 (omega (arith, l)) in
    gpu_matches_missed n c true (t ++ tail_text ps)
      (start_missed c (t ++ tail_text ps) h.1.0 (other_entry (c ∷ t) ps h.0))
    ∙ e
    ∙ tail_matches ps m hs fuel

module _ (F : Type 0) ⦃fl : Float F⦄ where
  -- The count of GPUs in a list of parts between commas is the sum, in their order, of the numbers of
  -- the entries `gpu:n`, `gpu=n`, `gpu:type:n` and `gpu:type=n`, in upper or lower case and with or
  -- without something in parentheses behind them; a part that does not begin with `gpu` counts nothing.
  pub gpu_count-join :
      (ps : List Part)
      → All IsPart ps
      → gpu_count {F = F} (join b',' (map part_text ps)) ≡ sum_numbers (num 0) (counts ps)
  unfolding gpu_count
  gpu_count-join [] h = unfold join in ap (sum_numbers (num 0)) (gpu_matches-nil 1 true)
  gpu_count-join (q ∷ ps) h =
      ap (λ t. sum_numbers (num 0) (gpu_matches (suc (length t)) true t)) (join-tail_text q ps)
      ∙ ap (sum_numbers (num 0)) (text_matches q ps _ h.0 h.1 (omega arith))
